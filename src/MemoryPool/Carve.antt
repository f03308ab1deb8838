-- ===== src/MemoryPool/Carve.antt =====
-- Where small allocations lie.
use c_c_linux_learning_code.Common.{
  ℕ, zero, suc, ◌+◌, ◌-◌, ◌%◌, ◌≤◌, ◌<◌, ◌≡◌, inl, inr, refl, arith, true, Option, none, some, List,
  [], ◌∷◌, Bool-cases, All,
}
use c_c_linux_learning_code.MemoryPool.{Node, align_ptr, fits, carve}

-- A node whose used part ends within its block, and whose block ends at an aligned address.
pub record IsNode (n : Node) : Type 0 where
  pub header : n.at + 32 ≤ n.last
  pub within : n.last ≤ n.end
  pub aligned : n.end % 16 ≡ 0
  pub address : n.end < 18446744073709551616

-- The range of `size` bytes from `a` is taken from the free part of one block.
pub record Taken (size a : ℕ) (n n' : Node) : Type 0 where
  pub at : n'.at ≡ n.at
  pub end : n'.end ≡ n.end
  pub from : n.last ≤ a
  pub last : n'.last ≡ a + size
  pub within : a + size ≤ n.end
  pub aligned : a % 16 ≡ 0

-- One node of the list gives the range, and the others stay.
pub data Carved (size a : ℕ) : List Node → List Node → Type 0 where
  here : {n n' : Node} {ns : List Node} → Taken size a n n' → Carved size a (n ∷ ns) (n' ∷ ns)
  there : {n : Node} {ns ns' : List Node} → Carved size a ns ns' → Carved size a (n ∷ ns) (n ∷ ns')

pub align_ptr_lem :
    (p e : ℕ)
    → p ≤ e
    → e % 16 ≡ 0
    → e < 18446744073709551616
    → (p ≤ align_ptr p) × ((align_ptr p ≤ e) × (align_ptr p % 16 ≡ 0))
unfolding align_ptr
align_ptr_lem p e l a b = (omega arith, (omega arith, omega arith))

fits-Taken :
    (n : Node) (size q : ℕ)
    → IsNode n
    → fits n size ≡ true
    → Taken size (align_ptr n.last) n (record n { quote = q; last = align_ptr n.last + size })
unfolding fits
fits-Taken n size q v h =
    let (low, (high, aligned)) = align_ptr_lem n.last n.end v.within v.aligned v.address in
    let bound = v.address in
    let enough : size ≤ (n.end + 18446744073709551616 - align_ptr n.last) % 18446744073709551616 =
      ground arith in
    record {
      at = refl;
      end = refl;
      from = low;
      last = refl;
      within = omega (arith);
      aligned = aligned;
    }

pub Carved-aligned : {size a : ℕ} {ns ns' : List Node} → Carved size a ns ns' → a % 16 ≡ 0
Carved-aligned (here t) = t.aligned
Carved-aligned (there c) = Carved-aligned c

-- Where a walk finds room.
pub data Outcome (size : ℕ) (ns : List Node) : Option (ℕ × List Node) → Type 0 where
  full : Outcome size ns none
  carved : {a : ℕ} {ns' : List Node} → Carved size a ns ns' → Outcome size ns (some (a, ns'))

passed :
    {size : ℕ} {n : Node} {ns : List Node} {o : Option (ℕ × List Node)}
    → Outcome size ns o
    → Outcome size (n ∷ ns) (elim o as (λ x. Option (ℕ × List Node)) [
      | none ↦ none
      | some (a, ns') ↦ some (a, n ∷ ns')
    ])
passed full = full
passed (carved c) = carved (there c)

pub carve-Outcome :
    (k : ℕ) (ns : List Node) (size : ℕ) → All IsNode ns → Outcome size ns (carve k ns size)
unfolding carve
carve-Outcome k [] size v = full
carve-Outcome (suc k) (n ∷ ns) size v = passed (carve-Outcome k ns size v.1)
carve-Outcome zero (n ∷ ns) size v = elim (Bool-cases (fits n size)) [
  | inl e ↦ rw e (carved (here (fits-Taken n size _ v.0 e)))
  | inr e ↦ rw e (passed (carve-Outcome zero ns size v.1))
]
