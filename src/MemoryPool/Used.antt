-- ===== src/MemoryPool/Used.antt =====
-- The bytes that a pool has handed out, and that it hands out fresh ones.
use c_c_linux_learning_code.Common.{ℕ, ◌+◌, ◌≤◌, ◌<◌, ◌⊎◌, inl, inr, arith, List, [], ◌∷◌, All}
use c_c_linux_learning_code.MemoryPool.{Node}
use c_c_linux_learning_code.MemoryPool.Carve.{IsNode, Taken, Carved, here, there}

-- The byte lies in the used part of a block.
abbrev pub Used : List Node → ℕ → Type 0
Used [] x = ⊥
Used (n ∷ ns) x = ((n.at ≤ x) × (x < n.last)) ⊎ Used ns x

abbrev pub Apart : Node → Node → Type 0
Apart n m = (n.end ≤ m.at) ⊎ (m.end ≤ n.at)

-- Every node is valid, and the blocks do not overlap.
abbrev pub IsPool : List Node → Type 0
IsPool [] = Unit
IsPool (n ∷ ns) = IsNode n × (All (Apart n) ns × IsPool ns)

pub IsPool-All : (ns : List Node) → IsPool ns → All IsNode ns
IsPool-All [] v = tt
IsPool-All (n ∷ ns) v = (v.0, IsPool-All ns v.1.1)

-- A byte of a block is not used by a block apart from it.
pub Apart-Used :
    (n : Node) (ns : List Node) (x : ℕ)
    → n.at ≤ x
    → x < n.end
    → All (Apart n) ns
    → IsPool ns
    → ¬ Used ns x
Apart-Used n [] x l r a v u = u
Apart-Used n (m ∷ ns) x l r a v (inl (l', r')) =
    let w = v.0.within in elim a.0 [ inl e ↦ absurd (omega arith) | inr e ↦ absurd (omega arith) ]
Apart-Used n (m ∷ ns) x l r a v (inr u) = Apart-Used n ns x l r a.1 v.1.1 u

-- A range that was taken lies in a block of the list, also seen from a block apart.
Carved-Apart :
    {size a : ℕ} {ns ns' : List Node} (x : ℕ) (n : Node)
    → Carved size a ns ns'
    → a ≤ x
    → x < a + size
    → All (Apart n) ns
    → IsPool ns
    → ¬ ((n.at ≤ x) × (x < n.end))
Carved-Apart x n (here {n = m} t) l r a v (l', r') =
    let header = v.0.header in
    let from = t.from in
    let within = t.within in
    elim a.0 [ inl e ↦ absurd (omega arith) | inr e ↦ absurd (omega arith) ]
Carved-Apart x n (there c) l r a v b = Carved-Apart x n c l r a.1 v.1.1 b

-- What was used stays so.
pub Carved-keeps :
    {size a : ℕ} {ns ns' : List Node} (x : ℕ) → Carved size a ns ns' → Used ns x → Used ns' x
Carved-keeps x (here t) (inl (l, r)) =
    let at = t.at in let from = t.from in let last = t.last in inl (omega arith, omega arith)
Carved-keeps x (here t) (inr u) = inr u
Carved-keeps x (there c) (inl b) = inl b
Carved-keeps x (there c) (inr u) = inr (Carved-keeps x c u)

-- The bytes of the range are used afterwards, and were not before.
pub Carved-fresh :
    {size a x : ℕ} {ns ns' : List Node}
    → Carved size a ns ns'
    → IsPool ns
    → a ≤ x
    → x < a + size
    → Used ns' x × (¬ Used ns x)
Carved-fresh {size} {a} {x} (here {n} {n'} {ns} t) v l r =
    let at = t.at in
    let from = t.from in
    let last = t.last in
    let within = t.within in
    let header = v.0.header in
    (
      inl (omega arith, omega arith),
      λ u. elim u [
        | inl b ↦ absurd (let low = b.1 in omega arith)
        | inr u' ↦ Apart-Used n ns x (omega arith) (omega arith) v.1.0 v.1.1 u'
      ],
    )
Carved-fresh {size} {a} {x} (there {n} c) v l r =
    let (now, before) = Carved-fresh c v.1.1 l r in
    let within = v.0.within in
    (
      inr now,
      λ u. elim u [
        | inl b ↦
            let low = b.0 in
            let high = b.1 in Carved-Apart x n c l r v.1.0 v.1.1 (omega arith, omega arith)
        | inr u' ↦ before u'
      ],
    )

Carved-All-Apart :
    {size a : ℕ} {ns ns' : List Node} (n : Node)
    → Carved size a ns ns'
    → All (Apart n) ns
    → All (Apart n) ns'
Carved-All-Apart n (here {n = m} {n' = m'} t) (p, q) =
    let at = t.at in
    let end = t.end in (elim p [ inl e ↦ inl (omega arith) | inr e ↦ inr (omega arith) ], q)
Carved-All-Apart n (there c) (p, q) = (p, Carved-All-Apart n c q)

Taken-IsNode : {size a : ℕ} {n n' : Node} → Taken size a n n' → IsNode n → IsNode n'
Taken-IsNode t v =
    let at = t.at in
    let end = t.end in
    let from = t.from in
    let last = t.last in
    let within = t.within in
    let header = v.header in
    let aligned = v.aligned in
    let address = v.address in
    record {
      header = omega arith;
      within = omega arith;
      aligned = rw end aligned;
      address = omega arith;
    }

pub Carved-IsPool :
    {size a : ℕ} {ns ns' : List Node} → Carved size a ns ns' → IsPool ns → IsPool ns'
Carved-IsPool (here {n} {n'} {ns} t) v = (Taken-IsNode t v.0, (moved ns v.1.0, v.1.1))
  where
    moved : (ms : List Node) → All (Apart n) ms → All (Apart n') ms
    moved [] q = tt
    moved (m ∷ ms) q =
        let at = t.at in
        let end = t.end in
        (elim q.0 [ inl e ↦ inl (omega arith) | inr e ↦ inr (omega arith) ], moved ms q.1)
Carved-IsPool (there {n} c) v = (v.0, (Carved-All-Apart n c v.1.0, Carved-IsPool c v.1.1))
