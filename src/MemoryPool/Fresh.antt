-- ===== src/MemoryPool/Fresh.antt =====
-- mp_malloc of a small size gives bytes that nobody was given before.
use c_c_linux_learning_code.Common.{
  false, ℕ, zero, suc, ◌+◌, ◌%◌, ◌≤◌, ◌<◌, ◌≡◌, ◌≢◌, ◌⊎◌, inl, inr, refl, arith, Option, none, some,
  List, [], ◌∷◌, ◌++◌, All, ltb, ◌==◌, Option-cases,
}
use c_c_linux_learning_code.MemoryPool.{
  Node, Pool, Page, age, malloc_block, malloc_small, malloc, align_ptr,
}
use c_c_linux_learning_code.MemoryPool.Carve.{
  IsNode, Carved-aligned, Outcome, full, carved, carve-Outcome, align_ptr_lem,
}
use c_c_linux_learning_code.MemoryPool.Used.{
  Used, Apart, IsPool, IsPool-All, Carved-keeps, Carved-fresh, Carved-IsPool, Apart-Used,
}

-- The nodes have the same blocks and the same used parts; the counters may differ.
data Alike : List Node → List Node → Type 0 where
  none_left : Alike [] []
  one :
      {n n' : Node} {ns ns' : List Node}
      → n'.at ≡ n.at
      → n'.end ≡ n.end
      → n'.last ≡ n.last
      → Alike ns ns'
      → Alike (n ∷ ns) (n' ∷ ns')

age-Alike : (k i c : ℕ) (ns : List Node) → Alike ns (age k i c ns).0
unfolding age
age-Alike zero i c [] = none_left
age-Alike (suc k) i c [] = none_left
age-Alike (suc k) i c (n ∷ ns) = one refl refl refl (age-Alike k (suc i) c ns)
age-Alike zero i c (n ∷ []) = one refl refl refl none_left
age-Alike zero i c (n ∷ m ∷ ns) = one refl refl refl (age-Alike zero (suc i) _ (m ∷ ns))

Alike-Used : {ns ns' : List Node} (x : ℕ) → Alike ns ns' → Used ns x → Used ns' x
Alike-Used x none_left u = elim u [ ]
Alike-Used x (one at end last r) (inl (l, h)) = inl (omega arith, omega arith)
Alike-Used x (one at end last r) (inr u) = inr (Alike-Used x r u)

Alike-Apart :
    {ns ns' : List Node} (n n' : Node)
    → n'.at ≡ n.at
    → n'.end ≡ n.end
    → Alike ns ns'
    → All (Apart n) ns
    → All (Apart n') ns'
Alike-Apart n n' at end none_left a = tt
Alike-Apart n n' at end (one at' end' last' r) a = (
  elim a.0 [ inl e ↦ inl (omega arith) | inr e ↦ inr (omega arith) ],
  Alike-Apart n n' at end r a.1,
)

Alike-IsPool : {ns ns' : List Node} → Alike ns ns' → IsPool ns → IsPool ns'
Alike-IsPool none_left v = tt
Alike-IsPool (one {n} {n'} at end last r) v =
    let header = v.0.header in
    let within = v.0.within in
    let aligned = v.0.aligned in
    let address = v.0.address in
    (
      record {
        header = omega arith;
        within = omega arith;
        aligned = rw end aligned;
        address = omega arith;
      },
      (Alike-Apart n n' at end r v.1.0, Alike-IsPool r v.1.1),
    )

append-Used : (ns : List Node) (m : Node) (x : ℕ) → Used ns x → Used (ns ++ m ∷ []) x
append-Used [] m x u = elim u [ ]
append-Used (n ∷ ns) m x (inl b) = inl b
append-Used (n ∷ ns) m x (inr u) = inr (append-Used ns m x u)

append-Used_new :
    (ns : List Node) (m : Node) (x : ℕ) → m.at ≤ x → x < m.last → Used (ns ++ m ∷ []) x
append-Used_new [] m x l h = inl (l, h)
append-Used_new (n ∷ ns) m x l h = inr (append-Used_new ns m x l h)

All-append_one :
    (P : Node → Type 0) (ns : List Node) (m : Node) → All P ns → P m → All P (ns ++ m ∷ [])
All-append_one P [] m a p = (p, tt)
All-append_one P (n ∷ ns) m a p = (a.0, All-append_one P ns m a.1 p)

append-IsPool :
    (ns : List Node) (m : Node) → IsPool ns → IsNode m → All (Apart m) ns → IsPool (ns ++ m ∷ [])
append-IsPool [] m v w a = (w, (tt, tt))
append-IsPool (n ∷ ns) m v w a = (
  v.0,
  (
    All-append_one (Apart n) ns m v.1.0 (elim a.0 [ inl e ↦ inr e | inr e ↦ inl e ]),
    append-IsPool ns m v.1.1 w a.1,
  ),
)

-- The range of `size` bytes from `a` is used afterwards and was not before, and nothing is lost.
pub record Given (size : ℕ) (ns : List Node) (a : ℕ) (ns' : List Node) : Type 0 where
  pub valid : IsPool ns'
  pub aligned : a % 16 ≡ 0
  pub fresh : (x : ℕ) → a ≤ x → x < a + size → Used ns' x × (¬ Used ns x)
  pub keeps : (x : ℕ) → Used ns x → Used ns' x

-- A small allocation is given, or posix_memalign had no block.
pub data Small (page : Page) (size : ℕ) (pool : Pool) : Option ℕ × Pool → Type 0 where
  given :
      {a : ℕ} {pool' : Pool}
      → Given size pool.nodes a pool'.nodes
      → Small page size pool (some a, pool')
  refused : page.block ≡ none → Small page size pool (none, pool)

-- The blocks that posix_memalign gives: aligned, and apart from those in use.
abbrev pub IsNewBlock : List Node → ℕ → Type 0
IsNewBlock ns b =
    (b % 16 ≡ 0)
    × ((b + 4096 < 18446744073709551616) × All (λ m. (b + 4096 ≤ m.at) ⊎ (m.end ≤ b)) ns)

block-Given :
    (ns ns' : List Node) (b size quote failed : ℕ)
    → size ≤ 4064
    → IsPool ns
    → Alike ns ns'
    → IsNewBlock ns b
    → Given size ns (align_ptr (b + 32)) (
        ns'
        ++ record {
          at = b;
          end = b + 4096;
          last = align_ptr (b + 32) + size;
          quote = quote;
          failed = failed;
        }
          ∷ [])
block-Given ns ns' b size quote failed small v alike (aligned, (address, apart)) =
    let m : Node = record {
      at = b;
      end = b + 4096;
      last = align_ptr (b + 32) + size;
      quote = quote;
      failed = failed;
    } in
    let (low, (high, at_16)) =
      align_ptr_lem (b + 32) (b + 32) (omega arith) (omega arith) (omega arith) in
    record {
      valid =
          append-IsPool ns' m (Alike-IsPool alike v)
            (record {
              header = omega arith;
              within = omega arith;
              aligned = omega arith;
              address = omega arith;
            })
            (Alike-Apart m m refl refl alike apart);
      aligned = at_16;
      fresh = λ x l h. (
        append-Used_new ns' m x (omega arith) h,
        Apart-Used m ns x (omega arith) (omega arith) apart v,
      );
      keeps = λ x u. append-Used ns' m x (Alike-Used x alike u);
    }

block-Small :
    (page : Page) (pool : Pool) (size : ℕ)
    → IsPool pool.nodes
    → size ≤ 4064
    → ((b : ℕ) → page.block ≡ some b → IsNewBlock pool.nodes b)
    → Small page size pool (malloc_block page.block page.junk pool size)
unfolding malloc_block
block-Small page pool size v small new = elim (Option-cases page.block) [
  | inl e ↦ rw e (refused refl)
  | inr (b, e) ↦ rw e (
      given (
        block-Given pool.nodes (age pool.current 0 pool.current pool.nodes).0 b size _ _ small v
          (age-Alike pool.current 0 pool.current pool.nodes) (new b e)))
]

pub malloc_small-Small :
    (page : Page) (pool : Pool) (size : ℕ)
    → IsPool pool.nodes
    → size ≤ 4064
    → ((b : ℕ) → page.block ≡ some b → IsNewBlock pool.nodes b)
    → Small page size pool (malloc_small page pool size)
unfolding malloc_small
malloc_small-Small page pool size v small new =
    from (carve-Outcome pool.current pool.nodes size (IsPool-All pool.nodes v))
  where
    from :
        {o : Option (ℕ × List Node)}
        → Outcome size pool.nodes o
        → Small page size pool (elim o as (λ x. Option ℕ × Pool) [
          | none ↦ malloc_block page.block page.junk pool size
          | some (a, ns) ↦ (some a, record pool { nodes = ns })
        ])
    from full = block-Small page pool size v small new
    from (carved c) = given (record {
      valid = Carved-IsPool c v;
      aligned = Carved-aligned c;
      fresh = λ x l h. Carved-fresh c v l h;
      keeps = λ x u. Carved-keeps x c u;
    })

-- In a pool of valid blocks that do not overlap, and for a size of 1 to 4064 bytes, where
-- posix_memalign gives an aligned page apart from the blocks in use or nothing: mp_malloc returns
-- NULL only if posix_memalign had nothing; otherwise it returns an aligned address whose `size`
-- bytes were not in use before and are afterwards, every byte in use stays so, and the blocks are
-- valid and do not overlap.
pub malloc-Small :
    (big : Option ℕ) (page : Page) (pool : Pool) (size : ℕ)
    → IsPool pool.nodes
    → size ≢ 0
    → size ≤ 4064
    → ((b : ℕ) → page.block ≡ some b → IsNewBlock pool.nodes b)
    → Small page size pool (malloc big page pool size)
unfolding malloc
malloc-Small big page pool size v some_bytes small new =
    let zero_test : (size == 0) ≡ false = ground arith in
    let large_test : ltb 4064 size ≡ false = ground arith in
    rw (zero_test, large_test) (malloc_small-Small page pool size v small new)
