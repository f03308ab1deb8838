-- ===== src/MemoryPool/Reached.antt =====
-- Every operation of the pool keeps its blocks valid and apart.
use mathlib.Core.Option.{some-injective}
use c_c_linux_learning_code.Common.{
  ℕ, ◌+◌, ◌%◌, ◌≤◌, ◌<◌, ◌≡◌, inl, inr, refl, sym, subst, arith, Option, none, some, List, [], ◌∷◌,
  All, ltb, leb, ◌&&◌, ◌==◌, Bool-cases, Option-cases,
}
use c_c_linux_learning_code.MemoryPool.{
  Node, Pool, Page, malloc_small, malloc_large, malloc, reuse, new_large, free, free_small,
  free_large, reset_pool, reset_nodes, create_pool,
}
use c_c_linux_learning_code.MemoryPool.Carve.{IsNode}
use c_c_linux_learning_code.MemoryPool.Used.{Apart, IsPool, IsPool-All}
use c_c_linux_learning_code.MemoryPool.Fresh.{Small, given, refused, IsNewBlock, malloc_small-Small}

-- The blocks stay, and the used parts do not grow.
data Shrunk : List Node → List Node → Type 0 where
  none_left : Shrunk [] []
  one :
      {n n' : Node} {ns ns' : List Node}
      → n'.at ≡ n.at
      → n'.end ≡ n.end
      → n.at + 32 ≤ n'.last
      → n'.last ≤ n.last
      → Shrunk ns ns'
      → Shrunk (n ∷ ns) (n' ∷ ns')

Shrunk-refl : (ns : List Node) → All IsNode ns → Shrunk ns ns
Shrunk-refl [] v = none_left
Shrunk-refl (n ∷ ns) v = one refl refl v.0.header (omega arith) (Shrunk-refl ns v.1)

Shrunk-Apart :
    {ns ns' : List Node} (n n' : Node)
    → n'.at ≡ n.at
    → n'.end ≡ n.end
    → Shrunk ns ns'
    → All (Apart n) ns
    → All (Apart n') ns'
Shrunk-Apart n n' at end none_left a = tt
Shrunk-Apart n n' at end (one at' end' low high r) a = (
  elim a.0 [ inl e ↦ inl (omega arith) | inr e ↦ inr (omega arith) ],
  Shrunk-Apart n n' at end r a.1,
)

Shrunk-IsPool : {ns ns' : List Node} → Shrunk ns ns' → IsPool ns → IsPool ns'
Shrunk-IsPool none_left v = tt
Shrunk-IsPool (one {n} {n'} at end low high r) v =
    let within = v.0.within in
    let aligned = v.0.aligned in
    let address = v.0.address in
    (
      record {
        header = omega arith;
        within = omega arith;
        aligned = rw end aligned;
        address = omega arith;
      },
      (Shrunk-Apart n n' at end r v.1.0, Shrunk-IsPool r v.1.1),
    )

reset_nodes-Shrunk : (ns : List Node) → All IsNode ns → Shrunk ns (reset_nodes ns)
unfolding reset_nodes
reset_nodes-Shrunk [] v = none_left
reset_nodes-Shrunk (n ∷ ns) v =
    let header = v.0.header in one refl refl (omega arith) (omega arith) (reset_nodes-Shrunk ns v.1)

free_small-Shrunk : (ns : List Node) (p : ℕ) → All IsNode ns → Shrunk ns (free_small ns p).0
unfolding free_small
free_small-Shrunk [] p v = none_left
free_small-Shrunk (n ∷ ns) p v =
    let header = v.0.header in
    elim (Bool-cases (leb n.at p && leb p n.end)) [
      | inl e ↦ elim (Bool-cases ((n.quote + 4294967295) % 4294967296 == 0)) [
        | inl z ↦ rw (e, z) (one refl refl (omega arith) (omega arith) (Shrunk-refl ns v.1))
        | inr z ↦ rw (e, z) (one refl refl (omega arith) (omega arith) (Shrunk-refl ns v.1))
      ]
      | inr e ↦ rw e (one refl refl (omega arith) (omega arith) (free_small-Shrunk ns p v.1))
    ]

free-IsPool : (pool : Pool) (p : ℕ) → IsPool pool.nodes → IsPool (free pool p).nodes
unfolding free
free-IsPool pool p v = elim (Option-cases (free_large pool.large p)) [
  | inl e ↦
      rw (free, e) (Shrunk-IsPool (free_small-Shrunk pool.nodes p (IsPool-All pool.nodes v)) v)
  | inr (ls, e) ↦ rw (free, e) v
]

reset_pool-IsPool : (pool : Pool) → IsPool pool.nodes → IsPool (reset_pool pool).nodes
unfolding reset_pool
reset_pool-IsPool pool v = Shrunk-IsPool (reset_nodes-Shrunk pool.nodes (IsPool-All pool.nodes v)) v

Small-IsPool :
    {page : Page} {size : ℕ} {pool : Pool} {r : Option ℕ × Pool}
    → IsPool pool.nodes
    → Small page size pool r
    → IsPool r.1.nodes
Small-IsPool v (given g) = g.valid
Small-IsPool v (refused e) = v

new_large-nodes :
    (big_addr size : ℕ) (r : Option ℕ × Pool) → (new_large big_addr size r).1.nodes ≡ r.1.nodes
unfolding new_large
new_large-nodes big_addr size (none, pool) = refl
new_large-nodes big_addr size (some l, pool) = refl

malloc_large-IsPool :
    (big : Option ℕ) (page : Page) (pool : Pool) (size : ℕ)
    → IsPool pool.nodes
    → ((b : ℕ) → page.block ≡ some b → IsNewBlock pool.nodes b)
    → IsPool (malloc_large big page pool size).1.nodes
unfolding malloc_large
malloc_large-IsPool none page pool size v new = v
malloc_large-IsPool (some big_addr) page pool size v new =
    elim (Option-cases (reuse 0 pool.large size big_addr)) [
      | inl e ↦
          rw (malloc_large, e)
            (subst IsPool (sym (new_large-nodes big_addr size (malloc_small page pool 24)))
              (Small-IsPool v (malloc_small-Small page pool 24 v (omega arith) new)))
      | inr (ls, e) ↦ rw (malloc_large, e) v
    ]

malloc-IsPool :
    (big : Option ℕ) (page : Page) (pool : Pool) (size : ℕ)
    → IsPool pool.nodes
    → ((b : ℕ) → page.block ≡ some b → IsNewBlock pool.nodes b)
    → IsPool (malloc big page pool size).1.nodes
unfolding malloc
malloc-IsPool big page pool size v new = elim (Bool-cases (size == 0)) [
  | inl e ↦ rw e v
  | inr e ↦ elim (Bool-cases (ltb 4064 size)) [
    | inl l ↦ rw (e, l) (malloc_large-IsPool big page pool size v new)
    | inr l ↦ rw (e, l) (Small-IsPool v (malloc_small-Small page pool size v (ground arith) new))
  ]
]

-- The pools that calls lead to, where the head's `next` is NULL and posix_memalign gives aligned
-- pages apart from the blocks in use.
pub data Reached : Pool → Type 0 where
  created :
      {pool : Pool} (p quote : ℕ) (freed : List ℕ)
      → p % 16 ≡ 0
      → p + 4096 < 18446744073709551616
      → create_pool (some p) quote [] freed ≡ some pool
      → Reached pool
  allocated :
      {pool : Pool} (big : Option ℕ) (page : Page) (size : ℕ)
      → Reached pool
      → ((b : ℕ) → page.block ≡ some b → IsNewBlock pool.nodes b)
      → Reached ((malloc big page pool size).1)
  released : {pool : Pool} (p : ℕ) → Reached pool → Reached (free pool p)
  cleared : {pool : Pool} → Reached pool → Reached (reset_pool pool)

-- In every pool that mp_create_pool, mp_malloc of any size, mp_free of any address and
-- mp_reset_pool lead to, where the head's `next` starts as NULL and posix_memalign gives aligned
-- pages apart from the blocks in use: each block's used part starts behind its header and ends
-- within the block, and the blocks do not overlap.
pub Reached-IsPool : {pool : Pool} → Reached pool → IsPool pool.nodes
unfolding create_pool
Reached-IsPool (created p quote freed aligned address e) =
    subst (λ x. IsPool x.nodes) (some-injective _ _ e)
      (
        record {
          header = omega arith;
          within = omega arith;
          aligned = omega arith;
          address = omega arith;
        },
        (tt, tt),
      )
Reached-IsPool (allocated {pool} big page size r new) =
    malloc-IsPool big page pool size (Reached-IsPool r) new
Reached-IsPool (released {pool} p r) = free-IsPool pool p (Reached-IsPool r)
Reached-IsPool (cleared {pool} r) = reset_pool-IsPool pool (Reached-IsPool r)
