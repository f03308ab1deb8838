-- ===== src/MemoryPool/Back.antt =====
-- Large allocations are given back to the system.
use mathlib.Core.Option.{some-injective}
use c_c_linux_learning_code.Common.{
  ℕ, ◌+◌, ◌<◌, ◌≡◌, ◌≢◌, ◌⊎◌, inl, inr, refl, subst, arith, Option, none, some, List, [], ◌∷◌, ◌++◌,
  ltb, ◌==◌, Bool-cases, Option-cases, true, false,
}
use c_c_linux_learning_code.MemoryPool.{
  Large, Pool, Page, carve, malloc_block, malloc_small, malloc_large, malloc, reuse, new_large,
  free, free_large, release,
}

-- An entry of the list has the address.
abbrev Listed : ℕ → List Large → Type 0
Listed a [] = ⊥
Listed a (l ∷ ls) = (l.alloc ≡ a) ⊎ Listed a ls

reuse-Listed :
    (n : ℕ) (ls : List Large) (size a : ℕ) (ls' : List Large)
    → reuse n ls size a ≡ some ls'
    → Listed a ls'
unfolding reuse
reuse-Listed n [] size a ls' = λ h. absurd (cc)
reuse-Listed n (l ∷ ls) size a ls' = elim (Bool-cases (l.alloc == 0)) [
  | inl e ↦ rw e (λ h. subst (Listed a) (some-injective _ _ h) (inl refl))
  | inr e ↦ elim (Bool-cases (ltb 3 n)) [
    | inl s ↦ rw (e, s) (λ h. absurd (cc))
    | inr s ↦ rw (e, s) (later (reuse (n + 1) ls size a) (reuse-Listed (n + 1) ls size a))
  ]
]
  where
    later :
        (o : Option (List Large))
        → ((r : List Large) → o ≡ some r → Listed a r)
        → elim o as (λ x. Option (List Large)) [ none ↦ none | some r ↦ some (l ∷ r) ] ≡ some ls'
        → Listed a ls'
    later none found h = absurd (cc)
    later (some r) found h = subst (Listed a) (some-injective _ _ h) (inr (found r refl))

Listed-free_large :
    (ls : List Large) (a : ℕ) → Listed a ls → (ls' : List Large) × (free_large ls a ≡ some ls')
unfolding free_large
Listed-free_large (l ∷ ls) a m = elim (Bool-cases (a == l.alloc)) [
  | inl e ↦ rw e (_, refl)
  | inr e ↦
      let (ls', f) =
        Listed-free_large ls a (elim m [ inl same ↦ absurd (ground arith) | inr n ↦ n ]) in
      rw (e, f) (_, refl)
]
Listed-free_large [] a m = elim m [ ]

malloc_small-freed :
    (page : Page) (pool : Pool) (size : ℕ) → (malloc_small page pool size).1.freed ≡ pool.freed
unfolding malloc_small malloc_block
malloc_small-freed page pool size = elim (Option-cases (carve pool.current pool.nodes size)) [
  | inl e ↦
      rw (malloc_small, e)
        (elim (Option-cases page.block) [
          | inl n ↦ rw (malloc_block, n) refl
          | inr (b, n) ↦ rw (malloc_block, n) refl
        ])
  | inr (x, e) ↦ rw (malloc_small, e) refl
]

-- The call gave the address, and the list has it; or it gave NULL and freed it.
data Placed (a : ℕ) (log : List ℕ) : Option ℕ × Pool → Type 0 where
  listed : {pool : Pool} → Listed a pool.large → Placed a log (some a, pool)
  dropped : {pool : Pool} → pool.freed ≡ log ++ a ∷ [] → Placed a log (none, pool)

new_large-Placed : (a size : ℕ) (r : Option ℕ × Pool) → Placed a r.1.freed (new_large a size r)
unfolding new_large
new_large-Placed a size (none, pool) = dropped refl
new_large-Placed a size (some l, pool) = listed (inl refl)

malloc_large-Placed :
    (a : ℕ) (page : Page) (pool : Pool) (size : ℕ)
    → Placed a pool.freed (malloc_large (some a) page pool size)
unfolding malloc_large
malloc_large-Placed a page pool size = elim (Option-cases (reuse 0 pool.large size a)) [
  | inl e ↦
      rw (malloc_large, e)
        (subst (λ log. Placed a log (new_large a size (malloc_small page pool 24)))
          (malloc_small-freed page pool 24) (new_large-Placed a size (malloc_small page pool 24)))
  | inr (ls, e) ↦ rw (malloc_large, e) (listed (reuse-Listed 0 pool.large size a ls e))
]

-- What a large request and a free of its result leave in the log.
pub data GivenBack (a : ℕ) (log : List ℕ) : Option ℕ × Pool → Type 0 where
  by_free :
      {pool : Pool}
      → (free pool a).freed ≡ pool.freed ++ a ∷ []
      → (free pool a).nodes ≡ pool.nodes
      → GivenBack a log (some a, pool)
  at_once : {pool : Pool} → pool.freed ≡ log ++ a ∷ [] → GivenBack a log (none, pool)

Placed-GivenBack :
    {a : ℕ} {log : List ℕ} {r : Option ℕ × Pool} → a ≢ 0 → Placed a log r → GivenBack a log r
unfolding free release
Placed-GivenBack {a} some_address (listed {pool} m) =
    let (ls, e) = Listed-free_large pool.large a m in
    let test : (a == 0) ≡ false = ground arith in
    by_free (rw (free, e, test) refl) (rw (free, e) refl)
Placed-GivenBack some_address (dropped e) = at_once e

-- When posix_memalign gives an address, not NULL, to a request of more than 4064 bytes: mp_malloc
-- either returns that address, and mp_free of it then passes it to free, once, and leaves the
-- blocks alone; or it returns NULL and has passed the address to free itself.
pub malloc-GivenBack :
    (a : ℕ) (page : Page) (pool : Pool) (size : ℕ)
    → a ≢ 0
    → 4064 < size
    → GivenBack a pool.freed (malloc (some a) page pool size)
unfolding malloc
malloc-GivenBack a page pool size some_address large =
    let zero_test : (size == 0) ≡ false = ground arith in
    let large_test : ltb 4064 size ≡ true = ground arith in
    rw (zero_test, large_test)
      (Placed-GivenBack some_address (malloc_large-Placed a page pool size))
