-- ===== src/MemoryPool.antt =====
-- 3.1.2内存池mempoll/mempoll.c: a pool of blocks of a page, with a list of large allocations. An
-- address is a number of 64 bits, 0 is NULL, and the sizes of the structs are those of a 64-bit
-- machine: 24 for mp_pool_s and mp_large_s, 32 for mp_node_s. The list behind `head` is a list of
-- nodes, and `current` an index in it. What posix_memalign gives is an argument, as are the fields
-- of a new node that C leaves as it found them; the calls of free are logged. The bytes inside of
-- the allocations, the memset of mp_calloc and printing are not modelled.
pub mod Carve
pub mod Used
pub mod Fresh
pub mod Back
pub mod Reached
mod Tests
use c_c_linux_learning_code.Common.{
  ℕ, zero, suc, ◌+◌, ◌-◌, ◌%◌, Bool, true, false, ◌&&◌, ◌||◌, not, Option, none, some, List, [],
  ◌∷◌, ◌++◌, ltb, leb, ◌==◌, if◌then◌else◌, length,
}

pub record Large : Type 0 where
  pub size : ℕ
  pub alloc : ℕ

pub record Node : Type 0 where
  pub at : ℕ
  pub end : ℕ
  pub last : ℕ
  pub quote : ℕ
  pub failed : ℕ

pub record Pool : Type 0 where
  pub at : ℕ
  pub large : List Large
  pub nodes : List Node
  pub current : ℕ
  pub freed : List ℕ

-- mp_align_ptr with MP_ALIGNMENT.
unfoldable pub align_ptr : ℕ → ℕ
align_ptr p = let q = (p + 15) % 18446744073709551616 in q - q % 16

pub release : ℕ → List ℕ → List ℕ
release p log = if p == 0 then log else log ++ p ∷ []

release_large : List Large → List ℕ → List ℕ
unfolding release
release_large [] log = log
release_large (l ∷ ls) log = release_large ls (release l.alloc log)

reset_node : Node → Node
reset_node n = record n { last = n.at + 32; failed = 0; quote = 0 }

reset_nodes : List Node → List Node
unfolding reset_node
reset_nodes [] = []
reset_nodes (n ∷ ns) = reset_node n ∷ reset_nodes ns

unfoldable pub reset_pool : Pool → Pool
unfolding release_large reset_nodes
reset_pool pool = record pool {
  large = [];
  current = 0;
  nodes = reset_nodes pool.nodes;
  freed = release_large pool.large pool.freed;
}

-- The size that posix_memalign is asked for.
unfoldable pub pool_size : ℕ → ℕ
pool_size size = if ltb size 4096 || not (size % 4096 == 0) then 4096 else size

-- `quote` and `rest` stand for the fields `quote` and `next` of the head, which are not set.
unfoldable pub create_pool : Option ℕ → ℕ → List Node → List ℕ → Option Pool
create_pool none quote rest freed = none
create_pool (some p) quote rest freed = some (record {
  at = p;
  large = [];
  nodes =
      record { at = p + 24; end = p + 4096; last = p + 24 + 32; quote = quote; failed = 0 } ∷ rest;
  current = 0;
  freed = freed;
})

node_addresses : List Node → List ℕ
node_addresses [] = []
node_addresses (n ∷ ns) = n.at ∷ node_addresses ns

behind : List Node → List Node
behind [] = []
behind (n ∷ ns) = ns

-- All that is given back, in order.
unfoldable pub destroy_pool : Pool → List ℕ
unfolding release_large node_addresses behind
destroy_pool pool =
    release_large pool.large pool.freed ++ node_addresses (behind pool.nodes) ++ pool.at ∷ []

-- `failed` is incremented from `current` on at every node but the last; more than 4 moves `current`.
-- The arguments are the nodes left to skip, the index of the first of the list, and `current`.
unfoldable pub age : ℕ → ℕ → ℕ → List Node → List Node × ℕ
age (suc k) i c (n ∷ ns) = let (ns', c') = age k (suc i) c ns in (n ∷ ns', c')
age zero i c (n ∷ m ∷ ns) =
    let (ns', c') =
      age zero (suc i) (if ltb 4 n.failed && ltb n.failed 2147483648 then suc i else c) (m ∷ ns) in
    (record n { failed = (n.failed + 1) % 4294967296 } ∷ ns', c')
age zero i c (n ∷ []) = (n ∷ [], c)
age k i c [] = ([], c)

-- `junk` has the fields that a new node finds in memory.
unfoldable pub malloc_block : Option ℕ → Node → Pool → ℕ → Option ℕ × Pool
unfolding age align_ptr
malloc_block none junk pool size = (none, pool)
malloc_block (some block) junk pool size =
    let ret_addr = align_ptr (block + 32) in
    let (ns, c) = age pool.current 0 pool.current pool.nodes in
    let new_node : Node = record {
      at = block;
      end = block + 4096;
      last = ret_addr + size;
      quote = (junk.quote + 1) % 4294967296;
      failed = junk.failed;
    } in
    (some ret_addr, record pool { nodes = ns ++ new_node ∷ []; current = c })

-- Whether `cur->end - mem_addr >= size`, on 64 bits without sign.
unfoldable pub fits : Node → ℕ → Bool
unfolding align_ptr
fits n size = leb size ((n.end + 18446744073709551616 - align_ptr n.last) % 18446744073709551616)

-- The walk from `current`, where `k` nodes are left to skip.
unfoldable pub carve : ℕ → List Node → ℕ → Option (ℕ × List Node)
unfolding fits align_ptr
carve k [] size = none
carve (suc k) (n ∷ ns) size = elim (carve k ns size) [
  | none ↦ none
  | some (a, ns') ↦ some (a, n ∷ ns')
]
carve zero (n ∷ ns) size =
    let a = align_ptr n.last in
    let later : Option (ℕ × List Node) = elim (carve zero ns size) [
      | none ↦ none
      | some (b, ns') ↦ some (b, n ∷ ns')
    ] in
    if fits n size
    then some (a, record n { quote = (n.quote + 1) % 4294967296; last = a + size } ∷ ns)
    else later

-- What posix_memalign answers to the one request that a call may make for a block, with what a new
-- node finds there.
pub record Page : Type 0 where
  pub block : Option ℕ
  pub junk : Node

unfoldable pub malloc_small : Page → Pool → ℕ → Option ℕ × Pool
unfolding carve malloc_block
malloc_small page pool size = elim (carve pool.current pool.nodes size) [
  | none ↦ malloc_block page.block page.junk pool size
  | some (a, ns) ↦ (some a, record pool { nodes = ns })
]

-- `n` counts the released entries that were passed over; the loop ends after five.
unfoldable pub reuse : ℕ → List Large → ℕ → ℕ → Option (List Large)
reuse n [] size big_addr = none
reuse n (l ∷ ls) size big_addr =
    let later : Option (List Large) = elim (reuse (n + 1) ls size big_addr) [
      | none ↦ none
      | some ls' ↦ some (l ∷ ls')
    ] in
    if l.alloc == 0
    then some (record { size = size; alloc = big_addr } ∷ ls)
    else if ltb 3 n
    then none
    else later

-- A new entry of the list comes from the pool itself; without one the large allocation is freed.
new_large : ℕ → ℕ → Option ℕ × Pool → Option ℕ × Pool
new_large big_addr size (none, pool) = (none, record pool { freed = pool.freed ++ big_addr ∷ [] })
new_large big_addr size (some l, pool) =
    (some big_addr, record pool { large = record { size = size; alloc = big_addr } ∷ pool.large })

unfoldable pub malloc_large : Option ℕ → Page → Pool → ℕ → Option ℕ × Pool
unfolding reuse malloc_small new_large
malloc_large none page pool size = (none, pool)
malloc_large (some big_addr) page pool size = elim (reuse 0 pool.large size big_addr) [
  | some ls ↦ (some big_addr, record pool { large = ls })
  | none ↦ new_large big_addr size (malloc_small page pool 24)
]

unfoldable pub malloc : Option ℕ → Page → Pool → ℕ → Option ℕ × Pool
unfolding malloc_large malloc_small
malloc big page pool size =
    if size == 0
    then (none, pool)
    else if ltb 4064 size
    then malloc_large big page pool size
    else malloc_small page pool size

free_large : List Large → ℕ → Option (List Large)
free_large [] p = none
free_large (l ∷ ls) p =
    let later : Option (List Large) = elim (free_large ls p) [
      | none ↦ none
      | some ls' ↦ some (l ∷ ls')
    ] in
    if p == l.alloc then some (record { size = 0; alloc = 0 } ∷ ls) else later

-- The nodes, and whether the one of `p` has no reference left.
unfoldable pub free_small : List Node → ℕ → List Node × Bool
free_small [] p = ([], false)
free_small (n ∷ ns) p =
    let (ns', reset) = free_small ns p in
    let quote = (n.quote + 4294967295) % 4294967296 in
    if leb n.at p && leb p n.end
    then (if quote == 0
        then (record n { quote = quote; last = n.at + 32; failed = 0 } ∷ ns, true)
        else (record n { quote = quote } ∷ ns, false))
    else (n ∷ ns', reset)

unfoldable pub free : Pool → ℕ → Pool
unfolding free_large free_small release
free pool p = elim (free_large pool.large p) [
  | some ls ↦ record pool { large = ls; freed = release p pool.freed }
  | none ↦
      let (ns, reset) = free_small pool.nodes p in
      record pool { nodes = ns; current = if reset then 0 else pool.current }
]
