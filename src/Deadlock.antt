-- ===== src/Deadlock.antt =====
-- 3.2.5死锁检测组件/deadlock_success.c: the wait-for graph of threads, kept by hooks on the mutex
-- operations, and the search for a cycle in it. `vertex_list[0 .. vertex_num)` and
-- `lock_list[0 .. lock_num)` are lists, the chain behind a vertex is a list of pairs, and -1 for
-- an index is `none`. The arrays have MAX entries, 100: a hook that writes behind one of them is a
-- fault, which `in_bounds` finds when the hook is done. Printing is left out. Where C leaves a
-- field of a new pair or slot as it was found in memory, its value is an argument.
pub mod Search
pub mod Graph
pub mod Explore
pub mod Cycle
pub mod Change
pub mod Sound
pub mod Locks
pub mod Hooks
mod Tests
use c_c_linux_learning_code.Common.{
  ℕ, zero, suc, ◌+◌, ◌-◌, ◌%◌, Bool, true, false, ◌&&◌, ◌||◌, not, Option, none, some, List, [],
  ◌∷◌, ◌++◌, ltb, leb, ◌==◌, if◌then◌else◌, update, length, ◌>>=◌,
}

pub data PairType : Type 0 where
  process resource : PairType

-- `lock_id` and `degress` of a vertex are never read. An `int` is its 32 bits.
pub record Pair : Type 0 where
  pub th_id : ℕ
  pub type : PairType
  pub lock_id : ℕ
  pub degress : ℕ

pub record Vertex : Type 0 where
  pub pair : Pair
  pub next : List Pair

pub record TaskGraph : Type 0 where
  pub vertex_list : List Vertex
  pub lock_list : List Pair

same_type : PairType → PairType → Bool
same_type process process = true
same_type resource resource = true
same_type _ _ = false

unfoldable pub search_from : ℕ → List Vertex → Pair → Option ℕ
unfolding same_type
search_from i [] pair = none
search_from i (v ∷ vs) pair =
    if same_type v.pair.type pair.type && (v.pair.th_id == pair.th_id)
    then some i
    else search_from (suc i) vs pair

unfoldable pub search_vertex : List Vertex → Pair → Option ℕ
unfolding search_from
search_vertex vs pair = search_from 0 vs pair

-- The chain of the vertex at an index; an index out of range is a fault.
unfoldable pub chain : List Vertex → ℕ → Option (List Pair)
chain [] i = none
chain (v ∷ vs) zero = some v.next
chain (v ∷ vs) (suc i) = chain vs i

-- The hook that calls it faults if the list becomes longer than the array; see `in_bounds`.
unfoldable pub add_vertex : List Vertex → Pair → List Vertex
unfolding search_vertex
add_vertex vs pair = elim (search_vertex vs pair) [
  | some i ↦ vs
  | none ↦ vs ++ record { pair = pair; next = [] } ∷ []
]

-- The chain of the vertex at an index is changed by `f`.
unfoldable pub change_chain : List Vertex → ℕ → (List Pair → List Pair) → List Vertex
change_chain [] i f = []
change_chain (v ∷ vs) zero f = record v { next = f v.next } ∷ vs
change_chain (v ∷ vs) (suc i) f = v ∷ change_chain vs i f

unfoldable pub add_edge : List Vertex → Pair → Pair → Option (List Vertex)
unfolding add_vertex change_chain
add_edge vs u v =
    let ws = add_vertex (add_vertex vs u) v in
    search_vertex ws u >>= λ i. some (change_chain ws i (λ l. l ++ v ∷ []))

-- Whether a pair of the list is of the thread.
unfoldable pub has_thread : ℕ → List Pair → Bool
has_thread th [] = false
has_thread th (p ∷ ps) = p.th_id == th || has_thread th ps

pub vertex_pairs : List Vertex → ℕ → List Pair
vertex_pairs [] i = []
vertex_pairs (v ∷ vs) zero = v.pair ∷ v.next
vertex_pairs (v ∷ vs) (suc i) = vertex_pairs vs i

-- The walk begins at the vertex itself.
unfoldable pub verify_edge : List Vertex → Pair → Pair → Bool
unfolding search_vertex has_thread vertex_pairs
verify_edge vs u v = elim (search_vertex vs u) [
  | none ↦ false
  | some i ↦ has_thread v.th_id (vertex_pairs vs i)
]

unfoldable pub remove_first : ℕ → List Pair → List Pair
remove_first th [] = []
remove_first th (p ∷ ps) = if p.th_id == th then ps else p ∷ remove_first th ps

remove_at : List Vertex → ℕ → Option ℕ → Option ℕ → List Vertex
unfolding change_chain remove_first
remove_at vs th (some i) (some j) = change_chain vs i (remove_first th)
remove_at vs th _ _ = vs

unfoldable pub remove_edge : List Vertex → Pair → Pair → List Vertex
unfolding remove_at search_vertex
remove_edge vs u v = remove_at vs v.th_id (search_vertex vs u) (search_vertex vs v)

lock_from : ℕ → List Pair → ℕ → Option ℕ
lock_from i [] lock = none
lock_from i (p ∷ ps) lock = if p.lock_id == lock then some i else lock_from (suc i) ps lock

unfoldable pub search_lock : List Pair → ℕ → Option ℕ
unfolding lock_from
search_lock ls lock = lock_from 0 ls lock

-- `lock_num` where no slot is empty.
unfoldable pub search_empty_lock : List Pair → ℕ
unfolding search_lock
search_empty_lock ls = elim (search_lock ls 0) [ some i ↦ i | none ↦ length ls ]

unfoldable pub get_lock : List Pair → ℕ → Option Pair
get_lock [] i = none
get_lock (p ∷ ps) zero = some p
get_lock (p ∷ ps) (suc i) = get_lock ps i

unfoldable pub set_lock : List Pair → ℕ → Pair → List Pair
set_lock [] i q = []
set_lock (p ∷ ps) zero q = q ∷ ps
set_lock (p ∷ ps) (suc i) q = p ∷ set_lock ps i q

-- A pair of a thread; the fields that C leaves unset are not read.
abbrev pub thread_pair : ℕ → Pair
thread_pair th = record { th_id = th; type = process; lock_id = 0; degress = 0 }

-- The owner of the lock is `p`, at the index `i`.
pub waits_for : TaskGraph → ℕ → ℕ → Pair → Option TaskGraph
unfolding add_vertex verify_edge add_edge set_lock
waits_for g thread_id i p =
    let u = thread_pair thread_id in
    let v = thread_pair p.th_id in
    let vs = add_vertex (add_vertex g.vertex_list u) v in
    let ls = set_lock g.lock_list i (record p { degress = (p.degress + 1) % 4294967296 }) in
    if verify_edge vs u v
    then some (record { vertex_list = vs; lock_list = ls })
    else add_edge vs u v >>= λ ws. some (record { vertex_list = ws; lock_list = ls })

-- The arrays hold the lists. No hook shortens a list, so one that has written behind an array ends
-- with a list that is too long.
unfoldable pub in_bounds : TaskGraph → Option TaskGraph
in_bounds g =
    if leb (length g.vertex_list) 100 && leb (length g.lock_list) 100 then some g else none

-- lock_before, but for the bounds of the arrays.
unfoldable pub before_unchecked : TaskGraph → ℕ → ℕ → Option TaskGraph
unfolding waits_for search_lock get_lock
before_unchecked g thread_id lock = elim (search_lock g.lock_list lock) [
  | none ↦ some g
  | some i ↦ get_lock g.lock_list i >>= λ p. waits_for g thread_id i p
]

unfoldable pub lock_before : TaskGraph → ℕ → ℕ → Option TaskGraph
unfolding before_unchecked in_bounds
lock_before g thread_id lock = before_unchecked g thread_id lock >>= in_bounds

-- The slot at `i` gets its owner and lock; a slot behind the last is new, with `junk` in the rest.
pub take_slot : List Pair → ℕ → ℕ → ℕ → Pair → List Pair
unfolding get_lock set_lock
take_slot ls i thread_id lock junk = elim (get_lock ls i) [
  | some p ↦ set_lock ls i (record p { th_id = thread_id; lock_id = lock })
  | none ↦ ls ++ record junk { th_id = thread_id; lock_id = lock } ∷ []
]

pub owns_now : TaskGraph → ℕ → ℕ → Pair → TaskGraph
unfolding verify_edge remove_edge set_lock
owns_now g thread_id i p =
    let u = thread_pair thread_id in
    let v = thread_pair p.th_id in
    let vs =
      if verify_edge g.vertex_list u v then remove_edge g.vertex_list u v else g.vertex_list in
    record {
      vertex_list = vs;
      lock_list =
          set_lock g.lock_list i
            (record p { th_id = thread_id; degress = (p.degress + 4294967295) % 4294967296 });
    }

-- lock_after, but for the bounds of the arrays.
unfoldable pub after_unchecked : TaskGraph → ℕ → ℕ → Pair → Option TaskGraph
unfolding take_slot owns_now search_lock search_empty_lock get_lock
after_unchecked g thread_id lock junk = elim (search_lock g.lock_list lock) [
  | none ↦ some (record g {
    lock_list = take_slot g.lock_list (search_empty_lock g.lock_list) thread_id lock junk;
  })
  | some i ↦ get_lock g.lock_list i >>= λ p. some (owns_now g thread_id i p)
]

unfoldable pub lock_after : TaskGraph → ℕ → ℕ → Pair → Option TaskGraph
unfolding after_unchecked in_bounds
lock_after g thread_id lock junk = after_unchecked g thread_id lock junk >>= in_bounds

-- An unknown lock gives the index -1, which is a fault.
unfoldable pub unlock_after : TaskGraph → ℕ → Option TaskGraph
unfolding search_lock get_lock set_lock
unlock_after g lock = do
  i ← search_lock g.lock_list lock
  p ← get_lock g.lock_list i
  some (
      if p.degress == 0
      then record g { lock_list = set_lock g.lock_list i (record p { th_id = 0; lock_id = 0 }) }
      else g)
