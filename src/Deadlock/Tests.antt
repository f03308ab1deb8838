-- ===== src/Deadlock/Tests.antt =====
-- Runs of the deadlock detection at concrete inputs.
use mathlib.Core.Option.{some-injective}
use c_c_linux_learning_code.Common.{
  ℕ, zero, suc, ◌≡◌, inl, inr, refl, sym, subst, some, List, [], ◌∷◌, Among, Returns, ◌>>=◌,
}
use c_c_linux_learning_code.Deadlock.{
  after_unchecked, before_unchecked, TaskGraph, process, lock_before, lock_after, unlock_after,
  search_lock, get_lock, Pair, Vertex, thread_pair, search_vertex, chain,
}
use c_c_linux_learning_code.Deadlock.Search.{Search, check_dead_lock}
use c_c_linux_learning_code.Deadlock.Graph.{Edge, IsGraph}
use c_c_linux_learning_code.Deadlock.Sound.{IsSound, Waits}
use c_c_linux_learning_code.Deadlock.Locks.{Owned}
use c_c_linux_learning_code.Deadlock.Hooks.{
  Reached, start_check, before, after, at_once, through, check_dead_lock-finds, Reached-IsSound,
}

abbrev vertex : ℕ → List Pair → Vertex
vertex th ps = record { pair = thread_pair th; next = ps }

-- Two threads that wait for each other.
abbrev two_threads : List Vertex
two_threads = vertex 1 (thread_pair 2 ∷ []) ∷ vertex 2 (thread_pair 1 ∷ []) ∷ []

abbrev fresh_search : Search
fresh_search = record { path = λ i. 0; visited = λ i. 0; k = 0; deadlock = 0 }

two_threads-IsGraph : IsGraph two_threads
unfolding chain search_vertex
two_threads-IsGraph zero ps p c m = elim (subst (Among p) (sym (some-injective _ _ c)) m) [
  | inl same ↦ rw same (1, refl)
  | inr n ↦ absurd n
]
two_threads-IsGraph (suc zero) ps p c m = elim (subst (Among p) (sym (some-injective _ _ c)) m) [
  | inl same ↦ rw same (0, refl)
  | inr n ↦ absurd n
]
two_threads-IsGraph (suc (suc u)) ps p c m = absurd (cc)

there : Edge two_threads 0 1
unfolding chain search_vertex
there = record {
  pairs = thread_pair 2 ∷ [];
  chained = refl;
  pair = thread_pair 2;
  among = inl refl;
  found = refl;
}

back : Edge two_threads 1 0
unfolding chain search_vertex
back = record {
  pairs = thread_pair 1 ∷ [];
  chained = refl;
  pair = thread_pair 1;
  among = inl refl;
  found = refl;
}

-- The thread 1 waits for 2 and 3, and both wait for 4.
abbrev diamond : List Vertex
diamond =
    vertex 1 (thread_pair 2 ∷ thread_pair 3 ∷ [])
    ∷ vertex 2 (thread_pair 4 ∷ [])
    ∷ vertex 3 (thread_pair 4 ∷ [])
    ∷ vertex 4 []
    ∷ []

-- From the thread 5 the search meets 4 twice.
abbrev kite : List Vertex
kite = vertex 5 (thread_pair 1 ∷ []) ∷ diamond

diamond_quiet : (check_dead_lock diamond fresh_search >>= λ t. some t.deadlock) ≡ some 0
unfolding check_dead_lock chain search_vertex
diamond_quiet = refl

kite_alarm : (check_dead_lock kite fresh_search >>= λ t. some t.deadlock) ≡ some 1
unfolding check_dead_lock chain search_vertex
kite_alarm = refl

abbrev no_junk : Pair
no_junk = thread_pair 0

abbrev empty_graph : TaskGraph
empty_graph = record { vertex_list = []; lock_list = [] }

abbrev slot : ℕ → ℕ → ℕ → Pair
slot th lock waiters = record { th_id = th; type = process; lock_id = lock; degress = waiters }

-- The thread 1 owns the lock 7, and 2 the lock 8.
abbrev two_owners : TaskGraph
two_owners = record { vertex_list = []; lock_list = slot 1 7 0 ∷ slot 2 8 0 ∷ [] }

-- Then 1 wants 8, and 2 wants 7.
abbrev one_waits : TaskGraph
one_waits = record {
  vertex_list = vertex 1 (thread_pair 2 ∷ []) ∷ vertex 2 [] ∷ [];
  lock_list = slot 1 7 0 ∷ slot 2 8 1 ∷ [];
}

abbrev both_wait : TaskGraph
both_wait = record { vertex_list = two_threads; lock_list = slot 1 7 1 ∷ slot 2 8 1 ∷ [] }

two_owners-Reached : Reached two_owners
unfolding lock_after after_unchecked
two_owners-Reached = after 2 8 no_junk (after 1 7 no_junk start_check refl) refl

one_waits-Reached : Reached one_waits
unfolding lock_before before_unchecked
one_waits-Reached = before 1 8 two_owners-Reached refl

both_wait-Reached : Reached both_wait
unfolding lock_before before_unchecked
both_wait-Reached = before 2 7 one_waits-Reached refl

there-Waits : Waits two_threads 1 2
unfolding search_vertex
there-Waits = record { from = 0; to = 1; waiting = refl; owning = refl; edge = there }

back-Waits : Waits two_threads 2 1
unfolding search_vertex
back-Waits = record { from = 1; to = 0; waiting = refl; owning = refl; edge = back }

check_dead_lock-finds_example :
    Returns (λ t. t.deadlock ≡ 1) (check_dead_lock both_wait.vertex_list fresh_search)
check_dead_lock-finds_example =
    check_dead_lock-finds both_wait fresh_search 1 both_wait-Reached
      (through (at_once there-Waits) back-Waits)

Reached-IsSound_example : IsSound both_wait.vertex_list
Reached-IsSound_example = Reached-IsSound both_wait-Reached

two_owners-Owned : Owned two_owners.lock_list 8 2
unfolding search_lock get_lock
two_owners-Owned = record { index = 1; slot = slot 2 8 0; found = refl; held = refl; owner = refl }

-- The threads 2 and 3 wait for the lock 7 of 1; it goes to 3 and then to 2. The edge from 2 to 1
-- stays, so that a deadlock is reported when 1 waits for the lock 8 of 2, which waits for nothing.
stale_edge :
    (do
      g1 ← lock_after empty_graph 1 7 no_junk
      g2 ← lock_before g1 2 7
      g3 ← lock_before g2 3 7
      g4 ← unlock_after g3 7
      g5 ← lock_after g4 3 7 no_junk
      g6 ← unlock_after g5 7
      g7 ← lock_after g6 2 7 no_junk
      g8 ← lock_after g7 2 8 no_junk
      g9 ← lock_before g8 1 8
      t ← check_dead_lock g9.vertex_list fresh_search
      some t.deadlock)
    ≡ some 1
unfolding lock_before lock_after unlock_after check_dead_lock chain search_vertex
stale_edge = refl
