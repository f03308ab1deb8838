-- ===== src/Deadlock/Search.antt =====
-- The depth-first search of deadlock_success.c: DFS, search_for_cycle and check_dead_lock.
use c_c_linux_learning_code.Common.{
  ℕ, zero, suc, ◌+◌, ◌-◌, ◌&&◌, not, Option, none, some, List, [], ◌∷◌, ltb, leb, ◌==◌,
  if◌then◌else◌, update, length, ◌>>=◌,
}
use c_c_linux_learning_code.Deadlock.{Pair, Vertex, search_vertex, chain}

-- The fields of the task graph that the search uses.
pub record Search : Type 0 where
  pub path : ℕ → ℕ
  pub visited : ℕ → ℕ
  pub k : ℕ
  pub deadlock : ℕ

abbrev pub push_path : Search → ℕ → Search
push_path s idx = record s { path = update s.path s.k idx; k = s.k + 1 }

-- The `while` loop over a chain, with the search that it calls.
unfoldable pub visit_all :
    (ℕ → Search → Option Search) → List Vertex → List Pair → Search → Option Search
visit_all visit vs [] s = some s
visit_all visit vs (p ∷ ps) s = do
  i ← search_vertex vs p
  s' ← visit i s
  visit_all visit vs ps (record s' { k = s'.k - 1 })

-- On fuel: each call that goes deeper marks one more vertex.
unfoldable pub dfs : ℕ → List Vertex → ℕ → Search → Option Search
unfolding visit_all
dfs zero vs idx s = none
dfs (suc f) vs idx s =
    let found = some (record (push_path s idx) { deadlock = 1 }) in
    let deeper : Option Search = do
      ps ← chain vs idx
      visit_all (dfs f vs) vs ps (record (push_path s idx) { visited = update s.visited idx 1 })
    in if s.visited idx == 1 then found else deeper

-- The marks and the path as they are set before each neighbour of `idx` is searched.
unfoldable pub reset : List Vertex → ℕ → Search → Search
reset vs idx s = record s {
  visited = λ i. if ltb i (length vs) && not (i == idx) then 0 else s.visited i;
  path = λ i. if ltb 0 i && leb i 100 then 4294967295 else s.path i;
  k = 1;
}

unfoldable pub cycle_loop : List Vertex → ℕ → List Pair → Search → Option Search
unfolding dfs reset
cycle_loop vs idx [] s = some s
cycle_loop vs idx (p ∷ ps) s = do
  i ← search_vertex vs p
  s' ← dfs (length vs + 1) vs i (reset vs idx s)
  cycle_loop vs idx ps s'

unfoldable pub search_for_cycle : List Vertex → ℕ → Search → Option Search
unfolding cycle_loop
search_for_cycle vs idx s = do
  ps ← chain vs idx
  cycle_loop vs idx ps
      (record s { visited = update s.visited idx 1; path = update s.path 0 idx; k = 1 })

-- The rounds left, and the next vertex.
unfoldable pub check_loop : List Vertex → ℕ → ℕ → Search → Option Search
unfolding search_for_cycle
check_loop vs zero i s = some s
check_loop vs (suc n) i s =
    let round : Option Search = do s' ← search_for_cycle vs i s; check_loop vs n (suc i) s'
    in if s.deadlock == 1 then some s else round

unfoldable pub check_dead_lock : List Vertex → Search → Option Search
unfolding check_loop
check_dead_lock vs s = check_loop vs (length vs) 0 (record s { deadlock = 0 })
