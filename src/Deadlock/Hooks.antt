-- ===== src/Deadlock/Hooks.antt =====
-- The hooks on lock and unlock keep the task graph sound, and deadlocks of waiting threads are found.
use mathlib.Core.Option.{some-injective}
use c_c_linux_learning_code.Deadlock.Locks.{
  Owned, search_lock-get_lock, set_lock-Owned, take_slot-Owned,
}
use c_c_linux_learning_code.Common.{
  leb, length, ◌&&◌, none≢some, ◌>>=◌, Option, sym, subst, ◌∙◌, Returns-bind, ◌==◌, Returns-bind, ℕ,
  ◌≡◌, ◌≢◌, ◌⊎◌, inl, inr, refl, some, none, List, [], Bool-cases, Option-cases, Returns, returns,
  Returns-map, Returns-some, if◌then◌else◌,
}
use c_c_linux_learning_code.Deadlock.{
  in_bounds, before_unchecked, after_unchecked, lock_before, lock_after, chain, Vertex, Pair,
  TaskGraph, search_vertex, add_vertex, verify_edge, thread_pair, waits_for, search_lock, get_lock,
  owns_now, unlock_after, set_lock,
}
use c_c_linux_learning_code.Deadlock.Search.{Search, check_dead_lock}
use c_c_linux_learning_code.Deadlock.Graph.{Edge, Reach, last, more, search_vertex-lt}
use c_c_linux_learning_code.Deadlock.Cycle.{check_dead_lock-reports}
use c_c_linux_learning_code.Deadlock.Sound.{
  IsSound, IsSound-IsGraph, Waits, add_vertex-IsSound, add_vertex-found, add_edge-Waits,
  verify_edge-Waits, remove_edge-IsSound,
}

-- What waits_for leaves: the edge, unless a thread waits for itself.
waits_for-Waits :
    (g : TaskGraph) (thread_id i : ℕ) (p : Pair)
    → IsSound g.vertex_list
    → Returns
        (λ g'.
          IsSound g'.vertex_list × (thread_id ≢ p.th_id → Waits g'.vertex_list thread_id p.th_id))
        (waits_for g thread_id i p)
unfolding waits_for
waits_for-Waits g thread_id i p s =
    let u = thread_pair thread_id in
    let v = thread_pair p.th_id in
    let vs = add_vertex (add_vertex g.vertex_list u) v in
    let sound =
      add_vertex-IsSound (add_vertex g.vertex_list u) v (add_vertex-IsSound g.vertex_list u s) in
    elim (Bool-cases (verify_edge vs u v)) [
      | inl e ↦ rw e (
          returns (
            sound,
            λ other.
                verify_edge-Waits vs thread_id p.th_id sound other
                  (add_vertex-found (add_vertex g.vertex_list u) v) e,
          ))
      | inr e ↦ rw e (
          Returns-bind (add_edge-Waits vs thread_id p.th_id sound)
            λ ws a. returns (a.0, λ other. a.1))
    ]

-- The first lock of a mutex changes nothing; otherwise waits_for runs.
before_unchecked-cases :
    (g : TaskGraph) (thread_id lock : ℕ)
    → (before_unchecked g thread_id lock ≡ some g)
      ⊎ ((i : ℕ) × ((p : Pair) × ((search_lock g.lock_list lock ≡ some i)
              × ((get_lock g.lock_list i ≡ some p)
                  × (before_unchecked g thread_id lock ≡ waits_for g thread_id i p)))))
unfolding before_unchecked
before_unchecked-cases g thread_id lock = elim (Option-cases (search_lock g.lock_list lock)) [
  | inl e ↦ inl (rw (before_unchecked, e) refl)
  | inr (i, e) ↦
      let (p, got) = search_lock-get_lock g.lock_list lock i e in
      inr (i, (p, (e, (got, rw (before_unchecked, e, got) refl))))
]

-- before_unchecked ends, and keeps the graph sound.
before_unchecked-IsSound :
    (g : TaskGraph) (thread_id lock : ℕ)
    → IsSound g.vertex_list
    → Returns (λ g'. IsSound g'.vertex_list) (before_unchecked g thread_id lock)
before_unchecked-IsSound g thread_id lock s = elim (before_unchecked-cases g thread_id lock) [
  | inl e ↦ rw e (returns s)
  | inr (i, (p, (e, (got, same)))) ↦
      rw same (Returns-map (waits_for-Waits g thread_id i p s) λ g' a. a.0)
]

-- Where a lock is owned by another thread, the edge to the owner is there afterwards.
pub before_unchecked-Waits :
    (g : TaskGraph) (thread_id lock owner : ℕ)
    → IsSound g.vertex_list
    → Owned g.lock_list lock owner
    → thread_id ≢ owner
    → Returns (λ g'. Waits g'.vertex_list thread_id owner) (before_unchecked g thread_id lock)
unfolding before_unchecked
before_unchecked-Waits g thread_id lock owner s o other =
    rw (before_unchecked, o.found, o.held)
      (Returns-map (waits_for-Waits g thread_id o.index o.slot s)
        λ g' a. subst (Waits g'.vertex_list thread_id) o.owner (a.1 (λ e. other (e ∙ o.owner))))

-- The lock is then found with the calling thread as its owner.
pub after_unchecked-Owned :
    (g : TaskGraph) (thread_id lock : ℕ) (junk : Pair)
    → IsSound g.vertex_list
    → Returns
        (λ g'. IsSound g'.vertex_list × Owned g'.lock_list lock thread_id)
        (after_unchecked g thread_id lock junk)
unfolding after_unchecked owns_now
after_unchecked-Owned g thread_id lock junk s = elim (Option-cases (search_lock g.lock_list lock)) [
  | inl e ↦
      rw (after_unchecked, e) (returns (s, take_slot-Owned g.lock_list _ thread_id lock junk e))
  | inr (i, e) ↦
      let (p, got) = search_lock-get_lock g.lock_list lock i e in
      rw (after_unchecked, e, got)
        (returns (removed p, set_lock-Owned g.lock_list lock i p _ e got refl))
]
  where
    removed : (p : Pair) → IsSound (owns_now g thread_id 0 p).vertex_list
    removed p =
        elim (Bool-cases
          (verify_edge g.vertex_list (thread_pair thread_id) (thread_pair p.th_id))) [
            | inl e ↦ rw e (remove_edge-IsSound g.vertex_list _ _ s)
            | inr e ↦ rw e s
          ]

unlock_after-vertex_list :
    (g g' : TaskGraph) (lock : ℕ) → unlock_after g lock ≡ some g' → g'.vertex_list ≡ g.vertex_list
unfolding unlock_after
unlock_after-vertex_list g g' lock h = elim (Option-cases (search_lock g.lock_list lock)) [
  | inl e ↦ (let bad : none ≡ some g' = rw (unlock_after, e) at h in absurd (cc))
  | inr (i, e) ↦
      let (p, got) = search_lock-get_lock g.lock_list lock i e in
      Returns-some (unlocked i p) g' (rw (unlock_after, e, got) at h)
]
  where
    unlocked :
        (i : ℕ) (p : Pair)
        → Returns
            (λ t. t.vertex_list ≡ g.vertex_list)
            (some (
              if p.degress == 0
              then record g {
                lock_list = set_lock g.lock_list i (record p { th_id = 0; lock_id = 0 });
              }
              else g))
    unlocked i p = elim (Bool-cases (p.degress == 0)) [
      | inl e ↦ rw e (returns refl)
      | inr e ↦ rw e (returns refl)
    ]

in_bounds-some : (o : Option TaskGraph) (g : TaskGraph) → (o >>= in_bounds) ≡ some g → o ≡ some g
unfolding in_bounds
in_bounds-some none g e = absurd (none≢some e)
in_bounds-some (some h) g e =
    elim (Bool-cases (leb (length h.vertex_list) 100 && leb (length h.lock_list) 100)) [
      | inl fits ↦ (let same : some h ≡ some g = rw fits at e in same)
      | inr over ↦ (let bad : none ≡ some g = rw over at e in absurd (none≢some bad))
    ]

-- The task graphs that hooks lead to, in any order and of any threads.
pub data Reached : TaskGraph → Type 0 where
  start_check : Reached (record { vertex_list = []; lock_list = [] })
  before :
      {g g' : TaskGraph} (thread_id lock : ℕ)
      → Reached g
      → lock_before g thread_id lock ≡ some g'
      → Reached g'
  after :
      {g g' : TaskGraph} (thread_id lock : ℕ) (junk : Pair)
      → Reached g
      → lock_after g thread_id lock junk ≡ some g'
      → Reached g'
  unlock : {g g' : TaskGraph} (lock : ℕ) → Reached g → unlock_after g lock ≡ some g' → Reached g'

-- In any task graph that calls of lock_before, lock_after and unlock_after lead to from the empty
-- one without a fault, so with at most 100 vertices and 100 locks, every pair of a chain is of the
-- type PROCESS and belongs to a vertex of the list.
pub Reached-IsSound : {g : TaskGraph} → Reached g → IsSound g.vertex_list
unfolding chain lock_before lock_after
Reached-IsSound start_check = λ u ps p c m. absurd (cc)
Reached-IsSound (before {g} {g'} thread_id lock r e) =
    Returns-some (before_unchecked-IsSound g thread_id lock (Reached-IsSound r)) g'
      (in_bounds-some (before_unchecked g thread_id lock) g' e)
Reached-IsSound (after {g} {g'} thread_id lock junk r e) =
    (Returns-some (after_unchecked-Owned g thread_id lock junk (Reached-IsSound r)) g'
      (in_bounds-some (after_unchecked g thread_id lock junk) g' e)).0
Reached-IsSound (unlock {g} {g'} lock r e) =
    subst IsSound (sym (unlock_after-vertex_list g g' lock e)) (Reached-IsSound r)

-- The thread `a` waits for `b`, at once or through others.
pub data WaitsFor (vs : List Vertex) (a : ℕ) : ℕ → Type 0 where
  at_once : {b : ℕ} → Waits vs a b → WaitsFor vs a b
  through : {b c : ℕ} → WaitsFor vs a b → Waits vs b c → WaitsFor vs a c

WaitsFor-Reach :
    {vs : List Vertex} {a b : ℕ}
    → WaitsFor vs a b
    → (u v : ℕ) × ((search_vertex vs (thread_pair a) ≡ some u)
        × ((search_vertex vs (thread_pair b) ≡ some v) × Reach vs u v))
WaitsFor-Reach (at_once w) = (w.from, w.to, (w.waiting, (w.owning, last w.edge)))
WaitsFor-Reach {vs} (through p w) =
    let (u, v, (first, (mid, path))) = WaitsFor-Reach p in
    let same : w.from ≡ v = some-injective _ _ (sym w.waiting ∙ mid) in
    (u, w.to, (first, (w.owning, more path (subst (λ x. Edge vs x w.to) same w.edge))))

-- In any task graph that calls of lock_before, lock_after and unlock_after lead to from the empty
-- one without a fault, so with at most 100 vertices and 100 locks: if a thread waits for itself
-- through a chain of wait edges, check_dead_lock ends without a fault and sets `deadlock` to 1,
-- whatever the search fields held before.
pub check_dead_lock-finds :
    (g : TaskGraph) (s : Search) (a : ℕ)
    → Reached g
    → WaitsFor g.vertex_list a a
    → Returns (λ t. t.deadlock ≡ 1) (check_dead_lock g.vertex_list s)
check_dead_lock-finds g s a r w =
    let (u, v, (first, (second, path))) = WaitsFor-Reach w in
    let same : v ≡ u = some-injective _ _ (sym second ∙ first) in
    check_dead_lock-reports g.vertex_list s u (IsSound-IsGraph g.vertex_list (Reached-IsSound r))
      (search_vertex-lt g.vertex_list (thread_pair a) u first)
      (subst (Reach g.vertex_list u) same path)
