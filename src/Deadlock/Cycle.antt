-- ===== src/Deadlock/Cycle.antt =====
-- What search_for_cycle and check_dead_lock find.
use mathlib.Core.Option.{some-injective}
use c_c_linux_learning_code.Common.{
  ℕ, zero, suc, ◌+◌, ◌≤◌, ◌<◌, ◌≡◌, ◌≢◌, ◌⊎◌, inl, inr, refl, sym, subst, ◌∙◌, arith, some, List,
  [], ◌∷◌, ◌==◌, length, Among, Bool-cases, Returns, returns, Returns-bind, Returns-map,
}
use c_c_linux_learning_code.Deadlock.{Pair, Vertex, search_vertex, chain}
use c_c_linux_learning_code.Deadlock.Search.{
  Search, reset, cycle_loop, search_for_cycle, check_loop, check_dead_lock,
}
use c_c_linux_learning_code.Deadlock.Graph.{
  Edge, IsGraph, Reach, last, more, search_vertex-lt, chain-some, unvisited-le,
}
use c_c_linux_learning_code.Deadlock.Explore.{IsMarked, Searched, dfs-Searched}

Edge-lt : {vs : List Vertex} {u v : ℕ} → Edge vs u v → v < length vs
Edge-lt {vs} {u} {v} e = search_vertex-lt vs e.pair v e.found

Reach-lt : {vs : List Vertex} {u v : ℕ} → Reach vs u v → v < length vs
Reach-lt (last e) = Edge-lt e
Reach-lt (more r e) = Edge-lt e

-- Without a report, all that the searched vertex reaches is marked by this search.
Reach-IsMarked :
    {vs : List Vertex} {i v : ℕ} {s t : Search}
    → Searched vs i s t
    → t.deadlock ≢ 1
    → Reach vs i v
    → IsMarked t v × (¬ IsMarked s v)
Reach-IsMarked {vs} {i} a quiet (last e) = a.explored.closed quiet i _ (a.fresh quiet) a.marked e
Reach-IsMarked a quiet (more r e) =
    let k = Reach-IsMarked a quiet r in a.explored.closed quiet _ _ k.1 k.0 e

-- A path that comes back starts with an edge, whose end is the root or leads to it.
Reach-first :
    {vs : List Vertex} {u v : ℕ} → Reach vs u v → (w : ℕ) × (Edge vs u w × ((w ≡ v) ⊎ Reach vs w v))
Reach-first {vs} {u} {v} (last e) = (v, (e, inl refl))
Reach-first {vs} {u} {v} (more r e) =
    let (w, (first, rest)) = Reach-first r in
    (
      w,
      (
        first,
        inr (elim rest [
          | inl same ↦ last (subst (λ x. Edge vs x v) (sym same) e)
          | inr path ↦ more path e
        ]),
      ),
    )

-- From a state where the root is marked, a neighbour that is the root or leads to it is reported.
root-reported :
    {vs : List Vertex} {c w : ℕ} {s t : Search}
    → IsMarked s c
    → (w ≡ c) ⊎ Reach vs w c
    → Searched vs w s t
    → ¬ ¬ (t.deadlock ≡ 1)
root-reported {vs} {c} {w} {s} {t} m (inl same) a quiet =
    a.fresh quiet (subst (IsMarked s) (sym same) m)
root-reported {vs} {c} {w} {s} {t} m (inr path) a quiet = (Reach-IsMarked a quiet path).1 m

-- What one vertex of check_dead_lock's loop leaves: reports and the root's mark stay, and a pair of
-- the list whose vertex leads back to the root is reported.
record Cycled (vs : List Vertex) (c : ℕ) (ps : List Pair) (s s' : Search) : Type 0 where
  pub keeps : s.deadlock ≡ 1 → s'.deadlock ≡ 1
  pub found :
      (p : Pair) (w : ℕ)
      → Among p ps
      → search_vertex vs p ≡ some w
      → (w ≡ c) ⊎ Reach vs w c
      → s'.deadlock ≡ 1

deadlock-stable : (t : Search) → ¬ ¬ (t.deadlock ≡ 1) → t.deadlock ≡ 1
deadlock-stable t h = elim (Bool-cases (t.deadlock == 1)) [
  | inl e ↦ ground arith
  | inr e ↦ absurd (h (λ q. ground arith))
]

reset-root : (vs : List Vertex) (c : ℕ) (s : Search) → IsMarked s c → IsMarked (reset vs c s) c
unfolding reset
reset-root vs c s m = ground arith

reset-deadlock :
    (vs : List Vertex) (c : ℕ) (s : Search) → s.deadlock ≡ 1 → (reset vs c s).deadlock ≡ 1
unfolding reset
reset-deadlock vs c s d = d

cycle_loop-Cycled :
    (vs : List Vertex) (c : ℕ) (ps : List Pair) (s : Search)
    → IsGraph vs
    → IsMarked s c
    → ((p : Pair) → Among p ps → (v : ℕ) × (search_vertex vs p ≡ some v))
    → Returns (Cycled vs c ps s) (cycle_loop vs c ps s)
unfolding cycle_loop
cycle_loop-Cycled vs c [] s g m found =
    returns (record { keeps = λ d. d; found = λ p w n. absurd n })
cycle_loop-Cycled vs c (p ∷ ps) s g m found =
    let (i, e) = found p (inl refl) in
    let few = unvisited-le (length vs) (reset vs c s).visited in
    let kept : IsMarked (reset vs c s) c = reset-root vs c s m in
    rw e (
      Returns-bind
        (dfs-Searched (length vs + 1) vs i (reset vs c s) g (search_vertex-lt vs p i e)
          (omega (arith, few)))
        λ t a.
          Returns-map
            (cycle_loop-Cycled vs c ps t g (a.explored.keeps c kept) (λ q n. found q (inr n)))
            λ u b. record {
              keeps = λ d. b.keeps (a.explored.reports (reset-deadlock vs c s d));
              found = λ q w n f r. both p ps i t u e a b kept q w n f r;
            })
  where
    both :
        (p : Pair) (ps : List Pair) (i : ℕ) {s : Search} (t u : Search)
        → search_vertex vs p ≡ some i
        → Searched vs i s t
        → Cycled vs c ps t u
        → IsMarked s c
        → (q : Pair) (w : ℕ) → Among q (p ∷ ps)
        → search_vertex vs q ≡ some w
        → (w ≡ c) ⊎ Reach vs w c
        → u.deadlock ≡ 1
    both p ps i t u e a b kept q w (inl same) f r =
        let here : w ≡ i = cc in
        b.keeps
          (deadlock-stable t (root-reported kept (subst (λ x. (x ≡ c) ⊎ Reach vs x c) here r) a))
    both p ps i t u e a b kept q w (inr n) f r = b.found q w n f r

-- The search from `c` ends; it keeps a report, and reports when `c` lies on a cycle.
search_for_cycle-Reported :
    (vs : List Vertex) (c : ℕ) (s : Search)
    → IsGraph vs
    → c < length vs
    → Returns
        (λ t. (s.deadlock ≡ 1 → t.deadlock ≡ 1) × (Reach vs c c → t.deadlock ≡ 1))
        (search_for_cycle vs c s)
unfolding search_for_cycle
search_for_cycle-Reported vs c s g h =
    let (ps, chained) = chain-some vs c h in
    rw chained (
      Returns-map (cycle_loop-Cycled vs c ps _ g (ground arith) (λ p m. g c ps p chained m))
        λ t a. (a.keeps, λ r. first ps chained t a.found (Reach-first r)))
  where
    first :
        (ps : List Pair)
        → chain vs c ≡ some ps
        → (t : Search)
        → ((p : Pair) (w : ℕ)
            → Among p ps
            → search_vertex vs p ≡ some w
            → (w ≡ c) ⊎ Reach vs w c
            → t.deadlock ≡ 1)
        → (w : ℕ) × (Edge vs c w × ((w ≡ c) ⊎ Reach vs w c))
        → t.deadlock ≡ 1
    first ps chained t found (w, (e, r)) =
        let pairs : some e.pairs ≡ some ps = sym e.chained ∙ chained in
        found e.pair w (subst (Among e.pair) (some-injective _ _ pairs) e.among) e.found r

check_loop-Reported :
    (vs : List Vertex) (n i : ℕ) (s : Search)
    → IsGraph vs
    → i + n ≡ length vs
    → Returns
        (λ t.
          (s.deadlock ≡ 1 → t.deadlock ≡ 1)
          × ((c : ℕ) → i ≤ c → c < length vs → Reach vs c c → t.deadlock ≡ 1))
        (check_loop vs n i s)
unfolding check_loop
check_loop-Reported vs zero i s g h = returns (λ d. d, λ c l l'. absurd (omega arith))
check_loop-Reported vs (suc n) i s g h = elim (Bool-cases (s.deadlock == 1)) [
  | inl e ↦ rw e (returns (λ d. d, λ c l l' r. ground arith))
  | inr e ↦ rw e (
      Returns-bind (search_for_cycle-Reported vs i s g (omega arith)) λ t a.
        Returns-map (check_loop-Reported vs n (suc i) t g (omega arith)) λ u b. (
          λ d. b.0 (a.0 d),
          λ c l l' r. elim (Bool-cases (i == c)) [
            | inl same ↦
                let here : i ≡ c = ground arith in
                b.0 (a.1 (subst (λ x. Reach vs x x) (sym here) r))
            | inr other ↦ b.1 c (ground arith) l' r
          ],
        ))
]

-- In a graph where each pair of a chain belongs to a vertex, and in which some vertex reaches
-- itself by a path of one edge or more, check_dead_lock ends without a fault and sets `deadlock` to
-- 1, whatever the search fields held before.
pub check_dead_lock-reports :
    (vs : List Vertex) (s : Search) (c : ℕ)
    → IsGraph vs
    → c < length vs
    → Reach vs c c
    → Returns (λ t. t.deadlock ≡ 1) (check_dead_lock vs s)
unfolding check_dead_lock
check_dead_lock-reports vs s c g h r =
    Returns-map (check_loop-Reported vs (length vs) 0 _ g (omega arith))
      λ t a. a.1 c (omega arith) h r
