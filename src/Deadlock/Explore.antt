-- ===== src/Deadlock/Explore.antt =====
-- DFS ends, and what it has explored when it reports no deadlock.
use mathlib.Core.Option.{some-injective}
use c_c_linux_learning_code.Common.{
  ap, ℕ, zero, suc, ◌-◌, ◌≤◌, ◌<◌, ◌≡◌, ◌≢◌, ◌⊎◌, inl, inr, refl, sym, subst, ◌∙◌, arith, Option,
  some, List, [], ◌∷◌, ◌==◌, true, false, update, length, Among, Bool-cases, Returns, returns,
  Returns-bind, Returns-map,
}
use c_c_linux_learning_code.Deadlock.{Pair, Vertex, search_vertex, chain}
use c_c_linux_learning_code.Deadlock.Search.{Search, push_path, visit_all, dfs}
use c_c_linux_learning_code.Deadlock.Graph.{
  Edge, IsGraph, search_vertex-lt, chain-some, unvisited, unvisited_mono, unvisited-update,
}

abbrev pub IsMarked : Search → ℕ → Type 0
IsMarked s u = s.visited u ≡ 1

-- From `s` to `s'` marks and reports stay; without a report, all edges out of the new marks lead to
-- new marks.
pub record Explored (vs : List Vertex) (s s' : Search) : Type 0 where
  pub keeps : (u : ℕ) → IsMarked s u → IsMarked s' u
  pub reports : s.deadlock ≡ 1 → s'.deadlock ≡ 1
  pub closed :
      s'.deadlock ≢ 1
      → (u v : ℕ) → ¬ IsMarked s u
      → IsMarked s' u
      → Edge vs u v
      → IsMarked s' v × (¬ IsMarked s v)

-- The same, with the vertex `i` that was searched.
pub record Searched (vs : List Vertex) (i : ℕ) (s s' : Search) : Type 0 where
  pub explored : Explored vs s s'
  pub marked : IsMarked s' i
  pub fresh : s'.deadlock ≢ 1 → ¬ IsMarked s i

-- The same, with the neighbours by a list of pairs.
pub record VisitedAll (vs : List Vertex) (ps : List Pair) (s s' : Search) : Type 0 where
  pub explored : Explored vs s s'
  pub each :
      s'.deadlock ≢ 1
      → (p : Pair) (v : ℕ) → Among p ps
      → search_vertex vs p ≡ some v
      → IsMarked s' v × (¬ IsMarked s v)

pub IsMarked-cases : (s : Search) (u : ℕ) → IsMarked s u ⊎ (¬ IsMarked s u)
IsMarked-cases s u = elim (Bool-cases (s.visited u == 1)) [
  | inl e ↦ inl (ground arith)
  | inr e ↦ inr (ground arith)
]

pub Explored-trans :
    {vs : List Vertex} {s t u : Search} → Explored vs s t → Explored vs t u → Explored vs s u
Explored-trans {vs} {s} {t} {u} a b = record {
  keeps = λ x m. b.keeps x (a.keeps x m);
  reports = λ d. b.reports (a.reports d);
  closed = λ quiet x y out m e. elim (IsMarked-cases t x) [
    | inl early ↦
        let k = a.closed (λ d. quiet (b.reports d)) x y out early e in (b.keeps y k.0, k.1)
    | inr late ↦ let k = b.closed quiet x y late m e in (k.0, λ old. k.1 (a.keeps y old))
  ];
}

visit_all-VisitedAll :
    (vs : List Vertex) (visit : ℕ → Search → Option Search) (n : ℕ)
    → ((i : ℕ) (s : Search)
        → i < length vs
        → unvisited (length vs) s.visited ≤ n
        → Returns (Searched vs i s) (visit i s))
    → (ps : List Pair) (s : Search)
    → ((p : Pair) → Among p ps → (v : ℕ) × (search_vertex vs p ≡ some v))
    → unvisited (length vs) s.visited ≤ n
    → Returns (VisitedAll vs ps s) (visit_all visit vs ps s)
unfolding visit_all
visit_all-VisitedAll vs visit n searches [] s found few = returns (record {
  explored = record {
    keeps = λ u m. m;
    reports = λ d. d;
    closed = λ quiet u v out m e. absurd (out m);
  };
  each = λ quiet p v m. absurd m;
})
visit_all-VisitedAll vs visit n searches (p ∷ ps) s found few =
    let (i, e) = found p (inl refl) in
    rw e (
      Returns-bind (searches i s (search_vertex-lt vs p i e) few) λ t a.
        let t' = record t { k = t.k - 1 } in
        let a' : Explored vs s t' = record {
          keeps = a.explored.keeps;
          reports = a.explored.reports;
          closed = a.explored.closed;
        } in
        let fewer = unvisited_mono (length vs) s.visited t.visited a.explored.keeps in
        Returns-map
          (visit_all-VisitedAll vs visit n searches ps t' (λ q m. found q (inr m))
            (omega (arith, fewer)))
          λ u b. record {
            explored = Explored-trans a' b.explored;
            each = λ quiet q v m f. both p ps s t u i e a b quiet q v m f;
          })
  where
    both :
        (p : Pair) (ps : List Pair) (s t u : Search) (i : ℕ)
        → search_vertex vs p ≡ some i
        → Searched vs i s t
        → VisitedAll vs ps (record t { k = t.k - 1 }) u
        → u.deadlock ≢ 1
        → (q : Pair) (v : ℕ) → Among q (p ∷ ps)
        → search_vertex vs q ≡ some v
        → IsMarked u v × (¬ IsMarked s v)
    both p ps s t u i e a b quiet q v (inl same) f =
        let here : v ≡ i = cc in
        rw here (b.explored.keeps i a.marked, a.fresh (λ d. quiet (b.explored.reports d)))
    both p ps s t u i e a b quiet q v (inr m) f =
        let k = b.each quiet q v m f in (k.0, λ old. k.1 (a.explored.keeps v old))

-- The state in which DFS walks over the chain of `i`.
abbrev entered : Search → ℕ → Search
entered s i = record (push_path s i) { visited = update s.visited i 1 }

entered-Searched :
    {vs : List Vertex} {ps : List Pair} {i : ℕ} {s t : Search}
    → chain vs i ≡ some ps
    → ¬ IsMarked s i
    → VisitedAll vs ps (entered s i) t
    → Searched vs i s t
entered-Searched {vs} {ps} {i} {s} {t} e new a = record {
  explored = record {
    keeps = λ u m. a.explored.keeps u (ground arith);
    reports = a.explored.reports;
    closed = λ quiet u v out m edge. from quiet u v out m edge (Bool-cases (i == u));
  };
  marked = a.explored.keeps i (ground arith);
  fresh = λ quiet. new;
}
  where
    old : (v : ℕ) → ¬ IsMarked (entered s i) v → ¬ IsMarked s v
    old v out m = out (ground arith)

    from :
        t.deadlock ≢ 1
        → (u v : ℕ) → ¬ IsMarked s u
        → IsMarked t u
        → Edge vs u v
        → ((i == u) ≡ true) ⊎ ((i == u) ≡ false)
        → IsMarked t v × (¬ IsMarked s v)
    from quiet u v out m edge (inl e') =
        let same : i ≡ u = ground arith in
        let chained : chain vs u ≡ some edge.pairs = edge.chained in
        let pairs : edge.pairs ≡ ps =
          some-injective _ _ (sym chained ∙ ap (chain vs) (sym same) ∙ e) in
        let k = a.each quiet edge.pair v (subst (Among edge.pair) pairs edge.among) edge.found in
        (k.0, old v k.1)
    from quiet u v out m edge (inr e') =
        let k = a.explored.closed quiet u v (λ m'. out (ground arith)) m edge in (k.0, old v k.1)

-- DFS ends when its fuel is more than the vertices not yet marked.
pub dfs-Searched :
    (f : ℕ) (vs : List Vertex) (i : ℕ) (s : Search)
    → IsGraph vs
    → i < length vs
    → unvisited (length vs) s.visited < f
    → Returns (Searched vs i s) (dfs f vs i s)
unfolding dfs
dfs-Searched zero vs i s g h few = absurd (omega arith)
dfs-Searched (suc f) vs i s g h few = elim (Bool-cases (s.visited i == 1)) [
  | inl e ↦ rw e (
      returns (record {
        explored = record {
          keeps = λ u m. m;
          reports = λ d. refl;
          closed = λ quiet. absurd (quiet refl);
        };
        marked = ground arith;
        fresh = λ quiet. absurd (quiet refl);
      }))
  | inr e ↦
      let new : ¬ IsMarked s i = ground arith in
      let (ps, c) = chain-some vs i h in
      let fewer = unvisited-update (length vs) i s.visited h new in
      rw (e, c)
        (Returns-map
          (visit_all-VisitedAll vs (dfs f vs) (unvisited (length vs) (entered s i).visited)
            (λ j t hj less. dfs-Searched f vs j t g hj (omega (arith, fewer))) ps (entered s i)
            (λ p m. g i ps p c m) (omega arith))
          λ t a. entered-Searched c new a)
]
