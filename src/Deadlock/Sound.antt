-- ===== src/Deadlock/Sound.antt =====
-- The task graph as the hooks leave it: every pair is of a thread and belongs to a vertex.
use mathlib.Core.Option.{some-injective}
use c_c_linux_learning_code.Common.{
  Among-append_right, ℕ, ◌≡◌, ◌≢◌, ◌⊎◌, inl, inr, refl, sym, subst, ◌∙◌, ap, some, List, [], ◌∷◌,
  ◌++◌, Among, Among-append, true, Option-cases, Returns, returns,
}
use c_c_linux_learning_code.Deadlock.{
  Pair, process, Vertex, search_vertex, chain, change_chain, add_vertex, add_edge, verify_edge,
  remove_edge, remove_first, vertex_pairs, thread_pair,
}
use c_c_linux_learning_code.Deadlock.Graph.{Edge, IsGraph, search_vertex-lt, chain-some}
use c_c_linux_learning_code.Deadlock.Change.{
  search_from-same, search_from-append, search_from-append_new, chain-append_new,
  search_from-change, chain-change, chain-change_at, has_thread-Among, remove_first-Among, At,
  search_vertex-At,
}

-- A pair that a chain may hold.
abbrev Known : List Vertex → Pair → Type 0
Known vs p = (p.type ≡ process) × ((v : ℕ) × (search_vertex vs p ≡ some v))

abbrev pub IsSound : List Vertex → Type 0
IsSound vs = (u : ℕ) (ps : List Pair) (p : Pair) → chain vs u ≡ some ps → Among p ps → Known vs p

-- The vertex of the thread `a` has an edge to that of the thread `b`.
pub record Waits (vs : List Vertex) (a b : ℕ) : Type 0 where
  pub from : ℕ
  pub to : ℕ
  pub waiting : search_vertex vs (thread_pair a) ≡ some from
  pub owning : search_vertex vs (thread_pair b) ≡ some to
  pub edge : Edge vs from to

pub IsSound-IsGraph : (vs : List Vertex) → IsSound vs → IsGraph vs
IsSound-IsGraph vs s u ps p c m = (s u ps p c m).1

Known-map :
    (vs ws : List Vertex)
    → ((q : Pair) (v : ℕ) → search_vertex vs q ≡ some v → search_vertex ws q ≡ some v)
    → (p : Pair) → Known vs p
    → Known ws p
Known-map vs ws keeps p (t, (v, f)) = (t, (v, keeps p v f))

-- add_vertex keeps what was found, and its pair is found afterwards.
pub add_vertex-keeps :
    (vs : List Vertex) (p q : Pair) (v : ℕ)
    → search_vertex vs q ≡ some v
    → search_vertex (add_vertex vs p) q ≡ some v
unfolding add_vertex search_vertex
add_vertex-keeps vs p q v h = elim (Option-cases (search_vertex vs p)) [
  | inl e ↦ rw (add_vertex, e) (search_from-append 0 vs _ q v h)
  | inr (i, e) ↦ rw (add_vertex, e) h
]

pub add_vertex-found :
    (vs : List Vertex) (p : Pair) → (v : ℕ) × (search_vertex (add_vertex vs p) p ≡ some v)
unfolding add_vertex search_vertex
add_vertex-found vs p = elim (Option-cases (search_vertex vs p)) [
  | inl e ↦ rw (add_vertex, e) (search_from-append_new 0 vs p e)
  | inr (i, e) ↦ rw (add_vertex, e) (i, e)
]

chain-add_vertex :
    (vs : List Vertex) (p : Pair) (u : ℕ) (ps : List Pair)
    → chain (add_vertex vs p) u ≡ some ps
    → (chain vs u ≡ some ps) ⊎ (ps ≡ [])
unfolding add_vertex
chain-add_vertex vs p u ps = elim (Option-cases (search_vertex vs p)) [
  | inl e ↦
      rw (add_vertex, e)
        (λ c. elim (chain-append_new vs (record { pair = p; next = [] }) u ps c) [
          | inl old ↦ inl old
          | inr new ↦ inr (sym (some-injective _ _ new))
        ])
  | inr (i, e) ↦ rw (add_vertex, e) (λ c. inl c)
]

pub add_vertex-IsSound : (vs : List Vertex) (p : Pair) → IsSound vs → IsSound (add_vertex vs p)
add_vertex-IsSound vs p s u ps q c m =
    Known-map vs (add_vertex vs p) (add_vertex-keeps vs p) q (elim (chain-add_vertex vs p u ps c) [
      | inl old ↦ s u ps q old m
      | inr new ↦ absurd (subst (Among q) new m)
    ])

search_vertex-change :
    (vs : List Vertex) (i : ℕ) (f : List Pair → List Pair) (p : Pair) (v : ℕ)
    → search_vertex vs p ≡ some v
    → search_vertex (change_chain vs i f) p ≡ some v
unfolding search_vertex
search_vertex-change vs i f p v h = rw (search_from-change 0 vs i f p) h

-- A chain that changes only by known pairs.
change_chain-IsSound :
    (vs : List Vertex) (i : ℕ) (f : List Pair → List Pair)
    → ((ps : List Pair) (q : Pair) → Among q (f ps) → Among q ps ⊎ Known vs q)
    → IsSound vs
    → IsSound (change_chain vs i f)
change_chain-IsSound vs i f new s u ps q c m =
    let (qs, (old, change)) = chain-change vs i f u ps c in
    Known-map vs (change_chain vs i f) (search_vertex-change vs i f) q (elim change [
      | inl changed ↦ elim (new qs q (subst (Among q) (some-injective _ _ changed) m)) [
        | inl n ↦ s u qs q old n
        | inr k ↦ k
      ]
      | inr same ↦ s u qs q old (subst (Among q) (some-injective _ _ same) m)
    ])

-- add_edge of two threads keeps the graph sound, and sets the edge.
pub add_edge-Waits :
    (vs : List Vertex) (a b : ℕ)
    → IsSound vs
    → Returns (λ ws. IsSound ws × Waits ws a b) (add_edge vs (thread_pair a) (thread_pair b))
unfolding add_edge
add_edge-Waits vs a b s =
    let u = thread_pair a in
    let v = thread_pair b in
    let ws = add_vertex (add_vertex vs u) v in
    let (j, owner) = add_vertex-found (add_vertex vs u) v in
    let (i, first) = add_vertex-found vs u in
    let waiter = add_vertex-keeps (add_vertex vs u) v u i first in
    let sound = add_vertex-IsSound (add_vertex vs u) v (add_vertex-IsSound vs u s) in
    let (ps, c) = chain-some ws i (search_vertex-lt ws u i waiter) in
    rw waiter (
      returns (
        change_chain-IsSound ws i (λ l. l ++ v ∷ [])
            (λ qs q m. elim (Among-append q qs (v ∷ []) m) [
              | inl old ↦ inl old
              | inr (inl same) ↦ inr (rw same (refl, (j, owner)))
              | inr (inr n) ↦ absurd n
            ])
            sound,
        record {
          from = i;
          to = j;
          waiting = search_vertex-change ws i _ u i waiter;
          owning = search_vertex-change ws i _ v j owner;
          edge = record {
            pairs = ps ++ v ∷ [];
            chained = chain-change_at ws i _ ps c;
            pair = v;
            among = Among-append_right v ps (v ∷ []) (inl refl);
            found = search_vertex-change ws i _ v j owner;
          };
        },
      ))

search_vertex-same :
    (vs : List Vertex) (p q : Pair)
    → p.th_id ≡ q.th_id
    → p.type ≡ q.type
    → search_vertex vs p ≡ search_vertex vs q
unfolding search_vertex
search_vertex-same vs p q = search_from-same 0 vs p q

-- An edge that verify_edge finds between two threads is there.
pub verify_edge-Waits :
    (vs : List Vertex) (a b : ℕ)
    → IsSound vs
    → a ≢ b
    → (j : ℕ) × (search_vertex vs (thread_pair b) ≡ some j)
    → verify_edge vs (thread_pair a) (thread_pair b) ≡ true
    → Waits vs a b
unfolding verify_edge
verify_edge-Waits vs a b s other (j, owner) h =
    elim (Option-cases (search_vertex vs (thread_pair a))) [
      | inl e ↦ absurd (cc)
      | inr (i, e) ↦
          let at = search_vertex-At vs (thread_pair a) i e in
          let (q, (m, same)) = has_thread-Among b (vertex_pairs vs i) (rw (verify_edge, e) at h) in
          from i e at q same (subst (Among q) at.paired m)
    ]
  where
    from :
        (i : ℕ)
        → search_vertex vs (thread_pair a) ≡ some i
        → (at : At vs i a) → (q : Pair) → q.th_id ≡ b
        → Among q (at.vertex.pair ∷ at.vertex.next)
        → Waits vs a b
    from i e at q same (inl first) =
        absurd (other (sym at.thread ∙ ap (λ p. p.th_id) (sym first) ∙ same))
    from i e at q same (inr m) = record {
      from = i;
      to = j;
      waiting = e;
      owning = owner;
      edge = record {
        pairs = at.vertex.next;
        chained = at.chained;
        pair = q;
        among = m;
        found =
            search_vertex-same vs q (thread_pair b) same (s i at.vertex.next q at.chained m).0
            ∙ owner;
      };
    }

pub remove_edge-IsSound :
    (vs : List Vertex) (u v : Pair) → IsSound vs → IsSound (remove_edge vs u v)
unfolding remove_edge chain search_vertex
remove_edge-IsSound vs u v s = elim (Option-cases (search_vertex vs u)) [
  | inl e ↦ rw (remove_edge, e) s
  | inr (i, e) ↦ elim (Option-cases (search_vertex vs v)) [
    | inl e' ↦ rw (remove_edge, e, e') s
    | inr (j, e') ↦
        rw (remove_edge, e, e')
          (change_chain-IsSound vs i (remove_first v.th_id)
            (λ qs q m. inl (remove_first-Among v.th_id qs q m)) s)
  ]
]
