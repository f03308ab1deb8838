-- ===== src/Deadlock/Change.antt =====
-- The lists of vertices as add_vertex, add_edge and remove_edge change them.
use c_c_linux_learning_code.Common.{
  subst, ℕ, zero, suc, ◌+◌, ◌≡◌, ◌⊎◌, inl, inr, refl, arith, some, none, List, [], ◌∷◌, ◌++◌, ◌==◌,
  ◌&&◌, Among, Bool-cases, true,
}
use c_c_linux_learning_code.Deadlock.{
  Pair, PairType, process, resource, same_type, Vertex, search_vertex, search_from, chain,
  change_chain, has_thread, remove_first, vertex_pairs,
}

same_type_refl : (t : PairType) → same_type t t ≡ true
unfolding same_type
same_type_refl process = refl
same_type_refl resource = refl

-- Only the thread and the type of a pair matter.
pub search_from-same :
    (k : ℕ) (vs : List Vertex) (p q : Pair)
    → p.th_id ≡ q.th_id
    → p.type ≡ q.type
    → search_from k vs p ≡ search_from k vs q
unfolding search_from
search_from-same k [] p q h t = refl
search_from-same k (v ∷ vs) p q h t = rw (search_from-same (suc k) vs p q h t, h, t) refl

pub search_from-append :
    (k : ℕ) (vs ws : List Vertex) (p : Pair) (i : ℕ)
    → search_from k vs p ≡ some i
    → search_from k (vs ++ ws) p ≡ some i
unfolding search_from
search_from-append k [] ws p i h = absurd (cc)
search_from-append k (v ∷ vs) ws p i h = ground (arith, search_from-append (suc k) vs ws p i)

pub search_from-append_new :
    (k : ℕ) (vs : List Vertex) (p : Pair)
    → search_from k vs p ≡ none
    → (i : ℕ) × (search_from k (vs ++ record { pair = p; next = [] } ∷ []) p ≡ some i)
unfolding search_from
search_from-append_new k [] p h = (k, ground (arith, same_type_refl p.type))
search_from-append_new k (v ∷ vs) p h =
    elim (Bool-cases (same_type v.pair.type p.type && (v.pair.th_id == p.th_id))) [
      | inl e ↦ (k, rw e refl)
      | inr e ↦ rw e (search_from-append_new (suc k) vs p (ground arith))
    ]

pub chain-append_new :
    (vs : List Vertex) (x : Vertex) (u : ℕ) (ps : List Pair)
    → chain (vs ++ x ∷ []) u ≡ some ps
    → (chain vs u ≡ some ps) ⊎ (some x.next ≡ some ps)
unfolding chain
chain-append_new [] x zero ps h = inr h
chain-append_new [] x (suc u) ps h = absurd (cc)
chain-append_new (v ∷ vs) x zero ps h = inl h
chain-append_new (v ∷ vs) x (suc u) ps h = chain-append_new vs x u ps h

pub search_from-change :
    (k : ℕ) (vs : List Vertex) (i : ℕ) (f : List Pair → List Pair) (p : Pair)
    → search_from k (change_chain vs i f) p ≡ search_from k vs p
unfolding search_from change_chain
search_from-change k [] i f p = refl
search_from-change k (v ∷ vs) zero f p = refl
search_from-change k (v ∷ vs) (suc i) f p = rw (search_from-change (suc k) vs i f p) refl

pub chain-change :
    (vs : List Vertex) (i : ℕ) (f : List Pair → List Pair) (u : ℕ) (ps : List Pair)
    → chain (change_chain vs i f) u ≡ some ps
    → (qs : List Pair) × ((chain vs u ≡ some qs) × ((some ps ≡ some (f qs)) ⊎ (some ps ≡ some qs)))
unfolding chain change_chain
chain-change [] i f u ps h = absurd (cc)
chain-change (v ∷ vs) zero f zero ps h = (v.next, (refl, inl (cc)))
chain-change (v ∷ vs) zero f (suc u) ps h = (ps, (h, inr refl))
chain-change (v ∷ vs) (suc i) f zero ps h = (v.next, (refl, inr (cc)))
chain-change (v ∷ vs) (suc i) f (suc u) ps h = chain-change vs i f u ps h

pub chain-change_at :
    (vs : List Vertex) (i : ℕ) (f : List Pair → List Pair) (ps : List Pair)
    → chain vs i ≡ some ps
    → chain (change_chain vs i f) i ≡ some (f ps)
unfolding chain change_chain
chain-change_at [] i f ps h = absurd (cc)
chain-change_at (v ∷ vs) zero f ps h = cc
chain-change_at (v ∷ vs) (suc i) f ps h = chain-change_at vs i f ps h

pub has_thread-Among :
    (th : ℕ) (ps : List Pair) → has_thread th ps ≡ true → (q : Pair) × (Among q ps × (q.th_id ≡ th))
unfolding has_thread
has_thread-Among th [] h = absurd (cc)
has_thread-Among th (p ∷ ps) h = elim (Bool-cases (p.th_id == th)) [
  | inl e ↦ (p, (inl refl, ground arith))
  | inr e ↦ let (q, (m, same)) = has_thread-Among th ps (ground arith) in (q, (inr m, same))
]

pub remove_first-Among :
    (th : ℕ) (ps : List Pair) (q : Pair) → Among q (remove_first th ps) → Among q ps
unfolding remove_first
remove_first-Among th [] q m = m
remove_first-Among th (p ∷ ps) q m = elim (Bool-cases (p.th_id == th)) [
  | inl e ↦ inr (ground arith)
  | inr e ↦ ground (arith, remove_first-Among th ps q)
]

-- The vertex at an index `n`, with its thread.
pub record At (vs : List Vertex) (n th : ℕ) : Type 0 where
  pub vertex : Vertex
  pub paired : vertex_pairs vs n ≡ vertex.pair ∷ vertex.next
  pub chained : chain vs n ≡ some vertex.next
  pub thread : vertex.pair.th_id ≡ th

search_from-At :
    (k : ℕ) (vs : List Vertex) (p : Pair) (i : ℕ)
    → search_from k vs p ≡ some i
    → (n : ℕ) × ((k + n ≡ i) × At vs n p.th_id)
unfolding search_from chain vertex_pairs
search_from-At k [] p i h = absurd (cc)
search_from-At k (v ∷ vs) p i h =
    elim (Bool-cases (same_type v.pair.type p.type && (v.pair.th_id == p.th_id))) [
      | inl e ↦
          let here : k ≡ i = ground arith in
          (
            0,
            (
              omega arith,
              record { vertex = v; paired = refl; chained = refl; thread = ground arith },
            ),
          )
      | inr e ↦
          let (n, (sum, at)) = search_from-At (suc k) vs p i (ground arith) in
          (
            suc n,
            (
              omega arith,
              record {
                vertex = at.vertex;
                paired = at.paired;
                chained = at.chained;
                thread = at.thread;
              },
            ),
          )
    ]

pub search_vertex-At :
    (vs : List Vertex) (p : Pair) (i : ℕ) → search_vertex vs p ≡ some i → At vs i p.th_id
unfolding search_vertex
search_vertex-At vs p i h =
    let (n, (sum, at)) = search_from-At 0 vs p i h in
    let same : n ≡ i = omega arith in subst (λ x. At vs x p.th_id) same at
