-- ===== src/Deadlock/Graph.antt =====
-- The wait-for graph that the lists of vertices stand for, and counts of marks.
use c_c_linux_learning_code.Common.{
  ℕ, zero, suc, ◌+◌, ◌≤◌, ◌<◌, ◌≡◌, ◌≢◌, inl, inr, refl, arith, some, List, [], ◌∷◌, ◌==◌,
  if◌then◌else◌, update, length, Among, Bool-cases,
}
use c_c_linux_learning_code.Deadlock.{Pair, Vertex, search_vertex, search_from, chain}

-- The chain behind the vertex `u` has a pair of the vertex `v`.
pub record Edge (vs : List Vertex) (u v : ℕ) : Type 0 where
  pub pairs : List Pair
  pub chained : chain vs u ≡ some pairs
  pub pair : Pair
  pub among : Among pair pairs
  pub found : search_vertex vs pair ≡ some v

-- There is a path of one edge or more.
pub data Reach (vs : List Vertex) (u : ℕ) : ℕ → Type 0 where
  last : {v : ℕ} → Edge vs u v → Reach vs u v
  more : {w v : ℕ} → Reach vs u w → Edge vs w v → Reach vs u v

-- Each pair of a chain belongs to a vertex.
abbrev pub IsGraph : List Vertex → Type 0
IsGraph vs =
    (u : ℕ) (ps : List Pair) (p : Pair)
    → chain vs u ≡ some ps
    → Among p ps
    → (v : ℕ) × (search_vertex vs p ≡ some v)

search_from-lt :
    (i : ℕ) (vs : List Vertex) (p : Pair) (v : ℕ) → search_from i vs p ≡ some v → v < i + length vs
unfolding search_from
search_from-lt i [] p v h = absurd (cc)
search_from-lt i (x ∷ vs) p v h = ground (arith, search_from-lt (suc i) vs p v)

pub search_vertex-lt :
    (vs : List Vertex) (p : Pair) (v : ℕ) → search_vertex vs p ≡ some v → v < length vs
unfolding search_vertex
search_vertex-lt vs p v h = omega (arith, search_from-lt 0 vs p v h)

pub chain-some :
    (vs : List Vertex) (i : ℕ) → i < length vs → (ps : List Pair) × (chain vs i ≡ some ps)
unfolding chain
chain-some [] i h = absurd (omega arith)
chain-some (v ∷ vs) zero h = (v.next, refl)
chain-some (v ∷ vs) (suc i) h = chain-some vs i (omega arith)

-- The vertices below `n` that are not marked.
pub unvisited : ℕ → (ℕ → ℕ) → ℕ
unvisited zero f = 0
unvisited (suc n) f = (if f n == 1 then 0 else 1) + unvisited n f

pub unvisited-le : (n : ℕ) (f : ℕ → ℕ) → unvisited n f ≤ n
unfolding unvisited
unvisited-le zero f = omega arith
unvisited-le (suc n) f = ground (arith, unvisited-le n f)

pub unvisited_mono :
    (n : ℕ) (f g : ℕ → ℕ) → ((u : ℕ) → f u ≡ 1 → g u ≡ 1) → unvisited n g ≤ unvisited n f
unfolding unvisited
unvisited_mono zero f g h = omega arith
unvisited_mono (suc n) f g h = ground (arith, h n, unvisited_mono n f g h)

unvisited-update_out : (n i : ℕ) (f : ℕ → ℕ) → n ≤ i → unvisited n (update f i 1) ≡ unvisited n f
unfolding unvisited
unvisited-update_out zero i f h = refl
unvisited-update_out (suc n) i f h = ground (arith, unvisited-update_out n i f)

-- A new mark leaves one vertex less.
pub unvisited-update :
    (n i : ℕ) (f : ℕ → ℕ) → i < n → f i ≢ 1 → unvisited n (update f i 1) + 1 ≡ unvisited n f
unfolding unvisited
unvisited-update zero i f h ne = absurd (omega arith)
unvisited-update (suc n) i f h ne = elim (Bool-cases (i == n)) [
  | inl e ↦ ground (arith, unvisited-update_out n i f)
  | inr e ↦ ground (arith, unvisited-update n i f)
]
