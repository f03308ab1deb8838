-- ===== src/MinHeap/Hole.antt =====
-- A heap with a hole at the slot `i`, into which `e` is to go: the invariant that the sifting loops
-- share, and the two moves of the hole.
use c_c_linux_learning_code.Common.{
  ℕ, ◌-◌, ◌/◌, ◌≤◌, ◌<◌, ◌≡◌, ◌≢◌, ◌⊎◌, refl, ◌∙◌, some, arith, update, Returns, returns,
}
use c_c_linux_learning_code.MinHeap.{MinHeap, load, place, set_index}
use c_c_linux_learning_code.MinHeap.Order.{time, index, IsValid, Holds}

pub record Hole (s : MinHeap) (i e : ℕ) : Type 0 where
  pub inside : i < s.n
  pub room : s.n ≤ s.a
  pub small : s.n < 2147483648
  pub indexed : (j : ℕ) → j < s.n → j ≢ i → index s (s.p j) ≡ j
  pub apart : (j : ℕ) → j < s.n → j ≢ i → s.p j ≢ e
  pub ordered :
      (c : ℕ)
      → 0 < c
      → c < s.n
      → c ≢ i
      → (c - 1) / 2 ≢ i
      → time s (s.p ((c - 1) / 2)) ≤ time s (s.p c)
  pub bridged :
      (c : ℕ)
      → 0 < c
      → c < s.n
      → (c - 1) / 2 ≡ i
      → 0 < i
      → time s (s.p ((i - 1) / 2)) ≤ time s (s.p c)

-- `e` expires no later than the children of the hole.
abbrev pub Below : MinHeap → ℕ → ℕ → Type 0
Below s i e = (c : ℕ) → 0 < c → c < s.n → (c - 1) / 2 ≡ i → time s e ≤ time s (s.p c)

-- `e` expires no earlier than the parent of the hole.
abbrev pub Above : MinHeap → ℕ → ℕ → Type 0
Above s i e = 0 < i → time s (s.p ((i - 1) / 2)) ≤ time s e

-- The entries that the heap holds with the hole, and `e`.
abbrev pub HoldsAround : MinHeap → ℕ → ℕ → ℕ → Type 0
HoldsAround s i e x = (x ≡ e) ⊎ ((x ≢ e) × (index s x ≢ i) × Holds s x)

-- `r` is a heap of just these entries, with all times and the sizes as before.
pub record Sifted (s : MinHeap) (i e : ℕ) (r : MinHeap) : Type 0 where
  pub valid : IsValid r
  pub same_n : r.n ≡ s.n
  pub same_a : r.a ≡ s.a
  pub times : (x : ℕ) → time r x ≡ time s x
  pub kept : (x : ℕ) → HoldsAround s i e x → Holds r x
  pub only : (x : ℕ) → Holds r x → HoldsAround s i e x

-- The heap after `(s->p[i] = e)->min_heap_idx = i`.
abbrev pub placed : MinHeap → ℕ → ℕ → MinHeap
placed s i e = record s {
  p = update s.p i e;
  entry = update s.entry e (record (s.entry e) { min_heap_idx = i });
}

pub place-ok : (s : MinHeap) (i e : ℕ) → i < s.a → place s i e ≡ some (placed s i e)
unfolding place set_index
place-ok s i e h = ground arith

pub load-ok : (s : MinHeap) (i : ℕ) → i < s.a → load s i ≡ some (s.p i)
unfolding load
load-ok s i h = ground arith

pub time-placed : (s : MinHeap) (i e x : ℕ) → time (placed s i e) x ≡ time s x
time-placed s i e x = ground arith

module _ (s : MinHeap) (i e : ℕ) (v : Hole s i e) where
  -- The hole is filled where `e` fits between the parent and the children.
  pub settle : Below s i e → Above s i e → Returns (Sifted s i e) (place s i e)
  settle below above = rw (place-ok s i e (omega (arith, v.inside, v.room))) (
      returns (record {
        valid = record {
          room = v.room;
          small = v.small;
          indexed = λ j h. ground (arith, v.indexed j, v.apart j);
          ordered = λ c h k. ground (arith, time-placed s i e, v.ordered c, below c, above);
        };
        same_n = refl;
        same_a = refl;
        times = time-placed s i e;
        kept = λ x h. ground (arith, v.inside);
        only = λ x h. ground (arith, v.inside);
      }))

  -- The move of the hole to the slot `j`, whose entry goes into the slot `i`.
  module _ (j : ℕ) (hj : j < s.n) (ne : j ≢ i) where
    pub kept-move : (x : ℕ) → HoldsAround s i e x → HoldsAround (placed s i (s.p j)) j e x
    kept-move x h = ground (arith, v.indexed j, v.apart j)

    pub only-move : (x : ℕ) → HoldsAround (placed s i (s.p j)) j e x → HoldsAround s i e x
    only-move x h = ground (arith, v.indexed j, v.apart j)

    pub Sifted-move : {r : MinHeap} → Sifted (placed s i (s.p j)) j e r → Sifted s i e r
    Sifted-move q = record {
      valid = q.valid;
      same_n = q.same_n;
      same_a = q.same_a;
      times = λ x. q.times x ∙ time-placed s i (s.p j) x;
      kept = λ x h. q.kept x (kept-move x h);
      only = λ x h. only-move x (q.only x h);
    }

  -- The parent of the hole moves down into it.
  module _ (pos : 0 < i) (less : time s e < time s (s.p ((i - 1) / 2))) where
    pub Hole-up : Hole (placed s i (s.p ((i - 1) / 2))) ((i - 1) / 2) e
    Hole-up =
        let j = (i - 1) / 2 in
        record {
          inside = omega (arith, v.inside);
          room = v.room;
          small = v.small;
          indexed = λ k h ne. ground (arith, v.indexed k, v.indexed j, v.inside);
          apart = λ k h ne. ground (arith, v.apart k, v.apart j, v.inside);
          ordered =
              λ c h k ne pe. ground (arith, time-placed s i (s.p j), v.ordered c, v.bridged c);
          bridged = λ c h k pe q.
              ground (arith, time-placed s i (s.p j), v.ordered c, v.ordered j, v.inside);
        }

    pub Below-up : Below (placed s i (s.p ((i - 1) / 2))) ((i - 1) / 2) e
    Below-up c h k pe =
        let j = (i - 1) / 2 in ground (arith, time-placed s i (s.p j), v.ordered c, v.inside)

  -- A least child of the hole moves up into it.
  module _ (j : ℕ) (pos : 0 < j) (hj : j < s.n) (above : (j - 1) / 2 ≡ i)
      (least : (c : ℕ) → 0 < c → c < s.n → (c - 1) / 2 ≡ i → time s (s.p j) ≤ time s (s.p c))
      (less : time s (s.p j) < time s e) where
    pub Hole-down : Hole (placed s i (s.p j)) j e
    Hole-down = record {
      inside = hj;
      room = v.room;
      small = v.small;
      indexed = λ k h ne. ground (arith, v.indexed k, v.indexed j, v.inside);
      apart = λ k h ne. ground (arith, v.apart k, v.apart j, v.inside);
      ordered =
          λ c h k ne pe. ground (arith, time-placed s i (s.p j), v.ordered c, v.bridged j, least c);
      bridged = λ c h k pe q. ground (arith, time-placed s i (s.p j), v.ordered c);
    }

    pub Above-down : Above (placed s i (s.p j)) j e
    Above-down q = ground (arith, time-placed s i (s.p j))
