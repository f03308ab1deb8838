-- ===== src/MinHeap/Holding.antt =====
-- What the operations promise: a valid heap of stated entries; and the choice between the two ways
-- to sift.
use c_c_linux_learning_code.Common.{
  ℕ, ◌-◌, ◌/◌, ◌≤◌, ◌<◌, ◌≡◌, ◌≢◌, sym, subst, arith, ltb, true, false, Returns, returns,
  Returns-if, Returns-bind,
}
use c_c_linux_learning_code.MinHeap.{MinHeap, elem_greater, above_is_greater, resift, set_index}
use c_c_linux_learning_code.MinHeap.Order.{time, IsValid, Holds}
use c_c_linux_learning_code.MinHeap.Hole.{Hole, Above, Sifted, HoldsAround, load-ok}
use c_c_linux_learning_code.MinHeap.Up.{parent-eq, shift_up_unconditional-Sifted}
use c_c_linux_learning_code.MinHeap.Down.{shift_down-Sifted}

-- `r` is a valid heap of exactly the entries that satisfy `P`, and every time is as in `s`.
pub record Holding (s r : MinHeap) (P : ℕ → Type 0) : Type 0 where
  pub valid : IsValid r
  pub times : (x : ℕ) → time r x ≡ time s x
  pub kept : (x : ℕ) → P x → Holds r x
  pub only : (x : ℕ) → Holds r x → P x

pub Holds-slot : (s : MinHeap) (j : ℕ) → IsValid s → j < s.n → Holds s (s.p j)
Holds-slot s j v h = ground (arith, v.indexed j h)

-- An entry that the heap does not hold may be marked.
pub Holding-set_index :
    (s r : MinHeap) (P : ℕ → Type 0) (e i : ℕ)
    → Holding s r P
    → ¬ P e
    → Holding s (set_index r e i) P
unfolding set_index
Holding-set_index s r P e i h out = record {
  valid = record {
    room = h.valid.room;
    small = h.valid.small;
    indexed = λ j k. ground (arith, h.valid.indexed j k, outside j k);
    ordered = λ c p k. ground (arith, h.valid.ordered c p k);
  };
  times = λ x. ground (arith, h.times x);
  kept = λ x p. ground (arith, h.kept x p, apart x p);
  only = λ x k. h.only x (ground (arith, h.only x, outside i));
}
  where
    apart : (x : ℕ) → P x → e ≢ x
    apart x p q = out (subst P (sym q) p)

    outside : (j : ℕ) → j < r.n → e ≢ r.p j
    outside j k = apart (r.p j) (h.only (r.p j) (Holds-slot r j h.valid k))

pub Sifted-Holding : {s r : MinHeap} {i e : ℕ} → Sifted s i e r → Holding s r (HoldsAround s i e)
Sifted-Holding q = record { valid = q.valid; times = q.times; kept = q.kept; only = q.only }

pub above_is_greater-ok :
    (s : MinHeap) (i x : ℕ)
    → i ≤ s.n
    → s.n ≤ s.a
    → s.n < 2147483648
    → Returns
        (λ b.
          (b ≡ true → (0 < i) × (time s x < time s (s.p ((i - 1) / 2))))
          × (b ≡ false → Above s i x))
        (above_is_greater s i x)
unfolding above_is_greater elem_greater
above_is_greater-ok s i x h room small =
    Returns-if (ltb 0 i)
      (λ pos.
        rw (parent-eq i (ground arith) (omega arith), load-ok s ((i - 1) / 2) (ground arith))
          (returns (ground arith)))
      (λ root. returns ((λ e. absurd (ground arith)), (λ e q. absurd (ground arith))))

-- Whatever the time of `e`, sifting it in one of the two directions fills the hole.
pub resift-Sifted : (s : MinHeap) (i e : ℕ) → Hole s i e → Returns (Sifted s i e) (resift s i e)
unfolding resift
resift-Sifted s i e v =
    Returns-bind (above_is_greater-ok s i e (omega (arith, v.inside)) v.room v.small)
      λ b (up, down).
        Returns-if b (λ t. shift_up_unconditional-Sifted s i e v (up t).0 (up t).1)
          (λ f. shift_down-Sifted s i e v (down f))
