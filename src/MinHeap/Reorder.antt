-- ===== src/MinHeap/Reorder.antt =====
-- min_heap_adjust_.
use c_c_linux_learning_code.Common.{
  ℕ, ◌-◌, ◌/◌, ◌≡◌, inl, inr, refl, arith, ◌==◌, false, Bool, Returns, returns, Returns-bind,
  update,
}
use c_c_linux_learning_code.MinHeap.{MinHeap, done, adjust, push, not_in_heap}
use c_c_linux_learning_code.MinHeap.Order.{index, IsValid, Holds}
use c_c_linux_learning_code.MinHeap.Hole.{Hole, Sifted, HoldsAround}
use c_c_linux_learning_code.MinHeap.Holding.{Holding, resift-Sifted}

-- The heap when the owner of `e` has written a new time into it: `e->time = t`.
abbrev pub retimed : MinHeap → ℕ → ℕ → MinHeap
retimed s e t = record s { entry = update s.entry e (record (s.entry e) { time = t }) }

module _ (s : MinHeap) (e t : ℕ) (v : IsValid s) (h : Holds s e) where
  retimed-Hole : Hole (retimed s e t) (index s e) e
  retimed-Hole = record {
    inside = h.0;
    room = v.room;
    small = v.small;
    indexed = λ j k ne. ground (arith, v.indexed j);
    apart = λ j k ne same. ground (arith, v.indexed j);
    ordered = λ c p k ne pe. ground (arith, v.ordered c, v.indexed c, v.indexed ((c - 1) / 2));
    bridged = λ c p k pe q.
        ground
          (arith, v.ordered c, v.ordered (index s e), v.indexed c, v.indexed ((index s e - 1) / 2));
  }

  retimed-Holding :
      {r : MinHeap} → Sifted (retimed s e t) (index s e) e r → Holding (retimed s e t) r (Holds s)
  retimed-Holding {r} q = record {
    valid = q.valid;
    times = q.times;
    kept = λ x k. q.kept x (around x k);
    only = λ x k. back x (q.only x k);
  }
    where
      around : (x : ℕ) → Holds s x → HoldsAround (retimed s e t) (index s e) e x
      around x k = ground arith

      back : (x : ℕ) → HoldsAround (retimed s e t) (index s e) e x → Holds s x
      back x (inl k) = rw k h
      back x (inr k) = ground arith

  -- After the time of an entry of a valid heap was overwritten with any value, min_heap_adjust_
  -- returns 0 without a fault and leaves a valid heap of the same entries, ordered by the new
  -- times.
  pub adjust-Holding :
      (realloc : ℕ → Bool)
      → Returns
          (λ (status, r). (status ≡ done) × (r.n ≡ s.n) × Holding (retimed s e t) r (Holds s))
          (adjust realloc (retimed s e t) e)
  unfolding adjust
  adjust-Holding realloc =
      let marked : (not_in_heap == index (retimed s e t) e) ≡ false = ground (arith, v.small) in
      let same : index (retimed s e t) e ≡ index s e = ground arith in
      rw (marked, same)
        (Returns-bind (resift-Sifted (retimed s e t) (index s e) e retimed-Hole)
          λ r q. returns (refl, q.same_n, retimed-Holding q))

-- On an entry that is marked as out of the heap, min_heap_adjust_ is min_heap_push_.
pub adjust-unset :
    (realloc : ℕ → Bool) (s : MinHeap) (e : ℕ)
    → index s e ≡ not_in_heap
    → adjust realloc s e ≡ push realloc s e
unfolding adjust
adjust-unset realloc s e h = rw (h, adjust)
