-- ===== src/MinHeap/Remove.antt =====
-- min_heap_top_, min_heap_pop_ and min_heap_erase_.
use c_c_linux_learning_code.Common.{
  ℕ, ◌+◌, ◌-◌, ◌%◌, ◌≤◌, ◌<◌, ◌≡◌, ◌≢◌, ◌⊎◌, inl, inr, refl, ap, sym, ◌∙◌, arith, ◌==◌, some, none,
  false, Returns, returns, Returns-if, Returns-map, Returns-bind, Bool-cases,
}
use c_c_linux_learning_code.MinHeap.{
  MinHeap, done, failed, top, pop, erase, not_in_heap, set_index, shift_down, resift, load,
}
use c_c_linux_learning_code.MinHeap.Order.{time, index, IsValid, Holds, root_least}
use c_c_linux_learning_code.MinHeap.Hole.{
  Hole, Sifted, HoldsAround, load-ok, place-ok, placed, time-placed,
}
use c_c_linux_learning_code.MinHeap.Up.{shift_up_unconditional-Sifted}
use c_c_linux_learning_code.MinHeap.Down.{shift_down-Sifted, shift_down-leaf}
use c_c_linux_learning_code.MinHeap.Holding.{
  Holding, Holding-set_index, Holds-slot, above_is_greater-ok,
}

-- The entries that are left when `e` is taken out.
abbrev pub Without : MinHeap → ℕ → ℕ → Type 0
Without s e x = Holds s x × (x ≢ e)

-- The heap after `--s->n`.
abbrev cut : MinHeap → MinHeap
cut s = record s { n = s.n - 1 }

module _ (s : MinHeap) (v : IsValid s) (i : ℕ) (inside : i < s.n) where
  -- The entry of the last slot takes the place of that in the slot `i`.
  module _ (more : i ≢ s.n - 1) where
    cut-Hole : Hole (cut s) i (s.p (s.n - 1))
    cut-Hole = record {
      inside = omega arith;
      room = omega (arith, v.room);
      small = omega (arith, v.small);
      indexed = λ j h ne. v.indexed j (omega arith);
      apart = λ j h ne same. ground (arith, v.indexed j, v.indexed (s.n - 1));
      ordered = λ c p h ne pe. v.ordered c p (omega arith);
      bridged = λ c p h pe q. ground (arith, v.ordered c, v.ordered i);
    }

    cut-Holding :
        {r : MinHeap} → Sifted (cut s) i (s.p (s.n - 1)) r → Holding s r (Without s (s.p i))
    cut-Holding {r} q = record {
      valid = q.valid;
      times = q.times;
      kept = λ x h. q.kept x (around x h);
      only = λ x h. back x (q.only x h);
    }
      where
        around : (x : ℕ) → Without s (s.p i) x → HoldsAround (cut s) i (s.p (s.n - 1)) x
        around x h = ground arith

        back : (x : ℕ) → HoldsAround (cut s) i (s.p (s.n - 1)) x → Without s (s.p i) x
        back x (inl h) = ground (arith, v.indexed i, v.indexed (s.n - 1))
        back x (inr h) = ground (arith, v.indexed i, v.indexed (s.n - 1))

  -- The last entry is put back where it stood, past the end.
  module _ (last : i ≡ s.n - 1) where
    last-placed : shift_down (cut s) i (s.p (s.n - 1)) ≡ some (placed (cut s) i (s.p i))
    last-placed =
        ap (λ j. shift_down (cut s) i (s.p j)) (sym last)
        ∙ shift_down-leaf (cut s) i (s.p i) (omega (arith, v.small)) (omega arith)
        ∙ place-ok (cut s) i (s.p i) (omega (arith, v.room))

    last-Holding : Holding s (placed (cut s) i (s.p i)) (Without s (s.p i))
    last-Holding = record {
      valid = record {
        room = omega (arith, v.room);
        small = omega (arith, v.small);
        indexed = λ j h. ground (arith, v.indexed j, v.indexed i);
        ordered = λ c p h. ground (arith, v.ordered c);
      };
      times = λ x. time-placed (cut s) i (s.p i) x;
      kept = λ x h. ground (arith, v.indexed i);
      only = λ x h. ground (arith, v.indexed i);
    }

-- What is returned by the removal of the entry `e`: a heap of all others, with `e` marked as out.
abbrev pub Removed : MinHeap → ℕ → MinHeap → Type 0
Removed s e r = (r.n + 1 ≡ s.n) × (index r e ≡ not_in_heap) × Holding s r (Without s e)

module _ (s : MinHeap) (v : IsValid s) (i : ℕ) (inside : i < s.n) where
  Removed-mark :
      (r : MinHeap)
      → r.n + 1 ≡ s.n
      → Holding s r (Without s (s.p i))
      → Removed s (s.p i) (set_index r (s.p i) not_in_heap)
  unfolding set_index
  Removed-mark r size h = (
    size,
    ground arith,
    unfold set_index in Holding-set_index s r _ (s.p i) not_in_heap h (λ w. w.1 refl),
  )

  -- Removal by sinking the last entry from the slot `i`.
  shift_down_removes :
      (i ≢ s.n - 1
        → Returns (Sifted (cut s) i (s.p (s.n - 1))) (shift_down (cut s) i (s.p (s.n - 1))))
      → Returns
          (λ r. Removed s (s.p i) (set_index r (s.p i) not_in_heap))
          (shift_down (cut s) i (s.p (s.n - 1)))
  shift_down_removes sifts = elim (Bool-cases (i == s.n - 1)) [
    | inl last ↦
        let e : i ≡ s.n - 1 = ground arith in
        rw (last-placed s v i inside e)
          (returns (Removed-mark _ (omega arith) (last-Holding s v i inside e)))
    | inr more ↦
        let ne : i ≢ s.n - 1 = ground arith in
        Returns-map (sifts ne)
          λ r q. Removed-mark r (omega (arith, q.same_n)) (cut-Holding s v i inside ne q)
  ]

  -- Removal of the slot `i`, whichever way the last entry sifts.
  resift_removes :
      Returns
        (λ r. Removed s (s.p i) (set_index r (s.p i) not_in_heap))
        (resift (cut s) i (s.p (s.n - 1)))
  unfolding resift
  resift_removes =
      Returns-bind
        (above_is_greater-ok (cut s) i (s.p (s.n - 1)) (omega arith) (omega (arith, v.room))
          (omega (arith, v.small)))
        λ b (up, down).
          Returns-if b
            (λ t.
              let ne : i ≢ s.n - 1 = λ e. absurd (ground (arith, up t, v.ordered i)) in
              Returns-map
                (shift_up_unconditional-Sifted (cut s) i (s.p (s.n - 1)) (cut-Hole s v i inside ne)
                  (up t).0 (up t).1)
                (λ r q. Removed-mark r (omega (arith, q.same_n)) (cut-Holding s v i inside ne q)))
            (λ f.
              shift_down_removes λ ne.
                shift_down-Sifted (cut s) i (s.p (s.n - 1)) (cut-Hole s v i inside ne) (down f))

-- min_heap_top_ gives an entry of the heap that expires no later than any other, and NULL on the
-- empty heap.
pub top-least :
    (s : MinHeap)
    → IsValid s
    → ((s.n ≡ 0) × (top s ≡ some none))
      ⊎ ((0 < s.n)
          × (top s ≡ some (some (s.p 0)))
          × Holds s (s.p 0)
          × ((x : ℕ) → Holds s x → time s (s.p 0) ≤ time s x))
unfolding top load
top-least s v = elim (Bool-cases (s.n == 0)) [
  | inl e ↦ inl (ground arith, rw e)
  | inr e ↦
      let pos : 0 < s.n = ground arith in
      inr (
        pos,
        rw e (ground (arith, v.room)),
        Holds-slot s 0 v pos,
        λ x h. rw (← h.1) (root_least s (index s x) v h.0),
      )
]

-- min_heap_pop_ on a valid heap that is not empty ends without a fault, returns the root, which
-- expires no later than any entry of the heap, marks it as out of the heap, and leaves a valid heap
-- of all the others, with all times as before.
pub pop-Removed :
    (s : MinHeap)
    → IsValid s
    → 0 < s.n
    → Returns
        (λ (e, r).
          (e ≡ some (s.p 0))
          × ((x : ℕ) → Holds s x → time s (s.p 0) ≤ time s x)
          × Removed s (s.p 0) r)
        (pop s)
unfolding pop
pop-Removed s v pos =
    let some_left : (s.n == 0) ≡ false = ground arith in
    rw
      (
        some_left,
        load-ok s 0 (omega (arith, v.room)),
        load-ok (cut s) (s.n - 1) (omega (arith, v.room)),
      )
      (Returns-bind
        (shift_down_removes s v 0 pos λ ne.
          shift_down-Sifted (cut s) 0 (s.p (s.n - 1)) (cut-Hole s v 0 pos ne)
            (λ q. absurd (omega arith)))
        λ r h. returns (refl, λ x k. rw (← k.1) (root_least s (index s x) v k.0), h))

-- min_heap_erase_ of an entry of a valid heap, wherever it stands, returns 0 without a fault, marks
-- the entry as out of the heap, and leaves a valid heap of all the others, with all times as
-- before.
pub erase-Removed :
    (s : MinHeap) (e : ℕ)
    → IsValid s
    → Holds s e
    → Returns (λ (status, r). (status ≡ done) × Removed s e r) (erase s e)
unfolding erase
erase-Removed s e v h =
    let marked : (not_in_heap == index s e) ≡ false = ground (arith, v.small) in
    let wrap : (s.n + 4294967295) % 4294967296 ≡ s.n - 1 = omega (arith, h.0, v.small) in
    rw (marked, wrap, load-ok (cut s) (s.n - 1) (omega (arith, h.0, v.room)))
      (Returns-bind (resift_removes s v (index s e) h.0) λ r q. returns (refl, rw h.1 at q))

-- An entry that is marked as out of the heap is refused with -1, and nothing changes.
pub erase-unset : (s : MinHeap) (e : ℕ) → index s e ≡ not_in_heap → erase s e ≡ some (failed, s)
unfolding erase
erase-unset s e h = rw (h, erase)

pub pop-empty : (s : MinHeap) → s.n ≡ 0 → pop s ≡ some (none, s)
unfolding pop
pop-empty s h = rw (h, pop)
