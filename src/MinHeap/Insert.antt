-- ===== src/MinHeap/Insert.antt =====
-- min_heap_reserve_ and min_heap_push_.
use c_c_linux_learning_code.Common.{
  ltb-true, true, ltb, false, ℕ, ◌+◌, ◌%◌, ◌≤◌, ◌<◌, ◌≡◌, ◌⊎◌, inl, inr, refl, arith, some, Bool,
  Returns, returns, Returns-bind, if◌then◌else◌, ◌==◌, ltb, ◌*◌, false, ltb-true,
}
use c_c_linux_learning_code.MinHeap.{MinHeap, done, failed, reserve, push, shift_up}
use c_c_linux_learning_code.MinHeap.Order.{IsValid, Holds}
use c_c_linux_learning_code.MinHeap.Hole.{Hole, Sifted, HoldsAround}
use c_c_linux_learning_code.MinHeap.Up.{shift_up-Sifted}
use c_c_linux_learning_code.MinHeap.Holding.{Holding}

-- What min_heap_reserve_ does to the state: the capacity alone may change. On success it is at
-- least the number asked for and no smaller than before; on failure the heap is as it was.
pub reserve_lem :
    (realloc : ℕ → Bool) (s : MinHeap) (n : ℕ)
    → ((reserve realloc s n).1 ≡ record s { a = (reserve realloc s n).1.a })
      × ((reserve realloc s n).0 ≡ done
          → (n ≤ (reserve realloc s n).1.a) × (s.a ≤ (reserve realloc s n).1.a))
      × ((reserve realloc s n).0 ≡ failed → (reserve realloc s n).1 ≡ s)
unfolding reserve
reserve_lem realloc s n = ground arith

reserve-done :
    (realloc : ℕ → Bool) (s : MinHeap) (n : ℕ)
    → (reserve realloc s n).0 ≡ done
    → reserve realloc s n ≡ (done, record s { a = (reserve realloc s n).1.a })
unfolding reserve
reserve-done realloc s n h = ground arith

reserve-refused :
    (realloc : ℕ → Bool) (s : MinHeap) (n : ℕ)
    → s.a < n
    → ((size : ℕ) → realloc size ≡ false)
    → reserve realloc s n ≡ (failed, s)
unfolding reserve
reserve-refused realloc s n full refused =
    let test : ltb s.a n ≡ true = ltb-true full in
    let a = if s.a == 0 then 8 else s.a * 2 % 4294967296 in
    rw (test, refused ((if ltb a n then n else a) * 8)) refl

module _ (realloc : ℕ → Bool) (s : MinHeap) (e : ℕ) (v : IsValid s) where
  -- On a valid heap of less than 2^31 - 1 entries, whose capacity is less than the entries and
  -- the new one, when realloc gives nothing for any size: min_heap_push_ returns -1 and the state is as it was.
  push-failed :
      s.n + 1 < 2147483648
      → s.a < s.n + 1
      → ((size : ℕ) → realloc size ≡ false)
      → push realloc s e ≡ some (failed, s)
  unfolding push
  push-failed small full refused =
      let wrap : (s.n + 1) % 4294967296 ≡ s.n + 1 = omega arith in
      rw (push, wrap, reserve-refused realloc s (s.n + 1) full refused)

  module _ (a : ℕ) (enough : s.n + 1 ≤ a) (small : s.n + 1 < 2147483648) (new : ¬ Holds s e) where
    abbrev grown : MinHeap
    grown = record s { a = a; n = s.n + 1 }

    grown-Hole : Hole grown s.n e
    grown-Hole = record {
      inside = omega arith;
      room = enough;
      small = small;
      indexed = λ j h ne. v.indexed j (omega arith);
      apart = λ j h ne same. new (ground (arith, v.indexed j));
      ordered = λ c p h ne pe. v.ordered c p (omega arith);
      bridged = λ c p h pe q. absurd (omega arith);
    }

    grown-Holding : {r : MinHeap} → Sifted grown s.n e r → Holding s r (λ x. (x ≡ e) ⊎ Holds s x)
    grown-Holding {r} q = record {
      valid = q.valid;
      times = q.times;
      kept = λ x h. q.kept x (around x h);
      only = λ x h. back x (q.only x h);
    }
      where
        around : (x : ℕ) → (x ≡ e) ⊎ Holds s x → HoldsAround grown s.n e x
        around x (inl h) = inl h
        around x (inr h) = inr (ground arith, omega (arith, h.0), (omega (arith, h.0), h.1))

        back : (x : ℕ) → HoldsAround grown s.n e x → (x ≡ e) ⊎ Holds s x
        back x (inl h) = inl h
        back x (inr h) = inr (omega arith, h.2.1)

    grown-Sifted : Returns (Sifted grown s.n e) (shift_up grown s.n e)
    grown-Sifted = shift_up-Sifted grown s.n e grown-Hole (λ c p h pe. absurd (omega arith))

  -- On a valid heap of less than 2^31 - 1 entries that does not hold `e`, and where there is room
  -- or realloc gives it, min_heap_push_ returns 0 without an access out of bounds, and leaves a
  -- valid heap of one entry more: `e` and those of before, with all times as before.
  pub push-Holding :
      s.n + 1 < 2147483648
      → ¬ Holds s e
      → (reserve realloc s (s.n + 1)).0 ≡ done
      → Returns
          (λ (status, r).
            (status ≡ done) × (r.n ≡ s.n + 1) × Holding s r (λ x. (x ≡ e) ⊎ Holds s x))
          (push realloc s e)
  unfolding push
  push-Holding small new h =
      let wrap : (s.n + 1) % 4294967296 ≡ s.n + 1 = omega arith in
      let enough = (reserve_lem realloc s (s.n + 1)).1 in
      let a = (reserve realloc s (s.n + 1)).1.a in
      rw (push, wrap, reserve-done realloc s (s.n + 1) h, wrap)
        (Returns-bind (grown-Sifted a (enough h).0 small new)
          λ r q. returns (refl, q.same_n, grown-Holding a (enough h).0 small new q))
