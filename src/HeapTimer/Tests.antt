-- ===== src/HeapTimer/Tests.antt =====
-- Concrete heaps, runs, and the theorems at inputs that meet their hypotheses.
use c_c_linux_learning_code.Common.{
  ℕ, ◌+◌, ◌-◌, ◌≤◌, ◌<◌, ◌≡◌, refl, none, some, [], ◌∷◌, arith, length, Returns, true, ◌⊎◌, ◌>>=◌,
  Bool,
}
use c_c_linux_learning_code.MinHeap.{
  MinHeap, done, push, pop, erase, adjust, reserve, top, shift_down, load, place, set_index,
  elem_greater,
}
use c_c_linux_learning_code.MinHeap.Order.{time, IsValid, Holds}
use c_c_linux_learning_code.MinHeap.Holding.{Holding}
use c_c_linux_learning_code.MinHeap.Insert.{push-Holding}
use c_c_linux_learning_code.MinHeap.Remove.{top-least, Removed, pop-Removed, erase-Removed}
use c_c_linux_learning_code.MinHeap.Reorder.{retimed, adjust-Holding}
use c_c_linux_learning_code.HeapTimer.{Callback, expire_timer, del_timer}
use c_c_linux_learning_code.HeapTimer.Expire.{Fired, expire_timer-Fired}
use c_c_linux_learning_code.HeapTimer.Add.{del_timer-Removed}
use c_c_linux_learning_code.HeapTimer.SelfDelete.{self_deleting, expire_timer_lost}

-- Three entries, at the addresses 1 to 3, that expire at 11, 12 and 13.
abbrev sample : MinHeap
sample = record {
  p = λ j. j + 1;
  n = 3;
  a = 8;
  entry = λ x. record { time = 10 + x; min_heap_idx = x - 1; handler = 0; privdata = 0 };
}

sample-IsValid : IsValid sample
sample-IsValid = record {
  room = omega arith;
  small = omega arith;
  indexed = λ j h. omega arith;
  ordered = λ c p h. omega arith;
}

times_bounded : (x : ℕ) → Holds sample x → time sample x < 2147483648
times_bounded x h = omega (arith, h.0)

abbrev always : ℕ → Bool
always _ = true

abbrev quiet : Callback
quiet h te s = some s

push-Holding_example :
    Returns
      (λ (status, r).
        (status ≡ done) × (r.n ≡ 4) × Holding sample r (λ x. (x ≡ 9) ⊎ Holds sample x))
      (push always sample 9)
unfolding reserve
push-Holding_example =
    push-Holding always sample 9 sample-IsValid (omega arith) (λ h. omega (arith, h.0)) refl

top-least_example :
    ((sample.n ≡ 0) × (top sample ≡ some none))
    ⊎ ((0 < sample.n)
        × (top sample ≡ some (some 1))
        × Holds sample 1
        × ((x : ℕ) → Holds sample x → 11 ≤ time sample x))
top-least_example = top-least sample sample-IsValid

pop-Removed_example :
    Returns
      (λ (e, r).
        (e ≡ some 1) × ((x : ℕ) → Holds sample x → 11 ≤ time sample x) × Removed sample 1 r)
      (pop sample)
pop-Removed_example = pop-Removed sample sample-IsValid (omega arith)

erase-Removed_example :
    Returns (λ (status, r). (status ≡ done) × Removed sample 2 r) (erase sample 2)
erase-Removed_example = erase-Removed sample 2 sample-IsValid (omega arith, refl)

adjust-Holding_example :
    Returns
      (λ (status, r). (status ≡ done) × (r.n ≡ 3) × Holding (retimed sample 3 5) r (Holds sample))
      (adjust always (retimed sample 3 5) 3)
adjust-Holding_example = adjust-Holding sample 3 5 sample-IsValid (omega arith, refl) always

expire_timer-Fired_example :
    Returns (λ (fired, r). Fired sample 12 fired r) (expire_timer quiet sample 12)
expire_timer-Fired_example = expire_timer-Fired quiet sample 12 (λ h te s. refl) sample-IsValid

del_timer-Removed_example :
    Returns (λ (result, r). (result ≡ true) × Removed sample 2 r) (del_timer sample 2)
del_timer-Removed_example = del_timer-Removed sample 2 sample-IsValid (omega arith, refl)

expire_timer_lost_example :
    Returns (λ (fired, r). length fired + r.n < 3) (expire_timer self_deleting sample 12)
expire_timer_lost_example = expire_timer_lost sample 12 sample-IsValid (omega arith) (omega arith)

-- The timers are fired in order, and the third is left.
expire_timer_runs : (do (fired, r) ← expire_timer quiet sample 12; some fired) ≡ some (1 ∷ 2 ∷ [])
unfolding expire_timer top pop shift_down place load set_index elem_greater
expire_timer_runs = refl
