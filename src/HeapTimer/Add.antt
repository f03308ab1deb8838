-- ===== src/HeapTimer/Add.antt =====
-- init_timer, add_timer, del_timer and find_nearest_expire_timer.
use c_c_linux_learning_code.Common.{
  ℕ, ◌+◌, ◌-◌, ◌/◌, ◌%◌, ◌≤◌, ◌<◌, ◌≡◌, ◌≢◌, ◌⊎◌, inl, inr, refl, Option, some, arith, Returns,
  returns, Returns-bind, Returns-map, true, Bool, Bool-cases, ◌==◌,
}
use c_c_linux_learning_code.MinHeap.{MinHeap, Status, done, failed, reserve, ctor}
use c_c_linux_learning_code.MinHeap.Order.{time, IsValid, Holds}
use c_c_linux_learning_code.MinHeap.Holding.{Holding}
use c_c_linux_learning_code.MinHeap.Insert.{push-Holding}
use c_c_linux_learning_code.MinHeap.Remove.{top-least, Removed, erase-Removed}
use c_c_linux_learning_code.HeapTimer.{
  init_timer, new_entry, add_timer, add_result, del_timer, del_result, forever, millis, difference,
  find_nearest_expire_timer,
}

add_result-Returns :
    (te : ℕ) (P : MinHeap → Type 0) {m : Option (Status × MinHeap)}
    → Returns (λ (status, r). (status ≡ done) × P r) m
    → Returns (λ (result, r). (result ≡ some te) × P r) (add_result te m)
unfolding add_result
add_result-Returns te P (returns {a = (done, r)} h) = returns (refl, h.1)
add_result-Returns te P (returns {a = (failed, r)} h) = absurd (cc)

del_result-true :
    (P : MinHeap → Type 0) (q : Status × MinHeap)
    → (q.0 ≡ done) × P q.1
    → ((del_result q).0 ≡ true) × P (del_result q).1
unfolding del_result
del_result-true P (done, r) h = (refl, h.1)
del_result-true P (failed, r) h = absurd (cc)

-- init_timer leaves a valid heap that holds nothing.
pub init_timer-IsValid :
    (s : MinHeap) → IsValid (init_timer s) × ((x : ℕ) → ¬ Holds (init_timer s) x)
unfolding init_timer ctor
init_timer-IsValid s = (
  record {
    room = omega arith;
    small = omega arith;
    indexed = λ j h. absurd (omega arith);
    ordered = λ c p h. absurd (omega arith);
  },
  λ x h. omega (arith, h.0),
)

module _ (s : MinHeap) (te now msec callback : ℕ) (v : IsValid s) (new : ¬ Holds s te) where
  abbrev filled : MinHeap
  filled = new_entry s te now msec callback

  other : (j : ℕ) → j < s.n → te ≢ s.p j
  other j h e = new (ground (arith, v.indexed j))

  filled-IsValid : IsValid filled
  unfolding new_entry
  filled-IsValid = record {
    room = v.room;
    small = v.small;
    indexed = λ j h. ground (arith, v.indexed j, other j);
    ordered = λ c p h. ground (arith, v.ordered c, other c, other ((c - 1) / 2));
  }

  -- The address may be taken for a fresh one: what it held before is overwritten, and the entry
  -- counts as outside of the heap also if its index is in range.
  filled-Holds : (x : ℕ) → x ≢ te → (Holds filled x → Holds s x) × (Holds s x → Holds filled x)
  unfolding new_entry
  filled-Holds x ne = ground arith

  filled_new : ¬ Holds filled te
  unfolding new_entry
  filled_new h = other 0 (omega (arith, h.0)) (ground arith)

  -- What add_timer leaves: a valid heap of the entry `te`, to expire at `now + msec` on 32 bits,
  -- and the entries of before, with their times.
  pub record Added (r : MinHeap) : Type 0 where
    pub valid : IsValid r
    pub expires : time r te ≡ (now + msec) % 4294967296
    pub times : (x : ℕ) → x ≢ te → time r x ≡ time s x
    pub kept : (x : ℕ) → (x ≡ te) ⊎ Holds s x → Holds r x
    pub only : (x : ℕ) → Holds r x → (x ≡ te) ⊎ Holds s x

  Added-pushed : (r : MinHeap) → Holding filled r (λ x. (x ≡ te) ⊎ Holds filled x) → Added r
  unfolding new_entry
  Added-pushed r h = record {
    valid = h.valid;
    expires = ground (arith, h.times te);
    times = λ x ne. ground (arith, h.times x);
    kept = λ x k. h.kept x (inside x k);
    only = λ x k. outside x (h.only x k);
  }
    where
      inside : (x : ℕ) → (x ≡ te) ⊎ Holds s x → (x ≡ te) ⊎ Holds filled x
      inside x (inl e) = inl e
      inside x (inr k) = elim (Bool-cases (x == te)) [
        | inl e ↦ inl (ground arith)
        | inr e ↦ inr ((filled-Holds x (ground arith)).1 k)
      ]

      outside : (x : ℕ) → (x ≡ te) ⊎ Holds filled x → (x ≡ te) ⊎ Holds s x
      outside x (inl e) = inl e
      outside x (inr k) = elim (Bool-cases (x == te)) [
        | inl e ↦ inl (ground arith)
        | inr e ↦ inr ((filled-Holds x (ground arith)).0 k)
      ]

  -- On a valid heap of less than 2^31 - 1 entries, with an address from malloc that the heap does
  -- not hold, and where the heap has room or realloc gives it, add_timer returns the new entry,
  -- which expires at `now + msec` on 32 bits, and leaves a valid heap of it and the entries of
  -- before, with their times.
  pub add_timer-Added :
      (realloc : ℕ → Bool)
      → s.n + 1 < 2147483648
      → (reserve realloc filled (s.n + 1)).0 ≡ done
      → Returns
          (λ (result, r). (result ≡ some te) × Added r)
          (add_timer (some te) realloc s now msec callback)
  unfolding add_timer
  add_timer-Added realloc small room = add_result-Returns te Added (
      Returns-map (push-Holding realloc filled te filled-IsValid small filled_new room)
        λ (status, r) (ok, _, h). (ok, Added-pushed r h))

-- del_timer of an entry of the heap returns true and takes out that entry alone.
pub del_timer-Removed :
    (s : MinHeap) (e : ℕ)
    → IsValid s
    → Holds s e
    → Returns (λ (result, r). (result ≡ true) × Removed s e r) (del_timer s e)
unfolding del_timer
del_timer-Removed s e v h =
    Returns-bind (erase-Removed s e v h) λ q k. returns (del_result-true (Removed s e) q k)

difference-small :
    (t now : ℕ) → t < 2147483648 → now < 2147483648 → difference t now ≡ some (t - now)
unfolding difference
difference-small t now h k = ground arith

-- On a valid heap of times below 2^31, and at such a time, find_nearest_expire_timer returns -1 if
-- no timer is set; otherwise the milliseconds until a timer that expires no later than any other, 0
-- if it is already due.
pub find_nearest-least :
    (s : MinHeap) (now : ℕ)
    → IsValid s
    → now < 2147483648
    → ((x : ℕ) → Holds s x → time s x < 2147483648)
    → ((s.n ≡ 0) × (find_nearest_expire_timer s now ≡ some forever))
      ⊎ ((x : ℕ) × Holds s x
          × ((y : ℕ) → Holds s y → time s x ≤ time s y)
          × (find_nearest_expire_timer s now ≡ some (millis (time s x - now))))
unfolding find_nearest_expire_timer
find_nearest-least s now v h k = elim (top-least s v) [
  | inl (none_left, e) ↦ inl (none_left, rw e)
  | inr (pos, e, held, least) ↦
      inr (s.p 0, held, least, rw (e, difference-small (time s (s.p 0)) now (k (s.p 0) held) h))
]
