-- ===== src/TimeWheel/Schedule.antt =====
-- init_timer and add_timer: which timers will fire at their time, and which never fire.
use c_c_linux_learning_code.Common.{
  List, ℕ, ◌+◌, ◌/◌, ◌%◌, ◌≤◌, ◌<◌, ◌≡◌, ◌⊎◌, inl, inr, refl, subst, ◌∙◌, arith, [], some, Among,
  Returns, false,
}
use c_c_linux_learning_code.TimeWheel.{
  Timer, TimerNode, init_timer, update_loop, add_timer, not_positive,
}
use c_c_linux_learning_code.TimeWheel.Slots.{
  Slot, near_at, level_at, content, expire, slot_for, ticks_to, IsLive,
}
use c_c_linux_learning_code.TimeWheel.Placed.{IsRested, Pending}
use c_c_linux_learning_code.TimeWheel.Clients.{
  Unused, Calls, add_timer-only, add_timer-new, add_timer-time, expire-added,
}
use c_c_linux_learning_code.TimeWheel.Between.{add_timer-IsRested}
use c_c_linux_learning_code.TimeWheel.Stuck.{Stuck, update_loop-Stuck}

init-empty :
    (node : ℕ → TimerNode) (cp x : ℕ) (s : Slot) → ¬ Among x (content (init_timer node cp) s)
unfolding init_timer
init-empty node cp x (near_at i) m = m
init-empty node cp x (level_at k j) m = m

-- init_timer leaves a rested wheel in which every node is unused.
pub init_timer-IsRested :
    (node : ℕ → TimerNode) (cp : ℕ)
    → IsRested (init_timer node cp) × ((x : ℕ) → Unused (init_timer node cp) x)
unfolding init_timer
init_timer-IsRested node cp = (
  record {
    placed = record {
      bounded = omega arith;
      expires = λ x s m. absurd (init-empty node cp x s m);
      fits = λ x s m live. absurd (init-empty node cp x s m);
    };
    served = refl;
  },
  init-empty node cp,
)

-- The expiry of a timer of `time` ticks that is set at the time `c`.
abbrev pub expiry : ℕ → ℕ → ℕ
expiry c time = (time + c) % 4294967296

-- By its distance the timer belongs to a lower level, and by its expiry to the first slot there.
abbrev pub InFirstSlot : ℕ → ℕ → Type 0
InFirstSlot c time =
    ((256 ≤ time) × (time < 16384) × (expiry c time / 256 % 64 ≡ 0))
    ⊎ (((16384 ≤ time) × (time < 1048576) × (expiry c time / 16384 % 64 ≡ 0))
        ⊎ ((1048576 ≤ time) × (time < 67108864) × (expiry c time / 1048576 % 64 ≡ 0)))

slot_for-IsLive :
    (c time : ℕ)
    → c < 4294967296
    → time < 2147483648
    → ¬ InFirstSlot c time
    → IsLive (slot_for c (expiry c time))
unfolding slot_for
slot_for-IsLive c time h k out = ground arith

slot_for_first :
    (c time : ℕ)
    → c < 4294967296
    → time < 2147483648
    → InFirstSlot c time
    → (k : ℕ) × (k < 3) × (slot_for c (expiry c time) ≡ level_at k 0)
unfolding slot_for
slot_for_first c time h k (inl f) = (0, omega arith, ground arith)
slot_for_first c time h k (inr (inl f)) = (1, omega arith, ground arith)
slot_for_first c time h k (inr (inr f)) = (2, omega arith, ground arith)

module _ (T : Timer) (a time func id : ℕ) (r : IsRested T) (unused : Unused T a) (pos : 0 < time)
    (small : time < 2147483648) where
  abbrev U : Timer
  U = (add_timer T a time func id).state

  positive : not_positive time ≡ false
  positive = ground arith

  -- In a rested wheel, a timer of a positive time that does not belong into the first slot of a
  -- lower level is set: add_timer returns the node and calls nothing, the wheel stays rested, and
  -- the node is pending with its expiry `time` ticks ahead.
  pub add_timer-Pending :
      ¬ InFirstSlot T.time time
      → ((add_timer T a time func id).result ≡ some a)
        × ((add_timer T a time func id).called ≡ [])
        × IsRested U
        × Pending U a
        × (ticks_to U.time (expire U a) ≡ time)
  unfolding add_timer
  add_timer-Pending out = (
    rw positive,
    rw positive,
    add_timer-IsRested T a time func id unused (omega arith) r,
    record {
      at = slot_for T.time (expiry T.time time);
      live = slot_for-IsLive T.time time r.placed.bounded small out;
      among = add_timer-new T a time func id positive;
    },
    rw (add_timer-time T a time func id, expire-added T a time func id)
        (omega (arith, r.placed.bounded)),
  )

  first-Stuck : InFirstSlot T.time time → Stuck U a
  first-Stuck f =
      let (k, lower, e) = slot_for_first T.time time r.placed.bounded small f in
      record {
        level = k;
        lower = lower;
        among = subst (λ s. Among a (content U s)) e (add_timer-new T a time func id positive);
        only = λ s m. elim (add_timer-only T a time func id a s m) [
          | inl old ↦ absurd (unused s old)
          | inr (_, at, _) ↦ at ∙ e
        ];
      }

  -- In a rested wheel, a timer of a positive time whose distance belongs to one of the three lower
  -- levels and whose expiry belongs to the first slot there is lost: no number of ticks calls its
  -- callback, whatever timers are set or deleted before each tick and while nodes are taken out,
  -- and it stays in its list.
  pub add_timer-lost :
      InFirstSlot T.time time
      → (D : ℕ → Type 0) (others : List ℕ → Timer → Timer)
      → ((busy : List ℕ) (V : Timer) → Calls D busy V (others busy V))
      → (n : ℕ)
      → Returns (λ (called, V). Stuck V a × (¬ Among a called)) (update_loop others n U [])
  add_timer-lost f D others clients n =
      update_loop-Stuck D others clients n U [] a
        (add_timer-IsRested T a time func id unused (omega arith) r) (first-Stuck f) (λ m. m)
