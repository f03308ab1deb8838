-- ===== src/TimeWheel/Slots.antt =====
-- The slots of the wheel, the slot that add_node chooses, and when timer_shift empties a slot.
use c_c_linux_learning_code.Common.{
  ℕ, zero, suc, ◌+◌, ◌-◌, ◌*◌, ◌/◌, ◌%◌, ◌<◌, ◌≡◌, ◌≢◌, ◌⊎◌, inl, inr, refl, Bool-cases, Option,
  none, some, List, arith, ltb, ◌==◌, if◌then◌else◌, not,
}
use c_c_linux_learning_code.TimeWheel.{Timer}

pub data Slot : Type 0 where
  near_at : ℕ → Slot
  level_at : ℕ → ℕ → Slot

abbrev pub content : Timer → Slot → List ℕ
content T (near_at i) = T.near i
content T (level_at k j) = T.t k j

abbrev pub expire : Timer → ℕ → ℕ
expire T a = (T.node a).expire

-- The ticks from the time `c` to the time `e`, on 32 bits.
abbrev pub ticks_to : ℕ → ℕ → ℕ
ticks_to c e = (e + 4294967296 - c) % 4294967296

-- The slot into which add_node puts a node that expires at `e`, when the time is `c`.
unfoldable pub slot_for : ℕ → ℕ → Slot
slot_for c e =
    if ltb (ticks_to c e) 256
    then near_at (e % 256)
    else if ltb (ticks_to c e) 16384
    then level_at 0 (e / 256 % 64)
    else if ltb (ticks_to c e) 1048576
    then level_at 1 (e / 16384 % 64)
    else if ltb (ticks_to c e) 67108864
    then level_at 2 (e / 1048576 % 64)
    else level_at 3 (e / 67108864 % 64)

-- The ticks that a slot of the level stands for.
abbrev pub unit : ℕ → ℕ
unit zero = 256
unit (suc zero) = 16384
unit (suc (suc zero)) = 1048576
unit (suc (suc (suc k))) = 67108864

-- The slots that the wheel visits: all but the first of each of the three lower levels.
abbrev pub IsLive : Slot → Type 0
IsLive (near_at i) = Unit
IsLive (level_at k j) = (j ≢ 0) ⊎ (k ≡ 3)

-- A node that expires at `e` is in the right slot at the time `c`: it is visited before `e`.
abbrev pub Fits : ℕ → ℕ → Slot → Type 0
Fits c e (near_at i) = (i ≡ e % 256) × (ticks_to c e < 256)
Fits c e (level_at k j) =
    (k < 4) × (j ≡ e / unit k % 64) × (e % unit k < ticks_to c e) × (ticks_to c e < 64 * unit k)

pub slot_for-Fits : (c e : ℕ) → c < 4294967296 → e < 4294967296 → Fits c e (slot_for c e)
unfolding slot_for
slot_for-Fits c e h k = ground arith

-- The list that timer_shift moves when the time becomes `c`.
unfoldable pub shift_target : ℕ → Option (ℕ × ℕ)
shift_target c =
    if c == 0
    then some (3, 0)
    else if not (c % 256 == 0)
    then none
    else if not (c / 256 % 64 == 0)
    then some (0, c / 256 % 64)
    else if not (c / 16384 % 64 == 0)
    then some (1, c / 16384 % 64)
    else if not (c / 1048576 % 64 == 0)
    then some (2, c / 1048576 % 64)
    else some (3, c / 67108864 % 64)

pub shift_target-IsLive :
    (c k j : ℕ) → shift_target c ≡ some (k, j) → (k < 4) × IsLive (level_at k j)
unfolding shift_target
shift_target-IsLive c k j h = ground arith

abbrev pub next : ℕ → ℕ
next c = (c + 1) % 4294967296

-- A tick brings every time one closer.
pub ticks_to-next :
    (c e : ℕ)
    → c < 4294967296
    → e < 4294967296
    → 0 < ticks_to c e
    → ticks_to (next c) e + 1 ≡ ticks_to c e
ticks_to-next c e h k pos = omega arith

-- At the begin of its block, a time is as far away as it stands inside of the block.
block_start_zero :
    (c e : ℕ)
    → c < 4294967296
    → e < 4294967296
    → ticks_to c e ≡ e % 256
    → (c % 256 ≡ 0) × (c / 256 ≡ e / 256)
block_start_zero c e hc he d = omega arith

block_start_one :
    (c e : ℕ)
    → c < 4294967296
    → e < 4294967296
    → ticks_to c e ≡ e % 16384
    → (c % 16384 ≡ 0) × (c / 16384 ≡ e / 16384)
block_start_one c e hc he d = omega arith

block_start_two :
    (c e : ℕ)
    → c < 4294967296
    → e < 4294967296
    → ticks_to c e ≡ e % 1048576
    → (c % 1048576 ≡ 0) × (c / 1048576 ≡ e / 1048576)
block_start_two c e hc he d = omega arith

block_start_three :
    (c e : ℕ)
    → c < 4294967296
    → e < 4294967296
    → ticks_to c e ≡ e % 67108864
    → (c % 67108864 ≡ 0) × (c / 67108864 ≡ e / 67108864)
block_start_three c e hc he d = omega arith

-- After a tick a node that is not yet due still fits, or its slot is the one to be moved.
pub Fits-next :
    (c e : ℕ) (s : Slot)
    → c < 4294967296
    → e < 4294967296
    → IsLive s
    → Fits c e s
    → 0 < ticks_to c e
    → Fits (next c) e s
      ⊎ ((k : ℕ) × (j : ℕ) × (s ≡ level_at k j) × (shift_target (next c) ≡ some (k, j)))
unfolding shift_target
Fits-next c e (near_at i) hc he live fits pos = inl (ground (arith, ticks_to-next c e))
Fits-next c e (level_at zero j) hc he live fits pos =
    elim (Bool-cases (ltb (e % 256) (ticks_to (next c) e))) [
      | inl later ↦
          inl (omega arith, fits.1, ground arith, omega (arith, ticks_to-next c e, fits.3))
      | inr now ↦
          let d : ticks_to (next c) e ≡ e % 256 = ground (arith, ticks_to-next c e, fits.2) in
          let start = block_start_zero (next c) e (omega arith) he d in
          inr (0, j, refl, ground (arith, start, fits.1))
    ]
Fits-next c e (level_at (suc zero) j) hc he live fits pos =
    elim (Bool-cases (ltb (e % 16384) (ticks_to (next c) e))) [
      | inl later ↦
          inl (omega arith, fits.1, ground arith, omega (arith, ticks_to-next c e, fits.3))
      | inr now ↦
          let d : ticks_to (next c) e ≡ e % 16384 = ground (arith, ticks_to-next c e, fits.2) in
          let start = block_start_one (next c) e (omega arith) he d in
          inr (1, j, refl, ground (arith, start, fits.1))
    ]
Fits-next c e (level_at (suc (suc zero)) j) hc he live fits pos =
    elim (Bool-cases (ltb (e % 1048576) (ticks_to (next c) e))) [
      | inl later ↦
          inl (omega arith, fits.1, ground arith, omega (arith, ticks_to-next c e, fits.3))
      | inr now ↦
          let d : ticks_to (next c) e ≡ e % 1048576 = ground (arith, ticks_to-next c e, fits.2) in
          let start = block_start_two (next c) e (omega arith) he d in
          inr (2, j, refl, ground (arith, start, fits.1))
    ]
Fits-next c e (level_at (suc (suc (suc zero))) j) hc he live fits pos =
    elim (Bool-cases (ltb (e % 67108864) (ticks_to (next c) e))) [
      | inl later ↦
          inl (omega arith, fits.1, ground arith, omega (arith, ticks_to-next c e, fits.3))
      | inr now ↦
          let d : ticks_to (next c) e ≡ e % 67108864 = ground (arith, ticks_to-next c e, fits.2) in
          let start = block_start_three (next c) e (omega arith) he d in
          inr (3, j, refl, ground (arith, start, fits.1))
    ]
Fits-next c e (level_at (suc (suc (suc (suc k)))) j) hc he live fits pos =
    absurd (omega (arith, fits.0))

-- What timer_shift takes out of a slot is due within the block that begins now, so that add_node
-- puts it into a slot that will be visited.
pub slot_for-IsLive :
    (c e k j : ℕ)
    → c < 4294967296
    → e < 4294967296
    → Fits c e (level_at k j)
    → shift_target (next c) ≡ some (k, j)
    → IsLive (slot_for (next c) e)
unfolding slot_for shift_target
slot_for-IsLive c e zero j hc he fits h =
    let d : ticks_to (next c) e < 256 = ground arith in ground arith
slot_for-IsLive c e (suc zero) j hc he fits h =
    let d : ticks_to (next c) e ≡ e % 16384 = ground arith in ground arith
slot_for-IsLive c e (suc (suc zero)) j hc he fits h =
    let d : ticks_to (next c) e ≡ e % 1048576 = ground arith in ground arith
slot_for-IsLive c e (suc (suc (suc zero))) j hc he fits h =
    let d : ticks_to (next c) e ≡ e % 67108864 = ground arith in ground arith
slot_for-IsLive c e (suc (suc (suc (suc k)))) j hc he fits h = absurd (omega (arith, fits.0))

pub Slot-cases : (s : Slot) (k j : ℕ) → (s ≡ level_at k j) ⊎ (s ≢ level_at k j)
Slot-cases (near_at i) k j = inr (λ e. cc)
Slot-cases (level_at k' j') k j = elim (Bool-cases (k' == k)) [
  | inr ne ↦ inr (λ e. absurd (ground arith))
  | inl e ↦ elim (Bool-cases (j' == j)) [
    | inr ne ↦ inr (λ e. absurd (ground arith))
    | inl e' ↦ inl (ground arith)
  ]
]
