-- ===== src/HeapTimer.antt =====
-- 3.2.3定时器红黑树最小堆跳表时间轮/mh-timer.h: the timers over the min-heap. The static `min_heap`
-- is the state; the clock, malloc and realloc are arguments, and so is what a callback does when
-- it is called with an entry. printf has no effect on the state. That an entry is freed is not
-- recorded: its address is not used again.
pub mod Expire
pub mod Add
pub mod SelfDelete
pub mod Tests
use c_c_linux_learning_code.Common.{
  ℕ, zero, suc, ◌+◌, ◌-◌, ◌*◌, ◌/◌, ◌%◌, Bool, true, false, Option, none, some, List, [], ◌∷◌, ltb,
  leb, ◌==◌, if◌then◌else◌, update, ◌>>=◌,
}
use c_c_linux_learning_code.MinHeap.{
  MinHeap, TimerEntry, Status, done, failed, ctor, top, push, pop, erase,
}

-- `struct timespec` of the monotonic clock.
pub current_time : ℕ → ℕ → ℕ
current_time tv_sec tv_nsec =
    (tv_sec % 4294967296 * 1000 % 4294967296 + tv_nsec / 1000000) % 4294967296

pub init_timer : MinHeap → MinHeap
init_timer s = ctor s

pub add_result : ℕ → Option (Status × MinHeap) → Option (Option ℕ × MinHeap)
add_result te none = none
add_result te (some (failed, s)) = some (none, s)
add_result te (some (done, s)) = some (some te, s)

-- The entry that add_timer fills in at the address `te`.
pub new_entry : MinHeap → ℕ → ℕ → ℕ → ℕ → MinHeap
new_entry s te now msec callback = record s {
  entry = update s.entry te (record {
    time = (now + msec) % 4294967296;
    min_heap_idx = 0;
    handler = callback;
    privdata = 0;
  });
}

-- `malloc` is the address that malloc gives, if any; NULL is `none`.
pub add_timer : Option ℕ → (ℕ → Bool) → MinHeap → ℕ → ℕ → ℕ → Option (Option ℕ × MinHeap)
unfolding add_result new_entry
add_timer none realloc s now msec callback = some (none, s)
add_timer (some te) realloc s now msec callback =
    add_result te (push realloc (new_entry s te now msec callback) te)

pub del_result : Status × MinHeap → Bool × MinHeap
del_result (done, s) = (true, s)
del_result (failed, s) = (false, s)

pub del_timer : MinHeap → ℕ → Option (Bool × MinHeap)
unfolding del_result
del_timer s e = do r ← erase s e; some (del_result r)

-- (int) x, with 2 ^ 31 added.
abbrev pub biased : ℕ → ℕ
biased x = (x + 2147483648) % 4294967296

-- The return value of find_nearest_expire_timer: -1, or a number of milliseconds.
pub data Wait : Type 0 where
  forever : Wait
  millis : ℕ → Wait

-- `(int) t - (int) now`, cut off at 0. A difference out of the range of `int` is undefined.
pub difference : ℕ → ℕ → Option ℕ
difference t now =
    if ltb (biased now) (biased t)
    then if ltb (biased t - biased now) 2147483648 then some (biased t - biased now) else none
    else if leb (biased now - biased t) 2147483648
    then some 0
    else none

pub find_nearest_expire_timer : MinHeap → ℕ → Option Wait
unfolding difference
find_nearest_expire_timer s now = do
  t ← top s
  elim t [
    | none ↦ some forever
    | some te ↦ (do d ← difference (s.entry te).time now; some (millis d))
  ]

-- What a callback does with the state when it is called: `callback handler te s`.
abbrev pub Callback : Type 0
Callback = ℕ → ℕ → MinHeap → Option MinHeap

-- The entries whose handlers ran, in order, and the state at the end.
pub expire_loop : Callback → ℕ → ℕ → MinHeap → Option (List ℕ × MinHeap)
expire_loop callback zero cur s = none
expire_loop callback (suc f) cur s = do
  t ← top s
  elim t [
    | none ↦ some ([], s)
    | some te ↦
        let fire : Option (List ℕ × MinHeap) = do
          s1 ← callback (s.entry te).handler te s
          (x, s2) ← pop s1
          (fired, r) ← expire_loop callback f cur s2
          some (te ∷ fired, r)
        in if ltb cur (s.entry te).time then some ([], s) else fire
  ]

-- Each round without new timers takes one entry out, so that n + 1 rounds are enough.
unfoldable pub expire_timer : Callback → MinHeap → ℕ → Option (List ℕ × MinHeap)
unfolding expire_loop
expire_timer callback s cur = expire_loop callback (s.n + 1) cur s
