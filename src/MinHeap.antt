-- ===== src/MinHeap.antt =====
-- 3.2.3定时器红黑树最小堆跳表时间轮/minheap.h and minheap.c: the binary min-heap of timers.
-- A pointer to a `timer_entry_t` is its address, a number; `entry` is the memory behind the
-- pointers and `p` the array of slots, of which the first `a` are allocated. An access beyond them
-- is a fault. `uint32_t` arithmetic wraps. `realloc` is a parameter: whether a block of so many
-- bytes is given; it keeps the contents.
pub mod Order
pub mod Hole
pub mod Up
pub mod Down
pub mod Holding
pub mod Insert
pub mod Remove
pub mod Reorder
use c_c_linux_learning_code.Common.{
  ℕ, zero, suc, ◌+◌, ◌-◌, ◌*◌, ◌/◌, ◌%◌, Bool, true, false, Option, none, some, ltb, leb, ◌==◌,
  if◌then◌else◌, not, update, ◌>>=◌,
}

-- `handler` names the callback.
pub record TimerEntry : Type 0 where
  pub time : ℕ
  pub min_heap_idx : ℕ
  pub handler : ℕ
  pub privdata : ℕ

pub record MinHeap : Type 0 where
  pub p : ℕ → ℕ
  pub n : ℕ
  pub a : ℕ
  pub entry : ℕ → TimerEntry

-- (uint32_t) -1
abbrev pub not_in_heap : ℕ
not_in_heap = 4294967295

-- What a function returns: 0 or -1.
pub data Status : Type 0 where
  done failed : Status

unfoldable pub elem_greater : MinHeap → ℕ → ℕ → Bool
elem_greater s x y = ltb (s.entry y).time (s.entry x).time

-- `e->min_heap_idx = i`
unfoldable pub set_index : MinHeap → ℕ → ℕ → MinHeap
set_index s e i = record s { entry = update s.entry e (record (s.entry e) { min_heap_idx = i }) }

-- `s->p[i]`
unfoldable pub load : MinHeap → ℕ → Option ℕ
load s i = if ltb i s.a then some (s.p i) else none

-- `(s->p[i] = e)->min_heap_idx = i`
unfoldable pub place : MinHeap → ℕ → ℕ → Option MinHeap
unfolding set_index
place s i e = if ltb i s.a then some (set_index (record s { p = update s.p i e }) e i) else none

unfoldable pub ctor : MinHeap → MinHeap
ctor s = record s { p = λ _. 0; n = 0; a = 0 }

pub elem_init : MinHeap → ℕ → MinHeap
unfolding set_index
elem_init s e = set_index s e not_in_heap

pub empty : MinHeap → Bool
empty s = 0 == s.n

pub size : MinHeap → ℕ
size s = s.n

-- `none` inside is NULL.
unfoldable pub top : MinHeap → Option (Option ℕ)
unfolding load
top s = if s.n == 0 then some none else (do e ← load s 0; some (some e))

pub elt_is_top : MinHeap → ℕ → Bool
elt_is_top s e = (s.entry e).min_heap_idx == 0

-- `(i - 1) / 2` on `unsigned`
abbrev pub parent : ℕ → ℕ
parent i = (i + 4294967295) % 4294967296 / 2

shift_up_loop : ℕ → MinHeap → ℕ → ℕ → Option MinHeap
shift_up_loop zero s hole_index e = none
shift_up_loop (suc f) s hole_index e =
    let settle = place s hole_index e in
    let rise : Option MinHeap = do
      x ← load s (parent hole_index)
      s' ← place s hole_index x
      shift_up_loop f s' (parent hole_index) e
    in let step : Option MinHeap = do
      x ← load s (parent hole_index)
      if elem_greater s x e then rise else settle
      in if ltb 0 hole_index then step else settle

unfoldable pub shift_up : MinHeap → ℕ → ℕ → Option MinHeap
unfolding shift_up_loop
shift_up s hole_index e = shift_up_loop (hole_index + 1) s hole_index e

-- The body of the `do` loop runs before its test; the rest is the loop of `shift_up`.
unfoldable pub shift_up_unconditional : MinHeap → ℕ → ℕ → Option MinHeap
unfolding shift_up_loop
shift_up_unconditional s hole_index e = do
  x ← load s (parent hole_index)
  s' ← place s hole_index x
  shift_up_loop (parent hole_index + 1) s' (parent hole_index) e

-- `min_child == s->n || greater(p[min_child], p[min_child - 1])`
left_is_less : MinHeap → ℕ → Option Bool
left_is_less s min_child = if min_child == s.n then some true else do
  x ← load s min_child
  y ← load s ((min_child + 4294967295) % 4294967296)
  some (elem_greater s x y)

shift_down_loop : ℕ → MinHeap → ℕ → ℕ → Option MinHeap
shift_down_loop zero s hole_index e = none
shift_down_loop (suc f) s hole_index e =
    let settle = place s hole_index e in
    let right = 2 * (hole_index + 1) % 4294967296 in
    let sink : Option MinHeap = do
      less ← left_is_less s right
      let min_child = if less then (right + 4294967295) % 4294967296 else right
      x ← load s min_child
      let move : Option MinHeap = do s' ← place s hole_index x; shift_down_loop f s' min_child e
      if not (elem_greater s e x) then settle else move
    in if leb right s.n then sink else settle

unfoldable pub shift_down : MinHeap → ℕ → ℕ → Option MinHeap
unfolding shift_down_loop left_is_less
shift_down s hole_index e = shift_down_loop (s.n + 1) s hole_index e

-- A pointer has 8 bytes.
unfoldable pub reserve : (ℕ → Bool) → MinHeap → ℕ → Status × MinHeap
reserve realloc s n =
    let doubled = if s.a == 0 then 8 else s.a * 2 % 4294967296 in
    let a = if ltb doubled n then n else doubled in
    if ltb s.a n
    then if realloc (a * 8) then (done, record s { a = a }) else (failed, s)
    else (done, s)

push_reserved : Status × MinHeap → ℕ → Option (Status × MinHeap)
push_reserved (failed, s) e = some (failed, s)
push_reserved (done, s) e = do
  r ← shift_up (record s { n = (s.n + 1) % 4294967296 }) s.n e
  some (done, r)

unfoldable pub push : (ℕ → Bool) → MinHeap → ℕ → Option (Status × MinHeap)
unfolding push_reserved
push realloc s e = push_reserved (reserve realloc s ((s.n + 1) % 4294967296)) e

unfoldable pub pop : MinHeap → Option (Option ℕ × MinHeap)
pop s = if s.n == 0 then some (none, s) else do
  e ← load s 0
  let s' = record s { n = s.n - 1 }
  last ← load s' s'.n
  r ← shift_down s' 0 last
  some (some e, set_index r e not_in_heap)

-- Whether the entry `x` that is put at the index `i` is less than its parent.
pub above_is_greater : MinHeap → ℕ → ℕ → Option Bool
above_is_greater s i x =
    if ltb 0 i then (do y ← load s (parent i); some (elem_greater s y x)) else some false

unfoldable pub resift : MinHeap → ℕ → ℕ → Option MinHeap
unfolding above_is_greater
resift s i x = do
  up ← above_is_greater s i x
  if up then shift_up_unconditional s i x else shift_down s i x

unfoldable pub erase : MinHeap → ℕ → Option (Status × MinHeap)
erase s e =
    let i = (s.entry e).min_heap_idx in
    let s' = record s { n = (s.n + 4294967295) % 4294967296 } in
    if not (not_in_heap == i)
    then (do last ← load s' s'.n; r ← resift s' i last; some (done, set_index r e not_in_heap))
    else some (failed, s)

unfoldable pub adjust : (ℕ → Bool) → MinHeap → ℕ → Option (Status × MinHeap)
adjust realloc s e =
    let i = (s.entry e).min_heap_idx in
    if not_in_heap == i then push realloc s e else (do r ← resift s i e; some (done, r))
