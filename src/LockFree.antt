-- ===== src/LockFree.antt =====
-- 3.2.4无锁队列freequeue/ArrayLockFreeQueueImp.h: the ring whose indices producers and consumers
-- advance by compare-and-swap, here for elements that are numbers. Threads take turns in any order;
-- a turn is one access to what they share, and memory is sequentially consistent. QUEUE_INT is
-- unsigned long, of 64 bits.
pub mod Valid
pub mod Moves
pub mod Swaps
pub mod Turns
pub mod Steps
pub mod Fifo
pub mod Alone
mod Tests
use c_c_linux_learning_code.Common.{
  ℕ, zero, suc, ◌+◌, ◌-◌, ◌%◌, Bool, true, false, Option, none, some, List, [], ◌∷◌, ◌++◌, ◌==◌,
  leb, if◌then◌else◌, update, ◌>>=◌, ◌≡◌,
}

abbrev pub two64 : ℕ
two64 = 18446744073709551616

-- The sum of unsigned longs.
unfoldable pub add_int : ℕ → ℕ → ℕ
add_int a b = (a + b) % two64

-- What the threads share. `entered` and `left`, which are no part of the program, are the elements
-- whose place was reserved, and those that were dequeued, in the order of the swaps.
pub record Shared : Type 0 where
  pub the_queue : ℕ → ℕ
  pub count : ℕ
  pub write_index : ℕ
  pub read_index : ℕ
  pub maximum_read_index : ℕ
  pub entered : List ℕ
  pub left : List ℕ

-- Where a thread is, with its local variables: in no call; in enqueue at the read of the write index,
-- at the read of the read index, at the swap that reserves a place, at the store, at the swap that
-- publishes it, at the count, and with its answer; in dequeue at the read of the read index, at the
-- read of the maximum, at the load, at the swap, at the count, and with its answer.
pub data Place : Type 0 where
  idle : Place
  enqueue_start : ℕ → Place
  enqueue_read : ℕ → ℕ → Place
  enqueue_checked : ℕ → ℕ → Place
  enqueue_reserved : ℕ → ℕ → Place
  enqueue_stored : ℕ → ℕ → Place
  enqueue_counting : Place
  enqueued : Bool → Place
  dequeue_start : Place
  dequeue_read : ℕ → Place
  dequeue_checked : ℕ → Place
  dequeue_loaded : ℕ → ℕ → Place
  dequeue_counting : ℕ → Place
  dequeued : Option ℕ → Place

-- countToIndex
unfoldable pub count_to_index : ℕ → ℕ → ℕ
count_to_index q_size a_count = a_count % q_size

-- size, from the two indices that it reads.
unfoldable pub size_of : ℕ → ℕ → ℕ → ℕ
unfolding add_int
size_of q_size write read =
    if leb read write then write - read else (q_size + write + two64 - read) % two64

-- A turn of a thread that is in a call.
unfoldable pub turn : ℕ → Shared → Place → Option (Shared × Place)
unfolding add_int count_to_index
turn q_size s idle = none
turn q_size s (enqueue_start a) = some (s, enqueue_read a s.write_index)
turn q_size s (enqueue_read a write) = some (
  s,
  (if count_to_index q_size (add_int write 1) == count_to_index q_size s.read_index
      then enqueued false
      else enqueue_checked a write),
)
turn q_size s (enqueue_checked a write) =
    if s.write_index == write
    then some (
      record s { write_index = add_int write 1; entered = s.entered ++ a ∷ [] },
      enqueue_reserved a write,
    )
    else some (s, enqueue_start a)
turn q_size s (enqueue_reserved a write) = some (
  record s { the_queue = update s.the_queue (count_to_index q_size write) a },
  enqueue_stored a write,
)
turn q_size s (enqueue_stored a write) =
    if s.maximum_read_index == write
    then some (record s { maximum_read_index = add_int write 1 }, enqueue_counting)
    else some (s, enqueue_stored a write)
turn q_size s enqueue_counting = some (record s { count = add_int s.count 1 }, enqueued true)
turn q_size s (enqueued answer) = none
turn q_size s dequeue_start = some (s, dequeue_read s.read_index)
turn q_size s (dequeue_read read) = some (
  s,
  (if count_to_index q_size read == count_to_index q_size s.maximum_read_index
      then dequeued none
      else dequeue_checked read),
)
turn q_size s (dequeue_checked read) =
    some (s, dequeue_loaded read (s.the_queue (count_to_index q_size read)))
turn q_size s (dequeue_loaded read a) =
    if s.read_index == read
    then some
        (record s { read_index = add_int read 1; left = s.left ++ a ∷ [] }, dequeue_counting a)
    else some (s, dequeue_start)
turn q_size s (dequeue_counting a) =
    some (record s { count = add_int s.count (two64 - 1) }, dequeued (some a))
turn q_size s (dequeued answer) = none

-- A thread may begin a call.
unfoldable pub is_outside : Place → Bool
is_outside idle = true
is_outside (enqueued answer) = true
is_outside (dequeued answer) = true
is_outside place = false

pub record Queue : Type 0 where
  pub shared : Shared
  pub place : ℕ → Place

unfoldable pub with_place : Queue → ℕ → Shared × Place → Queue
with_place q t (s, p) = record { shared = s; place = update q.place t p }

unfoldable pub step : ℕ → Queue → ℕ → Option Queue
unfolding turn with_place
step q_size q t = turn q_size q.shared (q.place t) >>= λ r. some (with_place q t r)

unfoldable pub begin : Queue → ℕ → Place → Queue
begin q t p = record q { place = update q.place t p }

-- The constructor; `memory` is what the array holds.
unfoldable pub new_queue : (ℕ → ℕ) → Queue
new_queue memory = record {
  shared = record {
    the_queue = memory;
    count = 0;
    write_index = 0;
    read_index = 0;
    maximum_read_index = 0;
    entered = [];
    left = [];
  };
  place = λ t. idle;
}

-- The queues that turns in any order lead to. try_dequeue is dequeue.
pub data Reached (q_size : ℕ) (memory : ℕ → ℕ) : Queue → Type 0 where
  start : Reached q_size memory (new_queue memory)
  turned :
      {q r : Queue}
      → Reached q_size memory q
      → (t : ℕ) → step q_size q t ≡ some r
      → Reached q_size memory r
  enqueue :
      {q : Queue}
      → Reached q_size memory q
      → (t a : ℕ) → is_outside (q.place t) ≡ true
      → Reached q_size memory (begin q t (enqueue_start a))
  dequeue :
      {q : Queue}
      → Reached q_size memory q
      → (t : ℕ) → is_outside (q.place t) ≡ true
      → Reached q_size memory (begin q t dequeue_start)

-- The turns of one thread while no other takes one.
unfoldable pub alone : ℕ → ℕ → Shared → Place → Option (Shared × Place)
unfolding turn
alone q_size zero s p = some (s, p)
alone q_size (suc n) s p = turn q_size s p >>= λ r. alone q_size n r.0 r.1
