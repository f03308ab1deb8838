-- ===== src/LockFree/Tests.antt =====
-- The theorems on the lock-free queue at concrete queues.
use c_c_linux_learning_code.Common.{
  ℕ, ◌<◌, ◌≡◌, refl, arith, true, false, Option, none, some, List, [], ◌∷◌, ◌++◌, ◌==◌,
  if◌then◌else◌, length,
}
use c_c_linux_learning_code.LockFree.{
  is_outside, Shared, Queue, turn, step, begin, new_queue, Reached, start, turned, enqueue, dequeue,
  alone, enqueue_start, enqueue_read, enqueued, dequeue_start, dequeued,
}
use c_c_linux_learning_code.LockFree.Valid.{IsShared}
use c_c_linux_learning_code.LockFree.Fifo.{Reached-IsValid, queue_fifo}
use c_c_linux_learning_code.LockFree.Alone.{enqueue_alone, full_while_empty}

abbrev memory : ℕ → ℕ
memory k = 99

unfoldable or_else : Queue → Option Queue → Queue
or_else q none = q
or_else q (some r) = r

-- A turn of each of the threads, in order.
unfoldable schedule : ℕ → Queue → List ℕ → Queue
unfolding step or_else
schedule n q [] = q
schedule n q (t ∷ ts) = schedule n (or_else q (step n q t)) ts

or_else-Reached :
    (n : ℕ) (q : Queue) (t : ℕ) (o : Option Queue)
    → Reached n memory q
    → step n q t ≡ o
    → Reached n memory (or_else q o)
unfolding or_else
or_else-Reached n q t none reached e = reached
or_else-Reached n q t (some r) reached e = turned reached t e

schedule-Reached :
    (n : ℕ) (q : Queue) (ts : List ℕ) → Reached n memory q → Reached n memory (schedule n q ts)
unfolding schedule
schedule-Reached n q [] reached = reached
schedule-Reached n q (t ∷ ts) reached =
    schedule-Reached n (or_else q (step n q t)) ts (or_else-Reached n q t (step n q t) reached refl)

-- Two threads enqueue in turns, the second reserves the first place; then a third one dequeues.
abbrev entering : Queue
entering = begin (begin (new_queue memory) 0 (enqueue_start 7)) 1 (enqueue_start 8)

abbrev busy : Queue
busy = schedule 3 entering (0 ∷ 1 ∷ 1 ∷ 1 ∷ 0 ∷ 0 ∷ 0 ∷ 0 ∷ 0 ∷ 0 ∷ 0 ∷ 1 ∷ 1 ∷ 0 ∷ [])

abbrev leaving : Queue
leaving = schedule 3 (begin busy 2 dequeue_start) (2 ∷ 2 ∷ 2 ∷ 2 ∷ [])

leaving-Reached : Reached 3 memory leaving
unfolding is_outside begin new_queue schedule
leaving-Reached =
    let first : Reached 3 memory (begin (new_queue memory) 0 (enqueue_start 7)) =
      enqueue start 0 7 refl in
    let entered : Reached 3 memory entering = enqueue first 1 8 refl in
    let stored : Reached 3 memory busy =
      schedule-Reached 3 entering (0 ∷ 1 ∷ 1 ∷ 1 ∷ 0 ∷ 0 ∷ 0 ∷ 0 ∷ 0 ∷ 0 ∷ 0 ∷ 1 ∷ 1 ∷ 0 ∷ [])
        entered in
    schedule-Reached 3 (begin busy 2 dequeue_start) (2 ∷ 2 ∷ 2 ∷ 2 ∷ []) (dequeue stored 2 refl)

leaving-order : (leaving.shared.entered ≡ 8 ∷ 7 ∷ []) × (leaving.shared.left ≡ 8 ∷ [])
unfolding schedule begin new_queue
leaving-order = (refl, refl)

queue_fifo_example :
    (waiting : List ℕ) × (leaving.shared.entered ≡ leaving.shared.left ++ waiting)
    × (length waiting < 3)
unfolding schedule begin new_queue
queue_fifo_example = queue_fifo 3 memory leaving (omega arith) leaving-Reached (omega arith)

abbrev fresh : Shared
fresh = (new_queue memory).shared

fresh-IsShared : IsShared 3 fresh
unfolding new_queue
fresh-IsShared =
    (Reached-IsValid 3 memory (new_queue memory) (omega arith) start (omega arith)).shared

enqueue_alone_example :
    (s' : Shared) × (alone 3 6 fresh (enqueue_start 7) ≡ some (s', enqueued true))
    × (s'.entered ≡ 7 ∷ [])
    × (s'.left ≡ [])
    × IsShared 3 s'
    × (s'.maximum_read_index ≡ s'.write_index)
unfolding new_queue
enqueue_alone_example = enqueue_alone 3 fresh 7 fresh-IsShared (omega arith) refl (omega arith)

-- With 7 enqueued.
abbrev one : Shared
one = record {
  the_queue = λ k. if 0 == k then 7 else 99;
  count = 1;
  write_index = 1;
  read_index = 0;
  maximum_read_index = 1;
  entered = 7 ∷ [];
  left = [];
}

one-IsShared : IsShared 3 one
one-IsShared = record {
  fits = omega arith;
  reads = omega arith;
  published = omega arith;
  entered = refl;
  left = refl;
  order = (7 ∷ [], refl);
  slots = λ k low high. let e : k ≡ 0 = omega arith in rw e refl;
}

full_while_empty_example :
    (s1 : Shared) × (s2 : Shared) × (alone 3 6 fresh (enqueue_start 8) ≡ some (s1, enqueued true))
    × (alone 3 5 s1 dequeue_start ≡ some (s2, dequeued (some 8)))
    × (s2.entered ≡ s2.left)
    × (turn 3 s2 (enqueue_read 7 0) ≡ some (s2, enqueued false))
unfolding new_queue
full_while_empty_example =
    full_while_empty 3 fresh 7 8 fresh-IsShared (omega arith) (omega arith) refl refl
