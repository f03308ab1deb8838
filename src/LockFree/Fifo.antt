-- ===== src/LockFree/Fifo.antt =====
-- Elements leave the lock-free queue in the order of entry, whatever turns the threads take.
use c_c_linux_learning_code.Common.{
  ℕ, ◌+◌, ◌≤◌, ◌<◌, ◌≡◌, refl, ap, ◌∙◌, subst, arith, Bool-cases, inl, inr, Option, none, some,
  none≢some, List, [], ◌∷◌, ◌++◌, ◌==◌, length, length-append, ◌>>=◌,
}
use mathlib.Core.Option.{some-injective}
use c_c_linux_learning_code.LockFree.{
  two64, Shared, Place, Queue, with_place, turn, step, begin, new_queue, Reached, start, turned,
  enqueue, dequeue, idle, enqueue_start, enqueue_read, enqueue_checked, enqueue_reserved,
  enqueue_stored, enqueue_counting, enqueued, dequeue_start, dequeue_read, dequeue_checked,
  dequeue_loaded, dequeue_counting, dequeued,
}
use c_c_linux_learning_code.LockFree.Valid.{IsValid}
use c_c_linux_learning_code.LockFree.Turns.{Keeps, stays}
use c_c_linux_learning_code.LockFree.Steps.{turn-Keeps}

abbrev Grows : Shared → Option (Shared × Place) → Type 0
Grows s none = Unit
Grows s (some r) = length s.entered ≤ length r.0.entered

turn-Grows : (n : ℕ) (s : Shared) (p : Place) → Grows s (turn n s p)
unfolding turn
turn-Grows n s idle = tt
turn-Grows n s (enqueue_start a) = omega arith
turn-Grows n s (enqueue_read a write) = omega arith
turn-Grows n s (enqueue_checked a write) =
    let sum = length-append s.entered (a ∷ []) in
    elim (Bool-cases (s.write_index == write)) [
      | inl same ↦ rw same (omega arith)
      | inr other ↦ rw other (omega arith)
    ]
turn-Grows n s (enqueue_reserved a write) = omega arith
turn-Grows n s (enqueue_stored a write) = elim (Bool-cases (s.maximum_read_index == write)) [
  | inl same ↦ rw same (omega arith)
  | inr other ↦ rw other (omega arith)
]
turn-Grows n s enqueue_counting = omega arith
turn-Grows n s (enqueued answer) = tt
turn-Grows n s dequeue_start = omega arith
turn-Grows n s (dequeue_read read) = omega arith
turn-Grows n s (dequeue_checked read) = omega arith
turn-Grows n s (dequeue_loaded read a) = elim (Bool-cases (s.read_index == read)) [
  | inl same ↦ rw same (omega arith)
  | inr other ↦ rw other (omega arith)
]
turn-Grows n s (dequeue_counting a) = omega arith
turn-Grows n s (dequeued answer) = tt

then-Grows :
    (q : Queue) (t : ℕ) (o : Option (Shared × Place)) (r : Queue)
    → Grows q.shared o
    → (o >>= λ x. some (with_place q t x)) ≡ some r
    → length q.shared.entered ≤ length r.shared.entered
unfolding with_place
then-Grows q t none r h e = absurd (none≢some e)
then-Grows q t (some x) r h e =
    subst (λ y. length q.shared.entered ≤ length y.shared.entered)
      (some-injective (with_place q t x) r e) h

then-Keeps :
    (n : ℕ) (q : Queue) (t : ℕ) (o : Option (Shared × Place)) (r : Queue)
    → Keeps n q t o
    → (o >>= λ x. some (with_place q t x)) ≡ some r
    → IsValid n r
then-Keeps n q t none r h e = absurd (none≢some e)
then-Keeps n q t (some x) r h e = subst (IsValid n) (some-injective (with_place q t x) r e) h

new_queue-IsValid : (n : ℕ) (memory : ℕ → ℕ) → 0 < n → IsValid n (new_queue memory)
unfolding new_queue
new_queue-IsValid n memory some_room = record {
  shared = record {
    fits = omega arith;
    reads = omega arith;
    published = omega arith;
    entered = refl;
    left = refl;
    order = ([], refl);
    slots = λ k low high. absurd (omega arith);
  };
  knows = λ t. tt;
  exclusive = λ t u k other e f. none≢some e;
}

pub Reached-IsValid :
    (n : ℕ) (memory : ℕ → ℕ) (q : Queue)
    → 0 < n
    → Reached n memory q
    → length q.shared.entered + 1 < two64
    → IsValid n q
unfolding step begin
Reached-IsValid n memory q some_room start small = new_queue-IsValid n memory some_room
Reached-IsValid n memory r some_room (turned {q} reached t e) small =
    let grown =
      then-Grows q t (turn n q.shared (q.place t)) r (turn-Grows n q.shared (q.place t)) e in
    let v = Reached-IsValid n memory q some_room reached (omega arith) in
    let entered = v.shared.entered in
    then-Keeps n q t (turn n q.shared (q.place t)) r
      (turn-Keeps n q t (q.place t) v (omega arith) refl (v.knows t)) e
Reached-IsValid n memory r some_room (enqueue {q} reached t a outside) small =
    stays n q t (enqueue_start a) (Reached-IsValid n memory q some_room reached small) tt refl
Reached-IsValid n memory r some_room (dequeue {q} reached t outside) small =
    stays n q t dequeue_start (Reached-IsValid n memory q some_room reached small) tt refl

-- In every queue of a positive size that the turns of any threads, in any order, lead to from the
-- constructor, where less than 2^64 - 1 places were reserved: the elements dequeued are, in order,
-- the first of the elements that entered, in the order in which their places were reserved, each
-- once, and those that are not dequeued are less than the size.
pub queue_fifo :
    (n : ℕ) (memory : ℕ → ℕ) (q : Queue)
    → 0 < n
    → Reached n memory q
    → length q.shared.entered + 1 < two64
    → (waiting : List ℕ) × (q.shared.entered ≡ q.shared.left ++ waiting) × (length waiting < n)
queue_fifo n memory q some_room reached small =
    let v = (Reached-IsValid n memory q some_room reached small).shared in
    let (waiting, e) = v.order in
    let sum : length q.shared.entered ≡ length q.shared.left + length waiting =
      ap length e ∙ length-append q.shared.left waiting in
    let fits = v.fits in let entered = v.entered in let left = v.left in (waiting, e, omega arith)
