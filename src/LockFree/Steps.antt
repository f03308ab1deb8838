-- ===== src/LockFree/Steps.antt =====
-- A turn at any place keeps the invariant of the lock-free queue.
use c_c_linux_learning_code.Common.{
  ℕ, ◌+◌, ◌-◌, ◌<◌, ◌≡◌, ◌≢◌, refl, sym, ap, ◌∙◌, subst, arith, Bool-cases, inl, inr, true, false,
  none, some, none≢some, ◌==◌,
}
use c_c_linux_learning_code.LockFree.{
  two64, add_int, count_to_index, Shared, Place, Queue, with_place, turn, idle, enqueue_start,
  enqueue_read, enqueue_checked, enqueue_reserved, enqueue_stored, enqueue_counting, enqueued,
  dequeue_start, dequeue_read, dequeue_checked, dequeue_loaded, dequeue_counting, dequeued,
}
use c_c_linux_learning_code.LockFree.Valid.{nth, IsShared, Knows, reserved, IsValid}
use c_c_linux_learning_code.LockFree.Turns.{
  differs, moved, stays, Keeps, room_left, checked-Keeps, reserved-Keeps, stored-Keeps,
  loaded-Keeps,
}

-- m_count is no part of the invariant.
abbrev pub counted : Shared → ℕ → Shared
counted s c = record s { count = c }

counted-Knows : (n : ℕ) (s : Shared) (c : ℕ) (p : Place) → Knows n s p → Knows n (counted s c) p
counted-Knows n s c idle h = h
counted-Knows n s c (enqueue_start a) h = h
counted-Knows n s c (enqueue_read a write) h = h
counted-Knows n s c (enqueue_checked a write) h = h
counted-Knows n s c (enqueue_reserved a write) h = h
counted-Knows n s c (enqueue_stored a write) h = h
counted-Knows n s c enqueue_counting h = h
counted-Knows n s c (enqueued answer) h = h
counted-Knows n s c dequeue_start h = h
counted-Knows n s c (dequeue_read read) h = h
counted-Knows n s c (dequeue_checked read) h = h
counted-Knows n s c (dequeue_loaded read a) h = h
counted-Knows n s c (dequeue_counting a) h = h
counted-Knows n s c (dequeued answer) h = h

pub counted-IsShared : (n : ℕ) (s : Shared) (c : ℕ) → IsShared n s → IsShared n (counted s c)
counted-IsShared n s c v = record {
  fits = v.fits;
  reads = v.reads;
  published = v.published;
  entered = v.entered;
  left = v.left;
  order = v.order;
  slots = v.slots;
}

counts :
    (n : ℕ) (q : Queue) (t c : ℕ) (p : Place)
    → IsValid n q
    → Knows n (counted q.shared c) p
    → reserved p ≡ none
    → IsValid n (with_place q t (counted q.shared c, p))
counts n q t c p v here free =
    moved n q t (counted q.shared c) p v (counted-IsShared n q.shared c v.shared) here
      (λ u other. counted-Knows n q.shared c (q.place u) (v.knows u))
      (λ u other k e. absurd (none≢some (sym free ∙ e)))

pub turn-Keeps :
    (n : ℕ) (q : Queue) (t : ℕ) (p : Place)
    → IsValid n q
    → q.shared.write_index + 1 < two64
    → q.place t ≡ p
    → Knows n q.shared p
    → Keeps n q t (turn n q.shared p)
unfolding turn
turn-Keeps n q t idle v small e h = tt
turn-Keeps n q t (enqueue_start a) v small e h =
    stays n q t (enqueue_read a q.shared.write_index) v (omega arith) refl
turn-Keeps n q t (enqueue_read a write) v small e h =
    let test = count_to_index n (add_int write 1) == count_to_index n q.shared.read_index in
    elim (Bool-cases test) [
      | inl full ↦ rw full (stays n q t (enqueued false) v tt refl)
      | inr free ↦
          let room : q.shared.write_index ≡ write
              → q.shared.write_index + 1 < q.shared.read_index + n =
            λ same. room_left n q.shared.write_index q.shared.read_index v.shared.fits small (
              subst
                (λ w.
                  (count_to_index n (add_int w 1) == count_to_index n q.shared.read_index) ≡ false)
                (sym same) free) in
          rw free (stays n q t (enqueue_checked a write) v (h, room) refl)
    ]
turn-Keeps n q t (enqueue_checked a write) v small e h = checked-Keeps n q t v small a write h
turn-Keeps n q t (enqueue_reserved a write) v small e h = reserved-Keeps n q t v small a write e h
turn-Keeps n q t (enqueue_stored a write) v small e h = stored-Keeps n q t v small a write e h
turn-Keeps n q t enqueue_counting v small e h =
    counts n q t (add_int q.shared.count 1) (enqueued true) v tt refl
turn-Keeps n q t (enqueued answer) v small e h = tt
turn-Keeps n q t dequeue_start v small e h =
    stays n q t (dequeue_read q.shared.read_index) v (omega arith) refl
turn-Keeps n q t (dequeue_read read) v small e h =
    let test = count_to_index n read == count_to_index n q.shared.maximum_read_index in
    elim (Bool-cases test) [
      | inl none_left ↦ rw none_left (stays n q t (dequeued none) v tt refl)
      | inr more ↦
          let published : q.shared.read_index ≡ read → read < q.shared.maximum_read_index = λ same.
            let reads = v.shared.reads in
            let distinct : read ≢ q.shared.maximum_read_index = λ f.
              differs (count_to_index n read) (count_to_index n q.shared.maximum_read_index) more
                (ap (count_to_index n) f) in
            omega arith in
          rw more (stays n q t (dequeue_checked read) v (h, published) refl)
    ]
turn-Keeps n q t (dequeue_checked read) v small e h =
    let loaded : q.shared.read_index ≡ read
        → nth q.shared.entered read ≡ q.shared.the_queue (count_to_index n read) =
      λ same. sym (v.shared.slots read (omega arith) (h.1 same)) in
    stays n q t (dequeue_loaded read (q.shared.the_queue (count_to_index n read))) v
      (h.0, h.1, loaded) refl
turn-Keeps n q t (dequeue_loaded read a) v small e h = loaded-Keeps n q t v small read a h
turn-Keeps n q t (dequeue_counting a) v small e h =
    counts n q t (add_int q.shared.count (two64 - 1)) (dequeued (some a)) v tt refl
turn-Keeps n q t (dequeued answer) v small e h = tt
