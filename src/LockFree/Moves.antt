-- ===== src/LockFree/Moves.antt =====
-- What each change of the shared memory leaves of the invariant.
use c_c_linux_learning_code.Common.{
  at_other, ℕ, ◌+◌, ◌%◌, ◌≤◌, ◌<◌, ◌≢◌, sym, ap, ◌∙◌, arith, some, [], ◌∷◌, ◌++◌, length-append,
  update,
}
use c_c_linux_learning_code.LockFree.{
  two64, add_int, Shared, Place, idle, enqueue_start, enqueue_read, enqueue_checked,
  enqueue_reserved, enqueue_stored, enqueue_counting, enqueued, dequeue_start, dequeue_read,
  dequeue_checked, dequeue_loaded, dequeue_counting, dequeued,
}
use c_c_linux_learning_code.LockFree.Valid.{
  nth-append, IsPrefix-grow, apart_mod, IsShared, Knows, reserved,
}

-- The shared memory after each of the four changes.
abbrev pub reserve_place : Shared → ℕ → Shared
reserve_place s a = record s {
  write_index = add_int s.write_index 1;
  entered = s.entered ++ a ∷ [];
}

abbrev pub store_element : ℕ → Shared → ℕ → ℕ → Shared
store_element n s write a = record s { the_queue = update s.the_queue (write % n) a }

abbrev pub publish : Shared → Shared
publish s = record s { maximum_read_index = add_int s.maximum_read_index 1 }

abbrev pub remove : Shared → ℕ → Shared
remove s a = record s { read_index = add_int s.read_index 1; left = s.left ++ a ∷ [] }

pub below_next : {a : ℕ} → a + 1 < two64 → a < two64
below_next h = omega arith

module _ (n : ℕ) (s : Shared) (v : IsShared n s) (small : s.write_index + 1 < two64) where
  pub reserve_place-IsShared :
      (a : ℕ) → s.write_index + 1 < s.read_index + n → IsShared n (reserve_place s a)
  unfolding add_int
  reserve_place-IsShared a room =
      let fits = v.fits in
      let reads = v.reads in
      let published = v.published in
      let sum = length-append s.entered (a ∷ []) in
      let entered = v.entered in
      record {
        fits = omega arith;
        reads = reads;
        published = omega arith;
        entered = omega arith;
        left = v.left;
        order = IsPrefix-grow s.left s.entered a v.order;
        slots =
            λ k from to. v.slots k from to ∙ sym (nth-append s.entered (a ∷ []) k (omega arith));
      }

  pub reserve_place-Knows : (a : ℕ) (p : Place) → Knows n s p → Knows n (reserve_place s a) p
  unfolding add_int
  reserve_place-Knows a idle h = tt
  reserve_place-Knows a (enqueue_start b) h = tt
  reserve_place-Knows a (enqueue_read b write) h = omega arith
  reserve_place-Knows a (enqueue_checked b write) h =
      let low = h.0 in (omega arith, λ e. omega arith)
  reserve_place-Knows a (enqueue_reserved b write) h =
      let high = h.1 in
      let entered = v.entered in
      (h.0, omega arith, nth-append s.entered (a ∷ []) write (omega arith) ∙ h.2)
  reserve_place-Knows a (enqueue_stored b write) h =
      let high = h.1 in
      let entered = v.entered in
      (h.0, omega arith, nth-append s.entered (a ∷ []) write (omega arith) ∙ h.2, h.3)
  reserve_place-Knows a enqueue_counting h = tt
  reserve_place-Knows a (enqueued answer) h = tt
  reserve_place-Knows a dequeue_start h = tt
  reserve_place-Knows a (dequeue_read read) h = h
  reserve_place-Knows a (dequeue_checked read) h = h
  reserve_place-Knows a (dequeue_loaded read b) h =
      let entered = v.entered in
      let published = v.published in
      (h.0, h.1, λ e. let there = h.1 e in nth-append s.entered (a ∷ []) read (omega arith) ∙ h.2 e)
  reserve_place-Knows a (dequeue_counting b) h = tt
  reserve_place-Knows a (dequeued answer) h = tt

module _ (n : ℕ) (s : Shared) (v : IsShared n s) (small : s.write_index < two64) where
  pub store_element-IsShared :
      (write a : ℕ)
      → s.maximum_read_index ≤ write
      → write < s.write_index
      → IsShared n (store_element n s write a)
  store_element-IsShared write a from to =
      let fits = v.fits in
      record {
        fits = v.fits;
        reads = v.reads;
        published = v.published;
        entered = v.entered;
        left = v.left;
        order = v.order;
        slots = λ k low high.
            let differs = apart_mod n k write (omega arith) (omega arith) in
            at_other s.the_queue (write % n) a (k % n) (λ e. differs (sym e)) ∙ v.slots k low high;
      }

  -- Two reserved places have different indices.
  reserved_apart :
      (k j : ℕ)
      → s.maximum_read_index ≤ k
      → k < s.write_index
      → s.maximum_read_index ≤ j
      → j < s.write_index
      → k ≢ j
      → k % n ≢ j % n
  reserved_apart k j k_from k_to j_from j_to differs e =
      let fits = v.fits in
      let reads = v.reads in
      let above : k < j → ⊥ = λ less. apart_mod n k j less (omega arith) e in
      let below : j < k → ⊥ = λ less. apart_mod n j k less (omega arith) (sym e) in grind arith

  pub store_element-Knows :
      (write a : ℕ)
      → s.maximum_read_index ≤ write
      → write < s.write_index
      → (p : Place) → reserved p ≢ some write
      → Knows n s p
      → Knows n (store_element n s write a) p
  store_element-Knows write a from to idle fresh h = tt
  store_element-Knows write a from to (enqueue_start b) fresh h = tt
  store_element-Knows write a from to (enqueue_read b j) fresh h = h
  store_element-Knows write a from to (enqueue_checked b j) fresh h = h
  store_element-Knows write a from to (enqueue_reserved b j) fresh h = h
  store_element-Knows write a from to (enqueue_stored b j) fresh h =
      let differs =
        reserved_apart write j from to h.0 h.1 (λ e. fresh (ap (λ k. some k) (sym e))) in
      (h.0, h.1, h.2, at_other s.the_queue (write % n) a (j % n) differs ∙ h.3)
  store_element-Knows write a from to enqueue_counting fresh h = tt
  store_element-Knows write a from to (enqueued answer) fresh h = tt
  store_element-Knows write a from to dequeue_start fresh h = tt
  store_element-Knows write a from to (dequeue_read read) fresh h = h
  store_element-Knows write a from to (dequeue_checked read) fresh h = h
  store_element-Knows write a from to (dequeue_loaded read b) fresh h = h
  store_element-Knows write a from to (dequeue_counting b) fresh h = tt
  store_element-Knows write a from to (dequeued answer) fresh h = tt
