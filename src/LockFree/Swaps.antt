-- ===== src/LockFree/Swaps.antt =====
-- What the swaps that publish and that remove an element leave of the invariant.
use c_c_linux_learning_code.Common.{
  ==_iff, ℕ, ◌%◌, ◌<◌, ◌≡◌, ◌≢◌, sym, ap, ◌∙◌, arith, Bool-cases, inl, inr, some, [], ◌∷◌, ◌==◌,
  length, length-append,
}
use c_c_linux_learning_code.LockFree.{
  two64, add_int, Shared, Place, idle, enqueue_start, enqueue_read, enqueue_checked,
  enqueue_reserved, enqueue_stored, enqueue_counting, enqueued, dequeue_start, dequeue_read,
  dequeue_checked, dequeue_loaded, dequeue_counting, dequeued,
}
use c_c_linux_learning_code.LockFree.Valid.{nth, IsPrefix-next, IsShared, Knows, reserved}
use c_c_linux_learning_code.LockFree.Moves.{publish, remove}

module _ (n : ℕ) (s : Shared) (v : IsShared n s) (small : s.write_index < two64) where
  pub publish-IsShared :
      (a : ℕ)
      → s.maximum_read_index < s.write_index
      → nth s.entered s.maximum_read_index ≡ a
      → s.the_queue (s.maximum_read_index % n) ≡ a
      → IsShared n (publish s)
  unfolding add_int
  publish-IsShared a below entered stored =
      let reads = v.reads in
      record {
        fits = v.fits;
        reads = omega arith;
        published = omega arith;
        entered = v.entered;
        left = v.left;
        order = v.order;
        slots = λ k low high. elim (Bool-cases (k == s.maximum_read_index)) [
          | inl e ↦
              let same : k ≡ s.maximum_read_index = (==_iff k s.maximum_read_index).0 e in
              rw same (stored ∙ sym entered)
          | inr e ↦ v.slots k low (ground arith)
        ];
      }

  pub publish-Knows :
      (p : Place)
      → s.maximum_read_index < s.write_index
      → reserved p ≢ some s.maximum_read_index
      → Knows n s p
      → Knows n (publish s) p
  unfolding add_int
  publish-Knows idle below fresh h = tt
  publish-Knows (enqueue_start b) below fresh h = tt
  publish-Knows (enqueue_read b j) below fresh h = h
  publish-Knows (enqueue_checked b j) below fresh h = h
  publish-Knows (enqueue_reserved b j) below fresh h =
      let from = h.0 in
      let differs : j ≢ s.maximum_read_index = λ e. fresh (ap (λ k. some k) e) in
      (omega arith, h.1, h.2)
  publish-Knows (enqueue_stored b j) below fresh h =
      let from = h.0 in
      let differs : j ≢ s.maximum_read_index = λ e. fresh (ap (λ k. some k) e) in
      (omega arith, h.1, h.2, h.3)
  publish-Knows enqueue_counting below fresh h = tt
  publish-Knows (enqueued answer) below fresh h = tt
  publish-Knows dequeue_start below fresh h = tt
  publish-Knows (dequeue_read read) below fresh h = h
  publish-Knows (dequeue_checked read) below fresh h = (h.0, λ e. let there = h.1 e in omega arith)
  publish-Knows (dequeue_loaded read b) below fresh h =
      (h.0, (λ e. let there = h.1 e in omega arith), h.2)
  publish-Knows (dequeue_counting b) below fresh h = tt
  publish-Knows (dequeued answer) below fresh h = tt

  pub remove-IsShared :
      (a : ℕ)
      → s.read_index < s.maximum_read_index
      → nth s.entered s.read_index ≡ a
      → IsShared n (remove s a)
  unfolding add_int
  remove-IsShared a below entered =
      let fits = v.fits in
      let reads = v.reads in
      let published = v.published in
      let sum = length-append s.left (a ∷ []) in
      let taken = v.left in
      let whole = v.entered in
      let next : nth s.entered (length s.left) ≡ a = rw taken entered in
      record {
        fits = omega arith;
        reads = omega arith;
        published = published;
        entered = v.entered;
        left = omega arith;
        order = IsPrefix-next s.left s.entered a v.order (omega arith) next;
        slots = λ k low high. v.slots k (omega arith) high;
      }

  pub remove-Knows :
      (a : ℕ) (p : Place)
      → s.read_index < s.maximum_read_index
      → Knows n s p
      → Knows n (remove s a) p
  unfolding add_int
  remove-Knows a idle below h = tt
  remove-Knows a (enqueue_start b) below h = tt
  remove-Knows a (enqueue_read b j) below h = h
  remove-Knows a (enqueue_checked b j) below h =
      let published = v.published in (h.0, λ e. let room = h.1 e in omega arith)
  remove-Knows a (enqueue_reserved b j) below h = h
  remove-Knows a (enqueue_stored b j) below h = h
  remove-Knows a enqueue_counting below h = tt
  remove-Knows a (enqueued answer) below h = tt
  remove-Knows a dequeue_start below h = tt
  remove-Knows a (dequeue_read read) below h = let published = v.published in omega arith
  remove-Knows a (dequeue_checked read) below h =
      let published = v.published in let low = h.0 in (omega arith, λ e. omega arith)
  remove-Knows a (dequeue_loaded read b) below h =
      let published = v.published in
      let low = h.0 in (omega arith, (λ e. omega arith), λ e. absurd (omega arith))
  remove-Knows a (dequeue_counting b) below h = tt
  remove-Knows a (dequeued answer) below h = tt
