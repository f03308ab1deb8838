-- ===== src/LockFree/Alone.antt =====
-- A call on the lock-free queue while no other thread takes a turn.
use c_c_linux_learning_code.Common.{
  at_same, List-cases, inl, inr, ℕ, zero, suc, ◌+◌, ◌-◌, ◌%◌, ◌<◌, ◌≡◌, ◌≢◌, refl, sym, ap, ◌∙◌,
  subst, arith, eq-true, eq-false, leb-true, true, false, some, List, [], ◌∷◌, ◌++◌, ◌==◌, length,
  length-append, update,
}
use mathlib.Core.List.{append-nil}
use native.Mathlib.Nat.{mod-eq_of_lt}
use c_c_linux_learning_code.LockFree.{
  two64, add_int, count_to_index, size_of, Shared, alone, turn, enqueue_read, enqueue_start,
  enqueued, dequeue_start, dequeued,
}
use c_c_linux_learning_code.LockFree.Valid.{nth, nth-last, apart_mod, IsShared}
use c_c_linux_learning_code.LockFree.Steps.{counted-IsShared}
use c_c_linux_learning_code.LockFree.Moves.{
  below_next, reserve_place, store_element, remove, reserve_place-IsShared, store_element-IsShared,
}
use c_c_linux_learning_code.LockFree.Swaps.{publish-IsShared, remove-IsShared}

-- The elements that wait, the first in front.
abbrev pub Waiting : Shared → List ℕ → Type 0
Waiting s waiting = s.entered ≡ s.left ++ waiting

nth-front : (part rest : List ℕ) (x k : ℕ) → length part ≡ k → nth (part ++ x ∷ rest) k ≡ x
nth-front [] rest x zero e = refl
nth-front [] rest x (suc k) e = absurd (omega arith)
nth-front (y ∷ part) rest x zero e = absurd (omega arith)
nth-front (y ∷ part) rest x (suc k) e = nth-front part rest x k (omega arith)

pub dequeue_alone :
    (n : ℕ) (s : Shared) (a : ℕ) (rest : List ℕ)
    → IsShared n s
    → s.write_index + 1 < two64
    → s.maximum_read_index ≡ s.write_index
    → Waiting s (a ∷ rest)
    → (s' : Shared) × (alone n 5 s dequeue_start ≡ some (s', dequeued (some a)))
      × (s'.left ≡ s.left ++ a ∷ [])
      × (s'.entered ≡ s.entered)
      × IsShared n s'
      × (s'.maximum_read_index ≡ s'.write_index)
unfolding alone add_int count_to_index
dequeue_alone n s a rest v small quiet waiting =
    let sum = ap length waiting ∙ length-append s.left (a ∷ rest) in
    let entered = v.entered in
    let left = v.left in
    let fits = v.fits in
    let below : s.read_index < s.maximum_read_index = omega arith in
    let test = eq-false (apart_mod n s.read_index s.maximum_read_index below (omega arith)) in
    let first : s.the_queue (s.read_index % n) ≡ a =
      v.slots s.read_index (omega arith) below
      ∙ (ap (λ l. nth l s.read_index) waiting ∙ nth-front s.left rest a s.read_index left) in
    (
      record (remove s a) { count = add_int s.count (two64 - 1) },
      rw (test, eq-true {a = s.read_index} refl, first) refl,
      refl,
      refl,
      counted-IsShared n (remove s a) (add_int s.count (two64 - 1)) (
          remove-IsShared n s v (below_next small) a below
            (sym (v.slots s.read_index (omega arith) below) ∙ first)),
      quiet,
    )

-- From indices and elements that fit together, where no producer is between its two swaps, less
-- than 2^64 - 1 places were reserved and one more than the elements that wait is less than the
-- size: a thread that calls enqueue and takes six turns alone has answered true, the element has
-- entered last, nothing has left, and the indices fit together again, all published.
pub enqueue_alone :
    (n : ℕ) (s : Shared) (a : ℕ)
    → IsShared n s
    → s.write_index + 1 < two64
    → s.maximum_read_index ≡ s.write_index
    → s.write_index + 1 < s.read_index + n
    → (s' : Shared) × (alone n 6 s (enqueue_start a) ≡ some (s', enqueued true))
      × (s'.entered ≡ s.entered ++ a ∷ [])
      × (s'.left ≡ s.left)
      × IsShared n s'
      × (s'.maximum_read_index ≡ s'.write_index)
unfolding alone add_int count_to_index
enqueue_alone n s a v small quiet room =
    let reads = v.reads in
    let whole : (s.write_index + 1) % two64 ≡ s.write_index + 1 = mod-eq_of_lt small in
    let differs : (s.write_index + 1) % n ≢ s.read_index % n =
      λ e. apart_mod n s.read_index (s.write_index + 1) (omega arith) room (sym e) in
    let test : ((s.write_index + 1) % two64 % n == s.read_index % n) ≡ false =
      rw whole (eq-false differs) in
    let reserved = reserve_place-IsShared n s v small a room in
    let stored = store_element n (reserve_place s a) s.write_index a in
    let kept : IsShared n stored =
      store_element-IsShared n (reserve_place s a) reserved (omega arith) s.write_index a
        (omega arith) (omega arith) in
    let published : IsShared n (record stored { maximum_read_index = add_int s.write_index 1 }) =
      subst (λ k. IsShared n (record stored { maximum_read_index = add_int k 1 })) quiet
        (publish-IsShared n stored kept (omega arith) a (omega arith)
          (nth-last s.entered a s.maximum_read_index (v.entered ∙ sym quiet))
          (subst (λ k. update s.the_queue (s.write_index % n) a (k % n) ≡ a) (sym quiet)
            (at_same s.the_queue (s.write_index % n) a))) in
    (
      record s {
        the_queue = update s.the_queue (s.write_index % n) a;
        write_index = add_int s.write_index 1;
        maximum_read_index = add_int s.write_index 1;
        entered = s.entered ++ a ∷ [];
        count = add_int s.count 1;
      },
      rw (test, eq-true {a = s.write_index} refl, eq-true quiet) refl,
      refl,
      refl,
      counted-IsShared n (record stored { maximum_read_index = add_int s.write_index 1 })
          (add_int s.count 1) published,
      refl,
    )

nothing-Waiting :
    (n : ℕ) (s : Shared) → IsShared n s → s.read_index ≡ s.write_index → s.entered ≡ s.left
nothing-Waiting n s v empty =
    let (rest, e) = v.order in
    let sum = ap length e ∙ length-append s.left rest in
    let entered = v.entered in
    let left = v.left in
    elim (List-cases rest) [
      | inl none_left ↦ e ∙ (ap (λ l. s.left ++ l) none_left ∙ append-nil s.left)
      | inr (x, xs, more) ↦ let longer = ap length more in absurd (omega arith)
    ]

-- A producer has read the write index of an empty queue of a size above 1, with all published and
-- less than 2^64 - 2 places reserved. When another thread then enqueues and dequeues an element,
-- each alone, both succeed and leave the queue empty, and the producer's next turn answers that the
-- queue is full.
pub full_while_empty :
    (n : ℕ) (s : Shared) (a b : ℕ)
    → IsShared n s
    → 1 < n
    → s.write_index + 2 < two64
    → s.maximum_read_index ≡ s.write_index
    → s.read_index ≡ s.write_index
    → (s1 : Shared) × (s2 : Shared) × (alone n 6 s (enqueue_start b) ≡ some (s1, enqueued true))
      × (alone n 5 s1 dequeue_start ≡ some (s2, dequeued (some b)))
      × (s2.entered ≡ s2.left)
      × (turn n s2 (enqueue_read a s.write_index) ≡ some (s2, enqueued false))
unfolding turn add_int count_to_index
full_while_empty n s a b v sizes small quiet empty =
    let (s1, put, entered1, left1, v1, quiet1) =
      enqueue_alone n s b v (omega arith) quiet (omega arith) in
    let nothing = nothing-Waiting n s v empty in
    let waiting : Waiting s1 (b ∷ []) = entered1 ∙ (ap (λ l. l ++ b ∷ []) (nothing ∙ sym left1)) in
    let grown1 = ap length entered1 ∙ length-append s.entered (b ∷ []) in
    let before = v.entered in
    let after = v1.entered in
    let (s2, got, left2, entered2, v2, quiet2) =
      dequeue_alone n s1 b [] v1 (omega arith) quiet1 waiting in
    let grown2 = ap length left2 ∙ length-append s1.left (b ∷ []) in
    let same1 = ap length left1 in
    let first = v.left in
    let last = v2.left in
    let read : s2.read_index ≡ s.write_index + 1 = omega arith in
    let whole : (s.write_index + 1) % two64 ≡ s.write_index + 1 = mod-eq_of_lt (omega arith) in
    let full : ((s.write_index + 1) % two64 % n == s2.read_index % n) ≡ true =
      eq-true (ap (λ k. k % n) (whole ∙ sym read)) in
    (s1, s2, put, got, entered2 ∙ (waiting ∙ sym left2), rw full refl)

pub size_alone :
    (n : ℕ) (s : Shared) (waiting : List ℕ)
    → IsShared n s
    → Waiting s waiting
    → size_of n s.write_index s.read_index ≡ length waiting
unfolding size_of
size_alone n s waiting v e =
    let sum = ap length e ∙ length-append s.left waiting in
    let entered = v.entered in
    let left = v.left in
    rw (leb-true {a = s.read_index} {b = s.write_index} (omega arith)) (omega arith)
