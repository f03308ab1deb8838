-- ===== src/LockFree/Turns.antt =====
-- Every turn keeps the invariant of the lock-free queue.
use c_c_linux_learning_code.Common.{
  at_same, ℕ, ◌+◌, ◌%◌, ◌<◌, ◌≡◌, ◌≢◌, refl, sym, ap, ◌∙◌, subst, arith, Bool-cases, ==_iff, inl,
  inr, eq-true, false, Option, none, some, none≢some, ◌==◌, if◌then◌else◌, update,
}
use mathlib.Core.Option.{some-injective}
use native.Mathlib.Nat.{mod-eq_of_lt, add-mod_right}
use c_c_linux_learning_code.LockFree.{
  two64, add_int, count_to_index, Shared, Place, Queue, with_place, turn, enqueue_start,
  enqueue_checked, enqueue_reserved, enqueue_stored, enqueue_counting, dequeue_start,
  dequeue_loaded, dequeue_counting,
}
use c_c_linux_learning_code.LockFree.Valid.{
  nth, IsShared, Knows, Knows-reserved, nth-last, reserved, IsValid,
}
use c_c_linux_learning_code.LockFree.Moves.{
  below_next, reserve_place, store_element, publish, remove, reserve_place-IsShared,
  reserve_place-Knows, store_element-IsShared, store_element-Knows,
}
use c_c_linux_learning_code.LockFree.Swaps.{
  publish-IsShared, publish-Knows, remove-IsShared, remove-Knows,
}

pub differs : (t u : ℕ) → (t == u) ≡ false → t ≢ u
differs t u e same = cc (sym e ∙ eq-true same)

at_all :
    (P : Place → Type 0) (place : ℕ → Place) (t : ℕ) (p : Place)
    → P p
    → ((u : ℕ) → t ≢ u → P (place u))
    → (u : ℕ) → P (update place t p u)
at_all P place t p here there u = elim (Bool-cases (t == u)) [
  | inl e ↦ subst (λ b. P (if b then p else place u)) (sym e) here
  | inr e ↦ subst (λ b. P (if b then p else place u)) (sym e) (there u (differs t u e))
]

-- No two of the places are reserved by both.
abbrev Apart : Place → Place → Type 0
Apart p r = (k : ℕ) → reserved p ≡ some k → reserved r ≢ some k

Apart-all :
    (place : ℕ → Place) (t : ℕ) (p : Place)
    → ((u w : ℕ) → u ≢ w → Apart (place u) (place w))
    → ((u : ℕ) → t ≢ u → Apart p (place u))
    → (u w : ℕ) → u ≢ w
    → Apart (update place t p u) (update place t p w)
Apart-all place t p old fresh u w other = elim (Bool-cases (t == u)) [
  | inl e ↦ elim (Bool-cases (t == w)) [
    | inl f ↦ absurd (other (sym ((==_iff t u).0 e) ∙ (==_iff t w).0 f))
    | inr f ↦ rw (e, f) (fresh w (differs t w f))
  ]
  | inr e ↦ elim (Bool-cases (t == w)) [
    | inl f ↦ rw (e, f) (λ k a b. fresh u (differs t u e) k b a)
    | inr f ↦ rw (e, f) (old u w other)
  ]
]

-- A thread moves, where the others know what they knew and have not reserved its place.
pub moved :
    (n : ℕ) (q : Queue) (t : ℕ) (s : Shared) (p : Place)
    → IsValid n q
    → IsShared n s
    → Knows n s p
    → ((u : ℕ) → t ≢ u → Knows n s (q.place u))
    → ((u : ℕ) → t ≢ u → Apart p (q.place u))
    → IsValid n (with_place q t (s, p))
unfolding with_place
moved n q t s p v shared here there fresh = record {
  shared = shared;
  knows = at_all (Knows n s) q.place t p here there;
  exclusive =
      λ u w k other. Apart-all q.place t p (λ x y e j. v.exclusive x y j e) fresh u w other k;
}

-- A thread moves that changes nothing shared, and reserves nothing new.
pub stays :
    (n : ℕ) (q : Queue) (t : ℕ) (p : Place)
    → IsValid n q
    → Knows n q.shared p
    → reserved p ≡ none
    → IsValid n (with_place q t (q.shared, p))
stays n q t p v here free =
    moved n q t q.shared p v v.shared here (λ u other. v.knows u)
      (λ u other k e. absurd (none≢some (sym free ∙ e)))

-- What a turn leads to, unless the thread is in no call.
abbrev pub Keeps : ℕ → Queue → ℕ → Option (Shared × Place) → Type 0
Keeps n q t none = Unit
Keeps n q t (some r) = IsValid n (with_place q t r)

-- Equal indices of the next place and the first one are found by the test of enqueue.
pub room_left :
    (n w r : ℕ)
    → w < r + n
    → w + 1 < two64
    → (count_to_index n (add_int w 1) == count_to_index n r) ≡ false
    → w + 1 < r + n
unfolding add_int count_to_index
room_left n w r fits small test =
    let whole : (w + 1) % two64 ≡ w + 1 = mod-eq_of_lt small in
    let full : w + 1 ≢ r + n = λ e.
      differs ((w + 1) % two64 % n) (r % n) test
        (ap (λ c. c % n) (whole ∙ e) ∙ add-mod_right r n) in
    omega arith

module _ (n : ℕ) (q : Queue) (t : ℕ) (v : IsValid n q)
    (small : q.shared.write_index + 1 < two64) where
  -- The others have not reserved the place that `t` has.
  fresh_others :
      (p : Place) (k : ℕ)
      → q.place t ≡ p
      → reserved p ≡ some k
      → (u : ℕ) → t ≢ u
      → reserved (q.place u) ≢ some k
  fresh_others p k e mine u other = v.exclusive t u k other (ap reserved e ∙ mine)

  pub checked-Keeps :
      (a write : ℕ)
      → Knows n q.shared (enqueue_checked a write)
      → Keeps n q t (turn n q.shared (enqueue_checked a write))
  unfolding turn add_int
  checked-Keeps a write h = elim (Bool-cases (q.shared.write_index == write)) [
    | inl same ↦
        let w : q.shared.write_index ≡ write = (==_iff q.shared.write_index write).0 same in
        let here : Knows n (reserve_place q.shared a) (enqueue_reserved a q.shared.write_index) = (
          v.shared.published,
          omega arith,
          nth-last q.shared.entered a q.shared.write_index v.shared.entered,
        ) in
        rw (same, ← w)
          (moved n q t (reserve_place q.shared a) (enqueue_reserved a q.shared.write_index) v
            (reserve_place-IsShared n q.shared v.shared small a (h.1 w)) here
            (λ u other. reserve_place-Knows n q.shared v.shared small a (q.place u) (v.knows u))
            (λ u other k mine theirs.
              let below = (Knows-reserved n q.shared (q.place u) k (v.knows u) theirs).1 in
              let same_place = some-injective q.shared.write_index k mine in omega arith))
    | inr other ↦ rw other (stays n q t (enqueue_start a) v tt refl)
  ]

  pub reserved-Keeps :
      (a write : ℕ)
      → q.place t ≡ enqueue_reserved a write
      → Knows n q.shared (enqueue_reserved a write)
      → Keeps n q t (turn n q.shared (enqueue_reserved a write))
  unfolding turn count_to_index
  reserved-Keeps a write e h =
      let fresh = fresh_others (enqueue_reserved a write) write e refl in
      moved n q t (store_element n q.shared write a) (enqueue_stored a write) v
        (store_element-IsShared n q.shared v.shared (below_next small) write a h.0 h.1)
        (h.0, h.1, h.2, at_same q.shared.the_queue (write % n) a)
        (λ u other.
          store_element-Knows n q.shared v.shared (below_next small) write a h.0 h.1 (q.place u)
            (fresh u other) (v.knows u))
        (λ u other k mine. fresh_others (enqueue_reserved a write) k e mine u other)

  pub stored-Keeps :
      (a write : ℕ)
      → q.place t ≡ enqueue_stored a write
      → Knows n q.shared (enqueue_stored a write)
      → Keeps n q t (turn n q.shared (enqueue_stored a write))
  unfolding turn
  stored-Keeps a write e h = elim (Bool-cases (q.shared.maximum_read_index == write)) [
    | inl same ↦
        let m : write ≡ q.shared.maximum_read_index =
          sym ((==_iff q.shared.maximum_read_index write).0 same) in
        let below : q.shared.maximum_read_index < q.shared.write_index =
          let high = h.1 in omega arith in
        let fresh : (u : ℕ) → t ≢ u → reserved (q.place u) ≢ some q.shared.maximum_read_index =
          λ u other.
            fresh_others (enqueue_stored a write) q.shared.maximum_read_index e (ap (λ k. some k) m)
              u other in
        let entered : nth q.shared.entered q.shared.maximum_read_index ≡ a =
          subst (λ k. nth q.shared.entered k ≡ a) m h.2 in
        let kept : q.shared.the_queue (q.shared.maximum_read_index % n) ≡ a =
          subst (λ k. q.shared.the_queue (k % n) ≡ a) m h.3 in
        rw (same, m)
          (moved n q t (publish q.shared) enqueue_counting v
            (publish-IsShared n q.shared v.shared (below_next small) a below entered kept) tt
            (λ u other.
              publish-Knows n q.shared v.shared (below_next small) (q.place u) below (fresh u other)
                (v.knows u))
            (λ u other k mine. absurd (none≢some mine)))
    | inr other ↦ rw other (
        moved n q t q.shared (enqueue_stored a write) v v.shared h (λ u apart. v.knows u)
          (λ u apart k mine. fresh_others (enqueue_stored a write) k e mine u apart))
  ]

  pub loaded-Keeps :
      (read a : ℕ)
      → Knows n q.shared (dequeue_loaded read a)
      → Keeps n q t (turn n q.shared (dequeue_loaded read a))
  unfolding turn
  loaded-Keeps read a h = elim (Bool-cases (q.shared.read_index == read)) [
    | inl same ↦
        let r : q.shared.read_index ≡ read = (==_iff q.shared.read_index read).0 same in
        let below : q.shared.read_index < q.shared.maximum_read_index =
          let there = h.1 r in omega arith in
        let entered : nth q.shared.entered q.shared.read_index ≡ a =
          subst (λ k. nth q.shared.entered k ≡ a) (sym r) (h.2 r) in
        rw (same, ← r)
          (moved n q t (remove q.shared a) (dequeue_counting a) v
            (remove-IsShared n q.shared v.shared (below_next small) a below entered) tt
            (λ u other.
              remove-Knows n q.shared v.shared (below_next small) a (q.place u) below (v.knows u))
            (λ u other k mine. absurd (none≢some mine)))
    | inr other ↦ rw other (stays n q t dequeue_start v tt refl)
  ]
