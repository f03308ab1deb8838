-- ===== src/LockFree/Valid.antt =====
-- What holds of the lock-free queue between two turns.
use c_c_linux_learning_code.Common.{
  none≢some, ℕ, zero, suc, ◌+◌, ◌*◌, ◌%◌, ◌/◌, ◌≤◌, ◌<◌, ◌≡◌, ◌≢◌, refl, sym, ap, ◌∙◌, subst, arith,
  Option, none, some, List, [], ◌∷◌, ◌++◌, length,
}
use mathlib.Core.Option.{some-injective}
use mathlib.Core.List.{append_assoc}
use native.Mathlib.Nat.{div-add-mod}
use c_c_linux_learning_code.LockFree.{
  Shared, Place, Queue, idle, enqueue_start, enqueue_read, enqueue_checked, enqueue_reserved,
  enqueue_stored, enqueue_counting, enqueued, dequeue_start, dequeue_read, dequeue_checked,
  dequeue_loaded, dequeue_counting, dequeued,
}

-- The element at a position, 0 behind the end.
abbrev pub nth : List ℕ → ℕ → ℕ
nth [] k = 0
nth (x ∷ xs) zero = x
nth (x ∷ xs) (suc k) = nth xs k

pub nth-append : (xs ys : List ℕ) (k : ℕ) → k < length xs → nth (xs ++ ys) k ≡ nth xs k
nth-append [] ys k h = absurd (omega arith)
nth-append (x ∷ xs) ys zero h = refl
nth-append (x ∷ xs) ys (suc k) h = nth-append xs ys k (omega arith)

pub nth-last : (xs : List ℕ) (x k : ℕ) → length xs ≡ k → nth (xs ++ x ∷ []) k ≡ x
nth-last [] x zero h = refl
nth-last [] x (suc k) h = absurd (omega arith)
nth-last (y ∷ xs) x zero h = absurd (omega arith)
nth-last (y ∷ xs) x (suc k) h = nth-last xs x k (omega arith)

-- `whole` begins with `part`.
abbrev pub IsPrefix : List ℕ → List ℕ → Type 0
IsPrefix part whole = (rest : List ℕ) × (whole ≡ part ++ rest)

pub IsPrefix-grow :
    (part whole : List ℕ) (x : ℕ) → IsPrefix part whole → IsPrefix part (whole ++ x ∷ [])
IsPrefix-grow part whole x (rest, e) =
    (rest ++ x ∷ [], ap (λ l. l ++ x ∷ []) e ∙ append_assoc part rest (x ∷ []))

next_rest :
    (part rest : List ℕ)
    → length part < length (part ++ rest)
    → IsPrefix (part ++ nth (part ++ rest) (length part) ∷ []) (part ++ rest)
next_rest [] [] h = absurd (omega arith)
next_rest [] (x ∷ rest) h = (rest, refl)
next_rest (y ∷ part) rest h =
    let (more, e) = next_rest part rest (omega arith) in (more, ap (λ l. y ∷ l) e)

pub IsPrefix-next :
    (part whole : List ℕ) (x : ℕ)
    → IsPrefix part whole
    → length part < length whole
    → nth whole (length part) ≡ x
    → IsPrefix (part ++ x ∷ []) whole
IsPrefix-next part whole x (rest, e) h last =
    let there = next_rest part rest (subst (λ l. length part < length l) e h) in
    let there' : IsPrefix (part ++ nth whole (length part) ∷ []) whole =
      subst (λ l. IsPrefix (part ++ nth l (length part) ∷ []) l) (sym e) there in
    subst (λ y. IsPrefix (part ++ y ∷ []) whole) last there'

apart_quotients : (n p q c : ℕ) → n * p + c < n * q + c → n * q + c < n * p + c + n → ⊥
apart_quotients n zero zero c less near = omega arith
apart_quotients n zero (suc q) c less near = omega arith
apart_quotients n (suc p) zero c less near = omega arith
apart_quotients n (suc p) (suc q) c less near = apart_quotients n p q c (omega arith) (omega arith)

-- Counts that are less than a round apart have different indices.
pub apart_mod : (n a b : ℕ) → a < b → b < a + n → a % n ≢ b % n
apart_mod n a b less near e =
    let first = div-add-mod a n in
    let second = div-add-mod b n in
    apart_quotients n (a / n) (b / n) (a % n) (omega arith) (omega arith)

-- The indices and the elements.
pub record IsShared (n : ℕ) (s : Shared) : Type 0 where
  pub fits : s.write_index < s.read_index + n
  pub reads : s.read_index ≤ s.maximum_read_index
  pub published : s.maximum_read_index ≤ s.write_index
  pub entered : length s.entered ≡ s.write_index
  pub left : length s.left ≡ s.read_index
  pub order : IsPrefix s.left s.entered
  pub slots :
      (k : ℕ) → s.read_index ≤ k → k < s.maximum_read_index → s.the_queue (k % n) ≡ nth s.entered k

-- What a thread knows at its place.
abbrev pub Knows : ℕ → Shared → Place → Type 0
Knows n s (enqueue_read a write) = write ≤ s.write_index
Knows n s (enqueue_checked a write) =
    (write ≤ s.write_index) × (s.write_index ≡ write → s.write_index + 1 < s.read_index + n)
Knows n s (enqueue_reserved a write) =
    (s.maximum_read_index ≤ write) × (write < s.write_index) × (nth s.entered write ≡ a)
Knows n s (enqueue_stored a write) =
    (s.maximum_read_index ≤ write)
    × (write < s.write_index)
    × (nth s.entered write ≡ a)
    × (s.the_queue (write % n) ≡ a)
Knows n s (dequeue_read read) = read ≤ s.read_index
Knows n s (dequeue_checked read) =
    (read ≤ s.read_index) × (s.read_index ≡ read → read < s.maximum_read_index)
Knows n s (dequeue_loaded read a) =
    (read ≤ s.read_index)
    × (s.read_index ≡ read → read < s.maximum_read_index)
    × (s.read_index ≡ read → nth s.entered read ≡ a)
Knows n s p = Unit

-- The place that a producer has reserved.
abbrev pub reserved : Place → Option ℕ
reserved (enqueue_reserved a write) = some write
reserved (enqueue_stored a write) = some write
reserved p = none

pub record IsValid (n : ℕ) (q : Queue) : Type 0 where
  pub shared : IsShared n q.shared
  pub knows : (t : ℕ) → Knows n q.shared (q.place t)
  pub exclusive :
      (t u k : ℕ) → t ≢ u → reserved (q.place t) ≡ some k → reserved (q.place u) ≢ some k

-- A reserved place is not yet published.
pub Knows-reserved :
    (n : ℕ) (s : Shared) (p : Place) (k : ℕ)
    → Knows n s p
    → reserved p ≡ some k
    → (s.maximum_read_index ≤ k) × (k < s.write_index)
Knows-reserved n s (enqueue_reserved a write) k h e =
    subst (λ j. (s.maximum_read_index ≤ j) × (j < s.write_index)) (some-injective write k e)
      (h.0, h.1)
Knows-reserved n s (enqueue_stored a write) k h e =
    subst (λ j. (s.maximum_read_index ≤ j) × (j < s.write_index)) (some-injective write k e)
      (h.0, h.1)
Knows-reserved n s idle k h e = absurd (none≢some e)
Knows-reserved n s (enqueue_start a) k h e = absurd (none≢some e)
Knows-reserved n s (enqueue_read a write) k h e = absurd (none≢some e)
Knows-reserved n s (enqueue_checked a write) k h e = absurd (none≢some e)
Knows-reserved n s enqueue_counting k h e = absurd (none≢some e)
Knows-reserved n s (enqueued answer) k h e = absurd (none≢some e)
Knows-reserved n s dequeue_start k h e = absurd (none≢some e)
Knows-reserved n s (dequeue_read read) k h e = absurd (none≢some e)
Knows-reserved n s (dequeue_checked read) k h e = absurd (none≢some e)
Knows-reserved n s (dequeue_loaded read a) k h e = absurd (none≢some e)
Knows-reserved n s (dequeue_counting a) k h e = absurd (none≢some e)
Knows-reserved n s (dequeued answer) k h e = absurd (none≢some e)
