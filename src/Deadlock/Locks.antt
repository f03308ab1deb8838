-- ===== src/Deadlock/Locks.antt =====
-- The list of locks and their owners.
use mathlib.Core.Option.{some-injective}
use c_c_linux_learning_code.Common.{
  ◌∙◌, ap, ℕ, zero, suc, ◌+◌, ◌≡◌, inl, inr, refl, subst, arith, some, none, List, [], ◌∷◌, ◌++◌,
  ◌==◌, Bool-cases, Option-cases, length,
}
use c_c_linux_learning_code.Deadlock.{Pair, lock_from, search_lock, get_lock, set_lock, take_slot}

-- The slot of the lock, with its owner.
pub record Owned (ls : List Pair) (lock th_id : ℕ) : Type 0 where
  pub index : ℕ
  pub slot : Pair
  pub found : search_lock ls lock ≡ some index
  pub held : get_lock ls index ≡ some slot
  pub owner : slot.th_id ≡ th_id

lock_from-get_lock :
    (k : ℕ) (ls : List Pair) (lock i : ℕ)
    → lock_from k ls lock ≡ some i
    → (n : ℕ) × ((k + n ≡ i) × ((p : Pair) × (get_lock ls n ≡ some p)))
unfolding lock_from get_lock
lock_from-get_lock k [] lock i h = absurd (cc)
lock_from-get_lock k (p ∷ ps) lock i h = elim (Bool-cases (p.lock_id == lock)) [
  | inl e ↦ let here : k ≡ i = ground arith in (0, (omega arith, (p, refl)))
  | inr e ↦
      let (n, (sum, got)) = lock_from-get_lock (suc k) ps lock i (ground arith) in
      (suc n, (omega arith, got))
]

-- A lock that is found has a slot.
pub search_lock-get_lock :
    (ls : List Pair) (lock i : ℕ)
    → search_lock ls lock ≡ some i
    → (p : Pair) × (get_lock ls i ≡ some p)
unfolding search_lock
search_lock-get_lock ls lock i h =
    let (n, (sum, got)) = lock_from-get_lock 0 ls lock i h in
    let same : n ≡ i = omega arith in subst (λ x. (p : Pair) × (get_lock ls x ≡ some p)) same got

get_lock-set_lock :
    (ls : List Pair) (n : ℕ) (p q : Pair)
    → get_lock ls n ≡ some p
    → get_lock (set_lock ls n q) n ≡ some q
unfolding get_lock set_lock
get_lock-set_lock [] n p q h = absurd (cc)
get_lock-set_lock (x ∷ ls) zero p q h = refl
get_lock-set_lock (x ∷ ls) (suc n) p q h = get_lock-set_lock ls n p q h

lock_from-set_lock :
    (k : ℕ) (ls : List Pair) (n : ℕ) (p q : Pair) (lock : ℕ)
    → get_lock ls n ≡ some p
    → p.lock_id ≡ q.lock_id
    → lock_from k (set_lock ls n q) lock ≡ lock_from k ls lock
unfolding lock_from get_lock set_lock
lock_from-set_lock k [] n p q lock h same = refl
lock_from-set_lock k (x ∷ ls) zero p q lock h same =
    let first : x ≡ p = some-injective _ _ h in rw (first, same) refl
lock_from-set_lock k (x ∷ ls) (suc n) p q lock h same =
    rw (lock_from-set_lock (suc k) ls n p q lock h same) refl

lock_from-set_lock_new :
    (k : ℕ) (ls : List Pair) (n : ℕ) (p q : Pair)
    → get_lock ls n ≡ some p
    → lock_from k ls q.lock_id ≡ none
    → lock_from k (set_lock ls n q) q.lock_id ≡ some (k + n)
unfolding lock_from get_lock set_lock
lock_from-set_lock_new k [] n p q h new = absurd (cc)
lock_from-set_lock_new k (x ∷ ls) zero p q h new = ground arith
lock_from-set_lock_new k (x ∷ ls) (suc n) p q h new =
    ground (arith, lock_from-set_lock_new (suc k) ls n p q h)

lock_from-append_new :
    (k : ℕ) (ls : List Pair) (q : Pair)
    → lock_from k ls q.lock_id ≡ none
    → lock_from k (ls ++ q ∷ []) q.lock_id ≡ some (k + length ls)
unfolding lock_from
lock_from-append_new k [] q new = ground arith
lock_from-append_new k (x ∷ ls) q new = ground (arith, lock_from-append_new (suc k) ls q)

get_lock-append_new : (ls : List Pair) (q : Pair) → get_lock (ls ++ q ∷ []) (length ls) ≡ some q
unfolding get_lock
get_lock-append_new [] q = refl
get_lock-append_new (x ∷ ls) q = get_lock-append_new ls q

-- The slot of a lock gets a new owner.
pub set_lock-Owned :
    (ls : List Pair) (lock i : ℕ) (p q : Pair)
    → search_lock ls lock ≡ some i
    → get_lock ls i ≡ some p
    → p.lock_id ≡ q.lock_id
    → Owned (set_lock ls i q) lock q.th_id
unfolding search_lock
set_lock-Owned ls lock i p q f g same = record {
  index = i;
  slot = q;
  found = rw (lock_from-set_lock 0 ls i p q lock g same) f;
  held = get_lock-set_lock ls i p q g;
  owner = refl;
}

-- An unknown lock gets a slot.
pub take_slot-Owned :
    (ls : List Pair) (i th_id lock : ℕ) (junk : Pair)
    → search_lock ls lock ≡ none
    → Owned (take_slot ls i th_id lock junk) lock th_id
unfolding take_slot search_lock
take_slot-Owned ls i th_id lock junk new = elim (Option-cases (get_lock ls i)) [
  | inl e ↦
      let q : Pair = record junk { th_id = th_id; lock_id = lock } in
      rw (take_slot, e)
        (record {
          index = length ls;
          slot = q;
          found = lock_from-append_new 0 ls q new ∙ ap some (omega arith);
          held = get_lock-append_new ls q;
          owner = refl;
        })
  | inr (p, e) ↦
      let q : Pair = record p { th_id = th_id; lock_id = lock } in
      rw (take_slot, e)
        (record {
          index = i;
          slot = q;
          found = lock_from-set_lock_new 0 ls i p q e new ∙ ap some (omega arith);
          held = get_lock-set_lock ls i p q e;
          owner = refl;
        })
]
