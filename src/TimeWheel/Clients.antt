-- ===== src/TimeWheel/Clients.antt =====
-- What callbacks and other threads may do while the lock is free: calls of add_timer and del_timer.
use c_c_linux_learning_code.Common.{
  [], List, ℕ, ◌+◌, ◌%◌, ◌<◌, ◌≡◌, ◌≢◌, ◌⊎◌, inl, inr, refl, subst, ◌∙◌, arith, Among, Bool-cases,
  true, false,
}
use c_c_linux_learning_code.TimeWheel.{
  Timer, fill_node, add_timer, add_node, del_timer, not_positive,
}
use c_c_linux_learning_code.TimeWheel.Slots.{Slot, near_at, level_at, content, expire, slot_for}
use c_c_linux_learning_code.TimeWheel.Content.{
  add_node-time, add_node-node, add_node-only, add_node-kept, add_node-new,
}

-- malloc gives no address that is in use.
abbrev pub Unused : Timer → ℕ → Type 0
Unused T a = (s : Slot) → ¬ Among a (content T s)

-- From the state `T` the calls lead to another one; they delete only nodes that satisfy `D`. The
-- nodes `busy` are allocated, though in no list.
pub data Calls (D : ℕ → Type 0) (busy : List ℕ) (T : Timer) : Timer → Type 0 where
  idle : Calls D busy T T
  adds :
      {U : Timer} (node time func id : ℕ)
      → Calls D busy T U
      → Unused U node
      → ¬ Among node busy
      → time < 4294967296
      → Calls D busy T (add_timer U node time func id).state
  dels : {U : Timer} (node : ℕ) → Calls D busy T U → D node → Calls D busy T (del_timer U node)

pub Calls-then :
    (D : ℕ → Type 0) (busy : List ℕ) (T U : Timer) {V : Timer}
    → Calls D busy T U
    → Calls D busy U V
    → Calls D busy T V
Calls-then D busy T U c idle = c
Calls-then D busy T U c (adds node time func id d unused free small) =
    adds node time func id (Calls-then D busy T U c d) unused free small
Calls-then D busy T U c (dels node d deleted) = dels node (Calls-then D busy T U c d) deleted

-- Fewer nodes are busy.
pub Calls-fewer :
    (D : ℕ → Type 0) (busy : List ℕ) (T : Timer) {U : Timer} → Calls D busy T U → Calls D [] T U
Calls-fewer D busy T idle = idle
Calls-fewer D busy T (adds node time func id c unused free small) =
    adds node time func id (Calls-fewer D busy T c) unused (λ m. m) small
Calls-fewer D busy T (dels node c deleted) = dels node (Calls-fewer D busy T c) deleted

pub content-fill_node :
    (T : Timer) (a time func id : ℕ) (s : Slot)
    → content (fill_node T a time func id) s ≡ content T s
unfolding fill_node
content-fill_node T a time func id (near_at i) = refl
content-fill_node T a time func id (level_at k j) = refl

pub content-del_timer : (T : Timer) (a : ℕ) (s : Slot) → content (del_timer T a) s ≡ content T s
unfolding del_timer
content-del_timer T a (near_at i) = refl
content-del_timer T a (level_at k j) = refl

pub expire-del_timer : (T : Timer) (a x : ℕ) → expire (del_timer T a) x ≡ expire T x
unfolding del_timer
expire-del_timer T a x = ground arith

module _ (T : Timer) (a time func id : ℕ) where
  abbrev pub filled : Timer
  filled = fill_node T a time func id

  pub node-fill_node : (x : ℕ) → x ≢ a → filled.node x ≡ T.node x
  unfolding fill_node
  node-fill_node x ne = ground arith

  pub expire-fill_node : expire filled a ≡ (time + T.time) % 4294967296
  unfolding fill_node
  expire-fill_node = ground arith

  pub time-fill_node : filled.time ≡ T.time
  unfolding fill_node
  time-fill_node = refl

  -- The two ways through add_timer.
  pub add_timer-cases :
      ((not_positive time ≡ true) × ((add_timer T a time func id).state ≡ filled))
      ⊎ ((not_positive time ≡ false) × ((add_timer T a time func id).state ≡ add_node filled a))
  unfolding add_timer
  add_timer-cases = elim (Bool-cases (not_positive time)) [
    | inl e ↦ inl (e, rw e)
    | inr e ↦ inr (e, rw e)
  ]

  pub add_timer-time : (add_timer T a time func id).state.time ≡ T.time
  add_timer-time = elim add_timer-cases [
    | inl (_, e) ↦ rw e time-fill_node
    | inr (_, e) ↦ rw e (add_node-time filled a ∙ time-fill_node)
  ]

  pub add_timer-node : (x : ℕ) → x ≢ a → (add_timer T a time func id).state.node x ≡ T.node x
  add_timer-node x ne = elim add_timer-cases [
    | inl (_, e) ↦ rw e (node-fill_node x ne)
    | inr (_, e) ↦ rw (e, add_node-node filled a) (node-fill_node x ne)
  ]

  pub add_timer-kept :
      (x : ℕ) (s : Slot)
      → Among x (content T s)
      → Among x (content (add_timer T a time func id).state s)
  add_timer-kept x s m =
      let m' : Among x (content filled s) = rw (content-fill_node T a time func id s) m in
      elim add_timer-cases [
        | inl (_, e) ↦ rw e m'
        | inr (_, e) ↦ rw e (add_node-kept filled a x s m')
      ]

  -- Nothing but the new node comes in, and that into the slot of its time; a time that is not
  -- positive does not come in at all.
  pub add_timer-only :
      (x : ℕ) (s : Slot)
      → Among x (content (add_timer T a time func id).state s)
      → Among x (content T s)
        ⊎ ((x ≡ a)
            × (s ≡ slot_for T.time ((time + T.time) % 4294967296))
            × (not_positive time ≡ false))
  add_timer-only x s m = elim add_timer-cases [
    | inl (_, e) ↦ inl (
        subst (Among x) (content-fill_node T a time func id s)
          (subst (λ U. Among x (content U s)) e m))
    | inr (pos, e) ↦ elim (add_node-only filled a x s (subst (λ U. Among x (content U s)) e m)) [
      | inl old ↦ inl (subst (Among x) (content-fill_node T a time func id s) old)
      | inr (new, at) ↦ inr (new, rw (time-fill_node, expire-fill_node) at at, pos)
    ]
  ]

  -- A positive time puts the node into the slot of its time.
  pub add_timer-new :
      not_positive time ≡ false
      → Among a (
          content
            (add_timer T a time func id).state
            (slot_for T.time ((time + T.time) % 4294967296)))
  unfolding fill_node
  add_timer-new pos = elim add_timer-cases [
    | inl (e, _) ↦ absurd (cc)
    | inr (_, e) ↦ rw e (rw (time-fill_node, expire-fill_node) at (add_node-new filled a))
  ]

  pub expire-added : expire (add_timer T a time func id).state a ≡ (time + T.time) % 4294967296
  expire-added = elim add_timer-cases [
    | inl (_, e) ↦ rw e expire-fill_node
    | inr (_, e) ↦ rw (e, add_node-node filled a) expire-fill_node
  ]
