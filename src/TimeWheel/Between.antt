-- ===== src/TimeWheel/Between.antt =====
-- The calls of clients keep the invariant of the wheel, its time, and the nodes that wait.
use c_c_linux_learning_code.Common.{
  List, ℕ, ◌+◌, ◌%◌, ◌<◌, ◌≡◌, ◌≢◌, inl, inr, refl, sym, subst, ap, ◌∙◌, arith, Among, nil_of_none,
  false,
}
use c_c_linux_learning_code.TimeWheel.{Timer, add_timer, del_timer, not_positive}
use c_c_linux_learning_code.TimeWheel.Slots.{
  Slot, near_at, content, expire, slot_for, slot_for-Fits,
}
use c_c_linux_learning_code.TimeWheel.Placed.{IsPlaced, IsRested}
use c_c_linux_learning_code.TimeWheel.Clients.{
  expire-added, expire-added, Unused, Calls, idle, adds, dels, content-del_timer, expire-del_timer,
  add_timer-time, add_timer-node, add_timer-kept, add_timer-only,
}

-- A node that is in no list is none that is in one.
pub apart : (T : Timer) (a x : ℕ) (s : Slot) → Unused T a → Among x (content T s) → x ≢ a
apart T a x s unused m e = unused s (subst (λ y. Among y (content T s)) e m)

-- A positive time is not due at once.
slot_for-later :
    (c time : ℕ)
    → c < 4294967296
    → not_positive time ≡ false
    → time < 4294967296
    → near_at (c % 256) ≢ slot_for c ((time + c) % 4294967296)
unfolding slot_for
slot_for-later c time h pos small = ground arith

module _ (T : Timer) (a time func id : ℕ) (unused : Unused T a) (small : time < 4294967296) where
  abbrev after : Timer
  after = (add_timer T a time func id).state

  expire-old : (x : ℕ) (s : Slot) → Among x (content T s) → expire after x ≡ expire T x
  expire-old x s m = ap (λ n. n.expire) (add_timer-node T a time func id x (apart T a x s unused m))

  add_timer-IsPlaced : IsPlaced T → IsPlaced after
  add_timer-IsPlaced p = record {
    bounded = rw (add_timer-time T a time func id) p.bounded;
    expires = λ x s m. elim (add_timer-only T a time func id x s m) [
      | inl old ↦ rw (expire-old x s old) (p.expires x s old)
      | inr (new, _, pos) ↦ rw (new, expire-added T a time func id) (omega arith)
    ];
    fits = λ x s m live.
        rw (add_timer-time T a time func id) (elim (add_timer-only T a time func id x s m) [
          | inl old ↦ rw (expire-old x s old) (p.fits x s old live)
          | inr (new, at, pos) ↦
              rw (new, expire-added T a time func id, at)
                (slot_for-Fits T.time ((time + T.time) % 4294967296) p.bounded (omega arith))
        ]);
  }

  pub add_timer-IsRested : IsRested T → IsRested after
  add_timer-IsRested r = record {
    placed = add_timer-IsPlaced r.placed;
    served = rw (add_timer-time T a time func id) (
        nil_of_none _ λ x m. elim (add_timer-only T a time func id x (near_at (T.time % 256)) m) [
          | inl old ↦ subst (Among x) r.served old
          | inr (_, at, pos) ↦ slot_for-later T.time time r.placed.bounded pos small at
        ]);
  }

del_timer-IsRested : (T : Timer) (a : ℕ) → IsRested T → IsRested (del_timer T a)
unfolding del_timer
del_timer-IsRested T a r = record {
  placed = record {
    bounded = r.placed.bounded;
    expires = λ x s m.
        rw (expire-del_timer T a x)
          (r.placed.expires x s (subst (Among x) (content-del_timer T a s) m));
    fits = λ x s m live.
        rw (expire-del_timer T a x)
          (r.placed.fits x s (subst (Among x) (content-del_timer T a s) m) live);
  };
  served = r.served;
}

del_timer-cancel :
    (T : Timer) (a x : ℕ) → ((del_timer T a).node x).cancel ≡ 0 → (T.node x).cancel ≡ 0
unfolding del_timer
del_timer-cancel T a x e = ground arith

module _ (D : ℕ → Type 0) (busy : List ℕ) (T : Timer) where
  pub Calls-IsRested : {U : Timer} → Calls D busy T U → IsRested T → IsRested U
  Calls-IsRested idle r = r
  Calls-IsRested (adds {U} node time func id c unused free small) r =
      add_timer-IsRested U node time func id unused small (Calls-IsRested c r)
  Calls-IsRested (dels {U} node c d) r = del_timer-IsRested U node (Calls-IsRested c r)

  pub Calls-time : {U : Timer} → Calls D busy T U → U.time ≡ T.time
  unfolding del_timer
  Calls-time idle = refl
  Calls-time (adds {U} node time func id c unused free small) =
      add_timer-time U node time func id ∙ Calls-time c
  Calls-time (dels {U} node c d) = Calls-time c

  -- What is in a list stays there.
  pub Calls-kept :
      {U : Timer} (x : ℕ) (s : Slot)
      → Calls D busy T U
      → Among x (content T s)
      → Among x (content U s)
  Calls-kept x s idle m = m
  Calls-kept x s (adds {U} node time func id c unused free small) m =
      add_timer-kept U node time func id x s (Calls-kept x s c m)
  Calls-kept x s (dels {U} node c d) m =
      subst (Among x) (sym (content-del_timer U node s)) (Calls-kept x s c m)

  -- The expiry of a node in a list stays.
  pub Calls-expire :
      {U : Timer} (x : ℕ) (s : Slot)
      → Calls D busy T U
      → Among x (content T s)
      → expire U x ≡ expire T x
  Calls-expire x s idle m = refl
  Calls-expire x s (adds {U} node time func id c unused free small) m =
      expire-old U node time func id unused small x s (Calls-kept x s c m) ∙ Calls-expire x s c m
  Calls-expire x s (dels {U} node c d) m = expire-del_timer U node x ∙ Calls-expire x s c m

  -- A node in a list that no call deletes keeps its mark.
  pub Calls-cancel :
      {U : Timer} (x : ℕ) (s : Slot)
      → Calls D busy T U
      → ¬ D x
      → Among x (content T s)
      → (U.node x).cancel ≡ (T.node x).cancel
  unfolding del_timer
  Calls-cancel x s idle spared m = refl
  Calls-cancel x s (adds {U} node time func id c unused free small) spared m =
      ap (λ n. n.cancel)
        (add_timer-node U node time func id x (apart U node x s unused (Calls-kept x s c m)))
      ∙ Calls-cancel x s c spared m
  Calls-cancel x s (dels {U} node c d) spared m =
      let other : node ≢ x = λ e. spared (subst D e d) in
      ground (arith, Calls-cancel x s c spared m)

  -- What clients may do to a busy node: they mark it, if they may delete it.
  pub Calls-busy :
      {U : Timer} (x : ℕ)
      → Calls D busy T U
      → Among x busy
      → ((U.node x).cancel ≡ 0 → (T.node x).cancel ≡ 0)
        × (¬ D x → (U.node x).cancel ≡ (T.node x).cancel)
  unfolding del_timer
  Calls-busy x idle m = ((λ e. e), λ spared. refl)
  Calls-busy x (adds {U} node time func id c unused free small) m =
      let there = Calls-busy x c m in
      let other : x ≢ node = λ e. free (subst (λ y. Among y busy) e m) in
      let same = ap (λ n. n.cancel) (add_timer-node U node time func id x other) in
      ((λ e. there.0 (sym same ∙ e)), λ spared. same ∙ there.1 spared)
  Calls-busy x (dels {U} node c d) m =
      let there = Calls-busy x c m in
      (
        (λ e. there.0 (del_timer-cancel U node x e)),
        λ spared.
            let other : node ≢ x = λ e. spared (subst D e d) in ground (arith, there.1 spared),
      )
