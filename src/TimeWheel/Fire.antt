-- ===== src/TimeWheel/Fire.antt =====
-- timer_update and expire_timer: each timer fires at its time, neither before nor after.
use c_c_linux_learning_code.Common.{
  ℕ, zero, suc, ◌+◌, ◌-◌, ◌%◌, ◌≤◌, ◌<◌, ◌≡◌, ◌⊎◌, inl, inr, refl, sym, subst, ap, ◌∙◌, arith, List,
  [], ◌++◌, Among, Among-append, Among-append_left, Among-append_right, ltb, ◌==◌, Bool-cases,
  Returns, returns, Returns-inv, Returns-map, true,
}
use c_c_linux_learning_code.TimeWheel.{
  Timer, timer_execute, after_shift, timer_shift, timer_update, update_loop, expire_timer,
}
use c_c_linux_learning_code.TimeWheel.Slots.{
  Slot, near_at, level_at, content, expire, ticks_to, next, ticks_to-next,
}
use c_c_linux_learning_code.TimeWheel.Placed.{
  IsRested, Pending, later, timer_shift-IsPlaced, timer_shift-Pending, timer_shift-time,
  timer_shift-node,
}
use c_c_linux_learning_code.TimeWheel.Clients.{Calls}
use c_c_linux_learning_code.TimeWheel.Between.{
  Calls-IsRested, Calls-time, Calls-kept, Calls-expire, Calls-cancel,
}
use c_c_linux_learning_code.TimeWheel.Tick.{
  Settled, Chosen, execute_loop-Settled, round_nil, Settled-IsRested, Settled-time, Settled-Pending,
  due_now, now_due,
}

-- What a tick does. `D` holds of the nodes that may be deleted while the lock is free.
pub record Ticked (D : ℕ → Type 0) (T : Timer) (called : List ℕ) (U : Timer) : Type 0 where
  pub rested : IsRested U
  pub time : U.time ≡ next T.time
  pub on_time : (x : ℕ) → Among x called → (expire T x ≡ U.time) × ((T.node x).cancel ≡ 0)
  pub fires :
      (x : ℕ)
      → Pending T x
      → ticks_to T.time (expire T x) ≡ 1
      → (T.node x).cancel ≡ 0
      → ¬ D x
      → Among x called
  pub waits :
      (x : ℕ)
      → Pending T x
      → 1 < ticks_to T.time (expire T x)
      → Pending U x × (expire U x ≡ expire T x) × (¬ D x → (U.node x).cancel ≡ (T.node x).cancel)

module _ (T : Timer) (r : IsRested T) where
  abbrev S : Timer
  S = timer_shift T

  expire-shift : (x : ℕ) → expire S x ≡ expire T x
  expire-shift x = ap (λ n. (n x).expire) (timer_shift-node T r)

  cancel-shift : (x : ℕ) → (S.node x).cancel ≡ (T.node x).cancel
  cancel-shift x = ap (λ n. (n x).cancel) (timer_shift-node T r)

  -- A pending node comes one tick closer.
  closer : (x : ℕ) → Pending T x → ticks_to S.time (expire S x) + 1 ≡ ticks_to T.time (expire T x)
  closer x w =
      rw (timer_shift-time T r, expire-shift x)
        (ticks_to-next T.time (expire T x) r.placed.bounded (r.placed.expires x w.at w.among)
          (later T x w.at r w.live w.among))

  settled-Ticked :
      (D : ℕ → Type 0) (U : Timer) (called : List ℕ)
      → Settled D S U
      → Chosen D S (S.near (S.time % 256)) called
      → Ticked D T called U
  settled-Ticked D U called q k =
      let p = timer_shift-IsPlaced T r in
      let time : U.time ≡ S.time = Settled-time D S p q in
      record {
        rested = Settled-IsRested D S p q;
        time = time ∙ timer_shift-time T r;
        on_time = λ x m.
            let chosen = k.only x m in
            (
              sym (expire-shift x) ∙ now_due D S p x chosen.0 ∙ sym time,
              sym (cancel-shift x) ∙ chosen.1,
            );
        fires = λ x w one c spared.
            k.every x (due_now D S p x (timer_shift-Pending T r x w) (omega (arith, closer x w)))
              (cancel-shift x ∙ c) spared;
        waits = λ x w more.
            let (w', e, c) =
              Settled-Pending D S p x q (timer_shift-Pending T r x w) (omega (arith, closer x w)) in
            (w', e ∙ expire-shift x, λ spared. c spared ∙ cancel-shift x);
      }

-- The wheel when the clock's reading has been stored.
abbrev pointed : Timer → ℕ → Timer
pointed T cp = record T { current_point = cp }

content-pointed : (T : Timer) (cp : ℕ) (s : Slot) → content (pointed T cp) s ≡ content T s
content-pointed T cp (near_at i) = refl
content-pointed T cp (level_at k j) = refl

pointed-IsRested : (T : Timer) (cp : ℕ) → IsRested T → IsRested (pointed T cp)
pointed-IsRested T cp r = record {
  placed = record {
    bounded = r.placed.bounded;
    expires = λ x s m. r.placed.expires x s (subst (Among x) (content-pointed T cp s) m);
    fits = λ x s m live. r.placed.fits x s (subst (Among x) (content-pointed T cp s) m) live;
  };
  served = r.served;
}

pointed-Pending : (T : Timer) (cp x : ℕ) → Pending T x → Pending (pointed T cp) x
pointed-Pending T cp x w = record {
  at = w.at;
  live = w.live;
  among = subst (Among x) (sym (content-pointed T cp w.at)) w.among;
}

module _ (D : ℕ → Type 0) (others : List ℕ → Timer → Timer)
    (clients : (busy : List ℕ) (U : Timer) → Calls D busy U (others busy U)) where
  -- A tick of a rested wheel ends and leaves a rested wheel at the next time, whatever timers
  -- clients add, and delete among those in `D`, before the mark of each node taken out is tested
  -- and after the last test. It calls back only nodes that expire at that time and are not
  -- cancelled when the tick begins, and all pending ones of these that no client may delete; every
  -- other pending node stays pending, with its expiry, and with its mark unless clients may delete
  -- it.
  pub timer_update-Ticked :
      (T : Timer)
      → IsRested T
      → Returns (λ (called, U). Ticked D T called U) (timer_update others T)
  unfolding timer_update after_shift timer_execute
  timer_update-Ticked T r =
      let ((called, U), e, q, k) =
        execute_loop-Settled D others clients (timer_shift T) (timer_shift-IsPlaced T r) in
      rw (round_nil D others clients 1 T (T.time % 256) [] r.served, after_shift, e)
        (returns (settled-Ticked T r D U called q k))

  -- What `n` ticks do to a node that is pending when they begin; `before` was called earlier.
  record Ran (T : Timer) (n : ℕ) (before called : List ℕ) (U : Timer) : Type 0 where
    rested : IsRested U
    time : U.time ≡ (T.time + n) % 4294967296
    kept : (x : ℕ) → Among x before → Among x called
    fires :
        (x : ℕ)
        → Pending T x
        → ticks_to T.time (expire T x) ≤ n
        → (T.node x).cancel ≡ 0
        → ¬ D x
        → Among x called
    waits :
        (x : ℕ)
        → Pending T x
        → n < ticks_to T.time (expire T x)
        → Pending U x × (expire U x ≡ expire T x) × (Among x called → Among x before)

  Ran-none : (T : Timer) (before : List ℕ) → IsRested T → Ran T 0 before before T
  Ran-none T before r = record {
    rested = r;
    time = omega (arith, r.placed.bounded);
    kept = λ x m. m;
    fires = λ x w few. absurd (omega (arith, later T x w.at r w.live w.among));
    waits = λ x w more. (w, refl, λ m. m);
  }

  Ran-more :
      (T U V : Timer) (n : ℕ) (before more called : List ℕ)
      → IsRested T
      → Ticked D T more U
      → Ran U n (before ++ more) called V
      → Ran T (suc n) before called V
  Ran-more T U V n before more called r t q = record {
    rested = q.rested;
    time = omega (arith, q.time, t.time);
    kept = λ x m. q.kept x (Among-append_left x before more m);
    fires = λ x w few c spared. elim (Bool-cases (ltb 1 (ticks_to T.time (expire T x)))) [
      | inl long ↦
          let (w', e, c') = t.waits x w (ground arith) in
          q.fires x w' (rw e (omega (arith, closer_by x w long))) (c' spared ∙ c) spared
      | inr short ↦ q.kept x (
          Among-append_right x before more
            (t.fires x w (ground (arith, later T x w.at r w.live w.among)) c spared))
    ];
    waits = λ x w long.
        let (w', e, c') = t.waits x w (omega arith) in
        let (w'', e', back) = q.waits x w' (rw e (omega (arith, step x w))) in
        (w'', e' ∙ e, λ m. earlier x w long (Among-append x before more (back m)));
  }
    where
      step : (x : ℕ) → Pending T x → ticks_to U.time (expire T x) + 1 ≡ ticks_to T.time (expire T x)
      step x w = rw t.time (
          ticks_to-next T.time (expire T x) r.placed.bounded (r.placed.expires x w.at w.among)
            (later T x w.at r w.live w.among))

      closer_by :
          (x : ℕ)
          → Pending T x
          → ltb 1 (ticks_to T.time (expire T x)) ≡ true
          → ticks_to U.time (expire T x) + 1 ≡ ticks_to T.time (expire T x)
      closer_by x w long = step x w

      earlier :
          (x : ℕ)
          → Pending T x
          → suc n < ticks_to T.time (expire T x)
          → Among x before ⊎ Among x more
          → Among x before
      earlier x w long (inl m) = m
      earlier x w long (inr m) = absurd (omega (arith, step x w, (t.on_time x m).0))

  -- The calls of clients before the ticks.
  Ran-after :
      (T U V : Timer) (n : ℕ) (before called : List ℕ)
      → Calls D [] T U
      → Ran U n before called V
      → Ran T n before called V
  Ran-after T U V n before called c q = record {
    rested = q.rested;
    time = q.time ∙ ap (λ t. (t + n) % 4294967296) (Calls-time D [] T c);
    kept = q.kept;
    fires = λ x w few live spared.
        q.fires x (still x w) (rw (same x w) few)
          (Calls-cancel D [] T x w.at c spared w.among ∙ live) spared;
    waits = λ x w long.
        let (w', e, back) = q.waits x (still x w) (rw (same x w) long) in
        (w', e ∙ Calls-expire D [] T x w.at c w.among, back);
  }
    where
      still : (x : ℕ) → Pending T x → Pending U x
      still x w = record { at = w.at; live = w.live; among = Calls-kept D [] T x w.at c w.among }

      same : (x : ℕ) → Pending T x → ticks_to U.time (expire U x) ≡ ticks_to T.time (expire T x)
      same x w = rw (Calls-time D [] T c, Calls-expire D [] T x w.at c w.among) refl

  update_loop-Ran :
      (n : ℕ) (T : Timer) (before : List ℕ)
      → IsRested T
      → Returns (λ (called, U). Ran T n before called U) (update_loop others n T before)
  unfolding update_loop
  update_loop-Ran zero T before r = returns (Ran-none T before r)
  update_loop-Ran (suc n) T before r =
      let S = others [] T in
      let c = clients [] T in
      let r' = Calls-IsRested D [] T c r in
      let ((more, U), e, t) = Returns-inv (timer_update-Ticked S r') in
      rw (e, update_loop)
        (Returns-map (update_loop-Ran n U (before ++ more) t.rested) λ (called, V) q.
          Ran-after T S V (suc n) before called c (Ran-more S U V n before more called r' t q))

  -- The ticks that expire_timer makes up for when the clock reads `cp`.
  abbrev pub elapsed : Timer → ℕ → ℕ
  elapsed T cp = (cp + 18446744073709551616 - T.current_point) % 18446744073709551616 % 4294967296

  -- On a rested wheel, whatever timers clients add or delete before each tick, before the mark of
  -- each node taken out is tested and after the last test, expire_timer at a clock reading `cp` of
  -- 64 bits ends, and leaves a rested wheel whose time has moved on by the ticks elapsed on 32
  -- bits. For a node that is pending, is not cancelled and that no client deletes: if the elapsed
  -- ticks reach its expiry its callback is called, and if they do not it is not called and the node
  -- is still pending.
  pub expire_timer-exact :
      (T : Timer) (cp x : ℕ)
      → IsRested T
      → cp < 18446744073709551616
      → T.current_point < 18446744073709551616
      → Pending T x
      → (T.node x).cancel ≡ 0
      → ¬ D x
      → Returns
          (λ (called, U).
            IsRested U
            × (U.time ≡ (T.time + elapsed T cp) % 4294967296)
            × (ticks_to T.time (expire T x) ≤ elapsed T cp → Among x called)
            × (elapsed T cp < ticks_to T.time (expire T x) → Pending U x × (¬ Among x called)))
          (expire_timer others T cp)
  unfolding expire_timer
  expire_timer-exact T cp x r hc hp w c spared = elim (Bool-cases (cp == T.current_point)) [
    | inl same ↦
        let none_elapsed : elapsed T cp ≡ 0 = ground arith in
        let pos = later T x w.at r w.live w.among in
        rw same (
          returns
            (r, omega (arith, r.placed.bounded), λ few. absurd (omega arith), λ many. (w, λ m. m)))
    | inr other ↦ rw other (
        Returns-map (update_loop-Ran (elapsed T cp) (pointed T cp) [] (pointed-IsRested T cp r))
          λ (called, U) q.
            let w' = pointed-Pending T cp x w in
            (
              q.rested,
              q.time,
              λ few. q.fires x w' few c spared,
              λ many. ((q.waits x w' many).0, (q.waits x w' many).2),
            ))
  ]
