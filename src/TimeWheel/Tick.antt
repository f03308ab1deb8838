-- ===== src/TimeWheel/Tick.antt =====
-- timer_execute, timer_update and expire_timer: a tick fires what is due, and only that.
use c_c_linux_learning_code.Common.{
  eq-true, ==_iff, Among-append, Among-append_left, Among-append_right, true, false, Bool, ◌⊎◌,
  List-cases, true, ℕ, suc, ◌%◌, ◌<◌, ◌≡◌, ◌≢◌, inl, inr, refl, sym, subst, ap, ◌∙◌, arith, List,
  [], ◌∷◌, ◌++◌, some, Among, update, ◌==◌, if◌then◌else◌, Bool-cases,
}
use c_c_linux_learning_code.TimeWheel.{Timer, dispatch_list, execute_loop}
use c_c_linux_learning_code.TimeWheel.Slots.{
  Slot, near_at, level_at, content, expire, ticks_to, IsLive,
}
use c_c_linux_learning_code.TimeWheel.Placed.{IsPlaced, IsRested, Pending}
use c_c_linux_learning_code.TimeWheel.Clients.{Calls, Calls-then, Calls-fewer}
use c_c_linux_learning_code.TimeWheel.Between.{
  Calls-IsRested, Calls-time, Calls-kept, Calls-expire, Calls-cancel, Calls-busy,
}

-- The wheel when the list of the present time is taken out.
abbrev pub emptied : Timer → Timer
emptied T = record T { near = update T.near (T.time % 256) [] }

-- What dispatch_list does with the nodes `l`, where `called` were called before: it calls those
-- that are not cancelled and that no client deletes, and no cancelled ones.
pub record Dispatched (D : ℕ → Type 0) (T : Timer) (l called : List ℕ) (r : List ℕ × Timer)
    : Type 0 where
  pub calls : Calls D [] T r.1
  pub before : (x : ℕ) → Among x called → Among x r.0
  pub only : (x : ℕ) → Among x r.0 → Among x called ⊎ (Among x l × ((T.node x).cancel ≡ 0))
  pub every : (x : ℕ) → Among x l → (T.node x).cancel ≡ 0 → ¬ D x → Among x r.0

-- The nodes of the list that are called.
pub record Chosen (D : ℕ → Type 0) (T : Timer) (l called : List ℕ) : Type 0 where
  pub only : (x : ℕ) → Among x called → Among x l × ((T.node x).cancel ≡ 0)
  pub every : (x : ℕ) → Among x l → (T.node x).cancel ≡ 0 → ¬ D x → Among x called

-- The list of the called nodes after the test of a node.
abbrev tested : Bool → List ℕ → ℕ → List ℕ
tested b called a = if b then called ++ a ∷ [] else called

tested-before :
    (b : Bool) (called : List ℕ) (a x : ℕ) → Among x called → Among x (tested b called a)
tested-before true called a x m = Among-append_left x called (a ∷ []) m
tested-before false called a x m = m

tested-only :
    (b : Bool) (called : List ℕ) (a x : ℕ)
    → Among x (tested b called a)
    → Among x called ⊎ ((x ≡ a) × (b ≡ true))
tested-only true called a x m = elim (Among-append x called (a ∷ []) m) [
  | inl k ↦ inl k
  | inr (inl e) ↦ inr (e, refl)
  | inr (inr k) ↦ elim k [ ]
]
tested-only false called a x m = inl m

module _ (D : ℕ → Type 0) (others : List ℕ → Timer → Timer)
    (clients : (busy : List ℕ) (U : Timer) → Calls D busy U (others busy U)) where
  pub dispatch_list-Dispatched :
      (T : Timer) (l called : List ℕ) → Dispatched D T l called (dispatch_list others T l called)
  unfolding dispatch_list
  dispatch_list-Dispatched T [] called = record {
    calls = clients [] T;
    before = λ x m. m;
    only = λ x m. inl m;
    every = λ x m. absurd m;
  }
  dispatch_list-Dispatched T (a ∷ l) called =
      let U = others (a ∷ l) T in
      let c = clients (a ∷ l) T in
      let b = (U.node a).cancel == 0 in
      let q = dispatch_list-Dispatched U l (tested b called a) in
      record {
        calls = Calls-then D [] T U (Calls-fewer D (a ∷ l) T c) q.calls;
        before = λ x m. q.before x (tested-before b called a x m);
        only = λ x m. elim (q.only x m) [
          | inl k ↦ elim (tested-only b called a x k) [
            | inl old ↦ inl old
            | inr (e, live) ↦
                let live' : (U.node x).cancel ≡ 0 = rw e ((==_iff (U.node a).cancel 0).0 live) in
                inr (inl e, (Calls-busy D (a ∷ l) T x c (inl e)).0 live')
          ]
          | inr (k, live) ↦ inr (inr k, (Calls-busy D (a ∷ l) T x c (inr k)).0 live)
        ];
        every = λ x m live spared.
            let live' = (Calls-busy D (a ∷ l) T x c m).1 spared ∙ live in
            elim m [
              | inl e ↦
                  let yes : b ≡ true = eq-true (ap (λ y. (U.node y).cancel) (sym e) ∙ live') in
                  q.before x (
                    subst (λ v. Among x (tested v called a)) (sym yes)
                      (Among-append_right x called (a ∷ []) (inl e)))
              | inr k ↦ q.every x k live' spared
            ];
      }

-- The end of timer_execute: what is left when nothing was due, or what clients made of the rest.
pub data Settled (D : ℕ → Type 0) (T U : Timer) : Type 0 where
  quiet : T.near (T.time % 256) ≡ [] → U ≡ T → Settled D T U
  served : Calls D [] (emptied T) U → Settled D T U

pub emptied-only :
    (T : Timer) (x : ℕ) (s : Slot) → Among x (content (emptied T) s) → Among x (content T s)
emptied-only T x (near_at i) m = elim (Bool-cases (T.time % 256 == i)) [
  | inl e ↦ absurd (ground arith)
  | inr e ↦ ground arith
]
emptied-only T x (level_at k j) m = m

pub emptied-IsRested : (T : Timer) → IsPlaced T → IsRested (emptied T)
emptied-IsRested T p = record {
  placed = record {
    bounded = p.bounded;
    expires = λ x s m. p.expires x s (emptied-only T x s m);
    fits = λ x s m live. p.fits x s (emptied-only T x s m) live;
  };
  served = ground arith;
}

module _ (D : ℕ → Type 0) (others : List ℕ → Timer → Timer)
    (clients : (busy : List ℕ) (U : Timer) → Calls D busy U (others busy U)) where
  pub round_nil :
      (f : ℕ) (T : Timer) (idx : ℕ) (called : List ℕ)
      → T.near idx ≡ []
      → execute_loop others (suc f) T idx called ≡ some (called, T)
  unfolding execute_loop
  round_nil f T idx called e = rw (e, execute_loop)

  round_cons :
      (f : ℕ) (T : Timer) (idx : ℕ) (called : List ℕ) (a : ℕ) (rest : List ℕ)
      → T.near idx ≡ a ∷ rest
      → let r = dispatch_list others (record T { near = update T.near idx [] }) (a ∷ rest) called in
        execute_loop others (suc f) T idx called ≡ execute_loop others f r.1 idx r.0
  unfolding execute_loop
  round_cons f T idx called a rest e = rw (e, execute_loop)

  -- The loop ends in its second round at the latest.
  pub execute_loop-Settled :
      (T : Timer)
      → IsPlaced T
      → (r : List ℕ × Timer) × (execute_loop others 2 T (T.time % 256) [] ≡ some r)
        × Settled D T r.1
        × Chosen D T (T.near (T.time % 256)) r.0
  execute_loop-Settled T p = elim (List-cases (T.near (T.time % 256))) [
    | inl e ↦ (
      ([], T),
      round_nil 1 T (T.time % 256) [] e,
      quiet e refl,
      record { only = λ x m. elim m [ ]; every = λ x m. absurd (subst (Among x) e m) },
    )
    | inr (a, rest, e) ↦
        let r = dispatch_list others (emptied T) (a ∷ rest) [] in
        let q = dispatch_list-Dispatched D others clients (emptied T) (a ∷ rest) [] in
        let v = Calls-IsRested D [] (emptied T) q.calls (emptied-IsRested T p) in
        let idle : (r.1).near (T.time % 256) ≡ [] =
          subst (λ (t : ℕ). (r.1).near (t % 256) ≡ []) (Calls-time D [] (emptied T) q.calls)
            v.served in
        (
          r,
          round_cons 1 T (T.time % 256) [] a rest e ∙ round_nil 0 r.1 (T.time % 256) r.0 idle,
          served q.calls,
          rw e (record {
            only = λ x m. elim (q.only x m) [ inl k ↦ absurd k | inr k ↦ k ];
            every = q.every;
          }),
        )
  ]

module _ (D : ℕ → Type 0) (T : Timer) (p : IsPlaced T) where
  pub Settled-IsRested : {U : Timer} → Settled D T U → IsRested U
  Settled-IsRested (quiet e u) = rw u (record { placed = p; served = e })
  Settled-IsRested (served c) = Calls-IsRested D [] (emptied T) c (emptied-IsRested T p)

  pub Settled-time : {U : Timer} → Settled D T U → U.time ≡ T.time
  Settled-time (quiet e u) = rw u
  Settled-time (served c) = Calls-time D [] (emptied T) c

  -- A node that is due later is not in the list of the present time.
  waits :
      (x : ℕ) (s : Slot)
      → IsLive s
      → Among x (content T s)
      → 0 < ticks_to T.time (expire T x)
      → Among x (content (emptied T) s)
  waits x (near_at i) live m pos =
      let f = p.fits x (near_at i) m tt in
      let e = p.expires x (near_at i) m in
      let b = p.bounded in
      let other : T.time % 256 ≢ i = λ same. absurd (omega arith) in ground arith
  waits x (level_at k j) live m pos = m

  pub Settled-Pending :
      {U : Timer} (x : ℕ)
      → Settled D T U
      → Pending T x
      → 0 < ticks_to T.time (expire T x)
      → Pending U x × (expire U x ≡ expire T x) × (¬ D x → (U.node x).cancel ≡ (T.node x).cancel)
  Settled-Pending x (quiet e u) w pos = rw u (w, refl, λ spared. refl)
  Settled-Pending x (served c) w pos =
      let m = waits x w.at w.live w.among pos in
      (
        record { at = w.at; live = w.live; among = Calls-kept D [] (emptied T) x w.at c m },
        Calls-expire D [] (emptied T) x w.at c m,
        λ spared. Calls-cancel D [] (emptied T) x w.at c spared m,
      )

  -- A pending node that is due now is in the list of the present time.
  pub due_now :
      (x : ℕ) → Pending T x → ticks_to T.time (expire T x) ≡ 0 → Among x (T.near (T.time % 256))
  due_now x w d = go w.at w.live w.among
    where
      go : (s : Slot) → IsLive s → Among x (content T s) → Among x (T.near (T.time % 256))
      go (near_at i) live m =
          let f = p.fits x (near_at i) m tt in
          let e = p.expires x (near_at i) m in
          let b = p.bounded in
          let same : i ≡ T.time % 256 = omega arith in subst (λ j. Among x (T.near j)) same m
      go (level_at k j) live m = absurd (omega (arith, (p.fits x (level_at k j) m live).2))

  -- What is in the list of the present time is due now.
  pub now_due : (x : ℕ) → Among x (T.near (T.time % 256)) → expire T x ≡ T.time
  now_due x m =
      let f = p.fits x (near_at (T.time % 256)) m tt in
      let e = p.expires x (near_at (T.time % 256)) m in let b = p.bounded in omega arith
