-- ===== src/TimeWheel/Stuck.antt =====
-- The first slot of each lower level is filled by add_node and never visited by timer_shift.
use c_c_linux_learning_code.Common.{
  ℕ, zero, suc, ◌%◌, ◌<◌, ◌≡◌, ◌≢◌, inl, inr, sym, subst, arith, List, [], ◌++◌, some, Option-cases,
  Among, Among-append, Returns, returns, Returns-inv,
}
use c_c_linux_learning_code.TimeWheel.{
  Timer, set_level, move_list, timer_shift, timer_execute, after_shift, timer_update, update_loop,
}
use c_c_linux_learning_code.TimeWheel.Slots.{
  Slot, near_at, level_at, content, next, shift_target, shift_target-IsLive,
}
use c_c_linux_learning_code.TimeWheel.Content.{
  add_nodes-only, add_nodes-kept, content-cleared, content-uncleared,
}
use c_c_linux_learning_code.TimeWheel.Placed.{
  IsRested, advanced, content-advanced, shifted, timer_shift_lem, timer_shift-IsPlaced,
}
use c_c_linux_learning_code.TimeWheel.Clients.{
  Calls, idle, adds, dels, add_timer-kept, add_timer-only, content-del_timer,
}
use c_c_linux_learning_code.TimeWheel.Between.{Calls-IsRested}
use c_c_linux_learning_code.TimeWheel.Tick.{
  emptied, emptied-only, Settled, quiet, served, execute_loop-Settled, round_nil,
}
use c_c_linux_learning_code.TimeWheel.Fire.{timer_update-Ticked}

-- The node is in the first slot of one of the three lower levels, and in no other list.
pub record Stuck (T : Timer) (x : ℕ) : Type 0 where
  pub level : ℕ
  pub lower : level < 3
  pub among : Among x (T.t level 0)
  pub only : (s : Slot) → Among x (content T s) → s ≡ level_at level 0

module _ (T : Timer) (x : ℕ) (w : Stuck T x) where
  -- timer_shift moves another list than that of the node.
  shift_target-ne :
      (k j : ℕ) → shift_target (next T.time) ≡ some (k, j) → level_at w.level 0 ≢ level_at k j
  shift_target-ne k j e same =
      let lower = w.lower in
      elim (shift_target-IsLive (next T.time) k j e).1 [
        | inl ne ↦ absurd (ground arith)
        | inr three ↦ absurd (ground arith)
      ]

  moved-Stuck : (k j : ℕ) → level_at w.level 0 ≢ level_at k j → Stuck (move_list (advanced T) k j) x
  unfolding move_list
  moved-Stuck k j ne = record {
    level = w.level;
    lower = w.lower;
    among =
        add_nodes-kept (set_level (advanced T) k j []) (T.t k j) x (level_at w.level 0)
          (content-uncleared (advanced T) k j x (level_at w.level 0) w.among ne);
    only = λ s m. elim (add_nodes-only (set_level (advanced T) k j []) (T.t k j) x s m) [
      | inl old ↦
          w.only s
            (subst (Among x) (content-advanced T s) (content-cleared (advanced T) k j x s old).0)
      | inr (moved, _) ↦ absurd (ne (sym (w.only (level_at k j) moved)))
    ];
  }

  timer_shift-Stuck : Stuck (timer_shift T) x
  unfolding shifted
  timer_shift-Stuck = rw (timer_shift_lem T) (elim (Option-cases (shift_target (next T.time))) [
    | inl e ↦
        rw (e, shifted)
          (record {
            level = w.level;
            lower = w.lower;
            among = w.among;
            only = λ s m. w.only s (subst (Among x) (content-advanced T s) m);
          })
    | inr ((k, j), e) ↦ rw (e, shifted) (moved-Stuck k j (shift_target-ne k j e))
  ])

  -- No list of the near wheel holds the node.
  not_near : (i : ℕ) → ¬ Among x (T.near i)
  not_near i m = let e = w.only (near_at i) m in cc

  emptied-Stuck : Stuck (emptied T) x
  emptied-Stuck = record {
    level = w.level;
    lower = w.lower;
    among = w.among;
    only = λ s m. w.only s (emptied-only T x s m);
  }

Calls-Stuck :
    (D : ℕ → Type 0) (T : Timer) {U : Timer} (x : ℕ) → Calls D [] T U → Stuck T x → Stuck U x
Calls-Stuck D T x idle w = w
Calls-Stuck D T x (adds {U} node time func id c unused free small) w =
    let v = Calls-Stuck D T x c w in
    record {
      level = v.level;
      lower = v.lower;
      among = add_timer-kept U node time func id x (level_at v.level 0) v.among;
      only = λ s m. elim (add_timer-only U node time func id x s m) [
        | inl old ↦ v.only s old
        | inr (e, _, _) ↦
            absurd (unused (level_at v.level 0) (subst (λ y. Among y (U.t v.level 0)) e v.among))
      ];
    }
Calls-Stuck D T x (dels {U} node c d) w =
    let v = Calls-Stuck D T x c w in
    record {
      level = v.level;
      lower = v.lower;
      among = subst (Among x) (sym (content-del_timer U node (level_at v.level 0))) v.among;
      only = λ s m. v.only s (subst (Among x) (content-del_timer U node s) m);
    }

Settled-Stuck :
    (D : ℕ → Type 0) (T : Timer) {U : Timer} (x : ℕ) → Settled D T U → Stuck T x → Stuck U x
Settled-Stuck D T x (quiet e u) w = rw u w
Settled-Stuck D T x (served c) w = Calls-Stuck D (emptied T) x c (emptied-Stuck T x w)

module _ (D : ℕ → Type 0) (others : List ℕ → Timer → Timer)
    (clients : (busy : List ℕ) (U : Timer) → Calls D busy U (others busy U)) where
  timer_update-Stuck :
      (T : Timer) (x : ℕ)
      → IsRested T
      → Stuck T x
      → Returns (λ (called, U). Stuck U x × (¬ Among x called)) (timer_update others T)
  unfolding timer_update after_shift timer_execute
  timer_update-Stuck T x r w =
      let S = timer_shift T in
      let v = timer_shift-Stuck T x w in
      let ((called, U), e, q, k) =
        execute_loop-Settled D others clients S (timer_shift-IsPlaced T r) in
      rw (round_nil D others clients 1 T (T.time % 256) [] r.served, after_shift, e)
        (returns (Settled-Stuck D S x q v, λ m. not_near S x v (S.time % 256) (k.only x m).0))

  -- A node in the first slot of a lower level is not called back within any number of ticks, and is
  -- still there after them.
  pub update_loop-Stuck :
      (n : ℕ) (T : Timer) (before : List ℕ) (x : ℕ)
      → IsRested T
      → Stuck T x
      → ¬ Among x before
      → Returns (λ (called, U). Stuck U x × (¬ Among x called)) (update_loop others n T before)
  unfolding update_loop
  update_loop-Stuck zero T before x r w out = returns (w, out)
  update_loop-Stuck (suc n) T before x r w out =
      let S = others [] T in
      let c = clients [] T in
      let rs = Calls-IsRested D [] T c r in
      let ((more, U), e, t) = Returns-inv (timer_update-Stuck S x rs (Calls-Stuck D T x c w)) in
      let ((more', U'), e', t') = Returns-inv (timer_update-Ticked D others clients S rs) in
      let same : U ≡ U' = cc in
      rw (e, update_loop)
        (update_loop-Stuck n U (before ++ more) x (rw same t'.rested) t.0
          (λ m. elim (Among-append x before more m) [ inl k ↦ out k | inr k ↦ t.1 k ]))
