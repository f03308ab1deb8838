-- ===== src/TimeWheel/Placed.antt =====
-- The invariant of the wheel, and that a tick keeps it.
use c_c_linux_learning_code.Common.{
  ℕ, ◌%◌, ◌<◌, ◌≡◌, ◌≢◌, ◌⊎◌, inl, inr, refl, sym, subst, arith, List, [], Option, none, some,
  Option-cases, Among, ltb, Bool-cases,
}
use c_c_linux_learning_code.TimeWheel.{Timer, set_level, add_nodes, move_list, timer_shift}
use c_c_linux_learning_code.TimeWheel.Slots.{
  Slot-cases, Slot, near_at, level_at, content, expire, slot_for, ticks_to, IsLive, Fits,
  slot_for-Fits, shift_target, shift_target-IsLive, next, Fits-next, slot_for-IsLive,
}
use c_c_linux_learning_code.TimeWheel.Content.{
  add_nodes-time, add_nodes-node, add_nodes-only, add_nodes-kept, add_nodes-new, content-cleared,
  content-uncleared,
}

-- Times have 32 bits, and each node in a live slot is in the right one.
pub record IsPlaced (T : Timer) : Type 0 where
  pub bounded : T.time < 4294967296
  pub expires : (x : ℕ) (s : Slot) → Among x (content T s) → expire T x < 4294967296
  pub fits : (x : ℕ) (s : Slot) → Among x (content T s) → IsLive s → Fits T.time (expire T x) s

-- Between ticks, nothing is left in the list of the present time.
pub record IsRested (T : Timer) : Type 0 where
  pub placed : IsPlaced T
  pub served : T.near (T.time % 256) ≡ []

-- The node is in a list that the wheel will visit.
pub record Pending (T : Timer) (x : ℕ) : Type 0 where
  pub at : Slot
  pub live : IsLive at
  pub among : Among x (content T at)

-- A node that waits in a rested wheel is due at a later tick.
pub later :
    (T : Timer) (x : ℕ) (s : Slot)
    → IsRested T
    → IsLive s
    → Among x (content T s)
    → 0 < ticks_to T.time (expire T x)
later T x (near_at i) r live m = elim (Bool-cases (ltb 0 (ticks_to T.time (expire T x)))) [
  | inl pos ↦ ground arith
  | inr due ↦
      let f = r.placed.fits x (near_at i) m tt in
      let e = r.placed.expires x (near_at i) m in
      let same : i ≡ T.time % 256 = ground (arith, r.placed.bounded) in
      absurd (subst (Among x) r.served (subst (λ j. Among x (T.near j)) same m))
]
later T x (level_at k j) r live m = omega (arith, (r.placed.fits x (level_at k j) m live).2)

module _ (T : Timer) (l : List ℕ) (p : IsPlaced T)
    (known : (x : ℕ) → Among x l → expire T x < 4294967296) where
  pub add_nodes-IsPlaced : IsPlaced (add_nodes T l)
  add_nodes-IsPlaced = record {
    bounded = rw (add_nodes-time T l) p.bounded;
    expires = λ x s m. rw (add_nodes-node T l) (elim (add_nodes-only T l x s m) [
      | inl old ↦ p.expires x s old
      | inr (new, at) ↦ known x new
    ]);
    fits = λ x s m live.
        rw (add_nodes-node T l, add_nodes-time T l)
          (elim (add_nodes-only T l x s m) [
            | inl old ↦ p.fits x s old live
            | inr (new, at) ↦ rw at (slot_for-Fits T.time (expire T x) p.bounded (known x new))
          ]);
  }

-- The wheel at the next time, before any list is moved.
abbrev pub advanced : Timer → Timer
advanced T = record T { time = next T.time }

pub content-advanced : (T : Timer) (s : Slot) → content (advanced T) s ≡ content T s
content-advanced T (near_at i) = refl
content-advanced T (level_at k j) = refl

unfoldable pub shifted : Timer → Option (ℕ × ℕ) → Timer
shifted T none = advanced T
shifted T (some (k, j)) = move_list (advanced T) k j

-- The loop of timer_shift ends within four rounds and moves one list at most.
pub timer_shift_lem : (T : Timer) → timer_shift T ≡ shifted T (shift_target (next T.time))
unfolding timer_shift shift_target shifted
timer_shift_lem T = ground arith

module _ (T : Timer) (r : IsRested T) where
  advanced-Fits :
      (x : ℕ) (s : Slot)
      → Among x (content T s)
      → IsLive s
      → Fits (next T.time) (expire T x) s
        ⊎ ((k : ℕ) × (j : ℕ) × (s ≡ level_at k j) × (shift_target (next T.time) ≡ some (k, j)))
  advanced-Fits x s m live =
      Fits-next T.time (expire T x) s r.placed.bounded (r.placed.expires x s m) live
        (r.placed.fits x s m live) (later T x s r live m)

  quiet-Fits :
      shift_target (next T.time) ≡ none
      → (x : ℕ) (s : Slot) → Among x (content T s)
      → IsLive s
      → Fits (next T.time) (expire T x) s
  quiet-Fits e x s m live = elim (advanced-Fits x s m live) [
    | inl f ↦ f
    | inr (k, j, _, target) ↦ absurd (cc)
  ]

  module _ (k j : ℕ) (target : shift_target (next T.time) ≡ some (k, j)) where
    abbrev cleared : Timer
    cleared = set_level (advanced T) k j []

    cleared-Fits :
        (x : ℕ) (s : Slot)
        → Among x (content T s)
        → s ≢ level_at k j
        → IsLive s
        → Fits (next T.time) (expire T x) s
    cleared-Fits x s m ne live = elim (advanced-Fits x s m live) [
      | inl f ↦ f
      | inr (k', j', e, target') ↦ absurd (ne (cc))
    ]

    uncleared :
        (x : ℕ) (s : Slot)
        → Among x (content cleared s)
        → Among x (content T s) × (s ≢ level_at k j)
    uncleared x s m =
        let c = content-cleared (advanced T) k j x s m in
        (subst (Among x) (content-advanced T s) c.0, c.1)

    cleared-IsPlaced : IsPlaced cleared
    cleared-IsPlaced = record {
      bounded = omega arith;
      expires = λ x s m. r.placed.expires x s (uncleared x s m).0;
      fits = λ x s m live. cleared-Fits x s (uncleared x s m).0 (uncleared x s m).1 live;
    }

    moved-IsPlaced : IsPlaced (move_list (advanced T) k j)
    unfolding move_list
    moved-IsPlaced =
        add_nodes-IsPlaced cleared (T.t k j) cleared-IsPlaced
          (λ x m. r.placed.expires x (level_at k j) m)

    -- A pending node of the moved list goes into a live slot; the others stay.
    moved-Pending : (x : ℕ) → Pending T x → Pending (move_list (advanced T) k j) x
    unfolding move_list
    moved-Pending x p = stays_or_moves p.at p.live p.among (Slot-cases p.at k j)
      where
        stays_or_moves :
            (s : Slot)
            → IsLive s
            → Among x (content T s)
            → (s ≡ level_at k j) ⊎ (s ≢ level_at k j)
            → Pending (add_nodes cleared (T.t k j)) x
        stays_or_moves s live m (inl e) =
            let here : Among x (T.t k j) = subst (λ t. Among x (content T t)) e m in
            record {
              at = slot_for (next T.time) (expire T x);
              live =
                  slot_for-IsLive T.time (expire T x) k j r.placed.bounded
                    (r.placed.expires x (level_at k j) here)
                    (r.placed.fits x (level_at k j) here
                      (shift_target-IsLive (next T.time) k j target).1)
                    target;
              among = add_nodes-new cleared (T.t k j) x here;
            }
        stays_or_moves s live m (inr ne) = record {
          at = s;
          live = live;
          among = add_nodes-kept cleared (T.t k j) x s (
              content-uncleared (advanced T) k j x s
                (subst (Among x) (sym (content-advanced T s)) m) ne);
        }

  -- timer_shift keeps the invariant, and the node that waits still waits.
  pub timer_shift-IsPlaced : IsPlaced (timer_shift T)
  unfolding shifted
  timer_shift-IsPlaced = rw (timer_shift_lem T) (elim (Option-cases (shift_target (next T.time))) [
    | inl e ↦
        rw (e, shifted)
          (record {
            bounded = omega arith;
            expires = λ x s m. r.placed.expires x s (subst (Among x) (content-advanced T s) m);
            fits = λ x s m live. quiet-Fits e x s (subst (Among x) (content-advanced T s) m) live;
          })
    | inr ((k, j), e) ↦ rw (e, shifted) (moved-IsPlaced k j e)
  ])

  pub timer_shift-Pending : (x : ℕ) → Pending T x → Pending (timer_shift T) x
  unfolding shifted
  timer_shift-Pending x p =
      rw (timer_shift_lem T) (elim (Option-cases (shift_target (next T.time))) [
        | inl e ↦
            rw (e, shifted)
              (record {
                at = p.at;
                live = p.live;
                among = subst (Among x) (sym (content-advanced T p.at)) p.among;
              })
        | inr ((k, j), e) ↦ rw (e, shifted) (moved-Pending k j e x p)
      ])

  pub timer_shift-time : (timer_shift T).time ≡ next T.time
  unfolding shifted move_list
  timer_shift-time = rw (timer_shift_lem T) (elim (Option-cases (shift_target (next T.time))) [
    | inl e ↦ rw (e, shifted)
    | inr ((k, j), e) ↦ rw (e, shifted) (add_nodes-time (set_level (advanced T) k j []) (T.t k j))
  ])

  pub timer_shift-node : (timer_shift T).node ≡ T.node
  unfolding shifted move_list
  timer_shift-node = rw (timer_shift_lem T) (elim (Option-cases (shift_target (next T.time))) [
    | inl e ↦ rw (e, shifted)
    | inr ((k, j), e) ↦ rw (e, shifted) (add_nodes-node (set_level (advanced T) k j []) (T.t k j))
  ])
