-- ===== src/TimeWheel/Content.antt =====
-- What add_node and move_list do to the lists of the wheel.
use c_c_linux_learning_code.Common.{
  ℕ, ◌≡◌, ◌≢◌, ◌⊎◌, inl, inr, refl, sym, subst, ap, ◌∙◌, arith, List, [], ◌∷◌, Among, ◌==◌,
  Bool-cases,
}
use c_c_linux_learning_code.TimeWheel.{
  Timer, link, link_near, set_level, link_level, add_node, add_nodes,
}
use c_c_linux_learning_code.TimeWheel.Slots.{Slot, near_at, level_at, content, expire, slot_for}

abbrev pub link_at : Timer → Slot → ℕ → Timer
link_at T (near_at i) a = link_near T i a
link_at T (level_at k j) a = link_level T k j a

pub add_node_lem : (T : Timer) (a : ℕ) → add_node T a ≡ link_at T (slot_for T.time (expire T a)) a
unfolding add_node slot_for
add_node_lem T a = ground arith

pub Among-link : (x a : ℕ) (l : List ℕ) → Among x (link l a) → Among x l ⊎ (x ≡ a)
Among-link x a [] (inl e) = inr e
Among-link x a [] (inr m) = elim m [ ]
Among-link x a (y ∷ l) (inl e) = inl (inl e)
Among-link x a (y ∷ l) (inr m) = ground (arith, Among-link x a l m)

pub Among-link_kept : (x a : ℕ) (l : List ℕ) → Among x l → Among x (link l a)
Among-link_kept x a [] m = elim m [ ]
Among-link_kept x a (y ∷ l) (inl e) = inl e
Among-link_kept x a (y ∷ l) (inr m) = inr (Among-link_kept x a l m)

pub Among-link_new : (a : ℕ) (l : List ℕ) → Among a (link l a)
Among-link_new a [] = inl refl
Among-link_new a (y ∷ l) = inr (Among-link_new a l)

link_at_self : (T : Timer) (s : Slot) (a : ℕ) → content (link_at T s a) s ≡ link (content T s) a
link_at_self T (near_at i) a = ground arith
link_at_self T (level_at k j) a = ground arith

-- The two slots are one, or a write to the first leaves the list of the second.
link_at-cases :
    (T : Timer) (s s' : Slot) (a : ℕ)
    → ((s' ≡ s) × (content (link_at T s a) s' ≡ link (content T s') a))
      ⊎ (content (link_at T s a) s' ≡ content T s')
link_at-cases T (near_at i) (near_at i') a = ground arith
link_at-cases T (near_at i) (level_at k' j') a = inr refl
link_at-cases T (level_at k j) (near_at i') a = inr refl
link_at-cases T (level_at k j) (level_at k' j') a = elim (Bool-cases (k == k')) [
  | inr ne ↦ ground arith
  | inl e ↦ elim (Bool-cases (j == j')) [ inl e' ↦ ground arith | inr ne' ↦ ground arith ]
]

module _ (T : Timer) (a : ℕ) where
  pub add_node-time : (add_node T a).time ≡ T.time
  unfolding add_node
  add_node-time = ground arith

  pub add_node-node : (add_node T a).node ≡ T.node
  unfolding add_node
  add_node-node = ground arith

  -- add_node puts the node into the slot of its time, and nothing else anywhere.
  pub add_node-only :
      (x : ℕ) (s : Slot)
      → Among x (content (add_node T a) s)
      → Among x (content T s) ⊎ ((x ≡ a) × (s ≡ slot_for T.time (expire T a)))
  add_node-only x s m = elim (link_at-cases T (slot_for T.time (expire T a)) s a) [
    | inl (e, l) ↦ elim (Among-link x a (content T s) (rw (← l, ← add_node_lem T a) m)) [
      | inl k ↦ inl k
      | inr k ↦ inr (k, e)
    ]
    | inr l ↦ inl (rw (← l, ← add_node_lem T a) m)
  ]

  pub add_node-kept :
      (x : ℕ) (s : Slot) → Among x (content T s) → Among x (content (add_node T a) s)
  add_node-kept x s m =
      rw (add_node_lem T a) (elim (link_at-cases T (slot_for T.time (expire T a)) s a) [
        | inl (e, l) ↦ rw l (Among-link_kept x a (content T s) m)
        | inr l ↦ rw l m
      ])

  pub add_node-new : Among a (content (add_node T a) (slot_for T.time (expire T a)))
  add_node-new =
      rw (add_node_lem T a, link_at_self T (slot_for T.time (expire T a)) a)
        (Among-link_new a (content T (slot_for T.time (expire T a))))

pub add_nodes-time : (T : Timer) (l : List ℕ) → (add_nodes T l).time ≡ T.time
unfolding add_nodes
add_nodes-time T [] = refl
add_nodes-time T (a ∷ l) = add_nodes-time (add_node T a) l ∙ add_node-time T a

pub add_nodes-node : (T : Timer) (l : List ℕ) → (add_nodes T l).node ≡ T.node
unfolding add_nodes
add_nodes-node T [] = refl
add_nodes-node T (a ∷ l) = add_nodes-node (add_node T a) l ∙ add_node-node T a

pub add_nodes-only :
    (T : Timer) (l : List ℕ) (x : ℕ) (s : Slot)
    → Among x (content (add_nodes T l) s)
    → Among x (content T s) ⊎ (Among x l × (s ≡ slot_for T.time (expire T x)))
unfolding add_nodes
add_nodes-only T [] x s m = inl m
add_nodes-only T (a ∷ l) x s m = elim (add_nodes-only (add_node T a) l x s m) [
  | inl k ↦ elim (add_node-only T a x s k) [
    | inl old ↦ inl old
    | inr (e, at) ↦ inr (inl e, at ∙ ap (λ y. slot_for T.time (expire T y)) (sym e))
  ]
  | inr (k, at) ↦ inr (inr k, rw (add_node-time T a, add_node-node T a) at at)
]

pub add_nodes-kept :
    (T : Timer) (l : List ℕ) (x : ℕ) (s : Slot)
    → Among x (content T s)
    → Among x (content (add_nodes T l) s)
unfolding add_nodes
add_nodes-kept T [] x s m = m
add_nodes-kept T (a ∷ l) x s m = add_nodes-kept (add_node T a) l x s (add_node-kept T a x s m)

slot_for-add_node :
    (T : Timer) (a x : ℕ)
    → slot_for (add_node T a).time (expire (add_node T a) x) ≡ slot_for T.time (expire T x)
slot_for-add_node T a x = rw (add_node-time T a, add_node-node T a)

pub add_nodes-new :
    (T : Timer) (l : List ℕ) (x : ℕ)
    → Among x l
    → Among x (content (add_nodes T l) (slot_for T.time (expire T x)))
unfolding add_nodes
add_nodes-new T [] x m = elim m [ ]
add_nodes-new T (a ∷ l) x (inl e) = add_nodes-kept (add_node T a) l x _ (rw e (add_node-new T a))
add_nodes-new T (a ∷ l) x (inr m) =
    subst (λ at. Among x (content (add_nodes (add_node T a) l) at)) (slot_for-add_node T a x)
      (add_nodes-new (add_node T a) l x m)

-- A slot's list, when the list of the slot `level_at k j` has been taken out.
pub content-cleared :
    (T : Timer) (k j x : ℕ) (s : Slot)
    → Among x (content (set_level T k j []) s)
    → Among x (content T s) × (s ≢ level_at k j)
content-cleared T k j x (near_at i) m = (m, λ e. cc)
content-cleared T k j x (level_at k' j') m = elim (Bool-cases (k == k')) [
  | inr ne ↦ (ground arith, λ e. absurd (ground arith))
  | inl e ↦ elim (Bool-cases (j == j')) [
    | inl e' ↦ absurd (ground arith)
    | inr ne' ↦ (ground arith, λ e. absurd (ground arith))
  ]
]

pub content-uncleared :
    (T : Timer) (k j x : ℕ) (s : Slot)
    → Among x (content T s)
    → s ≢ level_at k j
    → Among x (content (set_level T k j []) s)
content-uncleared T k j x (near_at i) m ne = m
content-uncleared T k j x (level_at k' j') m ne = elim (Bool-cases (k == k')) [
  | inr other ↦ ground arith
  | inl e ↦ elim (Bool-cases (j == j')) [
    | inl e' ↦ absurd (ne (ground arith))
    | inr other ↦ ground arith
  ]
]
