-- ===== src/RedBlack/Shapes.antt =====
-- A left rotation in memory rotates the shape.
use c_c_linux_learning_code.Common.{
  ℕ, ◌≡◌, ◌≢◌, refl, sym, ap, ◌∙◌, subst, some, List, [], ◌∷◌, ◌++◌, All, All-append_left,
  All-append_right, All-map, All-zip,
}
use mathlib.Core.List.{append_assoc}
use c_c_linux_learning_code.RedBlack.{Color, Tree, left_rotate}
use c_c_linux_learning_code.RedBlack.Linked.{Shape, leaf, branch, addresses, keys, IsLinked}
use c_c_linux_learning_code.RedBlack.Rotate.{Rotated, left_rotate-Rotated}

abbrev pub IsDistinct : List ℕ → Type 0
IsDistinct [] = Unit
IsDistinct (x ∷ xs) = All (λ y. x ≢ y) xs × IsDistinct xs

IsDistinct-append :
    (xs ys : List ℕ)
    → IsDistinct (xs ++ ys)
    → IsDistinct xs × IsDistinct ys × All (λ a. All (λ b. a ≢ b) ys) xs
IsDistinct-append [] ys h = (tt, h, tt)
IsDistinct-append (x ∷ xs) ys h =
    let (first, last, cross) = IsDistinct-append xs ys h.1 in
    (
      (All-append_left (λ y. x ≢ y) xs ys h.0, first),
      last,
      (All-append_right (λ y. x ≢ y) xs ys h.0, cross),
    )

-- Memory that the shape does not use does not matter.
IsLinked-frame :
    (t t' : Tree) (s : Shape) (p a : ℕ)
    → t'.nil ≡ t.nil
    → All (λ x. t'.node x ≡ t.node x) (addresses s)
    → IsLinked t s p a
    → IsLinked t' s p a
IsLinked-frame t t' leaf p a end same h = h ∙ sym end
IsLinked-frame t t' (branch b c k l r) p a end same h =
    let later = All-append_right (λ x. t'.node x ≡ t.node x) (addresses l) (b ∷ addresses r) same in
    let left = All-append_left (λ x. t'.node x ≡ t.node x) (addresses l) (b ∷ addresses r) same in
    let here = later.0 in
    (
      h.0,
      h.1,
      (λ e. h.2 (e ∙ end)),
      ap (λ n. n.color) here ∙ h.3,
      ap (λ n. n.key) here ∙ h.4,
      ap (λ n. n.parent) here ∙ h.5,
      subst (IsLinked t' l b) (sym (ap (λ n. n.left) here))
          (IsLinked-frame t t' l b (t.node b).left end left h.6),
      subst (IsLinked t' r b) (sym (ap (λ n. n.right) here))
          (IsLinked-frame t t' r b (t.node b).right end later.1 h.7),
    )

-- What holds of all addresses holds of the root.
root-All :
    (P : ℕ → Type 0) (t : Tree) (s : Shape) (p a : ℕ)
    → IsLinked t s p a
    → All P (addresses s)
    → a ≢ t.nil
    → P a
root-All P t leaf p a h all some_node = absurd (some_node h)
root-All P t (branch b c k l r) p a h all some_node =
    subst P (sym h.0) (All-append_right P (addresses l) (b ∷ addresses r) all).0

root-nonzero : (t : Tree) (s : Shape) (p a : ℕ) → t.nil ≢ 0 → IsLinked t s p a → a ≢ 0
root-nonzero t leaf p a end h = λ e. end (sym h ∙ e)
root-nonzero t (branch b c k l r) p a end h = λ e. h.1 (sym h.0 ∙ e)

-- The root gets another parent.
IsLinked-parent :
    (t t' : Tree) (s : Shape) (p q a : ℕ)
    → t'.nil ≡ t.nil
    → IsDistinct (addresses s)
    → (a ≢ t.nil → t'.node a ≡ record (t.node a) { parent = q })
    → All (λ x. x ≢ a → t'.node x ≡ t.node x) (addresses s)
    → IsLinked t s p a
    → IsLinked t' s q a
IsLinked-parent t t' leaf p q a end distinct root same h = h ∙ sym end
IsLinked-parent t t' (branch b c k l r) p q a end distinct root same h =
    let here : t'.node b ≡ record (t.node b) { parent = q } =
      subst (λ x. t'.node x ≡ record (t.node x) { parent = q }) h.0
        (root (λ e. h.2 (sym h.0 ∙ e))) in
    let (dl, dr, cross) = IsDistinct-append (addresses l) (b ∷ addresses r) distinct in
    let Kept : ℕ → Type 0 = λ x. t'.node x ≡ t.node x in
    let left : All (λ x. t'.node x ≡ t.node x) (addresses l) =
      All-map (λ x. (x ≢ a → Kept x) × All (λ y. x ≢ y) (b ∷ addresses r)) Kept (addresses l)
        (λ x k. k.0 (λ e. k.1.0 (e ∙ h.0)))
        (All-zip (λ x. x ≢ a → Kept x) (λ x. All (λ y. x ≢ y) (b ∷ addresses r)) (addresses l)
          (All-append_left (λ x. x ≢ a → Kept x) (addresses l) (b ∷ addresses r) same) cross) in
    let right : All (λ x. t'.node x ≡ t.node x) (addresses r) =
      All-map (λ x. (x ≢ a → Kept x) × (b ≢ x)) Kept (addresses r)
        (λ x k. k.0 (λ e. k.1 (sym (e ∙ h.0))))
        (All-zip (λ x. x ≢ a → Kept x) (λ x. b ≢ x) (addresses r)
          (All-append_right (λ x. x ≢ a → Kept x) (addresses l) (b ∷ addresses r) same).1 dr.0) in
    (
      h.0,
      h.1,
      (λ e. h.2 (e ∙ end)),
      ap (λ n. n.color) here ∙ h.3,
      ap (λ n. n.key) here ∙ h.4,
      ap (λ n. n.parent) here,
      subst (IsLinked t' l b) (sym (ap (λ n. n.left) here))
          (IsLinked-frame t t' l b (t.node b).left end left h.6),
      subst (IsLinked t' r b) (sym (ap (λ n. n.right) here))
          (IsLinked-frame t t' r b (t.node b).right end right h.7),
    )

root-differs :
    (x : ℕ) (t : Tree) (s : Shape) (p a : ℕ)
    → x ≢ t.nil
    → IsLinked t s p a
    → All (λ y. x ≢ y) (addresses s)
    → x ≢ a
root-differs x t leaf p a some_node h all e = some_node (e ∙ h)
root-differs x t (branch b c k l r) p a some_node h all e =
    (All-append_right (λ y. x ≢ y) (addresses l) (b ∷ addresses r) all).0 (e ∙ h.0)

All-under : {C : Type 0} (P : ℕ → Type 0) (xs : List ℕ) → (C → All P xs) → All (λ a. C → P a) xs
All-under P [] h = tt
All-under P (x ∷ xs) h = ((λ c. (h c).0), All-under P xs (λ c. (h c).1))

All-apply : (P Q : ℕ → Type 0) (xs : List ℕ) → All (λ a. P a → Q a) xs → All P xs → All Q xs
All-apply P Q [] h k = tt
All-apply P Q (x ∷ xs) h k = (h.0 k.0, All-apply P Q xs h.1 k.1)

-- The nodes that a rotation keeps.
module _ (t t' : Tree) (x y b p : ℕ) (k : Rotated t t' x y b p) where
  kept_but :
      (xs : List ℕ)
      → All (λ a. x ≢ a) xs
      → All (λ a. y ≢ a) xs
      → All (λ a. p ≢ a) xs
      → All (λ a. (b ≢ t.nil → a ≢ b) → t'.node a ≡ t.node a) xs
  kept_but [] hx hy hp = tt
  kept_but (a ∷ xs) hx hy hp = (
    (λ child.
        k.others a (λ e. hx.0 (sym e)) (λ e. hy.0 (sym e)) child (λ some_parent e. hp.0 (sym e))),
    kept_but xs hx.1 hy.1 hp.1,
  )

  kept :
      (xs : List ℕ)
      → All (λ a. x ≢ a) xs
      → All (λ a. y ≢ a) xs
      → All (λ a. p ≢ a) xs
      → (b ≢ t.nil → All (λ a. a ≢ b) xs)
      → All (λ a. t'.node a ≡ t.node a) xs
  kept xs hx hy hp hb =
      All-apply (λ a. b ≢ t.nil → a ≢ b) (λ a. t'.node a ≡ t.node a) xs (kept_but xs hx hy hp)
        (All-under (λ a. a ≢ b) xs hb)

  -- The lower node of the rotation, and the upper one.
  Rotated-IsLinked :
      (cx cy : Color) (kx ky : ℕ) (l m r : Shape) (q : ℕ)
      → IsLinked t (branch x cx kx l (branch y cy ky m r)) q x
      → (t.node y).left ≡ b
      → IsDistinct (addresses m)
      → All (λ a. t'.node a ≡ t.node a) (addresses l)
      → All (λ a. a ≢ b → t'.node a ≡ t.node a) (addresses m)
      → All (λ a. t'.node a ≡ t.node a) (addresses r)
      → IsLinked t' (branch y cy ky (branch x cx kx l m) r) p y
  Rotated-IsLinked cx cy kx ky l m r q h eb dm kept_l kept_m kept_r =
      let below : IsLinked t' (branch x cx kx l m) y x = (
        refl,
        h.1,
        (λ e. h.2 (e ∙ k.nil)),
        ap (λ n. n.color) k.at_x ∙ h.3,
        ap (λ n. n.key) k.at_x ∙ h.4,
        ap (λ n. n.parent) k.at_x,
        subst (IsLinked t' l x) (sym (ap (λ n. n.left) k.at_x))
            (IsLinked-frame t t' l x (t.node x).left k.nil kept_l h.6),
        subst (IsLinked t' m x) (sym (ap (λ n. n.right) k.at_x))
            (IsLinked-parent t t' m y x b k.nil dm k.at_b kept_m (subst (IsLinked t m y) eb h.7.6)),
      ) in
      (
        refl,
        h.7.1,
        (λ e. h.7.2 (e ∙ k.nil)),
        ap (λ n. n.color) k.at_y ∙ h.7.3,
        ap (λ n. n.key) k.at_y ∙ h.7.4,
        ap (λ n. n.parent) k.at_y,
        subst (IsLinked t' (branch x cx kx l m) y) (sym (ap (λ n. n.left) k.at_y)) below,
        subst (IsLinked t' r y) (sym (ap (λ n. n.right) k.at_y))
            (IsLinked-frame t t' r y (t.node y).right k.nil kept_r h.7.7),
      )

-- For a node with a right child at the root of a shape in memory, anywhere in the tree, where the
-- addresses of the shape and of the parent are distinct and neither the parent nor nil is NULL:
-- rbtree_left_rotate ends without a fault, the memory then holds the rotated shape below the same
-- parent, with the colors and keys of its nodes and the keys in the same order. The root of the
-- tree is the upper node now if the parent is nil; otherwise the child pointer of the parent is;
-- all other nodes are as they were.
pub left_rotate-IsLinked :
    (t : Tree) (x y p : ℕ) (cx cy : Color) (kx ky : ℕ) (l m r : Shape)
    → t.nil ≢ 0
    → p ≢ 0
    → IsLinked t (branch x cx kx l (branch y cy ky m r)) p x
    → IsDistinct (p ∷ addresses (branch x cx kx l (branch y cy ky m r)))
    → (t' : Tree) × (left_rotate t x ≡ some t')
      × IsLinked t' (branch y cy ky (branch x cx kx l m) r) p y
      × (keys (branch y cy ky (branch x cx kx l m) r)
          ≡ keys (branch x cx kx l (branch y cy ky m r)))
      × Rotated t t' x y (t.node y).left p
left_rotate-IsLinked t x y p cx cy kx ky l m r some_nil some_p h distinct =
    let right = h.7 in
    let ey : (t.node x).right ≡ y = h.7.0 in
    let child = (t.node y).left in
    let at_child : IsLinked t m y child = h.7.6 in
    let (dl, dx, cross_l) =
      IsDistinct-append (addresses l) (x ∷ (addresses m ++ y ∷ addresses r)) distinct.1 in
    let (dm, dy, cross_m) = IsDistinct-append (addresses m) (y ∷ addresses r) dx.1 in
    let x_m = All-append_left (λ a. x ≢ a) (addresses m) (y ∷ addresses r) dx.0 in
    let x_y = All-append_right (λ a. x ≢ a) (addresses m) (y ∷ addresses r) dx.0 in
    let p_x =
      All-append_right (λ a. p ≢ a) (addresses l) (x ∷ (addresses m ++ y ∷ addresses r))
        distinct.0 in
    let p_m = All-append_left (λ a. p ≢ a) (addresses m) (y ∷ addresses r) p_x.1 in
    let p_y = All-append_right (λ a. p ≢ a) (addresses m) (y ∷ addresses r) p_x.1 in
    let p_l =
      All-append_left (λ a. p ≢ a) (addresses l) (x ∷ (addresses m ++ y ∷ addresses r))
        distinct.0 in
    let y_m =
      All-map (λ a. All (λ z. a ≢ z) (y ∷ addresses r)) (λ a. y ≢ a) (addresses m)
        (λ a q e. q.0 (sym e)) cross_m in
    let xb : x ≢ child = root-differs x t m y child h.2 at_child x_m in
    let yb : y ≢ child = root-differs y t m y child h.7.2 at_child y_m in
    let pb : child ≢ t.nil → p ≢ child = root-All (λ a. p ≢ a) t m y child at_child p_m in
    let (t', run, k) =
      left_rotate-Rotated t x y child p h.1 h.7.1 (root-nonzero t m y child some_nil at_child)
        some_p ey refl h.5 x_y.0 xb yb (λ e. p_x.0 (sym e)) (λ e. p_y.0 (sym e)) pb in
    let y_l =
      All-map (λ a. All (λ z. a ≢ z) (x ∷ (addresses m ++ y ∷ addresses r))) (λ a. y ≢ a)
        (addresses l)
        (λ a q e. (All-append_right (λ z. a ≢ z) (addresses m) (y ∷ addresses r) q.1).0 (sym e))
        cross_l in
    let x_l =
      All-map (λ a. All (λ z. a ≢ z) (x ∷ (addresses m ++ y ∷ addresses r))) (λ a. x ≢ a)
        (addresses l) (λ a q e. q.0 (sym e)) cross_l in
    let child_l : child ≢ t.nil → All (λ a. a ≢ child) (addresses l) = λ some_child.
      All-map (λ a. All (λ z. a ≢ z) (x ∷ (addresses m ++ y ∷ addresses r))) (λ a. a ≢ child)
        (addresses l)
        (λ a q.
          root-All (λ z. a ≢ z) t m y child at_child
            (All-append_left (λ z. a ≢ z) (addresses m) (y ∷ addresses r) q.1) some_child)
        cross_l in
    let child_r : child ≢ t.nil → All (λ a. a ≢ child) (addresses r) = λ some_child.
      All-map (λ a. child ≢ a) (λ a. a ≢ child) (addresses r) (λ a q e. q (sym e))
        (root-All (λ z. All (λ a. z ≢ a) (y ∷ addresses r)) t m y child at_child cross_m
          some_child).1 in
    let kept_m =
      All-map (λ a. (child ≢ t.nil → a ≢ child) → t'.node a ≡ t.node a)
        (λ a. a ≢ child → t'.node a ≡ t.node a) (addresses m)
        (λ a same differs. same (λ some_child. differs))
        (kept_but t t' x y child p k (addresses m) x_m y_m p_m) in
    (
      t',
      run,
      Rotated-IsLinked t t' x y child p k cx cy kx ky l m r p h refl dm
          (kept t t' x y child p k (addresses l) x_l y_l p_l child_l) kept_m
          (kept t t' x y child p k (addresses r) x_y.1 dy.0 p_y.1 child_r),
      append_assoc (keys l) (kx ∷ keys m) (ky ∷ keys r),
      k,
    )
