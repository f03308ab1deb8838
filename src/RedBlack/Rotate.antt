-- ===== src/RedBlack/Rotate.antt =====
-- What the left rotation changes in memory.
use c_c_linux_learning_code.Common.{
  at_other, at_same, ==_iff, ℕ, ◌≡◌, ◌≢◌, refl, sym, ap, ◌∙◌, Bool-cases, inl, inr, some, update,
  ◌==◌, if◌then◌else◌, eq-false, eq-true,
}
use c_c_linux_learning_code.RedBlack.{Node, Tree, take_left, replace, left_rotate}
use c_c_linux_learning_code.RedBlack.Linked.{load_node-some}

-- What take_left leaves in memory: `x` and the child `b` of `y` change.
pub record Taken (t t' : Tree) (x b : ℕ) : Type 0 where
  pub root : t'.root ≡ t.root
  pub nil : t'.nil ≡ t.nil
  pub at_x : t'.node x ≡ record (t.node x) { right = b }
  pub at_b : b ≢ t.nil → t'.node b ≡ record (t.node b) { parent = x }
  pub others : (a : ℕ) → a ≢ x → (b ≢ t.nil → a ≢ b) → t'.node a ≡ t.node a

take_left-Taken :
    (t : Tree) (x y b : ℕ)
    → x ≢ 0
    → y ≢ 0
    → b ≢ 0
    → (t.node y).left ≡ b
    → x ≢ y
    → x ≢ b
    → (t' : Tree) × (take_left t x y ≡ some t') × Taken t t' x b
unfolding take_left
take_left-Taken t x y b hx hy hb e xy xb =
    let n1 = record (t.node x) { right = b } in
    let t1 : Tree = record t { node = update t.node x n1 } in
    elim (Bool-cases (b == t.nil)) [
      | inl end ↦
          let equal : b ≡ t.nil = (==_iff b t.nil).0 end in
          (
            t1,
            rw
                (
                  load_node-some t y hy,
                  e,
                  load_node-some t x hx,
                  load_node-some t1 y hy,
                  eq-false xy,
                  e,
                  end,
                )
                refl,
            record {
              root = refl;
              nil = refl;
              at_x = at_same t.node x n1;
              at_b = λ some_child. absurd (some_child equal);
              others = λ a ax ab. at_other t.node x n1 a (λ same. ax (sym same));
            },
          )
      | inr more ↦
          let n2 = record (t.node b) { parent = x } in
          let t2 : Tree = record t1 { node = update t1.node b n2 } in
          (
            t2,
            rw
                (
                  load_node-some t y hy,
                  e,
                  load_node-some t x hx,
                  load_node-some t1 y hy,
                  eq-false xy,
                  e,
                  more,
                  load_node-some t1 b hb,
                  eq-false xb,
                )
                refl,
            record {
              root = refl;
              nil = refl;
              at_x = at_other t1.node b n2 x (λ same. xb (sym same)) ∙ at_same t.node x n1;
              at_b = λ some_child. at_same t1.node b n2;
              others = λ a ax ab.
                  at_other t1.node b n2 a
                    (λ same. ab (λ end. cc (sym more ∙ eq-true end)) (sym same))
                  ∙ at_other t.node x n1 a (λ same. ax (sym same));
            },
          )
    ]

-- What replace leaves in memory: `y` and its new parent `p` change.
pub record Replaced (t t' : Tree) (x y p : ℕ) : Type 0 where
  pub root : t'.root ≡ (if p == t.nil then y else t.root)
  pub nil : t'.nil ≡ t.nil
  pub at_y : t'.node y ≡ record (t.node y) { parent = p }
  pub at_p :
      p ≢ t.nil
      → t'.node p ≡ (
          if x == (t.node p).left
          then record (t.node p) { left = y }
          else record (t.node p) { right = y })
  pub others : (a : ℕ) → a ≢ y → (p ≢ t.nil → a ≢ p) → t'.node a ≡ t.node a

replace-Replaced :
    (t : Tree) (x y p : ℕ)
    → x ≢ 0
    → y ≢ 0
    → p ≢ 0
    → (t.node x).parent ≡ p
    → y ≢ x
    → y ≢ p
    → (t' : Tree) × (replace t x y ≡ some t') × Replaced t t' x y p
unfolding replace
replace-Replaced t x y p hx hy hp e yx yp =
    let n1 = record (t.node y) { parent = p } in
    let t1 : Tree = record t { node = update t.node y n1 } in
    elim (Bool-cases (p == t.nil)) [
      | inl end ↦
          let equal : p ≡ t.nil = (==_iff p t.nil).0 end in
          (
            record t1 { root = y },
            rw
                (
                  load_node-some t x hx,
                  e,
                  load_node-some t y hy,
                  load_node-some t1 x hx,
                  eq-false yx,
                  e,
                  end,
                )
                refl,
            record {
              root = rw end refl;
              nil = refl;
              at_y = at_same t.node y n1;
              at_p = λ some_parent. absurd (some_parent equal);
              others = λ a ay ap'. at_other t.node y n1 a (λ same. ay (sym same));
            },
          )
      | inr more ↦
          let old = t.node p in
          let n2 = if x == old.left then record old { left = y } else record old { right = y } in
          let t2 : Tree = record t1 { node = update t1.node p n2 } in
          (
            t2,
            elim (Bool-cases (x == old.left)) [
              | inl on_left ↦
                  rw
                    (
                      load_node-some t x hx,
                      e,
                      load_node-some t y hy,
                      load_node-some t1 x hx,
                      eq-false yx,
                      e,
                      more,
                      load_node-some t1 p hp,
                      eq-false yp,
                      on_left,
                    )
                    refl
              | inr on_right ↦
                  rw
                    (
                      load_node-some t x hx,
                      e,
                      load_node-some t y hy,
                      load_node-some t1 x hx,
                      eq-false yx,
                      e,
                      more,
                      load_node-some t1 p hp,
                      eq-false yp,
                      on_right,
                    )
                    refl
            ],
            record {
              root = rw more refl;
              nil = refl;
              at_y = at_other t1.node p n2 y (λ same. yp (sym same)) ∙ at_same t.node y n1;
              at_p = λ some_parent. at_same t1.node p n2;
              others = λ a ay ap'.
                  at_other t1.node p n2 a
                    (λ same. ap' (λ end. cc (sym more ∙ eq-true end)) (sym same))
                  ∙ at_other t.node y n1 a (λ same. ay (sym same));
            },
          )
    ]

-- What a left rotation leaves in memory.
pub record Rotated (t t' : Tree) (x y b p : ℕ) : Type 0 where
  pub root : t'.root ≡ (if p == t.nil then y else t.root)
  pub nil : t'.nil ≡ t.nil
  pub at_x : t'.node x ≡ record (t.node x) { right = b; parent = y }
  pub at_y : t'.node y ≡ record (t.node y) { left = x; parent = p }
  pub at_b : b ≢ t.nil → t'.node b ≡ record (t.node b) { parent = x }
  pub at_p :
      p ≢ t.nil
      → t'.node p ≡ (
          if x == (t.node p).left
          then record (t.node p) { left = y }
          else record (t.node p) { right = y })
  pub others :
      (a : ℕ) → a ≢ x → a ≢ y → (b ≢ t.nil → a ≢ b) → (p ≢ t.nil → a ≢ p) → t'.node a ≡ t.node a

pub left_rotate-Rotated :
    (t : Tree) (x y b p : ℕ)
    → x ≢ 0
    → y ≢ 0
    → b ≢ 0
    → p ≢ 0
    → (t.node x).right ≡ y
    → (t.node y).left ≡ b
    → (t.node x).parent ≡ p
    → x ≢ y
    → x ≢ b
    → y ≢ b
    → x ≢ p
    → y ≢ p
    → (b ≢ t.nil → p ≢ b)
    → (t' : Tree) × (left_rotate t x ≡ some t') × Rotated t t' x y b p
unfolding left_rotate
left_rotate-Rotated t x y b p hx hy hb hp ex ey ep xy xb yb xp yp pb =
    let yx : y ≢ x = λ e. xy (sym e) in
    let (t1, run1, k1) = take_left-Taken t x y b hx hy hb ey xy xb in
    let (t2, run2, k2) =
      replace-Replaced t1 x y p hx hy hp (ap (λ n. n.parent) k1.at_x ∙ ep) yx yp in
    let n3 = record (t2.node y) { left = x } in
    let t3 : Tree = record t2 { node = update t2.node y n3 } in
    let n4 = record (t3.node x) { parent = y } in
    let far : (a : ℕ) → a ≢ x → a ≢ y → update t3.node x n4 a ≡ t2.node a = λ a ax ay.
      at_other t3.node x n4 a (λ e. ax (sym e)) ∙ at_other t2.node y n3 a (λ e. ay (sym e)) in
    let old_y : t1.node y ≡ t.node y = k1.others y yx (λ some_child. yb) in
    let old_p : t1.node p ≡ t.node p = k1.others p (λ e. xp (sym e)) pb in
    let kept_x : t3.node x ≡ record (t.node x) { right = b } =
      at_other t2.node y n3 x yx ∙ (k2.others x xy (λ some_parent. xp) ∙ k1.at_x) in
    (
      record t3 { node = update t3.node x n4 },
      rw (load_node-some t x hx, ex, run1, run2, load_node-some t2 y hy, load_node-some t3 x hx)
          refl,
      record {
        root =
            k2.root
            ∙ (ap (λ n. if p == n then y else t1.root) k1.nil
                ∙ ap (λ r. if p == t.nil then y else r) k1.root);
        nil = k2.nil ∙ k1.nil;
        at_x = at_same t3.node x n4 ∙ ap {A = Node} (λ n. record n { parent = y }) kept_x;
        at_y =
            at_other t3.node x n4 y xy
            ∙ (at_same t2.node y n3
                ∙ ap {A = Node} (λ n. record n { left = x })
                    (k2.at_y ∙ ap {A = Node} (λ n. record n { parent = p }) old_y));
        at_b = λ some_child.
            far b (λ e. xb (sym e)) (λ e. yb (sym e))
            ∙ (k2.others b (λ e. yb (sym e)) (λ some_parent e. pb some_child (sym e))
                ∙ k1.at_b some_child);
        at_p = λ some_parent.
            far p (λ e. xp (sym e)) (λ e. yp (sym e))
            ∙ (k2.at_p (λ e. some_parent (e ∙ k1.nil))
                ∙ ap {A = Node}
                    (λ n. if x == n.left then record n { left = y } else record n { right = y })
                    old_p);
        others = λ a ax ay ab ap'.
            far a ax ay
            ∙ (k2.others a ay (λ some_parent. ap' (λ e. some_parent (e ∙ sym k1.nil)))
                ∙ k1.others a ax ab);
      },
    )
