-- ===== src/RedBlack/Search.antt =====
-- rbtree_search on a search tree in memory.
use c_c_linux_learning_code.Common.{
  All-append, All-map, ◌⊎◌, ℕ, zero, suc, ◌≡◌, ◌≢◌, ◌<◌, refl, sym, ap, ◌∙◌, arith, Bool-cases, inl,
  inr, false, Option, some, ◌∷◌, All, ltb, ◌==◌, eq-false, eq-true,
}
use c_c_linux_learning_code.RedBlack.{Color, Tree, load_node, search_below, search}
use c_c_linux_learning_code.RedBlack.Linked.{
  Shape, leaf, branch, keys, height, IsLinked, IsOrdered, HasKey, load_node-some,
}

-- A node with the key is found, or there is none.
abbrev pub Finds : Tree → Shape → ℕ → Option ℕ → Type 0
Finds t s key o =
    ((x : ℕ) × (o ≡ some x) × HasKey s key x) ⊎ ((o ≡ some t.nil) × All (λ k. key ≢ k) (keys s))

module _ (t : Tree) (key b k : ℕ) (c : Color) (l r : Shape) (v : IsOrdered (branch b c k l r)) where
  Finds-left : (o : Option ℕ) → key < k → Finds t l key o → Finds t (branch b c k l r) key o
  Finds-left o less (inl (x, e, found)) = inl (x, e, inr (inl found))
  Finds-left o less (inr (e, absent)) = inr (
    e,
    All-append (λ x. key ≢ x) (keys l) (k ∷ keys r) absent
        (
          (λ same. omega arith),
          All-map (λ x. k < x) (λ x. key ≢ x) (keys r) (λ x more same. omega arith) v.1,
        ),
  )

  Finds-right : (o : Option ℕ) → k < key → Finds t r key o → Finds t (branch b c k l r) key o
  Finds-right o more (inl (x, e, found)) = inl (x, e, inr (inr found))
  Finds-right o more (inr (e, absent)) = inr (
    e,
    All-append (λ x. key ≢ x) (keys l) (k ∷ keys r)
        (All-map (λ x. x < k) (λ x. key ≢ x) (keys l) (λ x less same. omega arith) v.0)
        ((λ same. omega arith), absent),
  )

pub search_below-Finds :
    (n : ℕ) (t : Tree) (key : ℕ) (s : Shape) (p a : ℕ)
    → height s < n
    → IsLinked t s p a
    → IsOrdered s
    → Finds t s key (search_below n t key a)
unfolding search_below
search_below-Finds zero t key s p a fuel h v = absurd (omega arith)
search_below-Finds (suc n) t key leaf p a fuel h v = inr (rw (eq-true h) refl, tt)
search_below-Finds (suc n) t key (branch b c k l r) p a fuel h v =
    let here : (a == t.nil) ≡ false = eq-false (λ e. h.2 (sym h.0 ∙ e)) in
    let loaded : load_node t a ≡ some (t.node b) = ap (load_node t) h.0 ∙ load_node-some t b h.1 in
    let left = search_below-Finds n t key l b (t.node b).left (omega arith) h.6 v.2 in
    let right = search_below-Finds n t key r b (t.node b).right (omega arith) h.7 v.3 in
    elim (Bool-cases (ltb key k)) [
      | inl less ↦
          rw (here, loaded, h.4, less)
            (Finds-left t key b k c l r v (search_below n t key (t.node b).left) (ground arith)
              left)
      | inr at_least ↦ elim (Bool-cases (ltb k key)) [
        | inl more ↦
            rw (here, loaded, h.4, at_least, more)
              (Finds-right t key b k c l r v (search_below n t key (t.node b).right) (ground arith)
                right)
        | inr at_most ↦
            rw (here, loaded, h.4, at_least, at_most) (inl (a, refl, inl (h.0, ground arith)))
      ]
    ]

-- For a search tree in memory, with links, keys and colors as its shape says, and fuel above its
-- height: rbtree_search ends without a fault and returns a node with the key, or nil where no node
-- has it.
pub search-Finds :
    (n : ℕ) (t : Tree) (key : ℕ) (s : Shape)
    → height s < n
    → IsLinked t s t.nil t.root
    → IsOrdered s
    → Finds t s key (search n t key)
unfolding search
search-Finds n t key s fuel h v = search_below-Finds n t key s t.nil t.root fuel h v
