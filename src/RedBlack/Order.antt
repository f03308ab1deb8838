-- ===== src/RedBlack/Order.antt =====
-- rbtree_mini, rbtree_maxi and rbtree_traversal on a search tree in memory.
use c_c_linux_learning_code.Common.{
  All-append_left, All-append_right, ℕ, zero, suc, ◌≡◌, ◌<◌, ◌≤◌, refl, sym, ap, ◌∙◌, subst, arith,
  inl, inr, false, some, List, [], ◌∷◌, ◌++◌, All, All-append, All-map, IsSortedBy, ◌==◌, eq-false,
  eq-true,
}
use c_c_linux_learning_code.RedBlack.{Color, Tree, load_node, mini, maxi, traversal}
use c_c_linux_learning_code.RedBlack.Linked.{
  Shape, leaf, branch, keys, entries, height, IsLinked, IsOrdered, HasKey, load_node-some,
}

-- The node at `x` has the key `k` of the shape.
abbrev pub IsLeast : Shape → ℕ → Type 0
IsLeast s x = (k : ℕ) × HasKey s k x × All (λ j. k ≤ j) (keys s)

abbrev pub IsGreatest : Shape → ℕ → Type 0
IsGreatest s x = (k : ℕ) × HasKey s k x × All (λ j. j ≤ k) (keys s)

-- What holds of all keys holds of the key of a node.
HasKey-All : (P : ℕ → Type 0) (s : Shape) (key x : ℕ) → All P (keys s) → HasKey s key x → P key
HasKey-All P leaf key x h m = elim m [ ]
HasKey-All P (branch a c k l r) key x h (inl m) =
    subst P (sym m.1) (All-append_right P (keys l) (k ∷ keys r) h).0
HasKey-All P (branch a c k l r) key x h (inr (inl m)) =
    HasKey-All P l key x (All-append_left P (keys l) (k ∷ keys r) h) m
HasKey-All P (branch a c k l r) key x h (inr (inr m)) =
    HasKey-All P r key x (All-append_right P (keys l) (k ∷ keys r) h).1 m

pub mini-IsLeast :
    (n : ℕ) (t : Tree) (b : ℕ) (c : Color) (k : ℕ) (l r : Shape) (p : ℕ)
    → height (branch b c k l r) ≤ n
    → IsLinked t (branch b c k l r) p b
    → IsOrdered (branch b c k l r)
    → (x : ℕ) × (mini n t b ≡ some x) × IsLeast (branch b c k l r) x
unfolding mini
mini-IsLeast zero t b c k l r p fuel h v = absurd (omega arith)
mini-IsLeast (suc n) t b c k leaf r p fuel h v =
    let bound = All-map (λ j. k < j) (λ j. k ≤ j) (keys r) (λ j less. omega arith) v.1 in
    (b, rw (load_node-some t b h.1, eq-true h.6) refl, (k, inl (refl, refl), (omega arith, bound)))
mini-IsLeast (suc n) t b c k (branch b' c' k' l' r') r p fuel h v =
    let more : ((t.node b).left == t.nil) ≡ false = eq-false (λ e. h.6.2 (sym h.6.0 ∙ e)) in
    let left = h.6 in
    let at_left = subst (IsLinked t (branch b' c' k' l' r') b) left.0 left in
    let (x, found, (key, has, least)) =
      mini-IsLeast n t b' c' k' l' r' b (omega arith) at_left v.2 in
    let here : key < k = HasKey-All (λ j. j < k) (branch b' c' k' l' r') key x v.0 has in
    let bound = All-map (λ j. k < j) (λ j. key ≤ j) (keys r) (λ j less. omega arith) v.1 in
    (
      x,
      rw (load_node-some t b h.1, more) (ap (mini n t) left.0 ∙ found),
      (
        key,
        inr (inl has),
        All-append (λ j. key ≤ j) (keys (branch b' c' k' l' r')) (k ∷ keys r) least
            (omega arith, bound),
      ),
    )

pub maxi-IsGreatest :
    (n : ℕ) (t : Tree) (b : ℕ) (c : Color) (k : ℕ) (l r : Shape) (p : ℕ)
    → height (branch b c k l r) ≤ n
    → IsLinked t (branch b c k l r) p b
    → IsOrdered (branch b c k l r)
    → (x : ℕ) × (maxi n t b ≡ some x) × IsGreatest (branch b c k l r) x
unfolding maxi
maxi-IsGreatest zero t b c k l r p fuel h v = absurd (omega arith)
maxi-IsGreatest (suc n) t b c k l leaf p fuel h v =
    let bound = All-map (λ j. j < k) (λ j. j ≤ k) (keys l) (λ j less. omega arith) v.0 in
    (
      b,
      rw (load_node-some t b h.1, eq-true h.7) refl,
      (k, inl (refl, refl), All-append (λ j. j ≤ k) (keys l) (k ∷ []) bound (omega arith, tt)),
    )
maxi-IsGreatest (suc n) t b c k l (branch b' c' k' l' r') p fuel h v =
    let more : ((t.node b).right == t.nil) ≡ false = eq-false (λ e. h.7.2 (sym h.7.0 ∙ e)) in
    let right = h.7 in
    let at_right = subst (IsLinked t (branch b' c' k' l' r') b) right.0 right in
    let (x, found, (key, has, greatest)) =
      maxi-IsGreatest n t b' c' k' l' r' b (omega arith) at_right v.3 in
    let here : k < key = HasKey-All (λ j. k < j) (branch b' c' k' l' r') key x v.1 has in
    let bound = All-map (λ j. j < k) (λ j. j ≤ key) (keys l) (λ j less. omega arith) v.0 in
    (
      x,
      rw (load_node-some t b h.1, more) (ap (maxi n t) right.0 ∙ found),
      (
        key,
        inr (inr has),
        All-append (λ j. j ≤ key) (keys l) (k ∷ keys (branch b' c' k' l' r')) bound
            (omega arith, greatest),
      ),
    )

traversal-entries :
    (n : ℕ) (t : Tree) (s : Shape) (p a : ℕ)
    → height s < n
    → IsLinked t s p a
    → traversal n t a ≡ some (entries s)
unfolding traversal
traversal-entries zero t s p a fuel h = absurd (omega arith)
traversal-entries (suc n) t leaf p a fuel h = rw (eq-true h) refl
traversal-entries (suc n) t (branch b c k l r) p a fuel h =
    let here : (a == t.nil) ≡ false = eq-false (λ e. h.2 (sym h.0 ∙ e)) in
    let loaded : load_node t a ≡ some (t.node b) = ap (load_node t) h.0 ∙ load_node-some t b h.1 in
    rw
      (
        here,
        loaded,
        traversal-entries n t l b (t.node b).left (omega arith) h.6,
        traversal-entries n t r b (t.node b).right (omega arith) h.7,
        h.3,
        h.4,
      )
      refl

entries-All : (P : ℕ → Type 0) (s : Shape) → All P (keys s) → All (λ e. P e.0) (entries s)
entries-All P leaf h = tt
entries-All P (branch a c k l r) h =
    let later = All-append_right P (keys l) (k ∷ keys r) h in
    All-append (λ e. P e.0) (entries l) ((k, c) ∷ entries r)
      (entries-All P l (All-append_left P (keys l) (k ∷ keys r) h))
      (later.0, entries-All P r later.1)

IsSortedBy-append :
    (xs ys : List (ℕ × Color)) (m : ℕ)
    → All (λ e. e.0 ≤ m) xs
    → All (λ e. m ≤ e.0) ys
    → IsSortedBy (λ e. e.0) xs
    → IsSortedBy (λ e. e.0) ys
    → IsSortedBy (λ e. e.0) (xs ++ ys)
IsSortedBy-append [] ys m low high first last = last
IsSortedBy-append (x ∷ xs) ys m low high first last = (
  All-append (λ e. x.0 ≤ e.0) xs ys first.0
      (All-map (λ e. m ≤ e.0) (λ e. x.0 ≤ e.0) ys (λ e above. let below = low.0 in omega arith)
        high),
  IsSortedBy-append xs ys m low.1 high first.1 last,
)

entries-IsSortedBy : (s : Shape) → IsOrdered s → IsSortedBy (λ e. e.0) (entries s)
entries-IsSortedBy leaf v = tt
entries-IsSortedBy (branch a c k l r) v =
    let low =
      entries-All (λ j. j ≤ k) l
        (All-map (λ j. j < k) (λ j. j ≤ k) (keys l) (λ j less. omega arith) v.0) in
    let high =
      entries-All (λ j. k ≤ j) r
        (All-map (λ j. k < j) (λ j. k ≤ j) (keys r) (λ j less. omega arith) v.1) in
    IsSortedBy-append (entries l) ((k, c) ∷ entries r) k low (omega arith, high)
      (entries-IsSortedBy l v.2) (high, entries-IsSortedBy r v.3)

-- For a search tree in memory and fuel above its height: rbtree_traversal ends without a fault and
-- prints the key and the color of every node of the shape, in ascending order of the keys.
pub traversal-IsSortedBy :
    (n : ℕ) (t : Tree) (s : Shape)
    → height s < n
    → IsLinked t s t.nil t.root
    → IsOrdered s
    → (traversal n t t.root ≡ some (entries s)) × IsSortedBy (λ e. e.0) (entries s)
traversal-IsSortedBy n t s fuel h v =
    (traversal-entries n t s t.nil t.root fuel h, entries-IsSortedBy s v)
