-- ===== src/RedBlack.antt =====
-- 1.1.1红黑树/main.cpp: the red-black tree: the functions that read it, and the left rotation. Nodes are memory, NULL is the
-- address 0 and an access through it is a fault. A key is an int, here its distance from the least one.
pub mod Linked
pub mod Search
pub mod Order
pub mod Rotate
pub mod Shapes
mod Tests
use c_c_linux_learning_code.Common.{
  update, ℕ, zero, suc, Bool, true, false, Option, none, some, List, [], ◌∷◌, ◌++◌, ◌==◌, ltb,
  if◌then◌else◌, ◌>>=◌,
}

pub data Color : Type 0 where
  red black : Color

pub record Node : Type 0 where
  pub color : Color
  pub left : ℕ
  pub right : ℕ
  pub parent : ℕ
  pub key : ℕ
  pub value : ℕ

-- `node` is the memory of the nodes, the one at `nil` included.
pub record Tree : Type 0 where
  pub root : ℕ
  pub nil : ℕ
  pub node : ℕ → Node

unfoldable pub load_node : Tree → ℕ → Option Node
load_node t zero = none
load_node t (suc a) = some (t.node (suc a))

-- The loop of rbtree_search. The first argument bounds the rounds, here and below.
unfoldable pub search_below : ℕ → Tree → ℕ → ℕ → Option ℕ
unfolding load_node
search_below zero t key a = none
search_below (suc n) t key a =
    let below : Option ℕ = do
      here ← load_node t a
      let left = search_below n t key here.left
      let right = search_below n t key here.right
      if ltb key here.key then left else if ltb here.key key then right else some a
    in if a == t.nil then some t.nil else below

unfoldable pub search : ℕ → Tree → ℕ → Option ℕ
unfolding search_below
search n t key = search_below n t key t.root

unfoldable pub mini : ℕ → Tree → ℕ → Option ℕ
unfolding load_node
mini zero t x = none
mini (suc n) t x = do
  here ← load_node t x
  let next = mini n t here.left
  if here.left == t.nil then some x else next

unfoldable pub maxi : ℕ → Tree → ℕ → Option ℕ
unfolding load_node
maxi zero t x = none
maxi (suc n) t x = do
  here ← load_node t x
  let next = maxi n t here.right
  if here.right == t.nil then some x else next

-- The keys and colors that rbtree_traversal prints.
unfoldable pub traversal : ℕ → Tree → ℕ → Option (List (ℕ × Color))
unfolding load_node
traversal zero t a = none
traversal (suc n) t a =
    let below : Option (List (ℕ × Color)) = do
      here ← load_node t a
      first ← traversal n t here.left
      last ← traversal n t here.right
      some (first ++ (here.key, here.color) ∷ last)
    in if a == t.nil then some [] else below

-- A write of the node at an address that was accessed.
unfoldable pub write_node : Tree → ℕ → Node → Tree
write_node t a n = record t { node = update t.node a n }

unfoldable pub set_left : Tree → ℕ → ℕ → Option Tree
unfolding load_node write_node
set_left t a v = load_node t a >>= λ n. some (write_node t a (record n { left = v }))

unfoldable pub set_right : Tree → ℕ → ℕ → Option Tree
unfolding load_node write_node
set_right t a v = load_node t a >>= λ n. some (write_node t a (record n { right = v }))

unfoldable pub set_parent : Tree → ℕ → ℕ → Option Tree
unfolding load_node write_node
set_parent t a v = load_node t a >>= λ n. some (write_node t a (record n { parent = v }))

-- The second part of the rotation: the node `y` takes the place of `x` below the parent of `x`.
unfoldable pub replace : Tree → ℕ → ℕ → Option Tree
unfolding load_node set_left set_right set_parent
replace t x y = do
  nx ← load_node t x
  t1 ← set_parent t y nx.parent
  nx1 ← load_node t1 x
  let below : Option Tree = do
    np ← load_node t1 nx1.parent
    let left = set_left t1 nx1.parent y
    let right = set_right t1 nx1.parent y
    if x == np.left then left else right
  if nx1.parent == t1.nil then some (record t1 { root = y }) else below

-- The first part of the rotation: the left child of `y` becomes the right one of `x`.
unfoldable pub take_left : Tree → ℕ → ℕ → Option Tree
unfolding load_node set_right set_parent
take_left t x y = do
  ny ← load_node t y
  t1 ← set_right t x ny.left
  ny1 ← load_node t1 y
  let given = set_parent t1 ny1.left x
  if ny1.left == t1.nil then some t1 else given

unfoldable pub left_rotate : Tree → ℕ → Option Tree
unfolding load_node set_left set_parent
left_rotate t x = do
  nx ← load_node t x
  t1 ← take_left t x nx.right
  t2 ← replace t1 x nx.right
  t3 ← set_left t2 nx.right x
  set_parent t3 x nx.right
