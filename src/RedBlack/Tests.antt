-- ===== src/RedBlack/Tests.antt =====
-- The theorems on the red-black tree at a tree of three nodes.
use c_c_linux_learning_code.Common.{ℕ, zero, suc, ◌≡◌, refl, arith, some, [], ◌∷◌, IsSortedBy}
use c_c_linux_learning_code.RedBlack.{left_rotate, red, black, Node, Tree, search, traversal}
use c_c_linux_learning_code.RedBlack.Linked.{
  keys, Shape, leaf, branch, entries, IsLinked, IsOrdered,
}
use c_c_linux_learning_code.RedBlack.Rotate.{Rotated}
use c_c_linux_learning_code.RedBlack.Shapes.{left_rotate-IsLinked}
use c_c_linux_learning_code.RedBlack.Search.{Finds, search-Finds}
use c_c_linux_learning_code.RedBlack.Order.{traversal-IsSortedBy}

abbrev node_at : ℕ → Node
node_at zero = record { color = black; left = 0; right = 0; parent = 0; key = 0; value = 0 }
node_at (suc zero) = record { color = red; left = 9; right = 9; parent = 2; key = 13; value = 0 }
node_at (suc (suc zero)) = record {
  color = black;
  left = 1;
  right = 3;
  parent = 9;
  key = 24;
  value = 0;
}
node_at (suc (suc (suc a))) = record {
  color = red;
  left = 9;
  right = 9;
  parent = 2;
  key = 25;
  value = 0;
}

abbrev three : Tree
three = record { root = 2; nil = 9; node = node_at }

abbrev shape : Shape
shape = branch 2 black 24 (branch 1 red 13 leaf leaf) (branch 3 red 25 leaf leaf)

three-IsLinked : IsLinked three shape 9 2
three-IsLinked = (
  refl,
  (λ e. omega arith),
  (λ e. omega arith),
  refl,
  refl,
  refl,
  (refl, (λ e. omega arith), (λ e. omega arith), refl, refl, refl, refl, refl),
  (refl, (λ e. omega arith), (λ e. omega arith), refl, refl, refl, refl, refl),
)

shape-IsOrdered : IsOrdered shape
shape-IsOrdered = ((omega arith, tt), (omega arith, tt), (tt, tt, tt, tt), (tt, tt, tt, tt))

search-Finds_example : Finds three shape 25 (search 3 three 25)
search-Finds_example = search-Finds 3 three 25 shape (omega arith) three-IsLinked shape-IsOrdered

traversal-IsSortedBy_example :
    (traversal 3 three 2 ≡ some ((13, red) ∷ (24, black) ∷ (25, red) ∷ []))
    × IsSortedBy (λ e. e.0) (entries shape)
traversal-IsSortedBy_example =
    traversal-IsSortedBy 3 three shape (omega arith) three-IsLinked shape-IsOrdered

left_rotate-IsLinked_example :
    (t' : Tree) × (left_rotate three 2 ≡ some t')
    × IsLinked t' (branch 3 red 25 (branch 2 black 24 (branch 1 red 13 leaf leaf) leaf) leaf) 9 3
    × (13 ∷ 24 ∷ 25 ∷ [] ≡ keys shape)
    × Rotated three t' 2 3 9 9
left_rotate-IsLinked_example =
    left_rotate-IsLinked three 2 3 9 black red 24 25 (branch 1 red 13 leaf leaf) leaf leaf
      (λ e. omega arith) (λ e. omega arith) three-IsLinked
      (
        ((λ e. omega arith), ((λ e. omega arith), ((λ e. omega arith), tt))),
        (((λ e. omega arith), ((λ e. omega arith), tt)), (((λ e. omega arith), tt), (tt, tt))),
      )
