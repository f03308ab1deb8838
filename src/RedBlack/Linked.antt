-- ===== src/RedBlack/Linked.antt =====
-- The shape of a tree, and the memory that holds it.
use Prim.Native.Nat.{max}
use c_c_linux_learning_code.Common.{
  ◌⊎◌, ℕ, zero, suc, ◌≡◌, ◌≢◌, ◌<◌, refl, some, List, [], ◌∷◌, ◌++◌, All,
}
use c_c_linux_learning_code.RedBlack.{Color, Tree, load_node}

-- A branch has the address, the color and the key of its node.
pub data Shape : Type 0 where
  leaf : Shape
  branch : ℕ → Color → ℕ → Shape → Shape → Shape

abbrev pub addresses : Shape → List ℕ
addresses leaf = []
addresses (branch a c k l r) = addresses l ++ a ∷ addresses r

abbrev pub keys : Shape → List ℕ
keys leaf = []
keys (branch a c k l r) = keys l ++ k ∷ keys r

abbrev pub entries : Shape → List (ℕ × Color)
entries leaf = []
entries (branch a c k l r) = entries l ++ (k, c) ∷ entries r

abbrev pub height : Shape → ℕ
height leaf = 0
height (branch a c k l r) = suc (max (height l) (height r))

-- The node at `a`, with the parent `p`, is the root of the shape in memory.
abbrev pub IsLinked : Tree → Shape → ℕ → ℕ → Type 0
IsLinked t leaf p a = a ≡ t.nil
IsLinked t (branch b c k l r) p a =
    (a ≡ b)
    × (b ≢ 0)
    × (b ≢ t.nil)
    × ((t.node b).color ≡ c)
    × ((t.node b).key ≡ k)
    × ((t.node b).parent ≡ p)
    × IsLinked t l b (t.node b).left
    × IsLinked t r b (t.node b).right

-- A search tree: smaller keys to the left, larger ones to the right.
abbrev pub IsOrdered : Shape → Type 0
IsOrdered leaf = Unit
IsOrdered (branch a c k l r) =
    All (λ x. x < k) (keys l) × All (λ x. k < x) (keys r) × IsOrdered l × IsOrdered r

-- The address of a node with the key.
abbrev pub HasKey : Shape → ℕ → ℕ → Type 0
HasKey leaf key x = ⊥
HasKey (branch a c k l r) key x = ((x ≡ a) × (key ≡ k)) ⊎ (HasKey l key x ⊎ HasKey r key x)

pub load_node-some : (t : Tree) (a : ℕ) → a ≢ 0 → load_node t a ≡ some (t.node a)
unfolding load_node
load_node-some t zero h = absurd (h refl)
load_node-some t (suc a) h = refl
