-- ===== src/MemoryPool/Tests.antt =====
-- Runs of the memory pool at concrete inputs.
use mathlib.Core.Option.{some-injective}
use c_c_linux_learning_code.Common.{ℕ, ◌≡◌, refl, subst, arith, none, some, [], ◌∷◌, inr}
use c_c_linux_learning_code.MemoryPool.{create_pool, Node, Pool, Page, malloc}
use c_c_linux_learning_code.MemoryPool.Used.{IsPool}
use c_c_linux_learning_code.MemoryPool.Reached.{Reached, created, allocated, Reached-IsPool}
use c_c_linux_learning_code.MemoryPool.Back.{GivenBack, malloc-GivenBack}
use c_c_linux_learning_code.MemoryPool.Fresh.{Small, IsNewBlock, malloc-Small}

abbrev head : Node
head = record { at = 8216; end = 12288; last = 8248; quote = 0; failed = 0 }

-- A pool in the page at 8192.
abbrev one_page : Pool
one_page = record { at = 8192; large = []; nodes = head ∷ []; current = 0; freed = [] }

abbrev page : Page
page = record { block = some 16384; junk = head }

one_page-IsPool : IsPool one_page.nodes
one_page-IsPool = (
  record {
    header = omega arith;
    within = omega arith;
    aligned = omega arith;
    address = omega arith;
  },
  (tt, tt),
)

page-IsNewBlock : (b : ℕ) → page.block ≡ some b → IsNewBlock one_page.nodes b
page-IsNewBlock b e =
    subst (IsNewBlock one_page.nodes) (some-injective _ _ e)
      (omega arith, (omega arith, (inr (omega arith), tt)))

malloc-Small_example : Small page 512 one_page (malloc none page one_page 512)
malloc-Small_example =
    malloc-Small none page one_page 512 one_page-IsPool (omega arith) (omega arith) page-IsNewBlock

first_address : (malloc none page one_page 512).0 ≡ some 8256
unfolding malloc
first_address = refl

-- The page has no room for 4064 bytes, so that a new block is opened.
block_address : (malloc none page one_page 4064).0 ≡ some 16416
unfolding malloc
block_address = refl

one_page-Reached : Reached one_page
unfolding create_pool
one_page-Reached = created 8192 0 [] (omega arith) (omega arith) refl

Reached-IsPool_example : IsPool (malloc none page one_page 512).1.nodes
Reached-IsPool_example = Reached-IsPool (allocated none page 512 one_page-Reached page-IsNewBlock)

malloc-GivenBack_example : GivenBack 65536 [] (malloc (some 65536) page one_page 5000)
malloc-GivenBack_example = malloc-GivenBack 65536 page one_page 5000 (omega arith) (omega arith)
