-- ===== src/MinHeap/Order.antt =====
-- What a heap of timers is, and which entries it holds.
use c_c_linux_learning_code.Common.{ℕ, zero, suc, ◌-◌, ◌/◌, ◌≤◌, ◌<◌, ◌≡◌, arith}
use c_c_linux_learning_code.MinHeap.{MinHeap}

abbrev pub time : MinHeap → ℕ → ℕ
time s e = (s.entry e).time

abbrev pub index : MinHeap → ℕ → ℕ
index s e = (s.entry e).min_heap_idx

-- The slots in use are allocated, each entry in a slot knows its index, and no parent expires
-- after its child. Below 2 ^ 31 slots the computation of a child's index does not wrap.
pub record IsValid (s : MinHeap) : Type 0 where
  pub room : s.n ≤ s.a
  pub small : s.n < 2147483648
  pub indexed : (j : ℕ) → j < s.n → index s (s.p j) ≡ j
  pub ordered : (c : ℕ) → 0 < c → c < s.n → time s (s.p ((c - 1) / 2)) ≤ time s (s.p c)

-- The entry stands in the slot that its index names.
abbrev pub Holds : MinHeap → ℕ → Type 0
Holds s x = (index s x < s.n) × (s.p (index s x) ≡ x)

least_below :
    (k : ℕ) (s : MinHeap) (j : ℕ) → IsValid s → j < k → j < s.n → time s (s.p 0) ≤ time s (s.p j)
least_below zero s j v f h = absurd (omega arith)
least_below (suc k) s zero v f h = omega arith
least_below (suc k) s (suc j) v f h = omega (
  arith,
  v.ordered (suc j) (omega arith) h,
  least_below k s ((suc j - 1) / 2) v (omega arith) (omega arith),
)

pub root_least : (s : MinHeap) (j : ℕ) → IsValid s → j < s.n → time s (s.p 0) ≤ time s (s.p j)
root_least s j v h = least_below (suc j) s j v (omega arith) h
