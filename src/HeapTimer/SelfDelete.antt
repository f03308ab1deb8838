-- ===== src/HeapTimer/SelfDelete.antt =====
-- expire_timer calls the handler before it pops: what that means for a handler that deletes the
-- timer with which it was called.
use c_c_linux_learning_code.Common.{
  zero, suc, ltb, Returns-if, suc, ◌≤◌, length, ◌<◌, ℕ, ◌+◌, ◌-◌, ◌≡◌, inl, inr, some, arith, ◌==◌,
  Bool-cases, Returns, returns, Returns-bind, Returns-map, ◌>>=◌,
}
use c_c_linux_learning_code.MinHeap.{MinHeap, pop}
use c_c_linux_learning_code.MinHeap.Order.{time, IsValid, Holds}
use c_c_linux_learning_code.MinHeap.Remove.{top-least, pop-empty, pop-Removed}
use c_c_linux_learning_code.HeapTimer.{Callback, del_timer, expire_loop, expire_timer}
use c_c_linux_learning_code.HeapTimer.Add.{del_timer-Removed}

-- A handler `void h(timer_entry_t *te) { del_timer(te); }`.
abbrev pub self_deleting : Callback
self_deleting handler te s = do q ← del_timer s te; some q.1

pop_shrinks : (s : MinHeap) → IsValid s → Returns (λ (e, r). IsValid r × (r.n ≡ s.n - 1)) (pop s)
pop_shrinks s v = elim (Bool-cases (s.n == 0)) [
  | inl e ↦ rw (pop-empty s (ground arith)) (returns (v, ground arith))
  | inr e ↦ Returns-map (pop-Removed s v (ground arith)) λ q h. (h.2.2.valid, omega (arith, h.2.0))
]

-- The handler takes one entry out, before the pop.
handler_shrinks :
    (h te : ℕ) (s : MinHeap)
    → IsValid s
    → Holds s te
    → Returns (λ r. IsValid r × (r.n + 1 ≡ s.n)) (self_deleting h te s)
handler_shrinks h te s v k =
    Returns-bind (del_timer-Removed s te v k) λ q removed. returns (removed.1.2.valid, removed.1.0)

expire_loop-lost :
    (f cur : ℕ) (s : MinHeap)
    → IsValid s
    → s.n < f
    → Returns
        (λ (fired, r).
          (length fired + r.n ≤ s.n) × (1 < s.n → time s (s.p 0) ≤ cur → length fired + r.n < s.n))
        (expire_loop self_deleting f cur s)
unfolding expire_loop
expire_loop-lost zero cur s v h = absurd (omega arith)
expire_loop-lost (suc f) cur s v h = elim (top-least s v) [
  | inl (none_left, e) ↦ rw e (returns (omega arith, λ p. omega arith))
  | inr (pos, e, held, least) ↦ rw e (
      Returns-if (ltb cur (time s (s.p 0)))
        (λ early. returns (omega arith, λ p q. absurd (ground arith)))
        (λ now. Returns-bind (handler_shrinks (s.entry (s.p 0)).handler (s.p 0) s v held) λ s1 k1.
          Returns-bind (pop_shrinks s1 k1.0) λ (x, s2) k2.
            Returns-bind (expire_loop-lost f cur s2 k2.0 (omega (arith, k1.1, k2.1)))
              λ (fired, r) q.
                returns (omega (arith, q.0, k1.1, k2.1), λ p o. omega (arith, q.0, k1.1, k2.1))))
]

-- With a handler that deletes its own timer, on a valid heap of two timers or more of which one is
-- due, expire_timer ends without a fault and loses a timer: fewer are fired or left in the heap
-- than the heap held.
pub expire_timer_lost :
    (s : MinHeap) (cur : ℕ)
    → IsValid s
    → 1 < s.n
    → time s (s.p 0) ≤ cur
    → Returns (λ (fired, r). length fired + r.n < s.n) (expire_timer self_deleting s cur)
unfolding expire_timer
expire_timer_lost s cur v h due =
    Returns-map (expire_loop-lost (s.n + 1) cur s v (omega arith)) λ q k. k.1 h due
