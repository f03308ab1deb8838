-- ===== src/MinHeap/Up.antt =====
-- min_heap_shift_up_ and min_heap_shift_up_unconditional_.
use c_c_linux_learning_code.Common.{
  ℕ, zero, suc, ◌+◌, ◌-◌, ◌/◌, ◌<◌, ◌≡◌, arith, ltb, Returns, Returns-if, Returns-map,
}
use c_c_linux_learning_code.MinHeap.{
  MinHeap, elem_greater, parent, shift_up_loop, shift_up, shift_up_unconditional,
}
use c_c_linux_learning_code.MinHeap.Order.{time}
use c_c_linux_learning_code.MinHeap.Hole.{
  Hole, Below, Sifted, Sifted-move, settle, placed, place-ok, load-ok, Hole-up, Below-up,
}

-- `(i - 1) / 2` does not wrap past the root.
pub parent-eq : (i : ℕ) → 0 < i → i < 4294967296 → parent i ≡ (i - 1) / 2
parent-eq i h k = omega arith

-- A fitting entry rises to its place, and the loop ends within its fuel.
shift_up_loop-Sifted :
    (f : ℕ) (s : MinHeap) (i e : ℕ)
    → i < f
    → Hole s i e
    → Below s i e
    → Returns (Sifted s i e) (shift_up_loop f s i e)
unfolding shift_up_loop elem_greater
shift_up_loop-Sifted zero s i e h v below = absurd (omega arith)
shift_up_loop-Sifted (suc f) s i e h v below =
    Returns-if (ltb 0 i)
      (λ pos.
        let p : 0 < i = ground arith in
        let j = (i - 1) / 2 in
        let hj : j < s.n = omega (arith, v.inside) in
        rw
          (
            parent-eq i p (omega (arith, v.inside, v.small)),
            load-ok s j (omega (arith, v.room)),
            place-ok s i (s.p j) (omega (arith, v.inside, v.room)),
          )
          (Returns-if (ltb (time s e) (time s (s.p j)))
            (λ less.
              let lt : time s e < time s (s.p j) = ground arith in
              Returns-map
                (shift_up_loop-Sifted f (placed s i (s.p j)) j e (omega arith)
                  (Hole-up s i e v p lt) (Below-up s i e v p lt))
                (λ r q. Sifted-move s i e v j hj (omega arith) q))
            (λ fits. settle s i e v below (λ _. ground arith))))
      (λ root. settle s i e v below (λ q. ground arith))

pub shift_up-Sifted :
    (s : MinHeap) (i e : ℕ) → Hole s i e → Below s i e → Returns (Sifted s i e) (shift_up s i e)
unfolding shift_up
shift_up-Sifted s i e = shift_up_loop-Sifted (i + 1) s i e (omega arith)

-- The variant that makes its first move with no test is called where the parent is greater.
pub shift_up_unconditional-Sifted :
    (s : MinHeap) (i e : ℕ)
    → Hole s i e
    → 0 < i
    → time s e < time s (s.p ((i - 1) / 2))
    → Returns (Sifted s i e) (shift_up_unconditional s i e)
unfolding shift_up_unconditional
shift_up_unconditional-Sifted s i e v p lt =
    let j = (i - 1) / 2 in
    let hj : j < s.n = omega (arith, v.inside) in
    rw
      (
        parent-eq i p (omega (arith, v.inside, v.small)),
        load-ok s j (omega (arith, v.room)),
        place-ok s i (s.p j) (omega (arith, v.inside, v.room)),
      )
      (Returns-map
        (shift_up_loop-Sifted (j + 1) (placed s i (s.p j)) j e (omega arith) (Hole-up s i e v p lt)
          (Below-up s i e v p lt))
        (λ r q. Sifted-move s i e v j hj (omega arith) q))
