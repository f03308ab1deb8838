-- ===== src/MinHeap/Down.antt =====
-- min_heap_shift_down_.
use native.Mathlib.Numerals.{add-one}
use c_c_linux_learning_code.Common.{
  ℕ, zero, suc, ◌+◌, ◌-◌, ◌*◌, ◌/◌, ◌%◌, ◌≤◌, ◌<◌, ◌≡◌, refl, ◌⊎◌, Bool, true, false, not, arith,
  ltb, leb, ◌==◌, if◌then◌else◌, Returns, returns, Returns-if, Returns-map, Returns-bind,
}
use c_c_linux_learning_code.MinHeap.{
  MinHeap, elem_greater, place, left_is_less, shift_down_loop, shift_down,
}
use c_c_linux_learning_code.MinHeap.Order.{time}
use c_c_linux_learning_code.MinHeap.Hole.{
  Hole, Above, Sifted, Sifted-move, settle, placed, place-ok, load-ok, Hole-down, Above-down,
}

-- The index of a child of `i` that expires first.
pub record LeastChild (s : MinHeap) (i j : ℕ) : Type 0 where
  pub inside : j < s.n
  pub above : (j - 1) / 2 ≡ i
  pub pos : 0 < j
  pub least : (c : ℕ) → 0 < c → c < s.n → (c - 1) / 2 ≡ i → time s (s.p j) ≤ time s (s.p c)

-- The choice that the loop makes between the children.
left_is_less-LeastChild :
    (s : MinHeap) (i : ℕ)
    → s.n ≤ s.a
    → s.n < 2147483648
    → 2 * i + 2 ≤ s.n
    → Returns
        (λ b. LeastChild s i (if b then 2 * i + 1 else 2 * i + 2))
        (left_is_less s (2 * i + 2))
unfolding left_is_less elem_greater
left_is_less-LeastChild s i room small h =
    Returns-if (2 * i + 2 == s.n)
      (λ last. returns (record {
        inside = ground arith;
        above = omega arith;
        pos = omega arith;
        least = λ c p q r. let e : c ≡ 2 * i + 1 = ground arith in rw e (omega arith);
      }))
      (λ more.
        let lt : 2 * i + 2 < s.n = ground arith in
        let back : (2 * i + 2 + 4294967295) % 4294967296 ≡ 2 * i + 1 = omega arith in
        rw (load-ok s (2 * i + 2) (omega arith), back, load-ok s (2 * i + 1) (omega arith))
          (returns (choose (ltb (time s (s.p (2 * i + 1))) (time s (s.p (2 * i + 2)))) refl lt)))
  where
    both : (c : ℕ) → 0 < c → (c - 1) / 2 ≡ i → (c ≡ 2 * i + 1) ⊎ (c ≡ 2 * i + 2)
    both c p q = ground arith

    choose :
        (b : Bool)
        → ltb (time s (s.p (2 * i + 1))) (time s (s.p (2 * i + 2))) ≡ b
        → 2 * i + 2 < s.n
        → LeastChild s i (if b then 2 * i + 1 else 2 * i + 2)
    choose true e lt = record {
      inside = omega arith;
      above = omega arith;
      pos = omega arith;
      least = λ c p q r. ground (arith, both c p r);
    }
    choose false e lt = record {
      inside = omega arith;
      above = omega arith;
      pos = omega arith;
      least = λ c p q r. ground (arith, both c p r);
    }

-- A fitting entry sinks to its place, and the loop ends within its fuel.
shift_down_loop-Sifted :
    (f : ℕ) (s : MinHeap) (i e : ℕ)
    → s.n - i < f
    → Hole s i e
    → Above s i e
    → Returns (Sifted s i e) (shift_down_loop f s i e)
unfolding shift_down_loop elem_greater
shift_down_loop-Sifted zero s i e h v above = absurd (omega arith)
shift_down_loop-Sifted (suc f) s i e h v above =
    let right : 2 * (i + 1) % 4294967296 ≡ 2 * i + 2 = omega (arith, v.inside, v.small) in
    let here : i < s.a = omega (arith, v.inside, v.room) in
    rw right (
      Returns-if (leb (2 * i + 2) s.n)
        (λ some_child.
          Returns-bind (left_is_less-LeastChild s i v.room v.small (ground arith)) λ b l.
            let j = if b then 2 * i + 1 else 2 * i + 2 in
            let back : (if b then (2 * i + 2 + 4294967295) % 4294967296 else 2 * i + 2) ≡ j =
              ground (arith, v.small) in
            rw (back, load-ok s j (omega (arith, l.inside, v.room)), place-ok s i (s.p j) here)
              (Returns-if (not (ltb (time s (s.p j)) (time s e)))
                (λ fits. settle s i e v (λ c p q r. ground (arith, l.least c)) above)
                (λ sinks.
                  let lt : time s (s.p j) < time s e = ground arith in
                  Returns-map
                    (shift_down_loop-Sifted f (placed s i (s.p j)) j e
                      (omega (arith, l.inside, l.above, l.pos))
                      (Hole-down s i e v j l.pos l.inside l.above l.least lt)
                      (Above-down s i e v j l.pos l.inside l.above l.least lt))
                    (λ r q. Sifted-move s i e v j l.inside (omega (arith, l.above, l.pos)) q))))
        (λ leaf. settle s i e v (λ c p q r. ground arith) above))

pub shift_down-Sifted :
    (s : MinHeap) (i e : ℕ) → Hole s i e → Above s i e → Returns (Sifted s i e) (shift_down s i e)
unfolding shift_down
shift_down-Sifted s i e v = shift_down_loop-Sifted (s.n + 1) s i e (omega arith) v

-- With no child within the heap the entry is put into the hole at once.
shift_down_loop-leaf :
    (f : ℕ) (s : MinHeap) (i e : ℕ)
    → 2 * i + 2 < 4294967296
    → s.n < 2 * i + 2
    → shift_down_loop (suc f) s i e ≡ place s i e
unfolding shift_down_loop
shift_down_loop-leaf f s i e small h =
    let right : 2 * (i + 1) % 4294967296 ≡ 2 * i + 2 = omega arith in
    let leaf : leb (2 * i + 2) s.n ≡ false = ground arith in rw (right, leaf)

pub shift_down-leaf :
    (s : MinHeap) (i e : ℕ)
    → 2 * i + 2 < 4294967296
    → s.n < 2 * i + 2
    → shift_down s i e ≡ place s i e
unfolding shift_down
shift_down-leaf s i e small h = rw (shift_down, add-one) (shift_down_loop-leaf s.n s i e small h)
