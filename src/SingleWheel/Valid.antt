-- ===== src/SingleWheel/Valid.antt =====
-- A valid wheel, and what a check of a list makes of it.
use c_c_linux_learning_code.Common.{
  ℕ, zero, suc, ◌+◌, ◌%◌, ◌≤◌, ◌<◌, ◌≡◌, ◌≢◌, refl, sym, ap, subst, arith, false, List, [], ◌==◌,
  update, Among, inl, inr, eq-true, eq-false,
}
use c_c_linux_learning_code.SingleWheel.{Wheel, max_timer, check_list, check_conn}
use c_c_linux_learning_code.SingleWheel.Counts.{
  uses, total, pending, uses-frame, total-change, eq-cases, IsChecked, IsEnough,
  check_list-IsChecked,
}

-- Each counter `used` is the number of the connection's timers; a listed node is marked, and stands
-- in one list only.
pub record IsValid (w : Wheel) : Type 0 where
  pub counts : (c : ℕ) → (w.conn_nodes c).used ≡ pending w c
  pub small : (c : ℕ) → (w.conn_nodes c).used < 256
  pub marked : (s t : ℕ) → Among t (w.tw s) → 0 < (w.timer_nodes t).idx
  pub apart : (s r t : ℕ) → Among t (w.tw s) → Among t (w.tw r) → s ≡ r
  pub iter : w.t_iter < max_timer

total-least : (n slot : ℕ) (g : ℕ → ℕ) → slot < n → g slot ≤ total n g
unfolding total
total-least zero slot g less = absurd (omega arith)
total-least (suc n) slot g less = elim (eq-cases n slot) [
  | inl e ↦ let here : g n ≡ g slot = ap g e in omega arith
  | inr e ↦ let there = total-least n slot g (omega arith) in omega arith
]

valid-IsEnough : (w : Wheel) (slot : ℕ) → IsValid w → slot < 16 → IsEnough w (w.tw slot)
valid-IsEnough w slot v less = λ c.
    let few = total-least 16 slot (λ s. uses w.timer_nodes c (w.tw s)) less in
    let all = v.counts c in (omega arith, v.small c)

emptied : (tw : ℕ → List ℕ) (slot s : ℕ) → slot ≡ s → update tw slot [] s ≡ []
emptied tw slot s e = rw (eq-true e) refl

update-other :
    (tw tw' : ℕ → List ℕ) (slot s : ℕ) → tw' ≡ tw → s ≢ slot → update tw' slot [] s ≡ tw s
update-other tw tw' slot s same other =
    let test : (slot == s) ≡ false = eq-false (λ e. other (sym e)) in rw (test, same) refl

listed-elsewhere :
    (tw tw' : ℕ → List ℕ) (slot s t : ℕ)
    → tw' ≡ tw
    → Among t (update tw' slot [] s)
    → (s ≢ slot) × Among t (tw s)
listed-elsewhere tw tw' slot s t same m = elim (eq-cases slot s) [
  | inl e ↦ absurd (subst (λ ts. Among t ts) (emptied tw' slot s e) m)
  | inr e ↦
      let other : s ≢ slot = λ f. e (sym f) in
      (other, subst (λ ts. Among t ts) (update-other tw tw' slot s same other) m)
]

-- The list is emptied after its check.
emptied-IsValid :
    (w w' : Wheel) (slot : ℕ)
    → slot < 16
    → IsValid w
    → IsChecked w w' (w.tw slot)
    → IsValid (record w' { tw = update w'.tw slot [] })
emptied-IsValid w w' slot less v k =
    let keeps : (s : ℕ) → s ≢ slot → update w'.tw slot [] s ≡ w.tw s =
      λ s other. update-other w.tw w'.tw slot s k.tw other in
    let left : (s t : ℕ) → Among t (update w'.tw slot [] s) → (s ≢ slot) × Among t (w.tw s) =
      λ s t m. listed-elsewhere w.tw w'.tw slot s t k.tw m in
    record {
      counts = λ c.
          let none_left : uses w'.timer_nodes c (update w'.tw slot [] slot) ≡ 0 =
            rw (emptied w'.tw slot slot refl) refl in
          let change =
            total-change 16 slot (λ s. uses w.timer_nodes c (w.tw s))
              (λ s. uses w'.timer_nodes c (update w'.tw slot [] s)) less
              (λ s other.
                rw (keeps s other)
                  (sym (uses-frame w.timer_nodes w'.timer_nodes c (w.tw s) (λ u m. k.node u)))) in
          let used = k.used c in let before = v.counts c in omega arith;
      small = λ c. let used = k.used c in let before = v.small c in omega arith;
      marked = λ s t m.
          let (other, m') = left s t m in
          let same = k.idx t (λ l. other (v.apart s slot t m' l)) in
          let before = v.marked s t m' in rw same before;
      apart = λ s r t m l. v.apart s r t (left s t m).1 (left r t l).1;
      iter = rw k.iter v.iter;
    }

-- The wheel of the next tick.
abbrev pub ticked : Wheel → Wheel
ticked w = record w { tick = (w.tick + 1) % 4294967296 }

ticked-IsValid : (w : Wheel) → IsValid w → IsValid (ticked w)
ticked-IsValid w v = record {
  counts = v.counts;
  small = v.small;
  marked = v.marked;
  apart = v.apart;
  iter = v.iter;
}

pub ticked-IsChecked :
    (w : Wheel)
    → IsValid w
    → IsChecked (ticked w) (check_list (ticked w) (w.tw (w.tick % 16))) (w.tw (w.tick % 16))
ticked-IsChecked w v =
    check_list-IsChecked (ticked w) (w.tw (w.tick % 16))
      (valid-IsEnough (ticked w) (w.tick % 16) (ticked-IsValid w v) (omega arith))

pub check_conn-IsValid : (w : Wheel) → IsValid w → IsValid (check_conn w)
unfolding check_conn
check_conn-IsValid w v =
    emptied-IsValid (ticked w) (check_list (ticked w) (w.tw (w.tick % 16))) (w.tick % 16)
      (omega arith) (ticked-IsValid w v) (ticked-IsChecked w v)
