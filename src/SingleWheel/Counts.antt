-- ===== src/SingleWheel/Counts.antt =====
-- How many timers a connection has in the wheel, and what a check does to that number.
use c_c_linux_learning_code.Common.{
  ℕ, zero, suc, ◌+◌, ◌%◌, ◌≤◌, ◌<◌, ◌≡◌, ◌≢◌, refl, sym, ap, ◌∙◌, arith, Bool, true, false, List,
  [], ◌∷◌, ◌++◌, ltb, ◌==◌, if◌then◌else◌, Among, count, inl, inr, ◌⊎◌, eq-true, eq-false,
}
use c_c_linux_learning_code.SingleWheel.{TimerNode, Wheel, check_node, check_list}

-- The timers of the connection `c` in a list.
abbrev pub uses : (ℕ → TimerNode) → ℕ → List ℕ → ℕ
uses nodes c [] = 0
uses nodes c (t ∷ ts) = (if (nodes t).node == c then 1 else 0) + uses nodes c ts

unfoldable pub total : ℕ → (ℕ → ℕ) → ℕ
total zero g = 0
total (suc n) g = g n + total n g

-- The timers of the connection in all 16 lists.
abbrev pub pending : Wheel → ℕ → ℕ
pending w c = total 16 (λ slot. uses w.timer_nodes c (w.tw slot))

pub uses-frame :
    (nodes nodes' : ℕ → TimerNode) (c : ℕ) (ts : List ℕ)
    → ((t : ℕ) → Among t ts → (nodes' t).node ≡ (nodes t).node)
    → uses nodes' c ts ≡ uses nodes c ts
uses-frame nodes nodes' c [] same = refl
uses-frame nodes nodes' c (t ∷ ts) same =
    rw (same t (inl refl), uses-frame nodes nodes' c ts (λ u m. same u (inr m))) refl

pub uses-append :
    (nodes : ℕ → TimerNode) (c : ℕ) (ts us : List ℕ)
    → uses nodes c (ts ++ us) ≡ uses nodes c ts + uses nodes c us
uses-append nodes c [] us = omega arith
uses-append nodes c (t ∷ ts) us = omega (arith, uses-append nodes c ts us)

pub total-same : (n : ℕ) (g h : ℕ → ℕ) → ((s : ℕ) → s < n → g s ≡ h s) → total n g ≡ total n h
unfolding total
total-same zero g h same = refl
total-same (suc n) g h same =
    let here = same n (omega arith) in
    let there = total-same n g h (λ s less. same s (omega arith)) in omega arith

pub eq-cases : (a b : ℕ) → (a ≡ b) ⊎ (a ≢ b)
eq-cases a b = ground arith

-- Where all slots but one count the same.
pub total-change :
    (n slot : ℕ) (g h : ℕ → ℕ)
    → slot < n
    → ((s : ℕ) → s ≢ slot → g s ≡ h s)
    → total n g + h slot ≡ total n h + g slot
unfolding total
total-change zero slot g h less same = absurd (omega arith)
total-change (suc n) slot g h less same = elim (eq-cases n slot) [
  | inl e ↦
      let there = total-same n g h (λ s below. same s (omega arith)) in
      let left : g n ≡ g slot = ap g e in let right : h n ≡ h slot = ap h e in omega arith
  | inr e ↦
      let here = same n e in let there = total-change n slot g h (omega arith) same in omega arith
]

-- Whether the check of `n` timers of a connection with the counter `used` reports it as down.
abbrev pub kills : ℕ → ℕ → ℕ
kills n used = if ltb 0 n then (if used == n then 1 else 0) else 0

-- What the check of a list does.
pub record IsChecked (w w' : Wheel) (ts : List ℕ) : Type 0 where
  pub node : (t : ℕ) → (w'.timer_nodes t).node ≡ (w.timer_nodes t).node
  pub idx : (t : ℕ) → ¬ Among t ts → (w'.timer_nodes t).idx ≡ (w.timer_nodes t).idx
  pub tw : w'.tw ≡ w.tw
  pub iter : w'.t_iter ≡ w.t_iter
  pub used : (c : ℕ) → (w'.conn_nodes c).used + uses w.timer_nodes c ts ≡ (w.conn_nodes c).used
  pub killed :
      (c : ℕ)
      → count c w'.killed ≡ count c w.killed + kills (uses w.timer_nodes c ts) (w.conn_nodes c).used

count-if :
    (c a : ℕ) (b : Bool) (xs : List ℕ)
    → count c (if b then a ∷ xs else xs) ≡ (if b then (if c == a then 1 else 0) else 0) + count c xs
count-if c a true xs = refl
count-if c a false xs = omega arith

module _ (w : Wheel) (t c : ℕ) where
  check_node-used :
      let before = (w.conn_nodes c).used in
      ((check_node w t).conn_nodes c).used
      ≡ (if (w.timer_nodes t).node == c then (before + 255) % 256 else before)
  unfolding check_node
  check_node-used = elim (eq-cases (w.timer_nodes t).node c) [
    | inl e ↦
        let test = eq-true e in
        let same : (w.conn_nodes (w.timer_nodes t).node).used ≡ (w.conn_nodes c).used =
          ap (λ k. (w.conn_nodes k).used) e in
        rw (test, same) refl
    | inr e ↦ let test = eq-false e in rw test refl
  ]

  check_node-killed :
      let before = (w.conn_nodes c).used in
      count c (check_node w t).killed
      ≡ (if (w.timer_nodes t).node == c then (if (before + 255) % 256 == 0 then 1 else 0) else 0)
        + count c w.killed
  unfolding check_node
  check_node-killed = elim (eq-cases (w.timer_nodes t).node c) [
    | inl e ↦
        let test = eq-true e in
        let same : (w.conn_nodes (w.timer_nodes t).node).used ≡ (w.conn_nodes c).used =
          ap (λ k. (w.conn_nodes k).used) e in
        let back = eq-true (sym e) in rw (test, same, count-if c (w.timer_nodes t).node, back) refl
    | inr e ↦
        let test = eq-false e in
        let back : (c == (w.timer_nodes t).node) ≡ false = eq-false (λ f. e (sym f)) in
        rw (test, count-if c (w.timer_nodes t).node, back) (grind arith)
  ]

used-more :
    (after before n : ℕ) (mine : Bool)
    → after + n ≡ (if mine then (before + 255) % 256 else before)
    → (if mine then 1 else 0) + n ≤ before
    → before < 256
    → after + ((if mine then 1 else 0) + n) ≡ before
used-more after before n true e few small = omega arith
used-more after before n false e few small = omega arith

killed-more :
    (before n : ℕ) (mine : Bool)
    → (if mine then 1 else 0) + n ≤ before
    → before < 256
    → (if mine then (if (before + 255) % 256 == 0 then 1 else 0) else 0)
        + kills n (if mine then (before + 255) % 256 else before)
      ≡ kills ((if mine then 1 else 0) + n) before
killed-more before n true few small = ground arith
killed-more before n false few small = ground arith

enough-more :
    (before n : ℕ) (mine : Bool)
    → (if mine then 1 else 0) + n ≤ before
    → before < 256
    → (n ≤ (if mine then (before + 255) % 256 else before))
      × ((if mine then (before + 255) % 256 else before) < 256)
enough-more before n true few small = (omega arith, omega arith)
enough-more before n false few small = (omega arith, omega arith)

check_node-node :
    (w : Wheel) (t u : ℕ) → ((check_node w t).timer_nodes u).node ≡ (w.timer_nodes u).node
unfolding check_node
check_node-node w t u = elim (eq-cases t u) [
  | inl e ↦ let test = eq-true e in rw test (ap (λ k. (w.timer_nodes k).node) e)
  | inr e ↦ let test = eq-false e in rw test refl
]

check_node-idx :
    (w : Wheel) (t u : ℕ) → t ≢ u → ((check_node w t).timer_nodes u).idx ≡ (w.timer_nodes u).idx
unfolding check_node
check_node-idx w t u e = rw (eq-false e) refl

IsChecked-more :
    (w w' : Wheel) (t : ℕ) (ts : List ℕ)
    → ((c : ℕ)
        → (uses w.timer_nodes c (t ∷ ts) ≤ (w.conn_nodes c).used) × ((w.conn_nodes c).used < 256))
    → IsChecked (check_node w t) w' ts
    → IsChecked w w' (t ∷ ts)
unfolding check_node
IsChecked-more w w' t ts enough k =
    let w1 = check_node w t in
    let same : (c : ℕ) → uses w1.timer_nodes c ts ≡ uses w.timer_nodes c ts =
      λ c. uses-frame w.timer_nodes w1.timer_nodes c ts (λ u m. check_node-node w t u) in
    record {
      node = λ u. k.node u ∙ check_node-node w t u;
      idx = λ u out. k.idx u (λ m. out (inr m)) ∙ check_node-idx w t u (λ e. out (inl (sym e)));
      tw = k.tw;
      iter = k.iter;
      used = λ c.
          used-more (w'.conn_nodes c).used (w.conn_nodes c).used (uses w.timer_nodes c ts)
            ((w.timer_nodes t).node == c) (rw⁻¹ (check_node-used w t c) (rw⁻¹ (same c) (k.used c)))
            (enough c).0 (enough c).1;
      killed = λ c.
          let rest : count c w'.killed
              ≡ count c w1.killed
                + kills (uses w.timer_nodes c ts) (
                    if (w.timer_nodes t).node == c
                    then ((w.conn_nodes c).used + 255) % 256
                    else (w.conn_nodes c).used) =
            rw⁻¹ (check_node-used w t c) (rw⁻¹ (same c) (k.killed c)) in
          let first = check_node-killed w t c in
          let sum =
            killed-more (w.conn_nodes c).used (uses w.timer_nodes c ts)
              ((w.timer_nodes t).node == c) (enough c).0 (enough c).1 in
          omega arith;
    }

-- The counters are at least the numbers of timers, and below 2^8.
abbrev pub IsEnough : Wheel → List ℕ → Type 0
IsEnough w ts =
    (c : ℕ) → (uses w.timer_nodes c ts ≤ (w.conn_nodes c).used) × ((w.conn_nodes c).used < 256)

pub check_list-IsChecked :
    (w : Wheel) (ts : List ℕ) → IsEnough w ts → IsChecked w (check_list w ts) ts
unfolding check_list
check_list-IsChecked w [] enough = record {
  node = λ t. refl;
  idx = λ t out. refl;
  tw = refl;
  iter = refl;
  used = λ c. omega arith;
  killed = λ c. omega arith;
}
check_list-IsChecked w (t ∷ ts) enough =
    let w1 = check_node w t in
    let enough' : IsEnough w1 ts = λ c.
      let same = uses-frame w.timer_nodes w1.timer_nodes c ts (λ u m. check_node-node w t u) in
      rw (same, check_node-used w t c)
        (enough-more (w.conn_nodes c).used (uses w.timer_nodes c ts) ((w.timer_nodes t).node == c)
          (enough c).0 (enough c).1) in
    IsChecked-more w (check_list w1 ts) t ts enough (check_list-IsChecked w1 ts enough')
