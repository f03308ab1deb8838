-- ===== src/SingleWheel/Heartbeat.antt =====
-- When connections are reported as down, over all heartbeats and checks.
use c_c_linux_learning_code.Common.{
  ℕ, ◌+◌, ◌%◌, ◌<◌, ◌≡◌, refl, subst, arith, Option, none, some, [], count, Option-cases, inl, inr,
  ltb-true, ltb-false,
}
use c_c_linux_learning_code.SingleWheel.{
  Wheel, max_conn, timer_search, get_timer_node, conn_search, get_conn_node, slot_after, raise_used,
  append, add_conn, check_conn,
}
use c_c_linux_learning_code.SingleWheel.Counts.{uses, total, pending, kills}
use c_c_linux_learning_code.SingleWheel.Valid.{IsValid, ticked-IsChecked, check_conn-IsValid}
use c_c_linux_learning_code.SingleWheel.Heard.{lt-cases, timer_search-free, heard, heard-IsValid}

-- The wheel that main begins with.
abbrev pub empty_wheel : Wheel
empty_wheel = record {
  timer_nodes = λ t. record { node = 0; idx = 0 };
  conn_nodes = λ c. record { used = 0; id = 0 };
  t_iter = 0;
  c_iter = 0;
  tick = 0;
  tw = λ slot. [];
  killed = [];
}

-- The wheels that heartbeats, new connections and checks lead to. A connection never has more than
-- 255 timers.
pub data Reached : Wheel → Type 0 where
  start : Reached empty_wheel
  connection :
      {w w' : Wheel} {c : ℕ} → Reached w → (f : ℕ) → get_conn_node f w ≡ some (w', c) → Reached w'
  heartbeat :
      {w w' : Wheel}
      → Reached w
      → (f c delay : ℕ) → (w.conn_nodes c).used < 255
      → add_conn f w c delay ≡ some w'
      → Reached w'
  check : {w : Wheel} → Reached w → Reached (check_conn w)

-- What a call leads to, unless it faults.
abbrev Keeps : Option Wheel → Type 0
Keeps none = Unit
Keeps (some w) = IsValid w

add_conn-Keeps :
    (f : ℕ) (w : Wheel) (c delay : ℕ)
    → IsValid w
    → (w.conn_nodes c).used < 255
    → Keeps (add_conn f w c delay)
unfolding add_conn get_timer_node slot_after heard append raise_used
add_conn-Keeps f w c delay v few =
    let iter = v.iter in
    let next : (w.t_iter + 1) % 4294967296 ≡ w.t_iter + 1 = omega arith in
    elim (Option-cases (timer_search f w.timer_nodes (w.t_iter + 1))) [
      | inl e ↦ rw (next, e) tt
      | inr (j, e) ↦
          let (low, inside, free) =
            timer_search-free f w.timer_nodes (w.t_iter + 1) j (omega arith) (omega arith) e in
          rw (next, e, ltb-true inside)
            (heard-IsValid w c j ((w.tick + 10 + delay) % 4294967296 % 16) v low free few inside
              (omega arith))
    ]

abbrev KeepsFirst : Option (Wheel × ℕ) → Type 0
KeepsFirst none = Unit
KeepsFirst (some (w, c)) = IsValid w

get_conn_node-Keeps : (f : ℕ) (w : Wheel) → IsValid w → KeepsFirst (get_conn_node f w)
unfolding get_conn_node
get_conn_node-Keeps f w v =
    elim (Option-cases (conn_search f w.conn_nodes ((w.c_iter + 1) % 4294967296))) [
      | inl e ↦ rw e tt
      | inr (i, e) ↦ elim (lt-cases i max_conn) [
        | inl inside ↦
            rw (e, ltb-true inside)
              (record {
                counts = v.counts;
                small = v.small;
                marked = v.marked;
                apart = v.apart;
                iter = v.iter;
              })
        | inr outside ↦ rw (e, ltb-false outside) tt
      ]
    ]

pub reached-IsValid : (w : Wheel) → Reached w → IsValid w
unfolding total
reached-IsValid _ start = record {
  counts = λ c. refl;
  small = λ c. omega arith;
  marked = λ s t m. absurd m;
  apart = λ s r t m l. absurd m;
  iter = omega arith;
}
reached-IsValid w' (connection {w = w} {c = c} r f e) =
    subst KeepsFirst e (get_conn_node-Keeps f w (reached-IsValid w r))
reached-IsValid w' (heartbeat {w = w} r f c delay few e) =
    subst Keeps e (add_conn-Keeps f w c delay (reached-IsValid w r) few)
reached-IsValid _ (check {w = w} r) = check_conn-IsValid w (reached-IsValid w r)

-- In every wheel that new connections, heartbeats and checks lead to from the empty one, where none
-- is given a heartbeat while its counter is 255: check_conn reports a connection as down once if it
-- has timers in the list of this tick and none in the other 15, and otherwise not.
pub check_conn-kills :
    (w : Wheel) (c : ℕ)
    → Reached w
    → count c (check_conn w).killed
      ≡ count c w.killed + kills (uses w.timer_nodes c (w.tw (w.tick % 16))) (pending w c)
unfolding check_conn
check_conn-kills w c r =
    let v = reached-IsValid w r in
    let checked = ticked-IsChecked w v in rw (← v.counts c) (checked.killed c)
