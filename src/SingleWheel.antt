-- ===== src/SingleWheel.antt =====
-- 3.2.3定时器红黑树最小堆跳表时间轮/single_tw.c: a timing wheel of one level, which closes a
-- connection when no heartbeat came for 10 ticks. The lists of the wheel are lists of the addresses
-- of nodes, which are their indices in `timer_nodes`; an access behind an array is a fault. The
-- searches carry fuel. `killed` are the connections that were reported as down, the last first.
pub mod Counts
pub mod Valid
pub mod Heard
pub mod Heartbeat
mod Tests
use c_c_linux_learning_code.Common.{
  ℕ, zero, suc, ◌+◌, ◌^◌, ◌%◌, Bool, true, false, Option, none, some, List, [], ◌∷◌, ◌++◌, ltb,
  ◌==◌, if◌then◌else◌, update, ◌>>=◌,
}

pub record ConnNode : Type 0 where
  pub used : ℕ
  pub id : ℕ

-- `next` is kept by the lists of the wheel.
pub record TimerNode : Type 0 where
  pub node : ℕ
  pub idx : ℕ

pub record Wheel : Type 0 where
  pub timer_nodes : ℕ → TimerNode
  pub conn_nodes : ℕ → ConnNode
  pub t_iter : ℕ
  pub c_iter : ℕ
  pub tick : ℕ
  pub tw : ℕ → List ℕ
  pub killed : List ℕ

abbrev pub max_timer : ℕ
max_timer = 131071

abbrev pub max_conn : ℕ
max_conn = 65535

-- The loop of get_timer_node; the mask `& MAX_TIMER` is the rest by 2^17.
unfoldable pub timer_search : ℕ → (ℕ → TimerNode) → ℕ → Option ℕ
timer_search zero nodes i = none
timer_search (suc f) nodes i =
    let rest = timer_search f nodes ((i + 1) % 4294967296) in
    if ltb (i % 131072) max_timer
    then if ltb 0 (nodes (i % 131072)).idx then rest else some i
    else none

-- The node is marked by its index, which is not masked.
unfoldable pub get_timer_node : ℕ → Wheel → Option (Wheel × ℕ)
unfolding timer_search
get_timer_node f w = do
  i ← timer_search f w.timer_nodes ((w.t_iter + 1) % 4294967296)
  let marked = update w.timer_nodes i (record (w.timer_nodes i) { idx = i })
  if ltb i max_timer then some (record w { t_iter = i; timer_nodes = marked }, i) else none

unfoldable pub conn_search : ℕ → (ℕ → ConnNode) → ℕ → Option ℕ
conn_search zero nodes i = none
conn_search (suc f) nodes i =
    let rest = conn_search f nodes ((i + 1) % 4294967296) in
    if ltb (i % 65536) max_conn
    then if ltb 0 (nodes (i % 65536)).used then rest else some i
    else none

unfoldable pub get_conn_node : ℕ → Wheel → Option (Wheel × ℕ)
unfolding conn_search
get_conn_node f w = do
  i ← conn_search f w.conn_nodes ((w.c_iter + 1) % 4294967296)
  if ltb i max_conn then some (record w { c_iter = i }, i) else none

-- TW_SIZE is 16, EXPIRE is 10.
unfoldable pub slot_after : Wheel → ℕ → ℕ
slot_after w delay = (w.tick + 10 + delay) % 4294967296 % 16

unfoldable pub raise_used : Wheel → ℕ → Wheel
raise_used w c = record w {
  conn_nodes =
      update w.conn_nodes c (record (w.conn_nodes c) { used = ((w.conn_nodes c).used + 1) % 256 });
}

unfoldable pub append : Wheel → ℕ → ℕ → ℕ → Wheel
append w t c slot = record w {
  timer_nodes = update w.timer_nodes t (record (w.timer_nodes t) { node = c });
  tw = update w.tw slot (w.tw slot ++ t ∷ []);
}

unfoldable pub add_conn : ℕ → Wheel → ℕ → ℕ → Option Wheel
unfolding get_timer_node slot_after raise_used append
add_conn f w c delay = do
  (w', t) ← get_timer_node f w
  some (append (raise_used w' c) t c (slot_after w delay))

-- One node of the list in check_conn; `used` is of 8 bits.
unfoldable pub check_node : Wheel → ℕ → Wheel
check_node w t =
    let c = (w.timer_nodes t).node in
    let used = ((w.conn_nodes c).used + 255) % 256 in
    record w {
      conn_nodes = update w.conn_nodes c (record (w.conn_nodes c) { used = used });
      timer_nodes = update w.timer_nodes t (record (w.timer_nodes t) { idx = 0 });
      killed = if used == 0 then c ∷ w.killed else w.killed;
    }

unfoldable pub check_list : Wheel → List ℕ → Wheel
unfolding check_node
check_list w [] = w
check_list w (t ∷ ts) = check_list (check_node w t) ts

unfoldable pub check_conn : Wheel → Wheel
unfolding check_list
check_conn w =
    let slot = w.tick % 16 in
    let w' = check_list (record w { tick = (w.tick + 1) % 4294967296 }) (w.tw slot) in
    record w' { tw = update w'.tw slot [] }
