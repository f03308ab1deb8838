-- ===== src/SingleWheel/Tests.antt =====
-- The theorem on the single-level timing wheel at a concrete wheel.
use c_c_linux_learning_code.Common.{◌+◌, ◌%◌, ◌≡◌, refl, arith, [], ◌∷◌, count, update}
use c_c_linux_learning_code.SingleWheel.{
  Wheel, timer_search, get_timer_node, slot_after, raise_used, append, add_conn, check_conn,
}
use c_c_linux_learning_code.SingleWheel.Counts.{uses, pending, kills}
use c_c_linux_learning_code.SingleWheel.Heartbeat.{
  empty_wheel, Reached, start, heartbeat, check, check_conn-kills,
}

-- A heartbeat of the connection 1 at the tick 0, in the list of the tick 10.
abbrev one_heartbeat : Wheel
one_heartbeat = record empty_wheel {
  timer_nodes =
      update (update empty_wheel.timer_nodes 1 (record { node = 0; idx = 1 })) 1
        (record { node = 1; idx = 1 });
  conn_nodes = update empty_wheel.conn_nodes 1 (record { used = 1; id = 0 });
  t_iter = 1;
  tw = update empty_wheel.tw 10 (1 ∷ []);
}

one_heartbeat-Reached : Reached one_heartbeat
unfolding add_conn get_timer_node timer_search slot_after raise_used append
one_heartbeat-Reached = heartbeat start 1 1 0 (omega arith) refl

abbrev late : Wheel
late = check_conn (check_conn one_heartbeat)

check_conn-kills_example :
    count 1 (check_conn late).killed
    ≡ count 1 late.killed
      + kills (uses late.timer_nodes 1 (late.tw (late.tick % 16))) (pending late 1)
check_conn-kills_example = check_conn-kills late 1 (check (check one_heartbeat-Reached))
