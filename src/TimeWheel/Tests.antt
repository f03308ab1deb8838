-- ===== src/TimeWheel/Tests.antt =====
-- A concrete wheel, and the theorems at inputs that meet their hypotheses.
use c_c_linux_learning_code.Common.{
  ℕ, ◌+◌, ◌≤◌, ◌<◌, ◌≡◌, refl, arith, List, [], ◌∷◌, Among, Returns, inl, some, none, Option, ◌%◌,
}
use c_c_linux_learning_code.TimeWheel.{
  after_shift, timer_execute, execute_loop, timer_shift, shift_loop, fill_node, add_node,
  dispatch_list, move_list, add_node, fill_node, Timer, TimerNode, init_timer, add_timer,
  timer_update, update_loop, expire_timer,
}
use c_c_linux_learning_code.TimeWheel.Slots.{near_at, level_at, expire, ticks_to}
use c_c_linux_learning_code.TimeWheel.Placed.{IsRested, Pending}
use c_c_linux_learning_code.TimeWheel.Clients.{Unused, Calls, idle}
use c_c_linux_learning_code.TimeWheel.Fire.{Ticked, timer_update-Ticked, expire_timer-exact}
use c_c_linux_learning_code.TimeWheel.Stuck.{Stuck}
use c_c_linux_learning_code.TimeWheel.Schedule.{
  init_timer-IsRested, add_timer-Pending, add_timer-lost,
}

abbrev blank : ℕ → TimerNode
blank x = record { expire = 0; callback = 0; cancel = 0; id = 0 }

-- An empty wheel at the time 16000.
abbrev empty_wheel : Timer
empty_wheel = record {
  near = λ i. [];
  t = λ i j. [];
  time = 16000;
  current_point = 5;
  node = blank;
}

empty_wheel-Unused : (x : ℕ) → Unused empty_wheel x
empty_wheel-Unused x (near_at i) m = m
empty_wheel-Unused x (level_at k j) m = m

empty_wheel-IsRested : IsRested empty_wheel
empty_wheel-IsRested = record {
  placed = record {
    bounded = omega arith;
    expires = λ x s m. absurd (empty_wheel-Unused x s m);
    fits = λ x s m live. absurd (empty_wheel-Unused x s m);
  };
  served = refl;
}

-- Clients that make no call, and delete nothing.
abbrev nobody : List ℕ → Timer → Timer
nobody busy T = T

abbrev Nothing : ℕ → Type 0
Nothing x = ⊥

no-Calls : (busy : List ℕ) (T : Timer) → Calls Nothing busy T (nobody busy T)
no-Calls busy T = idle

-- The node 7, to expire in 3 ticks.
abbrev loaded : Timer
loaded = (add_timer empty_wheel 7 3 1 2).state

loaded-Pending :
    ((add_timer empty_wheel 7 3 1 2).result ≡ some 7)
    × ((add_timer empty_wheel 7 3 1 2).called ≡ [])
    × IsRested loaded
    × Pending loaded 7
    × (ticks_to loaded.time (expire loaded 7) ≡ 3)
loaded-Pending =
    add_timer-Pending empty_wheel 7 3 1 2 empty_wheel-IsRested (empty_wheel-Unused 7) (omega arith)
      (omega arith) (λ f. omega arith)

init_timer-IsRested_example :
    IsRested (init_timer blank 5) × ((x : ℕ) → Unused (init_timer blank 5) x)
init_timer-IsRested_example = init_timer-IsRested blank 5

add_timer-Pending_example :
    ((add_timer empty_wheel 8 20000 1 2).result ≡ some 8)
    × ((add_timer empty_wheel 8 20000 1 2).called ≡ [])
    × IsRested (add_timer empty_wheel 8 20000 1 2).state
    × Pending (add_timer empty_wheel 8 20000 1 2).state 8
    × (ticks_to
          (add_timer empty_wheel 8 20000 1 2).state.time
          (expire (add_timer empty_wheel 8 20000 1 2).state 8)
        ≡ 20000)
add_timer-Pending_example =
    add_timer-Pending empty_wheel 8 20000 1 2 empty_wheel-IsRested (empty_wheel-Unused 8)
      (omega arith) (omega arith) (λ f. omega arith)

timer_update-Ticked_example :
    Returns (λ (called, U). Ticked Nothing loaded called U) (timer_update nobody loaded)
timer_update-Ticked_example = timer_update-Ticked Nothing nobody no-Calls loaded loaded-Pending.2

expire_timer-exact_example :
    Returns
      (λ (called, U).
        IsRested U
        × (U.time ≡ (loaded.time + 3) % 4294967296)
        × (ticks_to loaded.time (expire loaded 7) ≤ 3 → Among 7 called)
        × (3 < ticks_to loaded.time (expire loaded 7) → Pending U 7 × (¬ Among 7 called)))
      (expire_timer nobody loaded 8)
unfolding add_timer fill_node add_node
expire_timer-exact_example =
    expire_timer-exact Nothing nobody no-Calls loaded 8 7 loaded-Pending.2 (omega arith)
      (omega arith) loaded-Pending.3 refl (λ n. n)

add_timer-lost_example :
    Returns
      (λ (called, V). Stuck V 9 × (¬ Among 9 called))
      (update_loop nobody 1000 (add_timer empty_wheel 9 400 1 2).state [])
add_timer-lost_example =
    add_timer-lost empty_wheel 9 400 1 2 empty_wheel-IsRested (empty_wheel-Unused 9) (omega arith)
      (omega arith) (inl (omega arith)) Nothing nobody no-Calls 1000

abbrev called_of : Option (List ℕ × Timer) → List ℕ
called_of none = []
called_of (some (called, T)) = called

-- Three ticks fire the timer, two do not.
fires_third : called_of (expire_timer nobody loaded 8) ≡ 7 ∷ []
unfolding expire_timer timer_update after_shift timer_execute execute_loop timer_shift shift_loop
    add_timer fill_node add_node dispatch_list move_list
fires_third = refl

fires_not_second : called_of (expire_timer nobody loaded 7) ≡ []
unfolding expire_timer timer_update after_shift timer_execute execute_loop timer_shift shift_loop
    add_timer fill_node add_node dispatch_list move_list
fires_not_second = refl
