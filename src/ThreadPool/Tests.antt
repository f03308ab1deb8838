-- ===== src/ThreadPool/Tests.antt =====
-- The theorems on the thread pool at concrete pools.
use c_c_linux_learning_code.Common.{ℕ, ◌≡◌, refl, true, false, none, some, List, [], ◌∷◌}
use c_c_linux_learning_code.ThreadPool.{
  Pool, pushed, ll_add, mark, next_worker, empty_pool, spawn, enlist, push_task, move, wake,
  push_while,
}
use c_c_linux_learning_code.ThreadPool.Tasks.{
  Reached, start, creation, entry, push, IsKept, pushes, takes, tasks-IsKept,
}
use c_c_linux_learning_code.ThreadPool.Threads.{
  turns, rounds, IsIdle, get_task_spins, destroy_stale,
}

-- One worker, before get_task.
abbrev one_worker : Pool
one_worker = enlist (spawn empty_pool 1) 1

one_worker-Reached : Reached one_worker
one_worker-Reached = entry (creation start 1 refl) 1

one_worker-IsIdle : IsIdle one_worker 1
unfolding spawn enlist move ll_add
one_worker-IsIdle = record {
  place = refl;
  mutex = refl;
  listed = (1, refl);
  tasks = refl;
  goes_on = refl;
}

get_task_spins_example :
    (q : Pool) × (turns (rounds 5) one_worker 1 ≡ some q) × IsIdle q 1 × (q.log ≡ one_worker.log)
get_task_spins_example = get_task_spins 5 one_worker 1 one_worker-IsIdle

abbrev told : Pool
told = record one_worker { termination = λ w. true }

destroy_stale_example :
    (q : Pool) × (n : ℕ) × (r : Pool) × (mark one_worker 1 ≡ some q)
    × (turns n q 1 ≡ some r)
    × (next_worker r 1 ≡ none)
unfolding spawn enlist move ll_add
destroy_stale_example = destroy_stale one_worker 1 refl refl refl

-- A task is pushed.
abbrev pushed_once : Pool
pushed_once =
    wake (λ w. false) (record one_worker { tasks = ll_add 7 one_worker.tasks; log = pushed 7 ∷ [] })

pushed_once-Reached : Reached pushed_once
unfolding push_task push_while spawn enlist move pushes takes
pushed_once-Reached = push one_worker-Reached (λ w. false) 7 refl refl

tasks-IsKept_example : (xs : List ℕ) × IsKept pushed_once.tasks pushed_once.log xs
tasks-IsKept_example = tasks-IsKept pushed_once pushed_once-Reached
