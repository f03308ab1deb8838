-- ===== src/ThreadPool/Threads.antt =====
-- The turns of one thread: get_task while there is nothing to do, and the end of a worker that
-- thread_destroy has marked.
use c_c_linux_learning_code.Common.{
  ℕ, zero, suc, ◌≤◌, ◌≡◌, refl, ap, ◌∙◌, arith, Bool, true, false, Option, none, some, update,
  ◌>>=◌, eq-true, inl, inr, Option-cases,
}
use c_c_linux_learning_code.ThreadPool.{
  Place, Pool, outside, looking, asking, testing, leaving, ended, move, lock, look, ask, take, test,
  leave, turn, step, mark, next_worker,
}

-- The worker takes `n` turns.
unfoldable pub turns : ℕ → Pool → ℕ → Option Pool
unfolding step
turns zero p w = some p
turns (suc n) p w = step p w >>= λ q. turns n q w

moved : (p : Pool) (w : ℕ) (x : Place) → (move p w x).place w ≡ x
unfolding move
moved p w x = rw (eq-true {a = w} refl) refl

step-at : (p : Pool) (w : ℕ) (x : Place) → p.place w ≡ x → step p w ≡ turn p w x
unfolding step
step-at p w x e = ap (turn p w) e

step-outside :
    (p : Pool) (w : ℕ)
    → p.place w ≡ outside
    → p.mutex ≡ none
    → step p w ≡ some (move (record p { mutex = some w }) w looking)
unfolding turn lock
step-outside p w e free = step-at p w outside e ∙ ap (lock p w) free

step-looking :
    (p : Pool) (w : ℕ) (first : Option ℕ)
    → p.place w ≡ looking
    → p.workers.list ≡ first
    → step p w ≡ some (look p w first)
unfolding turn
step-looking p w first e f = step-at p w looking e ∙ ap (λ l. some (look p w l)) f

step-testing :
    (p : Pool) (w : ℕ) (told : Bool)
    → p.place w ≡ testing
    → p.termination w ≡ told
    → step p w ≡ some (test p w told)
unfolding turn
step-testing p w told e f = step-at p w testing e ∙ ap (λ b. some (test p w b)) f

step-asking :
    (p : Pool) (w : ℕ) (told : Bool)
    → p.place w ≡ asking
    → p.termination w ≡ told
    → step p w ≡ some (ask p w told)
unfolding turn
step-asking p w told e f = step-at p w asking e ∙ ap (λ b. some (ask p w b)) f

-- A worker before get_task, where the mutex is free, workers are listed, and no task is.
pub record IsIdle (p : Pool) (w : ℕ) : Type 0 where
  pub place : p.place w ≡ outside
  pub mutex : p.mutex ≡ none
  pub listed : (a : ℕ) × (p.workers.list ≡ some a)
  pub tasks : p.tasks.list ≡ none
  pub goes_on : p.termination w ≡ false

-- Three turns for each round.
abbrev pub rounds : ℕ → ℕ
rounds zero = zero
rounds (suc n) = suc (suc (suc (rounds n)))

IsIdle-round :
    (p : Pool) (w : ℕ)
    → IsIdle p w
    → (q : Pool) × ((n : ℕ) → turns (suc (suc (suc n))) p w ≡ turns n q w)
      × IsIdle q w
      × (q.log ≡ p.log)
unfolding turns look test take move
IsIdle-round p w i =
    let p1 = move (record p { mutex = some w }) w looking in
    let p2 = move p1 w testing in
    let p3 = move (record p2 { mutex = none }) w outside in
    let first = step-outside p w i.place i.mutex in
    let second =
      step-looking p1 w (some i.listed.0) (moved (record p { mutex = some w }) w looking)
        i.listed.1 in
    let third = step-testing p2 w false (moved p1 w testing) i.goes_on in
    let empty : take p2 w p2.tasks.list ≡ p3 = ap (take p2 w) i.tasks in
    (
      p3,
      λ n. rw (first, second, third, empty) refl,
      record {
        place = moved (record p2 { mutex = none }) w outside;
        mutex = refl;
        listed = i.listed;
        tasks = i.tasks;
        goes_on = i.goes_on;
      },
      refl,
    )

-- A worker before get_task, where the mutex is free, a worker is listed, no task is and it is not
-- told to end, is after any number of rounds of three turns, which are never blocked, in such a
-- state again, and has taken nothing: it does not wait for a task but spins.
pub get_task_spins :
    (n : ℕ) (p : Pool) (w : ℕ)
    → IsIdle p w
    → (q : Pool) × (turns (rounds n) p w ≡ some q) × IsIdle q w × (q.log ≡ p.log)
unfolding turns
get_task_spins zero p w i = (p, refl, i, refl)
get_task_spins (suc n) p w i =
    let (r, round, i', same) = IsIdle-round p w i in
    let (q, e, i'', same') = get_task_spins n r w i' in (q, round (rounds n) ∙ e, i'', same' ∙ same)

-- The turns of a worker behind the loop of get_task, with the mutex, that was told to end.
end_testing :
    (p : Pool) (w : ℕ)
    → p.place w ≡ testing
    → p.termination w ≡ true
    → (q : Pool) × (turns 2 p w ≡ some q)
      × (q.place w ≡ ended)
      × (q.freed w ≡ true)
      × (q.mutex ≡ none)
      × (q.log ≡ p.log)
unfolding turns test leave move
end_testing p w e told =
    let p1 = move (record p { mutex = none }) w leaving in
    let p2 = move (record p1 { freed = update p1.freed w true }) w ended in
    let first = step-testing p w true e told in
    let second = step-at p1 w leaving (moved (record p { mutex = none }) w leaving) in
    (
      p2,
      rw (first, second) refl,
      moved (record p1 { freed = update p1.freed w true }) w ended,
      rw (eq-true {a = w} refl) refl,
      refl,
      refl,
    )

-- A worker that is told to end and stands before get_task while the mutex is free ends within five
-- turns of its own, with its memory freed and the mutex released, and without taking a task,
-- whether workers are listed or not.
pub end_worker :
    (p : Pool) (w : ℕ)
    → p.place w ≡ outside
    → p.mutex ≡ none
    → p.termination w ≡ true
    → (n : ℕ) × (n ≤ 5)
      × (q : Pool) × (turns n p w ≡ some q)
      × (q.place w ≡ ended)
      × (q.freed w ≡ true)
      × (q.mutex ≡ none)
      × (q.log ≡ p.log)
unfolding turns look ask move
end_worker p w e free told =
    let p1 = move (record p { mutex = some w }) w looking in
    let first = step-outside p w e free in
    let here = moved (record p { mutex = some w }) w looking in
    elim (Option-cases p.workers.list) [
      | inl l ↦
          let p2 = move p1 w asking in
          let p3 = move p2 w testing in
          let second = step-looking p1 w none here l in
          let third = step-asking p2 w true (moved p1 w asking) told in
          let (q, run, last, gone, unlocked, same) = end_testing p3 w (moved p2 w testing) told in
          (5, omega arith, q, rw (first, second, third) run, last, gone, unlocked, same)
      | inr (a, l) ↦
          let p2 = move p1 w testing in
          let second = step-looking p1 w (some a) here l in
          let (q, run, last, gone, unlocked, same) = end_testing p2 w (moved p1 w testing) told in
          (4, omega arith, q, rw (first, second) run, last, gone, unlocked, same)
    ]

-- For a worker before get_task, not freed, while the mutex is free: thread_destroy marks it, and
-- the worker's next turns can end and free it before thread_destroy reads its successor, which is
-- then an access to freed memory.
pub destroy_stale :
    (p : Pool) (w : ℕ)
    → p.place w ≡ outside
    → p.mutex ≡ none
    → p.freed w ≡ false
    → (q : Pool) × (n : ℕ) × (r : Pool) × (mark p w ≡ some q)
      × (turns n q w ≡ some r)
      × (next_worker r w ≡ none)
unfolding mark next_worker
destroy_stale p w e free here =
    let q = record p { termination = update p.termination w true } in
    let told : q.termination w ≡ true = rw (eq-true {a = w} refl) refl in
    let (n, _, r, run, _, gone, _, _) = end_worker q w e free told in
    (q, n, r, rw here refl, run, rw gone refl)
