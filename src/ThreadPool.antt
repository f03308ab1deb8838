-- ===== src/ThreadPool.antt =====
-- 3.1.1线程池threadpoll/threadpoll.c: the pool of threads. Workers and the clients take turns in any
-- order; a turn is one access to what they share, or a critical section that has only one. A
-- pointer is an address, NULL is `none`, and an access to a freed worker is a fault. What malloc and
-- pthread_create answer is an argument. POSIX lets pthread_cond_signal wake any waiting threads.
pub mod Chain
pub mod Tasks
pub mod Threads
pub mod Create
mod Tests
use c_c_linux_learning_code.Common.{
  ℕ, zero, suc, Bool, true, false, Option, none, some, List, [], ◌∷◌, ◌==◌, if◌then◌else◌, ltb,
  update, ◌>>=◌,
}

-- The links of a worker or of a task.
pub record Node : Type 0 where
  pub prev : Option ℕ
  pub next : Option ℕ

-- The nodes in memory, and the pointer to the first of the list.
pub record Links : Type 0 where
  pub node : ℕ → Node
  pub list : Option ℕ

unfoldable pub set_prev : Links → Option ℕ → Option ℕ → Links
set_prev l none q = l
set_prev l (some a) q = record l { node = update l.node a (record (l.node a) { prev = q }) }

unfoldable pub set_next : Links → Option ℕ → Option ℕ → Links
set_next l none q = l
set_next l (some a) q = record l { node = update l.node a (record (l.node a) { next = q }) }

-- LL_ADD
unfoldable pub ll_add : ℕ → Links → Links
unfolding set_prev
ll_add item l =
    let own = record l { node = update l.node item (record { prev = none; next = l.list }) } in
    record (set_prev own l.list (some item)) { list = some item }

-- Where the list begins after its item is removed.
unfoldable pub first_without : ℕ → Links → Option ℕ → Option ℕ
first_without item l none = none
first_without item l (some a) = if a == item then (l.node item).next else some a

-- LL_REMOVE
unfoldable pub ll_remove : ℕ → Links → Links
unfolding set_prev set_next first_without
ll_remove item l =
    let before = set_next l (l.node item).prev (l.node item).next in
    let after = set_prev before (before.node item).next (before.node item).prev in
    record {
      node = update after.node item (record { prev = none; next = none });
      list = first_without item after after.list;
    }

-- Where a thread is: before pthread_mutex_lock; at the test of the list of workers; at the test of
-- `termination` in the loop; waiting; woken; at the test of `termination` behind the loop; with a
-- task; before free; and at its end. `Absent` is a thread that is not created yet.
pub data Place : Type 0 where
  absent outside looking asking waiting woken testing leaving ended : Place
  running : ℕ → Place

-- What happened to tasks, which is no part of the program.
pub data Event : Type 0 where
  pushed : ℕ → Event
  taken : ℕ → Event

-- `mutex` is the thread that holds it. `freed` are the workers that were freed.
pub record Pool : Type 0 where
  pub workers : Links
  pub tasks : Links
  pub mutex : Option ℕ
  pub termination : ℕ → Bool
  pub freed : ℕ → Bool
  pub place : ℕ → Place
  pub log : List Event

unfoldable pub move : Pool → ℕ → Place → Pool
move p w x = record p { place = update p.place w x }

-- pthread_mutex_lock, which blocks while the mutex is held; `holder` is who holds it.
unfoldable pub lock : Pool → ℕ → Option ℕ → Option Pool
unfolding move
lock p w none = some (move (record p { mutex = some w }) w looking)
lock p w (some v) = none

-- The test of the loop, where `first` is the first worker of the list.
unfoldable pub look : Pool → ℕ → Option ℕ → Pool
unfolding move
look p w none = move p w asking
look p w (some v) = move p w testing

-- pthread_cond_wait releases the mutex.
unfoldable pub ask : Pool → ℕ → Bool → Pool
unfolding move
ask p w true = move p w testing
ask p w false = move (record p { mutex = none }) w waiting

-- The first task of the list is taken, and the mutex released.
unfoldable pub take : Pool → ℕ → Option ℕ → Pool
unfolding move ll_remove
take p w none = move (record p { mutex = none }) w outside
take p w (some t) =
    move (record p { mutex = none; tasks = ll_remove t p.tasks; log = taken t ∷ p.log }) w
      (running t)

unfoldable pub test : Pool → ℕ → Bool → Pool
unfolding move take
test p w true = move (record p { mutex = none }) w leaving
test p w false = take p w p.tasks.list

-- `free(worker)` and pthread_exit
unfoldable pub leave : Pool → ℕ → Pool
unfolding move
leave p w = move (record p { freed = update p.freed w true }) w ended

-- A turn of the thread of the worker `w`, by where it is: get_task and thread_callback. `none`
-- where it cannot move.
unfoldable pub turn : Pool → ℕ → Place → Option Pool
unfolding lock look ask test leave move
turn p w absent = none
turn p w outside = lock p w p.mutex
turn p w looking = some (look p w p.workers.list)
turn p w asking = some (ask p w (p.termination w))
turn p w waiting = none
turn p w woken = lock p w p.mutex
turn p w testing = some (test p w (p.termination w))
turn p w (running t) = some (move p w outside)
turn p w leaving = some (leave p w)
turn p w ended = none

unfoldable pub step : Pool → ℕ → Option Pool
unfolding turn
step p w = turn p w (p.place w)

-- Those of the waiting threads that are chosen are woken.
unfoldable pub woken_if : Bool → Place → Place
woken_if true waiting = woken
woken_if chosen x = x

unfoldable pub wake : (ℕ → Bool) → Pool → Pool
unfolding woken_if
wake chosen p = record p { place = λ w. woken_if (chosen w) (p.place w) }

-- thread_poll_push_task, which blocks while the mutex is held; `chosen` are the threads that the
-- signal wakes.
unfoldable pub push_while : Option ℕ → (ℕ → Bool) → Pool → ℕ → Option Pool
unfolding wake ll_add
push_while none chosen p t =
    some (wake chosen (record p { tasks = ll_add t p.tasks; log = pushed t ∷ p.log }))
push_while (some v) chosen p t = none

unfoldable pub push_task : (ℕ → Bool) → Pool → ℕ → Option Pool
unfolding push_while
push_task chosen p t = push_while p.mutex chosen p t

-- The two turns of a round of thread_poll_create: pthread_create, and LL_ADD without the mutex.
unfoldable pub spawn : Pool → ℕ → Pool
unfolding move
spawn p w =
    move (record p { termination = update p.termination w false; freed = update p.freed w false }) w
      outside

unfoldable pub enlist : Pool → ℕ → Pool
unfolding ll_add
enlist p w = record p { workers = ll_add w p.workers }

-- The two turns of a round of thread_destroy: the mark, and the read of the next worker.
unfoldable pub mark : Pool → ℕ → Option Pool
mark p w = if p.freed w then none else some (record p { termination = update p.termination w true })

unfoldable pub next_worker : Pool → ℕ → Option (Option ℕ)
next_worker p w = if p.freed w then none else some (p.workers.node w).next

unfoldable pub broadcast_while : Option ℕ → Pool → Option Pool
unfolding wake
broadcast_while none p = some (wake (λ w. true) p)
broadcast_while (some v) p = none

unfoldable pub broadcast : Pool → Option Pool
unfolding broadcast_while
broadcast p = broadcast_while p.mutex p

-- The memory answers of a round of thread_poll_create: malloc's worker, and whether pthread_create
-- succeeds.
pub record Answer : Type 0 where
  pub malloc : Option ℕ
  pub created : Bool

-- What thread_poll_create returns, and the workers it has created and enlisted, the last first.
unfoldable pub create_loop : ℕ → ℕ → List ℕ → List Answer → Option (ℕ × List ℕ)
create_loop zero idx workers answers = some (idx, workers)
create_loop (suc n) idx workers [] = none
create_loop (suc n) idx workers (a ∷ answers) = elim a.malloc [
  | none ↦ some (idx, workers)
  | some w ↦
      if a.created then create_loop n (suc idx) (w ∷ workers) answers else some (idx, workers)
]

unfoldable pub create : ℕ → List Answer → Option (ℕ × List ℕ)
unfolding create_loop
create thread_num answers = create_loop (if ltb thread_num 1 then 1 else thread_num) 0 [] answers

-- The pool at the start of thread_poll_create, after its memset.
abbrev pub empty_pool : Pool
empty_pool = record {
  workers = record { node = λ a. record { prev = none; next = none }; list = none };
  tasks = record { node = λ a. record { prev = none; next = none }; list = none };
  mutex = none;
  termination = λ w. false;
  freed = λ w. false;
  place = λ w. absent;
  log = [];
}
