-- ===== src/ThreadPool/Tasks.antt =====
-- Where tasks are, over all turns of the workers and of clients.
use c_c_linux_learning_code.Common.{
  none≢some, count, ℕ, ◌+◌, ◌<◌, ◌≡◌, refl, sym, ap, ◌∙◌, subst, arith, Bool, true, false, Option,
  none, some, List, [], ◌∷◌, ◌==◌, if◌then◌else◌, Among, eq-true, inl, inr, Bool-cases,
}
use mathlib.Core.Option.{some-injective}
use c_c_linux_learning_code.ThreadPool.{
  Links, ll_add, ll_remove, Place, Event, Pool, absent, outside, looking, asking, waiting, woken,
  testing, leaving, ended, running, pushed, taken, move, lock, look, ask, take, test, leave, turn,
  step, wake, push_while, push_task, spawn, enlist, mark, broadcast_while, broadcast, empty_pool,
}
use c_c_linux_learning_code.ThreadPool.Chain.{IsList, ll_add-IsList, ll_remove-first}

-- How often a task was pushed, and was taken by a worker.
unfoldable pub pushes : ℕ → List Event → ℕ
pushes t [] = 0
pushes t (pushed u ∷ log) = (if t == u then 1 else 0) + pushes t log
pushes t (taken u ∷ log) = pushes t log

unfoldable pub takes : ℕ → List Event → ℕ
takes t [] = 0
takes t (pushed u ∷ log) = takes t log
takes t (taken u ∷ log) = (if t == u then 1 else 0) + takes t log

-- The tasks as a stack: a push adds one, and the last that was added is taken first.
unfoldable pub without_first : List ℕ → List ℕ
without_first [] = []
without_first (x ∷ xs) = xs

unfoldable pub stack : List Event → List ℕ
unfolding without_first
stack [] = []
stack (pushed t ∷ log) = t ∷ stack log
stack (taken t ∷ log) = without_first (stack log)

-- The pools that turns in any order lead to. A thread is created once for each worker. A task is
-- pushed again only after it was taken.
pub data Reached : Pool → Type 0 where
  start : Reached empty_pool
  thread : {p q : Pool} → Reached p → (w : ℕ) → step p w ≡ some q → Reached q
  creation : {p : Pool} → Reached p → (w : ℕ) → p.place w ≡ absent → Reached (spawn p w)
  entry : {p : Pool} → Reached p → (w : ℕ) → Reached (enlist p w)
  push :
      {p q : Pool}
      → Reached p
      → (chosen : ℕ → Bool) → (t : ℕ) → pushes t p.log ≡ takes t p.log
      → push_task chosen p t ≡ some q
      → Reached q
  marking : {p q : Pool} → Reached p → (w : ℕ) → mark p w ≡ some q → Reached q
  waking : {p q : Pool} → Reached p → broadcast p ≡ some q → Reached q

-- The list of tasks is the stack, and holds exactly those that were pushed and not yet taken.
pub record IsKept (tasks : Links) (log : List Event) (xs : List ℕ) : Type 0 where
  pub list : IsList tasks xs
  pub order : stack log ≡ xs
  pub counts : (t : ℕ) → pushes t log ≡ count t xs + takes t log

-- What a turn leads to, unless it cannot be taken.
abbrev Keeps : Option Pool → Type 0
Keeps none = Unit
Keeps (some p) = (xs : List ℕ) × IsKept p.tasks p.log xs

Among-count : (t : ℕ) (xs : List ℕ) → Among t xs → 0 < count t xs
Among-count t [] m = elim m [ ]
Among-count t (x ∷ xs) (inl e) = rw (eq-true e) (omega arith)
Among-count t (x ∷ xs) (inr m) = let there = Among-count t xs m in omega arith

taken-IsKept :
    (tasks : Links) (log : List Event) (x : ℕ) (xs : List ℕ)
    → IsKept tasks log (x ∷ xs)
    → IsKept (ll_remove x tasks) (taken x ∷ log) xs
unfolding pushes takes stack
taken-IsKept tasks log x xs k = record {
  list = ll_remove-first tasks x xs k.list;
  order = ap without_first k.order;
  counts = λ t. let before = k.counts t in omega arith;
}

pushed-IsKept :
    (tasks : Links) (log : List Event) (t : ℕ) (xs : List ℕ)
    → IsKept tasks log xs
    → pushes t log ≡ takes t log
    → IsKept (ll_add t tasks) (pushed t ∷ log) (t ∷ xs)
unfolding pushes takes stack
pushed-IsKept tasks log t xs k fresh =
    let before = k.counts t in
    record {
      list =
          ll_add-IsList tasks t xs k.list
            (λ m. let one = Among-count t xs m in absurd (omega arith));
      order = ap (λ ys. t ∷ ys) k.order;
      counts = λ u. let each = k.counts u in omega arith;
    }

take-Keeps :
    (p : Pool) (w : ℕ) (first : Option ℕ)
    → p.tasks.list ≡ first
    → Keeps (some p)
    → Keeps (some (take p w first))
unfolding take move
take-Keeps p w none e k = k
take-Keeps p w (some t) e ([], k) = absurd (none≢some (sym k.list.chain ∙ e))
take-Keeps p w (some t) e (x ∷ xs, k) =
    let same : x ≡ t = some-injective x t (sym k.list.chain.0 ∙ e) in
    (xs, rw (← same) (taken-IsKept p.tasks p.log x xs k))

lock-Keeps : (p : Pool) (w : ℕ) (holder : Option ℕ) → Keeps (some p) → Keeps (lock p w holder)
unfolding lock move
lock-Keeps p w none k = k
lock-Keeps p w (some v) k = tt

look-Keeps : (p : Pool) (w : ℕ) (first : Option ℕ) → Keeps (some p) → Keeps (some (look p w first))
unfolding look move
look-Keeps p w none k = k
look-Keeps p w (some v) k = k

ask-Keeps : (p : Pool) (w : ℕ) (told : Bool) → Keeps (some p) → Keeps (some (ask p w told))
unfolding ask move
ask-Keeps p w true k = k
ask-Keeps p w false k = k

test-Keeps : (p : Pool) (w : ℕ) (told : Bool) → Keeps (some p) → Keeps (some (test p w told))
unfolding test move
test-Keeps p w true k = k
test-Keeps p w false k = take-Keeps p w p.tasks.list refl k

turn-Keeps : (p : Pool) (w : ℕ) (x : Place) → Keeps (some p) → Keeps (turn p w x)
unfolding turn leave move
turn-Keeps p w absent k = tt
turn-Keeps p w outside k = lock-Keeps p w p.mutex k
turn-Keeps p w looking k = look-Keeps p w p.workers.list k
turn-Keeps p w asking k = ask-Keeps p w (p.termination w) k
turn-Keeps p w waiting k = tt
turn-Keeps p w woken k = lock-Keeps p w p.mutex k
turn-Keeps p w testing k = test-Keeps p w (p.termination w) k
turn-Keeps p w (running t) k = k
turn-Keeps p w leaving k = k
turn-Keeps p w ended k = tt

push_while-Keeps :
    (holder : Option ℕ) (chosen : ℕ → Bool) (p : Pool) (t : ℕ)
    → Keeps (some p)
    → pushes t p.log ≡ takes t p.log
    → Keeps (push_while holder chosen p t)
unfolding push_while wake
push_while-Keeps none chosen p t (xs, k) fresh = (t ∷ xs, pushed-IsKept p.tasks p.log t xs k fresh)
push_while-Keeps (some v) chosen p t k fresh = tt

broadcast_while-Keeps :
    (holder : Option ℕ) (p : Pool) → Keeps (some p) → Keeps (broadcast_while holder p)
unfolding broadcast_while wake
broadcast_while-Keeps none p k = k
broadcast_while-Keeps (some v) p k = tt

mark-Keeps : (p : Pool) (w : ℕ) → Keeps (some p) → Keeps (mark p w)
unfolding mark
mark-Keeps p w k = elim (Bool-cases (p.freed w)) [ inl e ↦ rw e tt | inr e ↦ rw e k ]

-- In every pool that turns of the workers and of clients lead to, in any order, where a task is
-- pushed again only after it was taken: the linked list of tasks is well linked and holds the tasks
-- of a stack, on which a push puts a task and from which a worker takes the last one; each task was
-- pushed as often as it was taken and stands in the list together, so that none is lost or taken
-- twice.
pub tasks-IsKept : (p : Pool) → Reached p → (xs : List ℕ) × IsKept p.tasks p.log xs
unfolding pushes takes stack spawn enlist move step push_task broadcast
tasks-IsKept _ start = (
  [],
  record { list = record { chain = refl; unique = tt }; order = refl; counts = λ t. omega arith },
)
tasks-IsKept q (thread {p = p} r w e) =
    subst Keeps e (turn-Keeps p w (p.place w) (tasks-IsKept p r))
tasks-IsKept _ (creation {p = p} r w new) = tasks-IsKept p r
tasks-IsKept _ (entry {p = p} r w) = tasks-IsKept p r
tasks-IsKept q (push {p = p} r chosen t fresh e) =
    subst Keeps e (push_while-Keeps p.mutex chosen p t (tasks-IsKept p r) fresh)
tasks-IsKept q (marking {p = p} r w e) = subst Keeps e (mark-Keeps p w (tasks-IsKept p r))
tasks-IsKept q (waking {p = p} r e) =
    subst Keeps e (broadcast_while-Keeps p.mutex p (tasks-IsKept p r))
