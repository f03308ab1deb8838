-- ===== src/Exceptions.antt =====
-- 3.2.2try-catch/try-catch.c: exceptions by setjmp and longjmp. A program is the code between the
-- macros; what it does else is one event, and no break, return or goto of its own leaves a Try. The
-- frame of a Try is a local variable: its address is the number of Trys around it. ExceptionStack is
-- per thread, so that one thread is modelled. An exception is its address.
pub mod Reference
pub mod Agreement
pub mod Trys
pub mod Equal
pub mod Structured
pub mod Programs
mod Tests
use c_c_linux_learning_code.Common.{
  Bytes, ℕ, zero, suc, Bool, true, false, Option, none, some, List, [], ◌∷◌, ◌++◌, ◌==◌,
  if◌then◌else◌, update,
}

-- Where an exception was thrown: function, file and line.
pub record Origin : Type 0 where
  pub func : ℕ
  pub file : ℕ
  pub line : ℕ

-- The code between the macros. `try` ends with EndTry, `try_finally` has a Finally before it.
mutual
  pub data Statement : Type 0 where
    other : ℕ → Statement
    throw : ℕ → Option Bytes → Origin → Statement
    then_do : Statement → Statement → Statement
    try : Statement → Handlers → Statement
    try_finally : Statement → Handlers → Statement → Statement

  pub data Handlers : Type 0 where
    no_more : Handlers
    catch : ℕ → Statement → Handlers → Handlers

-- What a program does: its own code, and the report of an exception that nobody can catch.
pub data Event : Type 0 where
  did : ℕ → Event
  reported : ℕ → Option Bytes → Origin → Event

pub record Frame : Type 0 where
  pub exception : ℕ
  pub origin : Origin
  pub message : Bytes
  pub next : Option ℕ

-- `stack` is the value of ExceptionStack; `log` is what was done, in order.
pub record State : Type 0 where
  pub stack : Option ℕ
  pub frame : ℕ → Frame
  pub log : List Event

-- How code ends: at its end, by a longjmp to a frame, or by an access to NULL.
pub data Outcome : Type 0 where
  done crashed : Outcome
  jumped : ℕ → Outcome

-- Exception_flag
pub data Flag : Type 0 where
  entered thrown handled finalized : Flag

unfoldable pub emit : Event → State → State
emit e s = record s { log = s.log ++ e ∷ [] }

-- What vsnprintf writes into 512 bytes, with the end of the string.
unfoldable pub cut : ℕ → Bytes → Bytes
cut zero text = []
cut (suc n) [] = []
cut (suc n) (c ∷ text) = c ∷ cut n text

unfoldable pub formatted : Option Bytes → Option Bytes
unfolding cut
formatted none = none
formatted (some cause) = some (cut 511 cause)

unfoldable pub message_after : Bytes → Option Bytes → Bytes
unfolding cut
message_after before none = before
message_after before (some cause) = cut 511 cause

-- ntyExceptionThrow, where `top` is the value of ExceptionStack.
unfoldable pub throw_to : Option ℕ → ℕ → Option Bytes → Origin → State → State × Outcome
unfolding emit formatted message_after
throw_to none excep cause origin s = (emit (reported excep (formatted cause) origin) s, done)
throw_to (some f) excep cause origin s =
    let before = s.frame f in
    let written = record before {
      exception = excep;
      origin = origin;
      message = message_after before.message cause;
    } in
    (record s { frame = update s.frame f written; stack = before.next }, jumped f)

unfoldable pub exception_throw : ℕ → Option Bytes → Origin → State → State × Outcome
unfolding throw_to
exception_throw excep cause origin s = throw_to s.stack excep cause origin s

-- ntyExceptionPopStack
unfoldable pub pop_from : Option ℕ → State → State × Outcome
pop_from none s = (s, crashed)
pop_from (some f) s = (record s { stack = (s.frame f).next }, done)

unfoldable pub pop_stack : State → State × Outcome
unfolding pop_from
pop_stack s = pop_from s.stack s

-- Try, up to setjmp: the frame at the address `d` is put on the stack. Its other fields are what
-- the memory held.
unfoldable pub enter : ℕ → State → State
enter d s = record s {
  frame = update s.frame d (record (s.frame d) { message = []; next = s.stack });
  stack = some d;
}

-- ReThrow of the frame at `d`.
unfoldable pub rethrow : ℕ → State → State × Outcome
unfolding exception_throw
rethrow d s = exception_throw (s.frame d).exception none (s.frame d).origin s

-- EndTry, behind the last block of the Try.
unfoldable pub end_try : ℕ → Flag → Outcome → State → State × Outcome
unfolding rethrow
end_try d thrown done s = rethrow d s
end_try d flag o s = (s, o)

-- The `if` that Finally begins with.
unfoldable pub finalize : Flag → Flag
finalize entered = finalized
finalize flag = flag

-- The code that follows is not reached after a longjmp.
unfoldable pub after : State × Outcome → (State → State × Outcome) → State × Outcome
after (s, done) rest = rest s
after (s, crashed) rest = (s, crashed)
after (s, jumped f) rest = (s, jumped f)

unfoldable pub with_flag : Flag → State × Outcome → State × Flag × Outcome
with_flag flag (s, o) = (s, flag, o)

-- The end of the body of the Try at `d`: the frame is popped, or the handlers are tried.
unfoldable pub end_body :
    ℕ → State × Outcome → (State → State × Flag × Outcome) → State × Flag × Outcome
unfolding with_flag pop_stack
end_body d (s, done) handle = with_flag entered (pop_stack s)
end_body d (s, crashed) handle = (s, entered, crashed)
end_body d (s, jumped f) handle = if f == d then handle s else (s, thrown, jumped f)

unfoldable pub finally_do :
    State × Flag × Outcome → (State → State × Outcome) → State × Flag × Outcome
unfolding with_flag finalize
finally_do (s, flag, done) last = with_flag (finalize flag) (last s)
finally_do (s, flag, o) last = (s, flag, o)

unfoldable pub finish : ℕ → State × Flag × Outcome → State × Outcome
unfolding end_try
finish d (s, flag, o) = end_try d flag o s

-- The code under `d` Trys, and the chain of the handlers of the Try at `d`.
unfoldable mutual
  unfolding emit exception_throw enter after end_body finally_do finish with_flag

  pub run : Statement → ℕ → State → State × Outcome
  run (other n) d s = (emit (did n) s, done)
  run (throw excep cause origin) d s = exception_throw excep cause origin s
  run (then_do a b) d s = after (run a d s) (λ s'. run b d s')
  run (try body handlers) d s =
      finish d (end_body d (run body (suc d) (enter d s)) (λ s'. run_handlers handlers d s'))
  run (try_finally body handlers last) d s = finish d (
      finally_do (end_body d (run body (suc d) (enter d s)) (λ s'. run_handlers handlers d s'))
        (λ s'. run last (suc d) s'))

  pub run_handlers : Handlers → ℕ → State → State × Flag × Outcome
  run_handlers no_more d s = (s, thrown, done)
  run_handlers (catch excep handler handlers) d s =
      let here = with_flag handled (run handler (suc d) s) in
      let later = run_handlers handlers d s in
      if (s.frame d).exception == excep then here else later
