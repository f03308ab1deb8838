-- ===== src/Exceptions/Tests.antt =====
-- The theorems on exceptions at concrete programs.
use c_c_linux_learning_code.Common.{ℕ, ◌≡◌, refl, arith, false, none, some, [], ◌∷◌}
use mathlib.Core.Option.{some-injective}
use c_c_linux_learning_code.Exceptions.{
  Origin, Statement, other, throw, then_do, try, try_finally, no_more, catch, Frame, State, done,
  jumped, run,
}
use c_c_linux_learning_code.Exceptions.Reference.{meaning, raise}
use c_c_linux_learning_code.Exceptions.Structured.{Settled, Complete, structured}
use c_c_linux_learning_code.Exceptions.Programs.{start, run_program, finally_skipped}

abbrev here : Origin
here = record { func = 0; file = 0; line = 302 }

-- The inner Try catches its exception, the outer one what follows, and then runs its last block.
abbrev nested : Statement
nested =
    try_finally
      (then_do (try (throw 2 (some (98 ∷ [])) here) (catch 2 (other 20) no_more))
        (throw 1 none here))
      (catch 1 (other 10) no_more) (other 30)

abbrev frames : ℕ → Frame
frames a = record { exception = 0; origin = here; message = []; next = none }

run_program_example :
    (s : State) × (run nested 0 (start frames) ≡ (s, done))
    × (s.log ≡ (structured nested false).0)
    × (s.stack ≡ none)
unfolding Settled Complete structured
run_program_example = run_program nested frames ((((tt, (tt, tt)), tt), (tt, tt)), (tt, (refl, tt)))

-- Inside the Try at the address 0.
abbrev around : State
around = record { stack = some 0; frame = frames; log = [] }

finally_skipped_example :
    (s' : State) × (run
        (try_finally (throw 1 none here) (catch 1 (throw 2 none here) no_more) (other 5))
        1
        around
      ≡ (s', jumped 0))
    × (s'.log ≡ [])
unfolding meaning raise
finally_skipped_example =
    finally_skipped (throw 1 none here) (throw 2 none here) (other 5) 1 2 here here [] [] 1 0 around
      (λ f e. let same = some-injective 0 f e in omega arith) refl refl refl
