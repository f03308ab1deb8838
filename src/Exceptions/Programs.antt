-- ===== src/Exceptions/Programs.antt =====
-- Whole programs with exceptions, and handlers that throw.
use c_c_linux_learning_code.Common.{
  none≢some, ℕ, ◌≡◌, refl, sym, ap, ◌∙◌, subst, true, false, none, some, List, [], ◌++◌, eq-true,
}
use mathlib.Core.Option.{some-injective}
use c_c_linux_learning_code.Exceptions.{
  Origin, Event, Frame, State, Outcome, done, crashed, jumped, run, Statement, try_finally, catch,
  no_more,
}
use c_c_linux_learning_code.Exceptions.Reference.{
  Meaning, finished, raised, before, join, guarded, meaning,
}
use c_c_linux_learning_code.Exceptions.Agreement.{inside, IsLive, Agrees}
use c_c_linux_learning_code.Exceptions.Equal.{run-Agrees}
use c_c_linux_learning_code.Exceptions.Structured.{Settled, structured, meaning-structured}

-- After ntyExceptionInit; `frames` is what the memory of the frames holds.
abbrev pub start : (ℕ → Frame) → State
start frames = record { stack = none; frame = frames; log = [] }

start-Agrees :
    (frames : ℕ → Frame) (m : Meaning) (r : State × Outcome)
    → Agrees 0 (start frames) m r
    → (s : State) × (r ≡ (s, done)) × (s.log ≡ m.0) × (s.stack ≡ none)
start-Agrees frames (events, finished) (s, done) k = (s, refl, k.log, k.stack)
start-Agrees frames (events, finished) (s, crashed) k = elim k [ ]
start-Agrees frames (events, finished) (s, jumped f) k = elim k [ ]
start-Agrees frames (events, raised x o) (s, done) k = elim k [ ]
start-Agrees frames (events, raised x o) (s, crashed) k = elim k [ ]
start-Agrees frames (events, raised x o) (s, jumped f) k = absurd (none≢some k.top)

-- Every program of throws, sequences, Try, Catch, Finally and EndTry in which no handler of a Try
-- with a Finally is left by an exception, run from the empty stack over any contents of the frames,
-- ends at its end, without an access to NULL or a jump that no Try receives, with an empty stack,
-- and has done exactly the events, in order, of structured exceptions, where the last block of a
-- Try runs however the Try is left. There an exception that no Catch takes goes on without its
-- cause, and one outside of every Try is reported and what follows it is done.
pub run_program :
    (program : Statement) (frames : ℕ → Frame)
    → Settled program false
    → (s : State) × (run program 0 (start frames) ≡ (s, done))
      × (s.log ≡ (structured program false).0)
      × (s.stack ≡ none)
unfolding inside
run_program program frames settled =
    let (s, ends, log, empty) =
      start-Agrees frames (meaning program false) (run program 0 (start frames))
        (run-Agrees program 0 (start frames) (λ f e. absurd (none≢some e))) in
    (s, ends, log ∙ ap (λ m. m.0) (meaning-structured program false settled), empty)

raised-Agrees :
    (d : ℕ) (s : State) (events : List Event) (x : ℕ) (o : Origin) (r : State × Outcome)
    → Agrees d s (events, raised x o) r
    → (s' : State) × (f : ℕ) × (s.stack ≡ some f)
      × (r ≡ (s', jumped f))
      × (s'.log ≡ s.log ++ events)
raised-Agrees d s events x o (s', done) k = elim k [ ]
raised-Agrees d s events x o (s', crashed) k = elim k [ ]
raised-Agrees d s events x o (s', jumped f) k = (s', f, k.top, refl, k.log)

-- Inside of another Try, a Try with one Catch and a Finally, whose body throws the exception that
-- the Catch takes and whose handler throws: the code jumps to the frame of the Try around it, and
-- has done what the body and the handler did before their throws, but nothing of the code behind
-- Finally.
pub finally_skipped :
    (body handler last : Statement) (x y : ℕ) (o p : Origin) (first second : List Event) (d g : ℕ)
    (s : State)
    → IsLive d s
    → s.stack ≡ some g
    → meaning body true ≡ (first, raised x o)
    → meaning handler true ≡ (second, raised y p)
    → (s' : State) × (run (try_finally body (catch x handler no_more) last) d s ≡ (s', jumped g))
      × (s'.log ≡ s.log ++ (first ++ second))
unfolding meaning guarded before join inside
finally_skipped body handler last x y o p first second d g s live around e h =
    let st = try_finally body (catch x handler no_more) last in
    let what : meaning st true ≡ (first ++ second, raised y p) =
      rw (e, h, eq-true {a = x} refl) refl in
    let k = run-Agrees st d s live in
    let k' : Agrees d s (first ++ second, raised y p) (run st d s) =
      subst (λ m. Agrees d s m (run st d s)) (ap (λ top. meaning st (inside top)) around ∙ what)
        k in
    let (s', f, top, same, log) = raised-Agrees d s (first ++ second) y p (run st d s) k' in
    (s', same ∙ ap (λ a. (s', jumped a)) (some-injective f g (sym top ∙ around)), log)
