-- ===== src/Exceptions/Agreement.antt =====
-- A run of the macros that does what a meaning says, and how such runs are put together.
use c_c_linux_learning_code.Common.{
  Bytes, ℕ, suc, ◌<◌, ◌≡◌, ◌≢◌, refl, sym, ap, ◌∙◌, arith, Bool, true, false, Option, none, some,
  List, [], ◌∷◌, ◌++◌, ◌==◌, eq-true, eq-false,
}
use mathlib.Core.List.{append_assoc, append-nil}
use c_c_linux_learning_code.Exceptions.{
  Origin, Event, Frame, State, Outcome, done, crashed, jumped, emit, throw_to, exception_throw,
  after,
}
use c_c_linux_learning_code.Exceptions.Reference.{finished, raised, Meaning, raise, before, join}

-- Whether a Try is around.
unfoldable pub inside : Option ℕ → Bool
inside none = false
inside (some f) = true

-- The frame that the stack begins with belongs to one of the `d` Trys around.
abbrev pub IsLive : ℕ → State → Type 0
IsLive d s = (f : ℕ) → s.stack ≡ some f → f < d

-- The code came to its end, with the stack and the frames of the Trys around as they were.
pub record IsFinished (d : ℕ) (s : State) (events : List Event) (s' : State) : Type 0 where
  pub log : s'.log ≡ s.log ++ events
  pub stack : s'.stack ≡ s.stack
  pub frames : (g : ℕ) → g < d → s'.frame g ≡ s.frame g

-- An exception went to the innermost Try around, whose frame holds it and is popped.
pub record IsRaised (d : ℕ) (s : State) (events : List Event) (x : ℕ) (o : Origin) (f : ℕ)
    (s' : State) : Type 0 where
  pub top : s.stack ≡ some f
  pub log : s'.log ≡ s.log ++ events
  pub stack : s'.stack ≡ (s.frame f).next
  pub exception : (s'.frame f).exception ≡ x
  pub origin : (s'.frame f).origin ≡ o
  pub frames : (g : ℕ) → g < d → g ≢ f → s'.frame g ≡ s.frame g

abbrev pub Agrees : ℕ → State → Meaning → State × Outcome → Type 0
Agrees d s (events, finished) (s', done) = IsFinished d s events s'
Agrees d s (events, finished) (s', crashed) = ⊥
Agrees d s (events, finished) (s', jumped f) = ⊥
Agrees d s (events, raised excep origin) (s', done) = ⊥
Agrees d s (events, raised excep origin) (s', crashed) = ⊥
Agrees d s (events, raised excep origin) (s', jumped f) = IsRaised d s events excep origin f s'

pub finished-IsLive :
    (d : ℕ) (s s' : State) (events : List Event)
    → IsFinished d s events s'
    → IsLive d s
    → IsLive d s'
finished-IsLive d s s' events k live f e = live f (sym k.stack ∙ e)

pub before-Agrees :
    (d : ℕ) (s s' : State) (events : List Event) (next : Meaning) (r : State × Outcome)
    → IsLive d s
    → IsFinished d s events s'
    → Agrees d s' next r
    → Agrees d s (before events next) r
unfolding before
before-Agrees d s s' events (more, finished) (t, done) live k h = record {
  log = h.log ∙ ap (λ l. l ++ more) k.log ∙ append_assoc s.log events more;
  stack = h.stack ∙ k.stack;
  frames = λ g less. h.frames g less ∙ k.frames g less;
}
before-Agrees d s s' events (more, finished) (t, crashed) live k h = h
before-Agrees d s s' events (more, finished) (t, jumped f) live k h = h
before-Agrees d s s' events (more, raised x o) (t, done) live k h = h
before-Agrees d s s' events (more, raised x o) (t, crashed) live k h = h
before-Agrees d s s' events (more, raised x o) (t, jumped f) live k h =
    let top = sym k.stack ∙ h.top in
    record {
      top = top;
      log = h.log ∙ ap (λ l. l ++ more) k.log ∙ append_assoc s.log events more;
      stack = h.stack ∙ ap (λ frame. Frame.next frame) (k.frames f (live f top));
      exception = h.exception;
      origin = h.origin;
      frames = λ g less other. h.frames g less other ∙ k.frames g less;
    }

pub after-Agrees :
    (d : ℕ) (s : State) (first next : Meaning) (r : State × Outcome)
    (rest : State → State × Outcome)
    → IsLive d s
    → Agrees d s first r
    → ((s' : State) (events : List Event)
        → IsLive d s'
        → IsFinished d s events s'
        → Agrees d s' next (rest s'))
    → Agrees d s (join first next) (after r rest)
unfolding join after
after-Agrees d s (events, finished) next (s', done) rest live k h =
    before-Agrees d s s' events next (rest s') live k
      (h s' events (finished-IsLive d s s' events k live) k)
after-Agrees d s (events, finished) next (s', crashed) rest live k h = elim k [ ]
after-Agrees d s (events, finished) next (s', jumped f) rest live k h = elim k [ ]
after-Agrees d s (events, raised x o) next (s', done) rest live k h = elim k [ ]
after-Agrees d s (events, raised x o) next (s', crashed) rest live k h = elim k [ ]
after-Agrees d s (events, raised x o) next (s', jumped f) rest live k h = k

-- Fewer Trys around.
pub Agrees-outer :
    (d : ℕ) (s : State) (m : Meaning) (r : State × Outcome) → Agrees (suc d) s m r → Agrees d s m r
Agrees-outer d s (events, finished) (s', done) k = record {
  log = k.log;
  stack = k.stack;
  frames = λ g less. k.frames g (omega arith);
}
Agrees-outer d s (events, finished) (s', crashed) k = k
Agrees-outer d s (events, finished) (s', jumped f) k = k
Agrees-outer d s (events, raised x o) (s', done) k = k
Agrees-outer d s (events, raised x o) (s', crashed) k = k
Agrees-outer d s (events, raised x o) (s', jumped f) k = record {
  top = k.top;
  log = k.log;
  stack = k.stack;
  exception = k.exception;
  origin = k.origin;
  frames = λ g less other. k.frames g (omega arith) other;
}

pub emit-IsFinished : (d : ℕ) (s : State) (e : Event) → IsFinished d s (e ∷ []) (emit e s)
unfolding emit
emit-IsFinished d s e = record { log = refl; stack = refl; frames = λ g less. refl }

throw_to-Agrees :
    (d : ℕ) (s : State) (top : Option ℕ) (excep : ℕ) (cause : Option Bytes) (origin : Origin)
    → s.stack ≡ top
    → Agrees d s (raise (inside top) excep cause origin) (throw_to top excep cause origin s)
unfolding throw_to raise inside
throw_to-Agrees d s none excep cause origin e = emit-IsFinished d s _
throw_to-Agrees d s (some f) excep cause origin e =
    let test = eq-true {a = f} refl in
    record {
      top = e;
      log = sym (append-nil s.log);
      stack = refl;
      exception = rw test refl;
      origin = rw test refl;
      frames = λ g less other.
          let apart : (f == g) ≡ false = eq-false (λ p. other (sym p)) in rw apart refl;
    }

pub exception_throw-Agrees :
    (d : ℕ) (s : State) (excep : ℕ) (cause : Option Bytes) (origin : Origin)
    → Agrees d s (raise (inside s.stack) excep cause origin) (exception_throw excep cause origin s)
unfolding exception_throw
exception_throw-Agrees d s excep cause origin = throw_to-Agrees d s s.stack excep cause origin refl
