-- ===== src/Exceptions/Trys.antt =====
-- A single Try, whatever its body, its handlers and its end do.
use c_c_linux_learning_code.Common.{
  ℕ, suc, ◌<◌, ◌≡◌, refl, sym, ap, ◌∙◌, subst, arith, false, List, ◌==◌, eq-true, eq-false,
}
use mathlib.Core.Option.{some-injective}
use c_c_linux_learning_code.Exceptions.{
  Origin, Event, Frame, State, Outcome, done, crashed, jumped, Flag, entered, thrown, handled,
  finalized, enter, after, pop_from, pop_stack, with_flag, end_body, finish, end_try, rethrow,
}
use c_c_linux_learning_code.Exceptions.Reference.{finished, raised, Meaning, guarded}
use c_c_linux_learning_code.Exceptions.Agreement.{
  IsLive, IsFinished, IsRaised, Agrees, finished-IsLive, before-Agrees,
}

pub enter-IsLive : (d : ℕ) (s : State) → IsLive (suc d) (enter d s)
unfolding enter
enter-IsLive d s f e = let same = some-injective d f e in omega arith

enter-frame : (d : ℕ) (s : State) (g : ℕ) → g < d → (enter d s).frame g ≡ s.frame g
unfolding enter
enter-frame d s g less = let apart : (d == g) ≡ false = eq-false (omega arith) in rw apart refl

enter-next : (d : ℕ) (s : State) → ((enter d s).frame d).next ≡ s.stack
unfolding enter
enter-next d s = rw (eq-true {a = d} refl) refl

-- The body came to its end.
popped-IsFinished :
    (d : ℕ) (s s' : State) (events : List Event)
    → IsFinished (suc d) (enter d s) events s'
    → IsFinished d s events (record s' { stack = (s'.frame d).next })
unfolding enter
popped-IsFinished d s s' events k = record {
  log = k.log;
  stack = ap (λ frame. Frame.next frame) (k.frames d (omega arith)) ∙ enter-next d s;
  frames = λ g less. k.frames g (omega arith) ∙ enter-frame d s g less;
}

-- The body raised an exception, for its own handlers.
caught-IsFinished :
    (d : ℕ) (s s' : State) (events : List Event) (x : ℕ) (o : Origin) (f : ℕ)
    → IsRaised (suc d) (enter d s) events x o f s'
    → (f ≡ d) × IsFinished d s events s' × ((s'.frame d).exception ≡ x) × ((s'.frame d).origin ≡ o)
unfolding enter
caught-IsFinished d s s' events x o f k =
    let own : f ≡ d = sym (some-injective d f k.top) in
    (
      own,
      record {
        log = k.log;
        stack = k.stack ∙ ap (λ a. ((enter d s).frame a).next) own ∙ enter-next d s;
        frames = λ g less. k.frames g (omega arith) (omega arith) ∙ enter-frame d s g less;
      },
      subst (λ a. (s'.frame a).exception ≡ x) own k.exception,
      subst (λ a. (s'.frame a).origin ≡ o) own k.origin,
    )

-- A Try, whatever stands behind its body.
pub try-Agrees :
    (d : ℕ) (s : State) (m last : Meaning) (r : State × Outcome)
    (ending : State × Flag × Outcome → State × Outcome) (handle : ℕ → Origin → Meaning)
    (handle_run : State → State × Flag × Outcome)
    → IsLive d s
    → Agrees (suc d) (enter d s) m r
    → ((s' : State)
        → IsLive d s'
        → s'.stack ≡ s.stack
        → Agrees d s' last (ending (s', entered, done)))
    → ((s' : State) (x : ℕ) (o : Origin)
        → IsLive d s'
        → s'.stack ≡ s.stack
        → (s'.frame d).exception ≡ x
        → (s'.frame d).origin ≡ o
        → Agrees d s' (handle x o) (ending (handle_run s')))
    → Agrees d s (guarded m last handle) (ending (end_body d r handle_run))
unfolding guarded end_body with_flag pop_stack pop_from enter
try-Agrees d s (events, finished) last (s', done) ending handle handle_run live k e h =
    let k' = popped-IsFinished d s s' events k in
    let s1 = record s' { stack = (s'.frame d).next } in
    rw k.stack (
      before-Agrees d s s1 events last (ending (s1, entered, done)) live k'
        (e s1 (finished-IsLive d s s1 events k' live) k'.stack))
try-Agrees d s (events, finished) last (s', crashed) ending handle handle_run live k e h =
    elim k [ ]
try-Agrees d s (events, finished) last (s', jumped f) ending handle handle_run live k e h =
    elim k [ ]
try-Agrees d s (events, raised x o) last (s', done) ending handle handle_run live k e h = elim k [ ]
try-Agrees d s (events, raised x o) last (s', crashed) ending handle handle_run live k e h =
    elim k [ ]
try-Agrees d s (events, raised x o) last (s', jumped f) ending handle handle_run live k e h =
    let (own, k', exception, origin) = caught-IsFinished d s s' events x o f k in
    rw (eq-true own) (
      before-Agrees d s s' events (handle x o) (ending (handle_run s')) live k'
        (h s' x o (finished-IsLive d s s' events k' live) k'.stack exception origin))

pub finish-entered : (d : ℕ) (r : State × Outcome) → finish d (with_flag finalized r) ≡ r
unfolding finish with_flag end_try
finish-entered d (s, done) = refl
finish-entered d (s, crashed) = refl
finish-entered d (s, jumped f) = refl

pub finish-handled : (d : ℕ) (r : State × Outcome) → finish d (with_flag handled r) ≡ r
unfolding finish with_flag end_try
finish-handled d (s, done) = refl
finish-handled d (s, crashed) = refl
finish-handled d (s, jumped f) = refl

pub finish-thrown :
    (d : ℕ) (r : State × Outcome) → finish d (with_flag thrown r) ≡ after r (λ s. rethrow d s)
unfolding finish with_flag end_try after
finish-thrown d (s, done) = refl
finish-thrown d (s, crashed) = refl
finish-thrown d (s, jumped f) = refl
