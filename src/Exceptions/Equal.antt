-- ===== src/Exceptions/Equal.antt =====
-- The macros do what a program means.
use c_c_linux_learning_code.Common.{
  ℕ, suc, ◌≡◌, refl, sym, ap, ◌∙◌, subst, arith, Bool, true, false, none, [], ◌==◌, if◌then◌else◌,
  Bool-cases, inl, inr,
}
use mathlib.Core.List.{append-nil}
use c_c_linux_learning_code.Exceptions.{
  Origin, did, Frame, State, Outcome, done, crashed, jumped, Flag, entered, thrown, handled, enter,
  after, with_flag, finally_do, finalize, finish, end_try, rethrow, run, run_handlers, Statement,
  other, throw, then_do, try, try_finally, Handlers, no_more, catch,
}
use c_c_linux_learning_code.Exceptions.Reference.{
  finished, Meaning, raise, before, join, meaning, handled_by,
}
use c_c_linux_learning_code.Exceptions.Agreement.{
  inside, IsLive, Agrees, after-Agrees, Agrees-outer, emit-IsFinished, exception_throw-Agrees,
}
use c_c_linux_learning_code.Exceptions.Trys.{
  enter-IsLive, try-Agrees, finish-entered, finish-handled, finish-thrown,
}

nothing-Agrees : (d : ℕ) (s : State) → Agrees d s ([], finished) (s, done)
nothing-Agrees d s = record { log = sym (append-nil s.log); stack = refl; frames = λ g less. refl }

IsLive-suc : (d : ℕ) (s : State) → IsLive d s → IsLive (suc d) s
IsLive-suc d s live f e = let less = live f e in omega arith

nothing-join :
    (d : ℕ) (s : State) (m : Meaning) (r : State × Outcome)
    → Agrees d s m r
    → Agrees d s (join ([], finished) m) r
unfolding join before
nothing-join d s (events, result) r k = k

rethrow-Agrees :
    (d depth : ℕ) (s : State) (x : ℕ) (o : Origin)
    → (s.frame d).exception ≡ x
    → (s.frame d).origin ≡ o
    → Agrees depth s (raise (inside s.stack) x none o) (rethrow d s)
unfolding rethrow
rethrow-Agrees d depth s x o exception origin =
    rw (← exception, ← origin)
      (exception_throw-Agrees depth s (s.frame d).exception none (s.frame d).origin)

-- A handler that has run before the end of its Try.
handler-Agrees :
    (d : ℕ) (s : State) (m last : Meaning) (r : State × Outcome)
    (ending : State × Flag × Outcome → State × Outcome)
    → IsLive d s
    → Agrees (suc d) s m r
    → ((t : State × Outcome)
        → ending (with_flag handled t) ≡ after t (λ s'. ending (s', handled, done)))
    → ((s' : State)
        → IsLive d s'
        → s'.stack ≡ s.stack
        → Agrees d s' last (ending (s', handled, done)))
    → Agrees d s (join m last) (ending (with_flag handled r))
handler-Agrees d s m last r ending live k same e = rw (same r) (
    after-Agrees d s m last r (λ s'. ending (s', handled, done)) live (Agrees-outer d s m r k)
      (λ s' events live' k'. e s' live' k'.stack))

entered-Agrees :
    (d : ℕ) (s : State) (body : Statement)
    → Agrees
        (suc d)
        (enter d s)
        (meaning body (inside (enter d s).stack))
        (run body (suc d) (enter d s))
    → Agrees (suc d) (enter d s) (meaning body true) (run body (suc d) (enter d s))
unfolding enter inside
entered-Agrees d s body k = k

finish-after :
    (d : ℕ) (t : State × Outcome)
    → finish d (with_flag handled t) ≡ after t (λ s'. finish d (s', handled, done))
unfolding finish with_flag end_try after
finish-after d (s, done) = refl
finish-after d (s, crashed) = refl
finish-after d (s, jumped f) = refl

module _ (d : ℕ) (s : State) (last : Statement) (m : Meaning) where
  finally-entered :
      Agrees (suc d) s m (run last (suc d) s)
      → Agrees d s m (finish d (finally_do (s, entered, done) (λ s'. run last (suc d) s')))
  unfolding finally_do finalize
  finally-entered k =
      rw (finish-entered d (run last (suc d) s)) (Agrees-outer d s m (run last (suc d) s) k)

  finally-handled :
      Agrees (suc d) s m (run last (suc d) s)
      → Agrees d s m (finish d (finally_do (s, handled, done) (λ s'. run last (suc d) s')))
  unfolding finally_do finalize
  finally-handled k =
      rw (finish-handled d (run last (suc d) s)) (Agrees-outer d s m (run last (suc d) s) k)

  -- The last block leaves the frame of its Try alone, whose exception goes on.
  finally-thrown :
      (x : ℕ) (o : Origin)
      → IsLive d s
      → (s.frame d).exception ≡ x
      → (s.frame d).origin ≡ o
      → Agrees (suc d) s m (run last (suc d) s)
      → Agrees d s
          (join m (raise (inside s.stack) x none o))
          (finish d (finally_do (s, thrown, done) (λ s'. run last (suc d) s')))
  unfolding finally_do finalize
  finally-thrown x o live exception origin k = rw (finish-thrown d (run last (suc d) s)) (
      Agrees-outer d s (join m (raise (inside s.stack) x none o))
        (after (run last (suc d) s) (λ s'. rethrow d s'))
        (after-Agrees (suc d) s m (raise (inside s.stack) x none o) (run last (suc d) s)
          (λ s'. rethrow d s') (IsLive-suc d s live) k
          (λ s' events live' f.
            let same = f.frames d (omega arith) in
            subst (λ top. Agrees (suc d) s' (raise (inside top) x none o) (rethrow d s')) f.stack
              (rethrow-Agrees d (suc d) s' x o
                (ap (λ frame. Frame.exception frame) same ∙ exception)
                (ap (λ frame. Frame.origin frame) same ∙ origin)))))

finally-after :
    (d : ℕ) (last : Statement) (t : State × Outcome)
    → finish d (finally_do (with_flag handled t) (λ s'. run last (suc d) s'))
      ≡ after t (λ s'. finish d (finally_do (s', handled, done) (λ s''. run last (suc d) s'')))
unfolding finally_do finish with_flag end_try after
finally-after d last (s, done) = refl
finally-after d last (s, crashed) = refl
finally-after d last (s, jumped f) = refl

module _ (y : ℕ) (h : Statement) (hs : Handlers) (d : ℕ) (s : State) (test : Bool)
    (e : ((s.frame d).exception == y) ≡ test) where
  run_handlers-catch :
      run_handlers (catch y h hs) d s
      ≡ (if test then with_flag handled (run h (suc d) s) else run_handlers hs d s)
  unfolding run_handlers
  run_handlers-catch = rw e refl

handled_by-catch :
    (x y : ℕ) (h : Statement) (hs : Handlers) (around : Bool) (last : Meaning) (o : Origin)
    (test : Bool)
    → (x == y) ≡ test
    → handled_by (catch y h hs) around last x o
      ≡ (if test then join (meaning h around) last else handled_by hs around last x o)
unfolding handled_by
handled_by-catch x y h hs around last o test e = rw e refl

mutual
  unfolding run meaning

  pub run-Agrees :
      (st : Statement) (d : ℕ) (s : State)
      → IsLive d s
      → Agrees d s (meaning st (inside s.stack)) (run st d s)
  run-Agrees (other n) d s live = emit-IsFinished d s (did n)
  run-Agrees (throw x cause o) d s live = exception_throw-Agrees d s x cause o
  run-Agrees (then_do a b) d s live =
      after-Agrees d s (meaning a (inside s.stack)) (meaning b (inside s.stack)) (run a d s)
        (λ s'. run b d s') live (run-Agrees a d s live)
        (λ s' events live' k.
          subst (λ top. Agrees d s' (meaning b (inside top)) (run b d s')) k.stack
            (run-Agrees b d s' live'))
  run-Agrees (try body handlers) d s live =
      try-Agrees d s (meaning body true) ([], finished) (run body (suc d) (enter d s)) (finish d)
        (λ x o. handled_by handlers (inside s.stack) ([], finished) x o)
        (λ s'. run_handlers handlers d s') live
        (entered-Agrees d s body (run-Agrees body (suc d) (enter d s) (enter-IsLive d s)))
        (λ s' live' stack. nothing-Agrees d s')
        (λ s' x o live' stack exception origin.
          subst
            (λ top.
              Agrees d s' (handled_by handlers (inside top) ([], finished) x o)
                (finish d (run_handlers handlers d s')))
            stack
            (run_handlers-Agrees handlers d s' x o ([], finished) (finish d) live' exception
              (finish-after d) (λ t live'' stack'. nothing-Agrees d t)
              (nothing-join d s' (raise (inside s'.stack) x none o) (rethrow d s')
                (rethrow-Agrees d d s' x o exception origin))))
  run-Agrees (try_finally body handlers last) d s live =
      let m = meaning last (inside s.stack) in
      let ending : State × Flag × Outcome → State × Outcome =
        λ t. finish d (finally_do t (λ s'. run last (suc d) s')) in
      let last_run : (s' : State)
          → IsLive d s'
          → s'.stack ≡ s.stack
          → Agrees (suc d) s' m (run last (suc d) s') =
        λ s' live' stack.
          subst (λ top. Agrees (suc d) s' (meaning last (inside top)) (run last (suc d) s')) stack
            (run-Agrees last (suc d) s' (IsLive-suc d s' live')) in
      try-Agrees d s (meaning body true) m (run body (suc d) (enter d s)) ending
        (λ x o. handled_by handlers (inside s.stack) m x o) (λ s'. run_handlers handlers d s') live
        (entered-Agrees d s body (run-Agrees body (suc d) (enter d s) (enter-IsLive d s)))
        (λ s' live' stack. finally-entered d s' last m (last_run s' live' stack))
        (λ s' x o live' stack exception origin.
          subst
            (λ top.
              Agrees d s' (handled_by handlers (inside top) m x o)
                (ending (run_handlers handlers d s')))
            stack
            (run_handlers-Agrees handlers d s' x o m ending live' exception (finally-after d last)
              (λ t live'' stack'. finally-handled d t last m (last_run t live'' (stack' ∙ stack)))
              (finally-thrown d s' last m x o live' exception origin (last_run s' live' stack))))

  pub run_handlers-Agrees :
      (hs : Handlers) (d : ℕ) (s : State) (x : ℕ) (o : Origin) (last : Meaning)
      (ending : State × Flag × Outcome → State × Outcome)
      → IsLive d s
      → (s.frame d).exception ≡ x
      → ((t : State × Outcome)
          → ending (with_flag handled t) ≡ after t (λ s'. ending (s', handled, done)))
      → ((s' : State)
          → IsLive d s'
          → s'.stack ≡ s.stack
          → Agrees d s' last (ending (s', handled, done)))
      → Agrees d s (join last (raise (inside s.stack) x none o)) (ending (s, thrown, done))
      → Agrees d s (handled_by hs (inside s.stack) last x o) (ending (run_handlers hs d s))
  run_handlers-Agrees no_more d s x o last ending live exception same e rest = rest
  run_handlers-Agrees (catch y h hs) d s x o last ending live exception same e rest =
      elim (Bool-cases (x == y)) [
        | inl test ↦
            rw
              (
                run_handlers-catch y h hs d s true (rw exception test),
                handled_by-catch x y h hs (inside s.stack) last o true test,
              )
              (handler-Agrees d s (meaning h (inside s.stack)) last (run h (suc d) s) ending live
                (run-Agrees h (suc d) s (IsLive-suc d s live)) same e)
        | inr test ↦
            rw
              (
                run_handlers-catch y h hs d s false (rw exception test),
                handled_by-catch x y h hs (inside s.stack) last o false test,
              )
              (run_handlers-Agrees hs d s x o last ending live exception same e rest)
      ]
