-- ===== src/Exceptions/Structured.antt =====
-- Structured exceptions: the last block of a Try runs however the Try is left, also when a handler
-- throws. The macros agree with this for the programs below whose handlers keep a condition.
use c_c_linux_learning_code.Common.{
  ℕ, ◌≡◌, ◌⊎◌, inl, inr, refl, sym, ap, ◌∙◌, Bool, true, false, none, List, [], ◌∷◌, ◌++◌, ◌==◌,
  if◌then◌else◌, Bool-cases,
}
use mathlib.Core.List.{append-nil, append_assoc}
use c_c_linux_learning_code.Exceptions.{
  Origin, Event, did, Statement, other, throw, then_do, try, try_finally, Handlers, no_more, catch,
}
use c_c_linux_learning_code.Exceptions.Reference.{
  Meaning, finished, raised, raise, before, join, guarded, meaning, handled_by,
}

-- An exception is given to the handlers, which may throw another one.
unfoldable pub rescue : Meaning → (ℕ → Origin → Meaning) → Meaning
unfolding before
rescue (events, finished) handle = (events, finished)
rescue (events, raised excep origin) handle = before events (handle excep origin)

-- The last block runs in every case, and then the exception goes on, if there is one.
unfoldable pub finally : Meaning → Meaning → Meaning
finally (events, result) (events', finished) = (events ++ events', result)
finally (events, result) (events', raised excep origin) = (events ++ events', raised excep origin)

-- What a Try is left with goes to the Try around it. It has no cause there: ReThrow gives NULL.
unfoldable pub pass_on : Bool → Meaning → Meaning
unfolding before raise
pass_on inside (events, finished) = (events, finished)
pass_on inside (events, raised excep origin) = before events (raise inside excep none origin)

unfoldable mutual
  unfolding raise join rescue finally pass_on

  pub structured : Statement → Bool → Meaning
  structured (other n) inside = (did n ∷ [], finished)
  structured (throw excep cause origin) inside = raise inside excep cause origin
  structured (then_do a b) inside = join (structured a inside) (structured b inside)
  structured (try body handlers) inside =
      pass_on inside
        (rescue (structured body true) λ excep origin. chosen handlers inside excep origin)
  structured (try_finally body handlers last) inside = pass_on inside (
      finally (rescue (structured body true) λ excep origin. chosen handlers inside excep origin)
        (structured last inside))

  -- The first handler for the exception, which stays where there is none.
  pub chosen : Handlers → Bool → ℕ → Origin → Meaning
  chosen no_more inside excep origin = ([], raised excep origin)
  chosen (catch x handler handlers) inside excep origin =
      let here = structured handler inside in
      let later = chosen handlers inside excep origin in if excep == x then here else later

-- No handler is left by an exception.
unfoldable pub Complete : Handlers → Bool → Type 0
unfolding structured
Complete no_more inside = Unit
Complete (catch x handler handlers) inside =
    ((structured handler inside).1 ≡ finished) × Complete handlers inside

-- In every Try with a Finally no handler is left by an exception.
unfoldable mutual
  unfolding Complete

  pub Settled : Statement → Bool → Type 0
  Settled (other n) inside = Unit
  Settled (throw excep cause origin) inside = Unit
  Settled (then_do a b) inside = Settled a inside × Settled b inside
  Settled (try body handlers) inside = Settled body true × AllSettled handlers inside
  Settled (try_finally body handlers last) inside =
      (Settled body true × AllSettled handlers inside)
      × (Settled last inside × Complete handlers inside)

  pub AllSettled : Handlers → Bool → Type 0
  AllSettled no_more inside = Unit
  AllSettled (catch x handler handlers) inside = Settled handler inside × AllSettled handlers inside

-- Outside of every Try nothing is left by an exception.
abbrev Fits : Bool → Meaning → Type 0
Fits true m = Unit
Fits false (events, finished) = Unit
Fits false (events, raised excep origin) = ⊥

pass_on-Fits : (inside : Bool) (m : Meaning) → Fits inside (pass_on inside m)
unfolding pass_on raise before
pass_on-Fits true m = tt
pass_on-Fits false (events, finished) = tt
pass_on-Fits false (events, raised x o) = tt

finished-Fits : (inside : Bool) (events : List Event) → Fits inside (events, finished)
finished-Fits true events = tt
finished-Fits false events = tt

Fits-events :
    (inside : Bool) (es es' : List Event) (x : ℕ) (o : Origin)
    → Fits inside (es, raised x o)
    → Fits inside (es', raised x o)
Fits-events true es es' x o h = tt
Fits-events false es es' x o h = h

pass_on-id : (inside : Bool) (m : Meaning) → Fits inside m → pass_on inside m ≡ m
unfolding pass_on raise before
pass_on-id inside (events, finished) h = refl
pass_on-id true (events, raised x o) h = ap (λ es. (es, raised x o)) (append-nil events)
pass_on-id false (events, raised x o) h = elim h [ ]

join-Fits : (inside : Bool) (a b : Meaning) → Fits inside a → Fits inside b → Fits inside (join a b)
unfolding join before
join-Fits true a b h k = tt
join-Fits false (events, finished) (events', finished) h k = tt
join-Fits false (events, finished) (events', raised x o) h k = k
join-Fits false (events, raised x o) b h k = h

raise-Fits : (inside : Bool) (x : ℕ) (o : Origin) → Fits inside (raise inside x none o)
unfolding raise
raise-Fits true x o = tt
raise-Fits false x o = tt

structured-Fits : (st : Statement) (inside : Bool) → Fits inside (structured st inside)
unfolding structured raise
structured-Fits (other n) true = tt
structured-Fits (other n) false = tt
structured-Fits (throw x cause o) true = tt
structured-Fits (throw x cause o) false = tt
structured-Fits (then_do a b) inside =
    join-Fits inside (structured a inside) (structured b inside) (structured-Fits a inside)
      (structured-Fits b inside)
structured-Fits (try body handlers) inside =
    pass_on-Fits inside (rescue (structured body true) λ x o. chosen handlers inside x o)
structured-Fits (try_finally body handlers last) inside = pass_on-Fits inside (
    finally (rescue (structured body true) λ x o. chosen handlers inside x o)
      (structured last inside))

before-nil : (m : Meaning) → before [] m ≡ m
unfolding before
before-nil (events, result) = refl

pass_on-before :
    (inside : Bool) (events : List Event) (m : Meaning)
    → pass_on inside (before events m) ≡ before events (pass_on inside m)
unfolding pass_on before
pass_on-before inside events (events', finished) = refl
pass_on-before inside events (events', raised x o) =
    ap (λ es. (es, (raise inside x none o).1))
      (append_assoc events events' (raise inside x none o).0)

finally-before :
    (events : List Event) (m last : Meaning)
    → finally (before events m) last ≡ before events (finally m last)
unfolding finally before
finally-before events (events', result) (es, finished) =
    ap (λ x. (x, result)) (append_assoc events events' es)
finally-before events (events', result) (es, raised x o) =
    ap (λ y. (y, raised x o)) (append_assoc events events' es)

finally-nothing : (m : Meaning) → finally m ([], finished) ≡ m
unfolding finally
finally-nothing (events, result) = ap (λ es. (es, result)) (append-nil events)

-- Nothing runs last, or no handler is left by an exception.
abbrev Harmless : Meaning → Meaning → Type 0
Harmless last m = (last ≡ ([], finished)) ⊎ (m.1 ≡ finished)

handled-finally :
    (inside : Bool) (m last : Meaning)
    → Fits inside m
    → Fits inside last
    → Harmless last m
    → join m last ≡ pass_on inside (finally m last)
unfolding join before finally
handled-finally inside (events, finished) (es, finished) h k safe =
    sym (pass_on-id inside (events ++ es, finished) (finished-Fits inside (events ++ es)))
handled-finally inside (events, finished) (es, raised x o) h k safe =
    sym (pass_on-id inside (events ++ es, raised x o) (Fits-events inside es (events ++ es) x o k))
handled-finally inside (events, raised x o) last h k (inl e) =
    rw e (sym (ap (pass_on inside) (finally-nothing (events, raised x o)) ∙ pass_on-id inside _ h))
handled-finally inside (events, raised x o) last h k (inr e) = absurd cc

unhandled-finally :
    (inside : Bool) (last : Meaning) (x : ℕ) (o : Origin)
    → Fits inside last
    → join last (raise inside x none o) ≡ pass_on inside (finally ([], raised x o) last)
unfolding join before finally pass_on
unhandled-finally inside (es, finished) x o k = refl
unhandled-finally inside (es, raised y p) x o k = sym (pass_on-id inside (es, raised y p) k)

guarded-finally :
    (inside : Bool) (m last : Meaning) (handle given : ℕ → Origin → Meaning)
    → Fits inside last
    → ((x : ℕ) (o : Origin) → handle x o ≡ pass_on inside (finally (given x o) last))
    → guarded m last handle ≡ pass_on inside (finally (rescue m given) last)
unfolding guarded rescue
guarded-finally inside (events, finished) last handle given k e =
    handled-finally inside (events, finished) last (finished-Fits inside events) k (inr refl)
guarded-finally inside (events, raised x o) last handle given k e =
    ap (before events) (e x o)
    ∙ sym (pass_on-before inside events (finally (given x o) last))
    ∙ ap (pass_on inside) (sym (finally-before events (given x o) last))

mutual
  unfolding meaning structured Settled Complete

  pub meaning-structured :
      (st : Statement) (inside : Bool)
      → Settled st inside
      → meaning st inside ≡ structured st inside
  meaning-structured (other n) inside h = refl
  meaning-structured (throw x cause o) inside h = refl
  meaning-structured (then_do a b) inside h =
      rw (meaning-structured a inside h.0, meaning-structured b inside h.1) refl
  meaning-structured (try body handlers) inside h = rw (meaning-structured body true h.0) (
      guarded-finally inside (structured body true) ([], finished) _
        (λ x o. chosen handlers inside x o) (finished-Fits inside [])
        (λ x o.
          handled_by-chosen handlers inside ([], finished) x o h.1 (finished-Fits inside [])
            (inl refl))
      ∙ ap (pass_on inside) (finally-nothing _))
  meaning-structured (try_finally body handlers last) inside h =
      rw (meaning-structured body true h.0.0, meaning-structured last inside h.1.0)
        (guarded-finally inside (structured body true) (structured last inside) _
          (λ x o. chosen handlers inside x o) (structured-Fits last inside)
          (λ x o.
            handled_by-chosen handlers inside (structured last inside) x o h.0.1
              (structured-Fits last inside) (inr h.1.1)))

  handled_by-chosen :
      (hs : Handlers) (inside : Bool) (last : Meaning) (x : ℕ) (o : Origin)
      → AllSettled hs inside
      → Fits inside last
      → (last ≡ ([], finished)) ⊎ Complete hs inside
      → handled_by hs inside last x o ≡ pass_on inside (finally (chosen hs inside x o) last)
  handled_by-chosen no_more inside last x o h k safe = unhandled-finally inside last x o k
  handled_by-chosen (catch y handler hs) inside last x o h k safe = elim (Bool-cases (x == y)) [
    | inl e ↦
        rw (e, meaning-structured handler inside h.0)
          (handled-finally inside (structured handler inside) last (structured-Fits handler inside)
            k (first safe))
    | inr e ↦ rw e (handled_by-chosen hs inside last x o h.1 k (later safe))
  ]
    where
      first :
          (last ≡ ([], finished)) ⊎ Complete (catch y handler hs) inside
          → Harmless last (structured handler inside)
      first (inl e) = inl e
      first (inr c) = inr c.0

      later :
          (last ≡ ([], finished)) ⊎ Complete (catch y handler hs) inside
          → (last ≡ ([], finished)) ⊎ Complete hs inside
      later (inl e) = inl e
      later (inr c) = inr c.1
