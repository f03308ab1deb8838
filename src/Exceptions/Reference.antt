-- ===== src/Exceptions/Reference.antt =====
-- What the macros do with a program, with no stack and no flags. Where a handler throws, the last
-- block of its Try is left out, as the macros leave it out; Structured has the meaning in which it runs.
use c_c_linux_learning_code.Common.{
  Bytes, Bool, true, false, ℕ, Option, none, some, List, [], ◌∷◌, ◌++◌, ◌==◌, if◌then◌else◌,
}
use c_c_linux_learning_code.Exceptions.{
  Origin, Statement, other, throw, then_do, try, try_finally, Handlers, no_more, catch, Event, did,
  reported, cut,
}

-- A program ends, or has an exception for the Try around it.
pub data Result : Type 0 where
  finished : Result
  raised : ℕ → Origin → Result

abbrev pub Meaning : Type 0
Meaning = List Event × Result

-- What a report shows of a cause: at most 511 bytes.
unfoldable pub shown : Option Bytes → Option Bytes
unfolding cut
shown none = none
shown (some cause) = some (cut 511 cause)

-- With no Try around, an exception is reported, and the code goes on.
unfoldable pub raise : Bool → ℕ → Option Bytes → Origin → Meaning
unfolding shown
raise true excep cause origin = ([], raised excep origin)
raise false excep cause origin = (reported excep (shown cause) origin ∷ [], finished)

unfoldable pub before : List Event → Meaning → Meaning
before done_so_far (events, result) = (done_so_far ++ events, result)

unfoldable pub join : Meaning → Meaning → Meaning
unfolding before
join (events, finished) next = before events next
join (events, raised excep origin) next = (events, raised excep origin)

unfoldable pub guarded : Meaning → Meaning → (ℕ → Origin → Meaning) → Meaning
unfolding join before
guarded (events, finished) last handle = before events last
guarded (events, raised excep origin) last handle = before events (handle excep origin)

-- `inside` says whether a Try is around. The last block of a Try runs after the handler, and where
-- there is no handler before the exception goes on.
unfoldable mutual
  unfolding raise join guarded

  pub meaning : Statement → Bool → Meaning
  meaning (other n) inside = (did n ∷ [], finished)
  meaning (throw excep cause origin) inside = raise inside excep cause origin
  meaning (then_do a b) inside = join (meaning a inside) (meaning b inside)
  meaning (try body handlers) inside =
      guarded (meaning body true) ([], finished)
        (λ excep origin. handled_by handlers inside ([], finished) excep origin)
  meaning (try_finally body handlers last) inside =
      guarded (meaning body true) (meaning last inside)
        (λ excep origin. handled_by handlers inside (meaning last inside) excep origin)

  pub handled_by : Handlers → Bool → Meaning → ℕ → Origin → Meaning
  handled_by no_more inside last excep origin = join last (raise inside excep none origin)
  handled_by (catch x handler handlers) inside last excep origin =
      let here = join (meaning handler inside) last in
      let later = handled_by handlers inside last excep origin in if excep == x then here else later
