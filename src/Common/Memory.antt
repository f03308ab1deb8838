-- ===== src/Common/Memory.antt =====
-- Memory as a function from addresses, and runs that may fault.
use Prim.Native.Nat.{ℕ}
use mathlib.Core.Logic.{◌≢◌}
use mathlib.Core.Path.{subst, ◌≡◌, refl}
use mathlib.Core.Bool.{Bool, true, false}
use mathlib.Core.Option.{some-injective, Option, none, some}
use c_c_linux_learning_code.Common.Tests.{eq-true, eq-false, ◌==◌, if◌then◌else◌}

-- A write of `v` at the address `k`.
abbrev pub update {ℓ} : {A : Type ℓ} → (ℕ → A) → ℕ → A → ℕ → A
update f k v j = if k == j then v else f j

pub at_other {ℓ} : {A : Type ℓ} (f : ℕ → A) (k : ℕ) (v : A) (j : ℕ) → k ≢ j → update f k v j ≡ f j
at_other f k v j h = rw (eq-false h) refl

pub at_same {ℓ} : {A : Type ℓ} (f : ℕ → A) (k : ℕ) (v : A) → update f k v k ≡ v
at_same f k v = rw (eq-true {a = k} refl) refl

-- `none` is a fault: an access out of bounds, or a loop that has not ended within its fuel.
infixl 5 ◌>>=◌
abbrev pub ◌>>=◌ {ℓ κ} : {A : Type ℓ} {B : Type κ} → Option A → (A → Option B) → Option B
none >>= f = none
some a >>= f = f a

-- The run ends without a fault, in a value that has the property.
pub data Returns {ℓ κ} {A : Type ℓ} (Post : A → Type κ) : Option A → Type (ℓ ⊔ κ) where
  returns : {a : A} → Post a → Returns Post (some a)

module _ {ℓ κ} {A : Type ℓ} {Post : A → Type κ} where
  -- The value in which the run ends.
  pub Returns-inv : {run : Option A} → Returns Post run → (a : A) × (run ≡ some a) × Post a
  Returns-inv (returns {a = a} post) = (a, refl, post)

  pub Returns-some : {run : Option A} → Returns Post run → (a : A) → run ≡ some a → Post a
  Returns-some (returns {a = b} post) a e = subst Post (some-injective b a e) post

  pub Returns-map {μ} :
      {Weaker : A → Type μ} {run : Option A}
      → Returns Post run
      → ((a : A) → Post a → Weaker a)
      → Returns Weaker run
  Returns-map (returns {a = a} post) weaken = returns (weaken a post)

  pub Returns-bind {μ ν} :
      {B : Type μ} {After : B → Type ν} {run : Option A} {then_run : A → Option B}
      → Returns Post run
      → ((a : A) → Post a → Returns After (then_run a))
      → Returns After (run >>= then_run)
  Returns-bind (returns {a = a} post) rest = rest a post

  pub Returns-if :
      {yes_run no_run : Option A} (test : Bool)
      → (test ≡ true → Returns Post yes_run)
      → (test ≡ false → Returns Post no_run)
      → Returns Post (if test then yes_run else no_run)
  Returns-if false on_true on_false = on_false refl
  Returns-if true on_true on_false = on_true refl
