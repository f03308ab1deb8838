-- ===== src/Common/Text.antt =====
-- Sequences of bytes, and the C strings in them.
use Prim.Native.Nat.{ℕ, zero, suc}
use mathlib.Core.Logic.{inr, inl, ◌≢◌}
use mathlib.Core.Path.{subst, ◌≡◌, refl}
use mathlib.Core.List.{List, [], ◌∷◌, ◌++◌}
use mathlib.Core.Option.{Option, none, some}
use mathlib.Core.Bool.{Bool, true, false, ◌&&◌}
use c_c_linux_learning_code.Common.Memory.{◌>>=◌}
use c_c_linux_learning_code.Common.Tests.{Bool-cases, ==_iff, ◌==◌, if◌then◌else◌, eq-false}
use c_c_linux_learning_code.Common.Lists.{All, length}

abbrev pub Bytes : Type 0
Bytes = List ℕ

unfoldable pub drop : ℕ → Bytes → Bytes
drop zero cs = cs
drop (suc n) [] = []
drop (suc n) (c ∷ cs) = drop n cs

-- The C string that the bytes begin with.
unfoldable pub until_zero : Bytes → Bytes
until_zero [] = []
until_zero (c ∷ cs) = let rest = until_zero cs in if c == 0 then [] else c ∷ rest

pub until_zero_lem : (bs : Bytes) → All (λ c. c ≢ 0) bs → until_zero bs ≡ bs
unfolding until_zero
until_zero_lem [] h = refl
until_zero_lem (c ∷ cs) h = rw (eq-false h.0, until_zero_lem cs h.1) refl

pub drop-append : (xs ys : Bytes) → drop (length xs) (xs ++ ys) ≡ ys
unfolding drop
drop-append [] ys = refl
drop-append (x ∷ xs) ys = drop-append xs ys

-- The next bytes, and what remains.
unfoldable pub split_at : ℕ → Bytes → Option (Bytes × Bytes)
split_at zero cs = some ([], cs)
split_at (suc n) [] = none
split_at (suc n) (c ∷ cs) = split_at n cs >>= λ p. some (c ∷ p.0, p.1)

unfoldable pub same_bytes : Bytes → Bytes → Bool
same_bytes [] [] = true
same_bytes [] (d ∷ ds) = false
same_bytes (c ∷ cs) [] = false
same_bytes (c ∷ cs) (d ∷ ds) = (c == d) && same_bytes cs ds

pub split_at-append : (xs ys : Bytes) → split_at (length xs) (xs ++ ys) ≡ some (xs, ys)
unfolding split_at
split_at-append [] ys = refl
split_at-append (x ∷ xs) ys = rw (split_at-append xs ys) refl

pub split_at-prefix :
    (n : ℕ) (xs ys : Bytes) → length xs ≡ n → split_at n (xs ++ ys) ≡ some (xs, ys)
split_at-prefix n xs ys e =
    subst (λ m. split_at m (xs ++ ys) ≡ some (xs, ys)) e (split_at-append xs ys)

pub same_bytes-differs : (xs ys : Bytes) → xs ≢ ys → same_bytes xs ys ≡ false
unfolding same_bytes
same_bytes-differs [] [] h = absurd (h refl)
same_bytes-differs [] (y ∷ ys) h = refl
same_bytes-differs (x ∷ xs) [] h = refl
same_bytes-differs (x ∷ xs) (y ∷ ys) h = elim (Bool-cases (x == y)) [
  | inl same ↦
      let equal : x ≡ y = (==_iff x y).0 same in
      rw same (same_bytes-differs xs ys (λ rest. h (rw (equal, rest) refl)))
  | inr differs ↦ rw differs refl
]
