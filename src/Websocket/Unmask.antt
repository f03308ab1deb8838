-- ===== src/Websocket/Unmask.antt =====
-- The loops of umask and memcpy.
use Prim.Native.Nat.{bit_xor}
use c_c_linux_learning_code.Common.{
  ℕ, zero, suc, ◌+◌, ◌%◌, ◌≤◌, ◌<◌, ◌≡◌, refl, arith, Bool, true, ◌&&◌, none, ltb, ◌==◌, Returns,
  returns, Returns-map, ==_iff, ◌∙◌, Bool-cases, inl, inr,
}
use c_c_linux_learning_code.Websocket.{Buffer, buffer_length, umask_loop, copy_loop}

-- Over a small range, by evaluation.
all_below : ℕ → (ℕ → Bool) → Bool
all_below zero p = true
all_below (suc n) p = p n && all_below n p

all_below_lem : (n : ℕ) (p : ℕ → Bool) (x : ℕ) → all_below n p ≡ true → x < n → p x ≡ true
unfolding all_below
all_below_lem zero p x h l = absurd (omega arith)
all_below_lem (suc n) p x h l = ground (arith, all_below_lem n p x)

byte_pairs : all_below 256 (λ a. all_below 256 (λ k. bit_xor (bit_xor a k) k == a)) ≡ true
unfolding all_below
byte_pairs = refl

-- Masking a byte twice gives it back.
pub bit_xor_twice : (a k : ℕ) → a < 256 → k < 256 → bit_xor (bit_xor a k) k ≡ a
bit_xor_twice a k la lk =
    let row =
      all_below_lem 256 (λ x. all_below 256 (λ y. bit_xor (bit_xor x y) y == x)) a byte_pairs la in
    (==_iff _ _).0 (all_below_lem 256 (λ y. bit_xor (bit_xor a y) y == a) k row lk)

-- The bytes from `from` on of the payload are unmasked, and all below them stay.
pub record Unmasked (payload mask_key from to : ℕ) (buf buf' : Buffer) : Type 0 where
  pub below : (j : ℕ) → j < payload + from → buf' j ≡ buf j
  pub bytes :
      (m : ℕ)
      → from ≤ m
      → m < to
      → buf' (payload + m) ≡ bit_xor (buf (payload + m)) (buf (mask_key + m % 4))

pub umask_loop-Unmasked :
    (rounds i payload mask_key : ℕ) (buf : Buffer)
    → mask_key + 4 ≤ payload
    → payload + i + rounds ≤ buffer_length
    → Returns
        (Unmasked payload mask_key i (i + rounds) buf)
        (umask_loop rounds i payload mask_key buf)
unfolding umask_loop
umask_loop-Unmasked zero i payload mask_key buf before fits =
    returns (record { below = λ j l. refl; bytes = λ m l h. absurd (omega arith) })
umask_loop-Unmasked (suc rounds) i payload mask_key buf before fits =
    let test : ltb (payload + i) 4096 ≡ true = ground arith in
    rw test (
      Returns-map (umask_loop-Unmasked rounds (suc i) payload mask_key _ before (omega arith))
        λ buf' u. record {
          below = λ j l. u.below j (omega arith) ∙ ground arith;
          bytes = λ m l h. elim (Bool-cases (m == i)) [
            | inl e ↦
                let same : m ≡ i = ground arith in
                rw same (u.below (payload + i) (omega arith) ∙ ground arith)
            | inr e ↦ u.bytes m (ground arith) (omega arith) ∙ ground arith
          ];
        })

-- A range that leaves the buffer is a fault.
pub umask_loop_fault :
    (rounds i payload mask_key : ℕ) (buf : Buffer)
    → payload + i ≤ buffer_length
    → buffer_length < payload + i + rounds
    → umask_loop rounds i payload mask_key buf ≡ none
unfolding umask_loop
umask_loop_fault zero i payload mask_key buf l h = absurd (omega arith)
umask_loop_fault (suc rounds) i payload mask_key buf l h =
    elim (Bool-cases (ltb (payload + i) 4096)) [
      | inl e ↦
          rw e (umask_loop_fault rounds (suc i) payload mask_key _ (ground arith) (omega arith))
      | inr e ↦ rw e refl
    ]

-- The bytes are copied, and all below them stay.
pub record Copied (dest src from to : ℕ) (buf buf' : Buffer) : Type 0 where
  pub below : (j : ℕ) → j < dest + from → buf' j ≡ buf j
  pub bytes : (m : ℕ) → from ≤ m → m < to → buf' (dest + m) ≡ buf (src + m)

pub copy_loop-Copied :
    (rounds i dest src : ℕ) (buf : Buffer)
    → dest ≤ src
    → src + i + rounds ≤ buffer_length
    → Returns (Copied dest src i (i + rounds) buf) (copy_loop rounds i dest src buf)
unfolding copy_loop
copy_loop-Copied zero i dest src buf order fits =
    returns (record { below = λ j l. refl; bytes = λ m l h. absurd (omega arith) })
copy_loop-Copied (suc rounds) i dest src buf order fits =
    let test : ltb (dest + i) 4096 ≡ true = ground arith in
    let test' : ltb (src + i) 4096 ≡ true = ground arith in
    rw (test, test')
      (Returns-map (copy_loop-Copied rounds (suc i) dest src _ order (omega arith)) λ buf' u.
        record {
          below = λ j l. u.below j (omega arith) ∙ ground arith;
          bytes = λ m l h. elim (Bool-cases (m == i)) [
            | inl e ↦
                let same : m ≡ i = ground arith in
                rw same (u.below (dest + i) (omega arith) ∙ ground arith)
            | inr e ↦ u.bytes m (ground arith) (omega arith) ∙ ground arith
          ];
        })
