-- ===== src/Packets/Mac.antt =====
-- str2mac on the text of an address.
use c_c_linux_learning_code.Common.{
  Bytes, drop, ℕ, ◌+◌, ◌*◌, ◌/◌, ◌%◌, ◌≤◌, ◌<◌, ◌≡◌, refl, arith, false, some, [], ◌∷◌, ◌++◌, ltb,
  ◌==◌, if◌then◌else◌, length, length-append, ltb-true,
}
use mathlib.Core.List.{append_assoc}
use c_c_linux_learning_code.Packets.Echo.{hex_digit, put, digit_or, str2mac_loop, str2mac}
use c_c_linux_learning_code.Packets.Checksum.{IsBytes}

-- The digits of a byte, as in `0c`.
unfoldable pub digit : ℕ → ℕ
digit d = if ltb d 10 then 48 + d else 87 + d

unfoldable pub mac_text : Bytes → Bytes
unfolding digit
mac_text [] = []
mac_text (b ∷ []) = digit (b / 16) ∷ digit (b % 16) ∷ []
mac_text (b ∷ c ∷ bytes) = digit (b / 16) ∷ digit (b % 16) ∷ 58 ∷ mac_text (c ∷ bytes)

hex_digit-digit : (d : ℕ) → d < 16 → hex_digit (digit d) ≡ some d
unfolding hex_digit digit
hex_digit-digit d h = ground arith

digit-ne-colon : (d : ℕ) → d < 16 → (digit d == 58) ≡ false
unfolding digit
digit-ne-colon d h = ground arith

-- The two digits of a byte leave its value.
str2mac_loop-digits :
    (mac : Bytes) (b : ℕ) (rest : Bytes)
    → b < 256
    → str2mac_loop mac 0 (digit (b / 16) ∷ digit (b % 16) ∷ rest) ≡ str2mac_loop mac b rest
unfolding str2mac_loop digit_or
str2mac_loop-digits mac b rest h =
    let high : b / 16 < 16 = omega arith in
    let low : b % 16 < 16 = omega arith in
    let value : (0 * 16 % 256 + b / 16) * 16 % 256 + b % 16 ≡ b = omega arith in
    rw
      (
        digit-ne-colon (b / 16) high,
        hex_digit-digit (b / 16) high,
        digit-ne-colon (b % 16) low,
        hex_digit-digit (b % 16) low,
        value,
      )
      refl

str2mac_loop-text :
    (mac : Bytes) (b : ℕ) (bytes : Bytes)
    → IsBytes (b ∷ bytes)
    → length (mac ++ b ∷ bytes) ≤ 6
    → str2mac_loop mac 0 (mac_text (b ∷ bytes)) ≡ some (mac ++ b ∷ bytes)
unfolding mac_text str2mac_loop put
str2mac_loop-text mac b [] h fits =
    let sum = length-append mac (b ∷ []) in
    rw (str2mac_loop-digits mac b [] h.0, ltb-true {a = length mac} {b = 6} (omega arith)) refl
str2mac_loop-text mac b (c ∷ bytes) h fits =
    let sum = length-append mac (b ∷ c ∷ bytes) in
    let assoc = append_assoc mac (b ∷ []) (c ∷ bytes) in
    let fits' : length ((mac ++ b ∷ []) ++ c ∷ bytes) ≤ 6 = rw assoc fits in
    rw
      (
        str2mac_loop-digits mac b (58 ∷ mac_text (c ∷ bytes)) h.0,
        ltb-true {a = length mac} {b = 6} (omega arith),
        ← assoc,
      )
      (str2mac_loop-text (mac ++ b ∷ []) c bytes h.1 fits')

-- For one to six bytes below 256, str2mac on their text, two hexadecimal digits each with colons
-- between, ends without a fault, and leaves the bytes at the start of the array and what the array
-- held behind them.
pub str2mac_roundtrip :
    (mac : Bytes) (b : ℕ) (bytes : Bytes)
    → IsBytes (b ∷ bytes)
    → length (b ∷ bytes) ≤ 6
    → str2mac mac (mac_text (b ∷ bytes)) ≡ some ((b ∷ bytes) ++ drop (length (b ∷ bytes)) mac)
unfolding str2mac
str2mac_roundtrip mac b bytes h fits = rw (str2mac_loop-text [] b bytes h fits) refl
