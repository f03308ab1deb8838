-- ===== src/Dns/Labels.antt =====
-- Names as labels: what dns_create_question writes and dns_parse_name reads.
use c_c_linux_learning_code.Common.{
  split_at-append, Bytes, ℕ, suc, ◌+◌, ◌/◌, ◌%◌, ◌≤◌, ◌<◌, ◌≡◌, ◌≢◌, refl, subst, arith, false,
  List, [], ◌∷◌, ◌++◌, ◌==◌, if◌then◌else◌, length, length-append, All, ltb-false, eq-false,
}
use mathlib.Core.List.{append_assoc, append-nil}
use c_c_linux_learning_code.Dns.{
  end_token, tokens_from, labels, is_pointer, add_label, parse_name, name_size,
}

-- A label as the protocol allows it; no label holds a dot.
pub record IsLabel (l : Bytes) : Type 0 where
  pub some_byte : l ≢ []
  pub short : length l < 64
  pub no_dot : All (λ c. c ≢ 46) l

-- The text of labels where the name goes on with the byte `next`.
unfoldable pub dotted : List Bytes → ℕ → Bytes
dotted [] next = []
dotted (l ∷ []) next = l ++ (if next == 0 then [] else 46 ∷ [])
dotted (l ∷ m ∷ ls) next = l ++ (46 ∷ dotted (m ∷ ls) next)

pub length-pos : (l : Bytes) → l ≢ [] → 0 < length l
length-pos [] h = absurd (h refl)
length-pos (c ∷ cs) h = omega arith

-- One label, where `d` is the byte behind it.
parse_name_label :
    (f : ℕ) (chunk l : Bytes) (d : ℕ) (rest out : Bytes)
    → IsLabel l
    → length (out ++ (l ++ (if d == 0 then [] else 46 ∷ []))) ≤ name_size
    → parse_name (suc f) chunk (length l % 256 ∷ (l ++ d ∷ rest)) out
      ≡ parse_name f chunk (d ∷ rest) (out ++ (l ++ (if d == 0 then [] else 46 ∷ [])))
unfolding parse_name add_label is_pointer
parse_name_label f chunk l d rest out v fits =
    let some_bytes = length-pos l v.some_byte in
    let short = v.short in
    let size : length l % 256 ≡ length l = omega arith in
    let no_end : (length l == 0) ≡ false = eq-false (omega arith) in
    let no_jump : (length l / 64 % 4 == 3) ≡ false = eq-false (omega arith) in
    rw (size, no_end, no_jump, split_at-append l (d ∷ rest), ltb-false fits) refl

-- A label that is not the last, where `d` is the size of the next.
parse_name_dot :
    (f : ℕ) (chunk l : Bytes) (d : ℕ) (rest out : Bytes)
    → IsLabel l
    → (d == 0) ≡ false
    → length (out ++ (l ++ 46 ∷ [])) ≤ name_size
    → parse_name (suc f) chunk (length l % 256 ∷ (l ++ d ∷ rest)) out
      ≡ parse_name f chunk (d ∷ rest) (out ++ (l ++ 46 ∷ []))
parse_name_dot f chunk l d rest out v more fits =
    let tail : (if d == 0 then [] else 46 ∷ []) ≡ 46 ∷ [] = rw more refl in
    let here = parse_name_label f chunk l d rest out v in
    subst
      (λ t.
        length (out ++ (l ++ t)) ≤ name_size
        → parse_name (suc f) chunk (length l % 256 ∷ (l ++ d ∷ rest)) out
          ≡ parse_name f chunk (d ∷ rest) (out ++ (l ++ t)))
      tail here fits

dot_assoc : (out l rest : Bytes) → (out ++ (l ++ 46 ∷ [])) ++ rest ≡ out ++ (l ++ (46 ∷ rest))
dot_assoc out l rest = rw (append_assoc out (l ++ 46 ∷ []) rest, append_assoc l (46 ∷ []) rest) refl

fits-append : (xs ys : Bytes) → length (xs ++ ys) ≤ name_size → length xs ≤ name_size
fits-append xs ys fits = let sum = length-append xs ys in omega arith

-- All labels of a name, up to the byte `next`.
pub parse_name-labels :
    (f : ℕ) (chunk : Bytes) (ls : List Bytes) (next : ℕ) (rest out : Bytes)
    → All IsLabel ls
    → length (out ++ dotted ls next) ≤ name_size
    → parse_name (length ls + f) chunk (labels ls ++ next ∷ rest) out
      ≡ parse_name f chunk (next ∷ rest) (out ++ dotted ls next)
unfolding labels dotted
parse_name-labels f chunk [] next rest out v fits =
    let fuel : 0 + f ≡ f = omega arith in rw (fuel, append-nil out) refl
parse_name-labels f chunk (l ∷ []) next rest out v fits =
    let fuel : 1 + f ≡ suc f = omega arith in
    rw (fuel, append-nil l) (parse_name_label f chunk l next rest out v.0 fits)
parse_name-labels f chunk (l ∷ m ∷ ls) next rest out v fits =
    let fuel : suc (suc (length ls)) + f ≡ suc (length (m ∷ ls) + f) = omega arith in
    let size = length-pos m v.1.0.some_byte in
    let short = v.1.0.short in
    let more : (length m % 256 == 0) ≡ false = eq-false (omega arith) in
    let text : (out ++ (l ++ 46 ∷ [])) ++ dotted (m ∷ ls) next
        ≡ out ++ (l ++ (46 ∷ dotted (m ∷ ls) next)) =
      dot_assoc out l (dotted (m ∷ ls) next) in
    let fits' : length ((out ++ (l ++ 46 ∷ [])) ++ dotted (m ∷ ls) next) ≤ name_size =
      rw text fits in
    let room = fits-append (out ++ (l ++ 46 ∷ [])) (dotted (m ∷ ls) next) fits' in
    let there = parse_name-labels f chunk (m ∷ ls) next rest (out ++ (l ++ 46 ∷ [])) v.1 fits' in
    rw
      (
        fuel,
        append_assoc l (length m % 256 ∷ (m ++ labels ls)) (next ∷ rest),
        parse_name_dot (length (m ∷ ls) + f) chunk l (length m % 256)
            ((m ++ labels ls) ++ next ∷ rest) out v.0 more room,
        there,
        text,
      )
      refl

end_token-some : (l : Bytes) (ls : List Bytes) → l ≢ [] → end_token l ls ≡ l ∷ ls
unfolding end_token
end_token-some [] ls h = absurd (h refl)
end_token-some (c ∷ cs) ls h = refl

tokens_from-dot :
    (token l rest : Bytes)
    → All (λ c. c ≢ 46) l
    → tokens_from token (l ++ 46 ∷ rest) ≡ end_token (token ++ l) (tokens_from [] rest)
unfolding tokens_from
tokens_from-dot token [] rest h = rw (append-nil token) refl
tokens_from-dot token (c ∷ cs) rest h =
    let split : (token ++ c ∷ []) ++ cs ≡ token ++ c ∷ cs = append_assoc token (c ∷ []) cs in
    rw (tokens_from, eq-false h.0, tokens_from-dot (token ++ c ∷ []) cs rest h.1, split) refl

tokens_from-end :
    (token l : Bytes) → All (λ c. c ≢ 46) l → tokens_from token l ≡ end_token (token ++ l) []
unfolding tokens_from
tokens_from-end token [] h = rw (append-nil token) refl
tokens_from-end token (c ∷ cs) h =
    let split : (token ++ c ∷ []) ++ cs ≡ token ++ c ∷ cs = append_assoc token (c ∷ []) cs in
    rw (tokens_from, eq-false h.0, tokens_from-end (token ++ c ∷ []) cs h.1, split) refl

-- The tokens of a host name are its labels.
pub tokens_from-dotted : (ls : List Bytes) → All IsLabel ls → tokens_from [] (dotted ls 0) ≡ ls
unfolding tokens_from dotted
tokens_from-dotted [] v = refl
tokens_from-dotted (l ∷ []) v =
    rw (append-nil l, tokens_from-end [] l v.0.no_dot, end_token-some l [] v.0.some_byte) refl
tokens_from-dotted (l ∷ m ∷ ls) v =
    rw
      (
        tokens_from-dot [] l (dotted (m ∷ ls) 0) v.0.no_dot,
        tokens_from-dotted (m ∷ ls) v.1,
        end_token-some l (m ∷ ls) v.0.some_byte,
      )
      refl
