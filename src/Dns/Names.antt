-- ===== src/Dns/Names.antt =====
-- The name in a question of dns_create_question, create_header, build_request, split_at, and the pointers that dns_parse_name follows.
use c_c_linux_learning_code.Common.{
  split_at, Bytes, drop, ℕ, zero, suc, ◌+◌, ◌≤◌, ◌<◌, ◌≡◌, refl, ap, ◌∙◌, arith, true, false, some,
  none, List, [], ◌∷◌, ◌++◌, ltb, ◌==◌, length, length-append, All, eq-true, eq-false, ltb-false,
  Bool-cases, inl, inr,
}
use mathlib.Core.List.{append_assoc}
use c_c_linux_learning_code.Dns.{
  end_token, tokens_from, labels, written, overlay, create_question, create_header, build_request,
  Question, question, is_pointer, get_byte, parse_name, name_size,
}
use c_c_linux_learning_code.Dns.Labels.{IsLabel, dotted, parse_name-labels, tokens_from-dotted}

end_token-size :
    (token : Bytes) (tokens : List Bytes)
    → length (labels (end_token token tokens)) ≤ suc (length token) + length (labels tokens)
unfolding end_token labels
end_token-size [] tokens = omega arith
end_token-size (c ∷ cs) tokens = let sum = length-append (c ∷ cs) (labels tokens) in omega arith

tokens_from-size :
    (token cs : Bytes) → length (labels (tokens_from token cs)) ≤ suc (length token + length cs)
unfolding tokens_from labels
tokens_from-size token [] = let here = end_token-size token [] in omega arith
tokens_from-size token (c ∷ cs) = elim (Bool-cases (c == 46)) [
  | inl e ↦
      let here = end_token-size token (tokens_from [] cs) in
      let there = tokens_from-size [] cs in rw (tokens_from, e) (omega arith)
  | inr e ↦
      let there = tokens_from-size (token ++ c ∷ []) cs in
      let sum = length-append token (c ∷ []) in rw (tokens_from, e) (omega arith)
]

written-size : (tokens : List Bytes) → length (written tokens) ≤ suc (length (labels tokens))
unfolding written labels
written-size [] = omega arith
written-size (token ∷ tokens) =
    let sum = length-append (labels (token ∷ tokens)) (0 ∷ []) in omega arith

overlay-fits :
    (cs memory : Bytes)
    → length cs ≤ length memory
    → (bs : Bytes) × (overlay cs memory ≡ some bs) × (length bs ≡ length memory)
unfolding overlay
overlay-fits [] memory h = (memory, refl, refl)
overlay-fits (c ∷ cs) [] h = absurd (omega arith)
overlay-fits (c ∷ cs) (m ∷ memory) h =
    let (bs, e, size) = overlay-fits cs memory (omega arith) in (c ∷ bs, rw e refl, ap suc size)

overlay-all : (cs memory : Bytes) → length cs ≡ length memory → overlay cs memory ≡ some cs
unfolding overlay
overlay-all [] [] h = refl
overlay-all [] (m ∷ memory) h = absurd (omega arith)
overlay-all (c ∷ cs) [] h = absurd (omega arith)
overlay-all (c ∷ cs) (m ∷ memory) h = rw (overlay-all cs memory (omega arith)) refl

create_question_fits :
    (memory hostname : Bytes)
    → length memory ≡ length hostname + 2
    → (qname : Bytes) × (create_question memory hostname ≡ some (question hostname qname))
      × (length qname ≡ length hostname + 2)
unfolding create_question
create_question_fits memory hostname h =
    let tokens = tokens_from-size [] hostname in
    let size = written-size (tokens_from [] hostname) in
    let (qname, e, fits) = overlay-fits (written (tokens_from [] hostname)) memory (omega arith) in
    (qname, rw e refl, fits ∙ h)

split_at-all : (n : ℕ) (xs : Bytes) → length xs ≡ n → split_at n xs ≡ some (xs, [])
unfolding split_at
split_at-all zero [] h = refl
split_at-all (suc n) [] h = absurd (omega arith)
split_at-all zero (x ∷ xs) h = absurd (omega arith)
split_at-all (suc n) (x ∷ xs) h = rw (split_at-all n xs (omega arith)) refl

-- For any host name of 1006 bytes at most, dots at any places included, dns_create_question stays
-- within the name's length plus 2 bytes that it asks of malloc, and dns_build_request within its
-- array of 1024: both end without a fault, with a request of the name's length plus 18 bytes.
pub build_request_fits :
    (memory hostname : Bytes) (random : ℕ)
    → length memory ≡ length hostname + 2
    → length hostname ≤ 1006
    → (q : Question) × (request : Bytes) × (create_question memory hostname ≡ some q)
      × (build_request (create_header random) q ≡ some request)
      × (length request ≡ length hostname + 18)
unfolding create_question build_request create_header
build_request_fits memory hostname random h short =
    let (qname, made, size) = create_question_fits memory hostname h in
    let request = create_header random ++ (qname ++ (0 ∷ 1 ∷ 0 ∷ 1 ∷ [])) in
    let sum = length-append qname (0 ∷ 1 ∷ 0 ∷ 1 ∷ []) in
    let total : length request ≡ length hostname + 18 = omega arith in
    let fits : ltb 1024 (length request) ≡ false = ltb-false (omega arith) in
    (
      question hostname qname,
      request,
      made,
      rw (split_at-all (length hostname + 2) qname size, fits) refl,
      total,
    )

labels-size :
    (l : Bytes) (ls : List Bytes) → length (labels (l ∷ ls)) ≡ suc (length (dotted (l ∷ ls) 0))
unfolding labels dotted
labels-size l [] = let sum = length-append l [] in omega arith
labels-size l (m ∷ ls) =
    let there = labels-size m ls in
    let left = length-append l (labels (m ∷ ls)) in
    let right = length-append l (46 ∷ dotted (m ∷ ls) 0) in omega arith

-- A name that ends with a byte 0.
pub parse_name-name :
    (f : ℕ) (chunk : Bytes) (ls : List Bytes) (rest out : Bytes)
    → All IsLabel ls
    → length (out ++ dotted ls 0) ≤ name_size
    → parse_name (length ls + suc f) chunk (labels ls ++ 0 ∷ rest) out ≡ some (out ++ dotted ls 0)
unfolding parse_name
parse_name-name f chunk ls rest out v fits =
    rw (parse_name-labels (suc f) chunk ls 0 rest out v fits) refl

-- For a host name of 1 or more labels of 1 to 63 bytes without dots, of 128 bytes at most:
-- dns_create_question ends without a fault, whatever malloc's memory of the name's length plus 2
-- holds, and dns_parse_name, with fuel enough, reads the host name back from its question.
pub create_question_roundtrip :
    (memory : Bytes) (l : Bytes) (ls : List Bytes) (f : ℕ) (chunk rest : Bytes)
    → All IsLabel (l ∷ ls)
    → length (dotted (l ∷ ls) 0) ≤ name_size
    → length memory ≡ length (dotted (l ∷ ls) 0) + 2
    → (q : Question) × (create_question memory (dotted (l ∷ ls) 0) ≡ some q)
      × (parse_name (length (l ∷ ls) + suc f) chunk (q.qname ++ rest) [] ≡ some (dotted (l ∷ ls) 0))
unfolding create_question written
create_question_roundtrip memory l ls f chunk rest v fits h =
    let size = labels-size l ls in
    let sum = length-append (labels (l ∷ ls)) (0 ∷ []) in
    let all = overlay-all (labels (l ∷ ls) ++ 0 ∷ []) memory (omega arith) in
    (
      question (dotted (l ∷ ls) 0) (labels (l ∷ ls) ++ 0 ∷ []),
      rw (tokens_from-dotted (l ∷ ls) v, all) refl,
      rw (append_assoc (labels (l ∷ ls)) (0 ∷ []) rest)
          (parse_name-name f chunk (l ∷ ls) rest [] v fits),
    )

-- A byte that dns_parse_name takes for a pointer.
abbrev pub IsJump : ℕ → Type 0
IsJump p = (192 ≤ p) × (p < 256)

is_pointer-jump : (p : ℕ) → IsJump p → is_pointer p ≡ true
unfolding is_pointer
is_pointer-jump p h = let low = h.0 in let high = h.1 in eq-true (omega arith)

pub parse_name_jump :
    (f : ℕ) (chunk out : Bytes) (p n : ℕ) (rest : Bytes)
    → IsJump p
    → parse_name (suc f) chunk (p ∷ n ∷ rest) out ≡ parse_name f chunk (drop n chunk) out
unfolding parse_name get_byte
parse_name_jump f chunk out p n rest h =
    let low = h.0 in
    let no_end : (p == 0) ≡ false = eq-false (omega arith) in rw (no_end, is_pointer-jump p h) refl

dotted-append :
    (ls : List Bytes) (m : Bytes) (ms : List Bytes) (p : ℕ)
    → IsJump p
    → dotted ls p ++ dotted (m ∷ ms) 0 ≡ dotted (ls ++ m ∷ ms) 0
unfolding dotted
dotted-append [] m ms p h = refl
dotted-append (l ∷ []) m ms p h =
    let low = h.0 in
    let no_end : (p == 0) ≡ false = eq-false (omega arith) in
    rw (no_end, append_assoc l (46 ∷ []) (dotted (m ∷ ms) 0)) refl
dotted-append (l ∷ k ∷ ls) m ms p h =
    rw
      (append_assoc l (46 ∷ dotted (k ∷ ls) p) (dotted (m ∷ ms) 0), dotted-append (k ∷ ls) m ms p h)
      refl

-- Where labels end in a pointer to an offset below 256 at which more labels stand, ended by a byte
-- 0, and all are of 1 to 63 bytes without dots and have 128 bytes at most with their dots: with
-- fuel enough, dns_parse_name gives the name of the labels before and behind the pointer.
pub parse_name_compressed :
    (f : ℕ) (chunk : Bytes) (ls : List Bytes) (p n : ℕ) (rest m : Bytes) (ms : List Bytes)
    (tail : Bytes)
    → All IsLabel ls
    → All IsLabel (m ∷ ms)
    → IsJump p
    → drop n chunk ≡ labels (m ∷ ms) ++ 0 ∷ tail
    → length (dotted (ls ++ m ∷ ms) 0) ≤ name_size
    → parse_name (length ls + suc (length (m ∷ ms) + suc f)) chunk (labels ls ++ p ∷ n ∷ rest) []
      ≡ some (dotted (ls ++ m ∷ ms) 0)
parse_name_compressed f chunk ls p n rest m ms tail v w h target fits =
    let text = dotted-append ls m ms p h in
    let fits' : length (dotted ls p ++ dotted (m ∷ ms) 0) ≤ name_size = rw text fits in
    let sum = length-append (dotted ls p) (dotted (m ∷ ms) 0) in
    let first =
      parse_name-labels (suc (length (m ∷ ms) + suc f)) chunk ls p (n ∷ rest) [] v (omega arith) in
    let second = parse_name-name f chunk (m ∷ ms) tail (dotted ls p) w fits' in
    rw
      (
        first,
        parse_name_jump (length (m ∷ ms) + suc f) chunk (dotted ls p) p n rest h,
        target,
        second,
        text,
      )
      refl

-- At a pointer to its own offset dns_parse_name never returns a name, however deep its calls may
-- go.
pub parse_name_loop :
    (f : ℕ) (chunk out : Bytes) (p n : ℕ) (rest : Bytes)
    → IsJump p
    → drop n chunk ≡ p ∷ n ∷ rest
    → parse_name f chunk (p ∷ n ∷ rest) out ≡ none
unfolding parse_name
parse_name_loop zero chunk out p n rest h target = refl
parse_name_loop (suc f) chunk out p n rest h target =
    rw (parse_name_jump f chunk out p n rest h, target)
      (parse_name_loop f chunk out p n rest h target)
