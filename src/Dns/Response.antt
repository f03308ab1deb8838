-- ===== src/Dns/Response.antt =====
-- What dns_parse_response reads from the response of a server.
use c_c_linux_learning_code.Common.{
  split_at-append, split_at, Bytes, drop, until_zero_lem, ℕ, zero, suc, ◌+◌, ◌*◌, ◌/◌, ◌^◌, ◌%◌,
  ◌<◌, ◌≡◌, ◌≢◌, refl, ap, arith, false, some, List, [], ◌∷◌, ◌++◌, ◌==◌, length, length-append,
  All, eq-false, ltb-true,
}
use mathlib.Core.List.{append_assoc, map}
use c_c_linux_learning_code.Dns.{
  labels, parse_name, name_size, Item, skip, get_short, skip_name, skip_questions, string_in,
  parse_answer_head, parse_host, parse_answer, parse_answers, parse_response,
}
use c_c_linux_learning_code.Dns.Labels.{IsLabel, dotted, length-pos}
use c_c_linux_learning_code.Dns.Names.{parse_name_jump, parse_name-name}

abbrev pub Four : Type 0
Four = ℕ × ℕ × ℕ × ℕ

abbrev pub bytes : Four → Bytes
bytes (a, b, c, d) = a ∷ b ∷ c ∷ d ∷ []

pub record Address : Type 0 where
  pub class : ℕ × ℕ
  pub ttl : Four
  pub ip : Four

-- A record of an address whose name is a pointer to the name of the question.
abbrev pub address_bytes : Address → Bytes
address_bytes a = 192 ∷ 12 ∷ 0 ∷ 1 ∷ a.class.0 ∷ a.class.1 ∷ (bytes a.ttl ++ (0 ∷ 4 ∷ bytes a.ip))

abbrev pub addresses_bytes : List Address → Bytes
addresses_bytes [] = []
addresses_bytes (a ∷ more) = address_bytes a ++ addresses_bytes more

-- A response to a question for the addresses of a name.
pub record Reply : Type 0 where
  pub head : Four
  pub counts : Four
  pub name : List Bytes
  pub kind : Four
  pub addresses : List Address
  pub rest : Bytes

abbrev pub reply_bytes : Reply → Bytes
reply_bytes r =
    let n = length r.addresses in
    bytes r.head
    ++ (0
        ∷ 1
        ∷ n / 256
        ∷ n % 256
        ∷ (bytes r.counts
            ++ (labels r.name ++ (0 ∷ (bytes r.kind ++ (addresses_bytes r.addresses ++ r.rest))))))

abbrev pub reply_items : (Bytes → Bytes) → Reply → List Item
reply_items text r =
    map (λ a. record { domain = dotted r.name 0; ip = text (bytes (Address.ip a)) }) r.addresses

skip_name-labels :
    (f : ℕ) (ls : List Bytes) (rest : Bytes)
    → All IsLabel ls
    → length ls < f
    → skip_name f (labels ls ++ 0 ∷ rest) ≡ some rest
unfolding skip_name labels skip
skip_name-labels zero ls rest v h = absurd (omega arith)
skip_name-labels (suc f) [] rest v h = refl
skip_name-labels (suc f) (l ∷ ls) rest v h =
    let some_bytes = length-pos l v.0.some_byte in
    let short = v.0.short in
    let size : length l % 256 ≡ length l = omega arith in
    let no_end : (length l == 0) ≡ false = eq-false (omega arith) in
    rw
      (
        size,
        no_end,
        append_assoc l (labels ls) (0 ∷ rest),
        split_at-append l (labels ls ++ 0 ∷ rest),
        skip_name-labels f ls rest v.1 (omega arith),
      )
      refl

labels-long : (ls : List Bytes) (rest : Bytes) → length ls < length (labels ls ++ 0 ∷ rest)
unfolding labels
labels-long [] rest = omega arith
labels-long (l ∷ ls) rest =
    let there = labels-long ls rest in
    let sum = length-append l (labels ls ++ 0 ∷ rest) in
    let assoc : length ((l ++ labels ls) ++ 0 ∷ rest) ≡ length (l ++ (labels ls ++ 0 ∷ rest)) =
      ap length (append_assoc l (labels ls) (0 ∷ rest)) in
    omega arith

skip_questions_one :
    (ls : List Bytes) (kind : Four) (rest : Bytes)
    → All IsLabel ls
    → skip_questions 1 (labels ls ++ (0 ∷ (bytes kind ++ rest))) ≡ some rest
unfolding skip_questions skip split_at
skip_questions_one ls kind rest v =
    rw
      (skip_name-labels (length (labels ls ++ (0 ∷ (bytes kind ++ rest)))) ls (bytes kind ++ rest) v
        (labels-long ls (bytes kind ++ rest)))
      refl

string_in_lem :
    (name : Bytes) → All (λ c. c ≢ 0) name → length name < name_size → string_in name ≡ some name
unfolding string_in
string_in_lem name v h = rw (until_zero_lem name v, ltb-true h) refl

parse_answer-address :
    (text : Bytes → Bytes) (f : ℕ) (chunk : Bytes) (name : Bytes) (a : Address) (rest : Bytes)
    → All (λ c. c ≢ 0) name
    → length name < name_size
    → parse_name f chunk (drop 12 chunk) [] ≡ some name
    → parse_answer text (suc f) chunk (address_bytes a ++ rest)
      ≡ some (record { domain = name; ip = text (bytes a.ip) } ∷ [], rest)
unfolding parse_answer parse_answer_head parse_host skip split_at get_short
parse_answer-address text f chunk name a rest v fits target =
    let body = a.class.0 ∷ a.class.1 ∷ (bytes a.ttl ++ (0 ∷ 4 ∷ bytes a.ip)) ++ rest in
    rw
      (
        parse_name_jump f chunk [] 192 12 (0 ∷ 1 ∷ body) (omega arith, omega arith),
        target,
        string_in_lem name v fits,
      )
      refl

parse_answers-addresses :
    (text : Bytes → Bytes) (f : ℕ) (chunk name : Bytes) (addresses : List Address) (rest : Bytes)
    → All (λ c. c ≢ 0) name
    → length name < name_size
    → parse_name f chunk (drop 12 chunk) [] ≡ some name
    → parse_answers text (suc f) chunk (length addresses) (addresses_bytes addresses ++ rest)
      ≡ some (map (λ a. record { domain = name; ip = text (bytes (Address.ip a)) }) addresses)
unfolding parse_answers
parse_answers-addresses text f chunk name [] rest v fits target = refl
parse_answers-addresses text f chunk name (a ∷ more) rest v fits target =
    rw
      (
        parse_answer-address text f chunk name a (addresses_bytes more ++ rest) v fits target,
        parse_answers-addresses text f chunk name more rest v fits target,
      )
      refl

-- For a response to one question, whose name consists of labels of 1 to 63 bytes without dots and
-- bytes 0 and is shorter than 128 bytes, and with less than 2^16 answers, all of them addresses of
-- 4 bytes whose name points to the question's: with fuel enough, dns_parse_response ends without a
-- fault and returns the item of each answer, in order, with the name and the text of its address,
-- whatever stands behind the answers.
pub parse_response_addresses :
    (text : Bytes → Bytes) (f : ℕ) (r : Reply)
    → All IsLabel r.name
    → All (λ c. c ≢ 0) (dotted r.name 0)
    → length (dotted r.name 0) < name_size
    → length r.addresses < 2 ^ 16
    → parse_response text (suc (length r.name + suc f)) (reply_bytes r) ≡ some (reply_items text r)
unfolding parse_response skip split_at get_short drop
parse_response_addresses text f r v strings fits few =
    let n = length r.addresses in
    let count : n / 256 * 256 + n % 256 ≡ n = omega arith in
    let body = addresses_bytes r.addresses ++ r.rest in
    let name = parse_name-name f (reply_bytes r) r.name (bytes r.kind ++ body) [] v (omega arith) in
    rw (count, skip_questions_one r.name r.kind body v)
      (parse_answers-addresses text (length r.name + suc f) (reply_bytes r) (dotted r.name 0)
        r.addresses r.rest strings fits name)
