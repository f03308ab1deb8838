-- ===== src/Dns.antt =====
-- 3.1.3异步请求池asyncpoll/async_dns_client_noblock.c: the DNS queries that the client builds and the
-- responses that it parses. Messages are lists of bytes, a pointer into a message is what remains of
-- it from there, and an access behind the end is a fault, `none`. What malloc's memory holds, the
-- random id and the text of an address are arguments. calloc gives what it is asked for; sockets,
-- epoll and the thread are left out.
pub mod Labels
pub mod Names
pub mod Response
mod Tests
use c_c_linux_learning_code.Common.{
  split_at, Bytes, until_zero, drop, ℕ, zero, suc, ◌+◌, ◌*◌, ◌/◌, ◌%◌, Bool, true, false, not,
  Option, none, some, List, [], ◌∷◌, ◌++◌, ltb, leb, ◌==◌, if◌then◌else◌, length, ◌>>=◌,
}

-- `qtype` and `qclass` are kept as their bytes in memory.
pub record Question : Type 0 where
  pub length : ℕ
  pub qtype : Bytes
  pub qclass : Bytes
  pub qname : Bytes

pub record Item : Type 0 where
  pub domain : Bytes
  pub ip : Bytes

-- The bytes of the header; the id is what random gave.
unfoldable pub create_header : ℕ → Bytes
create_header random =
    random % 256 ∷ random / 256 % 256 ∷ 1 ∷ 0 ∷ 0 ∷ 1 ∷ 0 ∷ 0 ∷ 0 ∷ 0 ∷ 0 ∷ 0 ∷ []

-- A token of strtok is not empty.
unfoldable pub end_token : Bytes → List Bytes → List Bytes
end_token [] tokens = tokens
end_token (c ∷ cs) tokens = (c ∷ cs) ∷ tokens

-- The tokens between dots, where `token` is the start of the first.
unfoldable pub tokens_from : Bytes → Bytes → List Bytes
unfolding end_token
tokens_from token [] = end_token token []
tokens_from token (c ∷ cs) = elim (c == 46) [
  | true ↦ end_token token (tokens_from [] cs)
  | false ↦ tokens_from (token ++ c ∷ []) cs
]

-- What the loop writes for its tokens, less the last byte, which ends the last token's copy.
unfoldable pub labels : List Bytes → Bytes
labels [] = []
labels (token ∷ tokens) = length token % 256 ∷ (token ++ labels tokens)

unfoldable pub written : List Bytes → Bytes
unfolding labels
written [] = []
written (token ∷ tokens) = labels (token ∷ tokens) ++ 0 ∷ []

-- The written bytes over those that malloc's memory holds; more would be a fault.
unfoldable pub overlay : Bytes → Bytes → Option Bytes
overlay [] memory = some memory
overlay (c ∷ cs) [] = none
overlay (c ∷ cs) (m ∷ memory) = overlay cs memory >>= λ rest. some (c ∷ rest)

-- The question with `qname` filled in.
abbrev pub question : Bytes → Bytes → Question
question hostname qname = record {
  length = length hostname + 2;
  qtype = 0 ∷ 1 ∷ [];
  qclass = 0 ∷ 1 ∷ [];
  qname = qname;
}

-- `memory` is what malloc gave for `qname`.
unfoldable pub create_question : Bytes → Bytes → Option Question
unfolding tokens_from written overlay
create_question memory hostname = do
  qname ← overlay (written (tokens_from [] hostname)) memory
  some (question hostname qname)

-- The request is put into an array of 1024 bytes, in which more is a fault.
unfoldable pub build_request : Bytes → Question → Option Bytes
unfolding split_at
build_request header question = do
  (qname, _) ← split_at question.length question.qname
  let request = header ++ (qname ++ (question.qtype ++ question.qclass))
  if ltb 1024 (length request) then none else some request

unfoldable pub is_pointer : ℕ → Bool
is_pointer flag = flag / 64 % 4 == 3

unfoldable pub get_byte : Bytes → Option ℕ
get_byte [] = none
get_byte (c ∷ cs) = some c

abbrev pub name_size : ℕ
name_size = 128

-- A label is copied, with a dot unless the name ends behind it; `out` has 128 bytes.
unfoldable pub add_label : Bytes → Bytes → ℕ → Option Bytes
add_label out label next =
    let text = out ++ (label ++ (if next == 0 then [] else 46 ∷ [])) in
    if ltb name_size (length text) then none else some text

-- `out` is what was written so far, so that `len` is its length.
unfoldable pub parse_name : ℕ → Bytes → Bytes → Bytes → Option Bytes
unfolding is_pointer get_byte split_at add_label
parse_name zero chunk ptr out = none
parse_name (suc f) chunk [] out = none
parse_name (suc f) chunk (flag ∷ ptr) out =
    let jump : Option Bytes = do n ← get_byte ptr; parse_name f chunk (drop n chunk) out
    in let label : Option Bytes = do
      (bytes, rest) ← split_at flag ptr
      next ← get_byte rest
      out' ← add_label out bytes next
      parse_name f chunk rest out'
      in if flag == 0 then some out else if is_pointer flag then jump else label

-- ntohs of the two bytes at the pointer, and what remains.
unfoldable pub get_short : Bytes → Option (ℕ × Bytes)
get_short [] = none
get_short (a ∷ []) = none
get_short (a ∷ b ∷ rest) = some (a * 256 + b, rest)

unfoldable pub skip : ℕ → Bytes → Option Bytes
unfolding split_at
skip n ptr = split_at n ptr >>= λ p. some p.1

-- One question's name; each round takes a byte.
unfoldable pub skip_name : ℕ → Bytes → Option Bytes
unfolding skip
skip_name zero ptr = none
skip_name (suc f) [] = none
skip_name (suc f) (flag ∷ ptr) =
    let rest = skip flag ptr >>= λ p. skip_name f p in if flag == 0 then some ptr else rest

unfoldable pub skip_questions : ℕ → Bytes → Option Bytes
unfolding skip_name skip
skip_questions zero ptr = some ptr
skip_questions (suc n) ptr = do
  rest ← skip_name (length ptr) ptr
  rest' ← skip 4 rest
  skip_questions n rest'

-- The fields of an answer that are read, and what remains from its data on. The name is taken to be
-- a pointer, of two bytes.
pub record Answer : Type 0 where
  pub aname : Bytes
  pub type : ℕ
  pub datalen : ℕ
  pub rest : Bytes

unfoldable pub parse_answer_head : ℕ → Bytes → Bytes → Option Answer
unfolding parse_name skip get_short
parse_answer_head f chunk ptr = do
  aname ← parse_name f chunk ptr []
  fields ← skip 2 ptr
  (type, _) ← get_short fields
  ttl ← skip 4 fields
  len ← skip 4 ttl
  (datalen, rest) ← get_short len
  some (record { aname = aname; type = type; datalen = datalen; rest = rest })

-- The string in the array of 128 bytes that a name was parsed into; strlen needs a byte 0 there.
unfoldable pub string_in : Bytes → Option Bytes
string_in name =
    let string = until_zero name in if ltb (length string) name_size then some string else none

-- The items that an address gives; `text` makes the text of its four bytes, as inet_ntop does.
unfoldable pub parse_host : (Bytes → Bytes) → Answer → Option (List Item)
unfolding split_at string_in
parse_host text a =
    let host : Option (List Item) = do
      (netip, _) ← split_at 4 a.rest
      domain ← string_in a.aname
      some (record { domain = domain; ip = text netip } ∷ [])
    in if a.datalen == 4 then host else some []

-- The items that an answer gives, none or one, and what remains.
unfoldable pub parse_answer : (Bytes → Bytes) → ℕ → Bytes → Bytes → Option (List Item × Bytes)
unfolding parse_answer_head parse_name skip parse_host
parse_answer text f chunk ptr = do
  a ← parse_answer_head f chunk ptr
  let alias : Option (List Item × Bytes) = do
    cname ← parse_name f chunk a.rest []
    rest ← skip a.datalen a.rest
    some ([], rest)
  let host : Option (List Item × Bytes) = do
    items ← parse_host text a
    rest ← skip a.datalen a.rest
    some (items, rest)
  if a.type == 5 then alias else if a.type == 1 then host else some ([], a.rest)

unfoldable pub parse_answers : (Bytes → Bytes) → ℕ → Bytes → ℕ → Bytes → Option (List Item)
unfolding parse_answer
parse_answers text f chunk zero ptr = some []
parse_answers text f chunk (suc n) ptr = do
  (items, rest) ← parse_answer text f chunk ptr
  more ← parse_answers text f chunk n rest
  some (items ++ more)

-- `f` bounds the depth of dns_parse_name, its rounds and its calls of itself together.
unfoldable pub parse_response : (Bytes → Bytes) → ℕ → Bytes → Option (List Item)
unfolding skip get_short skip_questions parse_answers
parse_response text f buffer = do
  (querys, _) ← skip 4 buffer >>= get_short
  (answers, _) ← skip 6 buffer >>= get_short
  ptr ← skip 12 buffer
  rest ← skip_questions querys ptr
  parse_answers text f buffer answers rest
