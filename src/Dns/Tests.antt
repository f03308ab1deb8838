-- ===== src/Dns/Tests.antt =====
-- The theorems on DNS messages at concrete names and messages.
use c_c_linux_learning_code.Common.{
  Bytes, drop, ◌≡◌, refl, arith, some, none, [], ◌∷◌, ◌++◌, length,
}
use mathlib.Core.List.{cons≢nil}
use c_c_linux_learning_code.Dns.{
  labels, Question, create_header, build_request, create_question, parse_name, parse_response,
}
use c_c_linux_learning_code.Dns.Labels.{IsLabel, dotted}
use c_c_linux_learning_code.Dns.Names.{
  build_request_fits, create_question_roundtrip, parse_name_compressed, parse_name_loop,
}
use c_c_linux_learning_code.Dns.Response.{
  Address, Reply, reply_bytes, reply_items, parse_response_addresses,
}

-- The labels of "ab.c".
abbrev ab : Bytes
ab = 97 ∷ 98 ∷ []

abbrev c : Bytes
c = 99 ∷ []

ab-IsLabel : IsLabel ab
ab-IsLabel = record {
  some_byte = cons≢nil;
  short = omega arith;
  no_dot = (omega arith, (omega arith, tt));
}

c-IsLabel : IsLabel c
c-IsLabel = record { some_byte = cons≢nil; short = omega arith; no_dot = (omega arith, tt) }

abbrev unset : Bytes
unset = 7 ∷ 7 ∷ 7 ∷ 7 ∷ 7 ∷ 7 ∷ []

build_request_fits_example :
    (q : Question) × (request : Bytes) × (create_question unset (97 ∷ 46 ∷ 46 ∷ 99 ∷ []) ≡ some q)
    × (build_request (create_header 4660) q ≡ some request)
    × (length request ≡ 22)
build_request_fits_example =
    build_request_fits unset (97 ∷ 46 ∷ 46 ∷ 99 ∷ []) 4660 refl (omega arith)

create_question_roundtrip_example :
    (q : Question) × (create_question unset (dotted (ab ∷ c ∷ []) 0) ≡ some q)
    × (parse_name 3 [] (q.qname ++ 0 ∷ 1 ∷ []) [] ≡ some (dotted (ab ∷ c ∷ []) 0))
unfolding dotted
create_question_roundtrip_example =
    create_question_roundtrip unset ab (c ∷ []) 0 [] (0 ∷ 1 ∷ []) (ab-IsLabel, (c-IsLabel, tt))
      (omega arith) refl

-- A message that holds the name "c" at its second byte.
abbrev message : Bytes
message = 5 ∷ 1 ∷ 99 ∷ 0 ∷ 2 ∷ 97 ∷ 98 ∷ 192 ∷ 1 ∷ []

parse_name_compressed_example :
    parse_name 4 message (2 ∷ 97 ∷ 98 ∷ 192 ∷ 1 ∷ []) [] ≡ some (dotted (ab ∷ c ∷ []) 0)
unfolding dotted labels drop
parse_name_compressed_example =
    parse_name_compressed 0 message (ab ∷ []) 192 1 [] c [] (2 ∷ 97 ∷ 98 ∷ 192 ∷ 1 ∷ [])
      (ab-IsLabel, tt) (c-IsLabel, tt) (omega arith, omega arith) refl (omega arith)

parse_name_loop_example : parse_name 100 (5 ∷ 192 ∷ 1 ∷ []) (192 ∷ 1 ∷ []) [] ≡ none
unfolding drop
parse_name_loop_example =
    parse_name_loop 100 (5 ∷ 192 ∷ 1 ∷ []) [] 192 1 [] (omega arith, omega arith) refl

abbrev address : Address
address = record { class = (0, 1); ttl = (0, 0, 0, 60); ip = (10, 0, 0, 1) }

abbrev reply : Reply
reply = record {
  head = (1, 2, 129, 128);
  counts = (0, 0, 0, 0);
  name = ab ∷ c ∷ [];
  kind = (0, 1, 0, 1);
  addresses = address ∷ address ∷ [];
  rest = [];
}

abbrev text : Bytes → Bytes
text ip = ip

parse_response_addresses_example :
    parse_response text 4 (reply_bytes reply) ≡ some (reply_items text reply)
unfolding dotted
parse_response_addresses_example =
    parse_response_addresses text 0 reply (ab-IsLabel, (c-IsLabel, tt))
      (omega arith, (omega arith, (omega arith, (omega arith, tt)))) (omega arith) (omega arith)
