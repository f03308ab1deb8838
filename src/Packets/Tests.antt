-- ===== src/Packets/Tests.antt =====
-- The theorems on packets at concrete packets.
use c_c_linux_learning_code.Common.{
  length, inr, inl, subst, Bool, true, false, Bool-cases, ltb, if◌then◌else◌, Bytes, ◌≡◌, refl,
  arith, some, [], ◌∷◌, ◌++◌,
}
use c_c_linux_learning_code.Packets.{
  EthHdr, IpHdr, ArpHdr, IcmpHdr, eth_bytes, ip_bytes, arp_bytes, icmp_bytes,
}
use c_c_linux_learning_code.Packets.Echo.{in_cksum, own_ip, serve}
use c_c_linux_learning_code.Packets.Checksum.{IsBytes, IsIp, IsIcmp}
use c_c_linux_learning_code.Packets.Replies.{
  IsEth, IsArp, arp_reply, pong, back_ip, icmp_answered, arp_answered,
}

abbrev peer : Bytes
peer = 0 ∷ 80 ∷ 86 ∷ 192 ∷ 0 ∷ 8 ∷ []

abbrev network : EthHdr
network = record { h_dst = 0 ∷ 12 ∷ 41 ∷ 27 ∷ 24 ∷ 32 ∷ []; h_src = peer; h_proto = 8 ∷ 0 ∷ [] }

abbrev question : EthHdr
question = record network { h_proto = 8 ∷ 6 ∷ [] }

abbrev gateway : Bytes
gateway = 192 ∷ 168 ∷ 109 ∷ 1 ∷ []

abbrev ping_ip : IpHdr
ping_ip = record {
  version = 69;
  tos = 0;
  totlen = 0 ∷ 60 ∷ [];
  id = 74 ∷ 1 ∷ [];
  flag_offset = 0 ∷ 0 ∷ [];
  ttl = 128;
  type = 1;
  check = 148 ∷ 6 ∷ [];
  sip = gateway;
  dip = own_ip;
}

abbrev four : Bytes
four = 97 ∷ 98 ∷ 99 ∷ 100 ∷ []

abbrev ping : IcmpHdr
ping = record {
  type = 8;
  code = 0;
  check = 77 ∷ 90 ∷ [];
  identifier = 0 ∷ 1 ∷ [];
  seq = 0 ∷ 1 ∷ [];
  payload = four ++ (four ++ (four ++ (four ++ (four ++ (four ++ (four ++ four))))));
}

abbrev who_has : ArpHdr
who_has = record {
  h_type = 0 ∷ 1 ∷ [];
  h_proto = 8 ∷ 0 ∷ [];
  h_addrlen = 6;
  h_protolen = 4;
  oper = 0 ∷ 1 ∷ [];
  smac = peer;
  sip = gateway;
  dmac = 0 ∷ 0 ∷ 0 ∷ 0 ∷ 0 ∷ 0 ∷ [];
  dip = own_ip;
}

network-IsEth : IsEth network
network-IsEth = record { h_dst = refl; h_src = refl; h_proto = refl }

question-IsEth : IsEth question
question-IsEth = record { h_dst = refl; h_src = refl; h_proto = refl }

ping_ip-IsIp : IsIp ping_ip
ping_ip-IsIp = record {
  totlen = refl;
  id = refl;
  flag_offset = refl;
  check = refl;
  sip = refl;
  dip = refl;
}

who_has-IsArp : IsArp who_has
who_has-IsArp = record {
  h_type = refl;
  h_proto = refl;
  oper = refl;
  smac = refl;
  sip = refl;
  dmac = refl;
  dip = refl;
}

unfoldable all_bytes : Bytes → Bool
all_bytes [] = true
all_bytes (c ∷ cs) = let rest = all_bytes cs in if ltb c 256 then rest else false

all_bytes-IsBytes : (bs : Bytes) → all_bytes bs ≡ true → IsBytes bs
unfolding all_bytes
all_bytes-IsBytes [] h = tt
all_bytes-IsBytes (c ∷ cs) h = elim (Bool-cases (ltb c 256)) [
  | inl small ↦ (
    ground arith,
    all_bytes-IsBytes cs (subst (λ t. (if t then all_bytes cs else false) ≡ true) small h),
  )
  | inr large ↦ absurd (cc (subst (λ t. (if t then all_bytes cs else false) ≡ true) large h))
]

ping-IsIcmp : IsIcmp ping
unfolding all_bytes
ping-IsIcmp = record {
  check = refl;
  identifier = refl;
  seq = refl;
  payload = refl;
  bytes = all_bytes-IsBytes (ping.identifier ++ (ping.seq ++ ping.payload)) refl;
}

icmp_answered_example :
    (sum : Bytes) × (length sum ≡ 2)
    × (serve (eth_bytes network ++ (ip_bytes ping_ip ++ (icmp_bytes ping ++ [])))
        ≡ some
            (some ((peer ++ (network.h_dst ++ 8 ∷ 0 ∷ [])) ++ (back_ip ping_ip ++ pong ping sum))))
    × (in_cksum (pong ping sum) ≡ some 0)
    × (in_cksum (back_ip ping_ip) ≡ in_cksum (ip_bytes ping_ip))
icmp_answered_example =
    icmp_answered network ping_ip ping [] network-IsEth ping_ip-IsIp ping-IsIcmp refl refl refl

arp_answered_example :
    serve (eth_bytes question ++ (arp_bytes who_has ++ []))
    ≡ some (some (arp_reply question who_has))
arp_answered_example = arp_answered question who_has [] question-IsEth who_has-IsArp refl refl
