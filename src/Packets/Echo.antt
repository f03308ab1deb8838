-- ===== src/Packets/Echo.antt =====
-- The functions of udp_icmp_arp.c on packets, and a round of its loop.
use c_c_linux_learning_code.Common.{
  Bytes, drop, same_bytes, ℕ, zero, suc, ◌+◌, ◌-◌, ◌*◌, ◌/◌, ◌%◌, ◌&&◌, Option, none, some, [], ◌∷◌,
  ◌++◌, ltb, leb, ◌==◌, if◌then◌else◌, ◌>>=◌, length,
}
use c_c_linux_learning_code.Packets.{
  EthHdr, IpHdr, UdpHdr, ArpHdr, IcmpHdr, eth_bytes, ip_bytes, udp_bytes, arp_bytes, icmp_bytes,
  read_eth, read_ip, read_udp, read_arp, read_icmp,
}

unfoldable pub hex_digit : ℕ → Option ℕ
hex_digit c =
    if leb 48 c && leb c 57
    then some (c - 48)
    else if leb 97 c && leb c 102
    then some (c - 97 + 10)
    else if leb 65 c && leb c 70
    then some (c - 65 + 10)
    else none

-- `mac[i] = value`, where `mac` are the `i` bytes written; the array has 6.
unfoldable pub put : Bytes → ℕ → Option Bytes
put mac value = if ltb (length mac) 6 then some (mac ++ value ∷ []) else none

unfoldable pub digit_or : Option Bytes → (ℕ → Option Bytes) → Option ℕ → Option Bytes
digit_or stop more none = stop
digit_or stop more (some temp) = more temp

-- The loop of str2mac, which the end of the string ends, as any other byte that is no digit.
unfoldable pub str2mac_loop : Bytes → ℕ → Bytes → Option Bytes
unfolding hex_digit put digit_or
str2mac_loop mac value [] = put mac value
str2mac_loop mac value (c ∷ str) =
    let next : Option Bytes = do mac' ← put mac value; str2mac_loop mac' 0 str
    in let more : Option Bytes =
        digit_or (put mac value) (λ temp. str2mac_loop mac (value * 16 % 256 + temp) str)
          (hex_digit c) in
      if c == 58 then next else more

-- The array that held `mac`, after the call.
unfoldable pub str2mac : Bytes → Bytes → Option Bytes
unfolding str2mac_loop drop
str2mac mac str = str2mac_loop [] 0 str >>= λ bytes. some (bytes ++ drop (length bytes) mac)

-- The words of an `unsigned short*`, with the odd byte at the end.
unfoldable pub sum_words : Bytes → ℕ
sum_words [] = 0
sum_words (a ∷ []) = a
sum_words (a ∷ b ∷ bytes) = a + 256 * b + sum_words bytes

-- The sum of type int, where 2^31 would be an overflow.
unfoldable pub in_cksum : Bytes → Option ℕ
unfolding sum_words
in_cksum bytes =
    let sum = sum_words bytes in
    let folded = sum / 65536 + sum % 65536 in
    let answer = 65535 - (folded + folded / 65536) % 65536 in
    if ltb sum 2147483648 then some answer else none

-- An `unsigned short` in memory.
unfoldable pub short_bytes : ℕ → Bytes
short_bytes n = n % 256 ∷ n / 256 ∷ []

unfoldable pub swap_eth : EthHdr → EthHdr
swap_eth e = record e { h_dst = e.h_src; h_src = e.h_dst }

unfoldable pub swap_ip : IpHdr → IpHdr
swap_ip i = record i { sip = i.dip; dip = i.sip }

unfoldable pub echo_udp_pkt : EthHdr → IpHdr → UdpHdr → Bytes
unfolding swap_eth swap_ip eth_bytes ip_bytes udp_bytes
echo_udp_pkt e i u =
    eth_bytes (swap_eth e)
    ++ (ip_bytes (swap_ip i) ++ udp_bytes (record u { sport = u.dport; dport = u.sport }))

unfoldable pub echo_arp_pkt : EthHdr → ArpHdr → Bytes → Option Bytes
unfolding str2mac eth_bytes arp_bytes
echo_arp_pkt e a mac = do
  h_src ← str2mac e.h_src mac
  smac ← str2mac a.smac mac
  some (
      eth_bytes (record e { h_dst = e.h_src; h_src = h_src })
      ++ arp_bytes (record a {
        h_addrlen = 6;
        h_protolen = 4;
        oper = 0 ∷ 2 ∷ [];
        smac = smac;
        sip = a.dip;
        dmac = a.smac;
        dip = a.sip;
      }))

-- The message of the reply, before its checksum.
unfoldable pub unchecked : IcmpHdr → IcmpHdr
unchecked c = record c { type = 0; code = 0; check = 0 ∷ 0 ∷ [] }

unfoldable pub echo_icmp_pkt : EthHdr → IpHdr → IcmpHdr → Option Bytes
unfolding swap_eth swap_ip eth_bytes ip_bytes icmp_bytes unchecked in_cksum short_bytes
echo_icmp_pkt e i c = do
  check ← in_cksum (icmp_bytes (unchecked c))
  some (
      eth_bytes (swap_eth e)
      ++ (ip_bytes (swap_ip i) ++ icmp_bytes (record (unchecked c) { check = short_bytes check })))

-- ntohs
unfoldable pub host_short : Bytes → ℕ
host_short [] = 0
host_short (a ∷ []) = 0
host_short (a ∷ b ∷ bytes) = a * 256 + b

unfoldable pub set_byte : ℕ → ℕ → Bytes → Option Bytes
set_byte n value [] = none
set_byte zero value (c ∷ cs) = some (value ∷ cs)
set_byte (suc n) value (c ∷ cs) = set_byte n value cs >>= λ rest. some (c ∷ rest)

-- A datagram: the end of a string is put behind its data, by the length that it announces, then its
-- headers are sent back. The data begins at the byte 42 of the slot.
unfoldable pub serve_udp : Bytes → Option (Option Bytes)
unfolding read_eth read_ip read_udp host_short set_byte echo_udp_pkt
serve_udp stream = do
  (e, s1) ← read_eth stream
  (i, s2) ← read_ip s1
  (u, _) ← read_udp s2
  marked ← set_byte (42 + host_short u.length - 8) 0 stream
  (e', t1) ← read_eth marked
  (i', t2) ← read_ip t1
  (u', _) ← read_udp t2
  some (some (echo_udp_pkt e' i' u'))

-- Only a request is answered.
unfoldable pub serve_icmp : EthHdr → IpHdr → Bytes → Option (Option Bytes)
unfolding read_icmp echo_icmp_pkt
serve_icmp e i bytes = do
  (c, _) ← read_icmp bytes
  let reply : Option (Option Bytes) = do packet ← echo_icmp_pkt e i c; some (some packet)
  if c.type == 8 then reply else some none

abbrev pub own_ip : Bytes
own_ip = 192 ∷ 168 ∷ 109 ∷ 100 ∷ []

-- "00:0c:29:1b:18:20"
abbrev pub own_mac : Bytes
own_mac = 48 ∷ 48 ∷ 58 ∷ 48 ∷ 99 ∷ 58 ∷ 50 ∷ 57 ∷ 58 ∷ 49 ∷ 98 ∷ 58 ∷ 49 ∷ 56 ∷ 58 ∷ 50 ∷ 48 ∷ []

unfoldable pub serve_arp : EthHdr → Bytes → Option (Option Bytes)
unfolding read_arp same_bytes echo_arp_pkt
serve_arp e bytes = do
  (a, _) ← read_arp bytes
  let reply : Option (Option Bytes) = do packet ← echo_arp_pkt e a own_mac; some (some packet)
  if same_bytes a.dip own_ip then reply else some none

-- The packet that a round of main injects, if it does.
unfoldable pub serve : Bytes → Option (Option Bytes)
unfolding read_eth read_ip host_short serve_udp serve_icmp serve_arp
serve stream = do
  (e, rest) ← read_eth stream
  let ip : Option (Option Bytes) = do
    (i, rest') ← read_ip rest
    let icmp = serve_icmp e i rest'
    if i.type == 17 then serve_udp stream else if i.type == 1 then icmp else some none
  let arp = serve_arp e rest
  if host_short e.h_proto == 2048
      then ip
      else if host_short e.h_proto == 2054
      then arp
      else some none
