-- ===== src/Packets/Checksum.antt =====
-- The checksum of the reply to an ICMP request, and the one of its IP header.
use c_c_linux_learning_code.Common.{
  Bytes, ℕ, zero, suc, ◌+◌, ◌-◌, ◌*◌, ◌/◌, ◌%◌, ◌≤◌, ◌<◌, ◌≡◌, refl, ap, arith, true, some, [], ◌∷◌,
  ◌++◌, ltb, length, length-append, All, ltb-true,
}
use c_c_linux_learning_code.Packets.{IpHdr, IcmpHdr, ip_bytes, icmp_bytes}
use c_c_linux_learning_code.Packets.Echo.{sum_words, in_cksum, short_bytes, swap_ip, unchecked}

-- Bytes of the values that they have.
abbrev pub IsBytes : Bytes → Type 0
IsBytes bytes = All (λ c. c < 256) bytes

pub sum_words-append :
    (k : ℕ) (xs ys : Bytes) → length xs ≡ 2 * k → sum_words (xs ++ ys) ≡ sum_words xs + sum_words ys
unfolding sum_words
sum_words-append k [] ys even = omega arith
sum_words-append k (a ∷ []) ys even = absurd (omega arith)
sum_words-append zero (a ∷ b ∷ xs) ys even = absurd (omega arith)
sum_words-append (suc k) (a ∷ b ∷ xs) ys even =
    let there = sum_words-append k xs ys (omega arith) in omega arith

sum_words-bound : (xs : Bytes) → IsBytes xs → sum_words xs ≤ 65280 * length xs
unfolding sum_words
sum_words-bound [] h = omega arith
sum_words-bound (a ∷ []) h = let low = h.0 in omega arith
sum_words-bound (a ∷ b ∷ xs) h =
    let there = sum_words-bound xs h.1.1 in let low = h.0 in let high = h.1.0 in omega arith

-- The sum of an even message that holds its own checksum.
checked_sum :
    (sum check : ℕ)
    → sum < 2147418112
    → check ≡ 65535 - (sum / 65536 + sum % 65536 + (sum / 65536 + sum % 65536) / 65536) % 65536
    → let whole = sum + (check % 256 + 256 * (check / 256)) in
      65535 - (whole / 65536 + whole % 65536 + (whole / 65536 + whole % 65536) / 65536) % 65536 ≡ 0
checked_sum sum check small e = omega arith

-- The sizes of the fields in memory.
pub record IsIcmp (c : IcmpHdr) : Type 0 where
  pub check : length c.check ≡ 2
  pub identifier : length c.identifier ≡ 2
  pub seq : length c.seq ≡ 2
  pub payload : length c.payload ≡ 32
  pub bytes : IsBytes (c.identifier ++ (c.seq ++ c.payload))

pub record IsIp (i : IpHdr) : Type 0 where
  pub totlen : length i.totlen ≡ 2
  pub id : length i.id ≡ 2
  pub flag_offset : length i.flag_offset ≡ 2
  pub check : length i.check ≡ 2
  pub sip : length i.sip ≡ 4
  pub dip : length i.dip ≡ 4

-- The message of the reply, with its checksum.
abbrev pub replied : IcmpHdr → ℕ → IcmpHdr
replied c check = record (unchecked c) { check = short_bytes check }

unchecked-small : (c : IcmpHdr) → IsIcmp c → sum_words (icmp_bytes (unchecked c)) < 2147418112
unfolding icmp_bytes unchecked sum_words
unchecked-small c v =
    let bound = sum_words-bound (c.identifier ++ (c.seq ++ c.payload)) v.bytes in
    let outer = length-append c.identifier (c.seq ++ c.payload) in
    let inner = length-append c.seq c.payload in
    let identifier = v.identifier in let seq = v.seq in let payload = v.payload in omega arith

replied-sum :
    (c : IcmpHdr) (check : ℕ)
    → sum_words (icmp_bytes (replied c check))
      ≡ sum_words (icmp_bytes (unchecked c)) + (check % 256 + 256 * (check / 256))
unfolding icmp_bytes unchecked short_bytes sum_words
replied-sum c check = omega arith

pub icmp_cksum_valid :
    (c : IcmpHdr)
    → IsIcmp c
    → (check : ℕ) × (in_cksum (icmp_bytes (unchecked c)) ≡ some check)
      × (in_cksum (icmp_bytes (replied c check)) ≡ some 0)
unfolding in_cksum short_bytes
icmp_cksum_valid c v =
    let sum = sum_words (icmp_bytes (unchecked c)) in
    let small = unchecked-small c v in
    let check = 65535 - (sum / 65536 + sum % 65536 + (sum / 65536 + sum % 65536) / 65536) % 65536 in
    let whole : sum_words (icmp_bytes (replied c check))
        ≡ sum + (check % 256 + 256 * (check / 256)) =
      replied-sum c check in
    let small' : sum + (check % 256 + 256 * (check / 256)) < 2147483648 = omega arith in
    let first : ltb sum 2147483648 ≡ true = ltb-true (omega arith) in
    (check, rw first refl, rw (whole, ltb-true small') (ap some (checked_sum sum check small refl)))

ip_bytes-sum :
    (i : IpHdr)
    → IsIp i
    → sum_words (ip_bytes i)
      ≡ i.version
        + 256 * i.tos
        + (sum_words i.totlen
            + (sum_words i.id
                + (sum_words i.flag_offset
                    + (i.ttl
                        + 256 * i.type
                        + (sum_words i.check + (sum_words i.sip + sum_words i.dip))))))
unfolding ip_bytes sum_words
ip_bytes-sum i v =
    rw
      (
        sum_words-append 1 i.totlen _ v.totlen,
        sum_words-append 1 i.id _ v.id,
        sum_words-append 1 i.flag_offset _ v.flag_offset,
        sum_words-append 1 i.check _ v.check,
        sum_words-append 2 i.sip _ v.sip,
      )
      refl

pub swap_ip-IsIp : (i : IpHdr) → IsIp i → IsIp (swap_ip i)
unfolding swap_ip
swap_ip-IsIp i v = record {
  totlen = v.totlen;
  id = v.id;
  flag_offset = v.flag_offset;
  check = v.check;
  sip = v.dip;
  dip = v.sip;
}

-- Swapped addresses leave the checksum of the IP header as it was.
pub swap_ip-cksum : (i : IpHdr) → IsIp i → in_cksum (ip_bytes (swap_ip i)) ≡ in_cksum (ip_bytes i)
unfolding in_cksum swap_ip
swap_ip-cksum i v =
    let swapped = ip_bytes-sum (swap_ip i) (swap_ip-IsIp i v) in
    let before = ip_bytes-sum i v in
    let same : sum_words (ip_bytes (swap_ip i)) ≡ sum_words (ip_bytes i) = omega arith in
    rw same refl
