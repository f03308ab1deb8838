-- ===== src/Packets/Replies.antt =====
-- What a round of the loop of udp_icmp_arp.c answers to an ICMP request and to an ARP request.
use c_c_linux_learning_code.Common.{
  Bytes, split_at-prefix, same_bytes-differs, drop, drop-append, ◌≢◌, ℕ, ◌≡◌, refl, sym, ap, ◌∙◌,
  subst, none, some, [], ◌∷◌, ◌++◌, length,
}
use mathlib.Core.List.{append_assoc, append-nil}
use c_c_linux_learning_code.Packets.{
  EthHdr, IpHdr, ArpHdr, IcmpHdr, eth_bytes, ip_bytes, arp_bytes, icmp_bytes, read_eth, read_byte,
  read_ip, read_arp, read_icmp,
}
use c_c_linux_learning_code.Packets.Echo.{
  unchecked, short_bytes, in_cksum, swap_eth, swap_ip, echo_icmp_pkt, echo_arp_pkt, host_short,
  own_ip, serve_icmp, serve_arp, serve,
}
use c_c_linux_learning_code.Packets.Checksum.{
  IsIp, IsIcmp, replied, icmp_cksum_valid, swap_ip-cksum,
}

-- The sizes of the fields in memory.
pub record IsEth (e : EthHdr) : Type 0 where
  pub h_dst : length e.h_dst ≡ 6
  pub h_src : length e.h_src ≡ 6
  pub h_proto : length e.h_proto ≡ 2

pub record IsArp (a : ArpHdr) : Type 0 where
  pub h_type : length a.h_type ≡ 2
  pub h_proto : length a.h_proto ≡ 2
  pub oper : length a.oper ≡ 2
  pub smac : length a.smac ≡ 6
  pub sip : length a.sip ≡ 4
  pub dmac : length a.dmac ≡ 6
  pub dip : length a.dip ≡ 4

read_eth-bytes :
    (e : EthHdr) (rest : Bytes) → IsEth e → read_eth (eth_bytes e ++ rest) ≡ some (e, rest)
unfolding read_eth eth_bytes
read_eth-bytes e rest v =
    rw
      (
        append_assoc e.h_dst (e.h_src ++ e.h_proto) rest,
        split_at-prefix 6 e.h_dst ((e.h_src ++ e.h_proto) ++ rest) v.h_dst,
        append_assoc e.h_src e.h_proto rest,
        split_at-prefix 6 e.h_src (e.h_proto ++ rest) v.h_src,
        split_at-prefix 2 e.h_proto rest v.h_proto,
      )
      refl

read_ip-bytes : (i : IpHdr) (rest : Bytes) → IsIp i → read_ip (ip_bytes i ++ rest) ≡ some (i, rest)
unfolding read_ip read_byte ip_bytes
read_ip-bytes i rest v =
    let tail = i.ttl ∷ i.type ∷ (i.check ++ (i.sip ++ i.dip)) in
    rw
      (
        append_assoc i.totlen (i.id ++ (i.flag_offset ++ tail)) rest,
        split_at-prefix 2 i.totlen ((i.id ++ (i.flag_offset ++ tail)) ++ rest) v.totlen,
        append_assoc i.id (i.flag_offset ++ tail) rest,
        split_at-prefix 2 i.id ((i.flag_offset ++ tail) ++ rest) v.id,
        append_assoc i.flag_offset tail rest,
        split_at-prefix 2 i.flag_offset (tail ++ rest) v.flag_offset,
        append_assoc i.check (i.sip ++ i.dip) rest,
        split_at-prefix 2 i.check ((i.sip ++ i.dip) ++ rest) v.check,
        append_assoc i.sip i.dip rest,
        split_at-prefix 4 i.sip (i.dip ++ rest) v.sip,
        split_at-prefix 4 i.dip rest v.dip,
      )
      refl

read_icmp-bytes :
    (c : IcmpHdr) (rest : Bytes) → IsIcmp c → read_icmp (icmp_bytes c ++ rest) ≡ some (c, rest)
unfolding read_icmp read_byte icmp_bytes
read_icmp-bytes c rest v =
    rw
      (
        append_assoc c.check (c.identifier ++ (c.seq ++ c.payload)) rest,
        split_at-prefix 2 c.check ((c.identifier ++ (c.seq ++ c.payload)) ++ rest) v.check,
        append_assoc c.identifier (c.seq ++ c.payload) rest,
        split_at-prefix 2 c.identifier ((c.seq ++ c.payload) ++ rest) v.identifier,
        append_assoc c.seq c.payload rest,
        split_at-prefix 2 c.seq (c.payload ++ rest) v.seq,
        split_at-prefix 32 c.payload rest v.payload,
      )
      refl

read_arp-bytes :
    (a : ArpHdr) (rest : Bytes) → IsArp a → read_arp (arp_bytes a ++ rest) ≡ some (a, rest)
unfolding read_arp read_byte arp_bytes
read_arp-bytes a rest v =
    let tail = a.oper ++ (a.smac ++ (a.sip ++ (a.dmac ++ a.dip))) in
    rw
      (
        append_assoc a.h_type (a.h_proto ++ a.h_addrlen ∷ a.h_protolen ∷ tail) rest,
        split_at-prefix 2 a.h_type ((a.h_proto ++ a.h_addrlen ∷ a.h_protolen ∷ tail) ++ rest)
            v.h_type,
        append_assoc a.h_proto (a.h_addrlen ∷ a.h_protolen ∷ tail) rest,
        split_at-prefix 2 a.h_proto (a.h_addrlen ∷ a.h_protolen ∷ (tail ++ rest)) v.h_proto,
        append_assoc a.oper (a.smac ++ (a.sip ++ (a.dmac ++ a.dip))) rest,
        split_at-prefix 2 a.oper ((a.smac ++ (a.sip ++ (a.dmac ++ a.dip))) ++ rest) v.oper,
        append_assoc a.smac (a.sip ++ (a.dmac ++ a.dip)) rest,
        split_at-prefix 6 a.smac ((a.sip ++ (a.dmac ++ a.dip)) ++ rest) v.smac,
        append_assoc a.sip (a.dmac ++ a.dip) rest,
        split_at-prefix 4 a.sip ((a.dmac ++ a.dip) ++ rest) v.sip,
        append_assoc a.dmac a.dip rest,
        split_at-prefix 6 a.dmac (a.dip ++ rest) v.dmac,
        split_at-prefix 4 a.dip rest v.dip,
      )
      refl

icmp_served :
    (e : EthHdr) (i : IpHdr) (c : IcmpHdr) (rest : Bytes)
    → IsEth e
    → IsIp i
    → IsIcmp c
    → e.h_proto ≡ 8 ∷ 0 ∷ []
    → i.type ≡ 1
    → c.type ≡ 8
    → (check : ℕ) → in_cksum (icmp_bytes (unchecked c)) ≡ some check
    → serve (eth_bytes e ++ (ip_bytes i ++ (icmp_bytes c ++ rest)))
      ≡ some
          (some (eth_bytes (swap_eth e) ++ (ip_bytes (swap_ip i) ++ icmp_bytes (replied c check))))
unfolding serve serve_icmp echo_icmp_pkt host_short
icmp_served e i c rest ve vi vc ip icmp request check computed =
    rw
      (
        read_eth-bytes e (ip_bytes i ++ (icmp_bytes c ++ rest)) ve,
        ip,
        read_ip-bytes i (icmp_bytes c ++ rest) vi,
        icmp,
        read_icmp-bytes c rest vc,
        request,
        computed,
      )
      refl

-- The message of type 0 with the checksum `sum`, the identifier, number and data of `c`.
abbrev pub pong : IcmpHdr → Bytes → Bytes
pong c sum = 0 ∷ 0 ∷ (sum ++ (c.identifier ++ (c.seq ++ c.payload)))

-- An IP header to the sender of `i`, from its receiver.
abbrev pub back_ip : IpHdr → Bytes
back_ip i =
    i.version
    ∷ i.tos
    ∷ (i.totlen ++ (i.id ++ (i.flag_offset ++ (i.ttl ∷ i.type ∷ (i.check ++ (i.dip ++ i.sip))))))

-- For every frame of the protocol 0x0800 with an IP header of type 1 and an ICMP request, whose
-- fields have their sizes and whose identifier, sequence number and data are bytes, whatever
-- follows: the round ends without a fault and sends one packet, the frame and the IP header with
-- swapped addresses and the message of type 0 with the same identifier, sequence number and data. A
-- receiver that sums this message gets 0, and the IP header has the same sum as the one received.
pub icmp_answered :
    (e : EthHdr) (i : IpHdr) (c : IcmpHdr) (rest : Bytes)
    → IsEth e
    → IsIp i
    → IsIcmp c
    → e.h_proto ≡ 8 ∷ 0 ∷ []
    → i.type ≡ 1
    → c.type ≡ 8
    → (sum : Bytes) × (length sum ≡ 2)
      × (serve (eth_bytes e ++ (ip_bytes i ++ (icmp_bytes c ++ rest)))
          ≡ some (some ((e.h_src ++ (e.h_dst ++ e.h_proto)) ++ (back_ip i ++ pong c sum))))
      × (in_cksum (pong c sum) ≡ some 0)
      × (in_cksum (back_ip i) ≡ in_cksum (ip_bytes i))
unfolding short_bytes unchecked swap_eth swap_ip eth_bytes ip_bytes icmp_bytes
icmp_answered e i c rest ve vi vc ip icmp request =
    let (check, computed, valid) = icmp_cksum_valid c vc in
    let run = icmp_served e i c rest ve vi vc ip icmp request check computed in
    (short_bytes check, refl, run, valid, swap_ip-cksum i vi)

drop-all : (mac : Bytes) → length mac ≡ 6 → drop 6 mac ≡ []
drop-all mac h =
    subst (λ n. drop n mac ≡ []) h
      (ap (drop (length mac)) (sym (append-nil mac)) ∙ drop-append mac [])

-- The bytes of `own_mac`, in an array with `rest` behind them.
abbrev own : Bytes → Bytes
own rest = 0 ∷ 12 ∷ 41 ∷ 27 ∷ 24 ∷ 32 ∷ rest

-- The reply with the hardware addresses `h_src` and `smac` of the sender.
abbrev arp_from : EthHdr → ArpHdr → Bytes → Bytes → Bytes
arp_from e a h_src smac =
    eth_bytes (record e { h_dst = e.h_src; h_src = h_src })
    ++ arp_bytes (record {
      h_type = a.h_type;
      h_proto = a.h_proto;
      h_addrlen = 6;
      h_protolen = 4;
      oper = 0 ∷ 2 ∷ [];
      smac = smac;
      sip = own_ip;
      dmac = a.smac;
      dip = a.sip;
    })

-- The reply to an ARP request for the own address.
abbrev pub arp_reply : EthHdr → ArpHdr → Bytes
arp_reply e a = arp_from e a (own []) (own [])

arp_reply-full :
    (e : EthHdr) (a : ArpHdr)
    → IsEth e
    → IsArp a
    → arp_from e a (own (drop 6 e.h_src)) (own (drop 6 a.smac)) ≡ arp_reply e a
arp_reply-full e a ve va =
    ap (λ rest. arp_from e a (own rest) (own (drop 6 a.smac))) (drop-all e.h_src ve.h_src)
    ∙ ap (λ rest. arp_from e a (own []) (own rest)) (drop-all a.smac va.smac)

-- For every frame of the protocol 0x0806 with an ARP message for the address 192.168.109.100, whose
-- fields have their sizes, whatever follows: the round ends without a fault and sends one packet,
-- the reply from the hardware address 00:0c:29:1b:18:20 and the address asked for, to both
-- addresses of the sender.
pub arp_answered :
    (e : EthHdr) (a : ArpHdr) (rest : Bytes)
    → IsEth e
    → IsArp a
    → e.h_proto ≡ 8 ∷ 6 ∷ []
    → a.dip ≡ own_ip
    → serve (eth_bytes e ++ (arp_bytes a ++ rest)) ≡ some (some (arp_reply e a))
unfolding serve serve_arp echo_arp_pkt host_short
arp_answered e a rest ve va arp mine =
    let full = ap (λ packet. some (some packet)) (arp_reply-full e a ve va) in
    rw (read_eth-bytes e (arp_bytes a ++ rest) ve, arp, read_arp-bytes a rest va, mine, ← arp) full

-- A request for another address is not answered.
pub arp_ignored :
    (e : EthHdr) (a : ArpHdr) (rest : Bytes)
    → IsEth e
    → IsArp a
    → e.h_proto ≡ 8 ∷ 6 ∷ []
    → a.dip ≢ own_ip
    → serve (eth_bytes e ++ (arp_bytes a ++ rest)) ≡ some none
unfolding serve serve_arp host_short
arp_ignored e a rest ve va arp differs =
    rw
      (
        read_eth-bytes e (arp_bytes a ++ rest) ve,
        arp,
        read_arp-bytes a rest va,
        same_bytes-differs a.dip own_ip differs,
      )
      refl
