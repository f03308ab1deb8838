-- ===== src/Packets.antt =====
-- 2.4.1udp icmp arp/udp_icmp_arp.c: the replies that a network stack in user space sends. A header
-- field of several bytes is kept as they stand in memory. A packet is read from the bytes of its
-- slot in the ring of netmap; an access behind them is a fault. netmap and poll are left out.
pub mod Echo
pub mod Checksum
pub mod Mac
pub mod Replies
mod Tests
use c_c_linux_learning_code.Common.{
  Bytes, split_at, drop, same_bytes, ℕ, zero, suc, ◌+◌, ◌-◌, ◌*◌, ◌/◌, ◌%◌, Bool, true, false, ◌&&◌,
  Option, none, some, List, [], ◌∷◌, ◌++◌, ltb, leb, ◌==◌, if◌then◌else◌, ◌>>=◌, length,
}

pub record EthHdr : Type 0 where
  pub h_dst : Bytes
  pub h_src : Bytes
  pub h_proto : Bytes

-- `version` holds both fields of its byte, `hdrlen` too. `payload` is the field `data` of an ICMP message.
pub record IpHdr : Type 0 where
  pub version : ℕ
  pub tos : ℕ
  pub totlen : Bytes
  pub id : Bytes
  pub flag_offset : Bytes
  pub ttl : ℕ
  pub type : ℕ
  pub check : Bytes
  pub sip : Bytes
  pub dip : Bytes

pub record UdpHdr : Type 0 where
  pub sport : Bytes
  pub dport : Bytes
  pub length : Bytes
  pub check : Bytes

pub record ArpHdr : Type 0 where
  pub h_type : Bytes
  pub h_proto : Bytes
  pub h_addrlen : ℕ
  pub h_protolen : ℕ
  pub oper : Bytes
  pub smac : Bytes
  pub sip : Bytes
  pub dmac : Bytes
  pub dip : Bytes

pub record IcmpHdr : Type 0 where
  pub type : ℕ
  pub code : ℕ
  pub check : Bytes
  pub identifier : Bytes
  pub seq : Bytes
  pub payload : Bytes

-- The bytes of the packed structs.
unfoldable pub eth_bytes : EthHdr → Bytes
eth_bytes e = e.h_dst ++ (e.h_src ++ e.h_proto)

unfoldable pub ip_bytes : IpHdr → Bytes
ip_bytes i =
    i.version
    ∷ i.tos
    ∷ (i.totlen ++ (i.id ++ (i.flag_offset ++ (i.ttl ∷ i.type ∷ (i.check ++ (i.sip ++ i.dip))))))

unfoldable pub udp_bytes : UdpHdr → Bytes
udp_bytes u = u.sport ++ (u.dport ++ (u.length ++ u.check))

unfoldable pub arp_bytes : ArpHdr → Bytes
arp_bytes a =
    a.h_type
    ++ (a.h_proto
        ++ (a.h_addrlen ∷ a.h_protolen ∷ (a.oper ++ (a.smac ++ (a.sip ++ (a.dmac ++ a.dip))))))

unfoldable pub icmp_bytes : IcmpHdr → Bytes
icmp_bytes c = c.type ∷ c.code ∷ (c.check ++ (c.identifier ++ (c.seq ++ c.payload)))

-- The structs that a pointer into the bytes is cast to, and what follows them.
unfoldable pub read_eth : Bytes → Option (EthHdr × Bytes)
unfolding split_at
read_eth stream = do
  (h_dst, s1) ← split_at 6 stream
  (h_src, s2) ← split_at 6 s1
  (h_proto, rest) ← split_at 2 s2
  some (record { h_dst = h_dst; h_src = h_src; h_proto = h_proto }, rest)

unfoldable pub read_byte : Bytes → Option (ℕ × Bytes)
read_byte [] = none
read_byte (c ∷ cs) = some (c, cs)

unfoldable pub read_ip : Bytes → Option (IpHdr × Bytes)
unfolding split_at read_byte
read_ip stream = do
  (version, s1) ← read_byte stream
  (tos, s2) ← read_byte s1
  (totlen, s3) ← split_at 2 s2
  (id, s4) ← split_at 2 s3
  (flag_offset, s5) ← split_at 2 s4
  (ttl, s6) ← read_byte s5
  (type, s7) ← read_byte s6
  (check, s8) ← split_at 2 s7
  (sip, s9) ← split_at 4 s8
  (dip, rest) ← split_at 4 s9
  some (
    record {
      version = version;
      tos = tos;
      totlen = totlen;
      id = id;
      flag_offset = flag_offset;
      ttl = ttl;
      type = type;
      check = check;
      sip = sip;
      dip = dip;
    },
    rest,
  )

unfoldable pub read_udp : Bytes → Option (UdpHdr × Bytes)
unfolding split_at
read_udp stream = do
  (sport, s1) ← split_at 2 stream
  (dport, s2) ← split_at 2 s1
  (length, s3) ← split_at 2 s2
  (check, rest) ← split_at 2 s3
  some (record { sport = sport; dport = dport; length = length; check = check }, rest)

unfoldable pub read_arp : Bytes → Option (ArpHdr × Bytes)
unfolding split_at read_byte
read_arp stream = do
  (h_type, s1) ← split_at 2 stream
  (h_proto, s2) ← split_at 2 s1
  (h_addrlen, s3) ← read_byte s2
  (h_protolen, s4) ← read_byte s3
  (oper, s5) ← split_at 2 s4
  (smac, s6) ← split_at 6 s5
  (sip, s7) ← split_at 4 s6
  (dmac, s8) ← split_at 6 s7
  (dip, rest) ← split_at 4 s8
  some (
    record {
      h_type = h_type;
      h_proto = h_proto;
      h_addrlen = h_addrlen;
      h_protolen = h_protolen;
      oper = oper;
      smac = smac;
      sip = sip;
      dmac = dmac;
      dip = dip;
    },
    rest,
  )

unfoldable pub read_icmp : Bytes → Option (IcmpHdr × Bytes)
unfolding split_at read_byte
read_icmp stream = do
  (type, s1) ← read_byte stream
  (code, s2) ← read_byte s1
  (check, s3) ← split_at 2 s2
  (identifier, s4) ← split_at 2 s3
  (seq, s5) ← split_at 2 s4
  (payload, rest) ← split_at 32 s5
  some (
    record {
      type = type;
      code = code;
      check = check;
      identifier = identifier;
      seq = seq;
      payload = payload;
    },
    rest,
  )
