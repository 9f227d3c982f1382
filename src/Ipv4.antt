-- ===== src/Ipv4.antt =====
-- libsponge/tcp_helpers/ipv4_header.hh, ipv4_header.cc, ipv4_datagram.hh and ipv4_datagram.cc.
pub mod RoundTrip
pub mod Datagrams
use tcp_impliment.Common.{
  ℕ, ◌+◌, ◌-◌, ◌*◌, ◌/◌, ◌%◌, ◌==◌, Bool, true, false, not, ◌||◌, Option, none, some, List, [], ◌∷◌,
  ◌++◌, length, take, ltb, if◌then◌else◌, replicate,
}
use tcp_impliment.Common.Words.{u16_mod, u32_mod, add32}
use tcp_impliment.Buffer.{joined}
use tcp_impliment.Parser
use tcp_impliment.Parser.{ParseResult, NetParser, unparse_int, failed}
use tcp_impliment.Checksum

abbrev pub ipv4_length : ℕ
ipv4_length = 20

abbrev pub proto_tcp : ℕ
proto_tcp = 6

pub record Ipv4Header : Type 0 where
  pub ver : ℕ
  pub hlen : ℕ
  pub tos : ℕ
  pub len : ℕ
  pub id : ℕ
  pub df : Bool
  pub mf : Bool
  pub offset : ℕ
  pub ttl : ℕ
  pub proto : ℕ
  pub cksum : ℕ
  pub src : ℕ
  pub dst : ℕ

abbrev pub default_ipv4_header : Ipv4Header
default_ipv4_header = record {
  ver = 4;
  hlen = ipv4_length / 4;
  tos = 0;
  len = 0;
  id = 0;
  df = true;
  mf = false;
  offset = 0;
  ttl = 128;
  proto = proto_tcp;
  cksum = 0;
  src = 0;
  dst = 0;
}

-- The fields, in their order.
unfoldable pub parse_ipv4_fields : NetParser → Ipv4Header × NetParser
parse_ipv4_fields p =
    let (first_byte, p1) = Parser.u8 p in
    let (tos, p2) = Parser.u8 p1 in
    let (len, p3) = Parser.u16 p2 in
    let (id, p4) = Parser.u16 p3 in
    let (fo_val, p5) = Parser.u16 p4 in
    let (ttl, p6) = Parser.u8 p5 in
    let (proto, p7) = Parser.u8 p6 in
    let (cksum, p8) = Parser.u16 p7 in
    let (src, p9) = Parser.u32 p8 in
    let (dst, p10) = Parser.u32 p9 in
    (
      record {
        ver = first_byte / 16;
        hlen = first_byte % 16;
        tos = tos;
        len = len;
        id = id;
        df = fo_val / 16384 % 2 == 1;
        mf = fo_val / 8192 % 2 == 1;
        offset = fo_val % 8192;
        ttl = ttl;
        proto = proto;
        cksum = cksum;
        src = src;
        dst = dst;
      },
      p10,
    )

-- The tests behind the fields, on the bytes of the whole packet.
unfoldable pub check_ipv4 : List ℕ → Ipv4Header → NetParser → ParseResult × NetParser
check_ipv4 original h p =
    if ltb (length original) (4 * h.hlen)
    then (ParseResult.packet_too_short, p)
    else if not (h.ver == 4)
    then (ParseResult.wrong_ip_version, p)
    else if ltb h.hlen 5
    then (ParseResult.header_too_short, p)
    else if not (length original == h.len)
    then (ParseResult.truncated_packet, p)
    else (let p' = Parser.remove_prefix (h.hlen * 4 - ipv4_length) p in
        let check = Checksum.add (Checksum.new 0) (take (4 * h.hlen) original) in
        if failed p'.error
        then (p'.error, p')
        else if not (Checksum.value check == 0)
        then (ParseResult.bad_checksum, p')
        else (ParseResult.no_error, p'))

-- The result, the header, and the parser behind it; a short packet leaves header and parser.
unfoldable pub parse_ipv4_header : Ipv4Header → NetParser → ParseResult × Ipv4Header × NetParser
parse_ipv4_header old p =
    if ltb (length p.buffer) ipv4_length
    then (ParseResult.packet_too_short, old, p)
    else (let (h, p') = parse_ipv4_fields p in
        let (result, p'') = check_ipv4 p.buffer h p' in (result, h, p''))

-- `first_byte` and `fo_val`; the bits differ, so `|` is the sum.
abbrev pub first_byte : Ipv4Header → ℕ
first_byte h = (h.ver * 16 + h.hlen % 16) % 256

abbrev pub fo_val : Ipv4Header → ℕ
fo_val h = (if h.df then 16384 else 0) + (if h.mf then 8192 else 0) + h.offset % 8192

abbrev pub ipv4_fields : Ipv4Header → List ℕ
ipv4_fields h =
    unparse_int 1 (first_byte h)
    ++ unparse_int 1 h.tos
    ++ unparse_int 2 h.len
    ++ unparse_int 2 h.id
    ++ unparse_int 2 (fo_val h)
    ++ unparse_int 1 h.ttl
    ++ unparse_int 1 h.proto
    ++ unparse_int 2 h.cksum
    ++ unparse_int 4 h.src
    ++ unparse_int 4 h.dst

abbrev pub ipv4_bytes : Ipv4Header → List ℕ
ipv4_bytes h = ipv4_fields h ++ replicate (4 * h.hlen - ipv4_length) 0

-- `none` for the exceptions; `resize` fills up with zeros.
unfoldable pub serialize_ipv4_header : Ipv4Header → Option (List ℕ)
serialize_ipv4_header h =
    if not (h.ver == 4) || ltb (4 * h.hlen) ipv4_length then none else some (ipv4_bytes h)

abbrev pub payload_length : Ipv4Header → ℕ
payload_length h = (h.len + u32_mod - 4 * h.hlen) % u16_mod

abbrev pub pseudo_cksum : Ipv4Header → ℕ
pseudo_cksum h =
    add32
      (add32 (add32 (h.src / u16_mod + h.src % u16_mod) (h.dst / u16_mod + h.dst % u16_mod))
        h.proto)
      (payload_length h)

pub record Ipv4Datagram : Type 0 where
  pub header : Ipv4Header
  pub payload : List (List ℕ)

-- `IPv4Datagram::parse` does not look at the header's result.
unfoldable pub parse_datagram : Ipv4Datagram → List ℕ → ParseResult × Ipv4Datagram
parse_datagram old buffer =
    let (_, header, p) = parse_ipv4_header old.header (Parser.new buffer) in
    (
      if not (length p.buffer == payload_length header)
          then ParseResult.packet_too_short
          else p.error,
      record { header = header; payload = p.buffer ∷ [] },
    )

-- The header with its checksum, which is taken over the header with a checksum of zero.
abbrev pub with_checksum : Ipv4Header → List ℕ → Ipv4Header
with_checksum h zeroed = record h { cksum = Checksum.value (Checksum.add (Checksum.new 0) zeroed) }

abbrev pub fill_checksum : Option (List ℕ) → Ipv4Header → Option (List ℕ)
fill_checksum none h = none
fill_checksum (some zeroed) h = serialize_ipv4_header (with_checksum h zeroed)

abbrev pub checked_header : Ipv4Header → Option (List ℕ)
checked_header h = fill_checksum (serialize_ipv4_header (record h { cksum = 0 })) h

abbrev pub before_payload : Option (List ℕ) → List (List ℕ) → Option (List (List ℕ))
before_payload none payload = none
before_payload (some header) payload = some (header ∷ payload)

-- `none` for the exceptions.
unfoldable pub serialize_datagram : Ipv4Datagram → Option (List (List ℕ))
serialize_datagram d =
    if not (length (joined d.payload) == payload_length d.header)
    then none
    else before_payload (checked_header d.header) d.payload
