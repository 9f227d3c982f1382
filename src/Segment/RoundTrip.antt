-- ===== src/Segment/RoundTrip.antt =====
-- A TCP header is read back as it was written, options and all.
use tcp_impliment.Common.{
  ℕ, ◌-◌, ◌*◌, ◌/◌, ◌≤◌, ◌<◌, ◌^◌, ◌≡◌, refl, ap, ◌∙◌, arith, List, ◌++◌, length, ltb, some,
  if_false, replicate, length-replicate, length-append, append_assoc, false,
}
use tcp_impliment.Parser
use tcp_impliment.Parser.{ParseResult, NetParser, unparse_int, failed, remove_prefix, check_size}
use tcp_impliment.Parser.RoundTrip.{u8-unparse, u16-unparse, u32-unparse, remove_prefix-append}
use tcp_impliment.Segment.{TcpHeader}
use tcp_impliment.Segment.Wire.{
  flag, flags, parse_fields, parse_tcp_header, fields_of, serialize_tcp_header, tcp_length,
}

-- Every field fits, and the data offset is at least the header's own length.
pub record IsHeader (h : TcpHeader) : Type 0 where
  pub sport : h.sport < 2 ^ 16
  pub dport : h.dport < 2 ^ 16
  pub seqno : h.seqno < 2 ^ 32
  pub ackno : h.ackno < 2 ^ 32
  pub doff : (5 ≤ h.doff) × (h.doff < 16)
  pub win : h.win < 2 ^ 16
  pub cksum : h.cksum < 2 ^ 16
  pub uptr : h.uptr < 2 ^ 16

flags_back :
    (h : TcpHeader)
    → (flags h < 2 ^ 8)
      × (flag 32 (flags h) ≡ h.urg)
      × (flag 16 (flags h) ≡ h.ack)
      × (flag 8 (flags h) ≡ h.psh)
      × (flag 4 (flags h) ≡ h.rst)
      × (flag 2 (flags h) ≡ h.syn)
      × (flag 1 (flags h) ≡ h.fin)
flags_back h = (
  ground arith,
  ground arith,
  ground arith,
  ground arith,
  ground arith,
  ground arith,
  ground arith,
)

parse_fields-fields_of :
    (h : TcpHeader) (rest : List ℕ)
    → IsHeader h
    → parse_fields (Parser.new (fields_of h ++ rest)) ≡ (h, Parser.new rest)
unfolding parse_fields
parse_fields-fields_of h rest v =
    let t2 = unparse_int 2 h.cksum ++ unparse_int 2 h.uptr in
    let t1 = unparse_int 1 (flags h) ++ unparse_int 2 h.win ++ t2 in
    let t0 = unparse_int 4 h.ackno ++ unparse_int 1 (h.doff * 16) ++ t1 in
    let f = flags_back h in
    let d : h.doff * 16 / 16 ≡ h.doff = omega arith in
    rw
      (
        u16-unparse h.sport ((unparse_int 2 h.dport ++ unparse_int 4 h.seqno ++ t0) ++ rest)
            v.sport,
        u16-unparse h.dport ((unparse_int 4 h.seqno ++ t0) ++ rest) v.dport,
        u32-unparse h.seqno (t0 ++ rest) v.seqno,
        u32-unparse h.ackno ((unparse_int 1 (h.doff * 16) ++ t1) ++ rest) v.ackno,
        u8-unparse (h.doff * 16) (t1 ++ rest) (omega (arith, v.doff)),
        u8-unparse (flags h) ((unparse_int 2 h.win ++ t2) ++ rest) f.0,
        u16-unparse h.win (t2 ++ rest) v.win,
        u16-unparse h.cksum (unparse_int 2 h.uptr ++ rest) v.cksum,
        u16-unparse h.uptr rest v.uptr,
        d,
        f.1,
        f.2,
        f.3,
        f.4,
        f.5,
        f.6,
      )
      refl

not_less : (n : ℕ) → 5 ≤ n → ltb n 5 ≡ false
not_less n h = ground arith

-- A header whose fields fit and whose data offset is 5 at least is written out in four times that
-- many bytes, and read back it is what it was; the parser stands behind the header and the
-- options.
pub parse-serialize_tcp_header :
    (h : TcpHeader) (rest : List ℕ)
    → IsHeader h
    → let bytes = fields_of h ++ replicate (4 * h.doff - tcp_length) 0 in
      (serialize_tcp_header h ≡ some bytes)
      × (length bytes ≡ 4 * h.doff)
      × (parse_tcp_header (Parser.new (bytes ++ rest)) ≡ (ParseResult.no_error, h, Parser.new rest))
unfolding serialize_tcp_header parse_tcp_header
parse-serialize_tcp_header h rest v =
    let pad = replicate (4 * h.doff - tcp_length) 0 in
    let n = length-replicate {A = ℕ} (4 * h.doff - tcp_length) 0 in
    let e : h.doff * 4 - tcp_length ≡ length pad = omega (arith, n) in
    (
      if_false _ _ (not_less h.doff v.doff.0),
      omega (arith, n, v.doff, length-append (fields_of h) pad),
      ap (λ l. parse_tcp_header (Parser.new l)) (append_assoc (fields_of h) pad rest)
          ∙ rw (parse_fields-fields_of h (pad ++ rest) v) (
              if_false _ _ (not_less h.doff v.doff.0) ∙ rw (e, remove_prefix-append pad rest) refl),
    )
