-- ===== src/Segment/Wire.antt =====
-- libsponge/tcp_helpers/tcp_header.cc and tcp_segment.cc: the TCP header and the whole segment out
-- of a buffer and into strings.
use tcp_impliment.Common.{
  [], not, ◌∷◌, ℕ, ◌+◌, ◌-◌, ◌*◌, ◌/◌, ◌%◌, ◌==◌, Bool, Option, none, some, List, ◌++◌, ltb,
  if◌then◌else◌, replicate,
}
use tcp_impliment.Parser
use tcp_impliment.Parser.{ParseResult, NetParser, unparse_int, failed}
use tcp_impliment.Checksum
use tcp_impliment.Segment.{TcpHeader, TcpSegment}

-- `TCPHeader::LENGTH`.
abbrev pub tcp_length : ℕ
tcp_length = 20

-- `static_cast<bool>(fl_b & bit)`, for a power of two.
abbrev pub flag : ℕ → ℕ → Bool
flag bit fl_b = fl_b / bit % 2 == 1

-- `fl_b`: the flags in one byte. The bits differ, so `|` is the sum.
abbrev pub flags : TcpHeader → ℕ
flags h =
    (if h.urg then 32 else 0)
    + (if h.ack then 16 else 0)
    + (if h.psh then 8 else 0)
    + (if h.rst then 4 else 0)
    + (if h.syn then 2 else 0)
    + (if h.fin then 1 else 0)

-- The fields, up to the urgent pointer.
unfoldable pub parse_fields : NetParser → TcpHeader × NetParser
parse_fields p =
    let (sport, p1) = Parser.u16 p in
    let (dport, p2) = Parser.u16 p1 in
    let (seqno, p3) = Parser.u32 p2 in
    let (ackno, p4) = Parser.u32 p3 in
    let (offset, p5) = Parser.u8 p4 in
    let (fl_b, p6) = Parser.u8 p5 in
    let (win, p7) = Parser.u16 p6 in
    let (cksum, p8) = Parser.u16 p7 in
    let (uptr, p9) = Parser.u16 p8 in
    (
      record {
        sport = sport;
        dport = dport;
        seqno = seqno;
        ackno = ackno;
        doff = offset / 16;
        urg = flag 32 fl_b;
        ack = flag 16 fl_b;
        psh = flag 8 fl_b;
        rst = flag 4 fl_b;
        syn = flag 2 fl_b;
        fin = flag 1 fl_b;
        win = win;
        cksum = cksum;
        uptr = uptr;
      },
      p9,
    )

-- The result, the header, and the parser behind it and its options.
unfoldable pub parse_tcp_header : NetParser → ParseResult × TcpHeader × NetParser
parse_tcp_header p =
    let (h, p') = parse_fields p in
    if ltb h.doff 5
    then (ParseResult.header_too_short, h, p')
    else (let p'' = Parser.remove_prefix (h.doff * 4 - tcp_length) p' in (p''.error, h, p''))

abbrev pub fields_of : TcpHeader → List ℕ
fields_of h =
    unparse_int 2 h.sport
    ++ unparse_int 2 h.dport
    ++ unparse_int 4 h.seqno
    ++ unparse_int 4 h.ackno
    ++ unparse_int 1 (h.doff * 16)
    ++ unparse_int 1 (flags h)
    ++ unparse_int 2 h.win
    ++ unparse_int 2 h.cksum
    ++ unparse_int 2 h.uptr

abbrev pub header_bytes : TcpHeader → List ℕ
header_bytes h = fields_of h ++ replicate (4 * h.doff - tcp_length) 0

-- `none` for the exception; `resize` fills up with zeros.
unfoldable pub serialize_tcp_header : TcpHeader → Option (List ℕ)
serialize_tcp_header h = if ltb h.doff 5 then none else some (header_bytes h)

-- `TCPSegment::parse`: the checksum first, then the parser's error, not the header's result. A bad
-- checksum leaves the segment.
unfoldable pub parse_segment : TcpSegment → List ℕ → ℕ → ParseResult × TcpSegment
parse_segment old buffer datagram_layer_checksum =
    let check = Checksum.add (Checksum.new datagram_layer_checksum) buffer in
    if not (Checksum.value check == 0)
    then (ParseResult.bad_checksum, old)
    else (let (_, header, p) = parse_tcp_header (Parser.new buffer) in
        (p.error, record { header = header; payload = p.buffer }))

-- The checksum of a segment whose header is written with a checksum of zero.
abbrev pub segment_cksum : ℕ → List ℕ → List ℕ → ℕ
segment_cksum initial zeroed payload =
    Checksum.value (Checksum.add (Checksum.add (Checksum.new initial) zeroed) payload)

abbrev pub fill_segment : Option (List ℕ) → TcpSegment → ℕ → Option (List ℕ)
fill_segment none seg initial = none
fill_segment (some zeroed) seg initial =
    serialize_tcp_header (record (seg.header) { cksum = segment_cksum initial zeroed seg.payload })

abbrev pub header_and_payload : Option (List ℕ) → List ℕ → Option (List (List ℕ))
header_and_payload none payload = none
header_and_payload (some header) payload = some (header ∷ payload ∷ [])

-- `TCPSegment::serialize`: `none` for the exception.
unfoldable pub serialize_segment : TcpSegment → ℕ → Option (List (List ℕ))
serialize_segment seg datagram_layer_checksum =
    let zeroed = serialize_tcp_header (record (seg.header) { cksum = 0 }) in
    header_and_payload (fill_segment zeroed seg datagram_layer_checksum) seg.payload
