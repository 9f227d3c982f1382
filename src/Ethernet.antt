-- ===== src/Ethernet.antt =====
-- libsponge/tcp_helpers/ethernet_header.hh, ethernet_header.cc, ethernet_frame.hh and
-- ethernet_frame.cc. A payload is a list of buffers, a buffer is its bytes.
pub mod Frames
use tcp_impliment.Common.{ℕ, List, [], ◌∷◌, ◌++◌, length, ltb, if◌then◌else◌}
use tcp_impliment.Parser
use tcp_impliment.Parser.{ParseResult, NetParser, unparse_int}

-- `std::array<uint8_t, 6>`.
pub record EthernetAddress : Type 0 where
  pub byte0 : ℕ
  pub byte1 : ℕ
  pub byte2 : ℕ
  pub byte3 : ℕ
  pub byte4 : ℕ
  pub byte5 : ℕ

-- The loops that read and write an address, byte by byte.
unfoldable pub parse_address : NetParser → EthernetAddress × NetParser
parse_address p =
    let (b0, p0) = Parser.u8 p in
    let (b1, p1) = Parser.u8 p0 in
    let (b2, p2) = Parser.u8 p1 in
    let (b3, p3) = Parser.u8 p2 in
    let (b4, p4) = Parser.u8 p3 in
    let (b5, p5) = Parser.u8 p4 in
    (record { byte0 = b0; byte1 = b1; byte2 = b2; byte3 = b3; byte4 = b4; byte5 = b5 }, p5)

abbrev pub unparse_address : EthernetAddress → List ℕ
unparse_address a =
    unparse_int 1 a.byte0
    ++ unparse_int 1 a.byte1
    ++ unparse_int 1 a.byte2
    ++ unparse_int 1 a.byte3
    ++ unparse_int 1 a.byte4
    ++ unparse_int 1 a.byte5

abbrev pub header_length : ℕ
header_length = 14

abbrev pub type_ipv4 : ℕ
type_ipv4 = 2048

abbrev pub type_arp : ℕ
type_arp = 2054

pub record EthernetHeader : Type 0 where
  pub dst : EthernetAddress
  pub src : EthernetAddress
  pub type : ℕ

-- The result, the header, and the parser behind it; a short buffer leaves header and parser.
unfoldable pub parse_header : EthernetHeader → NetParser → ParseResult × EthernetHeader × NetParser
parse_header h p =
    if ltb (length p.buffer) header_length
    then (ParseResult.packet_too_short, h, p)
    else (let (dst, p1) = parse_address p in
        let (src, p2) = parse_address p1 in
        let (type, p3) = Parser.u16 p2 in
        (p3.error, record { dst = dst; src = src; type = type }, p3))

unfoldable pub serialize_header : EthernetHeader → List ℕ
serialize_header h = unparse_address h.dst ++ unparse_address h.src ++ unparse_int 2 h.type

pub record EthernetFrame : Type 0 where
  pub header : EthernetHeader
  pub payload : List (List ℕ)

-- `EthernetFrame::parse` looks at the parser's error, not at the header's result.
unfoldable pub parse_frame : EthernetFrame → List ℕ → ParseResult × EthernetFrame
parse_frame f buffer =
    let (_, header, p) = parse_header f.header (Parser.new buffer) in
    (p.error, record { header = header; payload = p.buffer ∷ [] })

unfoldable pub serialize_frame : EthernetFrame → List (List ℕ)
serialize_frame f = serialize_header f.header ∷ f.payload
