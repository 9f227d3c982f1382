-- ===== src/Tests/Wire.antt =====
-- Integers, frames and messages on the wire, at concrete inputs.
use tcp_impliment.Common.{
  ◌+◌, ◌%◌, ◌≤◌, ◌<◌, ◌↔◌, suc, ◌≡◌, refl, arith, some, [], ◌∷◌, ◌++◌, ◌-◌, ◌*◌, true, replicate,
  length,
}
use tcp_impliment.Buffer.{joined}
use tcp_impliment.Parser
use tcp_impliment.Parser.{ParseResult, unparse_int}
use tcp_impliment.Parser.RoundTrip.{parse-unparse}
use tcp_impliment.Ethernet.{
  EthernetAddress, EthernetFrame, parse_frame, parse_header, serialize_frame, serialize_header,
  type_arp,
}
use tcp_impliment.Ethernet.Frames.{IsBytes, parse-serialize_frame, parse_frame_short}
use tcp_impliment.Arp
use tcp_impliment.Arp.{ArpMessage, default_message, no_address, bytes_of, opcode_request}
use tcp_impliment.Arp.Messages.{parse-serialize}
use tcp_impliment.Checksum
use tcp_impliment.Checksum.{InternetChecksum, fold, value}
use tcp_impliment.Checksum.Sums.{value_lem}
use tcp_impliment.Segment.{TcpHeader, default_header}
use tcp_impliment.Segment.Wire.{fields_of, serialize_tcp_header, parse_tcp_header, tcp_length}
use tcp_impliment.Segment.RoundTrip.{parse-serialize_tcp_header}

parse-unparse_run :
    (Parser.u8 (Parser.new (unparse_int 1 200 ++ 9 ∷ [])) ≡ (200, Parser.new (9 ∷ [])))
    × (Parser.u16 (Parser.new (unparse_int 2 2054 ++ 9 ∷ [])) ≡ (2054, Parser.new (9 ∷ [])))
    × (Parser.u32 (Parser.new (unparse_int 4 3232235521 ++ 9 ∷ []))
        ≡ (3232235521, Parser.new (9 ∷ [])))
parse-unparse_run =
    parse-unparse 200 2054 3232235521 (9 ∷ []) (omega arith) (omega arith) (omega arith)

-- A short buffer gives nothing, and the error stays.
u16_short :
    Parser.u16 (Parser.new (7 ∷ []))
    ≡ (0, record { buffer = 7 ∷ []; error = ParseResult.packet_too_short })
unfolding Parser.u16
u16_short = refl

abbrev pub local_address : EthernetAddress
local_address = record { byte0 = 2; byte1 = 0; byte2 = 0; byte3 = 18; byte4 = 52; byte5 = 86 }

pub local_address-IsBytes : IsBytes local_address
local_address-IsBytes = omega arith

abbrev pub empty_frame : EthernetFrame
empty_frame = record {
  header = record { dst = no_address; src = no_address; type = 0 };
  payload = [];
}

abbrev small_frame : EthernetFrame
small_frame = record {
  header = record { dst = local_address; src = local_address; type = type_arp };
  payload = (1 ∷ []) ∷ (2 ∷ []) ∷ [];
}

serialize_frame_run :
    joined (serialize_frame small_frame)
    ≡ 2 ∷ 0 ∷ 0 ∷ 18 ∷ 52 ∷ 86 ∷ 2 ∷ 0 ∷ 0 ∷ 18 ∷ 52 ∷ 86 ∷ 8 ∷ 6 ∷ 1 ∷ 2 ∷ []
unfolding serialize_frame serialize_header
serialize_frame_run = refl

parse-serialize_frame_run :
    parse_frame empty_frame (joined (serialize_frame small_frame))
    ≡ (ParseResult.no_error, record small_frame { payload = (1 ∷ 2 ∷ []) ∷ [] })
parse-serialize_frame_run =
    parse-serialize_frame empty_frame small_frame
      (record { dst = local_address-IsBytes; src = local_address-IsBytes; type = omega arith })

parse_frame_short_run :
    (parse_frame small_frame (5 ∷ [])
      ≡ (ParseResult.no_error, record { header = small_frame.header; payload = (5 ∷ []) ∷ [] }))
    × ((parse_header small_frame.header (Parser.new (5 ∷ []))).0 ≡ ParseResult.packet_too_short)
parse_frame_short_run = parse_frame_short small_frame (5 ∷ []) (omega arith)

abbrev request : ArpMessage
request = record default_message {
  opcode = opcode_request;
  sender_ethernet_address = local_address;
  sender_ip_address = 167772161;
  target_ip_address = 167772162;
}

parse-serialize_run :
    (Arp.serialize request ≡ some (bytes_of request))
    × (Arp.parse default_message (bytes_of request ++ 3 ∷ []) ≡ (ParseResult.no_error, request))
parse-serialize_run =
    parse-serialize default_message request (3 ∷ [])
      (record {
        sender = local_address-IsBytes;
        sender_ip = omega arith;
        target = omega arith;
        target_ip = omega arith;
      })
      refl

abbrev syn_header : TcpHeader
syn_header = record default_header {
  sport = 1234;
  dport = 80;
  seqno = 3735928559;
  doff = 6;
  syn = true;
  win = 64000;
}

serialize_tcp_header_run :
    serialize_tcp_header syn_header
    ≡ some (
        4 ∷ 210 ∷ 0 ∷ 80 ∷ 222 ∷ 173 ∷ 190 ∷ 239 ∷ 0 ∷ 0 ∷ 0 ∷ 0 ∷ 96 ∷ 2 ∷ 250 ∷ 0 ∷ 0 ∷ 0 ∷ 0 ∷ 0
        ∷ 0 ∷ 0 ∷ 0 ∷ 0 ∷ [])
unfolding serialize_tcp_header
serialize_tcp_header_run = refl

parse-serialize_tcp_header_run :
    let bytes = fields_of syn_header ++ replicate (4 * 6 - tcp_length) 0 in
    (serialize_tcp_header syn_header ≡ some bytes)
    × (length bytes ≡ 4 * 6)
    × (parse_tcp_header (Parser.new (bytes ++ 7 ∷ []))
        ≡ (ParseResult.no_error, syn_header, Parser.new (7 ∷ [])))
parse-serialize_tcp_header_run = parse-serialize_tcp_header syn_header (7 ∷ []) (omega arith)

-- Seven bytes, the last one the high byte of a pair of its own.
abbrev summed : InternetChecksum
summed = Checksum.add (Checksum.new 0) (69 ∷ 0 ∷ 0 ∷ 60 ∷ 255 ∷ 255 ∷ 200 ∷ [])

value_run : (summed.sum ≡ 134459) × (value summed ≡ 62146)
unfolding value
value_run = (refl, refl)

value_lem_example :
    (fold (suc (suc 3)) summed.sum ≡ fold 2 summed.sum)
    × (value summed ≤ 65535)
    × ((value summed + summed.sum) % 65535 ≡ 0)
    × ((value summed ≡ 0) ↔ (0 < summed.sum) × (summed.sum % 65535 ≡ 0))
value_lem_example = value_lem summed 3 (omega arith)
