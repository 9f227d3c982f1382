-- ===== src/Tests/Packets.antt =====
-- Buffers, segments, datagrams and adapters at concrete inputs.
use tcp_impliment.Common.{
  ap, ◌∙◌, ◌≡◌, refl, arith, true, false, none, some, List, [], ◌∷◌, ◌++◌, length, drop, leb,
  if◌then◌else◌,
}
use mathlib.Core.Option
use tcp_impliment.Buffer
use tcp_impliment.Buffer.{Buffer, str, joined}
use tcp_impliment.Buffer.BufferList
use tcp_impliment.Buffer.BufferViewList
use tcp_impliment.Buffer.Bytes.{bytes, BufferList_refines}
use tcp_impliment.Parser
use tcp_impliment.Parser.{ParseResult}
use tcp_impliment.Checksum
use tcp_impliment.Segment.{TcpSegment, default_segment, default_header}
use tcp_impliment.Segment.Wire.{header_bytes, parse_segment, serialize_segment}
use tcp_impliment.Segment.Segments
use tcp_impliment.Segment.Segments.{IsSegment, parse-serialize_segment}
use tcp_impliment.Ipv4.{
  Ipv4Header, Ipv4Datagram, default_ipv4_header, ipv4_bytes, parse_ipv4_header, parse_datagram,
  serialize_datagram, pseudo_cksum,
}
use tcp_impliment.Ipv4.RoundTrip.{IsIpv4, verifies, checked}
use tcp_impliment.Ipv4.Datagrams.{parse-serialize_datagram, parse_datagram_bad_checksum}
use tcp_impliment.NetworkInterface.Delivery.{arrived}
use tcp_impliment.TcpOverIp.{TcpOverIpv4Adapter, unwrap_tcp_in_ip, wrap_tcp_in_ip}
use tcp_impliment.TcpOverIp.Crossing.{
  crossed, wrap_tcp_in_ip-unwrap_tcp_in_ip, unwrap_listening, called, calls,
}

-- Three buffers, the second one empty.
abbrev three_buffers : List Buffer
three_buffers = Buffer.of_string (1 ∷ 2 ∷ []) ∷ Buffer.empty ∷ Buffer.of_string (3 ∷ 4 ∷ []) ∷ []

abbrev one_buffer : List Buffer
one_buffer = Buffer.of_string (9 ∷ []) ∷ []

BufferList_refines_example :
    (BufferList.concatenate three_buffers ≡ bytes three_buffers)
    × (BufferList.size three_buffers ≡ length (bytes three_buffers))
    × (bytes (BufferList.append three_buffers one_buffer) ≡ bytes three_buffers ++ bytes one_buffer)
    × (Option.map bytes (BufferList.remove_prefix three_buffers 3) ≡ (
        if leb 3 (length (bytes three_buffers)) then some (drop 3 (bytes three_buffers)) else none))
    × (Option.map joined (BufferViewList.remove_prefix (BufferViewList.of_buffers three_buffers) 3)
        ≡ Option.map bytes (BufferList.remove_prefix three_buffers 3))
BufferList_refines_example = BufferList_refines three_buffers one_buffer 3

remove_prefix_run : Option.map bytes (BufferList.remove_prefix three_buffers 3) ≡ some (4 ∷ [])
unfolding BufferList.remove_prefix Buffer.remove_prefix str
remove_prefix_run = refl

abbrev pub greeting : TcpSegment
greeting = record {
  header = record default_header { sport = 1234; dport = 80; seqno = 77; ack = true; win = 1000 };
  payload = 104 ∷ 105 ∷ 33 ∷ [];
}

greeting-IsSegment : IsSegment greeting
greeting-IsSegment = record { header = omega arith; bytes = omega arith; small = omega arith }

parse-serialize_segment_run :
    let header = Segments.checked greeting 500 in
    (serialize_segment greeting 500 ≡ some (header_bytes header ∷ greeting.payload ∷ []))
    × (parse_segment default_segment (joined (header_bytes header ∷ greeting.payload ∷ [])) 500
        ≡ (ParseResult.no_error, record { header = header; payload = greeting.payload }))
parse-serialize_segment_run =
    parse-serialize_segment default_segment greeting 500 greeting-IsSegment (omega arith)

abbrev pub small_header : Ipv4Header
small_header = record default_ipv4_header { len = 24; src = 167772161; dst = 167772162; ttl = 64 }

pub small_header-IsIpv4 : IsIpv4 small_header
small_header-IsIpv4 = omega arith

abbrev pub small_datagram : Ipv4Datagram
small_datagram = record { header = small_header; payload = (1 ∷ 2 ∷ []) ∷ (3 ∷ 4 ∷ []) ∷ [] }

abbrev pub empty_datagram : Ipv4Datagram
empty_datagram = record { header = default_ipv4_header; payload = [] }

parse-serialize_datagram_run :
    let bytes = ipv4_bytes (checked small_header) in
    (serialize_datagram small_datagram ≡ some (bytes ∷ small_datagram.payload))
    × (parse_datagram empty_datagram (joined (bytes ∷ small_datagram.payload)) ≡ (
      ParseResult.no_error,
      record { header = checked small_header; payload = (1 ∷ 2 ∷ 3 ∷ 4 ∷ []) ∷ [] },
    ))
parse-serialize_datagram_run =
    parse-serialize_datagram empty_datagram small_datagram small_header-IsIpv4 (omega arith)

small_header_fails : verifies (ipv4_bytes small_header) ≡ false
unfolding Checksum.value
small_header_fails = refl

-- A checksum of zero is wrong for this header.
parse_datagram_bad_checksum_run :
    ((parse_ipv4_header default_ipv4_header
        (Parser.new (ipv4_bytes small_header ++ 1 ∷ 2 ∷ 3 ∷ 4 ∷ []))).0
      ≡ ParseResult.bad_checksum)
    × (parse_datagram empty_datagram (ipv4_bytes small_header ++ 1 ∷ 2 ∷ 3 ∷ 4 ∷ []) ≡ (
      ParseResult.no_error,
      record { header = small_header; payload = (1 ∷ 2 ∷ 3 ∷ 4 ∷ []) ∷ [] },
    ))
parse_datagram_bad_checksum_run =
    parse_datagram_bad_checksum empty_datagram small_header (1 ∷ 2 ∷ 3 ∷ 4 ∷ []) small_header-IsIpv4
      (omega arith) small_header_fails

-- Two adapters that are each other's peers, and one that listens.
abbrev pub client : TcpOverIpv4Adapter
client = record {
  cfg = record {
    source = record { ipv4_numeric = 167772161; port = 1234 };
    destination = record { ipv4_numeric = 167772162; port = 80 };
    loss_rate_dn = 0;
    loss_rate_up = 0;
  };
  listening = false;
}

abbrev pub server : TcpOverIpv4Adapter
server = record {
  cfg = record (client.cfg) {
    source = record { ipv4_numeric = 167772162; port = 80 };
    destination = record { ipv4_numeric = 167772161; port = 1234 };
  };
  listening = false;
}

wrap_tcp_in_ip-unwrap_tcp_in_ip_run :
    (d : Ipv4Datagram) × (wrap_tcp_in_ip client greeting ≡ some d)
    × (unwrap_tcp_in_ip server (arrived d) ≡ some (server, some (crossed client greeting)))
wrap_tcp_in_ip-unwrap_tcp_in_ip_run =
    wrap_tcp_in_ip-unwrap_tcp_in_ip client server greeting (record { there = refl; back = refl })
      refl (record { header = omega arith; bytes = omega arith; small = omega arith }) (omega arith)
      (omega arith)

abbrev pub listener : TcpOverIpv4Adapter
listener = record server { listening = true }

abbrev pub syn : TcpSegment
syn = record { header = record (greeting.header) { syn = true }; payload = [] }

-- The SYN in a datagram, with the checksum that `serialize` gives.
abbrev syn_header : Ipv4Header
syn_header = record default_ipv4_header { len = 40; src = 167772161; dst = 167772162 }

abbrev syn_arrived : TcpSegment
syn_arrived = record { header = Segments.checked syn (pseudo_cksum syn_header); payload = [] }

abbrev syn_datagram : Ipv4Datagram
syn_datagram = record { header = syn_header; payload = header_bytes syn_arrived.header ∷ [] }

syn_parsed :
    parse_segment default_segment (header_bytes syn_arrived.header) (pseudo_cksum syn_header)
    ≡ (ParseResult.no_error, syn_arrived)
syn_parsed =
    (parse-serialize_segment default_segment syn (pseudo_cksum syn_header)
      (record { header = omega arith; bytes = tt; small = omega arith }) (omega arith)).1

unwrap_listening_example :
    let r =
      parse_segment default_segment (header_bytes syn_arrived.header) (pseudo_cksum syn_header) in
    unwrap_tcp_in_ip listener syn_datagram
    ≡ some (
        if calls listener r then (called listener syn_datagram r.1, some r.1) else (listener, none))
unwrap_listening_example =
    unwrap_listening listener syn_datagram (header_bytes syn_arrived.header) refl refl

-- The SYN is taken.
syn_taken :
    unwrap_tcp_in_ip listener syn_datagram
    ≡ some (called listener syn_datagram syn_arrived, some syn_arrived)
syn_taken =
    unwrap_listening listener syn_datagram (header_bytes syn_arrived.header) refl refl
    ∙ ap
        (λ (r : ParseResult × TcpSegment). some (
          if calls listener r
          then (called listener syn_datagram r.1, some r.1)
          else (listener, none)))
        syn_parsed
