-- ===== src/TcpOverIp.antt =====
-- libsponge/tcp_helpers/tcp_over_ip.hh and tcp_over_ip.cc, with the configuration of fd_adapter.hh
-- and tcp_config.hh: TCP segments in IPv4 datagrams. A call returns `none` for an exception.
pub mod Crossing
use tcp_impliment.Common.{
  ℕ, ◌+◌, ◌*◌, ◌%◌, ◌==◌, Bool, true, false, ◌&&◌, not, Option, none, some, List, [], length,
  if◌then◌else◌, ◌>>=◌,
}
use tcp_impliment.Common.Words.{u16_mod}
use tcp_impliment.Buffer.{contiguous}
use tcp_impliment.Parser.{ParseResult, failed}
use tcp_impliment.Segment.{TcpHeader, TcpSegment, default_segment}
use tcp_impliment.Segment.Wire.{parse_segment, serialize_segment}
use tcp_impliment.Ipv4.{Ipv4Header, Ipv4Datagram, default_ipv4_header, proto_tcp, pseudo_cksum}

-- An `Address` of IPv4.
pub record Address : Type 0 where
  pub ipv4_numeric : ℕ
  pub port : ℕ

pub record FdAdapterConfig : Type 0 where
  pub source : Address
  pub destination : Address
  pub loss_rate_dn : ℕ
  pub loss_rate_up : ℕ

-- `FdAdapterBase`, which is all the state of the adapter.
pub record TcpOverIpv4Adapter : Type 0 where
  pub cfg : FdAdapterConfig
  pub listening : Bool

abbrev pub set_listening : TcpOverIpv4Adapter → Bool → TcpOverIpv4Adapter
set_listening a l = record a { listening = l }

-- The adapter of a server takes its peer from a SYN.
abbrev pub accept : TcpOverIpv4Adapter → Ipv4Header → TcpHeader → TcpOverIpv4Adapter
accept a ip tcp =
    set_listening
      (record a {
        cfg = record (a.cfg) {
          source = record { ipv4_numeric = ip.dst; port = a.cfg.source.port };
          destination = record { ipv4_numeric = ip.src; port = tcp.sport };
        };
      })
      false

-- The last test: the segment is from the peer.
abbrev pub from_peer : TcpOverIpv4Adapter → TcpSegment → TcpOverIpv4Adapter × Option TcpSegment
from_peer a seg = (a, if not (seg.header.sport == a.cfg.destination.port) then none else some seg)

-- The tests behind the parsing of the segment.
unfoldable pub take_segment :
    TcpOverIpv4Adapter → Ipv4Header → TcpSegment → TcpOverIpv4Adapter × Option TcpSegment
take_segment a ip seg =
    if not (seg.header.dport == a.cfg.source.port)
    then (a, none)
    else if a.listening
    then (if seg.header.syn && not seg.header.rst
        then from_peer (accept a ip seg.header) seg
        else (a, none))
    else from_peer a seg

abbrev pub take_parsed :
    TcpOverIpv4Adapter
    → Ipv4Header
    → ParseResult × TcpSegment
    → TcpOverIpv4Adapter × Option TcpSegment
take_parsed a ip (result, seg) = if failed result then (a, none) else take_segment a ip seg

-- The adapter and the segment, if the datagram holds one for it.
unfoldable pub unwrap_tcp_in_ip :
    TcpOverIpv4Adapter → Ipv4Datagram → Option (TcpOverIpv4Adapter × Option TcpSegment)
unwrap_tcp_in_ip a d =
    if not a.listening && not (d.header.dst == a.cfg.source.ipv4_numeric)
    then some (a, none)
    else if not a.listening && not (d.header.src == a.cfg.destination.ipv4_numeric)
    then some (a, none)
    else if not (d.header.proto == proto_tcp)
    then some (a, none)
    else (contiguous d.payload >>= λ buffer.
        some
          (take_parsed a d.header (parse_segment default_segment buffer (pseudo_cksum d.header))))

-- The segment with the adapter's ports, which the code writes into the caller's segment.
abbrev pub with_ports : TcpOverIpv4Adapter → TcpSegment → TcpSegment
with_ports a seg = record seg {
  header = record (seg.header) { sport = a.cfg.source.port; dport = a.cfg.destination.port };
}

abbrev pub datagram_header : TcpOverIpv4Adapter → TcpSegment → Ipv4Header
datagram_header a seg = record default_ipv4_header {
  src = a.cfg.source.ipv4_numeric;
  dst = a.cfg.destination.ipv4_numeric;
  len = (default_ipv4_header.hlen * 4 + seg.header.doff * 4 + length seg.payload) % u16_mod;
}

unfoldable pub wrap_tcp_in_ip : TcpOverIpv4Adapter → TcpSegment → Option Ipv4Datagram
wrap_tcp_in_ip a seg =
    let header = datagram_header a (with_ports a seg) in
    serialize_segment (with_ports a seg) (pseudo_cksum header) >>= λ payload.
    some (record { header = header; payload = payload })
