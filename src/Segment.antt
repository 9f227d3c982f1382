-- ===== src/Segment.antt =====
-- libsponge/tcp_helpers/tcp_header.hh, tcp_segment.hh and tcp_segment.cc: the TCP segment that the
-- sender, the receiver and the connection hand to one another.
pub mod Wire
pub mod RoundTrip
pub mod Segments
use tcp_impliment.Common.{ℕ, ◌+◌, ◌/◌, Bool, false, List, [], length, if◌then◌else◌}
use tcp_impliment.WrappingInt.{WrappingInt32}

pub record TcpHeader : Type 0 where
  pub sport : ℕ
  pub dport : ℕ
  pub seqno : WrappingInt32
  pub ackno : WrappingInt32
  pub doff : ℕ
  pub urg : Bool
  pub ack : Bool
  pub psh : Bool
  pub rst : Bool
  pub syn : Bool
  pub fin : Bool
  pub win : ℕ
  pub cksum : ℕ
  pub uptr : ℕ

pub record TcpSegment : Type 0 where
  pub header : TcpHeader
  pub payload : List ℕ

-- The header with the initial values of its fields; `doff` is `LENGTH / 4`.
abbrev pub default_header : TcpHeader
default_header = record {
  sport = 0;
  dport = 0;
  seqno = 0;
  ackno = 0;
  doff = 20 / 4;
  urg = false;
  ack = false;
  psh = false;
  rst = false;
  syn = false;
  fin = false;
  win = 0;
  cksum = 0;
  uptr = 0;
}

abbrev pub default_segment : TcpSegment
default_segment = record { header = default_header; payload = [] }

abbrev pub length_in_sequence_space : TcpSegment → ℕ
length_in_sequence_space seg =
    length seg.payload + (if seg.header.syn then 1 else 0) + (if seg.header.fin then 1 else 0)
