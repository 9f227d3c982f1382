-- ===== src/Receiver.antt =====
-- libsponge/tcp_receiver.hh and tcp_receiver.cc: from segments to the reassembler, and the
-- acknowledgment number and window that go back.
pub mod Stream
pub mod Bounds
pub mod Following
pub mod Reading
use tcp_impliment.Common.{
  ℕ, ◌+◌, Bool, true, false, ◌||◌, Option, none, some, ltb, leb, if◌then◌else◌,
}
use tcp_impliment.Common.Words.{add64, sub64}
use tcp_impliment.WrappingInt.{WrappingInt32, wrap, unwrap}
use tcp_impliment.ByteStream
use tcp_impliment.ByteStream.{ByteStream}
use tcp_impliment.Reassembler
use tcp_impliment.Reassembler.{Reassembler}
use tcp_impliment.Segment.{TcpSegment, length_in_sequence_space}

pub record TcpReceiver : Type 0 where
  pub reassembler : Reassembler
  pub capacity : ℕ
  pub receive_isn : Bool
  pub isn : WrappingInt32

abbrev pub new : ℕ → TcpReceiver
new capacity = record {
  reassembler = Reassembler.new capacity;
  capacity = capacity;
  receive_isn = false;
  isn = 0;
}

abbrev pub stream_out : TcpReceiver → ByteStream
stream_out r = r.reassembler.output

-- `if(seg.header().syn)`: the number behind that of the SYN is the stream's first.
abbrev pub take_syn : TcpReceiver → TcpSegment → TcpReceiver
take_syn r seg =
    if seg.header.syn then record r { receive_isn = true; isn = wrap 1 seg.header.seqno } else r

-- `seg_start`: the index of the segment's first byte in the stream.
abbrev pub seg_start : TcpReceiver → TcpSegment → ℕ
seg_start r seg =
    if seg.header.syn
    then 0
    else unwrap seg.header.seqno r.isn (ByteStream.bytes_written (stream_out r))

abbrev pub win_right : TcpReceiver → ℕ
win_right r =
    sub64
      (add64 (sub64 r.capacity (ByteStream.buffer_size (stream_out r)))
        (ByteStream.bytes_written (stream_out r)))
      1

-- The segment has nothing inside the window.
abbrev pub beyond : TcpReceiver → TcpSegment → Bool
beyond r seg =
    ltb (win_right r) (seg_start r seg)
    || leb (add64 (seg_start r seg) (length_in_sequence_space seg))
        (ByteStream.bytes_written (stream_out r))

-- The part behind the handling of the SYN.
unfoldable pub take_segment : TcpReceiver → TcpSegment → TcpReceiver
take_segment r seg =
    if r.receive_isn
    then (if beyond r seg then r else record r {
      reassembler =
          Reassembler.push_substring r.reassembler seg.payload (seg_start r seg) seg.header.fin;
    })
    else r

unfoldable pub segment_received : TcpReceiver → TcpSegment → TcpReceiver
segment_received r seg = take_segment (take_syn r seg) seg

unfoldable pub ackno : TcpReceiver → Option WrappingInt32
ackno r =
    if r.receive_isn
    then (if ByteStream.input_ended (stream_out r)
        then some (wrap (add64 1 (ByteStream.bytes_written (stream_out r))) r.isn)
        else some (wrap (ByteStream.bytes_written (stream_out r)) r.isn))
    else none

unfoldable pub window_size : TcpReceiver → ℕ
window_size r = sub64 r.capacity (ByteStream.buffer_size (stream_out r))

abbrev pub unassembled_bytes : TcpReceiver → ℕ
unassembled_bytes r = r.reassembler.unassembled_bytes
