-- ===== src/State/Official.antt =====
-- Connections in the official states.
use tcp_impliment.Common.{◌≡◌, refl, arith, true, false}
use tcp_impliment.WrappingInt.{WrappingInt32}
use tcp_impliment.ByteStream
use tcp_impliment.Receiver
use tcp_impliment.Segment.{TcpSegment}
use tcp_impliment.Sender
use tcp_impliment.Connection.{
  TcpConfig, TcpConnection, new, connect, clean, check_close, bad_shutdown, segment_received,
  destroy,
}
use tcp_impliment.State.{State, of_state, receiver_summary, sender_summary, summary}

-- A new connection listens, whatever its configuration, and `connect` brings it to SYN_SENT.
pub new_states :
    (cfg : TcpConfig) (random : WrappingInt32)
    → (summary (new cfg random) ≡ of_state State.listen)
      × (summary (connect (new cfg random)) ≡ of_state State.syn_sent)
unfolding summary receiver_summary sender_summary of_state connect clean check_close
    Sender.fill_window Sender.send_new_seg Sender.bytes_in_flight Receiver.ackno
new_states cfg random = (refl, refl)

-- A segment with RST brings every connection to RESET, and so does its destruction while it is
-- active.
pub reset_states :
    (c : TcpConnection) (seg : TcpSegment)
    → seg.header.rst ≡ true
    → c.close ≡ false
    → (summary (segment_received c seg) ≡ of_state State.reset)
      × (summary (destroy c) ≡ of_state State.reset)
unfolding summary receiver_summary sender_summary of_state segment_received destroy bad_shutdown
    ByteStream.set_error
reset_states c seg h a = (ground arith, ground arith)
