-- ===== src/Connection.antt =====
-- libsponge/tcp_connection.hh and tcp_connection.cc: one endpoint of a TCP connection, made of a
-- sender and a receiver. The handlers return the new connection.
pub mod Outgoing
pub mod Closing
pub mod Incoming
use tcp_impliment.Common.{
  ℕ, ◌*◌, Bool, true, false, ◌&&◌, ◌||◌, not, Option, none, some, List, [], ◌∷◌, ◌++◌, map, ltb,
  leb, ◌==◌, if◌then◌else◌,
}
use tcp_impliment.Common.Words.{add32, sub32}
use tcp_impliment.WrappingInt.{WrappingInt32}
use tcp_impliment.ByteStream
use tcp_impliment.ByteStream.{ByteStream}
use tcp_impliment.Segment.{TcpSegment, default_header, length_in_sequence_space}
use tcp_impliment.Receiver
use tcp_impliment.Receiver.{TcpReceiver}
use tcp_impliment.Sender
use tcp_impliment.Sender.{TcpSender}

pub record TcpConfig : Type 0 where
  pub rt_timeout : ℕ
  pub recv_capacity : ℕ
  pub send_capacity : ℕ
  pub fixed_isn : Option WrappingInt32

-- `TCPConfig::MAX_RETX_ATTEMPTS`.
abbrev pub max_retx_attempts : ℕ
max_retx_attempts = 8

pub record TcpConnection : Type 0 where
  pub cfg : TcpConfig
  pub receiver : TcpReceiver
  pub sender : TcpSender
  pub last_receive_time : ℕ
  pub now_time : ℕ
  pub close : Bool
  pub segments_out : List TcpSegment
  pub linger_after_streams_finish : Bool

-- `value_or`: the fixed ISN, or the random one.
abbrev pub initial_isn : Option WrappingInt32 → WrappingInt32 → WrappingInt32
initial_isn none random = random
initial_isn (some isn) random = isn

abbrev pub new : TcpConfig → WrappingInt32 → TcpConnection
new cfg random = record {
  cfg = cfg;
  receiver = Receiver.new cfg.recv_capacity;
  sender = Sender.new cfg.send_capacity cfg.rt_timeout (initial_isn cfg.fixed_isn random);
  last_receive_time = 0;
  now_time = 0;
  close = false;
  segments_out = [];
  linger_after_streams_finish = true;
}

-- `_receiver.stream_out()` and `_sender.stream_in()`.
abbrev pub inbound_stream : TcpConnection → ByteStream
inbound_stream c = Receiver.stream_out c.receiver

abbrev pub outbound_stream : TcpConnection → ByteStream
outbound_stream c = c.sender.stream

abbrev pub set_errors : TcpConnection → TcpConnection
set_errors c =
    let reassembler = c.receiver.reassembler in
    record c {
      close = true;
      receiver = record (c.receiver) {
        reassembler = record reassembler { output = ByteStream.set_error reassembler.output };
      };
      sender = record (c.sender) { stream = ByteStream.set_error c.sender.stream };
    }

abbrev pub rst_seg : TcpConnection → TcpSegment
rst_seg c = record {
  header = record default_header { rst = true; seqno = Sender.next_seqno_wrapped c.sender };
  payload = [];
}

unfoldable pub bad_shutdown : TcpConnection → Bool → TcpConnection
bad_shutdown c send_rst =
    let failed = set_errors c in
    if send_rst then record failed { segments_out = c.segments_out ++ rst_seg c ∷ [] } else failed

abbrev pub stream_both_eof : TcpConnection → Bool
stream_both_eof c =
    ByteStream.input_ended (inbound_stream c)
    && ByteStream.eof (outbound_stream c)
    && Sender.bytes_in_flight c.sender == 0

-- `!_linger_after_streams_finish||now_time-last_recive_time>=10*_cfg.rt_timeout`.
abbrev pub lingered : TcpConnection → Bool
lingered c =
    not c.linger_after_streams_finish
    || leb (10 * c.cfg.rt_timeout) (sub32 c.now_time c.last_receive_time)

unfoldable pub check_close : TcpConnection → TcpConnection
check_close c =
    if stream_both_eof c then (if lingered c then record c { close = true } else c) else c

-- What `clean` writes into a segment before it goes out.
abbrev pub stamp_ack : TcpSegment → Option WrappingInt32 → TcpSegment
stamp_ack seg none = seg
stamp_ack seg (some a) = record seg { header = record (seg.header) { ack = true; ackno = a } }

abbrev pub win_of : TcpReceiver → ℕ
win_of r = let w = Receiver.window_size r in if ltb w 65535 then w else 65535

unfoldable pub stamp : TcpReceiver → TcpSegment → TcpSegment
stamp r seg =
    let acked = stamp_ack seg (Receiver.ackno r) in
    record acked { header = record (acked.header) { win = win_of r } }

-- The loop moves every segment of the sender's queue, stamped, to the connection's.
abbrev pub flush : TcpConnection → TcpConnection
flush c = record c {
  segments_out = c.segments_out ++ map (stamp c.receiver) c.sender.segments_out;
  sender = record (c.sender) { segments_out = [] };
}

unfoldable pub clean : TcpConnection → TcpConnection
clean c = check_close (flush c)

-- The receiver's part of `segment_received`.
abbrev pub receive : TcpConnection → TcpSegment → TcpConnection
receive c seg =
    let r = Receiver.segment_received c.receiver seg in
    record c {
      receiver = r;
      linger_after_streams_finish =
          if ByteStream.input_ended (Receiver.stream_out r) && not (ByteStream.eof c.sender.stream)
          then false
          else c.linger_after_streams_finish;
    }

-- The sender's part.
abbrev pub respond : TcpSender → TcpSegment → TcpSender
respond s seg =
    let acked =
      if seg.header.ack then Sender.ack_received s seg.header.ackno seg.header.win else s in
    if ltb 0 (length_in_sequence_space seg) then Sender.send_empty_ack acked else acked

unfoldable pub segment_received : TcpConnection → TcpSegment → TcpConnection
segment_received c seg =
    let c' = record c { last_receive_time = c.now_time } in
    if seg.header.rst
    then bad_shutdown c' false
    else (let r = receive c' seg in clean (record r { sender = respond r.sender seg }))

unfoldable pub write : TcpConnection → List ℕ → ℕ × TcpConnection
write c bytes =
    let (size, stream) = ByteStream.write c.sender.stream bytes in
    (size, clean (record c { sender = Sender.fill_window (record (c.sender) { stream = stream }) }))

unfoldable pub tick : TcpConnection → ℕ → TcpConnection
tick c ms =
    let c' = record c { now_time = add32 c.now_time ms } in
    if leb max_retx_attempts (Sender.consecutive_retransmissions c.sender)
    then bad_shutdown c' true
    else clean (record c' { sender = Sender.tick c.sender ms })

unfoldable pub end_input_stream : TcpConnection → TcpConnection
end_input_stream c = clean (record c {
  sender = Sender.fill_window (record (c.sender) { stream = ByteStream.end_input c.sender.stream });
})

unfoldable pub connect : TcpConnection → TcpConnection
connect c = clean (record c { sender = Sender.fill_window c.sender })

abbrev pub active : TcpConnection → Bool
active c = not c.close

-- The destructor: the connection that it leaves its queues to.
unfoldable pub destroy : TcpConnection → TcpConnection
destroy c = if active c then bad_shutdown c true else c

abbrev pub remaining_outbound_capacity : TcpConnection → ℕ
remaining_outbound_capacity c = ByteStream.remaining_capacity c.sender.stream

abbrev pub time_since_last_segment_received : TcpConnection → ℕ
time_since_last_segment_received c = sub32 c.now_time c.last_receive_time
