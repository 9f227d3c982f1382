-- ===== src/Tests/Sending.antt =====
-- The sender at concrete inputs: three bytes to send, then one segment in flight.
use tcp_impliment.Common.{
  ◌%◌, ◌*◌, ◌==◌, not, ◌&&◌, ◌+◌, ◌-◌, ◌^◌, ◌≤◌, ◌≡◌, ◌⊎◌, refl, arith, [], ◌∷◌, ◌++◌, true, false,
  leb, length, if◌then◌else◌,
}
use tcp_impliment.Common.Words.{add64, sub64}
use tcp_impliment.WrappingInt.{wrap}
use tcp_impliment.ByteStream
use tcp_impliment.ByteStream.{ByteStream}
use tcp_impliment.Segment.{TcpSegment, default_header}
use tcp_impliment.Sender
use tcp_impliment.Sender.{
  TcpSender, SegNode, fill_window, ack_received, tick, send_empty_ack, take_ack, bytes_in_flight,
}
use tcp_impliment.Sender.RetxTimer.{stopped}
use tcp_impliment.Sender.Flight.{IsValid, occupied, bytes_in_flight-occupied}
use tcp_impliment.Sender.Fill.{Filled, fill_window-Filled, fill_window_fills}
use tcp_impliment.Sender.Acks.{Acked, take_ack-Acked}
use tcp_impliment.Sender.Sound.{IsSound, calls-IsSound, IsBackedOff, tick_lem}

-- Three bytes and the end of the input.
abbrev hello : ByteStream
hello = record {
  buffer = 104 ∷ 105 ∷ 33 ∷ [];
  capacity = 8;
  size = 3;
  input_end = true;
  total_write = 3;
  total_read = 0;
  error_flag = false;
}

-- The SYN is acknowledged, and the window has room for ten.
abbrev pub open_sender : TcpSender
open_sender = record {
  isn = 7;
  segments_out = [];
  initial_retransmission_timeout = 1000;
  stream = hello;
  next_seqno = 1;
  cur_ack_index = 1;
  fin_ack_index = 2 ^ 64 - 1;
  seg_buffer = [];
  wd_right_edge = 11;
  retrans_num = 0;
  rto = 1000;
  timer = stopped;
}

abbrev last_seg : TcpSegment
last_seg = record {
  header = record default_header { seqno = 8; fin = true };
  payload = 104 ∷ 105 ∷ 33 ∷ [];
}

-- The three bytes and the FIN go out in one segment.
fill_window_run :
    ((fill_window open_sender).segments_out ≡ last_seg ∷ [])
    × ((fill_window open_sender).next_seqno ≡ 5)
    × ((fill_window open_sender).fin_ack_index ≡ 5)
unfolding fill_window Sender.fill_data ByteStream.read Sender.send_full Sender.send_last
    Sender.send_new_seg wrap
fill_window_run = (refl, refl, refl)

open_sender-IsValid : IsValid open_sender
open_sender-IsValid = omega arith

fill_window-Filled_example : Filled open_sender (fill_window open_sender)
fill_window-Filled_example = fill_window-Filled open_sender open_sender-IsValid (omega arith)

fill_window_fills_example :
    (length (fill_window open_sender).stream.buffer ≡ 0)
    ⊎ (11 ≤ (fill_window open_sender).next_seqno)
fill_window_fills_example =
    fill_window_fills open_sender open_sender-IsValid (omega arith) (omega arith) (omega arith)

calls-IsSound_example :
    IsSound (fill_window open_sender)
    × IsSound (ack_received open_sender 8 20)
    × IsSound (tick open_sender 1000)
    × IsSound (send_empty_ack open_sender)
calls-IsSound_example =
    calls-IsSound open_sender (record { valid = open_sender-IsValid; tight = omega arith })
      (omega arith) 8 20 1000 (omega arith)

abbrev in_flight : SegNode
in_flight = record { seg = last_seg; ack_index = 5 }

-- The segment is sent and waits for its acknowledgment.
abbrev waiting_sender : TcpSender
waiting_sender = record {
  isn = 7;
  segments_out = [];
  initial_retransmission_timeout = 1000;
  stream = ByteStream.new 8;
  next_seqno = 5;
  cur_ack_index = 1;
  fin_ack_index = 5;
  seg_buffer = in_flight ∷ [];
  wd_right_edge = 11;
  retrans_num = 1;
  rto = 2000;
  timer = stopped;
}

waiting_sender-IsValid : IsValid waiting_sender
waiting_sender-IsValid = record {
  stream = omega arith;
  flight = (unfold wrap in refl, omega arith, refl, refl);
  edge = omega arith;
}

bytes_in_flight-occupied_run : bytes_in_flight waiting_sender ≡ occupied (in_flight ∷ [])
bytes_in_flight-occupied_run =
    bytes_in_flight-occupied waiting_sender waiting_sender-IsValid (omega arith)

take_ack-Acked_run : Acked waiting_sender 5 (take_ack waiting_sender 5)
take_ack-Acked_run = take_ack-Acked waiting_sender 5 waiting_sender-IsValid

tick_lem_example :
    let s' = tick waiting_sender 2000 in
    let late = leb 2000 (sub64 (add64 0 2000) 0) in
    let counts =
      late && not (sub64 waiting_sender.wd_right_edge waiting_sender.cur_ack_index == 0) in
    (s'.segments_out ≡ [] ++ (if late then last_seg ∷ [] else []))
    × (s'.seg_buffer ≡ in_flight ∷ [])
    × IsBackedOff s'
    × (s'.retrans_num ≡ (if counts then 1 + 1 else 1))
    × (s'.rto ≡ (if counts then 2000 * 2 % 2 ^ 64 else 2000))
    × (s'.timer.now_time ≡ add64 0 2000)
    × (s'.timer.last_flash_time ≡ (if late then add64 0 2000 else 0))
tick_lem_example = tick_lem waiting_sender in_flight [] 2000 refl (omega arith) (omega arith)
