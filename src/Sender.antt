-- ===== src/Sender.antt =====
-- libsponge/tcp_sender.hh and tcp_sender.cc: the stream cut into segments, the segments in flight,
-- and the retransmission timer. The queues are lists, front first.
pub mod RetxTimer
pub mod Flight
pub mod Sends
pub mod Fill
pub mod Acks
pub mod Sound
use tcp_impliment.Common.{
  ℕ, zero, suc, ◌+◌, ◌-◌, ◌*◌, ◌%◌, ◌^◌, Bool, true, false, ◌&&◌, ◌||◌, List, [], ◌∷◌, ◌++◌, ltb,
  leb, ◌==◌, if◌then◌else◌, length, take, drop, not,
}
use tcp_impliment.Common.Words.{u32_mod, u64_mod, add64, sub64, add32}
use tcp_impliment.WrappingInt.{WrappingInt32, wrap, unwrap}
use tcp_impliment.ByteStream
use tcp_impliment.ByteStream.{ByteStream}
use tcp_impliment.Segment.{
  TcpSegment, TcpHeader, default_header, default_segment, length_in_sequence_space,
}
use tcp_impliment.Sender.RetxTimer.{Timer, stopped, flash, time_out}
use tcp_impliment.Sender.RetxTimer

-- `TCPConfig::MAX_PAYLOAD_SIZE`.
abbrev pub max_payload_size : ℕ
max_payload_size = 1000

-- `struct seg_node`.
pub record SegNode : Type 0 where
  pub seg : TcpSegment
  pub ack_index : ℕ

pub record TcpSender : Type 0 where
  pub isn : WrappingInt32
  pub segments_out : List TcpSegment
  pub initial_retransmission_timeout : ℕ
  pub stream : ByteStream
  pub next_seqno : ℕ
  pub cur_ack_index : ℕ
  pub fin_ack_index : ℕ
  pub seg_buffer : List SegNode
  pub wd_right_edge : ℕ
  pub retrans_num : ℕ
  pub rto : ℕ
  pub timer : Timer

-- The constructor, with the ISN that it is given or draws at random.
abbrev pub new : ℕ → ℕ → WrappingInt32 → TcpSender
new capacity retx_timeout isn = record {
  isn = isn;
  segments_out = [];
  initial_retransmission_timeout = retx_timeout;
  stream = ByteStream.new capacity;
  next_seqno = 0;
  cur_ack_index = 0;
  fin_ack_index = 2 ^ 64 - 1;
  seg_buffer = [];
  wd_right_edge = 1;
  retrans_num = 0;
  rto = retx_timeout;
  timer = stopped;
}

abbrev pub get_init_seg : TcpSender → TcpSegment
get_init_seg s = record {
  header = record default_header { seqno = wrap s.next_seqno s.isn };
  payload = [];
}

unfoldable pub send_new_seg : TcpSender → TcpSegment → TcpSender
send_new_seg s seg =
    let next = add64 s.next_seqno (length_in_sequence_space seg) in
    record s {
      segments_out = s.segments_out ++ seg ∷ [];
      next_seqno = next;
      seg_buffer = s.seg_buffer ++ record { seg = seg; ack_index = next } ∷ [];
    }

unfoldable pub bytes_in_flight : TcpSender → ℕ
bytes_in_flight s = sub64 s.next_seqno s.cur_ack_index

-- The segments that `fill_window` builds: a SYN, a full payload, and the last one.
abbrev pub syn_seg : TcpSender → TcpSegment
syn_seg s = record {
  header = record default_header { seqno = wrap s.next_seqno s.isn; syn = true };
  payload = [];
}

abbrev pub data_seg : TcpSender → List ℕ → Bool → TcpSegment
data_seg s bytes fin = record {
  header = record default_header { seqno = wrap s.next_seqno s.isn; fin = fin };
  payload = bytes;
}

-- `uint32_t fill_size`: the room up to the right edge of the window.
abbrev pub fill_size : TcpSender → ℕ
fill_size s =
    (if ltb s.next_seqno s.wd_right_edge then s.wd_right_edge - s.next_seqno else 0) % u32_mod

-- The `while` loop: full payloads while more than one is left; the result is the index reached.
-- `fuel` bounds the rounds: the index grows by a payload in each, up to the length of the data.
unfoldable pub send_full : ℕ → TcpSender → List ℕ → ℕ → TcpSender × ℕ
send_full zero s total i = (s, i)
send_full (suc fuel) s total i = elim (ltb (add32 i max_payload_size) (length total)) [
  | true ↦
      send_full fuel (send_new_seg s (data_seg s (take max_payload_size (drop i total)) false))
        total (add32 i max_payload_size)
  | false ↦ (s, i)
]

-- The last segment, with the FIN if it fits.
unfoldable pub send_last : TcpSender → List ℕ → Bool → TcpSender
send_last s rest fin =
    let sent = send_new_seg s (data_seg s rest fin) in
    if ltb 0 (length rest) || fin
    then (if fin then record sent { fin_ack_index = sent.next_seqno } else sent)
    else s

-- The part of `fill_window` behind the two early returns.
unfoldable pub fill_data : TcpSender → TcpSender
fill_data s =
    let room = fill_size s in
    let (total, stream) = ByteStream.read s.stream room in
    let fin = ByteStream.eof stream && ltb (length total) room in
    let (sent, i) = send_full (length total) (record s { stream = stream }) total 0 in
    send_last sent (drop i total) fin

unfoldable pub fill_window : TcpSender → TcpSender
fill_window s =
    if s.next_seqno == s.fin_ack_index
    then s
    else (if s.next_seqno == 0 then send_new_seg s (syn_seg s) else fill_data s)

-- The `while` loop of `ack_received`: the segments wholly acknowledged leave the buffer. The
-- result is the rest, the new `cur_ack_index`, and whether there was one.
unfoldable pub drop_acked : ℕ → List SegNode → ℕ → Bool → List SegNode × ℕ × Bool
drop_acked ack [] cur any = ([], cur, any)
drop_acked ack (x ∷ xs) cur any = elim (leb x.ack_index ack) [
  | true ↦ drop_acked ack xs x.ack_index true
  | false ↦ (x ∷ xs, cur, any)
]

-- The buffer, the timer and the timeout after an acknowledgment.
unfoldable pub take_ack : TcpSender → ℕ → TcpSender
take_ack s ack =
    let (rest, cur, any) = drop_acked ack s.seg_buffer s.cur_ack_index false in
    if any
    then record s {
      seg_buffer = rest;
      cur_ack_index = cur;
      rto = s.initial_retransmission_timeout;
      retrans_num = 0;
      timer = flash s.timer;
    }
    else record s { seg_buffer = rest; cur_ack_index = cur }

-- The window, which only moves right, and one byte to probe a window of zero with.
unfoldable pub take_window : TcpSender → ℕ → ℕ → TcpSender
take_window s ack window_size =
    let edge = add64 ack window_size in
    let right = if ltb s.wd_right_edge edge then edge else s.wd_right_edge in
    if window_size == 0
    then (let sent = fill_window (record s { wd_right_edge = add64 right 1 }) in
        record sent { wd_right_edge = sub64 sent.wd_right_edge 1 })
    else fill_window (record s { wd_right_edge = right })

unfoldable pub ack_received : TcpSender → WrappingInt32 → ℕ → TcpSender
ack_received s ackno window_size =
    let ack = unwrap ackno s.isn s.next_seqno in
    if ltb s.next_seqno ack || ltb ack s.cur_ack_index
    then s
    else take_window (take_ack s ack) ack window_size

-- The part of `tick` behind the test for an empty buffer, at the oldest segment in flight.
unfoldable pub retransmit : TcpSender → TcpSegment → ℕ → TcpSender
retransmit s oldest ms =
    let timer = RetxTimer.tick s.timer ms in
    if time_out timer s.rto
    then (let again = record s {
      segments_out = s.segments_out ++ oldest ∷ [];
      timer = flash timer;
    } in
        if sub64 s.wd_right_edge s.cur_ack_index == 0
        then again
        else record again { retrans_num = add64 s.retrans_num 1; rto = s.rto * 2 % u64_mod })
    else record s { timer = timer }

abbrev tick_at : TcpSender → List SegNode → ℕ → TcpSender
tick_at s [] ms = s
tick_at s (x ∷ xs) ms = retransmit s x.seg ms

unfoldable pub tick : TcpSender → ℕ → TcpSender
tick s ms = tick_at s s.seg_buffer ms

unfoldable pub send_empty_ack : TcpSender → TcpSender
send_empty_ack s =
    if s.next_seqno == 0
    then send_new_seg s (syn_seg s)
    else record s { segments_out = s.segments_out ++ get_init_seg s ∷ [] }

abbrev pub consecutive_retransmissions : TcpSender → ℕ
consecutive_retransmissions s = s.retrans_num

abbrev pub next_seqno_wrapped : TcpSender → WrappingInt32
next_seqno_wrapped s = wrap s.next_seqno s.isn
