-- ===== src/Tests/Connecting.antt =====
-- The connection at concrete inputs: before the handshake, open, giving up, and waiting at the end.
use tcp_impliment.Common.{
  ◌*◌, ◌≡◌, refl, arith, none, [], ◌∷◌, ◌++◌, true, false, ◌||◌, not, leb, take,
}
use tcp_impliment.Common.Words.{add32, sub32}
use tcp_impliment.ByteStream
use tcp_impliment.ByteStream.{ByteStream}
use tcp_impliment.Segment.{TcpSegment, default_header}
use tcp_impliment.Reassembler
use tcp_impliment.Receiver
use tcp_impliment.Sender
use tcp_impliment.Sender.{TcpSender}
use tcp_impliment.Connection
use tcp_impliment.Connection.{
  TcpConfig, TcpConnection, segment_received, write, tick, end_input_stream, connect, destroy,
  inbound_stream, outbound_stream, rst_seg,
}
use tcp_impliment.Connection.Outgoing.{Emits, outbound, calls-Emits, write-outbound}
use tcp_impliment.Connection.Closing.{IsFinished, tick_gives_up, tick-IsFinished}
use tcp_impliment.State
use tcp_impliment.State.{of_state, summary}
use tcp_impliment.State.Official.{new_states, reset_states}
use tcp_impliment.Tests.Sending.{open_sender}

abbrev pub small_config : TcpConfig
small_config = record { rt_timeout = 1000; recv_capacity = 8; send_capacity = 8; fixed_isn = none }

new_states_run :
    (summary (Connection.new small_config 7) ≡ of_state State.State.listen)
    × (summary (connect (Connection.new small_config 7)) ≡ of_state State.State.syn_sent)
new_states_run = new_states small_config 7

abbrev rst_segment : TcpSegment
rst_segment = record { header = record default_header { rst = true }; payload = [] }

abbrev ack_segment : TcpSegment
ack_segment = record {
  header = record default_header { ack = true; ackno = 8; win = 20 };
  payload = [];
}

-- The handshake is over and three bytes wait to be sent.
abbrev pub open_connection : TcpConnection
open_connection = record (Connection.new small_config 7) { sender = open_sender; now_time = 500 }

reset_states_run :
    (summary (segment_received open_connection rst_segment) ≡ of_state State.State.reset)
    × (summary (destroy open_connection) ≡ of_state State.State.reset)
reset_states_run = reset_states open_connection rst_segment refl refl

calls-Emits_example :
    Emits open_connection (segment_received open_connection ack_segment)
    × Emits open_connection (write open_connection (1 ∷ 2 ∷ [])).1
    × Emits open_connection (tick open_connection 10)
    × Emits open_connection (end_input_stream open_connection)
    × Emits open_connection (connect open_connection)
calls-Emits_example = calls-Emits open_connection ack_segment (1 ∷ 2 ∷ []) 10 refl refl

write-outbound_example :
    outbound (write open_connection (1 ∷ 2 ∷ [])).1
    ≡ outbound open_connection ++ take (write open_connection (1 ∷ 2 ∷ [])).0 (1 ∷ 2 ∷ [])
write-outbound_example = write-outbound open_connection (1 ∷ 2 ∷ []) (omega arith) (omega arith)

abbrev tired_connection : TcpConnection
tired_connection = record open_connection { sender = record open_sender { retrans_num = 8 } }

tick_gives_up_example :
    let c = tick tired_connection 10 in
    ((inbound_stream c).error_flag ≡ true)
    × ((outbound_stream c).error_flag ≡ true)
    × (not c.close ≡ false)
    × (c.segments_out ≡ [] ++ rst_seg tired_connection ∷ [])
tick_gives_up_example = tick_gives_up tired_connection 10

abbrev ended : ByteStream
ended = record (ByteStream.new 8) { input_end = true }

-- Both FINs are acknowledged.
abbrev finished_connection : TcpConnection
finished_connection = record (Connection.new small_config 7) {
  receiver = record (Receiver.new 8) {
    reassembler = record (Reassembler.new 8) { output = ended };
    receive_isn = true;
  };
  sender = record open_sender {
    stream = ended;
    next_seqno = 2;
    cur_ack_index = 2;
    fin_ack_index = 2;
  };
}

finished_connection-IsFinished : IsFinished finished_connection
unfolding Sender.bytes_in_flight
finished_connection-IsFinished = record {
  inbound = refl;
  outbound = refl;
  acked = refl;
  unsent = refl;
  buffer = refl;
}

tick-IsFinished_example :
    let c = tick finished_connection 10000 in
    IsFinished c
    × (c.segments_out ≡ [])
    × (c.linger_after_streams_finish ≡ true)
    × (c.close ≡ (false || not true || leb (10 * 1000) (sub32 (add32 0 10000) 0)))
tick-IsFinished_example =
    tick-IsFinished finished_connection 10000 finished_connection-IsFinished (omega arith)
