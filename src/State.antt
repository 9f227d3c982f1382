-- ===== src/State.antt =====
-- libsponge/tcp_helpers/tcp_state.hh and tcp_state.cc: the states of TCP as summaries of sender,
-- receiver and connection. A summary string is a constructor.
pub mod Official
use tcp_impliment.Common.{
  ℕ, ◌+◌, Bool, true, false, Option, none, some, ltb, ◌==◌, if◌then◌else◌, not,
}
use tcp_impliment.Common.Words.{add64}
use tcp_impliment.ByteStream
use tcp_impliment.Receiver
use tcp_impliment.Receiver.{TcpReceiver}
use tcp_impliment.Sender
use tcp_impliment.Sender.{TcpSender}
use tcp_impliment.Connection
use tcp_impliment.Connection.{TcpConnection}

pub data ReceiverState : Type 0 where
  error listen syn_recv fin_recv : ReceiverState

pub data SenderState : Type 0 where
  error closed syn_sent syn_acked fin_sent fin_acked : SenderState

pub record TcpState : Type 0 where
  pub sender : SenderState
  pub receiver : ReceiverState
  pub active : Bool
  pub linger_after_streams_finish : Bool

pub data State : Type 0 where
  listen syn_rcvd syn_sent established close_wait last_ack : State
  fin_wait_1 fin_wait_2 closing time_wait closed reset : State

abbrev running : SenderState → ReceiverState → Bool → TcpState
running s r linger = record {
  sender = s;
  receiver = r;
  active = true;
  linger_after_streams_finish = linger;
}

abbrev halted : SenderState → ReceiverState → TcpState
halted s r = record {
  sender = s;
  receiver = r;
  active = false;
  linger_after_streams_finish = false;
}

unfoldable pub of_state : State → TcpState
of_state State.listen = running SenderState.closed ReceiverState.listen true
of_state State.syn_rcvd = running SenderState.syn_sent ReceiverState.syn_recv true
of_state State.syn_sent = running SenderState.syn_sent ReceiverState.listen true
of_state State.established = running SenderState.syn_acked ReceiverState.syn_recv true
of_state State.close_wait = running SenderState.syn_acked ReceiverState.fin_recv false
of_state State.last_ack = running SenderState.fin_sent ReceiverState.fin_recv false
of_state State.fin_wait_1 = running SenderState.fin_sent ReceiverState.syn_recv true
of_state State.fin_wait_2 = running SenderState.fin_acked ReceiverState.syn_recv true
of_state State.closing = running SenderState.fin_sent ReceiverState.fin_recv true
of_state State.time_wait = running SenderState.fin_acked ReceiverState.fin_recv true
of_state State.closed = halted SenderState.fin_acked ReceiverState.fin_recv
of_state State.reset = halted SenderState.error ReceiverState.error

abbrev is_none : Option ℕ → Bool
is_none none = true
is_none (some a) = false

unfoldable pub receiver_summary : TcpReceiver → ReceiverState
receiver_summary r =
    if (Receiver.stream_out r).error_flag
    then ReceiverState.error
    else (if is_none (Receiver.ackno r)
        then ReceiverState.listen
        else (if ByteStream.input_ended (Receiver.stream_out r)
            then ReceiverState.fin_recv
            else ReceiverState.syn_recv))

unfoldable pub sender_summary : TcpSender → SenderState
sender_summary s =
    if s.stream.error_flag
    then SenderState.error
    else (if s.next_seqno == 0
        then SenderState.closed
        else (if s.next_seqno == Sender.bytes_in_flight s
            then SenderState.syn_sent
            else (if not (ByteStream.eof s.stream)
                then SenderState.syn_acked
                else (if ltb s.next_seqno (add64 (ByteStream.bytes_written s.stream) 2)
                    then SenderState.syn_acked
                    else (if Sender.bytes_in_flight s == 0
                        then SenderState.fin_acked
                        else SenderState.fin_sent)))))

-- `TCPConnection::state`.
unfoldable pub summary : TcpConnection → TcpState
summary c = record {
  sender = sender_summary c.sender;
  receiver = receiver_summary c.receiver;
  active = Connection.active c;
  linger_after_streams_finish =
      if Connection.active c then c.linger_after_streams_finish else false;
}
