-- ===== src/Tests/Threads.antt =====
-- Two rounds of a listening thread: a segment with the SYN and three bytes comes in, and two of them
-- are handed to the application.
use tcp_impliment.Common.{
  inl, ◌+◌, subst, get_or, ℕ, suc, ◌≡◌, refl, ap, arith, Bool, true, false, Option, none, some,
  List, [], ◌∷◌, length,
}
use tcp_impliment.ByteStream
use tcp_impliment.Reassembler
use tcp_impliment.Reassembler.Bytes.{Agrees}
use tcp_impliment.Segment.{TcpSegment, default_header}
use tcp_impliment.Receiver
use tcp_impliment.Receiver.Following.{IsPart}
use tcp_impliment.Sender
use tcp_impliment.Connection
use tcp_impliment.EventLoop
use tcp_impliment.EventLoop.{PollFd, Polled, no_revents}
use tcp_impliment.SpongeSocket
use tcp_impliment.SpongeSocket.{Adapter, Stream, TcpThread, rules}
use tcp_impliment.SpongeSocket.Receiving.{HandsUp}
use tcp_impliment.SpongeSocket.Delivering.{IsApart, tcp_loop-Delivers}
use tcp_impliment.SpongeSocket.Running
use tcp_impliment.SpongeSocket.Running.{Looping, Surroundings, tcp_loop}
use tcp_impliment.Tests.Connecting.{small_config}
use tcp_impliment.Tests.Sockets.{small_adapter, small_stream, small_stream-IsPipe, small_thread}

-- The stream of the peer, whose SYN has the number 9.
abbrev letters : ℕ → ℕ
letters i = 97 + i

abbrev syn_letters : TcpSegment
syn_letters = record {
  header = record default_header { syn = true; seqno = 9 };
  payload = 97 ∷ 98 ∷ 99 ∷ [];
}

abbrev letters_adapter : Adapter ℕ
letters_adapter = record small_adapter { read = λ a. some (suc a, some syn_letters) }

syn_letters-IsPart : IsPart 9 letters syn_letters
syn_letters-IsPart = record {
  index = 0;
  carried = record { content = omega arith; numbered = inl (refl, refl, refl) };
  bounded = omega arith;
}

letters-HandsUp :
    HandsUp letters_adapter small_stream (λ d. d.0) (λ d. d.1) small_stream-IsPipe 9 letters
letters-HandsUp = record {
  parts = λ a a' seg e.
      subst (IsPart 9 letters)
        (ap (λ (o : Option (ℕ × Option TcpSegment)). get_or (get_or o (0, none)).1 syn_letters) e)
        syn_letters-IsPart;
}

abbrev always_ready : Surroundings ℕ (List ℕ × List ℕ)
always_ready = record {
  poll = λ t fds. (
    Polled.events (
        record no_revents { readable = true }
        ∷ no_revents
        ∷ record no_revents { writable = true }
        ∷ no_revents
        ∷ []),
    t,
  );
  timestamp_ms = λ t. 5;
  abort = λ t. false;
  shutdown_owner = λ t. some t;
}

always_ready-IsApart : IsApart always_ready (λ (d : List ℕ × List ℕ). d.0)
always_ready-IsApart = record { polls = λ t fds. (refl, refl) }

abbrev fresh : Looping ℕ (List ℕ × List ℕ)
fresh = record {
  thread = record small_thread { tcp = Connection.new small_config 7 };
  eventloop = rules letters_adapter small_stream;
  base_time = 0;
}

abbrev two_rounds : Option (Bool × Looping ℕ (List ℕ × List ℕ))
two_rounds = tcp_loop letters_adapter small_stream always_ready 2 (λ t. true) fresh

abbrev served : Looping ℕ (List ℕ × List ℕ)
served = (get_or two_rounds (false, fresh)).1

served_run : (two_rounds ≡ some (false, served)) × (served.thread.thread_data.0 ≡ 97 ∷ 98 ∷ [])
unfolding Running.tcp_loop Running.tcp_round EventLoop.wait_next_event EventLoop.set_up
    EventLoop.dispatch SpongeSocket.receive_datagram SpongeSocket.write_inbound
    Connection.segment_received Connection.clean Connection.check_close Connection.tick
    Receiver.segment_received Receiver.take_segment ByteStream.write ByteStream.pop_output
    ByteStream.peek_output ByteStream.remaining_capacity Reassembler.push_substring
    Reassembler.max_idx Reassembler.commit Reassembler.merge_all Reassembler.merge_loop
    Reassembler.upper_bound Reassembler.cut_right Reassembler.cut_left Sender.send_empty_ack
    Sender.send_new_seg Sender.tick Sender.retransmit
served_run = (refl, refl)

tcp_loop-Delivers_example :
    Agrees letters 0 served.thread.thread_data.0
    × Agrees letters
        (length served.thread.thread_data.0)
        (Connection.inbound_stream served.thread.tcp).buffer
tcp_loop-Delivers_example =
    tcp_loop-Delivers letters_adapter small_stream (λ d. d.0) (λ d. d.1) small_stream-IsPipe 9
      letters letters-HandsUp (omega arith) always_ready always_ready-IsApart 2 8 (λ t. true) fresh
      served false (omega arith) (omega arith) refl refl refl served_run.0
