-- ===== src/SpongeSocket.antt =====
-- libsponge/tcp_helpers/tcp_sponge_socket.hh and tcp_sponge_socket.cc: the thread that runs a
-- connection between an adapter and a local stream to the application. Adapter and stream are
-- interfaces; what the kernel and the other thread do between two rounds is `poll`'s. A call returns
-- `none` for an exception.
pub mod Progress
pub mod Piping
pub mod Running
pub mod Descriptors
pub mod Starting
pub mod Receiving
pub mod Delivering
use tcp_impliment.Common.{
  ℕ, zero, suc, ◌==◌, Bool, true, false, ◌&&◌, ◌||◌, not, Option, none, some, List, [], ◌∷◌, length,
  min, ltb, if◌then◌else◌, ◌>>=◌,
}
use tcp_impliment.Common.Words.{sub64}
use tcp_impliment.ByteStream
use tcp_impliment.ByteStream.{ByteStream}
use tcp_impliment.Segment.{TcpSegment}
use tcp_impliment.Sender
use tcp_impliment.Connection
use tcp_impliment.Connection.{
  TcpConfig, TcpConnection, inbound_stream, outbound_stream, active, remaining_outbound_capacity,
}
use tcp_impliment.State.{State, TcpState, SenderState, ReceiverState, of_state, summary}
use tcp_impliment.TcpOverIp.{FdAdapterConfig}
use tcp_impliment.EventLoop
use tcp_impliment.EventLoop.{Direction, Rule, Result, PollFd, Polled, System, wait_next_event}

-- The template's parameter `AdaptT`, an adapter with its descriptor.
pub record Adapter {ℓ} (A : Type ℓ) : Type ℓ where
  pub read : A → Option (A × Option TcpSegment)
  pub write : A → TcpSegment → Option A
  pub tick : A → ℕ → Option A
  pub set_config : A → FdAdapterConfig → A
  pub set_listening : A → Bool → A
  pub eof : A → Bool
  pub closed : A → Bool
  pub read_count : A → ℕ
  pub write_count : A → ℕ

-- `LocalStreamSocket`: reading up to a limit, writing a part, `shutdown(SHUT_WR)`.
pub record Stream {ℓ} (D : Type ℓ) : Type ℓ where
  pub read : D → ℕ → Option (List ℕ × D)
  pub write : D → List ℕ → Option (ℕ × D)
  pub shutdown_write : D → Option D
  pub eof : D → Bool
  pub closed : D → Bool
  pub read_count : D → ℕ
  pub write_count : D → ℕ

-- What the rules work on.
pub record TcpThread {ℓ} (A D : Type ℓ) : Type ℓ where
  pub tcp : TcpConnection
  pub datagram_adapter : A
  pub thread_data : D
  pub inbound_shutdown : Bool
  pub outbound_shutdown : Bool
  pub fully_acked : Bool

abbrev pub give : TcpConnection → Option TcpSegment → TcpConnection
give tcp none = tcp
give tcp (some seg) = Connection.segment_received tcp seg

-- `inbound_stream()` is a reference into the connection.
abbrev pub set_inbound : TcpConnection → ByteStream → TcpConnection
set_inbound c stream = record c {
  receiver = record (c.receiver) {
    reassembler = record (c.receiver.reassembler) { output = stream };
  };
}

abbrev pub finished : ByteStream → Bool
finished s = ByteStream.eof s || s.error_flag

module _ {ℓ} {A D : Type ℓ} (adapter : Adapter A) (stream : Stream D) where
  -- Rule 1.
  abbrev pub note_acked : TcpThread A D → TcpThread A D
  note_acked t =
      if stream.eof t.thread_data && Sender.bytes_in_flight t.tcp.sender == 0 && not t.fully_acked
      then record t { fully_acked = true }
      else t

  unfoldable pub receive_datagram : TcpThread A D → Option (TcpThread A D)
  receive_datagram t = adapter.read t.datagram_adapter >>= λ r.
      some (note_acked (record t { datagram_adapter = r.0; tcp = give t.tcp r.1 }))

  -- Rule 2, and what its cancellation does.
  abbrev pub end_outbound : TcpThread A D → TcpThread A D
  end_outbound t = record t { tcp = Connection.end_input_stream t.tcp; outbound_shutdown = true }

  unfoldable pub read_outbound : TcpThread A D → Option (TcpThread A D)
  read_outbound t = stream.read t.thread_data (remaining_outbound_capacity t.tcp) >>= λ r.
      let (amount_written, tcp) = Connection.write t.tcp r.0 in
      let t' = record t { tcp = tcp; thread_data = r.1 } in
      if not (amount_written == length r.0)
      then none
      else some (if stream.eof r.1 then end_outbound t' else t')

  abbrev pub wants_outbound : TcpThread A D → Bool
  wants_outbound t =
      active t.tcp && not t.outbound_shutdown && ltb 0 (remaining_outbound_capacity t.tcp)

  -- Rule 3.
  abbrev pub end_inbound : TcpThread A D → Option (TcpThread A D)
  end_inbound t = stream.shutdown_write t.thread_data >>= λ d.
      some (record t { thread_data = d; inbound_shutdown = true })

  unfoldable pub write_inbound : TcpThread A D → Option (TcpThread A D)
  write_inbound t =
      let inbound = inbound_stream t.tcp in
      let amount_to_write = min 65536 (ByteStream.buffer_size inbound) in
      stream.write t.thread_data (ByteStream.peek_output inbound amount_to_write) >>= λ r.
      let popped = ByteStream.pop_output inbound r.0 in
      let t' = record t { tcp = set_inbound t.tcp popped; thread_data = r.1 } in
      if finished popped then end_inbound t' else some t'

  abbrev pub wants_inbound : TcpThread A D → Bool
  wants_inbound t =
      not (ByteStream.buffer_empty (inbound_stream t.tcp))
      || finished (inbound_stream t.tcp) && not t.inbound_shutdown

  -- Rule 4: the loop over the queue.
  unfoldable pub send_all : A → List TcpSegment → Option A
  send_all a [] = some a
  send_all a (seg ∷ segs) = adapter.write a seg >>= λ a'. send_all a' segs

  unfoldable pub send_segments : TcpThread A D → Option (TcpThread A D)
  send_segments t = send_all t.datagram_adapter t.tcp.segments_out >>= λ a.
      some (record t { datagram_adapter = a; tcp = record (t.tcp) { segments_out = [] } })

  abbrev pub is_empty : List TcpSegment → Bool
  is_empty [] = true
  is_empty (seg ∷ segs) = false

  abbrev pub has_segments : TcpThread A D → Bool
  has_segments t = not (is_empty t.tcp.segments_out)

  -- The adapter's descriptor is numbered 0, the stream's 1.
  abbrev pub datagram_rule : Rule (TcpThread A D)
  datagram_rule = record {
    fd = 0;
    direction = Direction.in_;
    callback = receive_datagram;
    interest = λ t. active t.tcp;
    cancel = λ t. t;
  }

  abbrev pub outbound_rule : Rule (TcpThread A D)
  outbound_rule = record {
    fd = 1;
    direction = Direction.in_;
    callback = read_outbound;
    interest = wants_outbound;
    cancel = end_outbound;
  }

  abbrev pub inbound_rule : Rule (TcpThread A D)
  inbound_rule = record {
    fd = 1;
    direction = Direction.out;
    callback = write_inbound;
    interest = wants_inbound;
    cancel = λ t. t;
  }

  abbrev pub segment_rule : Rule (TcpThread A D)
  segment_rule = record {
    fd = 0;
    direction = Direction.out;
    callback = send_segments;
    interest = has_segments;
    cancel = λ t. t;
  }

  -- As `_initialize_TCP` adds them.
  abbrev pub rules : List (Rule (TcpThread A D))
  rules = datagram_rule ∷ outbound_rule ∷ inbound_rule ∷ segment_rule ∷ []

  abbrev pub system :
      (TcpThread A D → List PollFd → Polled × TcpThread A D) → System (TcpThread A D)
  system poll = record {
    eof = λ t fd. if fd == 0 then adapter.eof t.datagram_adapter else stream.eof t.thread_data;
    closed =
        λ t fd. if fd == 0 then adapter.closed t.datagram_adapter else stream.closed t.thread_data;
    read_count = λ t fd.
        if fd == 0 then adapter.read_count t.datagram_adapter else stream.read_count t.thread_data;
    write_count = λ t fd.
        if fd == 0
        then adapter.write_count t.datagram_adapter
        else stream.write_count t.thread_data;
    poll = poll;
  }
