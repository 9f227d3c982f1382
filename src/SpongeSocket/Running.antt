-- ===== src/SpongeSocket/Running.antt =====
-- The loop of the thread, and the methods of the owner that start it. A state of TCP is compared
-- by its summaries.
use tcp_impliment.Common.{
  ◌++◌, ℕ, zero, suc, ◌==◌, Bool, true, false, ◌&&◌, ◌||◌, not, Option, none, some, List,
  if◌then◌else◌, ◌>>=◌,
}
use tcp_impliment.Common.Words.{sub64}
use tcp_impliment.WrappingInt.{WrappingInt32}
use tcp_impliment.Connection
use tcp_impliment.Connection.{TcpConfig, TcpConnection, active}
use tcp_impliment.State.{State, TcpState, SenderState, ReceiverState, of_state, summary}
use tcp_impliment.TcpOverIp.{FdAdapterConfig}
use tcp_impliment.EventLoop.{Rule, is_exit, PollFd, Polled, wait_next_event}
use tcp_impliment.SpongeSocket.{Adapter, Stream, TcpThread, rules, system}

-- `operator==` of `TCPState`; each summary has its number.
abbrev pub sender_number : SenderState → ℕ
sender_number SenderState.error = 0
sender_number SenderState.closed = 1
sender_number SenderState.syn_sent = 2
sender_number SenderState.syn_acked = 3
sender_number SenderState.fin_sent = 4
sender_number SenderState.fin_acked = 5

abbrev pub receiver_number : ReceiverState → ℕ
receiver_number ReceiverState.error = 0
receiver_number ReceiverState.listen = 1
receiver_number ReceiverState.syn_recv = 2
receiver_number ReceiverState.fin_recv = 3

abbrev pub same_flag : Bool → Bool → Bool
same_flag true b = b
same_flag false b = not b

abbrev pub same_state : TcpState → TcpState → Bool
same_state a b =
    same_flag a.active b.active
    && same_flag a.linger_after_streams_finish b.linger_after_streams_finish
    && sender_number a.sender == sender_number b.sender
    && receiver_number a.receiver == receiver_number b.receiver

abbrev pub is_in_state : State → TcpConnection → Bool
is_in_state s tcp = same_state (summary tcp) (of_state s)

-- The thread with its event loop's rules and the time at which it ticked last.
pub record Looping {ℓ} (A D : Type ℓ) : Type ℓ where
  pub thread : TcpThread A D
  pub eventloop : List (Rule (TcpThread A D))
  pub base_time : ℕ

-- What the operating system and the owner's thread show of themselves: `poll`, `timestamp_ms`, the
-- flag `_abort`, and what the thread sees of `shutdown(SHUT_RDWR)` at the owner's end of the stream.
pub record Surroundings {ℓ} (A D : Type ℓ) : Type ℓ where
  pub poll : TcpThread A D → List PollFd → Polled × TcpThread A D
  pub timestamp_ms : TcpThread A D → ℕ
  pub abort : TcpThread A D → Bool
  pub shutdown_owner : TcpThread A D → Option (TcpThread A D)

-- The object: whether `_tcp` has a value, which is `thread.tcp` then.
pub record SpongeSocket {ℓ} (A D : Type ℓ) : Type ℓ where
  pub has_tcp : Bool
  pub thread : TcpThread A D
  pub eventloop : List (Rule (TcpThread A D))

module _ {ℓ} {A D : Type ℓ} (adapter : Adapter A) (stream : Stream D)
    (around : Surroundings A D) where
  -- The connection and the adapter are told the time since the last tick.
  abbrev pub tick : TcpThread A D → List (Rule (TcpThread A D)) → ℕ → Option (Looping A D)
  tick t left base_time =
      let next_time = around.timestamp_ms t in
      let ms = sub64 next_time base_time in
      adapter.tick t.datagram_adapter ms >>= λ a. some (record {
        thread = record t { tcp = Connection.tick t.tcp ms; datagram_adapter = a };
        eventloop = left;
        base_time = next_time;
      })

  -- One round: whether the loop goes on, and the state.
  unfoldable pub tcp_round : Looping A D → Option (Bool × Looping A D)
  tcp_round l =
      wait_next_event (system adapter stream around.poll) l.thread l.eventloop >>= λ (ret, left, t).
      if is_exit ret || around.abort t
      then some (false, record l { thread = t; eventloop = left })
      else if active t.tcp
      then (tick t left l.base_time >>= λ l'. some (true, l'))
      else some (true, record l { thread = t; eventloop = left })

  -- `_tcp_loop` for so many rounds at most: whether it has ended, and the state. It need not end.
  unfoldable pub tcp_loop : ℕ → (TcpThread A D → Bool) → Looping A D → Option (Bool × Looping A D)
  tcp_loop zero condition l = some (false, l)
  tcp_loop (suc rounds) condition l = elim (condition l.thread) [
    | false ↦ some (true, l)
    | true ↦
        (tcp_round l >>= λ (goes_on, l'). elim goes_on [
          | true ↦ tcp_loop rounds condition l'
          | false ↦ some (true, l')
        ])
  ]

  -- `_initialize_TCP`
  abbrev pub initialize_tcp : SpongeSocket A D → TcpConfig → WrappingInt32 → SpongeSocket A D
  initialize_tcp s config random = record s {
    has_tcp = true;
    thread = record (s.thread) { tcp = Connection.new config random };
    eventloop = s.eventloop ++ rules adapter stream;
  }

  abbrev pub with_config : SpongeSocket A D → FdAdapterConfig → Bool → SpongeSocket A D
  with_config s c_ad listening =
      let a = adapter.set_config s.thread.datagram_adapter c_ad in
      record s {
        thread = record (s.thread) {
          datagram_adapter = if listening then adapter.set_listening a true else a;
        };
      }

  abbrev pub with_tcp : SpongeSocket A D → TcpConnection → SpongeSocket A D
  with_tcp s tcp = record s { thread = record (s.thread) { tcp = tcp } }

  -- `connect` up to its loop.
  unfoldable pub start_connect :
      SpongeSocket A D → TcpConfig → WrappingInt32 → FdAdapterConfig → Option (SpongeSocket A D)
  start_connect s c_tcp random c_ad =
      if s.has_tcp
      then none
      else (let opened = with_config (initialize_tcp s c_tcp random) c_ad false in
          let tcp = Connection.connect opened.thread.tcp in
          if not (is_in_state State.syn_sent tcp) then none else some (with_tcp opened tcp))

  -- `listen_and_accept` up to its loop.
  unfoldable pub start_listen :
      SpongeSocket A D → TcpConfig → WrappingInt32 → FdAdapterConfig → Option (SpongeSocket A D)
  start_listen s c_tcp random c_ad =
      if s.has_tcp then none else some (with_config (initialize_tcp s c_tcp random) c_ad true)

  abbrev pub looping : SpongeSocket A D → Looping A D
  looping s = record {
    thread = s.thread;
    eventloop = s.eventloop;
    base_time = around.timestamp_ms s.thread;
  }

  abbrev pub is_connecting : TcpThread A D → Bool
  is_connecting t = is_in_state State.syn_sent t.tcp

  abbrev pub is_accepting : TcpThread A D → Bool
  is_accepting t =
      is_in_state State.listen t.tcp
      || is_in_state State.syn_rcvd t.tcp
      || is_in_state State.syn_sent t.tcp

  -- Both run the loop in the owner's thread until the connection has left these states.
  abbrev pub connect :
      ℕ
      → SpongeSocket A D
      → TcpConfig
      → WrappingInt32
      → FdAdapterConfig
      → Option (Bool × Looping A D)
  connect rounds s c_tcp random c_ad =
      start_connect s c_tcp random c_ad >>= λ s'. tcp_loop rounds is_connecting (looping s')

  abbrev pub listen_and_accept :
      ℕ
      → SpongeSocket A D
      → TcpConfig
      → WrappingInt32
      → FdAdapterConfig
      → Option (Bool × Looping A D)
  listen_and_accept rounds s c_tcp random c_ad =
      start_listen s c_tcp random c_ad >>= λ s'. tcp_loop rounds is_accepting (looping s')

  -- `_tcp_main` behind its loop: the connection is destroyed.
  abbrev pub end_main : Looping A D → Option (Bool × SpongeSocket A D)
  end_main l = around.shutdown_owner l.thread >>= λ t. some (
    true,
    record {
      has_tcp = false;
      thread = record t { tcp = Connection.destroy t.tcp };
      eventloop = l.eventloop;
    },
  )

  -- The loop runs until it breaks.
  unfoldable pub tcp_main : ℕ → SpongeSocket A D → Option (Bool × SpongeSocket A D)
  tcp_main rounds s =
      if not s.has_tcp
      then none
      else (tcp_loop rounds (λ t. true) (looping s) >>= λ (ended, l).
          if ended
          then end_main l
          else some (false, record { has_tcp = true; thread = l.thread; eventloop = l.eventloop }))
