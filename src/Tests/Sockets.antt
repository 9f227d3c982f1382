-- ===== src/Tests/Sockets.antt =====
-- Descriptors, and the thread between an adapter and a stream, on small worlds.
use tcp_impliment.Common.{
  take-all, sym, ℕ, suc, ◌≡◌, refl, ap, ◌∙◌, arith, Bool, true, false, ◌||◌, Option, none, some,
  List, [], ◌∷◌, ◌++◌, length, length-take, take-append-drop, All, take, drop, min, get_or,
}
use tcp_impliment.Buffer.{joined}
use tcp_impliment.ByteStream
use tcp_impliment.ByteStream.{ByteStream}
use tcp_impliment.ByteStream.Invariant
use tcp_impliment.Connection.{inbound_stream}
use tcp_impliment.Connection.Outgoing.{outbound}
use tcp_impliment.State.{State, of_state, summary}
use tcp_impliment.TcpOverIp.{FdAdapterConfig, TcpOverIpv4Adapter}
use tcp_impliment.EventLoop.{PollFd, Polled, serve}
use tcp_impliment.FileDescriptor
use tcp_impliment.FileDescriptor.{Kernel, Returned, value, failure, FdWrapper}
use tcp_impliment.FileDescriptor.Writing.{Takes, IsWilling, write-All}
use tcp_impliment.Socket.{SocketCalls}
use tcp_impliment.SpongeSocket.{
  Adapter, Stream, TcpThread, set_inbound, finished, rules, system, read_outbound, write_inbound,
}
use tcp_impliment.SpongeSocket.Running.{SpongeSocket, Surroundings, start_connect, start_listen}
use tcp_impliment.SpongeSocket.Piping.{
  IsPipe, ShutsDown, read_outbound-Carries, write_inbound-Carries,
}
use tcp_impliment.SpongeSocket.Starting.{start_lem}
use tcp_impliment.SpongeSocket.Descriptors.{local_stream, udp_adapter, udp_rules-Serve}
use tcp_impliment.Tests.Connecting.{small_config, open_connection}

-- A kernel that keeps the bytes it was given, at most two at a time.
abbrev small_kernel : Kernel (List ℕ)
small_kernel = record {
  read = λ k fd n. (value (take n (4 ∷ 5 ∷ 6 ∷ [])), k);
  writev =
      λ k fd views. let n = min 2 (length (joined views)) in (value n, k ++ take n (joined views));
  close = λ k fd. (value tt, k);
  get_flags = λ k fd. (value 2, k);
  set_flags = λ k fd flags. (value tt, k);
  o_nonblock = 2048;
}

abbrev pub value_or : Returned ℕ → ℕ
value_or (value n) = n
value_or (failure errno) = 0

small_kernel-Takes : Takes small_kernel (λ k fd. k)
small_kernel-Takes = record {
  taken = λ k k' fd n views e.
      sym (ap (λ (r : Returned ℕ × List ℕ). r.1) e)
      ∙ ap (λ (r : Returned ℕ × List ℕ). k ++ take (value_or r.0) (joined views)) e;
}

small_kernel-IsWilling : (fd : ℕ) → IsWilling small_kernel fd
small_kernel-IsWilling fd = record {
  takes_some = λ k views.
      let n = min 2 (length (joined views)) in
      (n, k ++ take n (joined views), refl, omega arith, λ h. omega (arith, h));
}

abbrev two_views : List (List ℕ)
two_views = (1 ∷ 2 ∷ 3 ∷ []) ∷ (4 ∷ 5 ∷ []) ∷ []

write-All_example :
    (count : ℕ) × (k' : List ℕ) × (FileDescriptor.write small_kernel
        (FileDescriptor.new 3, [])
        two_views
        true
      ≡ some (5, record (FileDescriptor.new 3) { write_count = count }, k'))
    × (k' ≡ 1 ∷ 2 ∷ 3 ∷ 4 ∷ 5 ∷ [])
write-All_example =
    write-All small_kernel (λ k fd. k) small_kernel-Takes (FileDescriptor.new 3) [] two_views
      (small_kernel-IsWilling 3) (omega arith)

-- An adapter that only counts, and a stream that takes two bytes at most.
abbrev pub small_adapter : Adapter ℕ
small_adapter = record {
  read = λ a. some (suc a, none);
  write = λ a seg. some (suc a);
  tick = λ a ms. some a;
  set_config = λ a cfg. a;
  set_listening = λ a l. a;
  eof = λ a. false;
  closed = λ a. false;
  read_count = λ a. a;
  write_count = λ a. a;
}

abbrev is_nil : List ℕ → Bool
is_nil [] = true
is_nil (b ∷ bytes) = false

-- The bytes that the application has been handed, and those that it has written.
abbrev pub small_stream : Stream (List ℕ × List ℕ)
small_stream = record {
  read = λ (r, a) n. some (take n a, (r, drop n a));
  write = λ (r, a) bytes. some (min 2 (length bytes), (r ++ take (min 2 (length bytes)) bytes, a));
  shutdown_write = λ d. some d;
  eof = λ d. is_nil d.1;
  closed = λ d. false;
  read_count = λ d. 0;
  write_count = λ d. length d.0;
}

abbrev written_of : Option (ℕ × (List ℕ × List ℕ)) → ℕ × (List ℕ × List ℕ)
written_of o = get_or o (0, ([], []))

pub small_stream-IsPipe : IsPipe small_stream (λ d. d.0) (λ d. d.1)
small_stream-IsPipe = record {
  writes = λ d d' n bytes e.
      let both = ap written_of e in
      let count : min 2 (length bytes) ≡ n = ap (λ (r : ℕ × (List ℕ × List ℕ)). r.0) both in
      (
        omega (arith, count),
        sym (ap (λ (r : ℕ × (List ℕ × List ℕ)). r.1.0) both) ∙ ap (λ m. d.0 ++ take m bytes) count,
      );
  reads = λ d d' n bytes e.
      let both = ap (λ o. get_or o ([], ([], []))) e in
      let got : take n (d.1) ≡ bytes = ap (λ (r : List ℕ × (List ℕ × List ℕ)). r.0) both in
      let left : drop n (d.1) ≡ d'.1 = ap (λ (r : List ℕ × (List ℕ × List ℕ)). r.1.1) both in
      (
        omega (arith, ap length got, length-take n (d.1)),
        sym (take-append-drop n (d.1))
            ∙ ap (λ l. l ++ drop n (d.1)) got
            ∙ ap (λ l. bytes ++ l) left,
      );
  reads_apart = λ d d' n bytes e.
      ap (λ (o : Option (List ℕ × (List ℕ × List ℕ))). (get_or o ([], d)).1.0) (sym e);
  shutdowns = λ d d' e. ap (λ o. (get_or o d).0) (sym e);
}

abbrev pub small_thread : TcpThread ℕ (List ℕ × List ℕ)
small_thread = record {
  tcp = open_connection;
  datagram_adapter = 0;
  thread_data = ([], 1 ∷ 2 ∷ []);
  inbound_shutdown = false;
  outbound_shutdown = false;
  fully_acked = false;
}

read_outbound-Carries_example :
    (t' : TcpThread ℕ (List ℕ × List ℕ)) × (read_outbound small_adapter small_stream small_thread
      ≡ some t')
    × (outbound t'.tcp ++ t'.thread_data.1 ≡ outbound open_connection ++ 1 ∷ 2 ∷ [])
    × (t'.outbound_shutdown ≡ true)
unfolding ByteStream.remaining_capacity
read_outbound-Carries_example =
    read_outbound-Carries small_adapter small_stream (λ d. d.0) (λ d. d.1) small_stream-IsPipe
      small_thread ([], []) (1 ∷ 2 ∷ []) (omega arith) (omega arith) refl

-- A stream that takes all that is written to it, and whether it has been shut down.
abbrev ending_stream : Stream (List ℕ × Bool)
ending_stream = record {
  read = λ d n. some ([], d);
  write = λ (r, b) bytes. some (length bytes, (r ++ bytes, b));
  shutdown_write = λ (r, b). some (r, true);
  eof = λ d. false;
  closed = λ d. false;
  read_count = λ d. 0;
  write_count = λ d. length d.0;
}

abbrev counted_of : Option (ℕ × (List ℕ × Bool)) → ℕ × (List ℕ × Bool)
counted_of o = get_or o (0, ([], false))

ending_stream-IsPipe : IsPipe ending_stream (λ d. d.0) (λ d. [])
ending_stream-IsPipe = record {
  writes = λ d d' n bytes e.
      let both = ap counted_of e in
      let count : length bytes ≡ n = ap (λ (r : ℕ × (List ℕ × Bool)). r.0) both in
      (
        omega (arith, count),
        sym (ap (λ (r : ℕ × (List ℕ × Bool)). r.1.0) both)
            ∙ ap (λ l. d.0 ++ l) (sym (take-all n bytes (omega (arith, count)))),
      );
  reads = λ d d' n bytes e.
      let both = ap (λ o. get_or o ([], d)) e in
      let got : [] ≡ bytes = ap (λ (r : List ℕ × (List ℕ × Bool)). r.0) both in
      (omega (arith, ap length got), ap (λ l. l ++ []) got);
  reads_apart = λ d d' n bytes e.
      ap (λ (o : Option (List ℕ × (List ℕ × Bool))). (get_or o ([], d)).1.0) (sym e);
  shutdowns = λ d d' e. ap (λ (o : Option (List ℕ × Bool)). (get_or o d).0) (sym e);
}

ending_stream-ShutsDown : ShutsDown ending_stream (λ d. d.1)
ending_stream-ShutsDown = record {
  by_write =
      λ d d' n bytes e. ap (λ (o : Option (ℕ × (List ℕ × Bool))). (get_or o (n, d)).1.1) (sym e);
  by_shutdown = λ d d' e. ap (λ (o : Option (List ℕ × Bool)). (get_or o d).1) (sym e);
}

-- Three bytes, and the end.
abbrev three_bytes : ByteStream
three_bytes = ByteStream.end_input ((ByteStream.write (ByteStream.new 8) (7 ∷ 8 ∷ 9 ∷ [])).1)

abbrev holding_thread : TcpThread ℕ (List ℕ × Bool)
holding_thread = record {
  tcp = set_inbound open_connection three_bytes;
  datagram_adapter = 0;
  thread_data = ([], false);
  inbound_shutdown = false;
  outbound_shutdown = false;
  fully_acked = false;
}

abbrev handed_thread : TcpThread ℕ (List ℕ × Bool)
handed_thread = record holding_thread {
  tcp = set_inbound open_connection (ByteStream.pop_output three_bytes 3);
  thread_data = (7 ∷ 8 ∷ 9 ∷ [], true);
  inbound_shutdown = true;
}

three_bytes-IsValid : Invariant.IsValid three_bytes
unfolding ByteStream.end_input
three_bytes-IsValid =
    let v =
      Invariant.write-IsValid (ByteStream.new 8) (7 ∷ 8 ∷ 9 ∷ [])
        (Invariant.new-IsValid 8 (omega arith)) in
    omega (arith, v)

handed_run : write_inbound small_adapter ending_stream holding_thread ≡ some handed_thread
unfolding write_inbound ByteStream.write ByteStream.peek_output ByteStream.pop_output
    ByteStream.end_input
handed_run = refl

write_inbound-Carries_example :
    (handed_thread.thread_data.0 ++ (inbound_stream handed_thread.tcp).buffer ≡ three_bytes.buffer)
    × Invariant.IsValid (inbound_stream handed_thread.tcp)
    × (true ≡ (finished (inbound_stream handed_thread.tcp) || false))
    × (true ≡ (finished (inbound_stream handed_thread.tcp) || false))
write_inbound-Carries_example =
    write_inbound-Carries small_adapter ending_stream (λ d. d.0) (λ d. []) ending_stream-IsPipe
      (λ d. d.1) ending_stream-ShutsDown holding_thread handed_thread three_bytes-IsValid handed_run

abbrev fresh_socket : SpongeSocket ℕ (List ℕ × List ℕ)
fresh_socket = record { has_tcp = false; thread = small_thread; eventloop = [] }

abbrev still : Surroundings ℕ (List ℕ × List ℕ)
still = record {
  poll = λ t fds. (Polled.no_event, t);
  timestamp_ms = λ t. 0;
  abort = λ t. false;
  shutdown_owner = λ t. some t;
}

abbrev small_adapter_config : FdAdapterConfig
small_adapter_config = record {
  source = record { ipv4_numeric = 1; port = 80 };
  destination = record { ipv4_numeric = 2; port = 81 };
  loss_rate_dn = 0;
  loss_rate_up = 0;
}

start_lem_example :
    (connected : SpongeSocket ℕ (List ℕ × List ℕ)) × (listening : SpongeSocket ℕ (List ℕ × List ℕ))
    × (start_connect small_adapter small_stream still fresh_socket small_config 7
          small_adapter_config
        ≡ some connected)
    × (start_listen small_adapter small_stream still fresh_socket small_config 7
          small_adapter_config
        ≡ some listening)
    × (summary connected.thread.tcp ≡ of_state State.syn_sent)
    × (summary listening.thread.tcp ≡ of_state State.listen)
    × (connected.eventloop ≡ rules small_adapter small_stream)
    × (listening.eventloop ≡ rules small_adapter small_stream)
    × (connected.thread.datagram_adapter ≡ 0)
    × (listening.thread.datagram_adapter ≡ 0)
start_lem_example =
    (start_lem small_adapter small_stream still fresh_socket small_config 7 small_adapter_config).1
      refl

-- Every call succeeds; a datagram of three bytes is always there.
abbrev small_calls : SocketCalls (List ℕ)
small_calls = record {
  socket = λ k domain type. (value 5, k);
  get_domain = λ k fd. (value (2, 4), k);
  get_type = λ k fd. (value (1, 4), k);
  getsockname = λ k fd. (value (small_adapter_config.source), k);
  getpeername = λ k fd. (value (small_adapter_config.destination), k);
  bind = λ k fd address. (value tt, k);
  connect = λ k fd address. (value tt, k);
  shutdown = λ k fd how. (value tt, k);
  recvfrom = λ k fd n. (value (small_adapter_config.destination, take n (1 ∷ 2 ∷ 3 ∷ []), 3), k);
  sendmsg = λ k fd destination payload. (value (length (joined payload)), k);
  listen = λ k fd backlog. (value tt, k);
  accept = λ k fd. (value 6, k);
  set_reuseaddr = λ k fd on. (value tt, k);
}

abbrev UdpThread : Type 0
UdpThread = TcpThread (TcpOverIpv4Adapter × FdWrapper × List ℕ) (FdWrapper × List ℕ)

abbrev timed_out : UdpThread → List PollFd → Polled × UdpThread
timed_out t fds = (Polled.no_event, t)

udp_rules-Serve_example :
    All
      (λ r.
        (t : UdpThread)
        → serve
            (system
              (udp_adapter small_kernel small_calls)
              (local_stream small_kernel small_calls)
              timed_out)
            t
            r
          ≡ r.callback t)
      (rules (udp_adapter small_kernel small_calls) (local_stream small_kernel small_calls))
udp_rules-Serve_example = udp_rules-Serve small_kernel small_calls timed_out
