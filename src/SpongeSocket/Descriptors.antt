-- ===== src/SpongeSocket/Descriptors.antt =====
-- The interfaces of the thread filled by file descriptors: a local stream socket, and the adapter
-- over a UDP socket. Each has what the kernel keeps for its own descriptor.
use tcp_impliment.Common.{
  some_back, bind_back, guard_back, ℕ, ◌≡◌, sym, ap, ◌∙◌, arith, false, Option, some, List, ltb,
  take, ◌>>=◌, All,
}
use tcp_impliment.Common.Words.{add32}
use tcp_impliment.Segment.{TcpSegment}
use tcp_impliment.Buffer.BufferViewList
use tcp_impliment.TcpOverIp.{TcpOverIpv4Adapter, set_listening}
use tcp_impliment.FileDescriptor
use tcp_impliment.FileDescriptor.{
  FdWrapper, Kernel, checked, at_end, max_read, register_read, register_write, written, write_once,
}
use tcp_impliment.FileDescriptor.Calls.{read_counts, write_counts}
use tcp_impliment.Socket
use tcp_impliment.Socket.Calls.{shutdown_back}
use tcp_impliment.Socket.{SocketCalls, ReceivedDatagram, shut_wr}
use tcp_impliment.Adapters.{udp_read, udp_write}
use tcp_impliment.EventLoop.{PollFd, Polled, serve}
use tcp_impliment.SpongeSocket.{Adapter, Stream, TcpThread, rules, system}
use tcp_impliment.SpongeSocket.Progress.{Counts, CountsReads, rules-Serve}

module _ {ℓ} {K : Type ℓ} (kernel : Kernel K) (calls : SocketCalls K) where
  abbrev pub local_stream : Stream (FdWrapper × K)
  local_stream = record {
    read = λ o limit. FileDescriptor.read kernel o limit >>= λ (bytes, f, k). some (bytes, (f, k));
    write = λ o bytes.
        FileDescriptor.write kernel o (BufferViewList.of_view bytes) false >>= λ (n, f, k).
        some (n, (f, k));
    shutdown_write = λ o. Socket.shutdown calls o shut_wr;
    eof = λ o. o.0.eof;
    closed = λ o. o.0.closed;
    read_count = λ o. o.0.read_count;
    write_count = λ o. o.0.write_count;
  }

  -- `TCPOverUDPSocketAdapter`; its `tick` does nothing.
  abbrev pub udp_adapter : Adapter (TcpOverIpv4Adapter × FdWrapper × K)
  udp_adapter = record {
    read = λ (a, f, k). Socket.recv calls (f, k) 65536 >>= λ (d, f', k').
        let (a', seg) = udp_read a d.source_address d.payload in some ((a', f', k'), seg);
    write = λ (a, f, k) seg. udp_write a seg >>= λ (destination, payload).
        Socket.sendto calls (f, k) destination payload >>= λ (f', k'). some (a, f', k');
    tick = λ a ms. some a;
    set_config = λ (a, f, k) cfg. (record a { cfg = cfg }, f, k);
    set_listening = λ (a, f, k) l. (set_listening a l, f, k);
    eof = λ a. a.1.eof;
    closed = λ a. a.1.closed;
    read_count = λ a. a.1.read_count;
    write_count = λ a. a.1.write_count;
  }

  stream-Counts : Counts local_stream
  stream-Counts = record {
    stream_reads = λ (f, k) d' n bytes e.
        let ((got, f1, k1), read, done) =
          bind_back (FileDescriptor.read kernel (f, k) n) _ (bytes, d') e in
        ap (λ (r : List ℕ × (FdWrapper × K)). r.1.0.read_count) (sym (some_back _ _ done))
        ∙ read_counts kernel f f1 k k1 n got read;
    stream_writes = λ (f, k) d' n bytes e.
        let ((m, f1, k1), wrote, done) =
          bind_back (FileDescriptor.write kernel (f, k) (BufferViewList.of_view bytes) false) _
            (n, d') e in
        ap (λ (r : ℕ × (FdWrapper × K)). r.1.0.write_count) (sym (some_back _ _ done))
        ∙ write_counts kernel f f1 k k1 (BufferViewList.of_view bytes) m wrote;
    shutdowns = λ (f, k) (f', k') e.
        ap (λ (x : FdWrapper). x.write_count) (shutdown_back calls f f' k k' e).1;
  }

  adapter-CountsReads : CountsReads udp_adapter
  unfolding Socket.recv
  adapter-CountsReads = record {
    adapter_reads = λ (a, f, k) (a', f', k') seg e.
        let ((d, f1, k1), got, done) =
          bind_back (Socket.recv calls (f, k) 65536) _ ((a', f', k'), seg) e in
        let ret = calls.recvfrom k f.fd 65536 in
        let ((source, bytes, n), _, after) = bind_back (checked ret.0) _ (d, f1, k1) got in
        let received : Option (ReceivedDatagram × FdWrapper × K) =
          some
            (record { source_address = source; payload = take n bytes }, register_read f, ret.1) in
        let (_, q) = guard_back (ltb 65536 n) received (d, f1, k1) after in
        let counted : f1.read_count ≡ add32 f.read_count 1 =
          ap (λ (r : ReceivedDatagram × FdWrapper × K). r.1.read_count) (sym (some_back _ _ q)) in
        let same : f'.read_count ≡ f1.read_count =
          ap (λ (r : (TcpOverIpv4Adapter × FdWrapper × K) × Option TcpSegment). r.0.1.read_count)
            (sym (some_back _ _ done)) in
        λ h. omega (arith, counted, same, h);
  }

  -- A `TCPOverUDPSpongeSocket` never busy waits: the event loop serves each of its four rules by the
  -- rule's callback alone, whatever the kernel and the other thread do.
  pub udp_rules-Serve :
      (poll : TcpThread (TcpOverIpv4Adapter × FdWrapper × K) (FdWrapper × K)
        → List PollFd
        → Polled × TcpThread (TcpOverIpv4Adapter × FdWrapper × K) (FdWrapper × K))
      → All
          (λ r.
            (t : TcpThread (TcpOverIpv4Adapter × FdWrapper × K) (FdWrapper × K))
            → serve (system udp_adapter local_stream poll) t r ≡ r.callback t)
          (rules udp_adapter local_stream)
  udp_rules-Serve = rules-Serve udp_adapter local_stream adapter-CountsReads stream-Counts
