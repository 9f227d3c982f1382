-- ===== src/StreamCopy/Rules.antt =====
-- Each rule keeps it.
use tcp_impliment.Common.{
  some_back, bind_back, subst, ℕ, ◌≡◌, ◌≢◌, refl, sym, ap, ◌∙◌, Bool, true, false, some, List, ◌++◌,
  All, if◌then◌else◌,
}
use tcp_impliment.ByteStream
use tcp_impliment.ByteStream.{ByteStream}
use tcp_impliment.EventLoop.{PollFd, Polled}
use tcp_impliment.EventLoop.Keeping.{Keeps}
use tcp_impliment.FileDescriptor
use tcp_impliment.FileDescriptor.{FdWrapper, Kernel, checked, set_blocking}
use tcp_impliment.FileDescriptor.Calls.{close_back}
use tcp_impliment.Socket
use tcp_impliment.Socket.{SocketCalls, shut_wr}
use tcp_impliment.Socket.Calls.{shutdown_back}
use tcp_impliment.StreamCopy.{
  Copy, fill, end_outbound, end_inbound, read_input, shutdown_outbound, write_socket, read_socket,
  close_output, write_output, rules, stdin_fileno, stdout_fileno,
}
use tcp_impliment.StreamCopy.Logs.{Logs, Documented, IsStill}
use tcp_impliment.StreamCopy.Steps.{fill-Logged, drain-Logged}
use tcp_impliment.StreamCopy.Copied.{IsCopied, end_input-IsValid, still-IsCopied}

module _ {ℓ} {K : Type ℓ} (logs : Logs K) (socket : ℕ) (kernel : Kernel K) (calls : SocketCalls K)
    (poll : K → List PollFd → Polled × K) (documented : Documented logs kernel calls poll)
    (apart : (socket ≢ stdin_fileno) × (socket ≢ stdout_fileno)) where
  other_than : (m n fd : ℕ) → fd ≡ n → m ≢ n → m ≢ fd
  other_than m n fd e h q = h (q ∙ e)

  read_input-IsCopied :
      (c c' : Copy K)
      → IsCopied logs socket c
      → read_input kernel calls c ≡ some c'
      → IsCopied logs socket c'
  unfolding read_input
  read_input-IsCopied c c' h e =
      let k = c.kernel_state in
      let ((bytes, f, k'), read, done) =
        bind_back
          (FileDescriptor.read kernel (c.input, k) (ByteStream.remaining_capacity c.outbound)) _ c'
          e in
      let (got, valid, fd, others, kept) =
        fill-Logged kernel calls poll logs documented c.outbound c.input f k k' h.outbound_valid
          (logs.sent k socket) bytes read (h.outgoing ∙ ap (logs.handed k) (sym h.input_fd)) in
      subst (IsCopied logs socket) (some_back _ _ done) (record {
        socket_fd = h.socket_fd;
        input_fd = fd ∙ h.input_fd;
        output_fd = h.output_fd;
        outbound_valid = valid;
        inbound_valid = h.inbound_valid;
        outgoing =
            ap (λ l. l ++ (fill c.outbound bytes f.eof).buffer) (kept socket)
            ∙ got
            ∙ ap (logs.handed k') h.input_fd;
        incoming =
            ap (λ l. l ++ c.inbound.buffer) (kept stdout_fileno)
            ∙ h.incoming
            ∙ sym (others socket (other_than socket stdin_fileno c.input.fd h.input_fd apart.0));
      })

  read_socket-IsCopied :
      (c c' : Copy K)
      → IsCopied logs socket c
      → read_socket kernel calls c ≡ some c'
      → IsCopied logs socket c'
  unfolding read_socket
  read_socket-IsCopied c c' h e =
      let k = c.kernel_state in
      let ((bytes, f, k'), read, done) =
        bind_back
          (FileDescriptor.read kernel (c.socket, k) (ByteStream.remaining_capacity c.inbound)) _ c'
          e in
      let (got, valid, fd, others, kept) =
        fill-Logged kernel calls poll logs documented c.inbound c.socket f k k' h.inbound_valid
          (logs.sent k stdout_fileno) bytes read
          (h.incoming ∙ ap (logs.handed k) (sym h.socket_fd)) in
      subst (IsCopied logs socket) (some_back _ _ done) (record {
        socket_fd = fd ∙ h.socket_fd;
        input_fd = h.input_fd;
        output_fd = h.output_fd;
        outbound_valid = h.outbound_valid;
        inbound_valid = valid;
        outgoing =
            ap (λ l. l ++ c.outbound.buffer) (kept socket)
            ∙ h.outgoing
            ∙ sym (
                others stdin_fileno
                  (other_than stdin_fileno socket c.socket.fd h.socket_fd (λ q. apart.0 (sym q))));
        incoming =
            ap (λ l. l ++ (fill c.inbound bytes f.eof).buffer) (kept stdout_fileno)
            ∙ got
            ∙ ap (logs.handed k') h.socket_fd;
      })

  shutdown_outbound-IsCopied :
      (b : Bool) (c c' : Copy K)
      → IsCopied logs socket c
      → (if b then shutdown_outbound kernel calls c else some c) ≡ some c'
      → IsCopied logs socket c'
  shutdown_outbound-IsCopied false c c' h e = subst (IsCopied logs socket) (some_back _ _ e) h
  shutdown_outbound-IsCopied true c c' h e =
      let ((f, k'), shut, done) =
        bind_back (Socket.shutdown calls (c.socket, c.kernel_state) shut_wr) _ c' e in
      let (call, counted) = shutdown_back calls c.socket f c.kernel_state k' shut in
      subst (IsCopied logs socket) (some_back _ _ done) (
        still-IsCopied logs socket c
          (record c { socket = f; kernel_state = k'; outbound_shutdown = true }) h
          (subst (IsStill logs c.kernel_state) (ap (λ x. x.1) call)
            (documented.shuts_down c.kernel_state c.socket.fd shut_wr))
          (ap (λ (x : FdWrapper). x.fd) counted, refl, refl) (refl, refl))

  close_output-IsCopied :
      (b : Bool) (c c' : Copy K)
      → IsCopied logs socket c
      → (if b then close_output kernel calls c else some c) ≡ some c'
      → IsCopied logs socket c'
  close_output-IsCopied false c c' h e = subst (IsCopied logs socket) (some_back _ _ e) h
  close_output-IsCopied true c c' h e =
      let ((f, k'), closed, done) =
        bind_back (FileDescriptor.close kernel (c.output, c.kernel_state)) _ c' e in
      let (call, counted) = close_back kernel c.output f c.kernel_state k' closed in
      subst (IsCopied logs socket) (some_back _ _ done) (
        still-IsCopied logs socket c
          (record c { output = f; kernel_state = k'; inbound_shutdown = true }) h
          (subst (IsStill logs c.kernel_state) (ap (λ x. x.1) call)
            (documented.closes c.kernel_state c.output.fd))
          (refl, refl, ap (λ (x : FdWrapper). x.fd) counted) (refl, refl))

  write_socket-IsCopied :
      (c c' : Copy K)
      → IsCopied logs socket c
      → write_socket kernel calls c ≡ some c'
      → IsCopied logs socket c'
  unfolding write_socket
  write_socket-IsCopied c c' h e =
      let k = c.kernel_state in
      let ((n, f, k'), wrote, after) =
        bind_back (FileDescriptor.write kernel (c.socket, k) _ false) _ c' e in
      let popped = ByteStream.pop_output c.outbound n in
      let (put, valid, fd, others, kept) =
        drain-Logged kernel calls poll logs documented c.outbound c.socket f k k' h.outbound_valid
          (logs.handed k stdin_fileno) n wrote
          (ap (λ x. logs.sent k x ++ c.outbound.buffer) h.socket_fd ∙ h.outgoing) in
      shutdown_outbound-IsCopied (ByteStream.eof popped)
        (record c { outbound = popped; socket = f; kernel_state = k' }) c'
        (record {
          socket_fd = fd ∙ h.socket_fd;
          input_fd = h.input_fd;
          output_fd = h.output_fd;
          outbound_valid = valid;
          inbound_valid = h.inbound_valid;
          outgoing =
              ap (λ x. logs.sent k' x ++ popped.buffer) (sym h.socket_fd)
              ∙ put
              ∙ sym (kept stdin_fileno);
          incoming =
              ap (λ l. l ++ c.inbound.buffer)
                (others stdout_fileno
                  (other_than stdout_fileno socket c.socket.fd h.socket_fd (λ q. apart.1 (sym q))))
              ∙ h.incoming
              ∙ sym (kept socket);
        })
        after

  write_output-IsCopied :
      (c c' : Copy K)
      → IsCopied logs socket c
      → write_output kernel calls c ≡ some c'
      → IsCopied logs socket c'
  unfolding write_output
  write_output-IsCopied c c' h e =
      let k = c.kernel_state in
      let ((n, f, k'), wrote, after) =
        bind_back (FileDescriptor.write kernel (c.output, k) _ false) _ c' e in
      let popped = ByteStream.pop_output c.inbound n in
      let (put, valid, fd, others, kept) =
        drain-Logged kernel calls poll logs documented c.inbound c.output f k k' h.inbound_valid
          (logs.handed k socket) n wrote
          (ap (λ x. logs.sent k x ++ c.inbound.buffer) h.output_fd ∙ h.incoming) in
      close_output-IsCopied (ByteStream.eof popped)
        (record c { inbound = popped; output = f; kernel_state = k' }) c'
        (record {
          socket_fd = h.socket_fd;
          input_fd = h.input_fd;
          output_fd = fd ∙ h.output_fd;
          outbound_valid = h.outbound_valid;
          inbound_valid = valid;
          outgoing =
              ap (λ l. l ++ c.outbound.buffer)
                (others socket (other_than socket stdout_fileno c.output.fd h.output_fd apart.1))
              ∙ h.outgoing
              ∙ sym (kept stdin_fileno);
          incoming =
              ap (λ x. logs.sent k' x ++ popped.buffer) (sym h.output_fd) ∙ put ∙ sym (kept socket);
        })
        after

  end_outbound-IsCopied :
      (c : Copy K) → IsCopied logs socket c → IsCopied logs socket (end_outbound kernel calls c)
  unfolding ByteStream.end_input
  end_outbound-IsCopied c h = record {
    socket_fd = h.socket_fd;
    input_fd = h.input_fd;
    output_fd = h.output_fd;
    outbound_valid = end_input-IsValid logs socket c.outbound h.outbound_valid;
    inbound_valid = h.inbound_valid;
    outgoing = h.outgoing;
    incoming = h.incoming;
  }

  end_inbound-IsCopied :
      (c : Copy K) → IsCopied logs socket c → IsCopied logs socket (end_inbound kernel calls c)
  unfolding ByteStream.end_input
  end_inbound-IsCopied c h = record {
    socket_fd = h.socket_fd;
    input_fd = h.input_fd;
    output_fd = h.output_fd;
    outbound_valid = h.outbound_valid;
    inbound_valid = end_input-IsValid logs socket c.inbound h.inbound_valid;
    outgoing = h.outgoing;
    incoming = h.incoming;
  }

  pub rules-Keep : All (Keeps (IsCopied logs socket)) (rules kernel calls socket)
  rules-Keep = (
    record { by_callback = read_input-IsCopied; by_cancel = end_outbound-IsCopied },
    (
      record { by_callback = write_socket-IsCopied; by_cancel = end_outbound-IsCopied },
      (
        record { by_callback = read_socket-IsCopied; by_cancel = end_inbound-IsCopied },
        (record { by_callback = write_output-IsCopied; by_cancel = end_inbound-IsCopied }, tt),
      ),
    ),
  )
