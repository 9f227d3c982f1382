-- ===== src/StreamCopy/Copied.antt =====
-- What the copy keeps: no byte is lost or repeated.
use tcp_impliment.Common.{subst, ℕ, ◌≡◌, sym, ap, ◌∙◌, arith, ◌++◌}
use tcp_impliment.ByteStream
use tcp_impliment.ByteStream.{ByteStream}
use tcp_impliment.ByteStream.Invariant
use tcp_impliment.StreamCopy.{Copy, stdin_fileno, stdout_fileno}
use tcp_impliment.StreamCopy.Logs.{Logs, IsStill}

module _ {ℓ} {K : Type ℓ} (logs : Logs K) (socket : ℕ) where
  -- What was read from the standard input has been written to the socket or is buffered for it, in
  -- order, and the other way round.
  pub record IsCopied (c : Copy K) : Type ℓ where
    pub socket_fd : c.socket.fd ≡ socket
    pub input_fd : c.input.fd ≡ stdin_fileno
    pub output_fd : c.output.fd ≡ stdout_fileno
    pub outbound_valid : Invariant.IsValid c.outbound
    pub inbound_valid : Invariant.IsValid c.inbound
    pub outgoing :
        logs.sent c.kernel_state socket ++ c.outbound.buffer
        ≡ logs.handed c.kernel_state stdin_fileno
    pub incoming :
        logs.sent c.kernel_state stdout_fileno ++ c.inbound.buffer
        ≡ logs.handed c.kernel_state socket

  pub end_input-IsValid :
      (s : ByteStream) → Invariant.IsValid s → Invariant.IsValid (ByteStream.end_input s)
  unfolding ByteStream.end_input
  end_input-IsValid s v = omega (arith, v)

  pub still-IsCopied :
      (c c' : Copy K)
      → IsCopied c
      → IsStill logs c.kernel_state c'.kernel_state
      → (c'.socket.fd ≡ c.socket.fd) × (c'.input.fd ≡ c.input.fd) × (c'.output.fd ≡ c.output.fd)
      → (c'.outbound ≡ c.outbound) × (c'.inbound ≡ c.inbound)
      → IsCopied c'
  still-IsCopied c c' h still fds streams = record {
    socket_fd = fds.0 ∙ h.socket_fd;
    input_fd = fds.1 ∙ h.input_fd;
    output_fd = fds.2 ∙ h.output_fd;
    outbound_valid = subst Invariant.IsValid (sym streams.0) h.outbound_valid;
    inbound_valid = subst Invariant.IsValid (sym streams.1) h.inbound_valid;
    outgoing =
        ap (λ (s : ByteStream). logs.sent c'.kernel_state socket ++ s.buffer) streams.0
        ∙ ap (λ l. l ++ c.outbound.buffer) (still.1 socket)
        ∙ h.outgoing
        ∙ sym (still.0 stdin_fileno);
    incoming =
        ap (λ (s : ByteStream). logs.sent c'.kernel_state stdout_fileno ++ s.buffer) streams.1
        ∙ ap (λ l. l ++ c.inbound.buffer) (still.1 stdout_fileno)
        ∙ h.incoming
        ∙ sym (still.0 socket);
  }
