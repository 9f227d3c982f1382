-- ===== src/StreamCopy/Serving.antt =====
-- The rules of the copy and the event loop's test for a busy wait.
use tcp_impliment.Common.{
  some_back, bind_back, ℕ, ◌==◌, ◌≡◌, ◌≢◌, ◌⊎◌, inl, inr, sym, ap, ◌∙◌, arith, Bool, true, false,
  some, List, All, if◌then◌else◌, if_false, ==_iff,
}
use tcp_impliment.Common.Words.{add32}
use tcp_impliment.EventLoop.{PollFd, Polled, serve}
use tcp_impliment.EventLoop.Serving.{Serves-serve, next_count}
use tcp_impliment.FileDescriptor
use tcp_impliment.FileDescriptor.{FdWrapper, Kernel}
use tcp_impliment.FileDescriptor.Calls.{read_counts, write_counts, close_back}
use tcp_impliment.Socket
use tcp_impliment.Socket.{SocketCalls, shut_wr}
use tcp_impliment.Socket.Calls.{shutdown_back}
use tcp_impliment.StreamCopy.{
  Copy, input_rule, socket_out_rule, socket_in_rule, output_rule, descriptor, read_input,
  shutdown_outbound, write_socket, read_socket, close_output, write_output, rules, system,
  stdin_fileno, stdout_fileno,
}

not_equal : (m n : ℕ) → m ≢ n → (m == n) ≡ false
not_equal m n h = ground (arith, ==_iff m n)

module _ {ℓ} {K : Type ℓ} (kernel : Kernel K) (calls : SocketCalls K) where
  read_input_counts :
      (c c' : Copy K)
      → read_input kernel calls c ≡ some c'
      → c'.input.read_count ≡ add32 c.input.read_count 1
  unfolding read_input
  read_input_counts c c' e =
      let ((bytes, f, k), read, done) =
        bind_back (FileDescriptor.read kernel (c.input, c.kernel_state) _) _ c' e in
      ap (λ (x : Copy K). x.input.read_count) (sym (some_back _ _ done))
      ∙ read_counts kernel c.input f c.kernel_state k _ bytes read

  read_socket_counts :
      (c c' : Copy K)
      → read_socket kernel calls c ≡ some c'
      → c'.socket.read_count ≡ add32 c.socket.read_count 1
  unfolding read_socket
  read_socket_counts c c' e =
      let ((bytes, f, k), read, done) =
        bind_back (FileDescriptor.read kernel (c.socket, c.kernel_state) _) _ c' e in
      ap (λ (x : Copy K). x.socket.read_count) (sym (some_back _ _ done))
      ∙ read_counts kernel c.socket f c.kernel_state k _ bytes read

  shutdown_outbound_counts :
      (b : Bool) (c c' : Copy K)
      → (if b then shutdown_outbound kernel calls c else some c) ≡ some c'
      → (c'.socket.write_count ≡ c.socket.write_count)
        ⊎ (c'.socket.write_count ≡ add32 c.socket.write_count 1)
  shutdown_outbound_counts false c c' e =
      inl (ap (λ (x : Copy K). x.socket.write_count) (sym (some_back _ _ e)))
  shutdown_outbound_counts true c c' e =
      let ((f, k), shut, done) =
        bind_back (Socket.shutdown calls (c.socket, c.kernel_state) shut_wr) _ c' e in
      let (_, counted) = shutdown_back calls c.socket f c.kernel_state k shut in
      inr (
        ap (λ (x : Copy K). x.socket.write_count) (sym (some_back _ _ done))
        ∙ ap (λ (x : FdWrapper). x.write_count) counted)

  close_output_counts :
      (b : Bool) (c c' : Copy K)
      → (if b then close_output kernel calls c else some c) ≡ some c'
      → c'.output.write_count ≡ c.output.write_count
  close_output_counts false c c' e =
      ap (λ (x : Copy K). x.output.write_count) (sym (some_back _ _ e))
  close_output_counts true c c' e =
      let ((f, k), closed, done) =
        bind_back (FileDescriptor.close kernel (c.output, c.kernel_state)) _ c' e in
      let (_, counted) = close_back kernel c.output f c.kernel_state k closed in
      ap (λ (x : Copy K). x.output.write_count) (sym (some_back _ _ done))
      ∙ ap (λ (x : FdWrapper). x.write_count) counted

  write_socket_counts :
      (c c' : Copy K)
      → write_socket kernel calls c ≡ some c'
      → c.socket.write_count ≢ c'.socket.write_count
  unfolding write_socket
  write_socket_counts c c' e =
      let ((n, f, k), wrote, after) =
        bind_back (FileDescriptor.write kernel (c.socket, c.kernel_state) _ false) _ c' e in
      let once = write_counts kernel c.socket f c.kernel_state k _ n wrote in
      elim (shutdown_outbound_counts _ _ c' after) [
        | inl stays ↦ λ h. omega (arith, once, stays, h)
        | inr again ↦ λ h. omega (arith, once, again, h)
      ]

  write_output_counts :
      (c c' : Copy K)
      → write_output kernel calls c ≡ some c'
      → c'.output.write_count ≡ add32 c.output.write_count 1
  unfolding write_output
  write_output_counts c c' e =
      let ((n, f, k), wrote, after) =
        bind_back (FileDescriptor.write kernel (c.output, c.kernel_state) _ false) _ c' e in
      close_output_counts _ _ c' after ∙ write_counts kernel c.output f c.kernel_state k _ n wrote

  module _ (poll : K → List PollFd → Polled × K) (socket : ℕ)
      (apart : (socket ≢ stdin_fileno) × (socket ≢ stdout_fileno)) where
    is_socket : (c : Copy K) → descriptor kernel calls c socket ≡ c.socket
    is_socket c =
        if_false _ _ (not_equal socket stdin_fileno apart.0)
        ∙ if_false _ _ (not_equal socket stdout_fileno apart.1)

    moved {ℓ'} :
        {B : Type ℓ'} (count : FdWrapper → B) (c c' : Copy K)
        → count c.socket ≢ count c'.socket
        → count (descriptor kernel calls c socket) ≢ count (descriptor kernel calls c' socket)
    moved count c c' h q = h (ap count (sym (is_socket c)) ∙ q ∙ ap count (is_socket c'))

    -- The event loop never takes a rule of the copy for a busy wait, whatever the kernel does, if the
    -- socket's descriptor is none of the standard streams': each callback that returns has read or
    -- written its descriptor.
    pub copy_rules-Serve :
        All
          (λ r. (c : Copy K) → serve (system kernel calls poll) c r ≡ r.callback c)
          (rules kernel calls socket)
    copy_rules-Serve =
        let sys = system kernel calls poll in
        (
          λ c.
              Serves-serve sys (input_rule kernel calls) c
                (λ c' e. inl (next_count _ _ (read_input_counts c c' e))),
          (
            λ c.
                Serves-serve sys (socket_out_rule kernel calls socket) c
                  (λ c' e. inl (moved (λ f. f.write_count) c c' (write_socket_counts c c' e))),
            (
              λ c. Serves-serve sys (socket_in_rule kernel calls socket) c (λ c' e.
                  inl
                    (moved (λ f. f.read_count) c c' (next_count _ _ (read_socket_counts c c' e)))),
              (
                λ c.
                    Serves-serve sys (output_rule kernel calls) c
                      (λ c' e. inl (next_count _ _ (write_output_counts c c' e))),
                tt,
              ),
            ),
          ),
        )
