-- ===== src/StreamCopy.antt =====
-- apps/bidirectional_stream_copy.hh and bidirectional_stream_copy.cc: the loop that copies the
-- standard input to a socket and the socket to the standard output, through a byte stream each. The
-- kernel's calls and poll(2) are parameters. The destructors that close the two standard streams at
-- the end are left out.
pub mod Logs
pub mod Steps
pub mod Copied
pub mod Rules
pub mod Copying
pub mod Serving
use tcp_impliment.Common.{
  ℕ, zero, suc, ◌*◌, ◌==◌, Bool, true, false, ◌&&◌, ◌||◌, not, Option, none, some, List, [], ◌∷◌,
  min, ltb, if◌then◌else◌, ◌>>=◌,
}
use tcp_impliment.ByteStream
use tcp_impliment.ByteStream.{ByteStream}
use tcp_impliment.Buffer.BufferViewList
use tcp_impliment.FileDescriptor
use tcp_impliment.FileDescriptor.{Kernel, FdWrapper}
use tcp_impliment.Socket
use tcp_impliment.Socket.{SocketCalls, shut_wr}
use tcp_impliment.EventLoop.{Direction, Rule, is_exit, PollFd, Polled, System, wait_next_event}

abbrev pub max_copy_length : ℕ
max_copy_length = 65536

abbrev pub stream_size : ℕ
stream_size = 1048576

-- The descriptors of <unistd.h>.
abbrev pub stdin_fileno : ℕ
stdin_fileno = 0

abbrev pub stdout_fileno : ℕ
stdout_fileno = 1

-- What the rules work on.
pub record Copy {ℓ} (K : Type ℓ) : Type ℓ where
  pub socket : FdWrapper
  pub input : FdWrapper
  pub output : FdWrapper
  pub outbound : ByteStream
  pub inbound : ByteStream
  pub outbound_shutdown : Bool
  pub inbound_shutdown : Bool
  pub kernel_state : K

-- A stream behind a write of what was read, at its end if the descriptor is.
abbrev pub fill : ByteStream → List ℕ → Bool → ByteStream
fill s bytes at_eof =
    let s' = (ByteStream.write s bytes).1 in if at_eof then ByteStream.end_input s' else s'

-- The bytes that are offered to a descriptor.
abbrev pub offered : ByteStream → List ℕ
offered s = ByteStream.peek_output s (min max_copy_length (ByteStream.buffer_size s))

abbrev pub wants_more : ByteStream → ByteStream → Bool
wants_more s other =
    not s.error_flag && ltb 0 (ByteStream.remaining_capacity s) && not other.error_flag

abbrev pub has_output : ByteStream → Bool → Bool
has_output s done = not (ByteStream.buffer_empty s) || ByteStream.eof s && not done

module _ {ℓ} {K : Type ℓ} (kernel : Kernel K) (calls : SocketCalls K) where
  abbrev pub end_outbound : Copy K → Copy K
  end_outbound c = record c { outbound = ByteStream.end_input c.outbound }

  abbrev pub end_inbound : Copy K → Copy K
  end_inbound c = record c { inbound = ByteStream.end_input c.inbound }

  -- Rule 1.
  unfoldable pub read_input : Copy K → Option (Copy K)
  read_input c =
      FileDescriptor.read kernel (c.input, c.kernel_state)
        (ByteStream.remaining_capacity c.outbound)
      >>= λ r.
          some
            (record c { outbound = fill c.outbound r.0 r.1.eof; input = r.1; kernel_state = r.2 })

  -- Rule 2.
  abbrev pub shutdown_outbound : Copy K → Option (Copy K)
  shutdown_outbound c = Socket.shutdown calls (c.socket, c.kernel_state) shut_wr >>= λ r.
      some (record c { socket = r.0; kernel_state = r.1; outbound_shutdown = true })

  unfoldable pub write_socket : Copy K → Option (Copy K)
  write_socket c =
      FileDescriptor.write kernel (c.socket, c.kernel_state)
        (BufferViewList.of_view (offered c.outbound)) false
      >>= λ r.
          let outbound = ByteStream.pop_output c.outbound r.0 in
          let c' = record c { outbound = outbound; socket = r.1; kernel_state = r.2 } in
          if ByteStream.eof outbound then shutdown_outbound c' else some c'

  -- Rule 3.
  unfoldable pub read_socket : Copy K → Option (Copy K)
  read_socket c =
      FileDescriptor.read kernel (c.socket, c.kernel_state)
        (ByteStream.remaining_capacity c.inbound)
      >>= λ r.
          some (record c { inbound = fill c.inbound r.0 r.1.eof; socket = r.1; kernel_state = r.2 })

  -- Rule 4.
  abbrev pub close_output : Copy K → Option (Copy K)
  close_output c = FileDescriptor.close kernel (c.output, c.kernel_state) >>= λ r.
      some (record c { output = r.0; kernel_state = r.1; inbound_shutdown = true })

  unfoldable pub write_output : Copy K → Option (Copy K)
  write_output c =
      FileDescriptor.write kernel (c.output, c.kernel_state)
        (BufferViewList.of_view (offered c.inbound)) false
      >>= λ r.
          let inbound = ByteStream.pop_output c.inbound r.0 in
          let c' = record c { inbound = inbound; output = r.1; kernel_state = r.2 } in
          if ByteStream.eof inbound then close_output c' else some c'

  -- `socket` is the number of the socket's descriptor.
  abbrev pub input_rule : Rule (Copy K)
  input_rule = record {
    fd = stdin_fileno;
    direction = Direction.in_;
    callback = read_input;
    interest = λ c. wants_more c.outbound c.inbound;
    cancel = end_outbound;
  }

  abbrev pub socket_out_rule : ℕ → Rule (Copy K)
  socket_out_rule socket = record {
    fd = socket;
    direction = Direction.out;
    callback = write_socket;
    interest = λ c. has_output c.outbound c.outbound_shutdown;
    cancel = end_outbound;
  }

  abbrev pub socket_in_rule : ℕ → Rule (Copy K)
  socket_in_rule socket = record {
    fd = socket;
    direction = Direction.in_;
    callback = read_socket;
    interest = λ c. wants_more c.inbound c.outbound;
    cancel = end_inbound;
  }

  abbrev pub output_rule : Rule (Copy K)
  output_rule = record {
    fd = stdout_fileno;
    direction = Direction.out;
    callback = write_output;
    interest = λ c. has_output c.inbound c.inbound_shutdown;
    cancel = end_inbound;
  }

  -- As they are added.
  abbrev pub rules : ℕ → List (Rule (Copy K))
  rules socket = input_rule ∷ socket_out_rule socket ∷ socket_in_rule socket ∷ output_rule ∷ []

  abbrev pub descriptor : Copy K → ℕ → FdWrapper
  descriptor c fd =
      if fd == stdin_fileno then c.input else if fd == stdout_fileno then c.output else c.socket

  abbrev pub polled : Copy K → Polled × K → Polled × Copy K
  polled c (found, k) = (found, record c { kernel_state = k })

  abbrev pub system : (K → List PollFd → Polled × K) → System (Copy K)
  system poll = record {
    eof = λ c fd. (descriptor c fd).eof;
    closed = λ c fd. (descriptor c fd).closed;
    read_count = λ c fd. (descriptor c fd).read_count;
    write_count = λ c fd. (descriptor c fd).write_count;
    poll = λ c fds. polled c (poll c.kernel_state fds);
  }

  -- What is set up before the loop: the three descriptors do not block.
  unfoldable pub start : FdWrapper × K → Option (Copy K)
  start (socket, k) = FileDescriptor.set_blocking kernel (socket, k) false >>= λ (socket', k').
      FileDescriptor.set_blocking kernel (FileDescriptor.new stdin_fileno, k') false
      >>= λ (input, k'').
          FileDescriptor.set_blocking kernel (FileDescriptor.new stdout_fileno, k'') false
          >>= λ (output, k'''). some (record {
            socket = socket';
            input = input;
            output = output;
            outbound = ByteStream.new stream_size;
            inbound = ByteStream.new stream_size;
            outbound_shutdown = false;
            inbound_shutdown = false;
            kernel_state = k''';
          })

  -- So many rounds of the loop at most: whether it has ended, and the state. It need not end.
  unfoldable pub copy_loop :
      (K → List PollFd → Polled × K) → ℕ → Copy K → List (Rule (Copy K)) → Option (Bool × Copy K)
  copy_loop poll zero c eventloop = some (false, c)
  copy_loop poll (suc rounds) c eventloop = wait_next_event (system poll) c eventloop >>= λ r.
      elim (is_exit r.0) [ true ↦ some (true, r.2) | false ↦ copy_loop poll rounds r.2 r.1 ]

  abbrev pub bidirectional_stream_copy :
      (K → List PollFd → Polled × K) → ℕ → FdWrapper × K → Option (Bool × Copy K)
  bidirectional_stream_copy poll rounds o =
      start o >>= λ c. copy_loop poll rounds c (rules c.socket.fd)
