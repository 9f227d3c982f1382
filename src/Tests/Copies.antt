-- ===== src/Tests/Copies.antt =====
-- Two rounds of the copy between the standard streams and a socket, on a kernel that keeps its logs.
use tcp_impliment.Common.{
  All, ==_iff, if_true, if_false, Bool-cases, inl, inr, ℕ, ◌==◌, ◌≡◌, ◌≢◌, refl, sym, ap, ◌∙◌,
  arith, Bool, true, false, Option, some, List, [], ◌∷◌, ◌++◌, length, take, min, if◌then◌else◌,
}
use tcp_impliment.Buffer.{joined}
use tcp_impliment.ByteStream
use tcp_impliment.EventLoop
use tcp_impliment.EventLoop.{serve, PollFd, Polled, no_revents}
use tcp_impliment.FileDescriptor
use tcp_impliment.FileDescriptor.{Kernel, Returned, value, failure}
use tcp_impliment.Socket.{SocketCalls}
use tcp_impliment.StreamCopy
use tcp_impliment.StreamCopy.{
  rules, system, Copy, bidirectional_stream_copy, copy_loop, start, read_input, write_socket,
  stdin_fileno, stdout_fileno,
}
use tcp_impliment.StreamCopy.Serving.{copy_rules-Serve}
use tcp_impliment.StreamCopy.Logs.{Logs, Documented}
use tcp_impliment.StreamCopy.Copying.{bidirectional_stream_copy-Copies}
use tcp_impliment.Tests.Sockets.{value_or}

-- What was read from each descriptor, and what each has taken.
abbrev Kept : Type 0
Kept = (ℕ → List ℕ) × (ℕ → List ℕ)

abbrev kept_logs : Logs Kept
kept_logs = record { handed = λ k. k.0; sent = λ k. k.1 }

abbrev append_at : (ℕ → List ℕ) → ℕ → List ℕ → ℕ → List ℕ
append_at log fd bytes other = if other == fd then log other ++ bytes else log other

-- At most two bytes are written at a time.
abbrev keeping_kernel : Kernel Kept
keeping_kernel = record {
  read = λ k fd n.
      (value (take n (1 ∷ 2 ∷ 3 ∷ [])), (append_at k.0 fd (take n (1 ∷ 2 ∷ 3 ∷ [])), k.1));
  writev = λ k fd views.
      let n = min 2 (length (joined views)) in
      (value n, (k.0, append_at k.1 fd (take n (joined views))));
  close = λ k fd. (value tt, k);
  get_flags = λ k fd. (value 2, k);
  set_flags = λ k fd flags. (value tt, k);
  o_nonblock = 2048;
}

abbrev keeping_calls : SocketCalls Kept
keeping_calls = record {
  socket = λ k domain type. (value 3, k);
  get_domain = λ k fd. (value (2, 4), k);
  get_type = λ k fd. (value (1, 4), k);
  getsockname = λ k fd. (failure 1, k);
  getpeername = λ k fd. (failure 1, k);
  bind = λ k fd address. (value tt, k);
  connect = λ k fd address. (value tt, k);
  shutdown = λ k fd how. (value tt, k);
  recvfrom = λ k fd n. (failure 11, k);
  sendmsg = λ k fd destination payload. (value (length (joined payload)), k);
  listen = λ k fd backlog. (value tt, k);
  accept = λ k fd. (value 4, k);
  set_reuseaddr = λ k fd on. (value tt, k);
}

-- The standard input can be read and the socket written.
abbrev ready : Kept → List PollFd → Polled × Kept
ready k fds = (
  Polled.events (
      record no_revents { readable = true }
      ∷ record no_revents { writable = true }
      ∷ no_revents
      ∷ no_revents
      ∷ []),
  k,
)

appended :
    (log : ℕ → List ℕ) (fd : ℕ) (bytes : List ℕ)
    → (append_at log fd bytes fd ≡ log fd ++ bytes)
      × ((other : ℕ) → other ≢ fd → append_at log fd bytes other ≡ log other)
appended log fd bytes = (
  if_true _ _ ((==_iff fd fd).1 refl),
  λ other h. elim (Bool-cases (other == fd)) [
    | inl same ↦ absurd (h ((==_iff other fd).0 same))
    | inr apart ↦ if_false _ _ apart
  ],
)

abbrev bytes_or : Returned (List ℕ) → List ℕ
bytes_or (value bytes) = bytes
bytes_or (failure errno) = []

keeping-Documented : Documented kept_logs keeping_kernel keeping_calls ready
keeping-Documented = record {
  reads = λ k k' fd n bytes e.
      let got : take n (1 ∷ 2 ∷ 3 ∷ []) ≡ bytes =
        ap (λ (r : Returned (List ℕ) × Kept). bytes_or r.0) e in
      let (at, apart) = appended k.0 fd (take n (1 ∷ 2 ∷ 3 ∷ [])) in
      (
        ap (λ (r : Returned (List ℕ) × Kept). r.1.0 fd) (sym e) ∙ at ∙ ap (λ l. k.0 fd ++ l) got,
        λ other h. ap (λ (r : Returned (List ℕ) × Kept). r.1.0 other) (sym e) ∙ apart other h,
        λ other. ap (λ (r : Returned (List ℕ) × Kept). r.1.1 other) (sym e),
      );
  writes = λ k k' fd n views e.
      let taken = min 2 (length (joined views)) in
      let count : taken ≡ n = ap (λ (r : Returned ℕ × Kept). value_or r.0) e in
      let (at, apart) = appended k.1 fd (take taken (joined views)) in
      (
        ap (λ (r : Returned ℕ × Kept). r.1.1 fd) (sym e)
            ∙ at
            ∙ ap (λ m. k.1 fd ++ take m (joined views)) count,
        λ other h. ap (λ (r : Returned ℕ × Kept). r.1.1 other) (sym e) ∙ apart other h,
        λ other. ap (λ (r : Returned ℕ × Kept). r.1.0 other) (sym e),
      );
  closes = λ k fd. (λ other. refl, λ other. refl);
  gets_flags = λ k fd. (λ other. refl, λ other. refl);
  sets_flags = λ k fd flags. (λ other. refl, λ other. refl);
  shuts_down = λ k fd how. (λ other. refl, λ other. refl);
  polls = λ k fds. (λ other. refl, λ other. refl);
}

abbrev three : List ℕ
three = 1 ∷ 2 ∷ 3 ∷ []

abbrev nothing : Kept
nothing = (λ fd. [], λ fd. [])

abbrev two_rounds : Option (Bool × Copy Kept)
two_rounds =
    bidirectional_stream_copy keeping_kernel keeping_calls ready 2 (FileDescriptor.new 3, nothing)

-- The state behind these rounds: three bytes were read in each, and two written in the second one.
abbrev copied : Copy Kept
copied = record {
  socket = record (FileDescriptor.new 3) { write_count = 1 };
  input = record (FileDescriptor.new stdin_fileno) { read_count = 2 };
  output = FileDescriptor.new stdout_fileno;
  outbound =
      ByteStream.pop_output
        (ByteStream.write (ByteStream.write (ByteStream.new 1048576) three).1 three).1 2;
  inbound = ByteStream.new 1048576;
  outbound_shutdown = false;
  inbound_shutdown = false;
  kernel_state =
      (append_at (append_at (λ fd. []) 0 three) 0 three, append_at (λ fd. []) 3 (1 ∷ 2 ∷ []));
}

copied_run : two_rounds ≡ some (false, copied)
unfolding StreamCopy.start StreamCopy.copy_loop StreamCopy.read_input StreamCopy.write_socket
    EventLoop.wait_next_event EventLoop.set_up EventLoop.dispatch FileDescriptor.set_blocking
    FileDescriptor.read FileDescriptor.write FileDescriptor.write_loop FileDescriptor.write_once
    ByteStream.write ByteStream.pop_output ByteStream.peek_output ByteStream.remaining_capacity
    tcp_impliment.Buffer.BufferViewList.remove_prefix
copied_run = refl

bidirectional_stream_copy-Copies_example :
    (copied.kernel_state.0 0 ≡ copied.kernel_state.1 3 ++ copied.outbound.buffer)
    × (copied.kernel_state.0 3 ≡ copied.kernel_state.1 1 ++ copied.inbound.buffer)
bidirectional_stream_copy-Copies_example =
    bidirectional_stream_copy-Copies kept_logs keeping_kernel keeping_calls ready keeping-Documented
      2 (FileDescriptor.new 3) nothing false copied (omega arith, omega arith) (refl, refl)
      (refl, refl) copied_run

copy_rules-Serve_example :
    All
      (λ r. (c : Copy Kept) → serve (system keeping_kernel keeping_calls ready) c r ≡ r.callback c)
      (rules keeping_kernel keeping_calls 3)
copy_rules-Serve_example =
    copy_rules-Serve keeping_kernel keeping_calls ready 3 (omega arith, omega arith)
