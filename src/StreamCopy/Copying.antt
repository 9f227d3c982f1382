-- ===== src/StreamCopy/Copying.antt =====
-- The whole loop neither loses nor repeats a byte.
use tcp_impliment.Common.{
  some_back, bind_back, subst, ℕ, zero, suc, ◌≡◌, ◌≢◌, refl, sym, ap, ◌∙◌, arith, Bool, true, false,
  some, List, [], ◌++◌, All,
}
use tcp_impliment.ByteStream.Invariant
use tcp_impliment.EventLoop.{Rule, is_exit, PollFd, Polled, wait_next_event}
use tcp_impliment.EventLoop.Keeping.{Keeps, wait_next_event-Keeps}
use tcp_impliment.FileDescriptor
use tcp_impliment.FileDescriptor.{FdWrapper, Kernel, checked, set_blocking}
use tcp_impliment.Socket.{SocketCalls}
use tcp_impliment.StreamCopy.{
  Copy, rules, system, start, copy_loop, bidirectional_stream_copy, stdin_fileno, stdout_fileno,
  stream_size,
}
use tcp_impliment.StreamCopy.Logs.{Logs, Documented, IsStill}
use tcp_impliment.StreamCopy.Copied.{IsCopied, still-IsCopied}
use tcp_impliment.StreamCopy.Rules.{rules-Keep}
use tcp_impliment.FileDescriptor.Calls.{set_blocking_back}

module _ {ℓ} {K : Type ℓ} (logs : Logs K) (kernel : Kernel K) (calls : SocketCalls K)
    (poll : K → List PollFd → Polled × K) (documented : Documented logs kernel calls poll) where
  loop-IsCopied :
      (socket rounds : ℕ) (c c' : Copy K) (eventloop : List (Rule (Copy K))) (ended : Bool)
      → IsCopied logs socket c
      → All (Keeps (IsCopied logs socket)) eventloop
      → copy_loop kernel calls poll rounds c eventloop ≡ some (ended, c')
      → IsCopied logs socket c'
  unfolding copy_loop
  loop-IsCopied socket zero c c' eventloop ended h ks e =
      subst (IsCopied logs socket) (ap (λ x. x.1) (some_back _ _ e)) h
  loop-IsCopied socket (suc rounds) c c' eventloop ended h ks e =
      let ((result, left, c1), waited, after) =
        bind_back (wait_next_event (system kernel calls poll) c eventloop) _ (ended, c') e in
      let (kept, ks') =
        wait_next_event-Keeps (IsCopied logs socket) (system kernel calls poll) polls c c1 eventloop
          left result h ks waited in
      next (is_exit result) left c1 kept
        (λ run. loop-IsCopied socket rounds c1 c' left ended kept ks' run) after
    where
      polls :
          (w : Copy K) (fds : List PollFd)
          → IsCopied logs socket w
          → IsCopied logs socket ((system kernel calls poll).poll w fds).1
      polls w fds v =
          still-IsCopied logs socket w (record w { kernel_state = (poll w.kernel_state fds).1 }) v
            (documented.polls w.kernel_state fds) (refl, refl, refl) (refl, refl)

      next :
          (b : Bool) (left : List (Rule (Copy K))) (c1 : Copy K)
          → IsCopied logs socket c1
          → (copy_loop kernel calls poll rounds c1 left ≡ some (ended, c')
              → IsCopied logs socket c')
          → elim b [ true ↦ some (true, c1) | false ↦ copy_loop kernel calls poll rounds c1 left ]
            ≡ some (ended, c')
          → IsCopied logs socket c'
      next true left c1 v goes_on q =
          subst (IsCopied logs socket) (ap (λ x. x.1) (some_back _ _ q)) v
      next false left c1 v goes_on q = goes_on q

  IsStill-trans : (k k' k'' : K) → IsStill logs k k' → IsStill logs k' k'' → IsStill logs k k''
  IsStill-trans k k' k'' a b = (λ fd. b.0 fd ∙ a.0 fd, λ fd. b.1 fd ∙ a.1 fd)

  set_blocking-IsStill :
      (f f' : FdWrapper) (k k' : K) (b : Bool)
      → set_blocking kernel (f, k) b ≡ some (f', k')
      → (f'.fd ≡ f.fd) × IsStill logs k k'
  set_blocking-IsStill f f' k k' b e =
      let (flags, k1, got, set, same) = set_blocking_back kernel f f' k k' b e in
      (
        ap (λ (x : FdWrapper). x.fd) same,
        IsStill-trans k k1 k' (subst (IsStill logs k) got (documented.gets_flags k f.fd))
            (subst (IsStill logs k1) set (documented.sets_flags k1 f.fd flags)),
      )

  start-IsCopied :
      (f : FdWrapper) (k : K) (c : Copy K)
      → (logs.sent k f.fd ≡ []) × (logs.handed k f.fd ≡ [])
      → (logs.handed k stdin_fileno ≡ []) × (logs.sent k stdout_fileno ≡ [])
      → start kernel calls (f, k) ≡ some c
      → IsCopied logs f.fd c
  unfolding start
  start-IsCopied f k c mine std e =
      let ((f1, k1), first, e1) = bind_back (set_blocking kernel (f, k) false) _ c e in
      let ((input, k2), second, e2) =
        bind_back (set_blocking kernel (FileDescriptor.new stdin_fileno, k1) false) _ c e1 in
      let ((output, k3), third, e3) =
        bind_back (set_blocking kernel (FileDescriptor.new stdout_fileno, k2) false) _ c e2 in
      let a = set_blocking-IsStill f f1 k k1 false first in
      let b = set_blocking-IsStill (FileDescriptor.new stdin_fileno) input k1 k2 false second in
      let d = set_blocking-IsStill (FileDescriptor.new stdout_fileno) output k2 k3 false third in
      let still = IsStill-trans k k1 k3 a.1 (IsStill-trans k1 k2 k3 b.1 d.1) in
      let empty = Invariant.new-IsValid stream_size (omega arith) in
      subst (IsCopied logs f.fd) (some_back _ _ e3) (record {
        socket_fd = a.0;
        input_fd = b.0;
        output_fd = d.0;
        outbound_valid = empty;
        inbound_valid = empty;
        outgoing = ap (λ l. l ++ []) (still.1 f.fd ∙ mine.0) ∙ sym (still.0 stdin_fileno ∙ std.0);
        incoming = ap (λ l. l ++ []) (still.1 stdout_fileno ∙ std.1) ∙ sym (still.0 f.fd ∙ mine.1);
      })

  -- Let nothing have been read from or written to the socket or the standard streams before, and
  -- the socket's descriptor be none of theirs. After any number of rounds of the loop, whatever the
  -- descriptors are ready for and however little each call takes, what was read from the standard
  -- input is what has been written to the socket and behind it what is buffered, in the same order,
  -- and what was read from the socket is what has been written to the standard output and what is
  -- buffered.
  pub bidirectional_stream_copy-Copies :
      (rounds : ℕ) (f : FdWrapper) (k : K) (ended : Bool) (c : Copy K)
      → (f.fd ≢ stdin_fileno) × (f.fd ≢ stdout_fileno)
      → (logs.sent k f.fd ≡ []) × (logs.handed k f.fd ≡ [])
      → (logs.handed k stdin_fileno ≡ []) × (logs.sent k stdout_fileno ≡ [])
      → bidirectional_stream_copy kernel calls poll rounds (f, k) ≡ some (ended, c)
      → (logs.handed c.kernel_state stdin_fileno
          ≡ logs.sent c.kernel_state f.fd ++ c.outbound.buffer)
        × (logs.handed c.kernel_state f.fd
            ≡ logs.sent c.kernel_state stdout_fileno ++ c.inbound.buffer)
  bidirectional_stream_copy-Copies rounds f k ended c apart mine std e =
      let (c0, started, run) = bind_back (start kernel calls (f, k)) _ (ended, c) e in
      let h = start-IsCopied f k c0 mine std started in
      let run' =
        ap (λ s. copy_loop kernel calls poll rounds c0 (rules kernel calls s)) (sym h.socket_fd)
        ∙ run in
      let kept =
        loop-IsCopied f.fd rounds c0 c (rules kernel calls f.fd) ended h
          (rules-Keep logs f.fd kernel calls poll documented apart) run' in
      (sym kept.outgoing, sym kept.incoming)
