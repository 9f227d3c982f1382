-- ===== src/StreamCopy/Steps.antt =====
-- A read into a stream, and a write out of one, against the logs.
use tcp_impliment.Common.{
  if◌then◌else◌, append-nil, length-take, append_assoc, ℕ, ◌≤◌, ◌==◌, ◌≡◌, ◌≢◌, refl, sym, ap, ◌∙◌,
  arith, Bool, true, false, ◌&&◌, some, List, ◌++◌, length, take, min, ltb,
}
use tcp_impliment.Buffer.BufferViewList
use tcp_impliment.ByteStream
use tcp_impliment.ByteStream.{ByteStream}
use tcp_impliment.ByteStream.Invariant
use tcp_impliment.ByteStream.Pieces.{taken-dropped, write_fitting}
use tcp_impliment.EventLoop.{PollFd, Polled}
use tcp_impliment.FileDescriptor
use tcp_impliment.FileDescriptor.{
  FdWrapper, Kernel, at_end, register_read, register_write, max_read,
}
use tcp_impliment.FileDescriptor.Calls.{read_back, write_back}
use tcp_impliment.Socket.{SocketCalls}
use tcp_impliment.StreamCopy.{fill, offered, max_copy_length}
use tcp_impliment.StreamCopy.Logs.{Logs, Documented}

fd-at_end : (f : FdWrapper) (limit : ℕ) (bytes : List ℕ) → (at_end f limit bytes).fd ≡ f.fd
fd-at_end f limit bytes = either (ltb 0 limit && length bytes == 0)
  where
    either : (b : Bool) → (if b then record f { eof = true } else f).fd ≡ f.fd
    either true = refl
    either false = refl

module _ (s : ByteStream) (bytes : List ℕ) where
  fill-buffer :
      (b : Bool)
      → length bytes ≤ ByteStream.remaining_capacity s
      → (fill s bytes b).buffer ≡ s.buffer ++ bytes
  unfolding ByteStream.end_input
  fill-buffer true h = write_fitting s bytes h
  fill-buffer false h = write_fitting s bytes h

  fill-IsValid : (b : Bool) → Invariant.IsValid s → Invariant.IsValid (fill s bytes b)
  unfolding ByteStream.end_input
  fill-IsValid true v = let w = Invariant.write-IsValid s bytes v in omega (arith, w)
  fill-IsValid false v = Invariant.write-IsValid s bytes v

offered-short : (s : ByteStream) → length (offered s) ≤ 65536
unfolding ByteStream.peek_output
offered-short s =
    omega
      (arith, length-take (min s.size (min max_copy_length (ByteStream.buffer_size s))) s.buffer)

size-of_view : (v : List ℕ) → BufferViewList.size (BufferViewList.of_view v) ≡ length v
size-of_view v = omega arith

module _ {ℓ} {K : Type ℓ} (kernel : Kernel K) (calls : SocketCalls K)
    (poll : K → List PollFd → Polled × K) (logs : Logs K)
    (documented : Documented logs kernel calls poll) (s : ByteStream) (f f' : FdWrapper) (k k' : K)
    (valid : Invariant.IsValid s) where
  pub fill-Logged :
      (before bytes : List ℕ)
      → FileDescriptor.read kernel (f, k) (ByteStream.remaining_capacity s) ≡ some (bytes, f', k')
      → before ++ s.buffer ≡ logs.handed k f.fd
      → (before ++ (fill s bytes f'.eof).buffer ≡ logs.handed k' f.fd)
        × Invariant.IsValid (fill s bytes f'.eof)
        × (f'.fd ≡ f.fd)
        × ((other : ℕ) → other ≢ f.fd → logs.handed k' other ≡ logs.handed k other)
        × ((other : ℕ) → logs.sent k' other ≡ logs.sent k other)
  fill-Logged before bytes e held =
      let limit = ByteStream.remaining_capacity s in
      let (short, call, flagged) = read_back kernel f f' k k' limit bytes e in
      let (got, others, kept) = documented.reads k k' f.fd (min max_read limit) bytes call in
      (
        ap (λ l. before ++ l) (fill-buffer s bytes f'.eof short)
            ∙ sym (append_assoc before s.buffer bytes)
            ∙ ap (λ l. l ++ bytes) held
            ∙ sym got,
        fill-IsValid s bytes f'.eof valid,
        ap (λ (x : FdWrapper). x.fd) flagged ∙ fd-at_end f limit bytes,
        others,
        kept,
      )

  pub drain-Logged :
      (after : List ℕ) (n : ℕ)
      → FileDescriptor.write kernel (f, k) (BufferViewList.of_view (offered s)) false
        ≡ some (n, f', k')
      → logs.sent k f.fd ++ s.buffer ≡ after
      → (logs.sent k' f.fd ++ (ByteStream.pop_output s n).buffer ≡ after)
        × Invariant.IsValid (ByteStream.pop_output s n)
        × (f'.fd ≡ f.fd)
        × ((other : ℕ) → other ≢ f.fd → logs.sent k' other ≡ logs.sent k other)
        × ((other : ℕ) → logs.handed k' other ≡ logs.handed k other)
  drain-Logged after n e held =
      let bytes = offered s in
      let views = BufferViewList.of_view bytes in
      let size = size-of_view bytes in
      let (within, call, flagged) =
        write_back kernel f f' k k' views n (omega (arith, size, offered-short s)) e in
      let (took, others, kept) = documented.writes k k' f.fd n views call in
      let pieces =
        taken-dropped s n (min max_copy_length (ByteStream.buffer_size s))
          (omega (arith, size, within)) in
      (
        ap (λ l. l ++ (ByteStream.pop_output s n).buffer)
              (took ∙ ap (λ l. logs.sent k f.fd ++ take n l) (append-nil bytes))
            ∙ append_assoc (logs.sent k f.fd) (take n bytes) (ByteStream.pop_output s n).buffer
            ∙ ap (λ l. logs.sent k f.fd ++ l) pieces
            ∙ held,
        Invariant.pop_output-IsValid s n valid,
        ap (λ (x : FdWrapper). x.fd) flagged,
        others,
        kept,
      )
