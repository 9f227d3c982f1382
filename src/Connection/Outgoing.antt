-- ===== src/Connection/Outgoing.antt =====
-- What a call leaves in the queue of segments that go out.
use tcp_impliment.Common.{
  length, ◌^◌, ◌+◌, ◌≤◌, ℕ, min, ◌≡◌, refl, sym, ap, ap₂, subst, ◌∙◌, arith, Option, none, some,
  List, [], ◌∷◌, ◌++◌, map, All, Bool, true, false, Bool-cases, inl, inr, if◌then◌else◌, if_false,
  append_assoc, append-nil, take, leb,
}
use tcp_impliment.WrappingInt.{WrappingInt32}
use tcp_impliment.ByteStream
use tcp_impliment.ByteStream.{ByteStream}
use tcp_impliment.ByteStream.Invariant.{write-IsValid}
use tcp_impliment.ByteStream.Invariant
use tcp_impliment.Segment.{TcpSegment}
use tcp_impliment.Receiver
use tcp_impliment.Receiver.{TcpReceiver}
use tcp_impliment.Sender
use tcp_impliment.Sender.{TcpSender}
use tcp_impliment.Sender.Flight.{IsValid, HasRoom}
use tcp_impliment.Sender.Fill.{fill_window-Filled}
use tcp_impliment.Sender.Sends.{payloads}
use tcp_impliment.Connection.{
  TcpConnection, stamp, stamp_ack, flush, check_close, clean, lingered, stream_both_eof,
  segment_received, write, tick, end_input_stream, connect, max_retx_attempts,
  remaining_outbound_capacity,
}

-- Whether `check_close` leaves the connection closed.
abbrev pub closes : TcpConnection → Bool
closes c = if stream_both_eof c then (if lingered c then true else c.close) else c.close

pub check_close-closes : (c : TcpConnection) → check_close c ≡ record c { close = closes c }
unfolding check_close
check_close-closes c = elim (Bool-cases (stream_both_eof c)) [
  | inl e ↦ elim (Bool-cases (lingered c)) [ inl l ↦ rw (e, l) refl | inr l ↦ rw (e, l) refl ]
  | inr e ↦ rw (e) refl
]

-- A segment that carries the receiver's window, in 16 bits, and its acknowledgment if it has one.
pub record IsStamped (r : TcpReceiver) (seg : TcpSegment) : Type 0 where
  pub win : seg.header.win ≡ min 65535 (Receiver.window_size r)
  pub acks :
      (a : WrappingInt32)
      → Receiver.ackno r ≡ some a
      → (seg.header.ack ≡ true) × (seg.header.ackno ≡ a)

stamp-IsStamped : (r : TcpReceiver) (seg : TcpSegment) → IsStamped r (stamp r seg)
unfolding stamp
stamp-IsStamped r seg = record { win = ground arith; acks = λ a e. rw (e) (refl, refl) }

map-IsStamped : (r : TcpReceiver) (xs : List TcpSegment) → All (IsStamped r) (map (stamp r) xs)
map-IsStamped r [] = tt
map-IsStamped r (x ∷ xs) = (stamp-IsStamped r x, map-IsStamped r xs)

stamp_ack-payload :
    (seg : TcpSegment) (o : Option WrappingInt32) → (stamp_ack seg o).payload ≡ seg.payload
stamp_ack-payload seg none = refl
stamp_ack-payload seg (some a) = refl

payload-stamp : (r : TcpReceiver) (seg : TcpSegment) → (stamp r seg).payload ≡ seg.payload
unfolding stamp
payload-stamp r seg = stamp_ack-payload seg (Receiver.ackno r)

payloads-stamp :
    (r : TcpReceiver) (xs : List TcpSegment) → payloads (map (stamp r) xs) ≡ payloads xs
payloads-stamp r [] = refl
payloads-stamp r (x ∷ xs) = ap₂ (λ a b. a ++ b) (payload-stamp r x) (payloads-stamp r xs)

payloads-append_list : (xs ys : List TcpSegment) → payloads (xs ++ ys) ≡ payloads xs ++ payloads ys
payloads-append_list [] ys = refl
payloads-append_list (x ∷ xs) ys =
    ap (λ r. x.payload ++ r) (payloads-append_list xs ys)
    ∙ sym (append_assoc x.payload (payloads xs) (payloads ys))

-- What a call adds to the queue of the connection.
pub record Emits (c c' : TcpConnection) : Type 0 where
  pub fresh : List TcpSegment
  pub queue : c'.segments_out ≡ c.segments_out ++ fresh
  pub stamped : All (IsStamped c'.receiver) fresh
  pub emptied : c'.sender.segments_out ≡ []

clean-Emits : (c d : TcpConnection) → d.segments_out ≡ c.segments_out → Emits c (clean d)
unfolding clean
clean-Emits c d e = subst (Emits c) (sym (check_close-closes (flush d))) (record {
  fresh = map (stamp d.receiver) d.sender.segments_out;
  queue = ap (λ q. q ++ map (stamp d.receiver) d.sender.segments_out) e;
  stamped = map-IsStamped d.receiver d.sender.segments_out;
  emptied = refl;
})

-- Every call that does not shut the connection down, so a segment without RST and a tick before
-- the eighth retransmission, leaves the sender's queue empty and adds to the end of the
-- connection's queue only segments that carry the receiver's window, cut to 16 bits, and its
-- acknowledgment number if it has one, as they are after the call.
pub calls-Emits :
    (c : TcpConnection) (seg : TcpSegment) (bytes : List ℕ) (ms : ℕ)
    → seg.header.rst ≡ false
    → leb max_retx_attempts (Sender.consecutive_retransmissions c.sender) ≡ false
    → Emits c (segment_received c seg)
      × Emits c (write c bytes).1
      × Emits c (tick c ms)
      × Emits c (end_input_stream c)
      × Emits c (connect c)
unfolding segment_received write tick end_input_stream connect
calls-Emits c seg bytes ms n few = (
  subst (Emits c) (sym (if_false _ _ n)) (clean-Emits c _ refl),
  clean-Emits c _ refl,
  subst (Emits c) (sym (if_false _ _ few)) (clean-Emits c _ refl),
  clean-Emits c _ refl,
  clean-Emits c _ refl,
)

-- The bytes of the stream that the connection has taken and a peer has not been handed: in its
-- queue, in the sender's, and in the stream.
abbrev pub outbound : TcpConnection → List ℕ
outbound c = payloads c.segments_out ++ payloads c.sender.segments_out ++ c.sender.stream.buffer

outbound-clean : (c : TcpConnection) → outbound (clean c) ≡ outbound c
unfolding clean
outbound-clean c =
    let q = payloads c.segments_out in
    let sent = map (stamp c.receiver) c.sender.segments_out in
    ap outbound (check_close-closes (flush c))
    ∙ ap (λ r. r ++ c.sender.stream.buffer)
        (append-nil (payloads (c.segments_out ++ sent))
          ∙ payloads-append_list c.segments_out sent
          ∙ ap (λ r. q ++ r) (payloads-stamp c.receiver c.sender.segments_out))

-- A valid sender `s` that fills its window in the place of the connection's.
module _ (c : TcpConnection) (s : TcpSender) (v : IsValid s) (h : HasRoom s) where
  abbrev filled : TcpConnection
  filled = record c { sender = Sender.fill_window s }

  outbound-filled :
      outbound (clean filled)
      ≡ payloads c.segments_out ++ payloads s.segments_out ++ s.stream.buffer
  outbound-filled =
      let q = payloads c.segments_out in
      outbound-clean filled
      ∙ append_assoc q (payloads filled.sender.segments_out) filled.sender.stream.buffer
      ∙ ap (λ r. q ++ r) (fill_window-Filled s v h).nothing_lost
      ∙ sym (append_assoc q (payloads s.segments_out) s.stream.buffer)

  filled-IsValid :
      IsValid (clean filled).sender × ((clean filled).sender.next_seqno ≤ s.next_seqno + 2 ^ 16)
  unfolding clean
  filled-IsValid =
      let f = fill_window-Filled s v h in
      subst
        (λ (d : TcpConnection). IsValid d.sender × (d.sender.next_seqno ≤ s.next_seqno + 2 ^ 16))
        (sym (check_close-closes (flush filled)))
        (
          record { stream = f.valid.stream; flight = f.valid.flight; edge = f.valid.edge },
          omega (arith, f.inside, v.edge),
        )

abbrev with_stream : TcpConnection → ByteStream → TcpSender
with_stream c stream = record (c.sender) { stream = stream }

written-IsValid :
    (c : TcpConnection) (bytes : List ℕ)
    → IsValid c.sender
    → IsValid (with_stream c (ByteStream.write c.sender.stream bytes).1)
written-IsValid c bytes v = record {
  stream = write-IsValid c.sender.stream bytes v.stream;
  flight = v.flight;
  edge = v.edge;
}

-- On a valid sender far from the end of the 64-bit numbers, `write` adds to the bytes on their way
-- out exactly the part of `bytes` that it reports as taken, at the end, whatever it cuts into
-- segments on the occasion.
pub write-outbound :
    (c : TcpConnection) (bytes : List ℕ)
    → IsValid c.sender
    → HasRoom c.sender
    → outbound (write c bytes).1 ≡ outbound c ++ take (write c bytes).0 bytes
unfolding write ByteStream.write
write-outbound c bytes v h =
    let n = (ByteStream.write c.sender.stream bytes).0 in
    outbound-filled c (with_stream c (ByteStream.write c.sender.stream bytes).1)
      (written-IsValid c bytes v) h
    ∙ sym (
        append_assoc (payloads c.segments_out ++ payloads c.sender.segments_out)
          c.sender.stream.buffer (take n bytes))

-- The sender that `write` leaves is valid, and has sent a window more at most.
pub write-Sender :
    (c : TcpConnection) (bytes : List ℕ)
    → IsValid c.sender
    → HasRoom c.sender
    → IsValid (write c bytes).1.sender
      × ((write c bytes).1.sender.next_seqno ≤ c.sender.next_seqno + 2 ^ 16)
unfolding write
write-Sender c bytes v h =
    filled-IsValid c (with_stream c (ByteStream.write c.sender.stream bytes).1)
      (written-IsValid c bytes v) h

-- Ending the stream leaves the bytes on their way out as they are.
pub end_input_stream-outbound :
    (c : TcpConnection)
    → IsValid c.sender
    → HasRoom c.sender
    → outbound (end_input_stream c) ≡ outbound c
unfolding end_input_stream ByteStream.end_input
end_input_stream-outbound c v h =
    outbound-filled c (with_stream c (ByteStream.end_input c.sender.stream))
      (record { stream = ended; flight = v.flight; edge = v.edge }) h
  where
    ended : Invariant.IsValid (ByteStream.end_input c.sender.stream)
    ended = record {
      counted = v.stream.counted;
      fits = v.stream.fits;
      word = v.stream.word;
      read_word = v.stream.read_word;
      totals = v.stream.totals;
    }

-- What fits is taken whole.
pub write_all_fitting :
    (c : TcpConnection) (bytes : List ℕ)
    → length bytes ≤ remaining_outbound_capacity c
    → (write c bytes).0 ≡ length bytes
unfolding write ByteStream.write ByteStream.remaining_capacity
write_all_fitting c bytes h = omega (arith, h)
