-- ===== src/Connection/Incoming.antt =====
-- The receiver of a connection, under each call.
use tcp_impliment.Common.{
  subst, ℕ, ◌<◌, ◌≡◌, refl, sym, arith, Bool, true, false, List, if◌then◌else◌, leb,
}
use tcp_impliment.Common.Words.{u32_mod}
use tcp_impliment.WrappingInt.{WrappingInt32}
use tcp_impliment.ByteStream
use tcp_impliment.Segment.{TcpSegment}
use tcp_impliment.Receiver.Following.{IsFollowing, IsPart, segment_received-IsFollowing}
use tcp_impliment.Receiver.Reading.{with_output, set_error-IsFollowing}
use tcp_impliment.Sender
use tcp_impliment.Connection.{
  TcpConnection, bad_shutdown, check_close, clean, segment_received, write, tick, end_input_stream,
  connect, max_retx_attempts,
}

receiver-clean : (c : TcpConnection) → (clean c).receiver ≡ c.receiver
unfolding clean check_close
receiver-clean c = ground arith

pub receiver-write : (c : TcpConnection) (bytes : List ℕ) → (write c bytes).1.receiver ≡ c.receiver
unfolding write
receiver-write c bytes = receiver-clean _

pub receiver-end_input_stream : (c : TcpConnection) → (end_input_stream c).receiver ≡ c.receiver
unfolding end_input_stream
receiver-end_input_stream c = receiver-clean _

pub receiver-connect : (c : TcpConnection) → (connect c).receiver ≡ c.receiver
unfolding connect
receiver-connect c = receiver-clean _

receiver-bad_shutdown :
    (c : TcpConnection) (b : Bool)
    → (bad_shutdown c b).receiver
      ≡ with_output c.receiver (ByteStream.set_error c.receiver.reassembler.output)
unfolding bad_shutdown
receiver-bad_shutdown c true = refl
receiver-bad_shutdown c false = refl

module _ (peer : WrappingInt32) (T : ℕ → ℕ) where
  shut-IsFollowing :
      (c : TcpConnection) (b : Bool) (got : List ℕ)
      → IsFollowing peer T c.receiver got
      → IsFollowing peer T (bad_shutdown c b).receiver got
  shut-IsFollowing c b got f =
      subst (λ r. IsFollowing peer T r got) (sym (receiver-bad_shutdown c b))
        (set_error-IsFollowing peer T c.receiver got f)

  clean-IsFollowing :
      (c : TcpConnection) (got : List ℕ)
      → IsFollowing peer T c.receiver got
      → IsFollowing peer T (clean c).receiver got
  clean-IsFollowing c got f = subst (λ r. IsFollowing peer T r got) (sym (receiver-clean c)) f

  either-IsFollowing :
      (b : Bool) (x y : TcpConnection) (got : List ℕ)
      → IsFollowing peer T x.receiver got
      → IsFollowing peer T y.receiver got
      → IsFollowing peer T (if b then x else y).receiver got
  either-IsFollowing true x y got p q = p
  either-IsFollowing false x y got p q = q

  pub tick-IsFollowing :
      (c : TcpConnection) (ms : ℕ) (got : List ℕ)
      → IsFollowing peer T c.receiver got
      → IsFollowing peer T (tick c ms).receiver got
  unfolding tick
  tick-IsFollowing c ms got f =
      either-IsFollowing (leb max_retx_attempts (Sender.consecutive_retransmissions c.sender)) _ _
        got (shut-IsFollowing _ true got f) (clean-IsFollowing _ got f)

  pub segment_received-Follows :
      peer < u32_mod
      → (c : TcpConnection) (seg : TcpSegment) (got : List ℕ) → IsFollowing peer T c.receiver got
      → IsPart peer T seg
      → IsFollowing peer T (segment_received c seg).receiver got
  unfolding segment_received
  segment_received-Follows small c seg got f p =
      either-IsFollowing seg.header.rst _ _ got (shut-IsFollowing _ false got f)
        (clean-IsFollowing _ got (segment_received-IsFollowing peer T small c.receiver seg got f p))
