-- ===== src/Receiver/Bounds.antt =====
-- How much the receiver holds.
use tcp_impliment.Common.{ℕ, ◌+◌, ◌≤◌, ◌<◌, ◌≡◌, arith}
use tcp_impliment.Common.Words.{u32_mod}
use tcp_impliment.WrappingInt.{WrappingInt32}
use tcp_impliment.ByteStream.{buffer_size}
use tcp_impliment.Reassembler.{Reassembler}
use tcp_impliment.Reassembler.Nodes.{total-le}
use tcp_impliment.Reassembler.Window.{IsValid, window_end}
use tcp_impliment.Segment.{TcpSegment}
use tcp_impliment.Receiver.{
  TcpReceiver, stream_out, take_segment, segment_received, window_size, unassembled_bytes,
}
use tcp_impliment.Receiver.Stream.{InStep, Carries, IsNear, segment_received-InStep}

-- The stored nodes and what is buffered share the capacity.
held-le : (r : Reassembler) → IsValid r → r.unassembled_bytes + r.output.size ≤ r.capacity
held-le r v = omega (
  arith,
  total-le (window_end r) (r.cur_idx + 1) r.seg_buffer v.chain
      (omega (arith, v.written, v.same_capacity, v.stream.fits)),
  v.counted,
  v.written,
)

capacity-received :
    (r : TcpReceiver) (seg : TcpSegment) → (segment_received r seg).capacity ≡ r.capacity
unfolding segment_received take_segment
capacity-received r seg = ground arith

-- A receiver in step with its peer never holds more than its capacity, whatever segment of that
-- peer within 2 ^ 31 of the bytes written comes in: what the application has still to read and the
-- window advertised make up the capacity, which stays, and what is kept for later fits into that
-- window.
pub segment_received-Bounded :
    (peer : WrappingInt32) (T : ℕ → ℕ)
    → peer < u32_mod
    → (r : TcpReceiver) (seg : TcpSegment) (i : ℕ) → InStep peer T r
    → Carries peer T seg i
    → IsNear r seg i
    → let r' = segment_received r seg in
      (buffer_size (stream_out r') + window_size r' ≡ r.capacity)
      × (unassembled_bytes r' ≤ window_size r')
unfolding window_size
segment_received-Bounded peer T small r seg i s c n =
    let s' = segment_received-InStep peer T small r seg i s c n in
    let v = s'.valid in
    let r' = segment_received r seg in
    let held = held-le r'.reassembler v in
    let same = capacity-received r seg in
    (
      omega (arith, same, s'.same_capacity, v.same_capacity, v.stream.fits, v.stream.word),
      omega (arith, held, s'.same_capacity, v.same_capacity, v.stream.fits, v.stream.word),
    )
