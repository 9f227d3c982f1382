-- ===== src/Reassembler/Delivery.antt =====
-- The bytes that a reassembler delivers are those of the stream that its substrings were cut from.
use tcp_impliment.Common.{
  ℕ, ◌+◌, ◌<◌, inl, inr, arith, List, length, All, Bool, true, false, Bool-cases, leb,
  if◌then◌else◌,
}
use native.Mathlib.Decide.{ℕ_discrete}
use tcp_impliment.Common.Words.{u64_mod}
use tcp_impliment.ByteStream
use tcp_impliment.ByteStream.{ByteStream}
use tcp_impliment.Reassembler.{Reassembler, Merged, commit, outside, mark_end, push_substring}
use tcp_impliment.Reassembler.Window.{IsValid, Fits, window_end, window_node, window_node-IsNode}
use tcp_impliment.Reassembler.Commit.{IsReady, extended, commit_front, commit_later}
use tcp_impliment.Reassembler.Push.{
  merged, hi-lt, merged-eq, merged-IsReady, push_outside, push_inside, marked-IsValid,
  marked-IsReady,
}
use tcp_impliment.Reassembler.Bytes.{
  Agrees, Agrees-at, Agrees-append, IsGenuine, merge_loop-IsGenuine, insert_node-IsGenuine,
  window_node-IsGenuine,
}

-- Everything that the reassembler holds is the stream's: what waits in the output buffer is what
-- follows the bytes read, and each kept node stands at its place.
pub record Delivers (T : ℕ → ℕ) (r : Reassembler) : Type 0 where
  pub ready : Agrees T r.output.total_read r.output.buffer
  pub kept : All (IsGenuine T) r.seg_buffer

module _ (T : ℕ → ℕ) where
  buffer-check_end :
      (ends : Bool) (s : ByteStream)
      → Agrees T s.total_read s.buffer
      → let s' = if ends then ByteStream.end_input s else s in Agrees T s'.total_read s'.buffer
  unfolding ByteStream.end_input
  buffer-check_end true s a = a
  buffer-check_end false s a = a

  commit-Delivers :
      (r : Reassembler) (m : Merged)
      → IsValid r
      → r.cur_idx + r.capacity < u64_mod
      → IsReady r m
      → Delivers T r
      → IsGenuine T m.nd
      → All (IsGenuine T) m.rest
      → Delivers T (commit r m)
  commit-Delivers r m v small q d gn g = elim (ℕ_discrete m.nd.start_idx r.cur_idx) [
    | yes e ↦ rw (commit_front r m v small q e) (record {
      ready = buffer-check_end (leb r.input_end_idx (m.nd.end_idx + 1)) (extended r m v small q) (
          Agrees-append T r.output.total_read r.output.buffer m.nd.bytes d.ready (
            Agrees-at T m.nd.start_idx (r.output.total_read + length r.output.buffer) m.nd.bytes
              (omega (arith, v.written, v.stream.counted)) gn));
      kept = g;
    })
    | no e ↦
        rw (commit_later r m v small q e)
          (record { ready = d.ready; kept = insert_node-IsGenuine T m.nd m.rest gn g })
  ]

  -- If a reassembler holds bytes of the stream `T` only, each at its place, and a substring of `T`
  -- is pushed, in any order and with any overlap, then it still does: what a reader gets next is
  -- what `T` has after the bytes read so far.
  pub push_substring-Delivers :
      (r : Reassembler) (bytes : List ℕ) (index : ℕ) (eof : Bool)
      → IsValid r
      → Fits r bytes index
      → Delivers T r
      → Agrees T index bytes
      → Delivers T (push_substring r bytes index eof)
  push_substring-Delivers r bytes index eof v f d a =
      let e = (mark_end r bytes index eof).input_end_idx in
      elim (Bool-cases (outside r bytes index)) [
        | inl o ↦
            rw (push_outside r bytes index v f eof o) (record {
              ready = buffer-check_end (leb e r.cur_idx) r.output d.ready;
              kept = d.kept;
            })
        | inr o ↦
            let nd = window_node r bytes index in
            let g =
              merge_loop-IsGenuine T (window_end r) r.seg_buffer (r.cur_idx + 1) nd
                r.unassembled_bytes (hi-lt r bytes index v f) v.chain
                (window_node-IsNode r bytes index v f o).0 d.kept
                (window_node-IsGenuine T r bytes index a) in
            let g' : IsGenuine T (merged r bytes index).nd
                × All (IsGenuine T) (merged r bytes index).rest =
              rw (merged-eq r bytes index v f o) g in
            rw (push_inside r bytes index v f eof o) (
              commit-Delivers (record r { input_end_idx = e }) (merged r bytes index)
                (marked-IsValid r bytes index v f e) f.window
                (marked-IsReady r bytes index v f e (merged r bytes index)
                  (merged-IsReady r bytes index v f o))
                (record { ready = d.ready; kept = d.kept }) g'.0 g'.1)
      ]
