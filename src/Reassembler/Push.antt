-- ===== src/Reassembler/Push.antt =====
-- `push_substring` keeps the reassembler's invariant, and stores
-- what it is offered and nothing else.
use tcp_impliment.Common.{
  ℕ, ◌+◌, ◌<◌, ◌≡◌, inl, inr, arith, List, Bool, true, false, leb, Bool-cases, if◌then◌else◌,
}
use tcp_impliment.Common.Words.{u64_mod}
use tcp_impliment.ByteStream
use tcp_impliment.ByteStream.{ByteStream}
use tcp_impliment.Reassembler.{
  Reassembler, Merged, check_end, commit, outside, mark_end, merge_all, merge_loop, push_substring,
}
use tcp_impliment.Reassembler.Nodes.{total-le, Chain-weaken}
use tcp_impliment.Reassembler.Commit.{IsReady, commit-IsValid}
use tcp_impliment.Reassembler.Merge.{
  merge_all-merge_loop, merge_loop-IsMerged, merge_loop-Chain, merge_loop-total,
}
use tcp_impliment.Reassembler.Window.{IsValid, Fits, window_end, window_node, window_node-IsNode}

-- The merging step on the substring cut to the window.
abbrev pub merged : Reassembler → List ℕ → ℕ → Merged
merged r bytes index = merge_all r.seg_buffer (window_node r bytes index) r.unassembled_bytes

module _ (r : Reassembler) (bytes : List ℕ) (index : ℕ) (v : IsValid r)
    (f : Fits r bytes index) where
  pub hi-lt : window_end r < u64_mod
  hi-lt = omega (arith, v.written, f.window)

  pub merged-eq :
      outside r bytes index ≡ false
      → merged r bytes index
        ≡ merge_loop r.seg_buffer (window_node r bytes index) r.unassembled_bytes
  merged-eq o =
      merge_all-merge_loop (window_end r) hi-lt r.seg_buffer (r.cur_idx + 1)
        (window_node r bytes index) r.unassembled_bytes v.chain
        (window_node-IsNode r bytes index v f o).0

  pub merged-IsReady : outside r bytes index ≡ false → IsReady r (merged r bytes index)
  merged-IsReady o =
      let hi = window_end r in
      let nd = window_node r bytes index in
      let n = window_node-IsNode r bytes index v f o in
      rw (merged-eq o) (record {
        merged =
            merge_loop-IsMerged hi hi-lt r.seg_buffer r.cur_idx nd r.unassembled_bytes
              (Chain-weaken hi (r.cur_idx + 1) r.cur_idx r.seg_buffer (omega arith) v.chain) n.0
              n.1;
        behind =
            merge_loop-Chain hi hi-lt r.seg_buffer (r.cur_idx + 1) nd r.unassembled_bytes v.chain
              n.0;
        counted = omega (
          arith,
          merge_loop-total hi hi-lt r.seg_buffer (r.cur_idx + 1) nd r.unassembled_bytes 0 v.chain
              n.0 (omega (arith, v.counted))
              (omega (
                arith,
                v.counted,
                hi-lt,
                v.written,
                v.stream.fits,
                v.same_capacity,
                total-le hi (r.cur_idx + 1) r.seg_buffer v.chain,
              )),
        );
      })

  pub push_outside :
      (eof : Bool)
      → outside r bytes index ≡ true
      → let r' = mark_end r bytes index eof in
        push_substring r bytes index eof
        ≡ record r' { output = check_end r.cur_idx r'.input_end_idx r.output }
  unfolding push_substring
  push_outside eof o = rw o

  pub push_inside :
      (eof : Bool)
      → outside r bytes index ≡ false
      → push_substring r bytes index eof
        ≡ commit (mark_end r bytes index eof) (merged r bytes index)
  unfolding push_substring
  push_inside eof o = rw o

  pub marked-IsValid : (e : ℕ) → IsValid (record r { input_end_idx = e })
  marked-IsValid e = record {
    stream = v.stream;
    same_capacity = v.same_capacity;
    positive = v.positive;
    written = v.written;
    chain = v.chain;
    counted = v.counted;
  }

  pub marked-IsReady :
      (e : ℕ) (m : Merged) → IsReady r m → IsReady (record r { input_end_idx = e }) m
  marked-IsReady e m q = record { merged = q.merged; behind = q.behind; counted = q.counted }

  outside-IsValid :
      (e : ℕ) (ends : Bool)
      → IsValid (record r {
        input_end_idx = e;
        output = if ends then ByteStream.end_input r.output else r.output;
      })
  unfolding ByteStream.end_input
  outside-IsValid e false = marked-IsValid e
  outside-IsValid e true = record {
    stream = omega (arith, v.stream);
    same_capacity = v.same_capacity;
    positive = v.positive;
    written = v.written;
    chain = v.chain;
    counted = v.counted;
  }

  -- `push_substring` keeps the invariant on every substring whose indices, like the window's, stay
  -- below 2 ^ 64: the stored nodes stay in order with gaps between them, start behind the next
  -- byte wanted and end inside the window, the counter of unassembled bytes is their size, and what
  -- is next in the stream is written whole.
  pub push_substring-IsValid : (eof : Bool) → IsValid (push_substring r bytes index eof)
  push_substring-IsValid eof = elim (Bool-cases (outside r bytes index)) [
    | inl o ↦
        let e = (mark_end r bytes index eof).input_end_idx in
        rw (push_outside eof o) (outside-IsValid e (leb e r.cur_idx))
    | inr o ↦
        let e = (mark_end r bytes index eof).input_end_idx in
        rw (push_inside eof o) (
          commit-IsValid (record r { input_end_idx = e }) (merged r bytes index) (marked-IsValid e)
            f.window (marked-IsReady e (merged r bytes index) (merged-IsReady o)))
  ]

-- The capacity never changes.
pub capacity-push :
    (r : Reassembler) (bytes : List ℕ) (index : ℕ) (eof : Bool)
    → r.capacity ≡ (push_substring r bytes index eof).capacity
unfolding push_substring commit
capacity-push r bytes index eof = ground arith
