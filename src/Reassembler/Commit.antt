-- ===== src/Reassembler/Commit.antt =====
-- The end of `push_substring`: the merged node is written, or kept in the set.
use tcp_impliment.Common.{
  ℕ, ◌+◌, ◌≤◌, ◌<◌, ◌≡◌, ◌≢◌, arith, List, ◌++◌, length, Bool, true, false, leb, ◌==◌, take-all,
  length-append, min, if◌then◌else◌,
}
use native.Mathlib.Decide.{ℕ_discrete}
use tcp_impliment.Common.Words.{u64_mod, add64, sub64}
use tcp_impliment.ByteStream
use tcp_impliment.ByteStream.{ByteStream}
use tcp_impliment.ByteStream.Invariant
use tcp_impliment.Reassembler.{Reassembler, Merged, insert_node, check_end, commit}
use tcp_impliment.Reassembler.Nodes.{Chain, total, total-le}
use tcp_impliment.Reassembler.Merge.{IsMerged}
use tcp_impliment.Reassembler.Insert.{insert_node-Chain, insert_node-total, Chain-behind}
use tcp_impliment.Reassembler.Window.{IsValid, window_end}

-- A write that fits is taken whole.
pub write_whole :
    (s : ByteStream) (b : List ℕ)
    → Invariant.IsValid s
    → s.size + length b ≤ s.capacity
    → (ByteStream.write s b).1 ≡ record s {
      buffer = s.buffer ++ b;
      size = s.size + length b;
      total_write = add64 s.total_write (length b);
    }
unfolding ByteStream.write
write_whole s b v h =
    let room : min (length b) (sub64 s.capacity s.size) ≡ length b = omega arith in
    let size : add64 s.size (length b) ≡ s.size + length b = omega arith in
    rw (room, take-all (length b) b (omega arith), size)

-- What the commit is given.
pub record IsReady (r : Reassembler) (m : Merged) : Type 0 where
  pub merged : IsMerged (window_end r) r.cur_idx m
  pub behind : Chain (window_end r) (r.cur_idx + 1) m.rest
  pub counted : m.unassembled ≡ total m.rest

check_end-IsValid :
    (cur e : ℕ) (s : ByteStream) → Invariant.IsValid s → Invariant.IsValid (check_end cur e s)
unfolding ByteStream.end_input
check_end-IsValid cur e s v = ground arith

module _ (r : Reassembler) (m : Merged) (v : IsValid r) (small : r.cur_idx + r.capacity < u64_mod)
    (q : IsReady r m) where
  -- What is next in the stream is written whole.
  pub commit_front :
      m.nd.start_idx ≡ r.cur_idx
      → commit r m ≡ record r {
        output = check_end (m.nd.end_idx + 1) r.input_end_idx (record (r.output) {
          buffer = r.output.buffer ++ m.nd.bytes;
          size = r.output.size + length m.nd.bytes;
          total_write = add64 r.output.total_write (length m.nd.bytes);
        });
        seg_buffer = m.rest;
        cur_idx = m.nd.end_idx + 1;
        unassembled_bytes = m.unassembled;
      }
  unfolding commit
  commit_front e =
      let here : (m.nd.start_idx == r.cur_idx) ≡ true = ground arith in
      let n = q.merged.node in
      let next : add64 m.nd.end_idx 1 ≡ m.nd.end_idx + 1 = omega (arith, n.below, v.written) in
      rw (
        here,
        next,
        write_whole r.output m.nd.bytes v.stream
            (omega (arith, n.below, n.spans, v.written, v.same_capacity)),
      )

  pub commit_later :
      m.nd.start_idx ≢ r.cur_idx
      → commit r m ≡ record r {
        seg_buffer = insert_node m.nd m.rest;
        unassembled_bytes = add64 m.unassembled (length m.nd.bytes);
      }
  unfolding commit
  commit_later e =
      let elsewhere : (m.nd.start_idx == r.cur_idx) ≡ false = ground arith in rw elsewhere

  abbrev pub extended : ByteStream
  extended = record (r.output) {
    buffer = r.output.buffer ++ m.nd.bytes;
    size = r.output.size + length m.nd.bytes;
    total_write = add64 r.output.total_write (length m.nd.bytes);
  }

  extended-IsValid : m.nd.start_idx ≡ r.cur_idx → Invariant.IsValid extended
  extended-IsValid e =
      let n = q.merged.node in
      omega (
        arith,
        e,
        n.below,
        n.spans,
        v.written,
        v.same_capacity,
        v.stream.counted,
        v.stream.totals,
        v.stream.word,
        v.stream.read_word,
        length-append r.output.buffer m.nd.bytes,
      )

  front-Chain : m.nd.start_idx ≡ r.cur_idx → Chain (window_end r) (m.nd.end_idx + 1 + 1) m.rest
  front-Chain e =
      Chain-behind (window_end r) r.cur_idx m.nd m.rest (omega arith) q.behind q.merged.apart

  front-IsValid :
      (ends : Bool)
      → m.nd.start_idx ≡ r.cur_idx
      → IsValid (record r {
        output = if ends then ByteStream.end_input extended else extended;
        seg_buffer = m.rest;
        cur_idx = m.nd.end_idx + 1;
        unassembled_bytes = m.unassembled;
      })
  unfolding ByteStream.end_input
  front-IsValid true e = record {
    stream = check_end-IsValid 0 0 extended (extended-IsValid e);
    same_capacity = v.same_capacity;
    positive = v.positive;
    written = omega (arith, e, v.written, q.merged.node.spans);
    chain = front-Chain e;
    counted = q.counted;
  }
  front-IsValid false e = record {
    stream = extended-IsValid e;
    same_capacity = v.same_capacity;
    positive = v.positive;
    written = omega (arith, e, v.written, q.merged.node.spans);
    chain = front-Chain e;
    counted = q.counted;
  }

  later-Chain :
      m.nd.start_idx ≢ r.cur_idx → Chain (window_end r) (r.cur_idx + 1) (insert_node m.nd m.rest)
  later-Chain e =
      insert_node-Chain (window_end r) (r.cur_idx + 1) m.nd m.rest q.merged.node
        (omega (arith, q.merged.from)) q.behind q.merged.apart

  later-counted :
      m.nd.start_idx ≢ r.cur_idx
      → add64 m.unassembled (length m.nd.bytes) ≡ total (insert_node m.nd m.rest)
  later-counted e =
      let hi = window_end r in
      omega (
        arith,
        insert_node-total hi r.cur_idx m.nd m.rest q.merged.node q.merged.chain q.merged.apart,
        total-le hi (r.cur_idx + 1) (insert_node m.nd m.rest) (later-Chain e)
            (omega (arith, v.written, v.same_capacity, v.stream.fits)),
        q.counted,
        v.written,
      )

  pub commit-IsValid : IsValid (commit r m)
  commit-IsValid = elim (ℕ_discrete m.nd.start_idx r.cur_idx) [
    | yes e ↦ rw (commit_front e) (front-IsValid (leb r.input_end_idx (m.nd.end_idx + 1)) e)
    | no e ↦ rw (commit_later e) (record {
      stream = v.stream;
      same_capacity = v.same_capacity;
      positive = v.positive;
      written = v.written;
      chain = later-Chain e;
      counted = later-counted e;
    })
  ]
