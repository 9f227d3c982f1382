-- ===== src/Receiver/Following.antt =====
-- A receiver and the bytes that its reader has taken from it so far.
use tcp_impliment.Common.{
  subst, zero, suc, inl, inr, ℕ, ◌+◌, ◌≤◌, ◌<◌, ◌^◌, ◌≡◌, sym, ap, ◌∙◌, arith, Bool, Bool-cases,
  List, length,
}
use tcp_impliment.Common.Words.{u32_mod}
use tcp_impliment.WrappingInt.{WrappingInt32}
use tcp_impliment.ByteStream
use tcp_impliment.ByteStream.{ByteStream}
use tcp_impliment.Reassembler
use tcp_impliment.Reassembler.{Reassembler, Node, push_substring}
use tcp_impliment.Reassembler.Stored.{Stored, push_substring-Stored}
use tcp_impliment.Reassembler.Bytes.{Agrees}
use tcp_impliment.Segment.{TcpSegment}
use tcp_impliment.Receiver.{TcpReceiver, take_syn, take_segment, beyond, segment_received}
use tcp_impliment.Receiver.Stream.{
  InStep, Carries, IsNear, take_segment_idle, take_segment_push, seg_start-eq, reassembler-take_syn,
  take_syn-InStep, segment_received-InStep,
}

-- The receiver is in step with its peer, whose stream is short, and its reader has taken the
-- beginning of that stream.
pub record IsFollowing (peer : WrappingInt32) (T : ℕ → ℕ) (r : TcpReceiver) (got : List ℕ)
    : Type 0 where
  pub step : InStep peer T r
  pub genuine : Agrees T 0 got
  pub counted : r.reassembler.output.total_read ≡ length got
  pub small_capacity : r.reassembler.capacity ≤ 2 ^ 30
  pub short : (j : ℕ) → Stored j r.reassembler → j < 2 ^ 30

-- A segment of the peer that ends where its short stream does, or before.
pub record IsPart (peer : WrappingInt32) (T : ℕ → ℕ) (seg : TcpSegment) : Type 0 where
  pub index : ℕ
  pub carried : Carries peer T seg index
  pub bounded : index + length seg.payload ≤ 2 ^ 30

total_read-push :
    (r : Reassembler) (bytes : List ℕ) (index : ℕ) (eof : Bool)
    → (push_substring r bytes index eof).output.total_read ≡ r.output.total_read
unfolding push_substring Reassembler.commit ByteStream.write ByteStream.end_input
total_read-push r bytes index eof = ground arith

capacity-push' :
    (r : Reassembler) (bytes : List ℕ) (index : ℕ) (eof : Bool)
    → (push_substring r bytes index eof).capacity ≡ r.capacity
unfolding push_substring Reassembler.commit
capacity-push' r bytes index eof = ground arith

pub below : (c : ℕ) → ((j : ℕ) → j < c → j < 2 ^ 30) → c ≤ 2 ^ 30
below zero h = omega arith
below (suc c) h = let k = h c (omega arith) in omega (arith, k)

module _ (peer : WrappingInt32) (T : ℕ → ℕ) (small : peer < u32_mod) where
  near :
      (r : TcpReceiver) (got : List ℕ) (seg : TcpSegment)
      → IsFollowing peer T r got
      → (p : IsPart peer T seg) → IsNear r seg p.index
  near r got seg f p =
      let c = below r.reassembler.cur_idx (λ j h. f.short j (inl h)) in
      let b = p.bounded in
      let cap = f.small_capacity in
      record {
        fits = record { window = omega (arith, c, cap); indices = omega (arith, b) };
        ahead = omega (arith, b);
        behind = omega (arith, c);
        word = omega (arith, b);
      }

  taken :
      (r : TcpReceiver) (seg : TcpSegment) (got : List ℕ)
      → IsFollowing peer T r got
      → (p : IsPart peer T seg) → InStep peer T (take_segment r seg)
      → IsFollowing peer T (take_segment r seg) got
  taken r seg got f p s = elim (Bool-cases r.receive_isn) [
    | inl h ↦ elim (Bool-cases (beyond r seg)) [
      | inl b ↦ subst (λ x. IsFollowing peer T x got) (sym (take_segment_idle r seg (inr b))) f
      | inr b ↦
          let n = near r got seg f p in
          let e =
            take_segment_push r seg p.index h b
              (seg_start-eq peer T small r seg p.index f.step h p.carried n) in
          let a = r.reassembler in
          subst (λ x. IsFollowing peer T x got) (sym e)
            (record {
              step = subst (InStep peer T) e s;
              genuine = f.genuine;
              counted = total_read-push a seg.payload p.index seg.header.fin ∙ f.counted;
              small_capacity =
                  subst (λ m. m ≤ 2 ^ 30)
                    (sym (capacity-push' a seg.payload p.index seg.header.fin)) f.small_capacity;
              short = λ j k.
                  elim ((push_substring-Stored a seg.payload p.index seg.header.fin j f.step.valid
                      n.fits).0
                    k) [
                      | inl old ↦ f.short j old
                      | inr fresh ↦ (let b' = p.bounded in omega (arith, fresh.to, b'))
                    ];
            })
    ]
    | inr h ↦ subst (λ x. IsFollowing peer T x got) (sym (take_segment_idle r seg (inl h))) f
  ]

  pub segment_received-IsFollowing :
      (r : TcpReceiver) (seg : TcpSegment) (got : List ℕ)
      → IsFollowing peer T r got
      → IsPart peer T seg
      → IsFollowing peer T (segment_received r seg) got
  unfolding segment_received
  segment_received-IsFollowing r seg got f p =
      let same = sym (reassembler-take_syn peer T small r seg) in
      let s = take_syn-InStep peer T small r seg p.index f.step p.carried in
      let f' : IsFollowing peer T (take_syn r seg) got = record {
        step = s;
        genuine = f.genuine;
        counted = ap (λ (a : Reassembler). a.output.total_read) (sym same) ∙ f.counted;
        small_capacity = subst (λ (a : Reassembler). a.capacity ≤ 2 ^ 30) same f.small_capacity;
        short = λ j k. f.short j (subst (Stored j) (sym same) k);
      } in
      taken (take_syn r seg) seg got f' p
        (segment_received-InStep peer T small r seg p.index f.step p.carried (near r got seg f p))
