-- ===== src/Receiver/Stream.antt =====
-- The receiver puts the peer's byte stream together, whatever segments reach it.
use tcp_impliment.Common.{
  ℕ, ◌+◌, ◌^◌, ◌<◌, ◌≡◌, ◌⊎◌, inl, inr, sym, ap, subst, ◌∙◌, arith, List, [], ◌∷◌, Bool, true,
  false, Bool-cases, some, if◌then◌else◌, if_true, if_false,
}
use tcp_impliment.Common.Words.{u32_mod, u64_mod, add64}
use tcp_impliment.WrappingInt.{WrappingInt32, wrap}
use tcp_impliment.WrappingInt.Unwrap.{unwrap-wrap}
use tcp_impliment.ByteStream.{input_ended}
use tcp_impliment.Reassembler.{Node, Reassembler, push_substring}
use tcp_impliment.Reassembler.Nodes.{Chain, Held}
use tcp_impliment.Reassembler.Stored.{Stored}
use tcp_impliment.Reassembler.Window.{IsValid, Fits, window_end}
use tcp_impliment.Reassembler.Push.{push_substring-IsValid, capacity-push}
use tcp_impliment.Reassembler.Bytes.{Agrees}
use tcp_impliment.Reassembler.Delivery.{Delivers, push_substring-Delivers}
use tcp_impliment.Segment.{TcpSegment}
use tcp_impliment.Receiver.{
  TcpReceiver, stream_out, take_syn, seg_start, beyond, take_segment, segment_received, ackno,
  window_size,
}

-- A segment of the peer whose SYN has the number `peer` and whose stream is `T`: it carries the
-- bytes of the stream from index `i` on, and its number is that of its first byte, or of the SYN.
pub record Carries (peer : WrappingInt32) (T : ℕ → ℕ) (seg : TcpSegment) (i : ℕ) : Type 0 where
  pub content : Agrees T i seg.payload
  pub numbered :
      (seg.header.syn ≡ true × (seg.header.seqno ≡ peer) × (i ≡ 0))
      ⊎ ((seg.header.syn ≡ false) × (seg.header.seqno ≡ wrap (1 + i) peer))

-- The receiver is in step with that peer: once a SYN is taken, its ISN is the number behind it.
pub record InStep (peer : WrappingInt32) (T : ℕ → ℕ) (r : TcpReceiver) : Type 0 where
  pub valid : IsValid r.reassembler
  pub same_capacity : r.capacity ≡ r.reassembler.capacity
  pub synced : r.receive_isn ≡ true → r.isn ≡ wrap 1 peer
  pub delivers : Delivers T r.reassembler

-- The segment lies within 2 ^ 31 of the bytes written, and no index passes 2 ^ 64.
pub record IsNear (r : TcpReceiver) (seg : TcpSegment) (i : ℕ) : Type 0 where
  pub fits : Fits r.reassembler seg.payload i
  pub ahead : i < r.reassembler.cur_idx + 2 ^ 31
  pub behind : r.reassembler.cur_idx < i + 2 ^ 31
  pub word : 1 + i < u64_mod

wrap-suc : (i peer : ℕ) → 1 + i < u64_mod → wrap (1 + i) peer ≡ wrap i (wrap 1 peer)
unfolding wrap
wrap-suc i peer h = omega arith

wrap-lt : (n isn : ℕ) → wrap n isn < u32_mod
unfolding wrap
wrap-lt n isn = omega arith

bytes_written-eq :
    (r : Reassembler) → IsValid r → r.cur_idx < u64_mod → r.output.total_write ≡ r.cur_idx
bytes_written-eq r v h = omega (arith, v.stream.totals, v.written)

-- The ends of `take_segment`.
pub take_segment_idle :
    (r : TcpReceiver) (seg : TcpSegment)
    → (r.receive_isn ≡ false) ⊎ (beyond r seg ≡ true)
    → take_segment r seg ≡ r
unfolding take_segment
take_segment_idle r seg (inl h) = simp h
take_segment_idle r seg (inr b) = elim (Bool-cases r.receive_isn) [
  | inl h ↦ simp (h, b)
  | inr h ↦ simp h
]

pub take_segment_push :
    (r : TcpReceiver) (seg : TcpSegment) (i : ℕ)
    → r.receive_isn ≡ true
    → beyond r seg ≡ false
    → seg_start r seg ≡ i
    → take_segment r seg
      ≡ record r { reassembler = push_substring r.reassembler seg.payload i seg.header.fin }
unfolding take_segment
take_segment_push r seg i h b e =
    if_true _ _ h
    ∙ if_false _ _ b
    ∙ ap (λ k. record r { reassembler = push_substring r.reassembler seg.payload k seg.header.fin })
        e

module _ (peer : WrappingInt32) (T : ℕ → ℕ) (small : peer < u32_mod) where
  pub take_syn-InStep :
      (r : TcpReceiver) (seg : TcpSegment) (i : ℕ)
      → InStep peer T r
      → Carries peer T seg i
      → InStep peer T (take_syn r seg)
  take_syn-InStep r seg i s c = elim c.numbered [
    | inl (e, n, z) ↦ rw e (record {
      valid = s.valid;
      same_capacity = s.same_capacity;
      synced = λ h. ap (wrap 1) n;
      delivers = s.delivers;
    })
    | inr (e, n) ↦ rw e s
  ]

  pub seg_start-eq :
      (r : TcpReceiver) (seg : TcpSegment) (i : ℕ)
      → InStep peer T r
      → r.receive_isn ≡ true
      → Carries peer T seg i
      → IsNear r seg i
      → seg_start r seg ≡ i
  seg_start-eq r seg i s h c n = elim c.numbered [
    | inl (e, m, z) ↦ rw e (sym z)
    | inr (e, m) ↦
        rw
          (
            e,
            m,
            s.synced h,
            wrap-suc i peer n.word,
            bytes_written-eq r.reassembler s.valid (omega (arith, n.behind, n.word, n.fits.window)),
          )
          (unwrap-wrap i (wrap 1 peer) r.reassembler.cur_idx (omega (arith, n.word))
            (wrap-lt 1 peer) (omega (arith, n.fits.window)) n.ahead n.behind)
  ]

  take_segment-InStep :
      (r : TcpReceiver) (seg : TcpSegment) (i : ℕ)
      → InStep peer T r
      → Carries peer T seg i
      → IsNear r seg i
      → InStep peer T (take_segment r seg)
  take_segment-InStep r seg i s c n = elim (Bool-cases r.receive_isn) [
    | inl h ↦ elim (Bool-cases (beyond r seg)) [
      | inl b ↦ subst (InStep peer T) (sym (take_segment_idle r seg (inr b))) s
      | inr b ↦
          subst (InStep peer T) (sym (take_segment_push r seg i h b (seg_start-eq r seg i s h c n)))
            (record {
              valid =
                  push_substring-IsValid r.reassembler seg.payload i s.valid n.fits seg.header.fin;
              same_capacity =
                  s.same_capacity ∙ (capacity-push r.reassembler seg.payload i seg.header.fin);
              synced = s.synced;
              delivers =
                  push_substring-Delivers T r.reassembler seg.payload i seg.header.fin s.valid
                    n.fits s.delivers c.content;
            })
    ]
    | inr h ↦ subst (InStep peer T) (sym (take_segment_idle r seg (inl h))) s
  ]

  pub reassembler-take_syn :
      (r : TcpReceiver) (seg : TcpSegment) → (take_syn r seg).reassembler ≡ r.reassembler
  reassembler-take_syn r seg = ground arith

  pub take_syn-IsNear :
      (r : TcpReceiver) (seg : TcpSegment) (i : ℕ) → IsNear r seg i → IsNear (take_syn r seg) seg i
  take_syn-IsNear r seg i n =
      let e = sym (reassembler-take_syn r seg) in
      record {
        fits = subst (λ a. Fits a seg.payload i) e n.fits;
        ahead = subst (λ a. i < a.cur_idx + 2 ^ 31) e n.ahead;
        behind = subst (λ a. a.cur_idx < i + 2 ^ 31) e n.behind;
        word = n.word;
      }

  -- A receiver that is in step with its peer stays so on every segment of that peer that lies
  -- within 2 ^ 31 of the bytes written: the reassembler stays valid, a SYN fixes the ISN, and the
  -- bytes delivered or kept are those of the peer's stream at their places, whatever the order,
  -- the overlap or the repetition of the segments.
  pub segment_received-InStep :
      (r : TcpReceiver) (seg : TcpSegment) (i : ℕ)
      → InStep peer T r
      → Carries peer T seg i
      → IsNear r seg i
      → InStep peer T (segment_received r seg)
  unfolding segment_received
  segment_received-InStep r seg i s c n =
      take_segment-InStep (take_syn r seg) seg i (take_syn-InStep r seg i s c) c
        (take_syn-IsNear r seg i n)

-- The next byte wanted is not held: a chain of nodes that starts behind it does not reach it.
not-Held : (hi c : ℕ) (lo : ℕ) (xs : List Node) → c < lo → Chain hi lo xs → ¬ Held c xs
not-Held hi c lo [] h ch = λ k. k
not-Held hi c lo (x ∷ xs) h (hl, hx, ch) = elim [
  | inl k ↦ omega arith
  | inr k ↦ not-Held hi c (x.end_idx + 2) xs (omega (arith, hx.spans)) ch k
]

ack_number :
    (peer : WrappingInt32) (ended : Bool) {isn written cur : ℕ}
    → isn ≡ wrap 1 peer
    → written ≡ cur
    → cur + 2 < u64_mod
    → (if ended then some (wrap (add64 1 written) isn) else some (wrap written isn))
      ≡ some (wrap (1 + cur + (if ended then 1 else 0)) peer)
unfolding wrap
ack_number peer true e w h = ap some (omega arith)
ack_number peer false e w h = ap some (omega arith)

-- A receiver in step with its peer acknowledges the first byte that it does not hold: every byte
-- before it is held and it is not, and the number is counted from the peer's SYN, plus one once
-- the stream has ended. The window that goes with it ends where the reassembler's does.
pub ackno_lem :
    (peer : WrappingInt32) (T : ℕ → ℕ) (r : TcpReceiver)
    → InStep peer T r
    → r.receive_isn ≡ true
    → r.reassembler.cur_idx + 2 < u64_mod
    → let cur = r.reassembler.cur_idx in
      (ackno r ≡ some (wrap (1 + cur + (if input_ended (stream_out r) then 1 else 0)) peer))
      × ((i : ℕ) → i < cur → Stored i r.reassembler)
      × (¬ Stored cur r.reassembler)
      × (cur + window_size r ≡ window_end r.reassembler)
unfolding ackno window_size
ackno_lem peer T r s h small =
    let v = s.valid in
    let cur = r.reassembler.cur_idx in
    let w : (stream_out r).total_write ≡ cur = bytes_written-eq r.reassembler v (omega arith) in
    (
      if_true _ _ h ∙ ack_number peer (input_ended (stream_out r)) (s.synced h) w small,
      λ i k. inl k,
      elim [
        | inl k ↦ omega arith
        | inr k ↦
            not-Held (window_end r.reassembler) cur (cur + 1) r.reassembler.seg_buffer (omega arith)
              v.chain k
      ],
      omega (arith, s.same_capacity, v.written, v.same_capacity, v.stream.fits, v.stream.word),
    )
