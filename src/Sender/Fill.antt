-- ===== src/Sender/Fill.antt =====
-- `fill_window`: what is sent, and how far.
use tcp_impliment.Common.{
  ℕ, ◌+◌, ◌-◌, ◌≤◌, ◌<◌, min, max, ◌≡◌, ◌≢◌, ◌⊎◌, refl, sym, ap, ap₂, subst, ◌∙◌, arith, List, [],
  ◌∷◌, ◌++◌, length, drop, All, Bool, true, false, ◌||◌, ◌&&◌, ◌==◌, Bool-cases, ltb, length-take,
  length-drop, inl, inr, take-append-drop, append_assoc, append-nil, if◌then◌else◌, if_true,
  if_false,
}
use native.Mathlib.Decide.{dec_le}
use tcp_impliment.Common.Words.{u64_mod}
use tcp_impliment.ByteStream
use tcp_impliment.ByteStream.{ByteStream}
use tcp_impliment.ByteStream.Invariant.{pop_output-IsValid}
use tcp_impliment.ByteStream.Fifo.{read_lem}
use tcp_impliment.Segment.{length_in_sequence_space}
use tcp_impliment.Sender.{
  TcpSender, max_payload_size, data_seg, syn_seg, send_new_seg, send_full, send_last, fill_size,
  fill_data, fill_window,
}
use tcp_impliment.Sender.Flight.{IsValid, HasRoom, send_new_seg-IsValid, next_seqno-send_new_seg}
use tcp_impliment.Sender.Sends.{
  payloads, IsSmall, Keeps, Sends, Sent, send_new_seg-Keeps, send_new_seg-Sends, Keeps-trans,
  Sends-trans, send_full-Sent,
}

or-true : (b : Bool) → (b || true) ≡ true
or-true b = ground arith

send_last_fin :
    (s : TcpSender) (rest : List ℕ)
    → let sent = send_new_seg s (data_seg s rest true) in
      send_last s rest true ≡ record sent { fin_ack_index = sent.next_seqno }
unfolding send_last
send_last_fin s rest = if_true _ _ (or-true (ltb 0 (length rest)))

send_last_data :
    (s : TcpSender) (b : ℕ) (bs : List ℕ)
    → send_last s (b ∷ bs) false ≡ send_new_seg s (data_seg s (b ∷ bs) false)
unfolding send_last
send_last_data s b bs = ground arith

send_last_none : (s : TcpSender) → send_last s [] false ≡ s
unfolding send_last
send_last_none s = refl

-- What the last segment does.
record Closed (s s' : TcpSender) (rest : List ℕ) (fin : Bool) : Type 0 where
  valid : IsValid s'
  next : s'.next_seqno ≡ s.next_seqno + length rest + (if fin then 1 else 0)
  keeps : Keeps s s'
  sends : Sends s s' rest []

module _ (s : TcpSender) (v : IsValid s) where
  send_last-new :
      (rest : List ℕ) (fin : Bool)
      → length rest ≤ max_payload_size
      → s.next_seqno + length rest + 1 < u64_mod
      → 0 < length_in_sequence_space (data_seg s rest fin)
      → Closed s (send_new_seg s (data_seg s rest fin)) rest fin
  send_last-new rest fin small room pos =
      let seg = data_seg s rest fin in
      let fits : s.next_seqno + length_in_sequence_space seg < u64_mod = ground arith in
      record {
        valid = send_new_seg-IsValid s seg v fits pos refl;
        next = next_seqno-send_new_seg s seg fits ∙ ground arith;
        keeps = send_new_seg-Keeps s seg;
        sends =
            subst (λ b. Sends s (send_new_seg s seg) b []) (append-nil rest)
              (send_new_seg-Sends s seg [] small);
      }

  send_last-Closed :
      (rest : List ℕ) (fin : Bool)
      → length rest ≤ max_payload_size
      → s.next_seqno + length rest + 1 < u64_mod
      → Closed s (send_last s rest fin) rest fin
  send_last-Closed rest true small room =
      let c = send_last-new rest true small room (omega arith) in
      rw (send_last_fin s rest) (record {
        valid = record { stream = c.valid.stream; flight = c.valid.flight; edge = c.valid.edge };
        next = c.next;
        keeps = record {
          stream = c.keeps.stream;
          edge = c.keeps.edge;
          isn = c.keeps.isn;
          acked = c.keeps.acked;
        };
        sends = record { content = c.sends.content; sized = c.sends.sized };
      })
  send_last-Closed [] false small room = rw (send_last_none s) (record {
    valid = v;
    next = omega arith;
    keeps = record { stream = refl; edge = refl; isn = refl; acked = refl };
    sends = record { content = refl; sized = λ a. a };
  })
  send_last-Closed (b ∷ bs) false small room =
      rw (send_last_data s b bs) (send_last-new (b ∷ bs) false small room (omega arith))

  -- What `fill_window` does behind its early returns.
  fill_size-le :
      (fill_size s ≤ s.wd_right_edge - s.next_seqno)
      × (s.wd_right_edge - s.next_seqno ≤ fill_size s)
  fill_size-le = ground (arith, v.edge)

-- `fill_window` as a whole, against the sender that it starts from.
pub record Filled (s s' : TcpSender) : Type 0 where
  pub valid : IsValid s'
  pub forward : s.next_seqno ≤ s'.next_seqno
  pub inside : s'.next_seqno ≤ max s.next_seqno (max s.wd_right_edge 1)
  pub nothing_lost :
      payloads s'.segments_out ++ s'.stream.buffer ≡ payloads s.segments_out ++ s.stream.buffer
  pub sized : All IsSmall s.segments_out → All IsSmall s'.segments_out
  pub edge : s'.wd_right_edge ≡ s.wd_right_edge
  pub isn : s'.isn ≡ s.isn
  pub acked : s'.cur_ack_index ≡ s.cur_ack_index

module _ (s : TcpSender) (v : IsValid s) (h : HasRoom s) where
  abbrev total : List ℕ
  total = (ByteStream.read s.stream (fill_size s)).0

  abbrev reading : TcpSender
  reading = record s { stream = (ByteStream.read s.stream (fill_size s)).1 }

  abbrev fin : Bool
  fin = ByteStream.eof reading.stream && ltb (length total) (fill_size s)

  abbrev full : TcpSender × ℕ
  full = send_full (length total) reading total 0

  reading-IsValid : IsValid reading
  unfolding ByteStream.read ByteStream.pop_output
  reading-IsValid = record {
    stream = pop_output-IsValid s.stream (fill_size s) v.stream;
    flight = v.flight;
    edge = v.edge;
  }

  length-total : length total ≤ fill_size s
  length-total =
      rw (read_lem s.stream (fill_size s) v.stream).0
        (omega (arith, length-take (fill_size s) s.stream.buffer))

  total-append : total ++ reading.stream.buffer ≡ s.stream.buffer
  total-append =
      let r = read_lem s.stream (fill_size s) v.stream in
      ap₂ (λ a b. a ++ b) r.0 r.1 ∙ take-append-drop (fill_size s) s.stream.buffer

  full-Sent : Sent reading total 0 full.0 full.1
  full-Sent =
      send_full-Sent (length total) reading total 0 reading-IsValid (omega arith) (omega arith)
        (omega (arith, length-total, fill_size-le s v, v.edge))
        (omega (arith, length-total, fill_size-le s v, v.edge))

  last-Closed : Closed full.0 (send_last full.0 (drop full.1 total) fin) (drop full.1 total) fin
  last-Closed =
      let f = full-Sent in
      let l = length-drop full.1 total in
      send_last-Closed full.0 f.valid (drop full.1 total) fin (omega (arith, l, f.near_end))
        (omega (arith, l, f.next, f.inside, length-total, fill_size-le s v, v.edge))

  fin-room : (if fin then 1 else 0) + length total ≤ fill_size s
  fin-room = ground (arith, length-total)

  fill_data-Filled : Filled s (fill_data s)
  unfolding fill_data
  fill_data-Filled =
      let f = full-Sent in
      let c = last-Closed in
      let k = Keeps-trans f.keeps c.keeps in
      let sent = Sends-trans f.sends c.sends in
      let l = length-drop full.1 total in
      record {
        valid = c.valid;
        forward = omega (arith, c.next, f.next, f.inside);
        inside = omega (arith, c.next, f.next, f.inside, l, fin-room, fill_size-le s v);
        nothing_lost =
            ap₂ (λ a b. a ++ b) (sym (append-nil _) ∙ sent.content)
              (ap (λ (t : ByteStream). t.buffer) k.stream)
            ∙ append_assoc (payloads s.segments_out) total reading.stream.buffer
            ∙ ap (λ r. payloads s.segments_out ++ r) total-append;
        sized = sent.sized;
        edge = k.edge;
        isn = k.isn;
        acked = k.acked;
      }

  length-reading : length reading.stream.buffer ≡ length s.stream.buffer - fill_size s
  length-reading =
      ap length (read_lem s.stream (fill_size s) v.stream).1
      ∙ length-drop (fill_size s) s.stream.buffer

  fill_data_fills :
      (length (fill_data s).stream.buffer ≡ 0) ⊎ (s.wd_right_edge ≤ (fill_data s).next_seqno)
  unfolding fill_data
  fill_data_fills =
      let f = full-Sent in
      let c = last-Closed in
      let k = Keeps-trans f.keeps c.keeps in
      let n : length total ≡ min (fill_size s) (length s.stream.buffer) =
        ap length (read_lem s.stream (fill_size s) v.stream).0
        ∙ length-take (fill_size s) s.stream.buffer in
      elim (dec_le (length s.stream.buffer) (fill_size s)) [
        | yes p ↦
            inl (ap (λ (t : ByteStream). length t.buffer) k.stream ∙ length-reading ∙ omega arith)
        | no p ↦
            inr (
              omega
                (arith, c.next, f.next, f.inside, length-drop full.1 total, n, fill_size-le s v))
      ]

  syn-Filled : s.next_seqno ≡ 0 → Filled s (send_new_seg s (syn_seg s))
  syn-Filled e =
      let seg = syn_seg s in
      let k = send_new_seg-Keeps s seg in
      let sent = send_new_seg-Sends s seg s.stream.buffer (omega arith) in
      let n = next_seqno-send_new_seg s seg (omega arith) in
      record {
        valid = send_new_seg-IsValid s seg v (omega arith) (omega arith) refl;
        forward = omega (arith, n);
        inside = omega (arith, n, e);
        nothing_lost =
            ap (λ (t : ByteStream). payloads (send_new_seg s seg).segments_out ++ t.buffer) k.stream
            ∙ sent.content;
        sized = sent.sized;
        edge = k.edge;
        isn = k.isn;
        acked = k.acked;
      }

  -- From a valid sender far from the end of the 64-bit numbers `fill_window` ends with a valid
  -- sender, whose next number has not moved back, and lies within the window's right edge unless it
  -- was past it before or is 1, behind the SYN. The bytes queued and the bytes left in the
  -- stream make up what they made up before, in the same order, and no queued payload is larger
  -- than 1000 bytes if none was before. Window, ISN and acknowledged number stay.
  pub fill_window-Filled : Filled s (fill_window s)
  unfolding fill_window
  fill_window-Filled = elim (Bool-cases (s.next_seqno == s.fin_ack_index)) [
    | inl e ↦ subst (Filled s) (sym (if_true _ _ e)) (record {
      valid = v;
      forward = omega arith;
      inside = omega arith;
      nothing_lost = refl;
      sized = λ a. a;
      edge = refl;
      isn = refl;
      acked = refl;
    })
    | inr e ↦ elim (Bool-cases (s.next_seqno == 0)) [
      | inl z ↦ subst (Filled s) (sym (if_false _ _ e ∙ if_true _ _ z)) (syn-Filled (ground arith))
      | inr z ↦ subst (Filled s) (sym (if_false _ _ e ∙ if_false _ _ z)) fill_data-Filled
    ]
  ]

  -- Once the SYN is sent and as long as the FIN is not, `fill_window` leaves no byte in the stream or has sent
  -- everything up to the window's right edge.
  pub fill_window_fills :
      s.next_seqno ≢ 0
      → s.next_seqno ≢ s.fin_ack_index
      → (length (fill_window s).stream.buffer ≡ 0) ⊎ (s.wd_right_edge ≤ (fill_window s).next_seqno)
  unfolding fill_window
  fill_window_fills z e =
      let ze : (s.next_seqno == 0) ≡ false = ground arith in
      let ee : (s.next_seqno == s.fin_ack_index) ≡ false = ground arith in
      subst (λ (t : TcpSender). (length t.stream.buffer ≡ 0) ⊎ (s.wd_right_edge ≤ t.next_seqno))
        (sym (if_false _ _ ee ∙ if_false _ _ ze)) fill_data_fills
