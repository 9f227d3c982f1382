-- ===== src/Sender/Sends.antt =====
-- The loop of full payloads in `fill_window`, and what sending does to the queue.
use tcp_impliment.Common.{
  ℕ, zero, suc, ◌+◌, ◌-◌, ◌≤◌, ◌<◌, ◌≡◌, refl, sym, ap, ◌∙◌, arith, List, [], ◌∷◌, ◌++◌, length,
  take, drop, All, true, false, Bool-cases, ltb, length-take, length-drop, inl, inr,
  take-append-drop, drop-drop, subst, ltb→lt, not_ltb→le, append_assoc, append-nil,
}
use tcp_impliment.Common.Words.{u16_mod, u64_mod, add32}
use tcp_impliment.Segment.{TcpSegment, length_in_sequence_space}
use tcp_impliment.Sender.{TcpSender, max_payload_size, data_seg, send_new_seg, send_full}
use tcp_impliment.Sender.Flight.{IsValid, send_new_seg-IsValid, next_seqno-send_new_seg}

-- The bytes that a queue of segments carries, in order.
abbrev pub payloads : List TcpSegment → List ℕ
payloads [] = []
payloads (x ∷ xs) = x.payload ++ payloads xs

abbrev pub IsSmall : TcpSegment → Type 0
IsSmall seg = length seg.payload ≤ max_payload_size

pub payloads-append :
    (xs : List TcpSegment) (seg : TcpSegment)
    → payloads (xs ++ seg ∷ []) ≡ payloads xs ++ seg.payload
payloads-append [] seg = append-nil seg.payload
payloads-append (x ∷ xs) seg =
    ap (λ r. x.payload ++ r) (payloads-append xs seg)
    ∙ sym (append_assoc x.payload (payloads xs) seg.payload)

pub All-IsSmall-append :
    (xs : List TcpSegment) (seg : TcpSegment)
    → All IsSmall xs
    → IsSmall seg
    → All IsSmall (xs ++ seg ∷ [])
All-IsSmall-append [] seg a h = (h, tt)
All-IsSmall-append (x ∷ xs) seg (ax, a) h = (ax, All-IsSmall-append xs seg a h)

-- What sending changes of the rest of the sender: nothing.
pub record Keeps (s s' : TcpSender) : Type 0 where
  pub stream : s'.stream ≡ s.stream
  pub edge : s'.wd_right_edge ≡ s.wd_right_edge
  pub isn : s'.isn ≡ s.isn
  pub acked : s'.cur_ack_index ≡ s.cur_ack_index

-- A queue grown by some bytes, in payloads of the allowed size.
pub record Sends (s s' : TcpSender) (before after : List ℕ) : Type 0 where
  pub content : payloads s'.segments_out ++ after ≡ payloads s.segments_out ++ before
  pub sized : All IsSmall s.segments_out → All IsSmall s'.segments_out

pub send_new_seg-Keeps : (s : TcpSender) (seg : TcpSegment) → Keeps s (send_new_seg s seg)
unfolding send_new_seg
send_new_seg-Keeps s seg = record { stream = refl; edge = refl; isn = refl; acked = refl }

pub send_new_seg-Sends :
    (s : TcpSender) (seg : TcpSegment) (after : List ℕ)
    → IsSmall seg
    → Sends s (send_new_seg s seg) (seg.payload ++ after) after
unfolding send_new_seg
send_new_seg-Sends s seg after h = record {
  content =
      ap (λ p. p ++ after) (payloads-append s.segments_out seg)
      ∙ append_assoc (payloads s.segments_out) seg.payload after;
  sized = λ a. All-IsSmall-append s.segments_out seg a h;
}

-- What the loop of full payloads has done when it stops.
pub record Sent (s : TcpSender) (total : List ℕ) (i : ℕ) (s' : TcpSender) (i' : ℕ) : Type 0 where
  pub valid : IsValid s'
  pub inside : (i ≤ i') × (i' ≤ length total)
  pub near_end : length total ≤ i' + max_payload_size
  pub next : s'.next_seqno + i ≡ s.next_seqno + i'
  pub keeps : Keeps s s'
  pub sends : Sends s s' (drop i total) (drop i' total)

Sent-step :
    (s : TcpSender) (total : List ℕ) (i : ℕ)
    → IsValid s
    → i + max_payload_size < length total
    → s.next_seqno + (length total - i) < u64_mod
    → let s' = send_new_seg s (data_seg s (take max_payload_size (drop i total)) false) in
      IsValid s'
      × (s'.next_seqno ≡ s.next_seqno + max_payload_size)
      × Sends s s' (drop i total) (drop (i + max_payload_size) total)
Sent-step s total i v h room =
    let rest = drop i total in
    let part = take max_payload_size rest in
    let seg = data_seg s part false in
    let l : length part ≡ max_payload_size =
      omega (arith, length-take max_payload_size rest, length-drop i total) in
    let fits : s.next_seqno + length_in_sequence_space seg < u64_mod = omega (arith, l) in
    let whole : part ++ drop (i + max_payload_size) total ≡ rest =
      ap (λ t. part ++ t) (sym (drop-drop max_payload_size i total))
      ∙ take-append-drop max_payload_size rest in
    (
      send_new_seg-IsValid s seg v fits (omega (arith, l)) refl,
      next_seqno-send_new_seg s seg fits ∙ omega (arith, l),
      subst (λ b. Sends s (send_new_seg s seg) b (drop (i + max_payload_size) total)) whole
          (send_new_seg-Sends s seg (drop (i + max_payload_size) total) (omega (arith, l))),
    )

pub Keeps-trans : {s t u : TcpSender} → Keeps s t → Keeps t u → Keeps s u
Keeps-trans a b = record {
  stream = b.stream ∙ a.stream;
  edge = b.edge ∙ a.edge;
  isn = b.isn ∙ a.isn;
  acked = b.acked ∙ a.acked;
}

pub Sends-trans :
    {s t u : TcpSender} {x y z : List ℕ} → Sends s t x y → Sends t u y z → Sends s u x z
Sends-trans a b = record { content = b.content ∙ a.content; sized = λ h. b.sized (a.sized h) }

send_full_more :
    (fuel : ℕ) (s : TcpSender) (total : List ℕ) (i : ℕ)
    → ltb (add32 i max_payload_size) (length total) ≡ true
    → send_full (suc fuel) s total i
      ≡ send_full fuel
          (send_new_seg s (data_seg s (take max_payload_size (drop i total)) false))
          total
          (add32 i max_payload_size)
unfolding send_full
send_full_more fuel s total i t = rw (t, send_full)

send_full_stop :
    (fuel : ℕ) (s : TcpSender) (total : List ℕ) (i : ℕ)
    → ltb (add32 i max_payload_size) (length total) ≡ false
    → send_full (suc fuel) s total i ≡ (s, i)
unfolding send_full
send_full_stop fuel s total i t = rw (t, send_full)

pub send_full-Sent :
    (fuel : ℕ) (s : TcpSender) (total : List ℕ) (i : ℕ)
    → IsValid s
    → i ≤ length total
    → length total ≤ i + fuel
    → length total ≤ u16_mod
    → s.next_seqno + (length total - i) < u64_mod
    → Sent s total i (send_full fuel s total i).0 (send_full fuel s total i).1
send_full-Sent zero s total i v h f short room =
    unfold send_full in
    record {
      valid = v;
      inside = omega arith;
      near_end = omega arith;
      next = refl;
      keeps = record { stream = refl; edge = refl; isn = refl; acked = refl };
      sends = record { content = refl; sized = λ a. a };
    }
send_full-Sent (suc fuel) s total i v h f short room =
    let step = add32 i max_payload_size in
    let add : step ≡ i + max_payload_size = omega arith in
    elim (Bool-cases (ltb step (length total))) [
      | inl t ↦
          let more = ltb→lt step (length total) t in
          let st = Sent-step s total i v (omega (arith, more)) room in
          let s' = send_new_seg s (data_seg s (take max_payload_size (drop i total)) false) in
          let ih : Sent s' total (i + max_payload_size)
              (send_full fuel s' total (i + max_payload_size)).0
              (send_full fuel s' total (i + max_payload_size)).1 =
            send_full-Sent fuel s' total (i + max_payload_size) st.0 (omega (arith, more))
              (omega arith) short (omega (arith, st.1, more)) in
          rw (send_full_more fuel s total i t, add)
            (record {
              valid = ih.valid;
              inside = (omega (arith, ih.inside), ih.inside.1);
              near_end = ih.near_end;
              next = omega (arith, ih.next, st.1);
              keeps = Keeps-trans (send_new_seg-Keeps s _) ih.keeps;
              sends = Sends-trans st.2 ih.sends;
            })
      | inr t ↦ rw (send_full_stop fuel s total i t) (record {
        valid = v;
        inside = omega arith;
        near_end = omega (arith, not_ltb→le step (length total) t);
        next = refl;
        keeps = record { stream = refl; edge = refl; isn = refl; acked = refl };
        sends = record { content = refl; sized = λ a. a };
      })
    ]
