-- ===== src/Sender/Acks.antt =====
-- `ack_received`, `tick` and `send_empty_ack`: the sender stays valid, and what each of them does.
use tcp_impliment.Common.{
  ℕ, ◌≤◌, ◌<◌, ◌≡◌, ◌⊎◌, refl, sym, ap, subst, ◌∙◌, arith, List, [], ◌∷◌, Bool, true, false,
  Bool-cases, leb, leb→le, not_leb→lt, inl, inr, if_true, if_false,
}
use tcp_impliment.Sender.{TcpSender, SegNode, drop_acked, take_ack}
use tcp_impliment.Sender.RetxTimer
use tcp_impliment.Sender.RetxTimer.{time_out}
use tcp_impliment.Sender.Flight.{InFlight, IsValid}

-- The first segment left, if any, is not wholly acknowledged.
abbrev pub Unacked : ℕ → List SegNode → Type 0
Unacked ack [] = Unit {0}
Unacked ack (x ∷ xs) = ack < x.ack_index

record Dropped (isn ack cur hi : ℕ) (out : List SegNode × ℕ × Bool) : Type 0 where
  flight : InFlight isn out.1 out.0 hi
  unacked : Unacked ack out.0
  between : (cur ≤ out.1) × ((out.1 ≡ cur) ⊎ (out.1 ≤ ack))

drop_acked_more :
    (ack : ℕ) (x : SegNode) (xs : List SegNode) (cur : ℕ) (any : Bool)
    → leb x.ack_index ack ≡ true
    → drop_acked ack (x ∷ xs) cur any ≡ drop_acked ack xs x.ack_index true
unfolding drop_acked
drop_acked_more ack x xs cur any t = rw (t, drop_acked)

drop_acked_stop :
    (ack : ℕ) (x : SegNode) (xs : List SegNode) (cur : ℕ) (any : Bool)
    → leb x.ack_index ack ≡ false
    → drop_acked ack (x ∷ xs) cur any ≡ (x ∷ xs, cur, any)
unfolding drop_acked
drop_acked_stop ack x xs cur any t = rw (t, drop_acked)

drop_acked-Dropped :
    (isn ack : ℕ) (xs : List SegNode) (cur hi : ℕ) (any : Bool)
    → InFlight isn cur xs hi
    → Dropped isn ack cur hi (drop_acked ack xs cur any)
drop_acked-Dropped isn ack [] cur hi any f =
    unfold drop_acked in record { flight = f; unacked = tt; between = (omega arith, inl refl) }
drop_acked-Dropped isn ack (x ∷ xs) cur hi any (n, p, a, f) =
    elim (Bool-cases (leb x.ack_index ack)) [
      | inl t ↦
          let ih = drop_acked-Dropped isn ack xs x.ack_index hi true f in
          let le = leb→le x.ack_index ack t in
          rw (drop_acked_more ack x xs cur any t) (record {
            flight = ih.flight;
            unacked = ih.unacked;
            between = (omega (arith, ih.between), omega (arith, ih.between));
          })
      | inr t ↦ rw (drop_acked_stop ack x xs cur any t) (record {
        flight = (n, p, a, f);
        unacked = not_leb→lt x.ack_index ack t;
        between = (omega arith, inl refl);
      })
    ]

drop_acked_marks :
    (ack : ℕ) (xs : List SegNode) (cur : ℕ) (any : Bool)
    → (drop_acked ack xs cur any ≡ (xs, cur, any)) ⊎ ((drop_acked ack xs cur any).2 ≡ true)
drop_acked_marks ack [] cur any = unfold drop_acked in inl refl
drop_acked_marks ack (x ∷ xs) cur any = elim (Bool-cases (leb x.ack_index ack)) [
  | inl t ↦ inr (
      ap (λ (o : List SegNode × ℕ × Bool). o.2) (drop_acked_more ack x xs cur any t)
      ∙ elim (drop_acked_marks ack xs x.ack_index true) [
        | inl e ↦ ap (λ (o : List SegNode × ℕ × Bool). o.2) e
        | inr e ↦ e
      ])
  | inr t ↦ inl (drop_acked_stop ack x xs cur any t)
]

-- The timeout is back at its initial value, the count at zero, and the timer starts again.
pub record IsRestarted (s s' : TcpSender) : Type 0 where
  pub rto : s'.rto ≡ s.initial_retransmission_timeout
  pub count : s'.retrans_num ≡ 0
  pub timer : s'.timer ≡ RetxTimer.flash s.timer

-- What `take_ack` has done.
pub record Acked (s : TcpSender) (ack : ℕ) (s' : TcpSender) : Type 0 where
  pub valid : IsValid s'
  pub unacked : Unacked ack s'.seg_buffer
  pub acked :
      (s.cur_ack_index ≤ s'.cur_ack_index)
      × ((s'.cur_ack_index ≡ s.cur_ack_index) ⊎ (s'.cur_ack_index ≤ ack))
  pub next : s'.next_seqno ≡ s.next_seqno
  pub edge : s'.wd_right_edge ≡ s.wd_right_edge
  pub restarted : (s' ≡ s) ⊎ IsRestarted s s'

-- An acknowledgment takes the segments that it covers out of flight, and only those: the rest
-- follows on from the number acknowledged, which moves up to the given one at most, and begins
-- with a segment that ends behind it. Timer, timeout and count are reset, unless nothing changes.
pub take_ack-Acked : (s : TcpSender) (ack : ℕ) → IsValid s → Acked s ack (take_ack s ack)
unfolding take_ack
take_ack-Acked s ack v =
    let out = drop_acked ack s.seg_buffer s.cur_ack_index false in
    let d = drop_acked-Dropped s.isn ack s.seg_buffer s.cur_ack_index s.next_seqno false v.flight in
    let at_once : IsValid (record s { seg_buffer = out.0; cur_ack_index = out.1 }) = record {
      stream = v.stream;
      flight = d.flight;
      edge = v.edge;
    } in
    elim (drop_acked_marks ack s.seg_buffer s.cur_ack_index false) [
      | inr e ↦ subst (Acked s ack) (sym (if_true _ _ e)) (record {
        valid = record { stream = v.stream; flight = d.flight; edge = v.edge };
        unacked = d.unacked;
        acked = d.between;
        next = refl;
        edge = refl;
        restarted = inr (record { rto = refl; count = refl; timer = refl });
      })
      | inl e ↦
          let same : (record s { seg_buffer = out.0; cur_ack_index = out.1 }) ≡ s =
            ap (λ (o : List SegNode × ℕ × Bool). record s { seg_buffer = o.0; cur_ack_index = o.1 })
              e in
          subst (Acked s ack) (sym (if_false _ _ (ap (λ (o : List SegNode × ℕ × Bool). o.2) e)))
            (record {
              valid = at_once;
              unacked = d.unacked;
              acked = d.between;
              next = refl;
              edge = refl;
              restarted = inl same;
            })
    ]
