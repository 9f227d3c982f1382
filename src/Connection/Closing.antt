-- ===== src/Connection/Closing.antt =====
-- How a connection ends: the wait behind both streams, and giving up.
use tcp_impliment.Common.{
  if◌then◌else◌, inr, inl, Bool-cases, ◌&&◌, Bool, ℕ, ◌*◌, ◌<◌, ◌≡◌, refl, sym, ap, subst, ◌∙◌,
  arith, [], ◌∷◌, ◌++◌, true, false, ◌||◌, not, if_true, if_false, leb, append-nil, map,
}
use tcp_impliment.Common.Words.{add32, sub32}
use tcp_impliment.ByteStream
use tcp_impliment.WrappingInt.{wrap}
use tcp_impliment.Segment.{TcpSegment, default_header}
use tcp_impliment.Sender
use tcp_impliment.Sender.{TcpSender}
use tcp_impliment.Sender.Sound.{tick_idle, stream-tick}
use tcp_impliment.Connection.{
  TcpConnection, clean, flush, stamp, tick, bad_shutdown, max_retx_attempts, inbound_stream,
  outbound_stream,
}
use tcp_impliment.Connection.Outgoing.{check_close-closes, closes}

-- The segment that tells the peer of a reset.
abbrev reset_of : TcpConnection → TcpSegment
reset_of c = record {
  header = record default_header { rst = true; seqno = wrap c.sender.next_seqno c.sender.isn };
  payload = [];
}

abbrev GivesUp : TcpConnection → Bool → TcpConnection → Type 0
GivesUp c given_up c' =
    ((inbound_stream c').error_flag ≡ (given_up || (inbound_stream c).error_flag))
    × ((outbound_stream c').error_flag ≡ (given_up || (outbound_stream c).error_flag))
    × ((given_up && not c'.close) ≡ false)
    × ((if given_up then c'.segments_out else [])
        ≡ (if given_up then c.segments_out ++ reset_of c ∷ [] else []))

not_yet :
    (c : TcpConnection) (ms : ℕ)
    → GivesUp c false
        (clean (record c { now_time = add32 c.now_time ms; sender = Sender.tick c.sender ms }))
unfolding clean
not_yet c ms =
    let c' = record c { now_time = add32 c.now_time ms; sender = Sender.tick c.sender ms } in
    subst (GivesUp c false) (sym (check_close-closes (flush c')))
      (refl, ap (λ (s : ByteStream.ByteStream). s.error_flag) (stream-tick c.sender ms), refl, refl)

-- `tick` gives up exactly after eight retransmissions of one segment, whatever the time: then the
-- connection is closed, both streams have their error flag, one segment with RST and the sender's
-- next number goes out behind what was queued, and nothing else does. Before that it sets no error
-- flag.
pub tick_gives_up :
    (c : TcpConnection) (ms : ℕ)
    → let c' = tick c ms in
      let given_up = leb 8 c.sender.retrans_num in
      ((inbound_stream c').error_flag ≡ (given_up || (inbound_stream c).error_flag))
      × ((outbound_stream c').error_flag ≡ (given_up || (outbound_stream c).error_flag))
      × ((given_up && not c'.close) ≡ false)
      × ((if given_up then c'.segments_out else [])
          ≡ (if given_up then c.segments_out ++ reset_of c ∷ [] else []))
unfolding tick bad_shutdown ByteStream.set_error
tick_gives_up c ms = elim (Bool-cases (leb 8 c.sender.retrans_num)) [
  | inl e ↦
      subst (λ b. GivesUp c b (tick c ms)) (sym e)
        (subst (GivesUp c true) (sym (if_true _ _ e)) (refl, refl, refl, refl))
  | inr e ↦
      subst (λ b. GivesUp c b (tick c ms)) (sym e)
        (subst (GivesUp c false) (sym (if_false _ _ e)) (not_yet c ms))
]

lt→not_leb : (a b : ℕ) → b < a → leb a b ≡ false
lt→not_leb a b h = ground arith

-- A connection whose streams are both over and acknowledged, with nothing left to send.
pub record IsFinished (c : TcpConnection) : Type 0 where
  pub inbound : ByteStream.input_ended (inbound_stream c) ≡ true
  pub outbound : ByteStream.eof (outbound_stream c) ≡ true
  pub acked : Sender.bytes_in_flight c.sender ≡ 0
  pub unsent : c.sender.segments_out ≡ []
  pub buffer : c.sender.seg_buffer ≡ []

-- Once both streams are over and acknowledged, `tick` only waits: it sends nothing, stays finished
-- and leaves the linger flag, and closes the connection exactly when it need not linger or when
-- ten times the retransmission timeout has passed since the last segment came in, if it was not
-- closed before.
pub tick-IsFinished :
    (c : TcpConnection) (ms : ℕ)
    → IsFinished c
    → Sender.consecutive_retransmissions c.sender < max_retx_attempts
    → let c' = tick c ms in
      IsFinished c'
      × (c'.segments_out ≡ c.segments_out)
      × (c'.linger_after_streams_finish ≡ c.linger_after_streams_finish)
      × (c'.close ≡ (
          c.close
          || not c.linger_after_streams_finish
          || leb (10 * c.cfg.rt_timeout) (sub32 (add32 c.now_time ms) c.last_receive_time)))
unfolding tick clean Sender.bytes_in_flight
tick-IsFinished c ms f h =
    let later = record c { now_time = add32 c.now_time ms } in
    let q : tick c ms ≡ record (flush later) { close = closes (flush later) } =
      if_false _ _ (lt→not_leb max_retx_attempts c.sender.retrans_num h)
      ∙ ap (λ (s : TcpSender). clean (record later { sender = s })) (tick_idle c.sender ms f.buffer)
      ∙ check_close-closes (flush later) in
    subst
      (λ (c' : TcpConnection).
        IsFinished c'
        × (c'.segments_out ≡ c.segments_out)
        × (c'.linger_after_streams_finish ≡ c.linger_after_streams_finish)
        × (c'.close ≡ (
            c.close
            || not c.linger_after_streams_finish
            || leb (10 * c.cfg.rt_timeout) (sub32 (add32 c.now_time ms) c.last_receive_time))))
      (sym q)
      (
        record {
          inbound = f.inbound;
          outbound = f.outbound;
          acked = f.acked;
          unsent = refl;
          buffer = f.buffer;
        },
        ap (λ l. c.segments_out ++ map (stamp c.receiver) l) f.unsent ∙ append-nil c.segments_out,
        refl,
        ground (arith, f.inbound, f.outbound, f.acked),
      )
