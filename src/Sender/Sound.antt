-- ===== src/Sender/Sound.antt =====
-- The invariant that every call of the sender keeps, and the timeout that backs off.
use tcp_impliment.Common.{
  false, true, not, ◌&&◌, ℕ, ◌+◌, ◌*◌, ◌^◌, ◌%◌, ◌≤◌, ◌<◌, ◌≡◌, refl, sym, ap, subst, ◌∙◌, arith,
  List, [], ◌∷◌, ◌++◌, Bool, ◌||◌, ◌==◌, Bool-cases, ltb, leb, inl, inr, if◌then◌else◌, if_true,
  if_false, append-nil,
}
use native.Mathlib.Nat.{pow-suc}
use native.Mathlib.Numerals.{add-one}
use tcp_impliment.Common.Words.{u16_mod, u64_mod, add64, sub64}
use tcp_impliment.WrappingInt.{WrappingInt32, unwrap}
use tcp_impliment.Segment.{TcpSegment}
use tcp_impliment.Sender.{
  TcpSender, SegNode, syn_seg, fill_window, take_ack, take_window, ack_received, tick, tick_at,
  retransmit, send_empty_ack,
}
use tcp_impliment.Sender.RetxTimer
use tcp_impliment.Sender.RetxTimer.{time_out}
use tcp_impliment.Sender.Flight.{IsValid, HasRoom, send_new_seg-IsValid, next_seqno-send_new_seg}
use tcp_impliment.Sender.Fill.{fill_window-Filled}
use tcp_impliment.Sender.Sends.{send_new_seg-Keeps}
use tcp_impliment.Sender.Acks.{take_ack-Acked}

-- The invariant of the sender between two calls.
pub record IsSound (s : TcpSender) : Type 0 where
  pub valid : IsValid s
  pub tight : s.wd_right_edge < s.next_seqno + u16_mod

edged-IsValid :
    (s : TcpSender) (edge : ℕ)
    → IsValid s
    → edge ≤ s.next_seqno + u16_mod
    → IsValid (record s { wd_right_edge = edge })
edged-IsValid s edge v h = record { stream = v.stream; flight = v.flight; edge = h }

-- The window's right edge after an acknowledgment.
abbrev new_edge : TcpSender → ℕ → ℕ → ℕ
new_edge s ack window_size =
    let edge = add64 ack window_size in if ltb s.wd_right_edge edge then edge else s.wd_right_edge

new_edge-lt :
    (s : TcpSender) (ack window_size : ℕ)
    → IsSound s
    → HasRoom s
    → ack ≤ s.next_seqno
    → window_size < u16_mod
    → new_edge s ack window_size < s.next_seqno + u16_mod
new_edge-lt s ack w v h le lt = ground (arith, v.tight)

take_window-IsSound :
    (s : TcpSender) (ack window_size : ℕ)
    → IsSound s
    → HasRoom s
    → ack ≤ s.next_seqno
    → window_size < u16_mod
    → IsSound (take_window s ack window_size)
unfolding take_window
take_window-IsSound s ack w v h le lt =
    let right = new_edge s ack w in
    let small = new_edge-lt s ack w v h le lt in
    elim (Bool-cases (w == 0)) [
      | inl z ↦
          let up : add64 right 1 ≡ right + 1 = omega arith in
          let probing = record s { wd_right_edge = add64 right 1 } in
          let f =
            fill_window-Filled probing (edged-IsValid s (add64 right 1) v.valid (omega arith)) h in
          let sent = fill_window probing in
          let back : sub64 sent.wd_right_edge 1 ≡ right = omega (arith, f.edge) in
          subst IsSound (sym (if_true _ _ z)) (record {
            valid =
                edged-IsValid sent (sub64 sent.wd_right_edge 1) f.valid (omega (arith, f.forward));
            tight = omega (arith, f.forward);
          })
      | inr z ↦
          let f =
            fill_window-Filled (record s { wd_right_edge = right })
              (edged-IsValid s right v.valid (omega arith)) h in
          subst IsSound (sym (if_false _ _ z))
            (record { valid = f.valid; tight = omega (arith, f.forward, f.edge) })
    ]

tick_at-IsSound :
    (s : TcpSender) (xs : List SegNode) (ms : ℕ) → IsSound s → IsSound (tick_at s xs ms)
unfolding retransmit
tick_at-IsSound s [] ms v = v
tick_at-IsSound s (x ∷ xs) ms v =
    let timer = RetxTimer.tick s.timer ms in
    elim (Bool-cases (time_out timer s.rto)) [
      | inl late ↦ elim (Bool-cases (sub64 s.wd_right_edge s.cur_ack_index == 0)) [
        | inl z ↦ subst IsSound (sym (if_true _ _ late ∙ if_true _ _ z)) (record {
          valid = record { stream = v.valid.stream; flight = v.valid.flight; edge = v.valid.edge };
          tight = v.tight;
        })
        | inr z ↦ subst IsSound (sym (if_true _ _ late ∙ if_false _ _ z)) (record {
          valid = record { stream = v.valid.stream; flight = v.valid.flight; edge = v.valid.edge };
          tight = v.tight;
        })
      ]
      | inr early ↦ subst IsSound (sym (if_false _ _ early)) (record {
        valid = record { stream = v.valid.stream; flight = v.valid.flight; edge = v.valid.edge };
        tight = v.tight;
      })
    ]

module _ (s : TcpSender) (v : IsSound s) (h : HasRoom s) where
  send_empty_ack-IsSound : IsSound (send_empty_ack s)
  unfolding send_empty_ack
  send_empty_ack-IsSound = elim (Bool-cases (s.next_seqno == 0)) [
    | inl z ↦
        let seg = syn_seg s in
        let n = next_seqno-send_new_seg s seg (omega arith) in
        let k = send_new_seg-Keeps s seg in
        subst IsSound (sym (if_true _ _ z)) (record {
          valid = send_new_seg-IsValid s seg v.valid (omega arith) (omega arith) refl;
          tight = omega (arith, n, k.edge, v.tight);
        })
    | inr z ↦ subst IsSound (sym (if_false _ _ z)) (record {
      valid = record { stream = v.valid.stream; flight = v.valid.flight; edge = v.valid.edge };
      tight = v.tight;
    })
  ]

  ack_received-IsSound :
      (ackno : WrappingInt32) (window_size : ℕ)
      → window_size < u16_mod
      → IsSound (ack_received s ackno window_size)
  unfolding ack_received
  ack_received-IsSound ackno w lt =
      let ack = unwrap ackno s.isn s.next_seqno in
      elim (Bool-cases (ltb s.next_seqno ack || ltb ack s.cur_ack_index)) [
        | inl bad ↦ subst IsSound (sym (if_true _ _ bad)) v
        | inr good ↦
            let a = take_ack-Acked s ack v.valid in
            subst IsSound (sym (if_false _ _ good)) (
              take_window-IsSound (take_ack s ack) ack w
                (record { valid = a.valid; tight = omega (arith, a.next, a.edge, v.tight) })
                (omega (arith, a.next)) (ground (arith, a.next)) lt)
      ]

  -- Every call of the sender keeps a sound one sound, far from the end of the 64-bit numbers: the
  -- segments in flight follow one another without a gap from the acknowledged number to the next
  -- one, each numbered where it begins, and the window's right edge is less than 2 ^ 16 ahead. An
  -- acknowledgment of any number is allowed, with a 16-bit window.
  pub calls-IsSound :
      (ackno : WrappingInt32) (window_size ms : ℕ)
      → window_size < u16_mod
      → IsSound (fill_window s)
        × IsSound (ack_received s ackno window_size)
        × IsSound (tick s ms)
        × IsSound (send_empty_ack s)
  unfolding tick
  calls-IsSound ackno w ms lt =
      let f = fill_window-Filled s v.valid h in
      (
        record { valid = f.valid; tight = omega (arith, f.forward, f.edge, v.tight) },
        ack_received-IsSound ackno w lt,
        tick_at-IsSound s s.seg_buffer ms v,
        send_empty_ack-IsSound,
      )

-- With nothing in flight `tick` does nothing.
pub tick_idle : (s : TcpSender) (ms : ℕ) → s.seg_buffer ≡ [] → tick s ms ≡ s
unfolding tick
tick_idle s ms e = ap (λ l. tick_at s l ms) e

modulo_id : (n : ℕ) → n < u64_mod → n % u64_mod ≡ n
modulo_id n h = omega arith

-- The timeout is the initial one, doubled once for each retransmission counted.
abbrev pub IsBackedOff : TcpSender → Type 0
IsBackedOff s = s.rto ≡ s.initial_retransmission_timeout * 2 ^ s.retrans_num % u64_mod

double : (a r : ℕ) → a * 2 ^ r % u64_mod * 2 % u64_mod ≡ a * 2 ^ (r + 1) % u64_mod
double a r = rw (add-one, pow-suc 2 r) (omega arith)

-- What `tick` does at the segment `oldest`, when it is `late` or not, and the window is closed or
-- not.
record Ticked (s : TcpSender) (oldest : TcpSegment) (now : ℕ) (late closed : Bool) (s' : TcpSender)
    : Type 0 where
  backed_off : IsBackedOff s'
  sent : s'.segments_out ≡ s.segments_out ++ (if late then oldest ∷ [] else [])
  flight : s'.seg_buffer ≡ s.seg_buffer
  counted : s'.retrans_num ≡ (if late && not closed then s.retrans_num + 1 else s.retrans_num)
  timeout : s'.rto ≡ (if late && not closed then s.rto * 2 % u64_mod else s.rto)
  clock : s'.timer.now_time ≡ now
  restarted : s'.timer.last_flash_time ≡ (if late then now else s.timer.last_flash_time)

module _ (s : TcpSender) (oldest : TcpSegment) (ms : ℕ) (b : IsBackedOff s)
    (small : s.retrans_num + 1 < u64_mod) where
  abbrev now : ℕ
  now = add64 s.timer.now_time ms

  abbrev doubled : TcpSender
  doubled = record s {
    segments_out = s.segments_out ++ oldest ∷ [];
    timer = record (s.timer) { now_time = now; last_flash_time = now };
    retrans_num = add64 s.retrans_num 1;
    rto = s.rto * 2 % u64_mod;
  }

  retransmit-Ticked :
      (late closed : Bool)
      → time_out (RetxTimer.tick s.timer ms) s.rto ≡ late
      → (sub64 s.wd_right_edge s.cur_ack_index == 0) ≡ closed
      → Ticked s oldest now late closed (retransmit s oldest ms)
  unfolding retransmit
  retransmit-Ticked true true e z =
      subst (Ticked s oldest now true true) (sym (if_true _ _ e ∙ if_true _ _ z)) (record {
        backed_off = b;
        sent = refl;
        flight = refl;
        counted = refl;
        timeout = refl;
        clock = refl;
        restarted = refl;
      })
  retransmit-Ticked true false e z =
      subst (Ticked s oldest now true false) (sym (if_true _ _ e ∙ if_false _ _ z)) (record {
        backed_off =
            ap (λ k. k * 2 % u64_mod) b
            ∙ double s.initial_retransmission_timeout s.retrans_num
            ∙ ap (λ k. s.initial_retransmission_timeout * 2 ^ k % u64_mod)
                (sym (modulo_id (s.retrans_num + 1) small));
        sent = refl;
        flight = refl;
        counted = modulo_id (s.retrans_num + 1) small;
        timeout = refl;
        clock = refl;
        restarted = refl;
      })
  retransmit-Ticked false closed e z =
      subst (Ticked s oldest now false closed) (sym (if_false _ _ e)) (record {
        backed_off = b;
        sent = sym (append-nil s.segments_out);
        flight = refl;
        counted = refl;
        timeout = refl;
        clock = refl;
        restarted = refl;
      })

stream-retransmit :
    (s : TcpSender) (oldest : TcpSegment) (ms : ℕ) → (retransmit s oldest ms).stream ≡ s.stream
unfolding retransmit
stream-retransmit s oldest ms = ground arith

stream-tick_at : (s : TcpSender) (l : List SegNode) (ms : ℕ) → (tick_at s l ms).stream ≡ s.stream
stream-tick_at s [] ms = refl
stream-tick_at s (x ∷ xs) ms = stream-retransmit s x.seg ms

pub stream-tick : (s : TcpSender) (ms : ℕ) → (tick s ms).stream ≡ s.stream
unfolding tick
stream-tick s ms = stream-tick_at s s.seg_buffer ms

-- While segments are in flight, `tick` sends the oldest one again exactly when the time since the
-- timer's restart, with what has passed, reaches the timeout, and sends nothing else. Then the timer
-- restarts; otherwise it runs on with the time that has passed added. The count grows by one and
-- the timeout doubles at a retransmission to an open window, and only then, and the timeout stays
-- the initial one doubled once for each retransmission counted. The segments in flight stay.
pub tick_lem :
    (s : TcpSender) (x : SegNode) (xs : List SegNode) (ms : ℕ)
    → s.seg_buffer ≡ x ∷ xs
    → IsBackedOff s
    → s.retrans_num + 1 < u64_mod
    → let s' = tick s ms in
      let now = add64 s.timer.now_time ms in
      let late = leb s.rto (sub64 now s.timer.last_flash_time) in
      let counts = late && not (sub64 s.wd_right_edge s.cur_ack_index == 0) in
      (s'.segments_out ≡ s.segments_out ++ (if late then x.seg ∷ [] else []))
      × (s'.seg_buffer ≡ s.seg_buffer)
      × IsBackedOff s'
      × (s'.retrans_num ≡ (if counts then s.retrans_num + 1 else s.retrans_num))
      × (s'.rto ≡ (if counts then s.rto * 2 % u64_mod else s.rto))
      × (s'.timer.now_time ≡ now)
      × (s'.timer.last_flash_time ≡ (if late then now else s.timer.last_flash_time))
unfolding tick
tick_lem s x xs ms e b small =
    let late = leb s.rto (sub64 (add64 s.timer.now_time ms) s.timer.last_flash_time) in
    let closed = sub64 s.wd_right_edge s.cur_ack_index == 0 in
    let t : Ticked s x.seg (add64 s.timer.now_time ms) late closed (tick_at s s.seg_buffer ms) =
      subst (Ticked s x.seg (add64 s.timer.now_time ms) late closed)
        (sym (ap (λ l. tick_at s l ms) e))
        (retransmit-Ticked s x.seg ms b small late closed refl refl) in
    (t.sent, t.flight, t.backed_off, t.counted, t.timeout, t.clock, t.restarted)
