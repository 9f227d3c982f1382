-- ===== src/Sender/Flight.antt =====
-- The segments in flight: what `seg_buffer` holds between the last acknowledged number and the
-- next one to be sent.
use tcp_impliment.Common.{ℕ, ◌+◌, ◌^◌, ◌≤◌, ◌<◌, ◌≡◌, refl, sym, subst, arith, List, [], ◌∷◌, ◌++◌}
use tcp_impliment.Common.Words.{u16_mod, u64_mod, add64}
use tcp_impliment.WrappingInt.{WrappingInt32, wrap}
use tcp_impliment.ByteStream.Invariant
use tcp_impliment.Segment.{TcpSegment, length_in_sequence_space}
use tcp_impliment.Sender.{TcpSender, SegNode, send_new_seg, bytes_in_flight}

-- The segments follow one another from number `lo` to number `hi`: each has the number at which
-- it begins, takes up at least one, and is noted with the number at which the next begins.
abbrev pub InFlight : WrappingInt32 → ℕ → List SegNode → ℕ → Type 0
InFlight isn lo [] hi = lo ≡ hi
InFlight isn lo (x ∷ xs) hi =
    (x.seg.header.seqno ≡ wrap lo isn)
    × (0 < length_in_sequence_space x.seg)
    × (x.ack_index ≡ lo + length_in_sequence_space x.seg)
    × InFlight isn x.ack_index xs hi

pub record IsValid (s : TcpSender) : Type 0 where
  pub stream : Invariant.IsValid s.stream
  pub flight : InFlight s.isn s.cur_ack_index s.seg_buffer s.next_seqno
  pub edge : s.wd_right_edge ≤ s.next_seqno + u16_mod

-- The stream is far from using up the 64-bit numbers.
abbrev pub HasRoom : TcpSender → Type 0
HasRoom s = s.next_seqno + 2 ^ 17 < u64_mod

abbrev pub occupied : List SegNode → ℕ
occupied [] = 0
occupied (x ∷ xs) = length_in_sequence_space x.seg + occupied xs

InFlight-append :
    (isn lo hi : ℕ) (xs : List SegNode) (y : SegNode)
    → InFlight isn lo xs hi
    → InFlight isn hi (y ∷ []) y.ack_index
    → InFlight isn lo (xs ++ y ∷ []) y.ack_index
InFlight-append isn lo hi [] y e k = subst (λ l. InFlight isn l (y ∷ []) y.ack_index) (sym e) k
InFlight-append isn lo hi (x ∷ xs) y (n, p, a, f) k =
    (n, p, a, InFlight-append isn x.ack_index hi xs y f k)

pub InFlight-occupied :
    (isn lo hi : ℕ) (xs : List SegNode) → InFlight isn lo xs hi → lo + occupied xs ≡ hi
InFlight-occupied isn lo hi [] e = omega arith
InFlight-occupied isn lo hi (x ∷ xs) (n, p, a, f) =
    omega (arith, InFlight-occupied isn x.ack_index hi xs f)

-- In a valid sender `bytes_in_flight` is what the segments in the buffer take up of the sequence
-- space, a SYN and a FIN counted.
pub bytes_in_flight-occupied :
    (s : TcpSender) → IsValid s → HasRoom s → bytes_in_flight s ≡ occupied s.seg_buffer
unfolding bytes_in_flight
bytes_in_flight-occupied s v h =
    omega (arith, InFlight-occupied s.isn s.cur_ack_index s.next_seqno s.seg_buffer v.flight)

pub next_seqno-send_new_seg :
    (s : TcpSender) (seg : TcpSegment)
    → s.next_seqno + length_in_sequence_space seg < u64_mod
    → (send_new_seg s seg).next_seqno ≡ s.next_seqno + length_in_sequence_space seg
unfolding send_new_seg
next_seqno-send_new_seg s seg h = omega arith

pub send_new_seg-IsValid :
    (s : TcpSender) (seg : TcpSegment)
    → IsValid s
    → s.next_seqno + length_in_sequence_space seg < u64_mod
    → 0 < length_in_sequence_space seg
    → seg.header.seqno ≡ wrap s.next_seqno s.isn
    → IsValid (send_new_seg s seg)
unfolding send_new_seg
send_new_seg-IsValid s seg v h p n =
    let e : add64 s.next_seqno (length_in_sequence_space seg)
        ≡ s.next_seqno + length_in_sequence_space seg =
      omega arith in
    record {
      stream = v.stream;
      flight =
          InFlight-append s.isn s.cur_ack_index s.next_seqno s.seg_buffer
            (record { seg = seg; ack_index = add64 s.next_seqno (length_in_sequence_space seg) })
            v.flight (n, p, e, refl);
      edge = omega (arith, v.edge);
    }
