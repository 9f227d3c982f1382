-- ===== src/Receiver/Reading.antt =====
-- The other things that happen to a receiver: its reader takes bytes, and its stream fails.
use tcp_impliment.Common.{
  length-append, length-take, take, drop, ◌++◌, inl, inr, ℕ, ◌+◌, ◌≤◌, ◌<◌, ◌^◌, ◌≡◌, refl, sym,
  arith, true, false, List, [], ◌∷◌, length, min,
}
use tcp_impliment.Common.Words.{add64}
use tcp_impliment.WrappingInt.{WrappingInt32}
use tcp_impliment.ByteStream
use tcp_impliment.ByteStream.{ByteStream}
use tcp_impliment.ByteStream.Invariant
use tcp_impliment.Reassembler.{Node}
use tcp_impliment.Reassembler.Nodes.{Chain}
use tcp_impliment.Reassembler.Window.{window_end}
use tcp_impliment.Reassembler.Bytes.{Agrees-at, Agrees-append, Agrees-take, Agrees-drop}
use tcp_impliment.Receiver
use tcp_impliment.Receiver.{TcpReceiver}
use tcp_impliment.Receiver.Following.{IsFollowing, below}

abbrev pub with_output : TcpReceiver → ByteStream → TcpReceiver
with_output r s = record r { reassembler = record (r.reassembler) { output = s } }

Chain-widen : (hi hi' lo : ℕ) (xs : List Node) → hi ≤ hi' → Chain hi lo xs → Chain hi' lo xs
Chain-widen hi hi' lo [] h c = tt
Chain-widen hi hi' lo (x ∷ xs) h (hl, hx, c) = (
  hl,
  record { spans = hx.spans; below = omega (arith, hx.below) },
  Chain-widen hi hi' (x.end_idx + 2) xs h c,
)

module _ (peer : WrappingInt32) (T : ℕ → ℕ) where
  pub set_error-IsFollowing :
      (r : TcpReceiver) (got : List ℕ)
      → IsFollowing peer T r got
      → IsFollowing peer T (with_output r (ByteStream.set_error r.reassembler.output)) got
  unfolding ByteStream.set_error
  set_error-IsFollowing r got f =
      let v = f.step.valid in
      record {
        step = record {
          valid = record {
            stream = omega (arith, v.stream);
            same_capacity = v.same_capacity;
            positive = v.positive;
            written = v.written;
            chain = v.chain;
            counted = v.counted;
          };
          same_capacity = f.step.same_capacity;
          synced = f.step.synced;
          delivers = record { ready = f.step.delivers.ready; kept = f.step.delivers.kept };
        };
        genuine = f.genuine;
        counted = f.counted;
        small_capacity = f.small_capacity;
        short = λ j k. f.short j k;
      }

  -- The reader takes `n` bytes at most.
  pub pop_output-IsFollowing :
      (r : TcpReceiver) (got : List ℕ) (n : ℕ)
      → IsFollowing peer T r got
      → IsFollowing peer T
          (with_output r (ByteStream.pop_output r.reassembler.output n))
          (got ++ take (min r.reassembler.output.size n) r.reassembler.output.buffer)
  unfolding ByteStream.pop_output
  pop_output-IsFollowing r got n f =
      let v = f.step.valid in
      let a = r.reassembler in
      let s = a.output in
      let size = min s.size n in
      let c = below a.cur_idx (λ j h. f.short j (inl h)) in
      let moved : add64 s.total_read size ≡ s.total_read + size = omega (arith, v.written, c) in
      let taken : length (take size s.buffer) ≡ size =
        omega (arith, length-take size s.buffer, v.stream.counted) in
      record {
        step = record {
          valid = record {
            stream = unfold ByteStream.pop_output in Invariant.pop_output-IsValid s n v.stream;
            same_capacity = v.same_capacity;
            positive = v.positive;
            written = omega (arith, v.written, moved);
            chain =
                Chain-widen (window_end a) (add64 s.total_read size + a.capacity) (a.cur_idx + 1)
                  a.seg_buffer (omega (arith, moved)) v.chain;
            counted = v.counted;
          };
          same_capacity = f.step.same_capacity;
          synced = f.step.synced;
          delivers = record {
            ready =
                Agrees-at T (s.total_read + size) (add64 s.total_read size) (drop size s.buffer)
                  (sym moved) (Agrees-drop T s.total_read size s.buffer f.step.delivers.ready);
            kept = f.step.delivers.kept;
          };
        };
        genuine = Agrees-append T 0 got (take size s.buffer) f.genuine (
            Agrees-at T s.total_read (0 + length got) (take size s.buffer)
              (omega (arith, f.counted))
              (Agrees-take T s.total_read size s.buffer f.step.delivers.ready));
        counted = omega (arith, moved, f.counted, taken, length-append got (take size s.buffer));
        small_capacity = f.small_capacity;
        short = λ j k. f.short j k;
      }

  pub new-IsFollowing :
      (capacity : ℕ)
      → 0 < capacity
      → capacity ≤ 2 ^ 30
      → IsFollowing peer T (Receiver.new capacity) []
  new-IsFollowing capacity positive small = record {
    step = record {
      valid = record {
        stream = Invariant.new-IsValid capacity (omega (arith, small));
        same_capacity = refl;
        positive = positive;
        written = refl;
        chain = tt;
        counted = refl;
      };
      same_capacity = refl;
      synced = λ h. absurd (true_false h);
      delivers = record { ready = tt; kept = tt };
    };
    genuine = tt;
    counted = refl;
    small_capacity = small;
    short = λ j k. elim k [ inl h ↦ omega arith | inr h ↦ elim h [ ] ];
  }
    where
      true_false : false ≡ true → ⊥
      true_false h = cc
