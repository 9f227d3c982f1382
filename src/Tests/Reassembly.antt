-- ===== src/Tests/Reassembly.antt =====
-- The reassembler and the receiver at concrete inputs: a stream of letters, of which the third and
-- the fourth come first.
use tcp_impliment.Common.{
  ◌≤◌, ℕ, ◌+◌, ◌-◌, ◌^◌, ◌<◌, ◌≡◌, ◌⊎◌, inr, ◌↔◌, refl, arith, List, [], ◌∷◌, true, false, ◌||◌,
  leb, some,
}
use tcp_impliment.WrappingInt.{wrap}
use tcp_impliment.ByteStream
use tcp_impliment.ByteStream.{ByteStream}
use tcp_impliment.Reassembler
use tcp_impliment.Reassembler.{Node, Reassembler, push_substring, merge_all, merge_loop}
use tcp_impliment.Reassembler.Merge.{merge_all-merge_loop}
use tcp_impliment.Reassembler.Window.{IsValid, Fits, Offered}
use tcp_impliment.Reassembler.Push.{push_substring-IsValid}
use tcp_impliment.Reassembler.Stored.{Stored, push_substring-Stored}
use tcp_impliment.Reassembler.Delivery.{Delivers, push_substring-Delivers}
use tcp_impliment.Reassembler.Ending.{push_substring-ends}
use tcp_impliment.Segment.{TcpSegment, default_header}
use tcp_impliment.Receiver.{
  TcpReceiver, stream_out, unassembled_bytes, segment_received, ackno, window_size,
}
use tcp_impliment.Receiver.Bounds.{segment_received-Bounded}
use tcp_impliment.Receiver.Stream.{InStep, Carries, segment_received-InStep, ackno_lem}

abbrev letters : ℕ → ℕ
letters i = 97 + i

abbrev waiting : Node
waiting = record { start_idx = 2; end_idx = 3; bytes = 99 ∷ 100 ∷ [] }

abbrev kept : Reassembler
kept = record {
  output = ByteStream.new 8;
  capacity = 8;
  seg_buffer = waiting ∷ [];
  input_end_idx = 2 ^ 32 - 1;
  cur_idx = 0;
  unassembled_bytes = 2;
}

abbrev front : List ℕ
front = 97 ∷ 98 ∷ 99 ∷ []

kept-IsValid : IsValid kept
kept-IsValid = omega arith

front-Fits : Fits kept front 0
front-Fits = omega arith

kept_run : push_substring (Reassembler.new 8) (99 ∷ 100 ∷ []) 2 false ≡ kept
unfolding push_substring Reassembler.max_idx Reassembler.cut_left Reassembler.cut_right
    Reassembler.merge_all Reassembler.upper_bound Reassembler.merge_loop Reassembler.commit
    Reassembler.insert_node
kept_run = refl

front_run : (push_substring kept front 0 false).output.buffer ≡ 97 ∷ 98 ∷ 99 ∷ 100 ∷ []
unfolding push_substring Reassembler.max_idx Reassembler.cut_left Reassembler.cut_right
    Reassembler.merge_all Reassembler.upper_bound Reassembler.merge_loop Reassembler.merge_to
    Reassembler.merge_front Reassembler.merge_back Reassembler.commit Reassembler.insert_node
    ByteStream.write
front_run = refl

push_substring-IsValid_example : IsValid (push_substring kept front 0 false)
push_substring-IsValid_example = push_substring-IsValid kept front 0 kept-IsValid front-Fits false

push_substring-Stored_example :
    Stored 2 (push_substring kept front 0 false) ↔ (Stored 2 kept ⊎ Offered kept front 0 2)
push_substring-Stored_example = push_substring-Stored kept front 0 false 2 kept-IsValid front-Fits

push_substring-Delivers_example : Delivers letters (push_substring kept front 0 false)
push_substring-Delivers_example =
    push_substring-Delivers letters kept front 0 false kept-IsValid front-Fits (omega arith)
      (omega arith)

push_substring-ends_example :
    let r' = push_substring kept (101 ∷ []) 4 true in
    (r'.output.input_end ≡ false || leb r'.input_end_idx r'.cur_idx) × (r'.input_end_idx ≡ 5)
push_substring-ends_example =
    push_substring-ends kept (101 ∷ []) 4 true kept-IsValid (omega arith) (λ e. cc)

merge_all-merge_loop_example :
    merge_all (waiting ∷ []) (record { start_idx = 4; end_idx = 4; bytes = 101 ∷ [] }) 2
    ≡ merge_loop (waiting ∷ []) (record { start_idx = 4; end_idx = 4; bytes = 101 ∷ [] }) 2
merge_all-merge_loop_example =
    merge_all-merge_loop 8 (omega arith) (waiting ∷ []) 1
      (record { start_idx = 4; end_idx = 4; bytes = 101 ∷ [] }) 2 (omega arith) (omega arith)

-- The receiver behind the SYN of a peer that begins at 9, with the reassembler above.
abbrev synced : TcpReceiver
synced = record { reassembler = kept; capacity = 8; receive_isn = true; isn = 10 }

abbrev first_letters : TcpSegment
first_letters = record { header = record default_header { seqno = 10 }; payload = front }

kept-Delivers : Delivers letters kept
kept-Delivers = omega arith

synced-InStep : InStep 9 letters synced
synced-InStep = record {
  valid = kept-IsValid;
  same_capacity = refl;
  synced = λ e. unfold wrap in refl;
  delivers = kept-Delivers;
}

first_letters-Carries : Carries 9 letters first_letters 0
first_letters-Carries = record { content = omega arith; numbered = inr (refl, unfold wrap in refl) }

segment_received-InStep_example : InStep 9 letters (segment_received synced first_letters)
segment_received-InStep_example =
    segment_received-InStep 9 letters (omega arith) synced first_letters 0 synced-InStep
      first_letters-Carries (omega arith)

ackno_lem_example :
    (ackno synced ≡ some (wrap (1 + 0 + 0) 9))
    × ((i : ℕ) → i < 0 → Stored i kept)
    × (¬ Stored 0 kept)
    × (0 + window_size synced ≡ 8)
ackno_lem_example = ackno_lem 9 letters synced synced-InStep refl (omega arith)

segment_received-Bounded_example :
    let r = segment_received synced first_letters in
    (ByteStream.buffer_size (stream_out r) + window_size r ≡ 8)
    × (unassembled_bytes r ≤ window_size r)
segment_received-Bounded_example =
    segment_received-Bounded 9 letters (omega arith) synced first_letters 0 synced-InStep
      first_letters-Carries (omega arith)
