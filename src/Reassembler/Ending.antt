-- ===== src/Reassembler/Ending.antt =====
-- When the reassembler ends the input of its output stream.
use tcp_impliment.Common.{
  ℕ, ◌+◌, ◌<◌, ◌≡◌, inl, inr, refl, ◌∙◌, arith, List, length, Bool, true, false, ◌||◌, Bool-cases,
  leb, if◌then◌else◌,
}
use native.Mathlib.Decide.{ℕ_discrete}
use tcp_impliment.Common.Words.{u64_mod}
use tcp_impliment.ByteStream
use tcp_impliment.ByteStream.{ByteStream}
use tcp_impliment.Reassembler.{Reassembler, Merged, commit, outside, mark_end, push_substring}
use tcp_impliment.Reassembler.Window.{IsValid, Fits}
use tcp_impliment.Reassembler.Commit.{IsReady, extended, commit_front, commit_later}
use tcp_impliment.Reassembler.Push.{
  merged, merged-IsReady, push_outside, push_inside, marked-IsValid, marked-IsReady,
}

-- The output has ended wherever the end index is reached.
abbrev pub Closes : Reassembler → Type 0
Closes r = leb r.input_end_idx r.cur_idx ≡ true → r.output.input_end ≡ true

input_end-check_end :
    (ends : Bool) (s : ByteStream)
    → (if ends then ByteStream.end_input s else s).input_end ≡ s.input_end || ends
unfolding ByteStream.end_input
input_end-check_end ends s = ground arith

or_stays : (a b : Bool) → (b ≡ true → a ≡ true) → a ≡ a || b
or_stays a b h = ground arith

commit-ends :
    (r : Reassembler) (m : Merged)
    → IsValid r
    → r.cur_idx + r.capacity < u64_mod
    → IsReady r m
    → Closes r
    → let r' = commit r m in
      (r'.output.input_end ≡ r.output.input_end || leb r'.input_end_idx r'.cur_idx)
      × (r'.input_end_idx ≡ r.input_end_idx)
commit-ends r m v small q h = elim (ℕ_discrete m.nd.start_idx r.cur_idx) [
  | yes e ↦
      rw (commit_front r m v small q e) (
        input_end-check_end (leb r.input_end_idx (m.nd.end_idx + 1)) (extended r m v small q),
        refl,
      )
  | no e ↦
      rw (commit_later r m v small q e)
        (or_stays r.output.input_end (leb r.input_end_idx r.cur_idx) h, refl)
]

inside-Closes :
    (r : Reassembler) (bytes : List ℕ) (index : ℕ) (eof : Bool)
    → Fits r bytes index
    → Closes r
    → outside r bytes index ≡ false
    → Closes (mark_end r bytes index eof)
inside-Closes r bytes index true f h o = λ e. absurd (ground (arith, f.indices))
inside-Closes r bytes index false f h o = h

marked :
    (r : Reassembler) (bytes : List ℕ) (index : ℕ) (eof : Bool)
    → Fits r bytes index
    → (mark_end r bytes index eof).input_end_idx
      ≡ (if eof then index + length bytes else r.input_end_idx)
marked r bytes index true f = omega (arith, f.indices)
marked r bytes index false f = refl

-- After a substring is pushed the output has ended exactly if it had ended before or the next byte
-- wanted is at the end index, which a substring with `eof` sets to the index behind its last byte.
pub push_substring-ends :
    (r : Reassembler) (bytes : List ℕ) (index : ℕ) (eof : Bool)
    → IsValid r
    → Fits r bytes index
    → Closes r
    → let r' = push_substring r bytes index eof in
      (r'.output.input_end ≡ r.output.input_end || leb r'.input_end_idx r'.cur_idx)
      × (r'.input_end_idx ≡ (if eof then index + length bytes else r.input_end_idx))
push_substring-ends r bytes index eof v f h =
    let e = (mark_end r bytes index eof).input_end_idx in
    elim (Bool-cases (outside r bytes index)) [
      | inl o ↦
          rw (push_outside r bytes index v f eof o)
            (input_end-check_end (leb e r.cur_idx) r.output, marked r bytes index eof f)
      | inr o ↦
          let c =
            commit-ends (record r { input_end_idx = e }) (merged r bytes index)
              (marked-IsValid r bytes index v f e) f.window
              (marked-IsReady r bytes index v f e (merged r bytes index)
                (merged-IsReady r bytes index v f o))
              (inside-Closes r bytes index eof f h o) in
          rw (push_inside r bytes index v f eof o) (c.0, c.1 ∙ marked r bytes index eof f)
    ]
