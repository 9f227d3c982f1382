-- ===== src/Reassembler/Stored.antt =====
-- Which indices a reassembler holds: a reading of its state that forgets nodes and cuts.
use tcp_impliment.Common.{ℕ, ◌+◌, ◌≤◌, ◌<◌, ◌⊎◌, inl, inr, ◌↔◌, arith, List, Bool, Bool-cases}
use native.Mathlib.Decide.{ℕ_discrete, dec_lt}
use tcp_impliment.Common.Words.{u64_mod}
use tcp_impliment.Reassembler.{Reassembler, Merged, commit, outside, mark_end, push_substring}
use tcp_impliment.Reassembler.Nodes.{Within, Held}
use tcp_impliment.Reassembler.Merge.{merge_loop-Held}
use tcp_impliment.Reassembler.Insert.{insert_node-Held}
use tcp_impliment.Reassembler.Window.{
  IsValid, Fits, Offered, window_end, window_node, window_node-IsNode, window_node-Within,
  outside-Offered,
}
use tcp_impliment.Reassembler.Commit.{IsReady, commit_front, commit_later}
use tcp_impliment.Reassembler.Push.{
  merged, hi-lt, merged-eq, merged-IsReady, push_outside, push_inside, marked-IsValid,
  marked-IsReady,
}

-- Written to the output, or kept in the set.
abbrev pub Stored : ℕ → Reassembler → Type 0
Stored i r = (i < r.cur_idx) ⊎ Held i r.seg_buffer

module _ (r : Reassembler) (m : Merged) (v : IsValid r) (small : r.cur_idx + r.capacity < u64_mod)
    (q : IsReady r m) (i : ℕ) where
  commit-Stored : Stored i (commit r m) ↔ ((i < r.cur_idx) ⊎ Within i m.nd ⊎ Held i m.rest)
  commit-Stored = elim (ℕ_discrete m.nd.start_idx r.cur_idx) [
    | yes e ↦ rw (commit_front r m v small q e) (
      elim [
        | inl h ↦ elim (dec_lt i r.cur_idx) [ yes p ↦ inl p | no p ↦ inr (inl (omega arith)) ]
        | inr h ↦ inr (inr h)
      ],
      elim [
        | inl h ↦ inl (omega (arith, q.merged.node.spans))
        | inr (inl h) ↦ inl (omega arith)
        | inr (inr h) ↦ inr h
      ],
    )
    | no e ↦
        let k =
          insert_node-Held (window_end r) r.cur_idx i m.nd m.rest q.merged.node q.merged.chain
            q.merged.apart in
        rw (commit_later r m v small q e) (
          elim [ inl h ↦ inl h | inr h ↦ inr (k.0 h) ],
          elim [ inl h ↦ inl h | inr h ↦ inr (k.1 h) ],
        )
  ]

below_or_not : (i c : ℕ) → (i < c) ⊎ (c ≤ i)
below_or_not i c = elim (dec_lt i c) [ yes p ↦ inl p | no p ↦ inr (omega arith) ]

-- From what the commit, the loop and the cut each keep to what all of them keep.
keep_all :
    {Now Before Behind Kept Kept' Cut Cut' Offer : Type 0}
    → Now ↔ (Before ⊎ Cut' ⊎ Kept')
    → (Cut' ⊎ Kept') ↔ (Cut ⊎ Kept)
    → Cut ↔ (Offer × Behind)
    → Before ⊎ Behind
    → Now ↔ ((Before ⊎ Kept) ⊎ Offer)
keep_all c h w d = (
  λ n. elim (c.0 n) [
    | inl b ↦ inl (inl b)
    | inr x ↦ elim (h.0 x) [ inl k ↦ inr (w.0 k).0 | inr k ↦ inl (inr k) ]
  ],
  elim [
    | inl (inl b) ↦ c.1 (inl b)
    | inl (inr k) ↦ c.1 (inr (h.1 (inr k)))
    | inr o ↦ elim d [ inl b ↦ c.1 (inl b) | inr b ↦ c.1 (inr (h.1 (inl (w.1 (o, b))))) ]
  ],
)

-- After `push_substring` the reassembler holds an index, written or kept for later, exactly if
-- it held it before or the substring offers it inside the window, which ends at the number of
-- bytes read plus the capacity. The window and the substring stay below 2 ^ 64.
pub push_substring-Stored :
    (r : Reassembler) (bytes : List ℕ) (index : ℕ) (eof : Bool) (i : ℕ)
    → IsValid r
    → Fits r bytes index
    → Stored i (push_substring r bytes index eof) ↔ (Stored i r ⊎ Offered r bytes index i)
push_substring-Stored r bytes index eof i v f = elim (Bool-cases (outside r bytes index)) [
  | inl o ↦
      rw (push_outside r bytes index v f eof o)
        (λ s. inl s, elim [ inl s ↦ s | inr w ↦ inl (outside-Offered r bytes index i v f o w) ])
  | inr o ↦
      let e = (mark_end r bytes index eof).input_end_idx in
      let nd = window_node r bytes index in
      let c =
        commit-Stored (record r { input_end_idx = e }) (merged r bytes index)
          (marked-IsValid r bytes index v f e) f.window
          (marked-IsReady r bytes index v f e (merged r bytes index)
            (merged-IsReady r bytes index v f o))
          i in
      let w = window_node-Within r bytes index i v f o in
      let m = merged r bytes index in
      let h : (Within i m.nd ⊎ Held i m.rest) ↔ (Within i nd ⊎ Held i r.seg_buffer) =
        rw (merged-eq r bytes index v f o) (
          merge_loop-Held (window_end r) (hi-lt r bytes index v f) i r.seg_buffer (r.cur_idx + 1) nd
            r.unassembled_bytes v.chain (window_node-IsNode r bytes index v f o).0) in
      rw (push_inside r bytes index v f eof o) (keep_all c h w (below_or_not i r.cur_idx))
]
