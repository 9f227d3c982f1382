-- ===== src/Reassembler/Nodes.antt =====
-- The nodes of the reassembler's set: what keeps them in order and apart, and how the loop that
-- merges them keeps it so.
use tcp_impliment.Common.{
  ℕ, ◌+◌, ◌-◌, ◌≤◌, ◌<◌, ◌≡◌, ◌⊎◌, inr, arith, List, [], ◌∷◌, ◌++◌, length, All, length-append,
  length-take, length-drop, take, drop, true,
}
use tcp_impliment.Common.Words.{u64_mod}
use tcp_impliment.Reassembler.{Node, merge_front, merge_back, merge_to, touches}

-- A node's indices are those of its bytes, and end below `hi`. A node in the set may be empty only
-- in the sense that its start is one past its end.
pub record IsNode (hi : ℕ) (x : Node) : Type 0 where
  pub spans : x.end_idx + 1 ≡ x.start_idx + length x.bytes
  pub below : x.end_idx < hi

-- From `lo` on, in order, with a gap of one byte at least between two nodes.
abbrev pub Chain : ℕ → ℕ → List Node → Type 0
Chain hi lo [] = Unit {0}
Chain hi lo (x ∷ xs) = (lo ≤ x.start_idx) × IsNode hi x × Chain hi (x.end_idx + 2) xs

-- The two nodes neither overlap nor touch.
abbrev pub Apart : Node → Node → Type 0
Apart nd x = (x.end_idx + 2 ≤ nd.start_idx) ⊎ (nd.end_idx + 2 ≤ x.start_idx)

abbrev pub total : List Node → ℕ
total [] = 0
total (x ∷ xs) = length x.bytes + total xs

-- The index lies in a node of the list.
abbrev pub Within : ℕ → Node → Type 0
Within i x = (x.start_idx ≤ i) × (i ≤ x.end_idx)

abbrev pub Held : ℕ → List Node → Type 0
Held i [] = ⊥
Held i (x ∷ xs) = Within i x ⊎ Held i xs

pub Chain-weaken : (hi lo lo' : ℕ) (xs : List Node) → lo' ≤ lo → Chain hi lo xs → Chain hi lo' xs
Chain-weaken hi lo lo' [] h c = tt
Chain-weaken hi lo lo' (x ∷ xs) h c = (omega arith, c.1, c.2)

-- The nodes of a chain hold no more bytes than lie between its ends.
pub total-le : (hi lo : ℕ) (xs : List Node) → Chain hi lo xs → lo ≤ hi + 1 → lo + total xs ≤ hi + 1
total-le hi lo [] c h = omega arith
total-le hi lo (x ∷ xs) (hl, hx, c) h =
    omega (arith, total-le hi (x.end_idx + 2) xs c (omega (arith, hx.below)), hx.spans)

pub Chain-Apart :
    (hi lo : ℕ) (nd : Node) (xs : List Node)
    → nd.end_idx + 2 ≤ lo
    → Chain hi lo xs
    → All (Apart nd) xs
Chain-Apart hi lo nd [] h c = tt
Chain-Apart hi lo nd (x ∷ xs) h c = (
  inr (omega arith),
  Chain-Apart hi lo nd xs h (Chain-weaken hi (x.end_idx + 2) lo xs (omega (arith, c.1.spans)) c.2),
)

module _ (hi : ℕ) (small : hi < u64_mod) where
  -- Merging two nodes that overlap or touch gives the node over both.
  pub merge_to-IsNode :
      (x nd : Node)
      → IsNode hi x
      → IsNode hi nd
      → touches x nd ≡ true
      → let m = merge_to x nd in
        IsNode hi m
        × ((m.start_idx ≤ x.start_idx) × (m.start_idx ≤ nd.start_idx))
        × ((m.start_idx ≡ x.start_idx) ⊎ (m.start_idx ≡ nd.start_idx))
        × ((x.end_idx ≤ m.end_idx) × (nd.end_idx ≤ m.end_idx))
        × ((m.end_idx ≡ x.end_idx) ⊎ (m.end_idx ≡ nd.end_idx))
  unfolding merge_to merge_front merge_back
  merge_to-IsNode x nd hx hn t =
      let front = take (nd.start_idx - x.start_idx) x.bytes in
      ground (
        arith,
        length-take (nd.start_idx - x.start_idx) x.bytes,
        length-append front nd.bytes,
        length-drop (length x.bytes - (x.end_idx - nd.end_idx)) x.bytes,
        length-append (front ++ nd.bytes)
            (drop (length x.bytes - (x.end_idx - nd.end_idx)) x.bytes),
        length-append nd.bytes (drop (length x.bytes - (x.end_idx - nd.end_idx)) x.bytes),
      )
