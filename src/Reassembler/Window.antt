-- ===== src/Reassembler/Window.antt =====
-- The window of the reassembler, and the cuts of a substring to it.
use tcp_impliment.Common.{
  ℕ, ◌+◌, ◌-◌, ◌≤◌, ◌<◌, ◌≡◌, ◌↔◌, arith, List, [], ◌∷◌, length, drop, true, false, length-take,
  length-drop,
}
use tcp_impliment.Common.Words.{u64_mod}
use tcp_impliment.ByteStream.Invariant
use tcp_impliment.Reassembler.{
  Node, node, Reassembler, max_idx, cut_left, cut_right, is_empty, outside,
}
use tcp_impliment.Reassembler.Nodes.{IsNode, Chain, total, Within}

-- The first index that the window does not reach: what is read plus the capacity.
abbrev pub window_end : Reassembler → ℕ
window_end r = r.output.total_read + r.capacity

pub record IsValid (r : Reassembler) : Type 0 where
  pub stream : Invariant.IsValid r.output
  pub same_capacity : r.output.capacity ≡ r.capacity
  pub positive : 0 < r.capacity
  pub written : r.output.total_read + r.output.size ≡ r.cur_idx
  pub chain : Chain (window_end r) (r.cur_idx + 1) r.seg_buffer
  pub counted : r.unassembled_bytes ≡ total r.seg_buffer

-- The indices of the substring and of the window stay below 2 ^ 64.
pub record Fits (r : Reassembler) (bytes : List ℕ) (index : ℕ) : Type 0 where
  pub window : r.cur_idx + r.capacity < u64_mod
  pub indices : index + length bytes < u64_mod

-- The index belongs to the substring, and to the window.
pub record Offered (r : Reassembler) (bytes : List ℕ) (index i : ℕ) : Type 0 where
  pub from : index ≤ i
  pub to : i < index + length bytes
  pub inside : i < window_end r

pub max_idx-window_end :
    (r : Reassembler) → IsValid r → r.cur_idx + r.capacity < u64_mod → max_idx r + 1 ≡ window_end r
unfolding max_idx
max_idx-window_end r v h = omega (arith, v.stream.fits)

nonempty : (bytes : List ℕ) → is_empty bytes ≡ false → 0 < length bytes
nonempty [] e = cc
nonempty (b ∷ bs) e = omega arith

-- The substring cut to the window.
abbrev pub window_node : Reassembler → List ℕ → ℕ → Node
window_node r bytes index = cut_right (max_idx r) (cut_left r.cur_idx (node index bytes))

pub window_node-IsNode :
    (r : Reassembler) (bytes : List ℕ) (index : ℕ)
    → IsValid r
    → Fits r bytes index
    → outside r bytes index ≡ false
    → IsNode (window_end r) (window_node r bytes index)
      × (r.cur_idx ≤ (window_node r bytes index).start_idx)
unfolding cut_left cut_right
window_node-IsNode r bytes index v f o =
    let m = max_idx-window_end r v f.window in
    let back = drop (r.cur_idx - index) bytes in
    ground (
      arith,
      m,
      f.indices,
      v.written,
      v.stream.fits,
      nonempty bytes,
      length-drop (r.cur_idx - index) bytes,
      length-take (length bytes - (index + length bytes - 1 - max_idx r)) bytes,
      length-take (length back - (index + length bytes - 1 - max_idx r)) back,
    )

-- Of an offered substring the cut keeps just the indices that are offered and not yet written.
pub window_node-Within :
    (r : Reassembler) (bytes : List ℕ) (index i : ℕ)
    → IsValid r
    → Fits r bytes index
    → outside r bytes index ≡ false
    → Within i (window_node r bytes index) ↔ (Offered r bytes index i × (r.cur_idx ≤ i))
unfolding cut_left cut_right
window_node-Within r bytes index i v f o =
    let m = max_idx-window_end r v f.window in
    (
      λ w. ground (arith, m, f.indices, nonempty bytes),
      λ w. ground (arith, m, f.indices, nonempty bytes),
    )

-- What lies outside offers nothing that is not written already.
pub outside-Offered :
    (r : Reassembler) (bytes : List ℕ) (index i : ℕ)
    → IsValid r
    → Fits r bytes index
    → outside r bytes index ≡ true
    → Offered r bytes index i
    → i < r.cur_idx
outside-Offered r [] index i v f o w = absurd (omega (arith, w.from, w.to))
outside-Offered r (b ∷ bs) index i v f o w =
    let m = max_idx-window_end r v f.window in ground (arith, m, f.indices, w.from, w.to, w.inside)
