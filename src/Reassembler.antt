-- ===== src/Reassembler.antt =====
-- libsponge/stream_reassembler.hh and stream_reassembler.cc: out-of-order substrings put back
-- together. The `std::set<node>` is the list of its nodes in ascending order, and an iterator is a
-- position in it. A subtraction stands as it is written where the test above it rules out a wrap.
pub mod Nodes
pub mod Merge
pub mod Insert
pub mod Window
pub mod Commit
pub mod Push
pub mod Stored
pub mod Bytes
pub mod Delivery
pub mod Ending
use tcp_impliment.Common.{
  ℕ, ◌+◌, ◌-◌, ◌^◌, Bool, true, false, ◌&&◌, ◌||◌, List, [], ◌∷◌, ◌++◌, ltb, leb, ◌==◌,
  if◌then◌else◌, length, take, drop,
}
use tcp_impliment.Common.Words.{add64, sub64}
use tcp_impliment.ByteStream
use tcp_impliment.ByteStream.{ByteStream}

pub record Node : Type 0 where
  pub start_idx : ℕ
  pub end_idx : ℕ
  pub bytes : List ℕ

-- The constructor `node(index, DATA)`: `end_idx` is `index+DATA.size()-1`.
abbrev pub node : ℕ → List ℕ → Node
node index bytes = record {
  start_idx = index;
  end_idx = sub64 (add64 index (length bytes)) 1;
  bytes = bytes;
}

-- `operator<`: by start, then by end.
abbrev pub node_lt : Node → Node → Bool
node_lt a b =
    if a.start_idx == b.start_idx then ltb a.end_idx b.end_idx else ltb a.start_idx b.start_idx

-- `mergeTo(a, b)`, in two halves: what `a` has before `b`, and what it has after `b`.
unfoldable pub merge_front : Node → Node → Node
merge_front a b =
    if ltb a.start_idx b.start_idx
    then record {
      start_idx = a.start_idx;
      end_idx = b.end_idx;
      bytes = take (b.start_idx - a.start_idx) a.bytes ++ b.bytes;
    }
    else b

unfoldable pub merge_back : Node → Node → Node
merge_back a b =
    if ltb b.end_idx a.end_idx
    then record {
      start_idx = b.start_idx;
      end_idx = a.end_idx;
      bytes = b.bytes ++ drop (length a.bytes - (a.end_idx - b.end_idx)) a.bytes;
    }
    else b

unfoldable pub merge_to : Node → Node → Node
merge_to a b = merge_back a (merge_front a b)

-- `upper_bound`: the position of the first node above `nd`.
unfoldable pub upper_bound : Node → List Node → ℕ
upper_bound nd [] = 0
upper_bound nd (x ∷ xs) = let later = upper_bound nd xs in if node_lt nd x then 0 else later + 1

-- `it--` unless `it` is at the beginning.
abbrev pub step_back : ℕ → ℕ
step_back it = if it == 0 then it else it - 1

-- The test of the merging loop: the two nodes overlap or touch.
abbrev pub touches : Node → Node → Bool
touches x nd = leb nd.start_idx (add64 x.end_idx 1) && leb x.start_idx (add64 nd.end_idx 1)

pub record Merged : Type 0 where
  pub rest : List Node
  pub nd : Node
  pub unassembled : ℕ

-- The `while` loop, from the iterator on.
unfoldable pub merge_loop : List Node → Node → ℕ → Merged
merge_loop [] nd u = record { rest = []; nd = nd; unassembled = u }
merge_loop (x ∷ xs) nd u = elim (touches x nd) [
  | true ↦ merge_loop xs (merge_to x nd) (sub64 u (length x.bytes))
  | false ↦ elim (ltb nd.end_idx x.start_idx) [
    | true ↦ record { rest = x ∷ xs; nd = nd; unassembled = u }
    | false ↦
        let m = merge_loop xs nd u in
        record { rest = x ∷ m.rest; nd = m.nd; unassembled = m.unassembled }
  ]
]

-- The loop from position `it`: the nodes in front of the iterator stay.
abbrev pub merge_from : ℕ → List Node → Node → ℕ → Merged
merge_from it nodes nd u =
    let m = merge_loop (drop it nodes) nd u in
    record { rest = take it nodes ++ m.rest; nd = m.nd; unassembled = m.unassembled }

-- The whole merging step.
unfoldable pub merge_all : List Node → Node → ℕ → Merged
merge_all nodes nd u = merge_from (step_back (upper_bound nd nodes)) nodes nd u

-- `set::insert`: nothing happens if an equivalent node is there.
unfoldable pub insert_node : Node → List Node → List Node
insert_node nd [] = nd ∷ []
insert_node nd (x ∷ xs) =
    let later = insert_node nd xs in
    if node_lt nd x then nd ∷ x ∷ xs else if node_lt x nd then x ∷ later else x ∷ xs

pub record Reassembler : Type 0 where
  pub output : ByteStream
  pub capacity : ℕ
  pub seg_buffer : List Node
  pub input_end_idx : ℕ
  pub cur_idx : ℕ
  pub unassembled_bytes : ℕ

-- The constructor; `_input_end_idx` begins as `UINT32_MAX`.
abbrev pub new : ℕ → Reassembler
new capacity = record {
  output = ByteStream.new capacity;
  capacity = capacity;
  seg_buffer = [];
  input_end_idx = 2 ^ 32 - 1;
  cur_idx = 0;
  unassembled_bytes = 0;
}

unfoldable pub max_idx : Reassembler → ℕ
max_idx r = sub64 (sub64 (add64 r.cur_idx r.capacity) (ByteStream.buffer_size r.output)) 1

-- The two cuts to the window from `cur` to `max`.
unfoldable pub cut_left : ℕ → Node → Node
cut_left cur nd =
    if ltb nd.start_idx cur
    then record {
      start_idx = cur;
      end_idx = nd.end_idx;
      bytes = drop (cur - nd.start_idx) nd.bytes;
    }
    else nd

unfoldable pub cut_right : ℕ → Node → Node
cut_right last nd =
    if ltb last nd.end_idx
    then record {
      start_idx = nd.start_idx;
      end_idx = last;
      bytes = take (length nd.bytes - (nd.end_idx - last)) nd.bytes;
    }
    else nd

-- `if(_cur_idx>=_input_end_idx)_outputStream.end_input();`
abbrev pub check_end : ℕ → ℕ → ByteStream → ByteStream
check_end cur input_end s = if leb input_end cur then ByteStream.end_input s else s

-- The end of `push_substring`: write what is next in the stream, or keep it for later.
unfoldable pub commit : Reassembler → Merged → Reassembler
commit r m =
    let nd = m.nd in
    if nd.start_idx == r.cur_idx
    then (let cur = add64 nd.end_idx 1 in
        record r {
          output = check_end cur r.input_end_idx (ByteStream.write r.output nd.bytes).1;
          seg_buffer = m.rest;
          cur_idx = cur;
          unassembled_bytes = m.unassembled;
        })
    else record r {
      seg_buffer = insert_node nd m.rest;
      unassembled_bytes = add64 m.unassembled (length nd.bytes);
    }

abbrev pub is_empty : List ℕ → Bool
is_empty [] = true
is_empty (b ∷ bs) = false

-- `if(eof){_input_end_idx=index+data.size();}`
abbrev pub mark_end : Reassembler → List ℕ → ℕ → Bool → Reassembler
mark_end r bytes index eof = record r {
  input_end_idx = if eof then add64 index (length bytes) else r.input_end_idx;
}

-- The first test: the substring lies wholly outside the window, or is empty.
abbrev pub outside : Reassembler → List ℕ → ℕ → Bool
outside r bytes index =
    let nd = node index bytes in
    ltb nd.end_idx r.cur_idx || ltb (max_idx r) nd.start_idx || is_empty bytes

unfoldable pub push_substring : Reassembler → List ℕ → ℕ → Bool → Reassembler
push_substring r bytes index eof =
    let r' = mark_end r bytes index eof in
    if outside r bytes index
    then record r' { output = check_end r.cur_idx r'.input_end_idx r.output }
    else (let nd = cut_right (max_idx r) (cut_left r.cur_idx (node index bytes)) in
        commit r' (merge_all r.seg_buffer nd r.unassembled_bytes))

-- `empty()`.
abbrev pub empty : Reassembler → Bool
empty r = r.unassembled_bytes == 0
