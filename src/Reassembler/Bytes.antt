-- ===== src/Reassembler/Bytes.antt =====
-- The bytes that a reassembler delivers are those of the stream that its substrings were cut from.
use tcp_impliment.Common.{
  ℕ, zero, suc, ◌+◌, ◌-◌, ◌≤◌, ◌<◌, ◌≡◌, inl, inr, arith, List, [], ◌∷◌, ◌++◌, length, take, drop,
  All, true, Bool-cases, ltb, length-append, length-take, subst,
}
use tcp_impliment.Common.Words.{u64_mod, sub64}
use tcp_impliment.Reassembler.{
  Node, node_lt, Reassembler, merge_front, merge_back, merge_to, touches, merge_loop, insert_node,
  cut_left, cut_right, node, max_idx,
}
use tcp_impliment.Reassembler.Nodes.{IsNode, Chain, merge_to-IsNode}
use tcp_impliment.Reassembler.Merge.{loop-cases}
use tcp_impliment.Reassembler.Window.{window_node}

-- The bytes stand in the stream from index `i` on.
abbrev pub Agrees : (ℕ → ℕ) → ℕ → List ℕ → Type 0
Agrees T i [] = Unit {0}
Agrees T i (b ∷ bs) = (b ≡ T i) × Agrees T (i + 1) bs

module _ (T : ℕ → ℕ) where
  pub Agrees-at : (i j : ℕ) (bs : List ℕ) → i ≡ j → Agrees T i bs → Agrees T j bs
  Agrees-at i j bs e a = subst (λ k. Agrees T k bs) e a

  pub Agrees-append :
      (i : ℕ) (xs ys : List ℕ) → Agrees T i xs → Agrees T (i + length xs) ys → Agrees T i (xs ++ ys)
  Agrees-append i [] ys a b = Agrees-at (i + 0) i ys (omega arith) b
  Agrees-append i (x ∷ xs) ys a b = (
    a.0,
    Agrees-append (i + 1) xs ys a.1
        (Agrees-at (i + suc (length xs)) (i + 1 + length xs) ys (omega arith) b),
  )

  pub Agrees-take : (i n : ℕ) (xs : List ℕ) → Agrees T i xs → Agrees T i (take n xs)
  Agrees-take i zero xs a = tt
  Agrees-take i (suc n) [] a = tt
  Agrees-take i (suc n) (x ∷ xs) a = (a.0, Agrees-take (i + 1) n xs a.1)

  pub Agrees-drop : (i n : ℕ) (xs : List ℕ) → Agrees T i xs → Agrees T (i + n) (drop n xs)
  Agrees-drop i zero xs a = Agrees-at i (i + 0) xs (omega arith) a
  Agrees-drop i (suc n) [] a = tt
  Agrees-drop i (suc n) (x ∷ xs) a =
      Agrees-at (i + 1 + n) (i + suc n) (drop n xs) (omega arith) (Agrees-drop (i + 1) n xs a.1)

  abbrev pub IsGenuine : Node → Type 0
  IsGenuine x = Agrees T x.start_idx x.bytes

  merge_front-IsGenuine :
      (hi : ℕ) (x nd : Node)
      → hi < u64_mod
      → IsNode hi x
      → IsNode hi nd
      → touches x nd ≡ true
      → IsGenuine x
      → IsGenuine nd
      → IsGenuine (merge_front x nd)
  unfolding merge_front
  merge_front-IsGenuine hi x nd small hx hn t gx gn =
      elim (Bool-cases (ltb x.start_idx nd.start_idx)) [
        | inl l ↦ rw l (
            Agrees-append x.start_idx (take (nd.start_idx - x.start_idx) x.bytes) nd.bytes
              (Agrees-take x.start_idx (nd.start_idx - x.start_idx) x.bytes gx)
              (Agrees-at nd.start_idx
                (x.start_idx + length (take (nd.start_idx - x.start_idx) x.bytes)) nd.bytes
                (ground (
                  arith,
                  hx.spans,
                  hn.below,
                  hx.below,
                  length-take (nd.start_idx - x.start_idx) x.bytes,
                ))
                gn))
        | inr l ↦ rw l gn
      ]

  merge_front-spans :
      (hi : ℕ) (x nd : Node)
      → hi < u64_mod
      → IsNode hi x
      → IsNode hi nd
      → touches x nd ≡ true
      → let f = merge_front x nd in
        (f.end_idx ≡ nd.end_idx) × (f.end_idx + 1 ≡ f.start_idx + length f.bytes)
  unfolding merge_front
  merge_front-spans hi x nd small hx hn t = ground (
    arith,
    hx.spans,
    hn.spans,
    hn.below,
    hx.below,
    length-take (nd.start_idx - x.start_idx) x.bytes,
    length-append (take (nd.start_idx - x.start_idx) x.bytes) nd.bytes,
  )

  merge_back-IsGenuine :
      (hi : ℕ) (x f : Node)
      → IsNode hi x
      → f.end_idx + 1 ≡ f.start_idx + length f.bytes
      → x.start_idx ≤ f.end_idx + 1
      → IsGenuine x
      → IsGenuine f
      → IsGenuine (merge_back x f)
  unfolding merge_back
  merge_back-IsGenuine hi x f hx e t gx gf = elim (Bool-cases (ltb f.end_idx x.end_idx)) [
    | inl l ↦
        let k = length x.bytes - (x.end_idx - f.end_idx) in
        rw l (
          Agrees-append f.start_idx f.bytes (drop k x.bytes) gf (
            Agrees-at (x.start_idx + k) (f.start_idx + length f.bytes) (drop k x.bytes)
              (ground (arith, hx.spans)) (Agrees-drop x.start_idx k x.bytes gx)))
    | inr l ↦ rw l gf
  ]

  merge_to-IsGenuine :
      (hi : ℕ) (x nd : Node)
      → hi < u64_mod
      → IsNode hi x
      → IsNode hi nd
      → touches x nd ≡ true
      → IsGenuine x
      → IsGenuine nd
      → IsGenuine (merge_to x nd)
  unfolding merge_to
  merge_to-IsGenuine hi x nd small hx hn t gx gn =
      let s = merge_front-spans hi x nd small hx hn t in
      merge_back-IsGenuine hi x (merge_front x nd) hx s.1 (ground (arith, hx.below, hn.below)) gx
        (merge_front-IsGenuine hi x nd small hx hn t gx gn)

  pub merge_loop-IsGenuine :
      (hi : ℕ) (xs : List Node) (lo : ℕ) (nd : Node) (u : ℕ)
      → hi < u64_mod
      → Chain hi lo xs
      → IsNode hi nd
      → All IsGenuine xs
      → IsGenuine nd
      → let m = merge_loop xs nd u in IsGenuine m.nd × All IsGenuine m.rest
  merge_loop-IsGenuine hi [] lo nd u small c hn g gn = unfold merge_loop in (gn, tt)
  merge_loop-IsGenuine hi (x ∷ xs) lo nd u small (hl, hx, c) hn (gx, g) gn =
      elim (loop-cases hi small x xs nd u hx hn) [
        | inl (t, e) ↦ rw e (
            merge_loop-IsGenuine hi xs (x.end_idx + 2) (merge_to x nd) (sub64 u (length x.bytes))
              small c (merge_to-IsNode hi small x nd hx hn t).0 g
              (merge_to-IsGenuine hi x nd small hx hn t gx gn))
        | inr (inl (t, e)) ↦ rw e (gn, (gx, g))
        | inr (inr (t, e)) ↦
            let ih = merge_loop-IsGenuine hi xs (x.end_idx + 2) nd u small c hn g gn in
            rw e (ih.0, (gx, ih.1))
      ]

  pub insert_node-IsGenuine :
      (nd : Node) (xs : List Node)
      → IsGenuine nd
      → All IsGenuine xs
      → All IsGenuine (insert_node nd xs)
  unfolding insert_node
  insert_node-IsGenuine nd [] gn g = (gn, tt)
  insert_node-IsGenuine nd (x ∷ xs) gn (gx, g) = elim (Bool-cases (node_lt nd x)) [
    | inl l ↦ rw l (gn, (gx, g))
    | inr l ↦ elim (Bool-cases (node_lt x nd)) [
      | inl k ↦ rw (l, k) (gx, insert_node-IsGenuine nd xs gn g)
      | inr k ↦ rw (l, k) (gx, g)
    ]
  ]

  cut_left-IsGenuine : (cur : ℕ) (nd : Node) → IsGenuine nd → IsGenuine (cut_left cur nd)
  unfolding cut_left
  cut_left-IsGenuine cur nd g = elim (Bool-cases (ltb nd.start_idx cur)) [
    | inl l ↦ rw l (
        Agrees-at (nd.start_idx + (cur - nd.start_idx)) cur (drop (cur - nd.start_idx) nd.bytes)
          (ground arith) (Agrees-drop nd.start_idx (cur - nd.start_idx) nd.bytes g))
    | inr l ↦ rw l g
  ]

  cut_right-IsGenuine : (last : ℕ) (nd : Node) → IsGenuine nd → IsGenuine (cut_right last nd)
  unfolding cut_right
  cut_right-IsGenuine last nd g = elim (Bool-cases (ltb last nd.end_idx)) [
    | inl l ↦ rw l (Agrees-take nd.start_idx (length nd.bytes - (nd.end_idx - last)) nd.bytes g)
    | inr l ↦ rw l g
  ]

  pub window_node-IsGenuine :
      (r : Reassembler) (bytes : List ℕ) (index : ℕ)
      → Agrees T index bytes
      → IsGenuine (window_node r bytes index)
  window_node-IsGenuine r bytes index a =
      cut_right-IsGenuine (max_idx r) (cut_left r.cur_idx (node index bytes))
        (cut_left-IsGenuine r.cur_idx (node index bytes) a)
