-- ===== src/Reassembler/Merge.antt =====
-- The merging loop of `push_substring`: what it leaves behind, and where it may begin.
use tcp_impliment.Common.{
  ℕ, zero, suc, ◌+◌, ◌≤◌, ◌<◌, ◌≡◌, ◌⊎◌, inl, inr, refl, sym, ap, subst, ◌↔◌, ◌∙◌, arith, List, [],
  ◌∷◌, length, All, Bool-cases, true, false, ltb,
}
use tcp_impliment.Common.Words.{u64_mod, sub64}
use tcp_impliment.Reassembler.{
  Node, node_lt, merge_to, touches, upper_bound, step_back, Merged, merge_loop, merge_from,
  merge_all,
}
use tcp_impliment.Reassembler.Nodes.{
  IsNode, Chain, Apart, total, Within, Held, Chain-weaken, Chain-Apart, merge_to-IsNode,
}

iff_trans : {A B C : Type 0} → A ↔ B → B ↔ C → A ↔ C
iff_trans f g = (λ a. g.0 (f.0 a), λ c. f.1 (g.1 c))

⊎-regroup : {M A B C : Type 0} → M ↔ (A ⊎ B) → (M ⊎ C) ↔ (A ⊎ B ⊎ C)
⊎-regroup e = (
  elim [ inl m ↦ elim (e.0 m) [ inl a ↦ inl a | inr b ↦ inr (inl b) ] | inr c ↦ inr (inr c) ],
  elim [ inl a ↦ inl (e.1 (inl a)) | inr (inl b) ↦ inl (e.1 (inr b)) | inr (inr c) ↦ inr c ],
)

⊎-swap_middle : {M A B C D : Type 0} → (M ⊎ C) ↔ (A ⊎ D) → (M ⊎ B ⊎ C) ↔ (A ⊎ B ⊎ D)
⊎-swap_middle e = (
  elim [
    | inl m ↦ elim (e.0 (inl m)) [ inl a ↦ inl a | inr d ↦ inr (inr d) ]
    | inr (inl b) ↦ inr (inl b)
    | inr (inr c) ↦ elim (e.0 (inr c)) [ inl a ↦ inl a | inr d ↦ inr (inr d) ]
  ],
  elim [
    | inl a ↦ elim (e.1 (inl a)) [ inl m ↦ inl m | inr c ↦ inr (inr c) ]
    | inr (inl b) ↦ inr (inl b)
    | inr (inr d) ↦ elim (e.1 (inr d)) [ inl m ↦ inl m | inr c ↦ inr (inr c) ]
  ],
)

-- What the loop leaves behind: a node that starts at `lo` or later, and the nodes apart from it.
pub record IsMerged (hi lo : ℕ) (m : Merged) : Type 0 where
  pub node : IsNode hi m.nd
  pub from : lo ≤ m.nd.start_idx
  pub chain : Chain hi lo m.rest
  pub apart : All (Apart m.nd) m.rest

module _ (hi : ℕ) (small : hi < u64_mod) where
  -- One round of the loop: merge, stop, or pass a node that lies before.
  pub loop-cases :
      (x : Node) (xs : List Node) (nd : Node) (u : ℕ)
      → IsNode hi x
      → IsNode hi nd
      → ((touches x nd ≡ true)
          × (merge_loop (x ∷ xs) nd u ≡ merge_loop xs (merge_to x nd) (sub64 u (length x.bytes))))
        ⊎ ((nd.end_idx + 2 ≤ x.start_idx)
            × (merge_loop (x ∷ xs) nd u ≡ record { rest = x ∷ xs; nd = nd; unassembled = u }))
        ⊎ ((x.end_idx + 2 ≤ nd.start_idx)
            × (let m = merge_loop xs nd u in
                merge_loop (x ∷ xs) nd u
                ≡ record { rest = x ∷ m.rest; nd = m.nd; unassembled = m.unassembled }))
  unfolding merge_loop
  loop-cases x xs nd u hx hn = elim (Bool-cases (touches x nd)) [
    | inl t ↦ inl (t, rw (t, merge_loop))
    | inr t ↦ elim (Bool-cases (ltb nd.end_idx x.start_idx)) [
      | inl e ↦ inr (inl (ground arith, rw (t, e, merge_loop)))
      | inr e ↦ inr (inr (ground arith, rw (t, e, merge_loop)))
    ]
  ]

  pub merge_loop-IsMerged :
      (xs : List Node) (lo : ℕ) (nd : Node) (u : ℕ)
      → Chain hi lo xs
      → IsNode hi nd
      → lo ≤ nd.start_idx
      → IsMerged hi lo (merge_loop xs nd u)
  unfolding merge_loop
  merge_loop-IsMerged [] lo nd u c hn h = record { node = hn; from = h; chain = tt; apart = tt }
  merge_loop-IsMerged (x ∷ xs) lo nd u (hl, hx, c) hn h = elim (loop-cases x xs nd u hx hn) [
    | inl (t, e) ↦
        let m = merge_to-IsNode hi small x nd hx hn t in
        subst (IsMerged hi lo) (sym e) (
          merge_loop-IsMerged xs lo (merge_to x nd) (sub64 u (length x.bytes))
            (Chain-weaken hi (x.end_idx + 2) lo xs (omega (arith, hx.spans)) c) m.0 (ground arith))
    | inr (inl (t, e)) ↦ subst (IsMerged hi lo) (sym e) (record {
      node = hn;
      from = h;
      chain = (hl, hx, c);
      apart = Chain-Apart hi (nd.end_idx + 2) nd (x ∷ xs) (omega arith) (t, hx, c);
    })
    | inr (inr (t, e)) ↦
        let ih = merge_loop-IsMerged xs (x.end_idx + 2) nd u c hn t in
        subst (IsMerged hi lo) (sym e) (record {
          node = ih.node;
          from = omega (arith, ih.from, hx.spans);
          chain = (hl, hx, ih.chain);
          apart = (inl ih.from, ih.apart);
        })
  ]

  merge_to-Within :
      (i : ℕ) (x nd : Node)
      → IsNode hi x
      → IsNode hi nd
      → touches x nd ≡ true
      → Within i (merge_to x nd) ↔ (Within i nd ⊎ Within i x)
  merge_to-Within i x nd hx hn t =
      let m = merge_to-IsNode hi small x nd hx hn t in
      (λ w. ground (arith, m), λ w. ground (arith, m))

  pub merge_loop-Chain :
      (xs : List Node) (lo : ℕ) (nd : Node) (u : ℕ)
      → Chain hi lo xs
      → IsNode hi nd
      → Chain hi lo (merge_loop xs nd u).rest
  merge_loop-Chain [] lo nd u c hn = unfold merge_loop in tt
  merge_loop-Chain (x ∷ xs) lo nd u (hl, hx, c) hn = elim (loop-cases x xs nd u hx hn) [
    | inl (t, e) ↦ rw e (
        merge_loop-Chain xs lo (merge_to x nd) (sub64 u (length x.bytes))
          (Chain-weaken hi (x.end_idx + 2) lo xs (omega (arith, hx.spans)) c)
          (merge_to-IsNode hi small x nd hx hn t).0)
    | inr (inl (t, e)) ↦ rw e (hl, hx, c)
    | inr (inr (t, e)) ↦ rw e (hl, hx, merge_loop-Chain xs (x.end_idx + 2) nd u c hn)
  ]

  -- The loop neither loses nor invents an index.
  pub merge_loop-Held :
      (i : ℕ) (xs : List Node) (lo : ℕ) (nd : Node) (u : ℕ)
      → Chain hi lo xs
      → IsNode hi nd
      → let m = merge_loop xs nd u in (Within i m.nd ⊎ Held i m.rest) ↔ (Within i nd ⊎ Held i xs)
  merge_loop-Held i [] lo nd u c hn = unfold merge_loop in (λ z. z, λ z. z)
  merge_loop-Held i (x ∷ xs) lo nd u (hl, hx, c) hn = elim (loop-cases x xs nd u hx hn) [
    | inl (t, e) ↦ rw e (
        iff_trans
          (merge_loop-Held i xs (x.end_idx + 2) (merge_to x nd) (sub64 u (length x.bytes)) c
            (merge_to-IsNode hi small x nd hx hn t).0)
          (⊎-regroup (merge_to-Within i x nd hx hn t)))
    | inr (inl (t, e)) ↦ rw e (λ z. z, λ z. z)
    | inr (inr (t, e)) ↦ rw e (⊎-swap_middle (merge_loop-Held i xs (x.end_idx + 2) nd u c hn))
  ]

  -- The counter goes down by the sizes of the nodes that were merged.
  pub merge_loop-total :
      (xs : List Node) (lo : ℕ) (nd : Node) (u extra : ℕ)
      → Chain hi lo xs
      → IsNode hi nd
      → u ≡ extra + total xs
      → u < u64_mod
      → let m = merge_loop xs nd u in m.unassembled ≡ extra + total m.rest
  merge_loop-total [] lo nd u extra c hn e hu = unfold merge_loop in e
  merge_loop-total (x ∷ xs) lo nd u extra (hl, hx, c) hn e hu = elim (loop-cases x xs nd u hx hn) [
    | inl (t, q) ↦ rw q (
        merge_loop-total xs (x.end_idx + 2) (merge_to x nd) (sub64 u (length x.bytes)) extra c
          (merge_to-IsNode hi small x nd hx hn t).0 (omega arith) (omega arith))
    | inr (inl (t, q)) ↦ rw q e
    | inr (inr (t, q)) ↦ rw q (
        merge_loop-total xs (x.end_idx + 2) nd u (extra + length x.bytes) c hn (omega arith) hu
        ∙ omega arith)
  ]

  skip :
      (x : Node) (xs : List Node) (nd : Node) (u : ℕ)
      → IsNode hi x
      → IsNode hi nd
      → x.end_idx + 2 ≤ nd.start_idx
      → let m = merge_loop xs nd u in
        merge_loop (x ∷ xs) nd u
        ≡ record { rest = x ∷ m.rest; nd = m.nd; unassembled = m.unassembled }
  skip x xs nd u hx hn h = elim (loop-cases x xs nd u hx hn) [
    | inl (t, e) ↦ absurd (ground arith)
    | inr (inl (t, e)) ↦ absurd (omega (arith, hn.spans, hx.spans))
    | inr (inr (t, e)) ↦ e
  ]

  upper_bound-below :
      (nd : Node) (xs : List Node) (lo k : ℕ)
      → Chain hi lo xs
      → upper_bound nd xs ≡ suc k
      → lo ≤ nd.start_idx
  unfolding upper_bound
  upper_bound-below nd [] lo k c e = absurd (omega arith)
  upper_bound-below nd (x ∷ xs) lo k c e = ground arith

  step_back-suc : (k : ℕ) → step_back (suc k) ≡ k
  step_back-suc k = ground arith

  step_back-add : (k : ℕ) → step_back (k + 1) ≡ k
  step_back-add k = ground arith

  merge_all-eq :
      (xs : List Node) (nd : Node) (u it : ℕ)
      → step_back (upper_bound nd xs) ≡ it
      → merge_all xs nd u ≡ merge_from it xs nd u
  unfolding merge_all
  merge_all-eq xs nd u it e = ap (λ k. merge_from k xs nd u) e

  merge_all-cons :
      (x : Node) (xs : List Node) (nd : Node) (u it : ℕ)
      → node_lt nd x ≡ false
      → upper_bound nd xs ≡ it
      → merge_all (x ∷ xs) nd u ≡ merge_from it (x ∷ xs) nd u
  merge_all-cons x xs nd u it t e =
      merge_all-eq (x ∷ xs) nd u it (unfold upper_bound in rw (t, e) (step_back-add it))

  merge_all-step :
      (x : Node) (xs : List Node) (nd : Node) (u lo k : ℕ)
      → Chain hi lo (x ∷ xs)
      → IsNode hi nd
      → node_lt nd x ≡ false
      → upper_bound nd xs ≡ k
      → merge_all xs nd u ≡ merge_loop xs nd u
      → merge_all (x ∷ xs) nd u ≡ merge_loop (x ∷ xs) nd u
  merge_all-step x xs nd u lo zero c hn t e ih = merge_all-cons x xs nd u 0 t e
  merge_all-step x xs nd u lo (suc k) (hl, hx, c) hn t e ih =
      merge_all-cons x xs nd u (suc k) t e
      ∙ ap (λ (m : Merged). record { rest = x ∷ m.rest; nd = m.nd; unassembled = m.unassembled })
          (sym (merge_all-eq xs nd u k (ap step_back e ∙ step_back-suc k)) ∙ ih)
      ∙ sym (skip x xs nd u hx hn (upper_bound-below nd xs (x.end_idx + 2) k c e))

  -- The set is searched for the place to begin: on a chain of nodes the loop from there does what
  -- the loop over the whole set would do.
  pub merge_all-merge_loop :
      (xs : List Node) (lo : ℕ) (nd : Node) (u : ℕ)
      → Chain hi lo xs
      → IsNode hi nd
      → merge_all xs nd u ≡ merge_loop xs nd u
  merge_all-merge_loop [] lo nd u c hn = unfold merge_all upper_bound in refl
  merge_all-merge_loop (x ∷ xs) lo nd u c hn = elim (Bool-cases (node_lt nd x)) [
    | inl t ↦ unfold merge_all upper_bound in rw t
    | inr t ↦
        merge_all-step x xs nd u lo (upper_bound nd xs) c hn t refl
          (merge_all-merge_loop xs (x.end_idx + 2) nd u c.2 hn)
  ]
