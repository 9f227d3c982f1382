-- ===== src/Reassembler/Insert.antt =====
-- `set::insert` on a chain of nodes that the new node is apart from.
use tcp_impliment.Common.{
  ℕ, ◌+◌, ◌≤◌, ◌≡◌, ◌⊎◌, inl, inr, ◌↔◌, refl, arith, List, [], ◌∷◌, length, All,
}
use tcp_impliment.Reassembler.{Node, insert_node}
use tcp_impliment.Reassembler.Nodes.{IsNode, Chain, Apart, total, Within, Held}

insert-cases :
    (hi : ℕ) (nd x : Node) (xs : List Node)
    → IsNode hi nd
    → IsNode hi x
    → Apart nd x
    → ((nd.end_idx + 2 ≤ x.start_idx) × (insert_node nd (x ∷ xs) ≡ nd ∷ x ∷ xs))
      ⊎ ((x.end_idx + 2 ≤ nd.start_idx) × (insert_node nd (x ∷ xs) ≡ x ∷ insert_node nd xs))
unfolding insert_node
insert-cases hi nd x xs hn hx a = ground arith

pub insert_node-Chain :
    (hi lo : ℕ) (nd : Node) (xs : List Node)
    → IsNode hi nd
    → lo ≤ nd.start_idx
    → Chain hi lo xs
    → All (Apart nd) xs
    → Chain hi lo (insert_node nd xs)
insert_node-Chain hi lo nd [] hn h c a = unfold insert_node in (h, hn, tt)
insert_node-Chain hi lo nd (x ∷ xs) hn h (hl, hx, c) (a, as') =
    elim (insert-cases hi nd x xs hn hx a) [
      | inl (t, e) ↦ rw e (h, hn, (t, hx, c))
      | inr (t, e) ↦ rw e (hl, hx, insert_node-Chain hi (x.end_idx + 2) nd xs hn t c as')
    ]

pub insert_node-total :
    (hi lo : ℕ) (nd : Node) (xs : List Node)
    → IsNode hi nd
    → Chain hi lo xs
    → All (Apart nd) xs
    → total (insert_node nd xs) ≡ length nd.bytes + total xs
insert_node-total hi lo nd [] hn c a = unfold insert_node in refl
insert_node-total hi lo nd (x ∷ xs) hn (hl, hx, c) (a, as') =
    elim (insert-cases hi nd x xs hn hx a) [
      | inl (t, e) ↦ rw e
      | inr (t, e) ↦ rw e (omega (arith, insert_node-total hi (x.end_idx + 2) nd xs hn c as'))
    ]

⊎-second : {M A B C : Type 0} → M ↔ (A ⊎ C) → (B ⊎ M) ↔ (A ⊎ B ⊎ C)
⊎-second e = (
  elim [ inl b ↦ inr (inl b) | inr m ↦ elim (e.0 m) [ inl a ↦ inl a | inr c ↦ inr (inr c) ] ],
  elim [ inl a ↦ inr (e.1 (inl a)) | inr (inl b) ↦ inl b | inr (inr c) ↦ inr (e.1 (inr c)) ],
)

pub insert_node-Held :
    (hi lo i : ℕ) (nd : Node) (xs : List Node)
    → IsNode hi nd
    → Chain hi lo xs
    → All (Apart nd) xs
    → Held i (insert_node nd xs) ↔ (Within i nd ⊎ Held i xs)
insert_node-Held hi lo i nd [] hn c a = unfold insert_node in (λ z. z, λ z. z)
insert_node-Held hi lo i nd (x ∷ xs) hn (hl, hx, c) (a, as') =
    elim (insert-cases hi nd x xs hn hx a) [
      | inl (t, e) ↦ rw e (λ z. z, λ z. z)
      | inr (t, e) ↦ rw e (⊎-second (insert_node-Held hi (x.end_idx + 2) i nd xs hn c as'))
    ]

-- A node at the front of the chain leaves the rest to begin behind it.
pub Chain-behind :
    (hi c : ℕ) (nd : Node) (xs : List Node)
    → nd.start_idx ≤ c
    → Chain hi (c + 1) xs
    → All (Apart nd) xs
    → Chain hi (nd.end_idx + 1 + 1) xs
Chain-behind hi c nd [] h ch a = tt
Chain-behind hi c nd (x ∷ xs) h (hl, hx, ch) (a, as') = (grind (arith, hx.spans), hx, ch)
