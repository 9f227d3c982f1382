-- ===== src/EventLoop/Openings.antt =====
-- The first loop of `wait_next_event`, before `poll` is called.
use tcp_impliment.Common.{
  subst, ◌≡◌, refl, sym, Bool, true, false, ◌&&◌, ◌||◌, ◌⊎◌, inl, inr, List, [], ◌∷◌, Bool-cases,
}
use tcp_impliment.EventLoop.{Direction, is_in, is_defunct, poll_fd, System, set_up, Rule, PollFd}

-- Through the rules before `poll`: one whose descriptor is at its end, if it reads, or closed is
-- cancelled; any other stays, with an entry that asks for its direction if it is interested.
pub data Opening {ℓ} {W : Type ℓ} (s : System W)
    : W → List (Rule W) → List (Rule W × PollFd) → W → Type ℓ where
  opened : {w : W} → Opening s w [] [] w
  defunct :
      {w w' : W} {r : Rule W} {rs : List (Rule W)} {ready : List (Rule W × PollFd)}
      → ((r.direction ≡ Direction.in_) × (s.eof w r.fd ≡ true)) ⊎ (s.closed w r.fd ≡ true)
      → Opening s (r.cancel w) rs ready w'
      → Opening s w (r ∷ rs) ready w'
  entered :
      {w w' : W} {r : Rule W} {rs : List (Rule W)} {ready : List (Rule W × PollFd)}
      → (r.direction ≡ Direction.out) ⊎ (s.eof w r.fd ≡ false)
      → s.closed w r.fd ≡ false
      → Opening s w rs ready w'
      → Opening s w
          (r ∷ rs)
          ((r, record { fd = r.fd; direction = r.direction; asked = r.interest w }) ∷ ready)
          w'

defunct_why :
    (d : Direction) (e c : Bool)
    → (is_in d && e || c) ≡ true
    → ((d ≡ Direction.in_) × (e ≡ true)) ⊎ (c ≡ true)
defunct_why d e true h = inr refl
defunct_why Direction.in_ true false h = inl (refl, refl)
defunct_why Direction.in_ false false h = cc
defunct_why Direction.out e false h = cc

entered_why :
    (d : Direction) (e c : Bool)
    → (is_in d && e || c) ≡ false
    → ((d ≡ Direction.out) ⊎ (e ≡ false)) × (c ≡ false)
entered_why Direction.out e false h = (inl refl, refl)
entered_why Direction.out e true h = cc
entered_why Direction.in_ true c h = cc
entered_why Direction.in_ false false h = (inr refl, refl)
entered_why Direction.in_ false true h = cc

module _ {ℓ} {W : Type ℓ} (s : System W) where
  module _ (w : W) (r : Rule W) (rs : List (Rule W)) where
    leaves_out : is_defunct s w r ≡ true → set_up s w (r ∷ rs) ≡ set_up s (r.cancel w) rs
    unfolding set_up
    leaves_out h = rw (h, set_up) refl

    enters :
        is_defunct s w r ≡ false
        → set_up s w (r ∷ rs) ≡ ((r, poll_fd s w r) ∷ (set_up s w rs).0, (set_up s w rs).1)
    unfolding set_up
    enters h = rw (h, set_up) refl

  pub set_up-Opening :
      (w : W) (rules : List (Rule W)) → Opening s w rules (set_up s w rules).0 (set_up s w rules).1
  unfolding set_up
  set_up-Opening w [] = opened
  set_up-Opening w (r ∷ rs) = elim (Bool-cases (is_defunct s w r)) [
    | inl gone ↦
        subst (λ x. Opening s w (r ∷ rs) x.0 x.1) (sym (leaves_out w r rs gone))
          (defunct (defunct_why r.direction (s.eof w r.fd) (s.closed w r.fd) gone)
            (set_up-Opening (r.cancel w) rs))
    | inr there ↦
        let (on, live) = entered_why r.direction (s.eof w r.fd) (s.closed w r.fd) there in
        subst (λ x. Opening s w (r ∷ rs) x.0 x.1) (sym (enters w r rs there))
          (entered on live (set_up-Opening w rs))
  ]
