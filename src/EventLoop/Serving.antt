-- ===== src/EventLoop/Serving.antt =====
-- When the test for a busy wait never finds one.
use tcp_impliment.Common.{
  ℕ, ◌==◌, ◌≡◌, ◌≢◌, refl, arith, Bool, false, ◌&&◌, ◌⊎◌, inl, inr, Option, none, some,
  if◌then◌else◌, ◌>>=◌, if_false,
}
use tcp_impliment.Common.Words.{add32}
use tcp_impliment.EventLoop.{Rule, System, service_count, serve}

not_busy : (m n : ℕ) (b : Bool) → (m ≢ n) ⊎ (b ≡ false) → (m == n && b) ≡ false
not_busy m n b (inl moved) = ground (arith, moved)
not_busy m n b (inr bored) = ground arith

-- A callback behind which the descriptor has been served, or nothing more is wanted of it.
module _ {ℓ} {W : Type ℓ} (s : System W) (r : Rule W) (w : W) where
  abbrev pub Serves : Type ℓ
  Serves =
      (w' : W)
      → r.callback w ≡ some w'
      → (service_count s w r ≢ service_count s w' r) ⊎ (r.interest w' ≡ false)

  served_all :
      (o : Option W)
      → ((w' : W)
          → o ≡ some w'
          → (service_count s w r ≢ service_count s w' r) ⊎ (r.interest w' ≡ false))
      → (o >>= λ w'.
          if service_count s w r == service_count s w' r && r.interest w' then none else some w')
        ≡ o
  served_all none h = refl
  served_all (some w') h =
      if_false _ _
        (not_busy (service_count s w r) (service_count s w' r) (r.interest w') (h w' refl))

  pub Serves-serve : Serves → serve s w r ≡ r.callback w
  Serves-serve h = served_all (r.callback w) h

pub next_count : (n m : ℕ) → m ≡ add32 n 1 → n ≢ m
next_count n m e q = omega arith
