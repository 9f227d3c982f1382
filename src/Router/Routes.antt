-- ===== src/Router/Routes.antt =====
-- The order of the routes, and which one is found.
use tcp_impliment.Common.{
  Option-cases, subst, ◌++◌, ℕ, ◌≤◌, ◌<◌, ◌≡◌, refl, sym, ap, ◌∙◌, arith, Bool, true, false, Option,
  none, some, List, [], ◌∷◌, All, Bool-cases, inl, inr, ltb, is_some, ltb→lt,
}
use tcp_impliment.Router.{RoutNode, hop_lt, rout_lt, insert_route, matches, find_route}

abbrev pub IsMatch : ℕ → RoutNode → Type 0
IsMatch ip x = matches x.route_prefix x.prefix_length ip ≡ true

-- Routes without a next hop first, then by falling length.
abbrev pub IsBefore : RoutNode → RoutNode → Type 0
IsBefore x y =
    (is_some x.next_hop ≡ true) → (is_some y.next_hop ≡ true) × (y.prefix_length < x.prefix_length)

abbrev pub IsOrdered : List RoutNode → Type 0
IsOrdered [] = Unit {0}
IsOrdered (x ∷ xs) = All (IsBefore x) xs × IsOrdered xs

before_lem :
    (a b : Option ℕ) (m n : ℕ)
    → hop_lt a b m n ≡ true
    → is_some a ≡ true
    → (is_some b ≡ true) × (n < m)
before_lem none b m n e h = cc
before_lem (some a) none m n e h = cc
before_lem (some a) (some b) m n e h = (refl, ltb→lt n m e)

rout_lt-IsBefore : (x y : RoutNode) → rout_lt x y ≡ true → IsBefore x y
rout_lt-IsBefore x y e = before_lem x.next_hop y.next_hop x.prefix_length y.prefix_length e

IsBefore-trans : (x y z : RoutNode) → IsBefore x y → IsBefore y z → IsBefore x z
IsBefore-trans x y z p q h = let a = p h in let b = q a.0 in (b.0, omega (arith, a.1, b.1))

All-IsBefore :
    (x y : RoutNode) (zs : List RoutNode) → IsBefore x y → All (IsBefore y) zs → All (IsBefore x) zs
All-IsBefore x y [] p q = tt
All-IsBefore x y (z ∷ zs) p (q, qs) = (IsBefore-trans x y z p q, All-IsBefore x y zs p qs)

pub insert_front :
    (x y : RoutNode) (ys : List RoutNode)
    → rout_lt x y ≡ true
    → insert_route x (y ∷ ys) ≡ x ∷ y ∷ ys
unfolding insert_route
insert_front x y ys e = rw (e, insert_route) refl

pub insert_later :
    (x y : RoutNode) (ys : List RoutNode)
    → rout_lt x y ≡ false
    → rout_lt y x ≡ true
    → insert_route x (y ∷ ys) ≡ y ∷ insert_route x ys
unfolding insert_route
insert_later x y ys e f = rw (e, f, insert_route) refl

pub insert_same :
    (x y : RoutNode) (ys : List RoutNode)
    → rout_lt x y ≡ false
    → rout_lt y x ≡ false
    → insert_route x (y ∷ ys) ≡ y ∷ ys
unfolding insert_route
insert_same x y ys e f = rw (e, f, insert_route) refl

pub insert_empty : (x : RoutNode) → insert_route x [] ≡ x ∷ []
unfolding insert_route
insert_empty x = refl

All-insert_route :
    (P : RoutNode → Type 0) (x : RoutNode) (xs : List RoutNode)
    → P x
    → All P xs
    → All P (insert_route x xs)
All-insert_route P x [] p ps = subst (All P) (sym (insert_empty x)) (p, tt)
All-insert_route P x (y ∷ ys) p (q, qs) = elim (Bool-cases (rout_lt x y)) [
  | inl less ↦ subst (All P) (sym (insert_front x y ys less)) (p, (q, qs))
  | inr more ↦ elim (Bool-cases (rout_lt y x)) [
    | inl after ↦
        subst (All P) (sym (insert_later x y ys more after)) (q, All-insert_route P x ys p qs)
    | inr same ↦ subst (All P) (sym (insert_same x y ys more same)) (q, qs)
  ]
]

-- Adding a route keeps the order.
pub insert_route-IsOrdered :
    (x : RoutNode) (xs : List RoutNode) → IsOrdered xs → IsOrdered (insert_route x xs)
insert_route-IsOrdered x [] o = subst IsOrdered (sym (insert_empty x)) (tt, tt)
insert_route-IsOrdered x (y ∷ ys) (b, o) = elim (Bool-cases (rout_lt x y)) [
  | inl less ↦
      let p = rout_lt-IsBefore x y less in
      subst IsOrdered (sym (insert_front x y ys less)) ((p, All-IsBefore x y ys p b), (b, o))
  | inr more ↦ elim (Bool-cases (rout_lt y x)) [
    | inl after ↦ subst IsOrdered (sym (insert_later x y ys more after)) (
      All-insert_route (IsBefore y) x ys (rout_lt-IsBefore y x after) b,
      insert_route-IsOrdered x ys o,
    )
    | inr same ↦ subst IsOrdered (sym (insert_same x y ys more same)) (b, o)
  ]
]

-- A route that matches has a next hop and is not longer.
abbrev pub IsNotBetter : ℕ → RoutNode → RoutNode → Type 0
IsNotBetter ip r x =
    IsMatch ip x → (is_some x.next_hop ≡ true) × (x.prefix_length ≤ r.prefix_length)

after-IsNotBetter :
    (r : RoutNode) (xs : List RoutNode) (ip : ℕ)
    → is_some r.next_hop ≡ true
    → All (IsBefore r) xs
    → All (IsNotBetter ip r) xs
after-IsNotBetter r [] ip h b = tt
after-IsNotBetter r (x ∷ xs) ip h (b, bs) =
    (λ m. let p = b h in (p.0, omega (arith, p.1)), after-IsNotBetter r xs ip h bs)

some-inj : {a b : RoutNode} → some a ≡ some b → a ≡ b
some-inj e = cc

pub find_here :
    (x : RoutNode) (xs : List RoutNode) (ip : ℕ) → IsMatch ip x → find_route (x ∷ xs) ip ≡ some x
unfolding find_route
find_here x xs ip m = rw (m, find_route) refl

pub find_later :
    (x : RoutNode) (xs : List RoutNode) (ip : ℕ)
    → matches x.route_prefix x.prefix_length ip ≡ false
    → find_route (x ∷ xs) ip ≡ find_route xs ip
unfolding find_route
find_later x xs ip m = rw (m, find_route) refl

pub find_none : (ip : ℕ) → find_route [] ip ≡ none
unfolding find_route
find_none ip = refl

-- The route that is found, if it has a next hop, is the longest match of all.
abbrev pub IsLongest : List RoutNode → ℕ → RoutNode → Type 0
IsLongest xs ip r = IsMatch ip r × All (IsNotBetter ip r) xs

no_route : {r : RoutNode} → ◌≡◌ {A = Option RoutNode} none (some r) → ⊥
no_route e = cc

no_match : (b : Bool) → b ≡ true → b ≡ false → ⊥
no_match b p q = cc

-- In ordered routes, if the one that is found has a next hop, then it matches, every route that
-- matches has a next hop, and none of them has a longer prefix.
pub find_route-IsLongest :
    (xs : List RoutNode) (ip : ℕ) (r : RoutNode)
    → IsOrdered xs
    → find_route xs ip ≡ some r
    → is_some r.next_hop ≡ true
    → IsLongest xs ip r
find_route-IsLongest [] ip r o e h = absurd (no_route (sym (find_none ip) ∙ e))
find_route-IsLongest (x ∷ xs) ip r (b, o) e h =
    elim (Bool-cases (matches x.route_prefix x.prefix_length ip)) [
      | inl m ↦
          let q : x ≡ r = some-inj (sym (find_here x xs ip m) ∙ e) in
          let hx : is_some x.next_hop ≡ true = ap (λ (y : RoutNode). is_some y.next_hop) q ∙ h in
          subst (IsLongest (x ∷ xs) ip) q
            (m, ((λ _. (hx, omega arith)), after-IsNotBetter x xs ip hx b))
      | inr n ↦
          let ih = find_route-IsLongest xs ip r o (sym (find_later x xs ip n) ∙ e) h in
          (ih.0, ((λ m. absurd (no_match (matches x.route_prefix x.prefix_length ip) m n)), ih.1))
    ]

lt_direct : (o p : Option ℕ) (m n : ℕ) → o ≡ none → hop_lt o p m n ≡ true
lt_direct none p m n e = refl
lt_direct (some h) p m n e = cc

direct_first : (x : RoutNode) (xs : List RoutNode) → x.next_hop ≡ none → insert_route x xs ≡ x ∷ xs
direct_first x [] d = insert_empty x
direct_first x (y ∷ ys) d =
    insert_front x y ys (lt_direct x.next_hop y.next_hop x.prefix_length y.prefix_length d)

lt_hop : (o p : Option ℕ) (m n : ℕ) → is_some o ≡ true → p ≡ none → hop_lt o p m n ≡ false
lt_hop none p m n a e = cc
lt_hop (some h) none m n a e = refl
lt_hop (some h) (some k) m n a e = cc

hop_lt_lem :
    (o p : Option ℕ) (m n : ℕ) → is_some o ≡ true → is_some p ≡ true → hop_lt o p m n ≡ ltb n m
hop_lt_lem none p m n a b = cc
hop_lt_lem (some h) none m n a b = cc
hop_lt_lem (some h) (some k) m n a b = refl

equal_length :
    (x y : RoutNode)
    → is_some x.next_hop ≡ true
    → is_some y.next_hop ≡ true
    → x.prefix_length ≡ y.prefix_length
    → rout_lt x y ≡ false
equal_length x y hx hy e =
    hop_lt_lem x.next_hop y.next_hop x.prefix_length y.prefix_length hx hy ∙ ground arith

between-IsBefore :
    (z y : RoutNode) (before after : List RoutNode)
    → All (IsBefore z) (before ++ y ∷ after)
    → IsBefore z y
between-IsBefore z y [] after (b, bs) = b
between-IsBefore z y (w ∷ ws) after (b, bs) = between-IsBefore z y ws after bs

-- A node that stands before one of the same length stands before the new one too.
stands_before :
    (z y x : RoutNode)
    → IsBefore z y
    → is_some x.next_hop ≡ true
    → x.prefix_length ≡ y.prefix_length
    → (rout_lt x z ≡ false) × (rout_lt z x ≡ true)
stands_before z y x b hx e = elim (Option-cases z.next_hop) [
  | inl d ↦ (
    lt_hop x.next_hop z.next_hop x.prefix_length z.prefix_length hx d,
    lt_direct z.next_hop x.next_hop z.prefix_length x.prefix_length d,
  )
  | inr (k, d) ↦
      let hz : is_some z.next_hop ≡ true = ap is_some d in
      let p = b hz in
      (
        hop_lt_lem x.next_hop z.next_hop x.prefix_length z.prefix_length hx hz
            ∙ ground (arith, p.1),
        hop_lt_lem z.next_hop x.next_hop z.prefix_length x.prefix_length hz hx
            ∙ ground (arith, p.1),
      )
]

-- A route without a next hop is put in front of every other, and is found for every address that
-- it matches, whatever longer prefixes the other routes have.
pub find_route-direct :
    (x : RoutNode) (xs : List RoutNode) (ip : ℕ)
    → x.next_hop ≡ none
    → IsMatch ip x
    → find_route (insert_route x xs) ip ≡ some x
find_route-direct x xs ip d m =
    ap (λ l. find_route l ip) (direct_first x xs d) ∙ find_here x xs ip m

-- A route with a next hop is not added if one with a next hop and a prefix of the same length is
-- there, whatever their prefixes.
pub insert_route_dropped :
    (x y : RoutNode) (before after : List RoutNode)
    → IsOrdered (before ++ y ∷ after)
    → is_some x.next_hop ≡ true
    → is_some y.next_hop ≡ true
    → x.prefix_length ≡ y.prefix_length
    → insert_route x (before ++ y ∷ after) ≡ before ++ y ∷ after
insert_route_dropped x y [] after o hx hy e =
    insert_same x y after (equal_length x y hx hy e) (equal_length y x hy hx (sym e))
insert_route_dropped x y (z ∷ zs) after (b, o) hx hy e =
    let p = stands_before z y x (between-IsBefore z y zs after b) hx e in
    insert_later x z (zs ++ y ∷ after) p.0 p.1
    ∙ ap (λ l. z ∷ l) (insert_route_dropped x y zs after o hx hy e)
