-- ===== src/Router/Routing.antt =====
-- Where a datagram goes, and what the router does with the queues.
use tcp_impliment.Common.{
  zero, suc, ◌⊎◌, le→leb, le→leb, ◌⊎◌, ℕ, ◌≤◌, ◌<◌, ◌≡◌, ◌≢◌, refl, ap, Option-cases, ◌-◌, ◌∙◌,
  arith, false, none, some, List, [], ◌∷◌, Bool-cases, inl, inr, get_elem?, get_or, leb, if_true,
  if_false,
}
use tcp_impliment.Ipv4.{Ipv4Datagram, serialize_datagram}
use tcp_impliment.NetworkInterface
use tcp_impliment.NetworkInterface.{NetworkInterface, datagram_frame}
use tcp_impliment.NetworkInterface.Sending.{Sends, ipv4_frame, unset, send_datagram-Sends}
use tcp_impliment.Router.{
  Router, AsyncNetworkInterface, RoutNode, find_route, set, send_by, send_along, decrement_ttl,
  route_one_datagram,
}

get-set_self :
    (xs : List AsyncNetworkInterface) (n : ℕ) (a b : AsyncNetworkInterface)
    → get_elem? xs n ≡ some a
    → get_elem? (set xs n b) n ≡ some b
get-set_self [] n a b e = cc
get-set_self (x ∷ xs) zero a b e = refl
get-set_self (x ∷ xs) (suc n) a b e = get-set_self xs n a b e

get-set_other :
    (xs : List AsyncNetworkInterface) (m n : ℕ) (b : AsyncNetworkInterface)
    → m ≢ n
    → get_elem? (set xs n b) m ≡ get_elem? xs m
get-set_other [] m n b h = refl
get-set_other (x ∷ xs) zero zero b h = absurd (h refl)
get-set_other (x ∷ xs) zero (suc n) b h = refl
get-set_other (x ∷ xs) (suc m) zero b h = refl
get-set_other (x ∷ xs) (suc m) (suc n) b h = get-set_other xs m n b (λ e. h (ap suc e))

-- The datagram with its time to live one less.
abbrev pub lowered : Ipv4Datagram → Ipv4Datagram
lowered d = record { header = record (d.header) { ttl = d.header.ttl - 1 }; payload = d.payload }

-- One interface has sent the datagram, and nothing else has changed.
pub record Forwards (r r' : Router) (n : ℕ) (a : AsyncNetworkInterface) (payload : List (List ℕ))
    (hop : ℕ) : Type 0 where
  pub routes : r'.rout_map ≡ r.rout_map
  pub others : (m : ℕ) → m ≢ n → get_elem? r'.interfaces m ≡ get_elem? r.interfaces m
  pub interface : NetworkInterface
  pub updated : get_elem? r'.interfaces n ≡ some (record a { interface = interface })
  pub sends :
      Sends a.interface interface hop (ipv4_frame a.interface.ethernet_address unset payload)

-- What becomes of a datagram: it is dropped, or leaves by the interface of the route found.
pub data Routed (r r' : Router) (d : Ipv4Datagram) (payload : List (List ℕ)) : Type 0 where
  dropped :
      (d.header.ttl ≤ 1) ⊎ (find_route r.rout_map d.header.dst ≡ none)
      → r' ≡ r
      → Routed r r' d payload
  forwarded :
      (x : RoutNode) (a : AsyncNetworkInterface)
      → 1 < d.header.ttl
      → find_route r.rout_map d.header.dst ≡ some x
      → get_elem? r.interfaces x.interface_num ≡ some a
      → Forwards r r' x.interface_num a payload (get_or x.next_hop d.header.dst)
      → Routed r r' d payload

-- A datagram whose time to live is over is dropped, and so is one that no route matches: the
-- router stays as it is.
pub route_one_datagram_drops :
    (r : Router) (d : Ipv4Datagram)
    → (d.header.ttl ≤ 1) ⊎ (find_route r.rout_map d.header.dst ≡ none)
    → route_one_datagram r d ≡ some r
unfolding route_one_datagram
route_one_datagram_drops r d (inl old) = if_true _ _ (le→leb d.header.ttl 1 old)
route_one_datagram_drops r d (inr lost) = elim (Bool-cases (leb d.header.ttl 1)) [
  | inl old ↦ if_true _ _ old
  | inr young ↦ if_false _ _ young ∙ ap (send_along r (decrement_ttl d)) lost
]

not_old : (n : ℕ) → 1 < n → leb n 1 ≡ false
not_old n h = ground arith

send_by_lem :
    (r : Router) (n : ℕ) (d : Ipv4Datagram) (hop : ℕ) (a : AsyncNetworkInterface)
    (i : NetworkInterface)
    → get_elem? r.interfaces n ≡ some a
    → NetworkInterface.send_datagram a.interface d hop ≡ some i
    → send_by r n d hop
      ≡ some (record r { interfaces = set r.interfaces n (record a { interface = i }) })
unfolding send_by
send_by_lem r n d hop a i at sent = rw (at, sent) refl

route_one_datagram-sent :
    (r : Router) (d : Ipv4Datagram) (x : RoutNode) (a : AsyncNetworkInterface)
    (payload : List (List ℕ))
    → 1 < d.header.ttl
    → find_route r.rout_map d.header.dst ≡ some x
    → get_elem? r.interfaces x.interface_num ≡ some a
    → serialize_datagram (lowered d) ≡ some payload
    → (r' : Router) × (route_one_datagram r d ≡ some r')
      × Forwards r r' x.interface_num a payload (get_or x.next_hop d.header.dst)
unfolding route_one_datagram
route_one_datagram-sent r d x a payload ttl found at written =
    let hop = get_or x.next_hop d.header.dst in
    let (i, sent, sends) = send_datagram-Sends a.interface (decrement_ttl d) hop payload written in
    let a' = record a { interface = i } in
    (
      record r { interfaces = set r.interfaces x.interface_num a' },
      if_false _ _ (not_old d.header.ttl ttl)
          ∙ ap (send_along r (decrement_ttl d)) found
          ∙ send_by_lem r x.interface_num (decrement_ttl d) hop a i at sent,
      record {
        routes = refl;
        others = λ m h. get-set_other r.interfaces m x.interface_num a' h;
        interface = i;
        updated = get-set_self r.interfaces x.interface_num a a' at;
        sends = sends;
      },
    )

old_or_young : (n : ℕ) → (n ≤ 1) ⊎ (1 < n)
old_or_young n = omega arith

-- When every route that is found has its interface, and the datagram with its time to live one less
-- can be written, routing it succeeds. With a time to live of at most 1, or if no route is found,
-- the router stays as it is. Otherwise the datagram leaves, with its time to live one less, by the
-- found route's interface alone, towards the route's next hop, or towards its own destination if
-- the route has none; the routes and the other interfaces stay.
pub route_one_datagram-Routed :
    (r : Router) (d : Ipv4Datagram) (payload : List (List ℕ))
    → ((x : RoutNode)
        → find_route r.rout_map d.header.dst ≡ some x
        → (a : AsyncNetworkInterface) × (get_elem? r.interfaces x.interface_num ≡ some a))
    → serialize_datagram (lowered d) ≡ some payload
    → (r' : Router) × (route_one_datagram r d ≡ some r') × Routed r r' d payload
route_one_datagram-Routed r d payload there written = elim (old_or_young d.header.ttl) [
  | inl old ↦ (r, route_one_datagram_drops r d (inl old), dropped (inl old) refl)
  | inr young ↦ elim (Option-cases (find_route r.rout_map d.header.dst)) [
    | inl lost ↦ (r, route_one_datagram_drops r d (inr lost), dropped (inr lost) refl)
    | inr (x, found) ↦
        let (a, at) = there x found in
        let (r', run, forwards) = route_one_datagram-sent r d x a payload young found at written in
        (r', run, forwarded x a young found at forwards)
  ]
]
