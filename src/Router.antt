-- ===== src/Router.antt =====
-- libsponge/router.hh and router.cc: datagrams from the interfaces that they came in by to those
-- that they leave by. A call returns `none` where the code throws or its behaviour is undefined.
pub mod Routes
pub mod Tables
pub mod Routing
use tcp_impliment.Common.{
  ℕ, zero, suc, ◌-◌, ◌/◌, ◌^◌, ◌==◌, Bool, true, false, Option, none, some, List, [], ◌∷◌, ◌++◌,
  map, length, ltb, leb, if◌then◌else◌, get_elem?, get_or, ◌>>=◌,
}
use tcp_impliment.Ethernet.{EthernetFrame}
use tcp_impliment.Ipv4.{Ipv4Datagram, Ipv4Header}
use tcp_impliment.NetworkInterface
use tcp_impliment.NetworkInterface.{NetworkInterface}

pub record AsyncNetworkInterface : Type 0 where
  pub interface : NetworkInterface
  pub datagrams_out : List Ipv4Datagram

abbrev pub with_datagram :
    NetworkInterface × Option Ipv4Datagram → List Ipv4Datagram → AsyncNetworkInterface
with_datagram (i, none) queue = record { interface = i; datagrams_out = queue }
with_datagram (i, some d) queue = record { interface = i; datagrams_out = queue ++ d ∷ [] }

-- `AsyncNetworkInterface::recv_frame`.
unfoldable pub recv_frame : AsyncNetworkInterface → EthernetFrame → Option AsyncNetworkInterface
recv_frame a frame =
    NetworkInterface.recv_frame a.interface frame >>= λ r. some (with_datagram r a.datagrams_out)

-- `RoutNode`.
pub record RoutNode : Type 0 where
  pub route_prefix : ℕ
  pub prefix_length : ℕ
  pub next_hop : Option ℕ
  pub interface_num : ℕ

abbrev pub hop_lt : Option ℕ → Option ℕ → ℕ → ℕ → Bool
hop_lt none b length_a length_b = true
hop_lt (some h) none length_a length_b = false
hop_lt (some h) (some k) length_a length_b = ltb length_b length_a

-- `operator<`.
abbrev pub rout_lt : RoutNode → RoutNode → Bool
rout_lt a b = hop_lt a.next_hop b.next_hop a.prefix_length b.prefix_length

-- `std::set::insert`: the search goes left where the new node is less, right elsewhere, and drops
-- it if the node before its place is not less. The order is not strict on routes without a next
-- hop, for which the standard promises nothing; the search is the same.
unfoldable pub insert_route : RoutNode → List RoutNode → List RoutNode
insert_route x [] = x ∷ []
insert_route x (y ∷ ys) = elim (rout_lt x y) [
  | true ↦ x ∷ y ∷ ys
  | false ↦ elim (rout_lt y x) [ true ↦ y ∷ insert_route x ys | false ↦ y ∷ ys ]
]

pub record Router : Type 0 where
  pub interfaces : List AsyncNetworkInterface
  pub rout_map : List RoutNode

abbrev pub add_interface : Router → AsyncNetworkInterface → ℕ × Router
add_interface r i = (length r.interfaces, record r { interfaces = r.interfaces ++ i ∷ [] })

abbrev pub add_route : Router → ℕ → ℕ → Option ℕ → ℕ → Router
add_route r route_prefix prefix_length next_hop interface_num = record r {
  rout_map =
      insert_route
        (record {
          route_prefix = route_prefix;
          prefix_length = prefix_length;
          next_hop = next_hop;
          interface_num = interface_num;
        })
        r.rout_map;
}

-- A length above 32 is outside what `add_route` documents, and its shift undefined.
unfoldable pub matches : ℕ → ℕ → ℕ → Bool
matches rout_ip prefix_len ip =
    if prefix_len == 0 then true else rout_ip / 2 ^ (32 - prefix_len) == ip / 2 ^ (32 - prefix_len)

-- The loop over the routes up to its `break`.
unfoldable pub find_route : List RoutNode → ℕ → Option RoutNode
find_route [] ip = none
find_route (x ∷ xs) ip = elim (matches x.route_prefix x.prefix_length ip) [
  | true ↦ some x
  | false ↦ find_route xs ip
]

abbrev pub set : List AsyncNetworkInterface → ℕ → AsyncNetworkInterface → List AsyncNetworkInterface
set [] k a = []
set (x ∷ xs) zero a = a ∷ xs
set (x ∷ xs) (suc k) a = x ∷ set xs k a

-- `_interfaces[n].send_datagram(dgram, next_hop)`; an index out of range is undefined.
unfoldable pub send_by : Router → ℕ → Ipv4Datagram → ℕ → Option Router
send_by r n dgram next_hop = get_elem? r.interfaces n >>= λ a.
    NetworkInterface.send_datagram a.interface dgram next_hop >>= λ i.
    some (record r { interfaces = set r.interfaces n (record a { interface = i }) })

abbrev pub send_along : Router → Ipv4Datagram → Option RoutNode → Option Router
send_along r dgram none = some r
send_along r dgram (some x) = send_by r x.interface_num dgram (get_or x.next_hop dgram.header.dst)

abbrev pub decrement_ttl : Ipv4Datagram → Ipv4Datagram
decrement_ttl dgram = record dgram { header = record (dgram.header) { ttl = dgram.header.ttl - 1 } }

-- The address made of `to_string(dst)` is read back by the resolver as the number `dst`.
unfoldable pub route_one_datagram : Router → Ipv4Datagram → Option Router
route_one_datagram r dgram =
    if leb dgram.header.ttl 1
    then some r
    else send_along r (decrement_ttl dgram) (find_route r.rout_map dgram.header.dst)

unfoldable pub route_all : Router → List Ipv4Datagram → Option Router
route_all r [] = some r
route_all r (d ∷ ds) = route_one_datagram r d >>= λ r'. route_all r' ds

-- Every queue in turn; routing leaves the queues themselves alone, so they are emptied at the end.
unfoldable pub route_queues : Router → List AsyncNetworkInterface → Option Router
route_queues r [] = some r
route_queues r (a ∷ as') = route_all r a.datagrams_out >>= λ r'. route_queues r' as'

abbrev pub emptied : AsyncNetworkInterface → AsyncNetworkInterface
emptied a = record a { datagrams_out = [] }

unfoldable pub route : Router → Option Router
route r = route_queues r r.interfaces >>= λ r'.
    some (record r' { interfaces = map emptied r'.interfaces })
