-- ===== src/Tests/Networks.antt =====
-- Interfaces and routers at concrete inputs.
use tcp_impliment.Common.{
  erase, ℕ, ◌≡◌, get_elem?, get_or, subst, sym, ap, ◌∙◌, refl, arith, true, none, some, List, [],
  ◌∷◌, ◌++◌, lookup,
}
use tcp_impliment.Buffer.{joined}
use tcp_impliment.Parser.{ParseResult}
use tcp_impliment.Ethernet.{EthernetAddress, EthernetFrame, parse_frame, serialize_frame}
use tcp_impliment.Arp.{bytes_of}
use tcp_impliment.Ipv4.{Ipv4Datagram, ipv4_bytes, serialize_datagram}
use tcp_impliment.Ipv4.RoundTrip.{checked}
use tcp_impliment.Ipv4.Datagrams.{parse-serialize_datagram}
use tcp_impliment.NetworkInterface
use tcp_impliment.NetworkInterface.{
  NetworkInterface, datagram_frame, recv_frame, send_datagram, push, ethernet_broadcast, arp_frame,
  arp_request,
}
use tcp_impliment.NetworkInterface.Sending.{Sends, ipv4_frame, unset, who_has, send_datagram-Sends}
use tcp_impliment.NetworkInterface.Calls.{IsValid, begins, steps, receives, waits, Reached-IsValid}
use tcp_impliment.NetworkInterface.Resolving.{
  is_at, IsNamed, Resolved, exchange-Resolved, request_leaves_waiting,
}
use tcp_impliment.NetworkInterface.Delivery.{arrived, send-recv}
use tcp_impliment.Router.{
  Router, RoutNode, AsyncNetworkInterface, insert_route, find_route, matches, route_one_datagram,
}
use tcp_impliment.Router.Routes.{IsOrdered, find_route-direct, insert_route_dropped}
use tcp_impliment.Router.Routing.{Routed, lowered, route_one_datagram-Routed}
use tcp_impliment.Tests.Wire.{local_address, local_address-IsBytes, empty_frame}
use tcp_impliment.Tests.Packets.{small_header, small_header-IsIpv4, small_datagram, empty_datagram}

abbrev peer_address : EthernetAddress
peer_address = record { byte0 = 2; byte1 = 0; byte2 = 0; byte3 = 7; byte4 = 7; byte5 = 7 }

abbrev left : NetworkInterface
left = NetworkInterface.new local_address 167772161

abbrev pub right : NetworkInterface
right = NetworkInterface.new peer_address 167772162

left-IsNamed : IsNamed left
left-IsNamed = record { ethernet = local_address-IsBytes; ip = omega arith }

pub right-IsNamed : IsNamed right
right-IsNamed = record { ethernet = omega arith; ip = omega arith }

abbrev written : List (List ℕ)
written = ipv4_bytes (checked small_header) ∷ small_datagram.payload

small_datagram_written : serialize_datagram small_datagram ≡ some written
small_datagram_written =
    (parse-serialize_datagram empty_datagram small_datagram small_header-IsIpv4 (omega arith)).0

send_datagram-Sends_example :
    (i' : NetworkInterface) × (send_datagram left small_datagram 167772162 ≡ some i')
    × Sends left i' 167772162 (ipv4_frame local_address unset written)
send_datagram-Sends_example =
    send_datagram-Sends left small_datagram 167772162 written small_datagram_written

-- The reply of `right` is taken, and 30 s later the mapping that it taught is dropped.
abbrev reply_frame : EthernetFrame
reply_frame = is_at peer_address 167772162 local_address 167772161

abbrev left_met : NetworkInterface
left_met = record left {
  ip_address_map = (167772162, peer_address) ∷ [];
  map_time = (167772162, 0) ∷ [];
}

abbrev left_later : NetworkInterface
left_later = record left { now_time = 30000 }

left_meets : recv_frame left reply_frame ≡ some (left_met, none)
unfolding recv_frame tcp_impliment.Arp.parse tcp_impliment.Arp.parse_kind tcp_impliment.Parser.u16
    tcp_impliment.Parser.u8 tcp_impliment.Arp.parse_addresses tcp_impliment.Parser.u32
    tcp_impliment.Ethernet.parse_address NetworkInterface.recv_arp lookup
    tcp_impliment.Common.insert
left_meets = refl

left_forgets : NetworkInterface.tick true left_met 30000 ≡ some left_later
unfolding NetworkInterface.tick NetworkInterface.expire erase
left_forgets = refl

Reached-IsValid_example : IsValid left_later
Reached-IsValid_example =
    Reached-IsValid
      (steps (steps begins (receives reply_frame none left_meets)) (waits true 30000 left_forgets))

-- `left` waits for the address of `right`.
abbrev waiting_frames : List EthernetFrame
waiting_frames = datagram_frame left written ∷ []

abbrev left_waiting : NetworkInterface
left_waiting = record left { unsend_frame = (167772162, waiting_frames) ∷ [] }

left_waits : lookup 167772162 left_waiting.unsend_frame ≡ some waiting_frames
unfolding lookup
left_waits = refl

exchange-Resolved_example :
    (b' : NetworkInterface) × (a' : NetworkInterface) × (reply : EthernetFrame) × (recv_frame right
        (arp_frame left_waiting ethernet_broadcast (bytes_of (arp_request left_waiting 167772162)))
      ≡ some (b', none))
    × (b'.frames_out ≡ right.frames_out ++ reply ∷ [])
    × (recv_frame left_waiting reply ≡ some (a', none))
    × Resolved left_waiting right a' b' waiting_frames
exchange-Resolved_example =
    exchange-Resolved left_waiting right waiting_frames
      (record { ethernet = local_address-IsBytes; ip = omega arith }) right-IsNamed left_waits

request_leaves_waiting_example :
    (b' : NetworkInterface) × (recv_frame left_waiting (who_has peer_address 167772162 167772161)
      ≡ some (b', none))
    × (b'.frames_out
        ≡ left_waiting.frames_out ++ is_at local_address 167772161 peer_address 167772162 ∷ [])
    × (lookup 167772162 b'.ip_address_map ≡ some peer_address)
    × (lookup 167772162 b'.unsend_frame ≡ some waiting_frames)
request_leaves_waiting_example =
    request_leaves_waiting right left_waiting waiting_frames right-IsNamed
      (record { ethernet = local_address-IsBytes; ip = omega arith }) left_waits

abbrev pub left_knowing : NetworkInterface
left_knowing = record left { ip_address_map = (167772162, peer_address) ∷ [] }

pub left_knows : lookup 167772162 left_knowing.ip_address_map ≡ some peer_address
unfolding lookup
left_knows = refl

send-recv_example :
    (frame : EthernetFrame) × (arriving : EthernetFrame) × (send_datagram left_knowing
        small_datagram 167772162
      ≡ some (push left_knowing frame))
    × (parse_frame empty_frame (joined (serialize_frame frame)) ≡ (ParseResult.no_error, arriving))
    × (recv_frame right arriving ≡ some (right, some (arrived small_datagram)))
send-recv_example =
    send-recv left_knowing right small_datagram 167772162 empty_frame
      (record { ethernet = local_address-IsBytes; ip = omega arith }) right-IsNamed
      small_header-IsIpv4 (omega arith) left_knows

-- Routes: 10.0.0.0/8 by a next hop, everything by another, and 10.0.0.0/4 directly.
abbrev near : RoutNode
near = record {
  route_prefix = 167772160;
  prefix_length = 8;
  next_hop = some 167772162;
  interface_num = 0;
}

abbrev default_route : RoutNode
default_route = record {
  route_prefix = 0;
  prefix_length = 0;
  next_hop = some 167772163;
  interface_num = 1;
}

-- 11.0.0.0/8 beside 10.0.0.0/8 is not added.
abbrev other : RoutNode
other = record near { route_prefix = 184549376; interface_num = 1 }

abbrev direct : RoutNode
direct = record { route_prefix = 167772160; prefix_length = 4; next_hop = none; interface_num = 1 }

abbrev routes : List RoutNode
routes = near ∷ default_route ∷ []

insert_route_run : insert_route default_route (insert_route near []) ≡ routes
unfolding insert_route
insert_route_run = refl

routes-IsOrdered : IsOrdered routes
routes-IsOrdered = (((λ _. (refl, omega arith)), tt), (tt, tt))

near_found : find_route routes 167772162 ≡ some near
unfolding find_route matches
near_found = refl

-- The default route was added first, 11.0.0.0/8 last.
abbrev added : List RoutNode
added = other ∷ near ∷ default_route ∷ []

direct_matches : matches direct.route_prefix direct.prefix_length 167772162 ≡ true
unfolding matches
direct_matches = refl

find_route-direct_run : find_route (insert_route direct routes) 167772162 ≡ some direct
find_route-direct_run = find_route-direct direct routes 167772162 refl direct_matches

insert_route_dropped_run : insert_route other routes ≡ routes
insert_route_dropped_run =
    insert_route_dropped other near [] (default_route ∷ []) routes-IsOrdered refl refl refl

abbrev async_left : AsyncNetworkInterface
async_left = record { interface = left; datagrams_out = [] }

abbrev small_router : Router
small_router = record { interfaces = async_left ∷ []; rout_map = routes }

small_routed :
    (x : RoutNode)
    → find_route routes 167772162 ≡ some x
    → (a : AsyncNetworkInterface) × (get_elem? (async_left ∷ []) x.interface_num ≡ some a)
small_routed x e = (
  async_left,
  subst
      (λ (y : RoutNode).
        get_elem? {A = AsyncNetworkInterface} (async_left ∷ []) y.interface_num ≡ some async_left)
      (ap (λ o. get_or o near) (sym near_found ∙ e)) refl,
)

abbrev routed_datagram : Ipv4Datagram
routed_datagram = lowered small_datagram

route_one_datagram-Routed_example :
    (r' : Router) × (route_one_datagram small_router small_datagram ≡ some r')
    × Routed small_router r' small_datagram
        (ipv4_bytes (checked routed_datagram.header) ∷ small_datagram.payload)
route_one_datagram-Routed_example =
    route_one_datagram-Routed small_router small_datagram
      (ipv4_bytes (checked routed_datagram.header) ∷ small_datagram.payload) small_routed
      (parse-serialize_datagram empty_datagram routed_datagram (omega arith) (omega arith)).0
