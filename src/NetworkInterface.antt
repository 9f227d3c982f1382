-- ===== src/NetworkInterface.antt =====
-- libsponge/network_interface.hh and network_interface.cc: datagrams in Ethernet frames, with the
-- addresses of next hops learnt by ARP. An `Address` of IPv4 is its number. A call returns `none`
-- where the code throws an exception or its behaviour is undefined.
pub mod Sending
pub mod Expiring
pub mod Calls
pub mod Resolving
pub mod Delivery
use tcp_impliment.Common.{
  ℕ, ◌+◌, ◌*◌, ◌==◌, Bool, true, false, ◌&&◌, ◌||◌, not, Option, none, some, List, [], ◌∷◌, ◌++◌,
  map, ltb, leb, if◌then◌else◌, ◌>>=◌, lookup, insert, erase, contains, get_or,
}
use tcp_impliment.Common.Words.{sub32, add32}
use tcp_impliment.Buffer.{contiguous}
use tcp_impliment.Parser.{ParseResult, failed}
use tcp_impliment.Ethernet.{EthernetAddress, EthernetHeader, EthernetFrame, type_ipv4, type_arp}
use tcp_impliment.Arp
use tcp_impliment.Arp.{ArpMessage, default_message, opcode_request, opcode_reply, no_address}
use tcp_impliment.Ipv4.{
  Ipv4Datagram, Ipv4Header, default_ipv4_header, parse_datagram, serialize_datagram,
}

abbrev pub ethernet_broadcast : EthernetAddress
ethernet_broadcast = record {
  byte0 = 255;
  byte1 = 255;
  byte2 = 255;
  byte3 = 255;
  byte4 = 255;
  byte5 = 255;
}

pub record NetworkInterface : Type 0 where
  pub ethernet_address : EthernetAddress
  pub ip_address : ℕ
  pub frames_out : List EthernetFrame
  pub ip_address_map : List (ℕ × EthernetAddress)
  pub map_time : List (ℕ × ℕ)
  pub unsend_frame : List (ℕ × List EthernetFrame)
  pub latest_arp_time : List (ℕ × ℕ)
  pub now_time : ℕ

abbrev pub new : EthernetAddress → ℕ → NetworkInterface
new ethernet_address ip_address = record {
  ethernet_address = ethernet_address;
  ip_address = ip_address;
  frames_out = [];
  ip_address_map = [];
  map_time = [];
  unsend_frame = [];
  latest_arp_time = [];
  now_time = 0;
}

abbrev pub push : NetworkInterface → EthernetFrame → NetworkInterface
push i frame = record i { frames_out = i.frames_out ++ frame ∷ [] }

-- The frame of a datagram, its destination not yet set.
abbrev pub datagram_frame : NetworkInterface → List (List ℕ) → EthernetFrame
datagram_frame i payload = record {
  header = record { dst = no_address; src = i.ethernet_address; type = type_ipv4 };
  payload = payload;
}

abbrev pub set_dst : EthernetAddress → EthernetFrame → EthernetFrame
set_dst address frame = record frame { header = record (frame.header) { dst = address } }

-- A frame that carries an ARP message.
abbrev pub arp_frame : NetworkInterface → EthernetAddress → List ℕ → EthernetFrame
arp_frame i dst bytes = record {
  header = record { dst = dst; src = i.ethernet_address; type = type_arp };
  payload = bytes ∷ [];
}

abbrev pub arp_request : NetworkInterface → ℕ → ArpMessage
arp_request i next_hop_ip = record default_message {
  opcode = opcode_request;
  sender_ip_address = i.ip_address;
  sender_ethernet_address = i.ethernet_address;
  target_ethernet_address = no_address;
  target_ip_address = next_hop_ip;
}

-- `unsend_frame[next_hop_ip].push_back(frame)`
abbrev pub enqueue : NetworkInterface → ℕ → EthernetFrame → NetworkInterface
enqueue i next_hop_ip frame = record i {
  unsend_frame =
      insert next_hop_ip (get_or (lookup next_hop_ip i.unsend_frame) [] ++ frame ∷ [])
        i.unsend_frame;
}

-- A request for the address went out less than five seconds ago.
abbrev pub asked_lately : NetworkInterface → ℕ → Bool
asked_lately i next_hop_ip =
    contains next_hop_ip i.latest_arp_time
    && ltb (sub32 i.now_time (get_or (lookup next_hop_ip i.latest_arp_time) 0)) 5000

unfoldable pub ask : NetworkInterface → ℕ → Option NetworkInterface
ask i next_hop_ip =
    if asked_lately i next_hop_ip
    then some i
    else (Arp.serialize (arp_request i next_hop_ip) >>= λ bytes.
        some (record (push i (arp_frame i ethernet_broadcast bytes)) {
          latest_arp_time = insert next_hop_ip i.now_time i.latest_arp_time;
        }))

-- The frame with the address that the cache has, or into the queue of those that wait for one.
abbrev pub send_to :
    NetworkInterface → ℕ → EthernetFrame → Option EthernetAddress → Option NetworkInterface
send_to i next_hop_ip frame none = ask (enqueue i next_hop_ip frame) next_hop_ip
send_to i next_hop_ip frame (some address) = some (push i (set_dst address frame))

unfoldable pub send_datagram : NetworkInterface → Ipv4Datagram → ℕ → Option NetworkInterface
send_datagram i dgram next_hop_ip = serialize_datagram dgram >>= λ payload.
    send_to i next_hop_ip (datagram_frame i payload) (lookup next_hop_ip i.ip_address_map)

-- The loop over the six bytes.
abbrev pub is_equal : EthernetAddress → EthernetAddress → Bool
is_equal a b =
    a.byte0 == b.byte0
    && a.byte1 == b.byte1
    && a.byte2 == b.byte2
    && a.byte3 == b.byte3
    && a.byte4 == b.byte4
    && a.byte5 == b.byte5

abbrev pub learn : NetworkInterface → ArpMessage → NetworkInterface
learn i msg = record i {
  ip_address_map = insert msg.sender_ip_address msg.sender_ethernet_address i.ip_address_map;
  map_time = insert msg.sender_ip_address i.now_time i.map_time;
}

abbrev pub arp_reply : NetworkInterface → ArpMessage → ArpMessage
arp_reply i msg = record default_message {
  sender_ip_address = i.ip_address;
  sender_ethernet_address = i.ethernet_address;
  target_ip_address = msg.sender_ip_address;
  target_ethernet_address = msg.sender_ethernet_address;
  opcode = opcode_reply;
}

-- The frames that waited for the sender's address go out.
abbrev pub release_to :
    NetworkInterface → ArpMessage → Option (List EthernetFrame) → NetworkInterface
release_to i msg none = i
release_to i msg (some frames) = record i {
  frames_out = i.frames_out ++ map (set_dst msg.sender_ethernet_address) frames;
  unsend_frame = erase msg.sender_ip_address i.unsend_frame;
  latest_arp_time = erase msg.sender_ip_address i.latest_arp_time;
}

abbrev pub is_request_for : NetworkInterface → ArpMessage → Bool
is_request_for i msg = msg.opcode == opcode_request && msg.target_ip_address == i.ip_address

unfoldable pub recv_arp : NetworkInterface → ArpMessage → Option NetworkInterface
recv_arp i msg =
    let known = learn i msg in
    if is_request_for i msg
    then (Arp.serialize (arp_reply i msg) >>= λ bytes.
        some (push known (arp_frame i msg.sender_ethernet_address bytes)))
    else some (release_to known msg (lookup msg.sender_ip_address i.unsend_frame))

abbrev pub no_datagram : Ipv4Datagram
no_datagram = record { header = default_ipv4_header; payload = [] }

abbrev pub if_parsed {ℓ} : {A : Type ℓ} → ParseResult × A → Option A
if_parsed (result, a) = if failed result then none else some a

-- A message that does not parse is dropped.
abbrev pub recv_message : NetworkInterface → Option ArpMessage → Option NetworkInterface
recv_message i none = some i
recv_message i (some msg) = recv_arp i msg

-- Every type but IPv4 is taken for ARP.
unfoldable pub recv_frame :
    NetworkInterface → EthernetFrame → Option (NetworkInterface × Option Ipv4Datagram)
recv_frame i frame =
    if not (is_equal frame.header.dst i.ethernet_address)
      && not (is_equal frame.header.dst ethernet_broadcast)
    then some (i, none)
    else if frame.header.type == type_ipv4
    then (contiguous frame.payload >>= λ buffer.
        some (i, if_parsed (parse_datagram no_datagram buffer)))
    else (contiguous frame.payload >>= λ buffer.
        recv_message i (if_parsed (Arp.parse default_message buffer)) >>= λ i'. some (i', none))

-- The mapping of an address erased, if it is due.
abbrev pub forget : Bool → ℕ → NetworkInterface → NetworkInterface
forget true ip i = record i {
  ip_address_map = erase ip i.ip_address_map;
  map_time = erase ip i.map_time;
}
forget false ip i = i

-- The walk over `map_time`. It erases the entry at which it stands, reads that entry's key once
-- more and goes on from it, which is undefined: `readable` tells whether an entry that has just been
-- freed still reads as it was. If not, a walk that erases an entry has no result.
unfoldable pub expire : Bool → ℕ → List (ℕ × ℕ) → NetworkInterface → Option NetworkInterface
expire readable now [] i = some i
expire readable now ((ip, time) ∷ entries) i =
    let due = leb 30000 (sub32 now time) in
    let rest = expire readable now entries (forget due ip i) in
    if due && not readable then none else rest

unfoldable pub tick : Bool → NetworkInterface → ℕ → Option NetworkInterface
tick readable i ms =
    let now = add32 i.now_time ms in expire readable now i.map_time (record i { now_time = now })
