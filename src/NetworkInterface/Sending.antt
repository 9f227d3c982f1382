-- ===== src/NetworkInterface/Sending.antt =====
-- What `send_datagram` puts into the queues.
use tcp_impliment.Common.{
  Bool, ◌>>=◌, ==_iff, arith, if_false, if_true, ℕ, ◌==◌, ◌≡◌, refl, ap, ◌∙◌, true, false, ◌&&◌,
  not, ltb, is_some, Option, none, some, List, [], ◌∷◌, ◌++◌, if◌then◌else◌, lookup, insert,
  contains, get_or, lookup-insert, append-nil, sym, Bool-cases, inl, inr,
}
use tcp_impliment.Common.Words.{sub32}
use tcp_impliment.Ethernet.{EthernetAddress, EthernetFrame}
use tcp_impliment.Arp
use tcp_impliment.Arp.{bytes_of}
use tcp_impliment.Ipv4.{Ipv4Datagram, serialize_datagram}
use tcp_impliment.NetworkInterface.{
  NetworkInterface, ethernet_broadcast, push, datagram_frame, set_dst, arp_frame, arp_request,
  enqueue, asked_lately, ask, send_to, send_datagram,
}

-- An Ethernet frame with a datagram in it, and the one that asks everyone for an address.
abbrev pub ipv4_frame : EthernetAddress → EthernetAddress → List (List ℕ) → EthernetFrame
ipv4_frame src dst payload = record {
  header = record { dst = dst; src = src; type = 2048 };
  payload = payload;
}

abbrev pub unset : EthernetAddress
unset = record { byte0 = 0; byte1 = 0; byte2 = 0; byte3 = 0; byte4 = 0; byte5 = 0 }

abbrev pub all_ones : EthernetAddress
all_ones = record { byte0 = 255; byte1 = 255; byte2 = 255; byte3 = 255; byte4 = 255; byte5 = 255 }

abbrev pub who_has : EthernetAddress → ℕ → ℕ → EthernetFrame
who_has address ip wanted = record {
  header = record { dst = all_ones; src = address; type = 2054 };
  payload =
      bytes_of (record {
        hardware_type = 1;
        protocol_type = 2048;
        hardware_address_size = 6;
        protocol_address_size = 4;
        opcode = 1;
        sender_ethernet_address = address;
        sender_ip_address = ip;
        target_ethernet_address = unset;
        target_ip_address = wanted;
      })
      ∷ [];
}

-- Less than 5,000 ms ago, on the interface's 32-bit clock.
abbrev pub is_recent : ℕ → Option ℕ → Bool
is_recent now none = false
is_recent now (some time) = ltb (sub32 now time) 5000

-- The frames that go out: the datagram's if the address of the next hop is known, otherwise a
-- request for it unless there was one in the last five seconds.
abbrev pub fresh_frames :
    NetworkInterface → ℕ → EthernetFrame → Option EthernetAddress → List EthernetFrame
fresh_frames i hop frame (some address) = ipv4_frame i.ethernet_address address frame.payload ∷ []
fresh_frames i hop frame none =
    if is_recent i.now_time (lookup hop i.latest_arp_time)
    then []
    else who_has i.ethernet_address i.ip_address hop ∷ []

-- What waits for the address `ip` afterwards.
abbrev pub waiting_after :
    NetworkInterface → ℕ → EthernetFrame → Option EthernetAddress → ℕ → Option (List EthernetFrame)
waiting_after i hop frame (some address) ip = lookup ip i.unsend_frame
waiting_after i hop frame none ip =
    if hop == ip
    then some (get_or (lookup hop i.unsend_frame) [] ++ frame ∷ [])
    else lookup ip i.unsend_frame

pub record Sends (i i' : NetworkInterface) (hop : ℕ) (frame : EthernetFrame) : Type 0 where
  pub out : i'.frames_out ≡ i.frames_out ++ fresh_frames i hop frame (lookup hop i.ip_address_map)
  pub waiting :
      (ip : ℕ)
      → lookup ip i'.unsend_frame ≡ waiting_after i hop frame (lookup hop i.ip_address_map) ip
  pub cache : i'.ip_address_map ≡ i.ip_address_map
  pub times : i'.map_time ≡ i.map_time
  pub asked :
      (ip : ℕ)
      → contains ip i'.latest_arp_time ≡ (
          if hop == ip && not (contains hop i.ip_address_map)
          then true
          else contains ip i.latest_arp_time)
  pub asked_at :
      (ip : ℕ)
      → lookup ip i'.latest_arp_time ≡ (
          if hop == ip
            && not (contains hop i.ip_address_map)
            && not (is_recent i.now_time (lookup hop i.latest_arp_time))
          then some i.now_time
          else lookup ip i.latest_arp_time)
  pub clock : i'.now_time ≡ i.now_time

recent_lem :
    (now : ℕ) (o : Option ℕ) → (is_some o && ltb (sub32 now (get_or o 0)) 5000) ≡ is_recent now o
recent_lem now none = refl
recent_lem now (some time) = refl

asked_lately_lem :
    (i : NetworkInterface) (hop : ℕ) (b : Bool)
    → asked_lately i hop ≡ b
    → is_recent i.now_time (lookup hop i.latest_arp_time) ≡ b
asked_lately_lem i hop b e = sym (recent_lem i.now_time (lookup hop i.latest_arp_time)) ∙ e

-- The interface with its request for an address sent.
abbrev with_request : NetworkInterface → ℕ → NetworkInterface
with_request i hop =
    record (push i (arp_frame i ethernet_broadcast (bytes_of (arp_request i hop)))) {
      latest_arp_time = insert hop i.now_time i.latest_arp_time;
    }

ask_lately : (i : NetworkInterface) (hop : ℕ) → asked_lately i hop ≡ true → ask i hop ≡ some i
unfolding ask
ask_lately i hop e = if_true _ _ e

ask_again :
    (i : NetworkInterface) (hop : ℕ)
    → asked_lately i hop ≡ false
    → ask i hop ≡ some (with_request i hop)
unfolding ask Arp.serialize
ask_again i hop e = if_false _ _ e

asked_lately-contains :
    (i : NetworkInterface) (hop : ℕ)
    → asked_lately i hop ≡ true
    → contains hop i.latest_arp_time ≡ true
asked_lately-contains i hop e = ground arith

module _ (i : NetworkInterface) (hop : ℕ) (payload : List (List ℕ)) where
  abbrev frame : EthernetFrame
  frame = datagram_frame i payload

  known-Sends :
      (address : EthernetAddress)
      → lookup hop i.ip_address_map ≡ some address
      → Sends i (push i (set_dst address frame)) hop frame
  known-Sends address e = record {
    out = rw (e) refl;
    waiting = λ ip. rw (e) refl;
    cache = refl;
    times = refl;
    asked = λ ip. ground (arith, e);
    asked_at = λ ip. ground (arith, e);
    clock = refl;
  }

  lately-Sends :
      lookup hop i.ip_address_map ≡ none
      → asked_lately i hop ≡ true
      → Sends i (enqueue i hop frame) hop frame
  lately-Sends e lately = record {
    out = rw (e, asked_lately_lem i hop true lately) (sym (append-nil i.frames_out));
    waiting = λ ip. rw (e) (lookup-insert hop ip _ i.unsend_frame);
    cache = refl;
    times = refl;
    asked = λ ip. ground (arith, e, ==_iff hop ip, asked_lately-contains i hop lately);
    asked_at = λ ip. ground (arith, e, asked_lately_lem i hop true lately);
    clock = refl;
  }

  again-Sends :
      lookup hop i.ip_address_map ≡ none
      → asked_lately i hop ≡ false
      → Sends i (with_request (enqueue i hop frame) hop) hop frame
  again-Sends e long_ago = record {
    out = rw (e, asked_lately_lem i hop false long_ago) refl;
    waiting = λ ip. rw (e) (lookup-insert hop ip _ i.unsend_frame);
    cache = refl;
    times = refl;
    asked =
        λ ip. ground (arith, e, ==_iff hop ip, lookup-insert hop ip i.now_time i.latest_arp_time);
    asked_at = λ ip. ground (
      arith,
      e,
      asked_lately_lem i hop false long_ago,
      ==_iff hop ip,
      lookup-insert hop ip i.now_time i.latest_arp_time,
    );
    clock = refl;
  }

  send_to-Sends :
      (o : Option EthernetAddress)
      → lookup hop i.ip_address_map ≡ o
      → (i' : NetworkInterface) × (send_to i hop frame o ≡ some i') × Sends i i' hop frame
  send_to-Sends (some address) e = (push i (set_dst address frame), refl, known-Sends address e)
  send_to-Sends none e = elim (Bool-cases (asked_lately i hop)) [
    | inl lately ↦
        (enqueue i hop frame, ask_lately (enqueue i hop frame) hop lately, lately-Sends e lately)
    | inr long_ago ↦ (
      with_request (enqueue i hop frame) hop,
      ask_again (enqueue i hop frame) hop long_ago,
      again-Sends e long_ago,
    )
  ]

-- A datagram that can be written is sent in one frame of type 2048 from the interface's address, or
-- the frame waits: it goes out at once with the next hop's address if that is known, otherwise it
-- joins the end of those that wait for this hop, the others stay, and unless a request for the
-- address was sent less than 5,000 ms ago, one goes out to everyone, with opcode 1 and the
-- interface's own addresses, and the time is noted. The cache and the clock stay, and a request is
-- on record for every hop for which one was and for this hop if its address is not known.
pub send_datagram-Sends :
    (i : NetworkInterface) (dgram : Ipv4Datagram) (hop : ℕ) (payload : List (List ℕ))
    → serialize_datagram dgram ≡ some payload
    → (i' : NetworkInterface) × (send_datagram i dgram hop ≡ some i')
      × Sends i i' hop (ipv4_frame i.ethernet_address unset payload)
unfolding send_datagram
send_datagram-Sends i dgram hop payload e =
    let (i', sent, sends) = send_to-Sends i hop payload (lookup hop i.ip_address_map) refl in
    (
      i',
      ap (λ o. o >>= λ p. send_to i hop (datagram_frame i p) (lookup hop i.ip_address_map)) e
          ∙ sent,
      sends,
    )
