-- ===== src/NetworkInterface/Calls.antt =====
-- The calls of an interface as steps, and what every interface keeps.
use tcp_impliment.Common.{
  ◌<◌, ◌≢◌, ℕ, ◌==◌, ◌≡◌, refl, sym, ap, subst, ◌∙◌, arith, Bool, true, false, not, ◌&&◌, Option,
  none, some, List, if◌then◌else◌, lookup, contains, lookup-insert, lookup-erase, is_some,
  Bool-cases, inl, inr, if_true, if_false, Option-cases,
}
use tcp_impliment.Common.Words.{add32, sub32}
use tcp_impliment.Buffer.{contiguous}
use tcp_impliment.Ethernet.{EthernetAddress, EthernetFrame, type_ipv4}
use tcp_impliment.Arp
use tcp_impliment.Arp.{ArpMessage, bytes_of, default_message}
use tcp_impliment.Ipv4.{Ipv4Datagram, serialize_datagram, parse_datagram}
use tcp_impliment.NetworkInterface.{
  NetworkInterface, ethernet_broadcast, new, push, datagram_frame, arp_frame, arp_reply, learn,
  release_to, is_request_for, recv_arp, recv_message, recv_frame, if_parsed, is_equal,
  send_datagram, tick, no_datagram,
}
use tcp_impliment.NetworkInterface.Expiring.{expire-Walked}
use tcp_impliment.NetworkInterface.Sending.{Sends, waiting_after, send_datagram-Sends}

-- A request is on record for exactly the addresses that frames wait for, a time for exactly those
-- in the cache, and none of these times is 30,000 ms old.
pub record IsValid (i : NetworkInterface) : Type 0 where
  pub asked : (ip : ℕ) → contains ip i.unsend_frame ≡ contains ip i.latest_arp_time
  pub timed : (ip : ℕ) → contains ip i.ip_address_map ≡ contains ip i.map_time
  pub fresh : (ip time : ℕ) → lookup ip i.map_time ≡ some time → sub32 i.now_time time < 30000

no_time : {time : ℕ} → none ≡ some time → ⊥
no_time e = cc

some_time : {m n : ℕ} → some m ≡ some n → m ≡ n
some_time e = cc

new-IsValid : (address : EthernetAddress) (ip : ℕ) → IsValid (new address ip)
unfolding lookup
new-IsValid address ip = record {
  asked = λ k. refl;
  timed = λ k. refl;
  fresh = λ k t e. absurd (no_time e);
}

-- The interface after an ARP message that is not a request for it, and after one that is.
abbrev pub released : NetworkInterface → ArpMessage → NetworkInterface
released i msg = release_to (learn i msg) msg (lookup msg.sender_ip_address i.unsend_frame)

abbrev pub replied : NetworkInterface → ArpMessage → NetworkInterface
replied i msg =
    push (learn i msg) (arp_frame i msg.sender_ethernet_address (bytes_of (arp_reply i msg)))

pub recv_arp_request :
    (i : NetworkInterface) (msg : ArpMessage)
    → is_request_for i msg ≡ true
    → recv_arp i msg ≡ some (replied i msg)
unfolding recv_arp Arp.serialize
recv_arp_request i msg e = if_true _ _ e

pub recv_arp_other :
    (i : NetworkInterface) (msg : ArpMessage)
    → is_request_for i msg ≡ false
    → recv_arp i msg ≡ some (released i msg)
unfolding recv_arp
recv_arp_other i msg e = if_false _ _ e

-- The frame is for another interface.
abbrev pub not_for : NetworkInterface → EthernetFrame → Bool
not_for i frame =
    not (is_equal frame.header.dst i.ethernet_address)
    && not (is_equal frame.header.dst ethernet_broadcast)

none_sent :
    (i : NetworkInterface) (dgram : Ipv4Datagram) (hop : ℕ) (i' : NetworkInterface)
    → serialize_datagram dgram ≡ none
    → send_datagram i dgram hop ≡ some i'
    → ⊥
unfolding send_datagram
none_sent i dgram hop i' n e = ground (arith, n, e)

some-inj : {a b : NetworkInterface} → some a ≡ some b → a ≡ b
some-inj e = cc

module _ (i : NetworkInterface) (v : IsValid i) where
  learn-timed :
      (msg : ArpMessage) (ip : ℕ)
      → contains ip (learn i msg).ip_address_map ≡ contains ip (learn i msg).map_time
  learn-timed msg ip = ground (
    arith,
    v.timed ip,
    lookup-insert msg.sender_ip_address ip msg.sender_ethernet_address i.ip_address_map,
    lookup-insert msg.sender_ip_address ip i.now_time i.map_time,
  )

  learn-fresh :
      (msg : ArpMessage) (ip time : ℕ)
      → lookup ip (learn i msg).map_time ≡ some time
      → sub32 i.now_time time < 30000
  learn-fresh msg ip time e =
      let known = lookup-insert msg.sender_ip_address ip i.now_time i.map_time in
      elim (Bool-cases (msg.sender_ip_address == ip)) [
        | inl same ↦
            let now : i.now_time ≡ time = some_time (sym (known ∙ if_true _ _ same) ∙ e) in
            omega (arith, now)
        | inr apart ↦ v.fresh ip time (sym (known ∙ if_false _ _ apart) ∙ e)
      ]

  replied-IsValid : (msg : ArpMessage) → IsValid (replied i msg)
  replied-IsValid msg = record { asked = v.asked; timed = learn-timed msg; fresh = learn-fresh msg }

  release_to-IsValid :
      (msg : ArpMessage) (o : Option (List EthernetFrame))
      → IsValid (release_to (learn i msg) msg o)
  release_to-IsValid msg none = record {
    asked = v.asked;
    timed = learn-timed msg;
    fresh = learn-fresh msg;
  }
  release_to-IsValid msg (some frames) = record {
    asked = λ ip. ground (
      arith,
      v.asked ip,
      lookup-erase msg.sender_ip_address ip i.unsend_frame,
      lookup-erase msg.sender_ip_address ip i.latest_arp_time,
    );
    timed = learn-timed msg;
    fresh = learn-fresh msg;
  }

  recv_arp-IsValid :
      (msg : ArpMessage) → (i' : NetworkInterface) × (recv_arp i msg ≡ some i') × IsValid i'
  recv_arp-IsValid msg = elim (Bool-cases (is_request_for i msg)) [
    | inl e ↦ (replied i msg, recv_arp_request i msg e, replied-IsValid msg)
    | inr e ↦ (
      released i msg,
      recv_arp_other i msg e,
      release_to-IsValid msg (lookup msg.sender_ip_address i.unsend_frame),
    )
  ]

  waiting_after_lem :
      (hop : ℕ) (frame : EthernetFrame) (o : Option EthernetAddress) (ip : ℕ)
      → is_some (waiting_after i hop frame o ip)
        ≡ (if hop == ip && not (is_some o) then true else contains ip i.unsend_frame)
  waiting_after_lem hop frame none ip = ground arith
  waiting_after_lem hop frame (some address) ip = ground arith

  Sends-IsValid :
      (i' : NetworkInterface) (hop : ℕ) (frame : EthernetFrame) → Sends i i' hop frame → IsValid i'
  Sends-IsValid i' hop frame s = record {
    asked = λ ip.
        ap is_some (s.waiting ip)
        ∙ waiting_after_lem hop frame (lookup hop i.ip_address_map) ip
        ∙ ap (λ b. if hop == ip && not (contains hop i.ip_address_map) then true else b)
            (v.asked ip)
        ∙ sym (s.asked ip);
    timed = λ ip. ap (contains ip) s.cache ∙ v.timed ip ∙ ap (contains ip) (sym s.times);
    fresh = λ ip time e.
        subst (λ now. sub32 now time < 30000) (sym s.clock)
          (v.fresh ip time (sym (ap (lookup ip) s.times) ∙ e));
  }

  send_datagram-IsValid :
      (dgram : Ipv4Datagram) (hop : ℕ) (i' : NetworkInterface)
      → send_datagram i dgram hop ≡ some i'
      → IsValid i'
  send_datagram-IsValid dgram hop i' e = elim (Option-cases (serialize_datagram dgram)) [
    | inl n ↦ absurd (none_sent i dgram hop i' n e)
    | inr (payload, p) ↦
        let (j, sent, s) = send_datagram-Sends i dgram hop payload p in
        subst IsValid (some-inj (sym sent ∙ e)) (Sends-IsValid j hop (datagram_frame i payload) s)
  ]

  recv_message-IsValid :
      (o : Option ArpMessage) → (i' : NetworkInterface) × (recv_message i o ≡ some i') × IsValid i'
  recv_message-IsValid none = (i, refl, v)
  recv_message-IsValid (some msg) = recv_arp-IsValid msg

  -- A frame is taken unless its payload is not in one buffer.
  recv_frame-IsValid :
      (frame : EthernetFrame) (buffer : List ℕ)
      → contiguous frame.payload ≡ some buffer
      → (i' : NetworkInterface) × (d : Option Ipv4Datagram) × (recv_frame i frame ≡ some (i', d))
        × IsValid i'
  unfolding recv_frame
  recv_frame-IsValid frame buffer e = elim (Bool-cases (not_for i frame)) [
    | inl other ↦ (i, none, if_true _ _ other, v)
    | inr ours ↦ elim (Bool-cases (frame.header.type == type_ipv4)) [
      | inl ip ↦ (
        i,
        if_parsed (parse_datagram no_datagram buffer),
        if_false _ _ ours ∙ if_true _ _ ip ∙ rw (e) refl,
        v,
      )
      | inr arp ↦
          let (i', done, valid) =
            recv_message-IsValid (if_parsed (Arp.parse default_message buffer)) in
          (i', none, if_false _ _ ours ∙ if_false _ _ arp ∙ rw (e, done) refl, valid)
    ]
  ]

-- A call that returns.
pub data Step (i : NetworkInterface) : NetworkInterface → Type 0 where
  sends :
      {i' : NetworkInterface} (dgram : Ipv4Datagram) (hop : ℕ)
      → send_datagram i dgram hop ≡ some i'
      → Step i i'
  receives :
      {i' : NetworkInterface} (frame : EthernetFrame) (d : Option Ipv4Datagram)
      → recv_frame i frame ≡ some (i', d)
      → Step i i'
  waits :
      {i' : NetworkInterface} (readable : Bool) (ms : ℕ) → tick readable i ms ≡ some i' → Step i i'

-- What a new interface comes to by calls.
pub data Reached (address : EthernetAddress) (ip : ℕ) : NetworkInterface → Type 0 where
  begins : Reached address ip (new address ip)
  steps : {i i' : NetworkInterface} → Reached address ip i → Step i i' → Reached address ip i'

some_pair-inj :
    {a b : NetworkInterface} {c d : Option Ipv4Datagram}
    → ◌≡◌ {A = Option (NetworkInterface × Option Ipv4Datagram)} (some (a, c)) (some (b, d))
    → a ≡ b
some_pair-inj e = cc

not_both :
    {r : NetworkInterface × Option Ipv4Datagram}
    → ◌≡◌ {A = Option (NetworkInterface × Option Ipv4Datagram)} none (some r)
    → ⊥
not_both e = cc

not_taken :
    (i : NetworkInterface) (frame : EthernetFrame) (r : NetworkInterface × Option Ipv4Datagram)
    → contiguous frame.payload ≡ none
    → not_for i frame ≡ false
    → recv_frame i frame ≢ some r
unfolding recv_frame
not_taken i frame r n ours e =
    let none_taken : recv_frame i frame ≡ none =
      elim (Bool-cases (frame.header.type == type_ipv4)) [
        | inl ip ↦ if_false _ _ ours ∙ if_true _ _ ip ∙ rw (n) refl
        | inr arp ↦ if_false _ _ ours ∙ if_false _ _ arp ∙ rw (n) refl
      ] in
    not_both (sym none_taken ∙ e)

-- Whatever a freed entry reads as.
passed :
    (readable : Bool) (i i' : NetworkInterface) (ms : ℕ)
    → IsValid i
    → tick readable i ms ≡ some i'
    → IsValid i'
unfolding tick
passed readable i i' ms v e =
    let now = add32 i.now_time ms in
    let w = expire-Walked readable now i.map_time (record i { now_time = now }) i' e in
    record {
      asked = λ ip. ap (contains ip) w.waiting ∙ v.asked ip ∙ ap (contains ip) (sym w.requests);
      timed = w.timed v.timed;
      fresh = λ ip time f.
          subst (λ n. sub32 n time < 30000) (sym w.clock) (w.young ip time f (w.kept ip time f));
    }

received :
    (i i' : NetworkInterface) (frame : EthernetFrame) (d : Option Ipv4Datagram)
    → IsValid i
    → recv_frame i frame ≡ some (i', d)
    → IsValid i'
unfolding recv_frame
received i i' frame d v e = elim (Option-cases (contiguous frame.payload)) [
  | inr (buffer, c) ↦
      let (j, d', taken, valid) = recv_frame-IsValid i v frame buffer c in
      subst IsValid (some_pair-inj (sym taken ∙ e)) valid
  | inl n ↦ elim (Bool-cases (not_for i frame)) [
    | inl other ↦ subst IsValid (some_pair-inj (sym (if_true _ _ other) ∙ e)) v
    | inr ours ↦ absurd (not_taken i frame (i', d) n ours e)
  ]
]

Step-IsValid : {i i' : NetworkInterface} → IsValid i → Step i i' → IsValid i'
Step-IsValid v (sends dgram hop e) = send_datagram-IsValid _ v dgram hop _ e
Step-IsValid v (receives frame d e) = received _ _ frame d v e
Step-IsValid v (waits readable ms e) = passed readable _ _ ms v e

-- Whatever calls that return a new interface has seen, a request is on record for exactly the
-- addresses that frames wait for, a time for exactly the addresses in the cache, and no mapping in
-- the cache is 30,000 ms old. A tick that erases mappings, which the language leaves undefined,
-- returns where a freed entry still reads as it was.
pub Reached-IsValid :
    {address : EthernetAddress} {ip : ℕ} {i : NetworkInterface} → Reached address ip i → IsValid i
Reached-IsValid begins = new-IsValid _ _
Reached-IsValid (steps r s) = Step-IsValid (Reached-IsValid r) s
