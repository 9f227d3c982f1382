-- ===== src/NetworkInterface/Resolving.antt =====
-- Two interfaces: an address is asked for and learnt, and a datagram goes across.
use tcp_impliment.Common.{
  ℕ, ◌<◌, ◌^◌, ◌≡◌, refl, ap, ◌∙◌, arith, Bool, true, false, not, ◌&&◌, none, some, List, [], ◌∷◌,
  ◌++◌, map, lookup, insert, erase, lookup-insert, lookup-erase, ==_iff, ◌>>=◌, if_true, if_false,
}
use tcp_impliment.Ethernet.{EthernetAddress, EthernetFrame}
use tcp_impliment.Ethernet.Frames.{IsBytes}
use tcp_impliment.Arp
use tcp_impliment.Arp.{ArpMessage, bytes_of, default_message, no_address}
use tcp_impliment.Arp.Messages.{IsMessage, parse-serialize}
use tcp_impliment.NetworkInterface.{
  NetworkInterface, ethernet_broadcast, push, set_dst, arp_frame, arp_request, arp_reply, learn,
  release_to, recv_arp, recv_message, recv_frame, if_parsed, is_equal,
}
use tcp_impliment.NetworkInterface.Sending.{who_has}
use tcp_impliment.NetworkInterface.Calls.{not_for, recv_arp_request, recv_arp_other}

-- An interface with addresses that fit.
pub record IsNamed (i : NetworkInterface) : Type 0 where
  pub ethernet : IsBytes i.ethernet_address
  pub ip : i.ip_address < 2 ^ 32

is_equal_self : (a : EthernetAddress) → is_equal a a ≡ true
is_equal_self a = ground arith

and_false : (b : Bool) → (b && false) ≡ false
and_false true = refl
and_false false = refl

pub for_us :
    (i : NetworkInterface) (frame : EthernetFrame)
    → frame.header.dst ≡ i.ethernet_address
    → not_for i frame ≡ false
for_us i frame e =
    ap (λ d. not (is_equal d i.ethernet_address) && not (is_equal d ethernet_broadcast)) e
    ∙ rw (is_equal_self i.ethernet_address) refl

for_all :
    (i : NetworkInterface) (frame : EthernetFrame)
    → frame.header.dst ≡ ethernet_broadcast
    → not_for i frame ≡ false
for_all i frame e =
    ap (λ d. not (is_equal d i.ethernet_address) && not (is_equal d ethernet_broadcast)) e
    ∙ and_false (not (is_equal ethernet_broadcast i.ethernet_address))

-- A message that is written into a frame for the interface is read.
recv_frame-arp_frame :
    (i sender : NetworkInterface) (dst : EthernetAddress) (msg : ArpMessage)
    → IsMessage msg
    → Arp.supported msg ≡ true
    → not_for i (arp_frame sender dst (bytes_of msg)) ≡ false
    → recv_frame i (arp_frame sender dst (bytes_of msg))
      ≡ (recv_arp i msg >>= λ i'. some (i', none))
unfolding recv_frame
recv_frame-arp_frame i sender dst msg v s ours =
    if_false _ _ ours
    ∙ ap (λ r. recv_message i (if_parsed r) >>= λ i'. some (i', none))
        (parse-serialize default_message msg [] v s).1

-- `a` asks for the address of `b`.
module _ (a b : NetworkInterface) (va : IsNamed a) (vb : IsNamed b) where
  abbrev pub question : ArpMessage
  question = arp_request a b.ip_address

  abbrev pub answer : ArpMessage
  answer = arp_reply b (arp_request a b.ip_address)

  zeros-IsBytes : IsBytes no_address
  zeros-IsBytes = omega arith

  question-IsMessage : IsMessage question
  question-IsMessage = record {
    sender = va.ethernet;
    sender_ip = va.ip;
    target = zeros-IsBytes;
    target_ip = vb.ip;
  }

  answer-IsMessage : IsMessage answer
  answer-IsMessage = record {
    sender = vb.ethernet;
    sender_ip = vb.ip;
    target = va.ethernet;
    target_ip = va.ip;
  }

  pub answered :
      recv_frame b (arp_frame a ethernet_broadcast (bytes_of question))
      ≡ some (push (learn b question) (arp_frame b a.ethernet_address (bytes_of answer)), none)
  answered =
      recv_frame-arp_frame b a ethernet_broadcast question question-IsMessage refl
        (for_all b (arp_frame a ethernet_broadcast (bytes_of question)) refl)
      ∙ ap (λ o. o >>= λ i'. some (i', none))
          (recv_arp_request b question ((==_iff b.ip_address b.ip_address).1 refl))

  pub learnt :
      recv_frame a (arp_frame b a.ethernet_address (bytes_of answer))
      ≡ some (release_to (learn a answer) answer (lookup b.ip_address a.unsend_frame), none)
  learnt =
      recv_frame-arp_frame a b a.ethernet_address answer answer-IsMessage refl
        (for_us a (arp_frame b a.ethernet_address (bytes_of answer)) refl)
      ∙ ap (λ o. o >>= λ i'. some (i', none)) (recv_arp_other a answer refl)

-- Both interfaces after the exchange: `a` knows `b`, has sent what waited for it, and waits no
-- more, and `b` knows `a`.
pub record Resolved (a b a' b' : NetworkInterface) (waiting : List EthernetFrame) : Type 0 where
  pub known : lookup b.ip_address a'.ip_address_map ≡ some b.ethernet_address
  pub met : lookup a.ip_address b'.ip_address_map ≡ some a.ethernet_address
  pub sent : a'.frames_out ≡ a.frames_out ++ map (set_dst b.ethernet_address) waiting
  pub waits : lookup b.ip_address a'.unsend_frame ≡ none

lookup-insert_self {ℓ} :
    {V : Type ℓ} (k : ℕ) (x : V) (m : List (ℕ × V)) → lookup k (insert k x m) ≡ some x
lookup-insert_self k x m = lookup-insert k k x m ∙ if_true _ _ ((==_iff k k).1 refl)

lookup-erase_self {ℓ} : {V : Type ℓ} (k : ℕ) (m : List (ℕ × V)) → lookup k (erase k m) ≡ none
lookup-erase_self k m = lookup-erase k k m ∙ if_true _ _ ((==_iff k k).1 refl)

-- `a` has frames that wait for the address of `b`. The frame with its request, taken by `b`, makes
-- `b` send one frame, and that frame, taken by `a`, makes `a` send all that waited, in order and
-- to the address of `b`.
pub exchange-Resolved :
    (a b : NetworkInterface) (waiting : List EthernetFrame)
    → IsNamed a
    → IsNamed b
    → lookup b.ip_address a.unsend_frame ≡ some waiting
    → (b' : NetworkInterface) × (a' : NetworkInterface) × (reply : EthernetFrame) × (recv_frame b
          (arp_frame a ethernet_broadcast (bytes_of (arp_request a b.ip_address)))
        ≡ some (b', none))
      × (b'.frames_out ≡ b.frames_out ++ reply ∷ [])
      × (recv_frame a reply ≡ some (a', none))
      × Resolved a b a' b' waiting
exchange-Resolved a b waiting va vb w =
    let q = question a b va vb in
    let r = answer a b va vb in
    (
      push (learn b q) (arp_frame b a.ethernet_address (bytes_of r)),
      release_to (learn a r) r (some waiting),
      arp_frame b a.ethernet_address (bytes_of r),
      answered a b va vb,
      refl,
      learnt a b va vb ∙ ap (λ o. some (release_to (learn a r) r o, none)) w,
      record {
        known = lookup-insert_self b.ip_address b.ethernet_address a.ip_address_map;
        met = lookup-insert_self a.ip_address a.ethernet_address b.ip_address_map;
        sent = refl;
        waits = lookup-erase_self b.ip_address a.unsend_frame;
      },
    )

-- The frame that tells the asker an address.
abbrev pub is_at : EthernetAddress → ℕ → EthernetAddress → ℕ → EthernetFrame
is_at address ip asker asker_ip = record {
  header = record { dst = asker; src = address; type = 2054 };
  payload =
      bytes_of (record {
        hardware_type = 1;
        protocol_type = 2048;
        hardware_address_size = 6;
        protocol_address_size = 4;
        opcode = 2;
        sender_ethernet_address = address;
        sender_ip_address = ip;
        target_ethernet_address = asker;
        target_ip_address = asker_ip;
      })
      ∷ [];
}

-- Frames of `b` wait for the address of `a`, and a request of `a` for the address of `b` comes in:
-- `b` learns the address and sends `a` the reply with its own, and nothing else; the frames still
-- wait, although the address that they wait for is now known.
pub request_leaves_waiting :
    (a b : NetworkInterface) (waiting : List EthernetFrame)
    → IsNamed a
    → IsNamed b
    → lookup a.ip_address b.unsend_frame ≡ some waiting
    → (b' : NetworkInterface) × (recv_frame b (who_has a.ethernet_address a.ip_address b.ip_address)
        ≡ some (b', none))
      × (b'.frames_out
          ≡ b.frames_out
            ++ is_at b.ethernet_address b.ip_address a.ethernet_address a.ip_address ∷ [])
      × (lookup a.ip_address b'.ip_address_map ≡ some a.ethernet_address)
      × (lookup a.ip_address b'.unsend_frame ≡ some waiting)
request_leaves_waiting a b waiting va vb w =
    let q = question a b va vb in
    let r = answer a b va vb in
    (
      push (learn b q) (arp_frame b a.ethernet_address (bytes_of r)),
      answered a b va vb,
      refl,
      lookup-insert_self a.ip_address a.ethernet_address b.ip_address_map,
      w,
    )
