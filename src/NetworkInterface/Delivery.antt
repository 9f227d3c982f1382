-- ===== src/NetworkInterface/Delivery.antt =====
-- A datagram on its way from one interface to another.
use tcp_impliment.Common.{
  arith, ℕ, ◌+◌, ◌*◌, ◌≡◌, refl, ap, ◌∙◌, some, [], ◌∷◌, length, lookup, ◌>>=◌, if_false,
}
use tcp_impliment.Buffer.{joined}
use tcp_impliment.Parser.{ParseResult}
use tcp_impliment.Ethernet.{EthernetFrame, parse_frame, serialize_frame}
use tcp_impliment.Ethernet.Frames.{parse-serialize_frame}
use tcp_impliment.Ipv4.{Ipv4Datagram, ipv4_bytes}
use tcp_impliment.Ipv4.RoundTrip.{IsIpv4, checked}
use tcp_impliment.Ipv4.Datagrams.{parse-serialize_datagram}
use tcp_impliment.NetworkInterface.{
  NetworkInterface, push, datagram_frame, set_dst, recv_frame, if_parsed, send_datagram, send_to,
  no_datagram,
}
use tcp_impliment.NetworkInterface.Resolving.{IsNamed, for_us}

-- The datagram as it arrives: with its checksum, its payload in one buffer.
abbrev pub arrived : Ipv4Datagram → Ipv4Datagram
arrived d = record { header = checked d.header; payload = joined d.payload ∷ [] }

-- A datagram with a well-formed header of the right length that `a` sends to a next hop whose
-- address it knows to be that of `b` goes out at once in one frame. The frame's bytes are read as
-- a frame without an error, and `b` hands up the datagram from it, with the checksum filled in.
pub send-recv :
    (a b : NetworkInterface) (d : Ipv4Datagram) (hop : ℕ) (old : EthernetFrame)
    → IsNamed a
    → IsNamed b
    → IsIpv4 d.header
    → 4 * d.header.hlen + length (joined d.payload) ≡ d.header.len
    → lookup hop a.ip_address_map ≡ some b.ethernet_address
    → (frame : EthernetFrame) × (arriving : EthernetFrame) × (send_datagram a d hop
        ≡ some (push a frame))
      × (parse_frame old (joined (serialize_frame frame)) ≡ (ParseResult.no_error, arriving))
      × (recv_frame b arriving ≡ some (b, some (arrived d)))
unfolding send_datagram recv_frame
send-recv a b d hop old va vb v fits known =
    let bytes = ipv4_bytes (checked d.header) in
    let io = parse-serialize_datagram no_datagram d v fits in
    let frame = set_dst b.ethernet_address (datagram_frame a (bytes ∷ d.payload)) in
    let arriving : EthernetFrame = record {
      header = frame.header;
      payload = joined (bytes ∷ d.payload) ∷ [];
    } in
    (
      frame,
      arriving,
      ap (λ o. o >>= λ p. send_to a hop (datagram_frame a p) (lookup hop a.ip_address_map)) io.0
          ∙ ap (send_to a hop (datagram_frame a (bytes ∷ d.payload))) known,
      parse-serialize_frame old frame
          (record { dst = vb.ethernet; src = va.ethernet; type = omega arith }),
      if_false _ _ (for_us b arriving refl) ∙ ap (λ r. some (b, if_parsed r)) io.1,
    )
