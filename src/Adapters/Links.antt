-- ===== src/Adapters/Links.antt =====
-- A segment that one adapter writes to its device and the peer's adapter reads.
use tcp_impliment.Common.{
  Option, ◌++◌, replicate, length-append, ◌-◌, length-replicate, ℕ, ◌+◌, ◌*◌, ◌<◌, ◌^◌, ◌≡◌, refl,
  sym, ap, ◌∙◌, arith, false, some, List, [], ◌∷◌, length, lookup, ◌>>=◌, map,
}
use tcp_impliment.Buffer.{joined}
use tcp_impliment.Segment.{TcpSegment}
use tcp_impliment.Segment.Wire.{tcp_length}
use tcp_impliment.Segment.Segments.{IsSegment}
use tcp_impliment.Ipv4.{ipv4_bytes, serialize_datagram}
use tcp_impliment.Ipv4.RoundTrip.{IsIpv4, checked}
use tcp_impliment.Ipv4.Datagrams.{parse-serialize_datagram}
use tcp_impliment.Ethernet.{EthernetFrame, serialize_frame}
use tcp_impliment.NetworkInterface
use tcp_impliment.NetworkInterface.{NetworkInterface, no_datagram, push}
use tcp_impliment.NetworkInterface.Resolving.{IsNamed}
use tcp_impliment.NetworkInterface.Delivery.{send-recv}
use tcp_impliment.TcpOverIp.{TcpOverIpv4Adapter, with_ports}
use tcp_impliment.TcpOverIp.Crossing.{
  ArePeers, crossed, wrapped, wrap_tcp_in_ip-wrapped, unwrap_tcp_in_ip-wrapped,
}
use tcp_impliment.Adapters.{
  EthernetAdapter, default_frame, send_pending, hand_up, tun_parsed, tun_read, tun_write,
  tap_parsed, tap_read, tap_write,
}

-- A segment of `a` that fits into a datagram with its headers.
pub record IsSendable (a : TcpOverIpv4Adapter) (seg : TcpSegment) : Type 0 where
  pub segment : IsSegment (with_ports a seg)
  pub fits : 20 + 4 * seg.header.doff + length seg.payload < 2 ^ 16
  pub source : a.cfg.source.ipv4_numeric < 2 ^ 32
  pub destination : a.cfg.destination.ipv4_numeric < 2 ^ 32

wrapped-IsIpv4 :
    (a : TcpOverIpv4Adapter) (seg : TcpSegment) → IsSendable a seg → IsIpv4 (wrapped a seg).header
wrapped-IsIpv4 a seg v = record {
  ver = refl;
  hlen = omega arith;
  tos = omega arith;
  len = omega arith;
  id = omega arith;
  offset = omega arith;
  ttl = omega arith;
  proto = omega arith;
  cksum = omega arith;
  src = v.source;
  dst = v.destination;
}

length-wrapped :
    (a : TcpOverIpv4Adapter) (seg : TcpSegment)
    → IsSendable a seg
    → 20 + length (joined (wrapped a seg).payload) ≡ (wrapped a seg).header.len
length-wrapped a seg v = omega (
  arith,
  length-replicate {A = ℕ} (4 * seg.header.doff - tcp_length) 0,
  length-append (replicate {A = ℕ} (4 * seg.header.doff - tcp_length) 0) (seg.payload ++ []),
  length-append seg.payload [],
  v.segment.header.doff,
  v.fits,
)

-- A segment written to a TUN device by one adapter is read from these bytes by its peer, which is
-- not listening, as the same segment, with the ports of the two and the checksum filled in; the
-- peer's adapter stays as it is.
pub tun_write-tun_read :
    (a b : TcpOverIpv4Adapter) (seg : TcpSegment)
    → ArePeers a b
    → b.listening ≡ false
    → IsSendable a seg
    → (bytes : List (List ℕ)) × (tun_write a seg ≡ some bytes)
      × (tun_read b (joined bytes) ≡ some (b, some (crossed a seg)))
unfolding tun_write tun_read
tun_write-tun_read a b seg p l v =
    let d = wrapped a seg in
    let io =
      parse-serialize_datagram no_datagram d (wrapped-IsIpv4 a seg v) (length-wrapped a seg v) in
    (
      ipv4_bytes (checked d.header) ∷ d.payload,
      ap (λ o. o >>= λ d. serialize_datagram d)
            (wrap_tcp_in_ip-wrapped a seg v.segment v.source v.destination)
          ∙ io.0,
      ap (tun_parsed b) io.1
          ∙ unwrap_tcp_in_ip-wrapped a seg v.segment v.source v.destination b p l,
    )

nothing_pending : (e : EthernetAdapter) → e.interface.frames_out ≡ [] → (send_pending e).0 ≡ e
nothing_pending e h =
    ap (λ q. record e { interface = record (e.interface) { frames_out = q } }) (sym h)

sent_all :
    (e : EthernetAdapter) (frame : EthernetFrame)
    → e.interface.frames_out ≡ []
    → some (send_pending (record e { interface = push e.interface frame }))
      ≡ some (e, serialize_frame frame ∷ [])
sent_all e frame h =
    ap (λ q. some ((send_pending e).0, map serialize_frame (q ++ frame ∷ []))) h
    ∙ ap (λ x. some (x, serialize_frame frame ∷ [])) (nothing_pending e h)

sent_none :
    (f : EthernetAdapter) (seg : Option TcpSegment)
    → f.interface.frames_out ≡ []
    → ◌≡◌ {A = Option (EthernetAdapter × List (List (List ℕ)) × Option TcpSegment)}
        (some ((send_pending f).0, (send_pending f).1, seg))
        (some (f, [], seg))
sent_none f seg h =
    ap (λ q. some ((send_pending f).0, map serialize_frame q, seg)) h
    ∙ ap (λ x. some (x, [], seg)) (nothing_pending f h)

-- Two adapters over Ethernet are peers, their interfaces have well-formed addresses and nothing
-- left to send, and the first knows the second's address for its next hop. A segment that it
-- writes goes out at once in one frame, whose bytes the second, which is not listening, reads as
-- the same segment, with the ports of the two and the checksum filled in; both stay as they are.
pub tap_write-tap_read :
    (e f : EthernetAdapter) (seg : TcpSegment)
    → ArePeers e.base f.base
    → f.base.listening ≡ false
    → IsSendable e.base seg
    → IsNamed e.interface
    → IsNamed f.interface
    → e.interface.frames_out ≡ []
    → f.interface.frames_out ≡ []
    → lookup e.next_hop e.interface.ip_address_map ≡ some f.interface.ethernet_address
    → (frame : List (List ℕ)) × (tap_write e seg ≡ some (e, frame ∷ []))
      × (tap_read f (joined frame) ≡ some (f, [], some (crossed e.base seg)))
unfolding tap_write tap_read
tap_write-tap_read e f seg p l v ve vf oe of known =
    let d = wrapped e.base seg in
    let (frame, arriving, sent, parsed, taken) =
      send-recv e.interface f.interface d e.next_hop default_frame ve vf
        (wrapped-IsIpv4 e.base seg v) (length-wrapped e.base seg v) known in
    (
      serialize_frame frame,
      ap
            (λ o. o >>= λ d. NetworkInterface.send_datagram e.interface d e.next_hop >>= λ i.
              some (send_pending (record e { interface = i })))
            (wrap_tcp_in_ip-wrapped e.base seg v.segment v.source v.destination)
          ∙ ap (λ o. o >>= λ i. some (send_pending (record e { interface = i }))) sent
          ∙ sent_all e frame oe,
      ap (tap_parsed f) parsed
          ∙ ap (λ o. o >>= λ r. hand_up (send_pending (record f { interface = r.0 })) r.1) taken
          ∙ ap
              (λ o.
                o >>= λ r. some (record (send_pending f).0 { base = r.0 }, (send_pending f).1, r.1))
              (unwrap_tcp_in_ip-wrapped e.base seg v.segment v.source v.destination f.base p l)
          ∙ sent_none f (some (crossed e.base seg)) of,
    )
