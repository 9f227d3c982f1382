-- ===== src/TcpOverIp/Crossing.antt =====
-- A segment that one adapter wraps and its peer unwraps.
use tcp_impliment.Common.{
  inr, inl, Bool-cases, ◌∷◌, ℕ, ◌<◌, ◌^◌, ◌==◌, ◌≡◌, refl, sym, ap, ◌∙◌, arith, Bool, true, false,
  ◌&&◌, not, none, some, List, [], if◌then◌else◌, ◌>>=◌, if_true, if_false,
}
use tcp_impliment.Buffer.{joined, contiguous}
use tcp_impliment.Parser.{ParseResult, failed}
use tcp_impliment.Segment.{TcpSegment, default_segment}
use tcp_impliment.Segment.Wire.{parse_segment, serialize_segment, header_bytes}
use tcp_impliment.Segment.Segments
use tcp_impliment.Segment.Segments.{IsSegment, parse-serialize_segment}
use tcp_impliment.Ipv4.{Ipv4Header, Ipv4Datagram, proto_tcp, pseudo_cksum}
use tcp_impliment.Ipv4.RoundTrip.{is_eq}
use tcp_impliment.NetworkInterface.Delivery.{arrived}
use tcp_impliment.TcpOverIp.{
  Address, TcpOverIpv4Adapter, from_peer, take_segment, take_parsed, unwrap_tcp_in_ip, with_ports,
  datagram_header, wrap_tcp_in_ip,
}

-- A peer's addresses are the other's, exchanged.
pub record ArePeers (a b : TcpOverIpv4Adapter) : Type 0 where
  pub there : b.cfg.source ≡ a.cfg.destination
  pub back : b.cfg.destination ≡ a.cfg.source

-- The segment as it is handed up: with its ports and its checksum.
abbrev pub crossed : TcpOverIpv4Adapter → TcpSegment → TcpSegment
crossed a seg =
    let sent = with_ports a seg in
    record {
      header = Segments.checked sent (pseudo_cksum (datagram_header a sent));
      payload = seg.payload;
    }

small_pseudo :
    (h : Ipv4Header) → h.src < 2 ^ 32 → h.dst < 2 ^ 32 → h.proto < 2 ^ 8 → pseudo_cksum h < 2 ^ 20
small_pseudo h s d p = omega arith

and_no : (b : Bool) (m n : ℕ) → m ≡ n → (b && not (m == n)) ≡ false
and_no true m n e = is_eq m n e
and_no false m n e = refl

-- A datagram with a segment in it, for the adapter `b`.
module _ (b : TcpOverIpv4Adapter) (d : Ipv4Datagram) (buffer : List ℕ) (seg : TcpSegment)
    (tcp : d.header.proto ≡ proto_tcp) (whole : contiguous d.payload ≡ some buffer)
    (parsed : parse_segment default_segment buffer (pseudo_cksum d.header)
      ≡ (ParseResult.no_error, seg))
    (ours : seg.header.dport ≡ b.cfg.source.port) where
  opened :
      (not b.listening && not (d.header.dst == b.cfg.source.ipv4_numeric)) ≡ false
      → (not b.listening && not (d.header.src == b.cfg.destination.ipv4_numeric)) ≡ false
      → unwrap_tcp_in_ip b d ≡ some (take_segment b d.header seg)
  unfolding unwrap_tcp_in_ip
  opened to from =
      if_false _ _ to
      ∙ if_false _ _ from
      ∙ if_false _ _ (is_eq d.header.proto proto_tcp tcp)
      ∙ ap
          (λ o. o >>= λ l.
            some (take_parsed b d.header (parse_segment default_segment l (pseudo_cksum d.header))))
          whole
      ∙ ap (λ r. some (take_parsed b d.header r)) parsed

  taken_from_peer :
      (c : TcpOverIpv4Adapter)
      → seg.header.sport ≡ c.cfg.destination.port
      → from_peer c seg ≡ (c, some seg)
  taken_from_peer c e =
      ap (λ o. (c, o)) (if_false _ _ (is_eq seg.header.sport c.cfg.destination.port e))

  -- An adapter that is not listening hands up the segment of its peer, and stays.
  unwrap_established :
      b.listening ≡ false
      → d.header.dst ≡ b.cfg.source.ipv4_numeric
      → d.header.src ≡ b.cfg.destination.ipv4_numeric
      → seg.header.sport ≡ b.cfg.destination.port
      → unwrap_tcp_in_ip b d ≡ some (b, some seg)
  unfolding take_segment
  unwrap_established l to from peer =
      opened (and_no (not b.listening) d.header.dst b.cfg.source.ipv4_numeric to)
        (and_no (not b.listening) d.header.src b.cfg.destination.ipv4_numeric from)
      ∙ ap some (
          if_false _ _ (is_eq seg.header.dport b.cfg.source.port ours)
          ∙ if_false _ _ l
          ∙ taken_from_peer b peer)

-- The adapter of a server that was called by the segment.
abbrev pub called : TcpOverIpv4Adapter → Ipv4Datagram → TcpSegment → TcpOverIpv4Adapter
called b d seg = record {
  cfg = record {
    source = record { ipv4_numeric = d.header.dst; port = b.cfg.source.port };
    destination = record { ipv4_numeric = d.header.src; port = seg.header.sport };
    loss_rate_dn = b.cfg.loss_rate_dn;
    loss_rate_up = b.cfg.loss_rate_up;
  };
  listening = false;
}

-- The segment calls the adapter.
abbrev pub calls : TcpOverIpv4Adapter → ParseResult × TcpSegment → Bool
calls b (result, seg) =
    not (failed result)
    && seg.header.dport == b.cfg.source.port
    && seg.header.syn
    && not seg.header.rst

take_parsed-listening :
    (b : TcpOverIpv4Adapter) (d : Ipv4Datagram) (r : ParseResult × TcpSegment)
    → b.listening ≡ true
    → take_parsed b d.header r ≡ (if calls b r then (called b d r.1, some r.1) else (b, none))
unfolding take_segment
take_parsed-listening b d (result, seg) l = elim (Bool-cases (failed result)) [
  | inl bad ↦ rw bad refl
  | inr good ↦ elim (Bool-cases (seg.header.dport == b.cfg.source.port)) [
    | inl ours ↦
        rw (good, ours)
          (if_true _ _ l
            ∙ ap (λ r. if seg.header.syn && not seg.header.rst then r else (b, none))
                (ap (λ o. (called b d seg, o))
                  (if_false _ _ (is_eq seg.header.sport seg.header.sport refl))))
    | inr other ↦ rw (good, other) refl
  ]
]

-- A listening adapter takes a datagram exactly if it is one of TCP that holds a segment without an
-- error, for the adapter's port, with a SYN and no RST: it stops listening and has the datagram's
-- source, with the segment's port, for its peer and the address that was called, with its port, for
-- its own. Any other datagram is dropped, and the adapter stays as it is. The payload can be read
-- in one piece.
pub unwrap_listening :
    (b : TcpOverIpv4Adapter) (d : Ipv4Datagram) (buffer : List ℕ)
    → b.listening ≡ true
    → contiguous d.payload ≡ some buffer
    → let r = parse_segment default_segment buffer (pseudo_cksum d.header) in
      unwrap_tcp_in_ip b d
      ≡ some (if d.header.proto == 6 && calls b r then (called b d r.1, some r.1) else (b, none))
unfolding unwrap_tcp_in_ip
unwrap_listening b d buffer l whole =
    if_false _ _ (heard (d.header.dst == b.cfg.source.ipv4_numeric))
    ∙ if_false _ _ (heard (d.header.src == b.cfg.destination.ipv4_numeric))
    ∙ opened_by (d.header.proto == 6)
  where
    heard : (x : Bool) → (not b.listening && not x) ≡ false
    heard x = rw l refl

    opened_by :
        (tcp : Bool)
        → (if not tcp
            then some (b, none)
            else (contiguous d.payload >>= λ buffer. some (
                take_parsed b d.header
                  (parse_segment default_segment buffer (pseudo_cksum d.header)))))
          ≡ (let r = parse_segment default_segment buffer (pseudo_cksum d.header) in
              some (if tcp && calls b r then (called b d r.1, some r.1) else (b, none)))
    opened_by false = refl
    opened_by true =
        ap
          (λ o. o >>= λ buffer.
            some (
              take_parsed b d.header
                (parse_segment default_segment buffer (pseudo_cksum d.header))))
          whole
        ∙ ap some (
            take_parsed-listening b d (parse_segment default_segment buffer (pseudo_cksum d.header))
              l)

-- The datagram that a segment is wrapped in.
abbrev pub wrapped : TcpOverIpv4Adapter → TcpSegment → Ipv4Datagram
wrapped a seg = record {
  header = datagram_header a (with_ports a seg);
  payload = header_bytes (crossed a seg).header ∷ seg.payload ∷ [];
}

-- A segment that a datagram can carry, and an adapter with addresses of IPv4.
module _ (a : TcpOverIpv4Adapter) (seg : TcpSegment) (v : IsSegment (with_ports a seg))
    (s : a.cfg.source.ipv4_numeric < 2 ^ 32) (t : a.cfg.destination.ipv4_numeric < 2 ^ 32) where
  crossing :
      (serialize_segment (with_ports a seg) (pseudo_cksum (wrapped a seg).header)
        ≡ some (wrapped a seg).payload)
      × (parse_segment default_segment
            (joined (wrapped a seg).payload)
            (pseudo_cksum (wrapped a seg).header)
          ≡ (ParseResult.no_error, crossed a seg))
  crossing =
      parse-serialize_segment default_segment (with_ports a seg)
        (pseudo_cksum (wrapped a seg).header) v
        (small_pseudo (wrapped a seg).header s t (omega arith))

  pub wrap_tcp_in_ip-wrapped : wrap_tcp_in_ip a seg ≡ some (wrapped a seg)
  unfolding wrap_tcp_in_ip
  wrap_tcp_in_ip-wrapped =
      ap
        (λ o. o >>= λ payload. some (record { header = (wrapped a seg).header; payload = payload }))
        crossing.0

  pub unwrap_tcp_in_ip-wrapped :
      (b : TcpOverIpv4Adapter)
      → ArePeers a b
      → b.listening ≡ false
      → unwrap_tcp_in_ip b (arrived (wrapped a seg)) ≡ some (b, some (crossed a seg))
  unwrap_tcp_in_ip-wrapped b p l =
      unwrap_established b (arrived (wrapped a seg)) (joined (wrapped a seg).payload)
        (crossed a seg) refl refl crossing.1 (sym (ap (λ (x : Address). x.port) p.there)) l
        (sym (ap (λ (x : Address). x.ipv4_numeric) p.there))
        (sym (ap (λ (x : Address). x.ipv4_numeric) p.back))
        (sym (ap (λ (x : Address). x.port) p.back))

-- A segment that a datagram can carry, wrapped by one adapter, arrives at its peer, which is not
-- listening, as the same segment, with the ports of the two and the checksum filled in, and
-- leaves the peer's adapter as it is.
pub wrap_tcp_in_ip-unwrap_tcp_in_ip :
    (a b : TcpOverIpv4Adapter) (seg : TcpSegment)
    → ArePeers a b
    → b.listening ≡ false
    → IsSegment (with_ports a seg)
    → a.cfg.source.ipv4_numeric < 2 ^ 32
    → a.cfg.destination.ipv4_numeric < 2 ^ 32
    → (d : Ipv4Datagram) × (wrap_tcp_in_ip a seg ≡ some d)
      × (unwrap_tcp_in_ip b (arrived d) ≡ some (b, some (crossed a seg)))
wrap_tcp_in_ip-unwrap_tcp_in_ip a b seg p l v s t =
    (wrapped a seg, wrap_tcp_in_ip-wrapped a seg v s t, unwrap_tcp_in_ip-wrapped a seg v s t b p l)
