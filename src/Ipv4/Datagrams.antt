-- ===== src/Ipv4/Datagrams.antt =====
-- Headers with their checksum, and datagrams.
use tcp_impliment.Common.{
  ◌==◌, not, if◌then◌else◌, if_false, Bool, [], false, some, ℕ, ◌+◌, ◌*◌, ◌≡◌, refl, ap, ◌∙◌, arith,
  List, ◌∷◌, ◌++◌, length,
}
use tcp_impliment.Buffer.{joined}
use tcp_impliment.Parser
use tcp_impliment.Parser.{ParseResult, NetParser}
use tcp_impliment.Checksum
use tcp_impliment.Checksum.Sums.{value-le}
use tcp_impliment.Ipv4.{
  Ipv4Header, Ipv4Datagram, parse_ipv4_header, ipv4_bytes, serialize_ipv4_header, checked_header,
  payload_length, parse_datagram, serialize_datagram, before_payload, fill_checksum,
}
use tcp_impliment.Ipv4.RoundTrip.{
  IsIpv4, verifies, zeroed, checked, sum_of, cksum-IsIpv4, cksum-verifies, parse_ipv4_header_lem,
  is_eq, not_below,
}

serialize_lem : (h : Ipv4Header) → IsIpv4 h → serialize_ipv4_header h ≡ some (ipv4_bytes h)
unfolding serialize_ipv4_header
serialize_lem h v = rw (is_eq h.ver 4 v.ver, not_below (4 * h.hlen) 20 (omega (arith, v.hlen))) refl

checked-IsIpv4 : (h : Ipv4Header) → IsIpv4 h → IsIpv4 (checked h)
checked-IsIpv4 h v =
    let sum = sum_of (zeroed h) in
    cksum-IsIpv4 h (Checksum.value sum) v (omega (arith, value-le sum))

checked_header_lem : (h : Ipv4Header) → IsIpv4 h → checked_header h ≡ some (ipv4_bytes (checked h))
checked_header_lem h v =
    ap (λ o. fill_checksum o h) (serialize_lem (zeroed h) (cksum-IsIpv4 h 0 v (omega arith)))
    ∙ serialize_lem (checked h) (checked-IsIpv4 h v)

-- What the result is with a good and with a bad checksum.
abbrev result_of : Bool → ParseResult
result_of b = if b then ParseResult.no_error else ParseResult.bad_checksum

-- A well-formed header is written with a checksum that verifies, and read back in a packet of its
-- length it is what was written, without an error, whatever the header object held before.
pub parse-serialize_ipv4_header :
    (old h : Ipv4Header) (rest : List ℕ)
    → IsIpv4 h
    → 4 * h.hlen + length rest ≡ h.len
    → (checked_header h ≡ some (ipv4_bytes (checked h)))
      × (parse_ipv4_header old (Parser.new (ipv4_bytes (checked h) ++ rest))
          ≡ (ParseResult.no_error, checked h, Parser.new rest))
parse-serialize_ipv4_header old h rest v fits = (
  checked_header_lem h v,
  parse_ipv4_header_lem (checked h) rest (checked-IsIpv4 h v) fits old
      ∙ ap (λ b. (result_of b, checked h, Parser.new rest))
          (cksum-verifies h (Checksum.value (sum_of (zeroed h))) v refl),
)

-- What `parse_datagram` makes of its header.
abbrev datagram_of : ParseResult × Ipv4Header × NetParser → ParseResult × Ipv4Datagram
datagram_of (result, header, p) = (
  if not (length p.buffer == payload_length header) then ParseResult.packet_too_short else p.error,
  record { header = header; payload = p.buffer ∷ [] },
)

parse_datagram-datagram_of :
    (old : Ipv4Datagram) (buffer : List ℕ)
    → parse_datagram old buffer ≡ datagram_of (parse_ipv4_header old.header (Parser.new buffer))
unfolding parse_datagram
parse_datagram-datagram_of old buffer = refl

length-payload : (h : Ipv4Header) (n : ℕ) → IsIpv4 h → 4 * h.hlen + n ≡ h.len → n ≡ payload_length h
length-payload h n v fits = omega (arith, v.len, v.hlen)

module _ (old : Ipv4Datagram) (h : Ipv4Header) (bytes : List ℕ) (v : IsIpv4 h)
    (fits : 4 * h.hlen + length bytes ≡ h.len) where
  -- Whatever its checksum.
  parse_datagram_lem :
      parse_datagram old (ipv4_bytes h ++ bytes)
      ≡ (ParseResult.no_error, record { header = h; payload = bytes ∷ [] })
  parse_datagram_lem =
      parse_datagram-datagram_of old (ipv4_bytes h ++ bytes)
      ∙ ap datagram_of (parse_ipv4_header_lem h bytes v fits old.header)
      ∙ ap (λ r. (r, record { header = h; payload = bytes ∷ [] }))
          (if_false _ _
            (is_eq (length bytes) (payload_length h) (length-payload h (length bytes) v fits)))

  -- A datagram whose header has a checksum that does not verify is taken without an error, like any
  -- other of the right length, although the header's own result is a bad checksum.
  pub parse_datagram_bad_checksum :
      verifies (ipv4_bytes h) ≡ false
      → ((parse_ipv4_header old.header (Parser.new (ipv4_bytes h ++ bytes))).0
          ≡ ParseResult.bad_checksum)
        × (parse_datagram old (ipv4_bytes h ++ bytes)
            ≡ (ParseResult.no_error, record { header = h; payload = bytes ∷ [] }))
  parse_datagram_bad_checksum bad = (
    ap (λ (t : ParseResult × Ipv4Header × NetParser). t.0)
          (parse_ipv4_header_lem h bytes v fits old.header)
        ∙ ap result_of bad,
    parse_datagram_lem,
  )

-- A datagram with a well-formed header whose length field is that of header and payload is written
-- with the header's checksum filled in, and read back from one buffer it has that header and the
-- bytes of its payload, without an error.
pub parse-serialize_datagram :
    (old d : Ipv4Datagram)
    → IsIpv4 d.header
    → 4 * d.header.hlen + length (joined d.payload) ≡ d.header.len
    → let bytes = ipv4_bytes (checked d.header) in
      (serialize_datagram d ≡ some (bytes ∷ d.payload))
      × (parse_datagram old (joined (bytes ∷ d.payload)) ≡ (
        ParseResult.no_error,
        record { header = checked d.header; payload = joined d.payload ∷ [] },
      ))
unfolding serialize_datagram
parse-serialize_datagram old d v fits = (
  if_false _ _ (
        is_eq (length (joined d.payload)) (payload_length d.header)
          (length-payload d.header (length (joined d.payload)) v fits))
      ∙ ap (λ o. before_payload o d.payload) (checked_header_lem d.header v),
  parse_datagram_lem old (checked d.header) (joined d.payload) (checked-IsIpv4 d.header v) fits,
)
