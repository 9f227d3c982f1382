-- ===== src/Segment/Segments.antt =====
-- A whole segment is read back as it was written, and its checksum verifies.
use tcp_impliment.Common.{
  if_true, ◌≢◌, append-nil, [], ◌==◌, if_false, not, some, ℕ, ◌+◌, ◌-◌, ◌*◌, ◌<◌, ◌^◌, ◌≡◌, sym, ap,
  ◌∙◌, arith, List, ◌∷◌, ◌++◌, length, All, true, false,
}
use tcp_impliment.Buffer.{joined}
use tcp_impliment.Parser.{ParseResult, NetParser}
use tcp_impliment.Checksum
use tcp_impliment.Checksum.Sums.{
  words, sum-add, words_pad, words-le, add-append, value-completes, value-le,
}
use tcp_impliment.Segment.{TcpHeader, TcpSegment}
use tcp_impliment.Segment.Wire.{
  tcp_length, header_bytes, parse_segment, segment_cksum, fill_segment, header_and_payload,
  serialize_segment,
}
use tcp_impliment.Segment.RoundTrip.{IsHeader, parse-serialize_tcp_header}

-- A segment that a datagram can carry.
pub record IsSegment (seg : TcpSegment) : Type 0 where
  pub header : IsHeader seg.header
  pub bytes : All (λ b. b < 256) seg.payload
  pub small : length seg.payload < 2 ^ 16

abbrev pub with_cksum : TcpHeader → ℕ → TcpHeader
with_cksum h k = record h { cksum = k }

cksum-IsHeader : (h : TcpHeader) (k : ℕ) → IsHeader h → k < 2 ^ 16 → IsHeader (with_cksum h k)
cksum-IsHeader h k v lt = record {
  sport = v.sport;
  dport = v.dport;
  seqno = v.seqno;
  ackno = v.ackno;
  doff = v.doff;
  win = v.win;
  cksum = lt;
  uptr = v.uptr;
}

-- The checksum field adds itself to the sum, which fits into 32 bits.
words-cksum :
    (h : TcpHeader) (payload : List ℕ)
    → IsHeader h
    → (words false (header_bytes h ++ payload)
        ≡ words false (header_bytes (with_cksum h 0) ++ payload) + h.cksum)
      × (words false (header_bytes h ++ payload) < 2 ^ 20 + words false payload)
words-cksum h payload v =
    let pad =
      words_pad (2 * h.doff - 10) (4 * h.doff - tcp_length) payload (omega (arith, v.doff)) in
    (omega (arith, v.cksum), omega (arith, pad))

abbrev sum_of : TcpHeader → List ℕ → ℕ → Checksum.InternetChecksum
sum_of h payload initial = Checksum.add (Checksum.new initial) (header_bytes h ++ payload)

sum-header_bytes :
    (h : TcpHeader) (payload : List ℕ) (initial : ℕ)
    → IsHeader h
    → All (λ b. b < 256) payload
    → length payload < 2 ^ 16
    → initial < 2 ^ 20
    → ((sum_of h payload initial).sum ≡ initial + words false (header_bytes h ++ payload))
      × (initial + words false (header_bytes h ++ payload) + 65535 < 2 ^ 32)
sum-header_bytes h payload initial v b small lt =
    let w = words-cksum h payload v in
    let p = words-le false payload b in
    (
      sum-add (Checksum.new initial) (header_bytes h ++ payload) (omega (arith, w, p)),
      omega (arith, w, p),
    )

is_zero : (n : ℕ) → n ≡ 0 → not (n == 0) ≡ false
is_zero n e = ground arith

not_zero : (n : ℕ) → n ≢ 0 → not (n == 0) ≡ true
not_zero n e = ground arith

-- What `parse_segment` makes of its header.
abbrev segment_of : ParseResult × TcpHeader × NetParser → ParseResult × TcpSegment
segment_of (result, header, p) = (p.error, record { header = header; payload = p.buffer })

-- The header with the checksum that `serialize` puts in.
abbrev pub checked : TcpSegment → ℕ → TcpHeader
checked seg initial =
    with_cksum seg.header
      (segment_cksum initial (header_bytes (with_cksum seg.header 0)) seg.payload)

module _ (seg : TcpSegment) (initial : ℕ) (v : IsSegment seg) (lt : initial < 2 ^ 20) where
  segment_cksum_lem :
      segment_cksum initial (header_bytes (with_cksum seg.header 0)) seg.payload
      ≡ Checksum.value (sum_of (with_cksum seg.header 0) seg.payload initial)
  segment_cksum_lem =
      ap Checksum.value (
        sym
          (add-append (Checksum.new initial) (header_bytes (with_cksum seg.header 0)) seg.payload))

  zeroed-IsHeader : IsHeader (with_cksum seg.header 0)
  zeroed-IsHeader = cksum-IsHeader seg.header 0 v.header (omega arith)

  cksum-verifies :
      (k : ℕ)
      → k ≡ Checksum.value (sum_of (with_cksum seg.header 0) seg.payload initial)
      → IsHeader (with_cksum seg.header k)
        × (Checksum.value (sum_of (with_cksum seg.header k) seg.payload initial) ≡ 0)
  cksum-verifies k e =
      let before = sum_of (with_cksum seg.header 0) seg.payload initial in
      let valid = cksum-IsHeader seg.header k v.header (omega (arith, e, value-le before)) in
      let s0 =
        sum-header_bytes (with_cksum seg.header 0) seg.payload initial zeroed-IsHeader v.bytes
          v.small lt in
      let s1 =
        sum-header_bytes (with_cksum seg.header k) seg.payload initial valid v.bytes v.small lt in
      let w = words-cksum (with_cksum seg.header k) seg.payload valid in
      (
        valid,
        value-completes before (sum_of (with_cksum seg.header k) seg.payload initial)
            (omega (arith, s0, s1, w, e)) (omega (arith, s0)),
      )

  serialize_lem :
      serialize_segment seg initial ≡ some (header_bytes (checked seg initial) ∷ seg.payload ∷ [])
  unfolding serialize_segment
  serialize_lem =
      let c =
        cksum-verifies (segment_cksum initial (header_bytes (with_cksum seg.header 0)) seg.payload)
          segment_cksum_lem in
      ap (λ o. header_and_payload (fill_segment o seg initial) seg.payload)
        (parse-serialize_tcp_header (with_cksum seg.header 0) [] zeroed-IsHeader).0
      ∙ ap (λ o. header_and_payload o seg.payload)
          (parse-serialize_tcp_header (checked seg initial) [] c.0).0

  parse_lem :
      (old : TcpSegment)
      → parse_segment old (header_bytes (checked seg initial) ++ seg.payload) initial
        ≡ (ParseResult.no_error, record { header = checked seg initial; payload = seg.payload })
  unfolding parse_segment
  parse_lem old =
      let c =
        cksum-verifies (segment_cksum initial (header_bytes (with_cksum seg.header 0)) seg.payload)
          segment_cksum_lem in
      if_false _ _ (is_zero (Checksum.value (sum_of (checked seg initial) seg.payload initial)) c.1)
      ∙ ap segment_of (parse-serialize_tcp_header (checked seg initial) seg.payload c.0).2

-- A segment that a datagram can carry is written with its checksum, over the sum `initial` of a
-- pseudo-header, and read back from one buffer with the same sum it has that header and its
-- payload, without an error, whatever the segment object held before.
pub parse-serialize_segment :
    (old seg : TcpSegment) (initial : ℕ)
    → IsSegment seg
    → initial < 2 ^ 20
    → let header = checked seg initial in
      (serialize_segment seg initial ≡ some (header_bytes header ∷ seg.payload ∷ []))
      × (parse_segment old (joined (header_bytes header ∷ seg.payload ∷ [])) initial
          ≡ (ParseResult.no_error, record { header = header; payload = seg.payload }))
parse-serialize_segment old seg initial v lt = (
  serialize_lem seg initial v lt,
  ap (λ l. parse_segment old (header_bytes (checked seg initial) ++ l) initial)
        (append-nil seg.payload)
      ∙ parse_lem seg initial v lt old,
)

-- A buffer whose sum does not verify is a bad checksum, and leaves the segment as it was.
pub parse_segment_bad :
    (old : TcpSegment) (buffer : List ℕ) (initial : ℕ)
    → Checksum.value (Checksum.add (Checksum.new initial) buffer) ≢ 0
    → parse_segment old buffer initial ≡ (ParseResult.bad_checksum, old)
unfolding parse_segment
parse_segment_bad old buffer initial bad =
    if_true _ _ (not_zero (Checksum.value (Checksum.add (Checksum.new initial) buffer)) bad)
