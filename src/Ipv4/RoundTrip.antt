-- ===== src/Ipv4/RoundTrip.antt =====
-- An IPv4 header is read back as it was written, with a checksum that verifies.
use tcp_impliment.Common.{
  ℕ, ◌+◌, ◌-◌, ◌*◌, ◌/◌, ◌%◌, ◌^◌, ◌≤◌, ◌<◌, ◌==◌, ◌≡◌, refl, sym, ap, ◌∙◌, arith, Bool, true,
  false, not, List, [], ◌++◌, length, take, ltb, if◌then◌else◌, replicate, if_false, take-append,
  length-replicate, length-append, append_assoc, Bool-cases, inl, inr, ==_iff, append-nil,
}
use tcp_impliment.Parser
use tcp_impliment.Parser.{ParseResult, NetParser, unparse_int, failed}
use tcp_impliment.Parser.RoundTrip.{u8-unparse, u16-unparse, u32-unparse, remove_prefix-append}
use tcp_impliment.Checksum
use tcp_impliment.Checksum.Sums.{words, sum-add, words_pad, value-completes, value-le}
use tcp_impliment.Ipv4.{
  Ipv4Header, ipv4_length, parse_ipv4_fields, check_ipv4, parse_ipv4_header, first_byte, fo_val,
  ipv4_fields, ipv4_bytes, with_checksum,
}

-- Every field fits, and so does the header's own length.
pub record IsIpv4 (h : Ipv4Header) : Type 0 where
  pub ver : h.ver ≡ 4
  pub hlen : (5 ≤ h.hlen) × (h.hlen < 16)
  pub tos : h.tos < 2 ^ 8
  pub len : h.len < 2 ^ 16
  pub id : h.id < 2 ^ 16
  pub offset : h.offset < 2 ^ 13
  pub ttl : h.ttl < 2 ^ 8
  pub proto : h.proto < 2 ^ 8
  pub cksum : h.cksum < 2 ^ 16
  pub src : h.src < 2 ^ 32
  pub dst : h.dst < 2 ^ 32

bits_back :
    (h : Ipv4Header)
    → IsIpv4 h
    → (first_byte h < 2 ^ 8)
      × (first_byte h / 16 ≡ h.ver)
      × (first_byte h % 16 ≡ h.hlen)
      × (fo_val h < 2 ^ 16)
      × ((fo_val h / 16384 % 2 == 1) ≡ h.df)
      × ((fo_val h / 8192 % 2 == 1) ≡ h.mf)
      × (fo_val h % 8192 ≡ h.offset)
bits_back h v = (
  omega (arith, v.ver, v.hlen),
  omega (arith, v.ver, v.hlen),
  omega (arith, v.hlen),
  ground arith,
  ground arith,
  ground arith,
  ground (arith, v.offset),
)

parse_ipv4_fields-ipv4_fields :
    (h : Ipv4Header) (rest : List ℕ)
    → IsIpv4 h
    → parse_ipv4_fields (Parser.new (ipv4_fields h ++ rest)) ≡ (h, Parser.new rest)
unfolding parse_ipv4_fields
parse_ipv4_fields-ipv4_fields h rest v =
    let t3 = unparse_int 2 h.cksum ++ unparse_int 4 h.src ++ unparse_int 4 h.dst in
    let t2 = unparse_int 1 h.ttl ++ unparse_int 1 h.proto ++ t3 in
    let t1 = unparse_int 2 h.id ++ unparse_int 2 (fo_val h) ++ t2 in
    let f = bits_back h v in
    rw
      (
        u8-unparse (first_byte h) ((unparse_int 1 h.tos ++ unparse_int 2 h.len ++ t1) ++ rest) f.0,
        u8-unparse h.tos ((unparse_int 2 h.len ++ t1) ++ rest) v.tos,
        u16-unparse h.len (t1 ++ rest) v.len,
        u16-unparse h.id ((unparse_int 2 (fo_val h) ++ t2) ++ rest) v.id,
        u16-unparse (fo_val h) (t2 ++ rest) f.3,
        u8-unparse h.ttl ((unparse_int 1 h.proto ++ t3) ++ rest) v.ttl,
        u8-unparse h.proto (t3 ++ rest) v.proto,
        u16-unparse h.cksum ((unparse_int 4 h.src ++ unparse_int 4 h.dst) ++ rest) v.cksum,
        u32-unparse h.src (unparse_int 4 h.dst ++ rest) v.src,
        u32-unparse h.dst rest v.dst,
        f.1,
        f.2,
        f.4,
        f.5,
        f.6,
      )
      refl

abbrev padding : Ipv4Header → List ℕ
padding h = replicate (4 * h.hlen - ipv4_length) 0

pub length-ipv4_bytes : (h : Ipv4Header) → IsIpv4 h → length (ipv4_bytes h) ≡ 4 * h.hlen
length-ipv4_bytes h v = omega (
  arith,
  v.hlen,
  length-append (ipv4_fields h) (padding h),
  length-replicate {A = ℕ} (4 * h.hlen - ipv4_length) 0,
)

-- Whether the bytes of a header sum up as they should.
abbrev pub verifies : List ℕ → Bool
verifies bytes = Checksum.value (Checksum.add (Checksum.new 0) bytes) == 0

pub is_eq : (a b : ℕ) → a ≡ b → not (a == b) ≡ false
is_eq a b e = ground arith

pub not_below : (a b : ℕ) → b ≤ a → ltb a b ≡ false
not_below a b h = ground arith

-- The tests behind the fields, on a header of the right shape: only the checksum decides.
module _ (bytes rest : List ℕ) (h : Ipv4Header) (long : length bytes ≡ 4 * h.hlen) where
  take-packet : take (4 * h.hlen) (bytes ++ rest) ≡ bytes
  take-packet = ap (λ k. take k (bytes ++ rest)) (sym long) ∙ take-append bytes rest

  not_short : ltb (length (bytes ++ rest)) (4 * h.hlen) ≡ false
  not_short = ground (arith, length-append bytes rest)

  outcome :
      (p' : NetParser)
      → p'.error ≡ ParseResult.no_error
      → let check = Checksum.add (Checksum.new 0) bytes in
        ◌≡◌ {A = ParseResult × NetParser}
          (if failed p'.error
            then (p'.error, p')
            else if not (Checksum.value check == 0)
            then (ParseResult.bad_checksum, p')
            else (ParseResult.no_error, p'))
          (if verifies bytes then ParseResult.no_error else ParseResult.bad_checksum, p')
  outcome p' e = elim (Bool-cases (verifies bytes)) [
    | inl t ↦ rw (e, t) refl
    | inr f ↦ rw (e, f) refl
  ]

  check_ipv4_lem :
      (p : NetParser)
      → h.ver ≡ 4
      → 5 ≤ h.hlen
      → length (bytes ++ rest) ≡ h.len
      → Parser.remove_prefix (h.hlen * 4 - ipv4_length) p ≡ Parser.new rest
      → check_ipv4 (bytes ++ rest) h p ≡ (
        if verifies bytes then ParseResult.no_error else ParseResult.bad_checksum,
        Parser.new rest,
      )
  unfolding check_ipv4
  check_ipv4_lem p four five fits skip =
      if_false _ _ not_short
      ∙ if_false _ _ (is_eq h.ver 4 four)
      ∙ if_false _ _ (not_below h.hlen 5 five)
      ∙ if_false _ _ (is_eq (length (bytes ++ rest)) h.len fits)
      ∙ rw (take-packet, skip) (outcome (Parser.new rest) refl)

module _ (h : Ipv4Header) (rest : List ℕ) (v : IsIpv4 h)
    (fits : 4 * h.hlen + length rest ≡ h.len) where
  skip_padding :
      Parser.remove_prefix (h.hlen * 4 - ipv4_length) (Parser.new (padding h ++ rest))
      ≡ Parser.new rest
  skip_padding =
      ap (λ k. Parser.remove_prefix k (Parser.new (padding h ++ rest)))
        (omega (arith, length-replicate {A = ℕ} (4 * h.hlen - ipv4_length) 0))
      ∙ remove_prefix-append (padding h) rest

  length-packet : length (ipv4_bytes h ++ rest) ≡ h.len
  length-packet = omega (arith, length-append (ipv4_bytes h) rest, length-ipv4_bytes h v)

  -- A well-formed header in a packet of its length is read whole, and the result says whether its
  -- checksum verifies.
  pub parse_ipv4_header_lem :
      (old : Ipv4Header)
      → parse_ipv4_header old (Parser.new (ipv4_bytes h ++ rest)) ≡ (
        if verifies (ipv4_bytes h) then ParseResult.no_error else ParseResult.bad_checksum,
        h,
        Parser.new rest,
      )
  unfolding parse_ipv4_header
  parse_ipv4_header_lem old =
      if_false _ _
        (not_below (length (ipv4_bytes h ++ rest)) 20 (omega (arith, length-packet, v.hlen)))
      ∙ rw
          (
            append_assoc (ipv4_fields h) (padding h) rest,
            parse_ipv4_fields-ipv4_fields h (padding h ++ rest) v,
          )
          (ap (λ (t : ParseResult × NetParser). (t.0, h, t.1))
            (check_ipv4_lem (ipv4_bytes h) rest h (length-ipv4_bytes h v)
              (Parser.new (padding h ++ rest)) v.ver v.hlen.0 length-packet skip_padding))

abbrev pub zeroed : Ipv4Header → Ipv4Header
zeroed h = record h { cksum = 0 }

words-padding : (h : Ipv4Header) → IsIpv4 h → words false (padding h) ≡ 0
words-padding h v =
    ap (words false) (sym (append-nil (padding h)))
    ∙ words_pad (2 * h.hlen - 10) (4 * h.hlen - ipv4_length) [] (omega (arith, v.hlen))

-- The checksum field adds itself to the sum, which stays small.
words-cksum :
    (h : Ipv4Header)
    → IsIpv4 h
    → (words false (ipv4_bytes h) ≡ words false (ipv4_bytes (zeroed h)) + h.cksum)
      × (words false (ipv4_bytes h) < 2 ^ 20)
words-cksum h v = (omega (arith, v.cksum), omega (arith, words-padding h v))

-- The header with the checksum that `serialize` of the datagram puts in.
abbrev pub checked : Ipv4Header → Ipv4Header
checked h = with_checksum h (ipv4_bytes (zeroed h))

abbrev pub sum_of : Ipv4Header → Checksum.InternetChecksum
sum_of h = Checksum.add (Checksum.new 0) (ipv4_bytes h)

sum-ipv4_bytes : (h : Ipv4Header) → IsIpv4 h → (sum_of h).sum ≡ words false (ipv4_bytes h)
sum-ipv4_bytes h v =
    sum-add (Checksum.new 0) (ipv4_bytes h) (omega (arith, words-cksum h v)) ∙ omega arith

pub cksum-IsIpv4 :
    (h : Ipv4Header) (k : ℕ) → IsIpv4 h → k < 2 ^ 16 → IsIpv4 (record h { cksum = k })
cksum-IsIpv4 h k v lt = record {
  ver = v.ver;
  hlen = v.hlen;
  tos = v.tos;
  len = v.len;
  id = v.id;
  offset = v.offset;
  ttl = v.ttl;
  proto = v.proto;
  cksum = lt;
  src = v.src;
  dst = v.dst;
}

pub cksum-verifies :
    (h : Ipv4Header) (k : ℕ)
    → IsIpv4 h
    → k ≡ Checksum.value (sum_of (zeroed h))
    → verifies (ipv4_bytes (record h { cksum = k })) ≡ true
cksum-verifies h k v e =
    let zero_valid = cksum-IsIpv4 h 0 v (omega arith) in
    let before = sum_of (zeroed h) in
    let valid = cksum-IsIpv4 h k v (omega (arith, e, value-le before)) in
    let after = sum_of (record h { cksum = k }) in
    let w = words-cksum (record h { cksum = k }) valid in
    let s0 = sum-ipv4_bytes (zeroed h) zero_valid in
    let s1 = sum-ipv4_bytes (record h { cksum = k }) valid in
    (==_iff (Checksum.value after) 0).1
      (value-completes before after (s1 ∙ w.0 ∙ omega (arith, e, s0)) (omega (arith, s0, w)))
