-- ===== src/Ethernet/Frames.antt =====
-- A frame is read back as it was written.
use tcp_impliment.Common.{
  [], ◌∷◌, ℕ, ◌<◌, ◌^◌, ◌≡◌, refl, ap, ◌∙◌, arith, List, ◌++◌, length, ltb, lt→ltb, false, if_false,
}
use tcp_impliment.Buffer.{joined}
use tcp_impliment.Parser
use tcp_impliment.Parser.{ParseResult, NetParser, unparse_int}
use tcp_impliment.Parser.RoundTrip.{u8-unparse, u16-unparse}
use tcp_impliment.Ethernet.{
  EthernetAddress, EthernetHeader, EthernetFrame, parse_address, unparse_address, parse_header,
  serialize_header, parse_frame, serialize_frame, header_length,
}

-- Six bytes.
pub record IsBytes (a : EthernetAddress) : Type 0 where
  pub h0 : a.byte0 < 2 ^ 8
  pub h1 : a.byte1 < 2 ^ 8
  pub h2 : a.byte2 < 2 ^ 8
  pub h3 : a.byte3 < 2 ^ 8
  pub h4 : a.byte4 < 2 ^ 8
  pub h5 : a.byte5 < 2 ^ 8

pub address-unparse :
    (a : EthernetAddress) (rest : List ℕ)
    → IsBytes a
    → parse_address (Parser.new (unparse_address a ++ rest)) ≡ (a, Parser.new rest)
unfolding parse_address
address-unparse a rest h =
    rw
      (
        u8-unparse a.byte0 _ h.h0,
        u8-unparse a.byte1 _ h.h1,
        u8-unparse a.byte2 _ h.h2,
        u8-unparse a.byte3 _ h.h3,
        u8-unparse a.byte4 _ h.h4,
        u8-unparse a.byte5 rest h.h5,
      )
      refl

pub record IsHeader (h : EthernetHeader) : Type 0 where
  pub dst : IsBytes h.dst
  pub src : IsBytes h.src
  pub type : h.type < 2 ^ 16

long_enough :
    (h : EthernetHeader) (payload : List ℕ)
    → ltb (length (serialize_header h ++ payload)) header_length ≡ false
unfolding serialize_header
long_enough h payload = ground arith

pub header-unparse :
    (old h : EthernetHeader) (rest : List ℕ)
    → IsHeader h
    → parse_header old (Parser.new (serialize_header h ++ rest))
      ≡ (ParseResult.no_error, h, Parser.new rest)
unfolding parse_header serialize_header
header-unparse old h rest v =
    if_false _ _ (long_enough h rest)
    ∙ rw
        (
          address-unparse h.dst ((unparse_address h.src ++ unparse_int 2 h.type) ++ rest) v.dst,
          address-unparse h.src (unparse_int 2 h.type ++ rest) v.src,
          u16-unparse h.type rest v.type,
        )
        refl

-- What `parse_frame` makes of its header.
abbrev frame_of : ParseResult × EthernetHeader × NetParser → ParseResult × EthernetFrame
frame_of (result, header, p) = (p.error, record { header = header; payload = p.buffer ∷ [] })

-- A frame with a well-formed header that is written out and read back from one buffer has the
-- header and the bytes that it had, now in one buffer, whatever the frame object held before, and
-- there is no error.
pub parse-serialize_frame :
    (old f : EthernetFrame)
    → IsHeader f.header
    → parse_frame old (joined (serialize_frame f))
      ≡ (ParseResult.no_error, record { header = f.header; payload = joined f.payload ∷ [] })
unfolding parse_frame serialize_frame
parse-serialize_frame old f h =
    ap frame_of (header-unparse old.header f.header (joined f.payload) h)

-- A buffer too short for a header is taken without an error: the frame's header is what it was,
-- and the whole buffer is the payload, although the header's own result says that it is too short.
pub parse_frame_short :
    (old : EthernetFrame) (buffer : List ℕ)
    → length buffer < header_length
    → (parse_frame old buffer
        ≡ (ParseResult.no_error, record { header = old.header; payload = buffer ∷ [] }))
      × ((parse_header old.header (Parser.new buffer)).0 ≡ ParseResult.packet_too_short)
unfolding parse_frame parse_header
parse_frame_short old buffer h =
    let e = lt→ltb (length buffer) header_length h in (rw (e) refl, rw (e) refl)
