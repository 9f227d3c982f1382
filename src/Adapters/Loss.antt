-- ===== src/Adapters/Loss.antt =====
-- Segments that are lost on purpose.
use tcp_impliment.Common.{
  arith, ℕ, ◌≡◌, refl, ap, ◌∙◌, Bool, true, false, not, ◌&&◌, Option, none, some, List,
  if◌then◌else◌, if_true, if_false,
}
use tcp_impliment.Parser.{ParseResult}
use tcp_impliment.Segment.{TcpSegment, default_segment}
use tcp_impliment.Segment.Wire.{parse_segment}
use tcp_impliment.TcpOverIp.{Address, TcpOverIpv4Adapter}
use tcp_impliment.Adapters.{is_address, accept_from, udp_parsed, udp_read, should_drop, lossy_read}

-- Reading from UDP as the lossy adapter does.
abbrev pub udp_input :
    TcpOverIpv4Adapter → Address × List ℕ → Option (TcpOverIpv4Adapter × Option TcpSegment)
udp_input a (source_address, payload) = some (udp_read a source_address payload)

abbrev pub lossy_udp_read :
    TcpOverIpv4Adapter → Address × List ℕ → ℕ → Option (TcpOverIpv4Adapter × Option TcpSegment)
lossy_udp_read = lossy_read (λ (a : TcpOverIpv4Adapter). a.cfg) udp_input

is_address_self : (x : Address) → is_address x x ≡ true
is_address_self x = ground arith

-- An adapter reads `seg`, a SYN without RST, from `source`.
module _ (a : TcpOverIpv4Adapter) (source : Address) (payload : List ℕ) (seg : TcpSegment)
    (parsed : parse_segment default_segment payload 0 ≡ (ParseResult.no_error, seg))
    (opens : (seg.header.syn && not seg.header.rst) ≡ true) where
  udp_read_listening :
      a.listening ≡ true → udp_read a source payload ≡ (accept_from a source, some seg)
  unfolding udp_read
  udp_read_listening l =
      if_false _ _ (heard (is_address source a.cfg.destination) l)
      ∙ ap (udp_parsed a source) parsed
      ∙ if_true _ _ l
      ∙ if_true _ _ opens
    where
      heard : (x : Bool) → a.listening ≡ true → (not a.listening && not x) ≡ false
      heard x e = rw e refl

  udp_read_accepted :
      udp_read (accept_from a source) source payload ≡ (accept_from a source, some seg)
  unfolding udp_read
  udp_read_accepted =
      if_false _ _ (ap not (is_address_self source))
      ∙ ap (udp_parsed (accept_from a source) source) parsed

  -- A listening adapter over UDP that drops the SYN which it reads has all the same stopped
  -- listening, with the SYN's source for its peer; when the same SYN comes again and is not
  -- dropped, it is handed up.
  pub lossy_read_again :
      (lost kept : ℕ)
      → a.listening ≡ true
      → should_drop a.cfg lost false ≡ true
      → should_drop a.cfg kept false ≡ false
      → (lossy_udp_read a (source, payload) lost ≡ some (accept_from a source, none))
        × (lossy_udp_read (accept_from a source) (source, payload) kept
            ≡ some (accept_from a source, some seg))
  unfolding lossy_read
  lossy_read_again lost kept l drop keep = (
    ap (after lost) (udp_read_listening l) ∙ ap some (if_true _ _ drop),
    ap (after kept) udp_read_accepted ∙ ap some (if_false _ _ keep),
  )
    where
      after :
          ℕ
          → TcpOverIpv4Adapter × Option TcpSegment
          → Option (TcpOverIpv4Adapter × Option TcpSegment)
      after draw r = some (if should_drop r.0.cfg draw false then (r.0, none) else r)
