-- ===== src/Tests/Devices.antt =====
-- Adapters at concrete inputs: a TUN device, a TAP device, and UDP with loss.
use tcp_impliment.Common.{◌≡◌, refl, arith, none, some, List, ℕ, [], ◌∷◌}
use tcp_impliment.Buffer.{joined}
use tcp_impliment.Segment.{TcpSegment, default_segment}
use tcp_impliment.Segment.Wire.{header_bytes}
use tcp_impliment.Segment.Segments
use tcp_impliment.Segment.Segments.{parse-serialize_segment}
use tcp_impliment.TcpOverIp.{Address, TcpOverIpv4Adapter}
use tcp_impliment.TcpOverIp.Crossing.{crossed}
use tcp_impliment.Adapters.{EthernetAdapter, accept_from, tun_read, tun_write, tap_read, tap_write}
use tcp_impliment.Adapters.Links.{IsSendable, tun_write-tun_read, tap_write-tap_read}
use tcp_impliment.Adapters.Loss.{lossy_udp_read, lossy_read_again}
use tcp_impliment.Tests.Wire.{local_address-IsBytes}
use tcp_impliment.Tests.Packets.{greeting, client, server, listener, syn}
use tcp_impliment.Tests.Networks.{left_knowing, right, left_knows, right-IsNamed}

greeting-IsSendable : IsSendable client greeting
greeting-IsSendable = record {
  segment = record { header = omega arith; bytes = omega arith; small = omega arith };
  fits = omega arith;
  source = omega arith;
  destination = omega arith;
}

tun_write-tun_read_example :
    (bytes : List (List ℕ)) × (tun_write client greeting ≡ some bytes)
    × (tun_read server (joined bytes) ≡ some (server, some (crossed client greeting)))
tun_write-tun_read_example =
    tun_write-tun_read client server greeting (record { there = refl; back = refl }) refl
      greeting-IsSendable

abbrev left_end : EthernetAdapter
left_end = record { base = client; interface = left_knowing; next_hop = 167772162 }

abbrev right_end : EthernetAdapter
right_end = record { base = server; interface = right; next_hop = 167772161 }

tap_write-tap_read_example :
    (frame : List (List ℕ)) × (tap_write left_end greeting ≡ some (left_end, frame ∷ []))
    × (tap_read right_end (joined frame) ≡ some (right_end, [], some (crossed client greeting)))
tap_write-tap_read_example =
    tap_write-tap_read left_end right_end greeting (record { there = refl; back = refl }) refl
      greeting-IsSendable (record { ethernet = local_address-IsBytes; ip = omega arith })
      right-IsNamed refl refl left_knows

abbrev lossy_listener : TcpOverIpv4Adapter
lossy_listener = record listener { cfg = record (listener.cfg) { loss_rate_dn = 100 } }

abbrev syn_source : Address
syn_source = record { ipv4_numeric = 167772165; port = 4000 }

abbrev syn_read : TcpSegment
syn_read = record { header = Segments.checked syn 0; payload = [] }

lossy_read_again_run :
    (lossy_udp_read lossy_listener (syn_source, header_bytes syn_read.header) 65599
      ≡ some (accept_from lossy_listener syn_source, none))
    × (lossy_udp_read
          (accept_from lossy_listener syn_source)
          (syn_source, header_bytes syn_read.header)
          100
        ≡ some (accept_from lossy_listener syn_source, some syn_read))
lossy_read_again_run =
    lossy_read_again lossy_listener syn_source (header_bytes syn_read.header) syn_read
      (parse-serialize_segment default_segment syn 0
        (record { header = omega arith; bytes = tt; small = omega arith }) (omega arith)).1
      refl 65599 100 refl refl refl
