-- ===== src/Adapters.antt =====
-- libsponge/tcp_helpers/fd_adapter.cc, lossy_fd_adapter.hh, tuntap_adapter.hh and
-- tuntap_adapter.cc: TCP segments over UDP, a TUN and a TAP device, with random loss. What a socket
-- or a device is read for is an argument, and what is written to it a result. A call returns `none`
-- where the code throws or its behaviour is undefined.
pub mod Links
pub mod Loss
use tcp_impliment.Common.{
  ℕ, ◌==◌, Bool, true, false, not, ◌&&◌, Option, none, some, List, [], ◌∷◌, map, ltb, if◌then◌else◌,
  ◌>>=◌, ◌%◌,
}
use tcp_impliment.Common.Words.{u16_mod}
use tcp_impliment.Parser.{ParseResult, failed}
use tcp_impliment.Segment.{TcpSegment, default_segment}
use tcp_impliment.Segment.Wire.{parse_segment, serialize_segment}
use tcp_impliment.Ethernet.{EthernetAddress, EthernetFrame, parse_frame, serialize_frame}
use tcp_impliment.Arp.{no_address}
use tcp_impliment.Ipv4.{Ipv4Datagram, parse_datagram, serialize_datagram}
use tcp_impliment.NetworkInterface
use tcp_impliment.NetworkInterface.{NetworkInterface, no_datagram}
use tcp_impliment.TcpOverIp.{
  Address, FdAdapterConfig, TcpOverIpv4Adapter, set_listening, with_ports, wrap_tcp_in_ip,
  unwrap_tcp_in_ip,
}

-- `TCPOverUDPSocketAdapter` has the state of `FdAdapterBase`, as the adapter for IPv4 has.
abbrev pub is_address : Address → Address → Bool
is_address x y = x.ipv4_numeric == y.ipv4_numeric && x.port == y.port

-- The peer of a listening adapter is the source of the first SYN.
abbrev pub accept_from : TcpOverIpv4Adapter → Address → TcpOverIpv4Adapter
accept_from a source_address =
    set_listening (record a { cfg = record (a.cfg) { destination = source_address } }) false

abbrev pub udp_parsed :
    TcpOverIpv4Adapter → Address → ParseResult × TcpSegment → TcpOverIpv4Adapter × Option TcpSegment
udp_parsed a source_address (result, seg) =
    if failed result
    then (a, none)
    else if a.listening
    then (if seg.header.syn && not seg.header.rst
        then (accept_from a source_address, some seg)
        else (a, none))
    else (a, some seg)

-- The received UDP datagram is its source and its payload.
unfoldable pub udp_read :
    TcpOverIpv4Adapter → Address → List ℕ → TcpOverIpv4Adapter × Option TcpSegment
udp_read a source_address payload =
    if not a.listening && not (is_address source_address a.cfg.destination)
    then (a, none)
    else udp_parsed a source_address (parse_segment default_segment payload 0)

-- Where the payload is sent to, and the payload.
unfoldable pub udp_write : TcpOverIpv4Adapter → TcpSegment → Option (Address × List (List ℕ))
udp_write a seg =
    serialize_segment (with_ports a seg) 0 >>= λ payload. some (a.cfg.destination, payload)

abbrev pub tun_parsed :
    TcpOverIpv4Adapter
    → ParseResult × Ipv4Datagram
    → Option (TcpOverIpv4Adapter × Option TcpSegment)
tun_parsed a (result, d) = if failed result then some (a, none) else unwrap_tcp_in_ip a d

-- `TCPOverIPv4OverTunFdAdapter`.
unfoldable pub tun_read :
    TcpOverIpv4Adapter → List ℕ → Option (TcpOverIpv4Adapter × Option TcpSegment)
tun_read a bytes = tun_parsed a (parse_datagram no_datagram bytes)

unfoldable pub tun_write : TcpOverIpv4Adapter → TcpSegment → Option (List (List ℕ))
tun_write a seg = wrap_tcp_in_ip a seg >>= λ d. serialize_datagram d

-- `TCPOverIPv4OverEthernetAdapter`.
pub record EthernetAdapter : Type 0 where
  pub base : TcpOverIpv4Adapter
  pub interface : NetworkInterface
  pub next_hop : ℕ

abbrev pub default_frame : EthernetFrame
default_frame = record {
  header = record { dst = no_address; src = no_address; type = 0 };
  payload = [];
}

-- The adapter, and the dummy frame that is written first.
abbrev pub new : TcpOverIpv4Adapter → EthernetAddress → ℕ → ℕ → EthernetAdapter × List (List ℕ)
new base eth_address ip_address next_hop = (
  record {
    base = base;
    interface = NetworkInterface.new eth_address ip_address;
    next_hop = next_hop;
  },
  serialize_frame default_frame,
)

-- The frames that are written, in order.
abbrev pub send_pending : EthernetAdapter → EthernetAdapter × List (List (List ℕ))
send_pending e = (
  record e { interface = record (e.interface) { frames_out = [] } },
  map serialize_frame e.interface.frames_out,
)

-- The datagram of a frame, if it has one, is tried as TCP.
abbrev pub hand_up :
    EthernetAdapter × List (List (List ℕ))
    → Option Ipv4Datagram
    → Option (EthernetAdapter × List (List (List ℕ)) × Option TcpSegment)
hand_up (e, written) none = some (e, written, none)
hand_up (e, written) (some d) =
    unwrap_tcp_in_ip e.base d >>= λ r. some (record e { base = r.0 }, written, r.1)

abbrev pub tap_parsed :
    EthernetAdapter
    → ParseResult × EthernetFrame
    → Option (EthernetAdapter × List (List (List ℕ)) × Option TcpSegment)
tap_parsed e (result, frame) =
    if failed result
    then some (e, [], none)
    else (NetworkInterface.recv_frame e.interface frame >>= λ r.
        hand_up (send_pending (record e { interface = r.0 })) r.1)

unfoldable pub tap_read :
    EthernetAdapter → List ℕ → Option (EthernetAdapter × List (List (List ℕ)) × Option TcpSegment)
tap_read e bytes = tap_parsed e (parse_frame default_frame bytes)

unfoldable pub tap_tick :
    Bool → EthernetAdapter → ℕ → Option (EthernetAdapter × List (List (List ℕ)))
tap_tick readable e ms = NetworkInterface.tick readable e.interface ms >>= λ i.
    some (send_pending (record e { interface = i }))

unfoldable pub tap_write :
    EthernetAdapter → TcpSegment → Option (EthernetAdapter × List (List (List ℕ)))
tap_write e seg = wrap_tcp_in_ip e.base seg >>= λ d.
    NetworkInterface.send_datagram e.interface d e.next_hop >>= λ i.
    some (send_pending (record e { interface = i }))

-- `_should_drop`, with what the random engine returns.
abbrev pub should_drop : FdAdapterConfig → ℕ → Bool → Bool
should_drop cfg draw uplink =
    let loss = if uplink then cfg.loss_rate_up else cfg.loss_rate_dn in
    not (loss == 0) && ltb (draw % u16_mod) loss

-- `LossyFdAdapter<AdapterT>`: the adapter's own reading and writing are parameters.
module _ {ℓ κ} {A : Type ℓ} (config : A → FdAdapterConfig) {B : Type κ} where
  unfoldable pub lossy_read :
      (A → B → Option (A × Option TcpSegment)) → A → B → ℕ → Option (A × Option TcpSegment)
  lossy_read read a input draw =
      read a input >>= λ r. some (if should_drop (config r.0) draw false then (r.0, none) else r)

  -- What is written, if the segment is not dropped.
  unfoldable pub lossy_write :
      (A → TcpSegment → Option (A × Option B)) → A → TcpSegment → ℕ → Option (A × Option B)
  lossy_write write a seg draw =
      if should_drop (config a) draw true then some (a, none) else write a seg
