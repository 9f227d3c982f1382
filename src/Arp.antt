-- ===== src/Arp.antt =====
-- libsponge/tcp_helpers/arp_message.hh and arp_message.cc.
pub mod Messages
use tcp_impliment.Common.{
  ℕ, ◌==◌, Bool, ◌&&◌, ◌||◌, not, Option, none, some, List, [], ◌∷◌, ◌++◌, length, ltb,
  if◌then◌else◌,
}
use tcp_impliment.Parser
use tcp_impliment.Parser.{ParseResult, NetParser, unparse_int}
use tcp_impliment.Ethernet.{EthernetAddress, parse_address, unparse_address, type_ipv4}

abbrev pub message_length : ℕ
message_length = 28

abbrev pub type_ethernet : ℕ
type_ethernet = 1

abbrev pub opcode_request : ℕ
opcode_request = 1

abbrev pub opcode_reply : ℕ
opcode_reply = 2

pub record ArpMessage : Type 0 where
  pub hardware_type : ℕ
  pub protocol_type : ℕ
  pub hardware_address_size : ℕ
  pub protocol_address_size : ℕ
  pub opcode : ℕ
  pub sender_ethernet_address : EthernetAddress
  pub sender_ip_address : ℕ
  pub target_ethernet_address : EthernetAddress
  pub target_ip_address : ℕ

abbrev pub no_address : EthernetAddress
no_address = record { byte0 = 0; byte1 = 0; byte2 = 0; byte3 = 0; byte4 = 0; byte5 = 0 }

-- The initial values of the fields.
abbrev pub default_message : ArpMessage
default_message = record {
  hardware_type = type_ethernet;
  protocol_type = type_ipv4;
  hardware_address_size = 6;
  protocol_address_size = 4;
  opcode = 0;
  sender_ethernet_address = no_address;
  sender_ip_address = 0;
  target_ethernet_address = no_address;
  target_ip_address = 0;
}

abbrev pub supported : ArpMessage → Bool
supported m =
    m.hardware_type == type_ethernet
    && m.protocol_type == type_ipv4
    && m.hardware_address_size == 6
    && m.protocol_address_size == 4
    && (m.opcode == opcode_request || m.opcode == opcode_reply)

-- The five numbers in front of the addresses, into the message.
unfoldable pub parse_kind : ArpMessage → NetParser → ArpMessage × NetParser
parse_kind m p =
    let (hardware, p1) = Parser.u16 p in
    let (protocol, p2) = Parser.u16 p1 in
    let (hardware_size, p3) = Parser.u8 p2 in
    let (protocol_size, p4) = Parser.u8 p3 in
    let (opcode, p5) = Parser.u16 p4 in
    (
      record m {
        hardware_type = hardware;
        protocol_type = protocol;
        hardware_address_size = hardware_size;
        protocol_address_size = protocol_size;
        opcode = opcode;
      },
      p5,
    )

-- The addresses of sender and target, into the message.
unfoldable pub parse_addresses : ArpMessage → NetParser → ArpMessage × NetParser
parse_addresses m p =
    let (sender, p1) = parse_address p in
    let (sender_ip, p2) = Parser.u32 p1 in
    let (target, p3) = parse_address p2 in
    let (target_ip, p4) = Parser.u32 p3 in
    (
      record m {
        sender_ethernet_address = sender;
        sender_ip_address = sender_ip;
        target_ethernet_address = target;
        target_ip_address = target_ip;
      },
      p4,
    )

unfoldable pub parse : ArpMessage → List ℕ → ParseResult × ArpMessage
parse m buffer =
    if ltb (length buffer) message_length
    then (ParseResult.packet_too_short, m)
    else (let (m1, p1) = parse_kind m (Parser.new buffer) in
        let (m2, p2) = parse_addresses m1 p1 in
        if not (supported m1) then (ParseResult.unsupported, m1) else (p2.error, m2))

abbrev pub bytes_of : ArpMessage → List ℕ
bytes_of m =
    unparse_int 2 m.hardware_type
    ++ unparse_int 2 m.protocol_type
    ++ unparse_int 1 m.hardware_address_size
    ++ unparse_int 1 m.protocol_address_size
    ++ unparse_int 2 m.opcode
    ++ unparse_address m.sender_ethernet_address
    ++ unparse_int 4 m.sender_ip_address
    ++ unparse_address m.target_ethernet_address
    ++ unparse_int 4 m.target_ip_address

-- `none` for the exception.
unfoldable pub serialize : ArpMessage → Option (List ℕ)
serialize m = if not (supported m) then none else some (bytes_of m)
