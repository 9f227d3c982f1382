-- ===== src/Arp/Messages.antt =====
-- A message is read back as it was written.
use tcp_impliment.Common.{
  ℕ, ◌<◌, ◌^◌, ◌≡◌, refl, ap, ◌∙◌, arith, List, ◌++◌, length, ltb, true, false, not, some, if_false,
}
use tcp_impliment.Parser
use tcp_impliment.Parser.{ParseResult, NetParser, unparse_int}
use tcp_impliment.Parser.RoundTrip.{u8-unparse, u16-unparse, u32-unparse}
use tcp_impliment.Ethernet.{unparse_address}
use tcp_impliment.Ethernet.Frames.{IsBytes, address-unparse}
use tcp_impliment.Arp.{
  ArpMessage, supported, parse_kind, parse_addresses, parse, bytes_of, serialize, message_length,
}

-- The addresses fit into their fields.
pub record IsMessage (m : ArpMessage) : Type 0 where
  pub sender : IsBytes m.sender_ethernet_address
  pub sender_ip : m.sender_ip_address < 2 ^ 32
  pub target : IsBytes m.target_ethernet_address
  pub target_ip : m.target_ip_address < 2 ^ 32

abbrev addresses : ArpMessage → List ℕ
addresses m =
    unparse_address m.sender_ethernet_address
    ++ unparse_int 4 m.sender_ip_address
    ++ unparse_address m.target_ethernet_address
    ++ unparse_int 4 m.target_ip_address

abbrev kind_of : ArpMessage → ArpMessage → ArpMessage
kind_of old m = record old {
  hardware_type = m.hardware_type;
  protocol_type = m.protocol_type;
  hardware_address_size = m.hardware_address_size;
  protocol_address_size = m.protocol_address_size;
  opcode = m.opcode;
}

supported-small :
    (m : ArpMessage)
    → supported m ≡ true
    → (m.hardware_type < 2 ^ 16)
      × (m.protocol_type < 2 ^ 16)
      × (m.hardware_address_size < 2 ^ 8)
      × (m.protocol_address_size < 2 ^ 8)
      × (m.opcode < 2 ^ 16)
supported-small m s = ground arith

parse_kind-bytes_of :
    (old m : ArpMessage) (rest : List ℕ)
    → supported m ≡ true
    → parse_kind old (Parser.new (bytes_of m ++ rest))
      ≡ (kind_of old m, Parser.new (addresses m ++ rest))
unfolding parse_kind
parse_kind-bytes_of old m rest s =
    let v = supported-small m s in
    rw
      (
        u16-unparse m.hardware_type
            ((unparse_int 2 m.protocol_type
                ++ unparse_int 1 m.hardware_address_size
                ++ unparse_int 1 m.protocol_address_size
                ++ unparse_int 2 m.opcode
                ++ addresses m)
              ++ rest)
            v.0,
        u16-unparse m.protocol_type
            ((unparse_int 1 m.hardware_address_size
                ++ unparse_int 1 m.protocol_address_size
                ++ unparse_int 2 m.opcode
                ++ addresses m)
              ++ rest)
            v.1,
        u8-unparse m.hardware_address_size
            ((unparse_int 1 m.protocol_address_size ++ unparse_int 2 m.opcode ++ addresses m)
              ++ rest)
            v.2,
        u8-unparse m.protocol_address_size ((unparse_int 2 m.opcode ++ addresses m) ++ rest) v.3,
        u16-unparse m.opcode (addresses m ++ rest) v.4,
      )
      refl

parse_addresses-addresses :
    (old m : ArpMessage) (rest : List ℕ)
    → IsMessage m
    → parse_addresses (kind_of old m) (Parser.new (addresses m ++ rest)) ≡ (m, Parser.new rest)
unfolding parse_addresses
parse_addresses-addresses old m rest v =
    rw
      (
        address-unparse m.sender_ethernet_address
            ((unparse_int 4 m.sender_ip_address
                ++ unparse_address m.target_ethernet_address
                ++ unparse_int 4 m.target_ip_address)
              ++ rest)
            v.sender,
        u32-unparse m.sender_ip_address
            ((unparse_address m.target_ethernet_address ++ unparse_int 4 m.target_ip_address)
              ++ rest)
            v.sender_ip,
        address-unparse m.target_ethernet_address (unparse_int 4 m.target_ip_address ++ rest)
            v.target,
        u32-unparse m.target_ip_address rest v.target_ip,
      )
      refl

long_enough :
    (m : ArpMessage) (rest : List ℕ) → ltb (length (bytes_of m ++ rest)) message_length ≡ false
long_enough m rest = ground arith

-- A supported message with addresses that fit is written out, and read back it is what it was,
-- whatever the message object held before and whatever follows it in the buffer.
pub parse-serialize :
    (old m : ArpMessage) (rest : List ℕ)
    → IsMessage m
    → supported m ≡ true
    → (serialize m ≡ some (bytes_of m))
      × (parse old (bytes_of m ++ rest) ≡ (ParseResult.no_error, m))
unfolding serialize parse
parse-serialize old m rest v s = (
  rw (s) refl,
  if_false _ _ (long_enough m rest)
      ∙ rw (parse_kind-bytes_of old m rest s, parse_addresses-addresses old m rest v)
          (if_false _ _ (ap not s)),
)
