-- ===== src/Parser.antt =====
-- libsponge/util/parser.hh and parser.cc: integers in network byte order out of a buffer, with an
-- error that stays, and into a string. A buffer is the list of its bytes, numbers below 256.
pub mod RoundTrip
use tcp_impliment.Common.{
  ℕ, zero, suc, ◌+◌, ◌*◌, ◌/◌, ◌%◌, ◌^◌, Bool, true, false, List, [], ◌∷◌, ltb, if◌then◌else◌,
  length, take, drop,
}

pub data ParseResult : Type 0 where
  no_error bad_checksum packet_too_short wrong_ip_version header_too_short truncated_packet
        unsupported :
      ParseResult

pub record NetParser : Type 0 where
  pub buffer : List ℕ
  pub error : ParseResult

abbrev pub new : List ℕ → NetParser
new buffer = record { buffer = buffer; error = ParseResult.no_error }

-- `error()`.
abbrev pub failed : ParseResult → Bool
failed ParseResult.no_error = false
failed ParseResult.bad_checksum = true
failed ParseResult.packet_too_short = true
failed ParseResult.wrong_ip_version = true
failed ParseResult.header_too_short = true
failed ParseResult.truncated_packet = true
failed ParseResult.unsupported = true

-- `_check_size`.
abbrev pub check_size : ℕ → NetParser → NetParser
check_size size p =
    if ltb (length p.buffer) size then record p { error = ParseResult.packet_too_short } else p

-- The loop of `_parse_int`, in an integer of `modulus` values.
abbrev pub accumulate : ℕ → ℕ → List ℕ → ℕ
accumulate modulus ret [] = ret
accumulate modulus ret (b ∷ bs) = accumulate modulus ((ret * 256 % modulus + b) % modulus) bs

-- `_parse_int` for a type of `len` bytes.
abbrev pub parse_int : ℕ → NetParser → ℕ × NetParser
parse_int len p =
    let p' = check_size len p in
    if failed p'.error
    then (0, p')
    else (accumulate (256 ^ len) 0 (take len p'.buffer), record p' { buffer = drop len p'.buffer })

unfoldable pub u8 : NetParser → ℕ × NetParser
u8 p = parse_int 1 p

unfoldable pub u16 : NetParser → ℕ × NetParser
u16 p = parse_int 2 p

unfoldable pub u32 : NetParser → ℕ × NetParser
u32 p = parse_int 4 p

unfoldable pub remove_prefix : ℕ → NetParser → NetParser
remove_prefix n p =
    let p' = check_size n p in
    if failed p'.error then p' else record p' { buffer = drop n p'.buffer }

-- `_unparse_int` for a type of `len` bytes: what it appends to the string.
abbrev pub unparse_int : ℕ → ℕ → List ℕ
unparse_int zero val = []
unparse_int (suc len) val = val / 256 ^ len % 256 ∷ unparse_int len val
