-- ===== src/Checksum.antt =====
-- libsponge/util/util.hh and util.cc: the class `InternetChecksum`.
pub mod Sums
use tcp_impliment.Common.{
  ℕ, zero, suc, ◌+◌, ◌-◌, ◌*◌, ◌/◌, ◌%◌, Bool, true, false, not, List, [], ◌∷◌, ltb, if◌then◌else◌,
}
use tcp_impliment.Common.Words.{u16_mod, add32}

pub record InternetChecksum : Type 0 where
  pub sum : ℕ
  pub parity : Bool

abbrev pub new : ℕ → InternetChecksum
new initial_sum = record { sum = initial_sum; parity = false }

-- One round of the loop in `add`: the first byte of a pair is the high one.
abbrev pub add_byte : InternetChecksum → ℕ → InternetChecksum
add_byte c b = record {
  sum = add32 c.sum (if not c.parity then b * 256 % u16_mod else b);
  parity = not c.parity;
}

abbrev pub add : InternetChecksum → List ℕ → InternetChecksum
add c [] = c
add c (b ∷ bs) = add (add_byte c b) bs

-- The loop in `value`; `fuel` bounds its rounds.
abbrev pub fold : ℕ → ℕ → ℕ
fold zero ret = ret
fold (suc fuel) ret = elim (ltb 65535 ret) [
  | true ↦ fold fuel (ret / u16_mod + ret % u16_mod)
  | false ↦ ret
]

-- A sum of 32 bits is folded after two rounds. `~ret`, in 16 bits.
unfoldable pub value : InternetChecksum → ℕ
value c = 65535 - fold 2 c.sum
