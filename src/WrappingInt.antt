-- ===== src/WrappingInt.antt =====
-- libsponge/wrapping_integers.hh and wrapping_integers.cc: 32-bit sequence numbers that wrap.
-- A `WrappingInt32` is its raw value, a number below 2 ^ 32.
pub mod Unwrap
use tcp_impliment.Common.{ℕ, ◌+◌, ◌*◌, ◌/◌, ◌%◌, Bool, ◌||◌, ltb, ◌==◌, if◌then◌else◌}
use tcp_impliment.Common.Words.{u32_mod, add64, sub64, add32, sub32}

abbrev pub WrappingInt32 : Type 0
WrappingInt32 = ℕ

-- The sum in `uint64_t`, then `% max_int`.
unfoldable pub wrap : ℕ → WrappingInt32 → WrappingInt32
wrap n isn = add64 isn n % u32_mod

-- `mid`: the offset of `n` from `isn`, moved into the block of 2 ^ 32 that holds the checkpoint.
abbrev pub mid_of : WrappingInt32 → WrappingInt32 → ℕ → ℕ
mid_of n isn checkpoint =
    add64 (add64 (sub64 u32_mod isn) n % u32_mod) (checkpoint / u32_mod * u32_mod)

-- The choice between the candidates of three neighbouring blocks.
abbrev pub nearest : ℕ → ℕ → ℕ
nearest mid checkpoint =
    let right = add64 mid u32_mod in
    let left = sub64 mid u32_mod in
    if ltb checkpoint mid
    then (if ltb (sub64 mid checkpoint) (sub64 checkpoint left) || ltb mid u32_mod
        then mid
        else left)
    else (if ltb (sub64 right checkpoint) (sub64 checkpoint mid) then right else mid)

unfoldable pub unwrap : WrappingInt32 → WrappingInt32 → ℕ → ℕ
unwrap n isn checkpoint = nearest (mid_of n isn checkpoint) checkpoint

-- `operator+(WrappingInt32, uint32_t)` and `operator-(WrappingInt32, uint32_t)`.
unfoldable pub add_offset : WrappingInt32 → ℕ → WrappingInt32
add_offset a b = add32 a b

unfoldable pub sub_offset : WrappingInt32 → ℕ → WrappingInt32
sub_offset a b = add32 a (sub32 0 b)

-- `operator==`.
abbrev pub same : WrappingInt32 → WrappingInt32 → Bool
same a b = a == b
