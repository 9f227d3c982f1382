-- ===== src/WrappingInt/Unwrap.antt =====
-- `unwrap` against what its comment in wrapping_integers.cc promises.
use tcp_impliment.Common.{ℕ, ◌+◌, ◌-◌, ◌^◌, ◌≤◌, ◌<◌, ◌≡◌, arith}
use tcp_impliment.Common.Words.{u32_mod, u64_mod}
use tcp_impliment.WrappingInt.{wrap, unwrap, add_offset, sub_offset}

wrap-lt : (n isn : ℕ) → wrap n isn < u32_mod
unfolding wrap
wrap-lt n isn = omega arith

pub unwrap-lt : (n isn checkpoint : ℕ) → unwrap n isn checkpoint < u64_mod
unfolding unwrap
unwrap-lt n isn checkpoint = ground arith

-- For a raw value and an ISN below 2 ^ 32 and a 64-bit checkpoint, the number that `unwrap` returns
-- wraps to the value that it was given.
pub wrap-unwrap :
    (n isn checkpoint : ℕ)
    → n < u32_mod
    → isn < u32_mod
    → checkpoint < u64_mod
    → wrap (unwrap n isn checkpoint) isn ≡ n
unfolding wrap unwrap
wrap-unwrap n isn checkpoint hn hi hc = ground arith

-- An absolute 64-bit number less than 2 ^ 31 away from the checkpoint is recovered from its
-- wrapped form, for every ISN.
pub unwrap-wrap :
    (n isn checkpoint : ℕ)
    → n < u64_mod
    → isn < u32_mod
    → checkpoint < u64_mod
    → n < checkpoint + 2 ^ 31
    → checkpoint < n + 2 ^ 31
    → unwrap (wrap n isn) isn checkpoint ≡ n
unfolding wrap unwrap
unwrap-wrap n isn checkpoint hn hi hc hu hl = ground arith

-- Below 2 ^ 64 - 2 ^ 32 the result is closest to the checkpoint: no other number that wraps to the
-- same value lies nearer, on either side.
pub unwrap_closest :
    (n isn checkpoint m : ℕ)
    → n < u32_mod
    → isn < u32_mod
    → checkpoint < u64_mod - u32_mod
    → m < u64_mod
    → wrap m isn ≡ n
    → let r = unwrap n isn checkpoint in
      (r - checkpoint) + (checkpoint - r) ≤ (m - checkpoint) + (checkpoint - m)
unfolding wrap unwrap
unwrap_closest n isn checkpoint m hn hi hc hm e = ground arith

-- Stepping back undoes stepping forward, and a step is a step of the absolute number.
pub sub_offset-add_offset :
    (a b n isn : ℕ)
    → a < u32_mod
    → b < u32_mod
    → n + b < u64_mod
    → (sub_offset (add_offset a b) b ≡ a) × (add_offset (wrap n isn) b ≡ wrap (n + b) isn)
unfolding add_offset sub_offset wrap
sub_offset-add_offset a b n isn ha hb hn = (omega arith, omega arith)
