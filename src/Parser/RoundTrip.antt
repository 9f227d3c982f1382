-- ===== src/Parser/RoundTrip.antt =====
-- An integer is read back as it was written, and a short buffer is an error that stays.
use tcp_impliment.Common.{
  ℕ, ◌<◌, ◌^◌, ◌≡◌, refl, ap, ◌∙◌, arith, List, ◌++◌, length, false, length-append, take-append,
  drop-append, ltb,
}
use tcp_impliment.Parser.{new, parse_int, accumulate, u8, u16, u32, unparse_int, remove_prefix}

not_short : (xs rest : List ℕ) → ltb (length (xs ++ rest)) (length xs) ≡ false
not_short xs rest = ground (arith, length-append xs rest)

-- With enough bytes in the buffer the integer is made of the first ones.
parse_int-append :
    (xs rest : List ℕ)
    → parse_int (length xs) (new (xs ++ rest)) ≡ (accumulate (256 ^ length xs) 0 xs, new rest)
parse_int-append xs rest = rw (not_short xs rest, take-append xs rest, drop-append xs rest) refl

pub remove_prefix-append :
    (xs rest : List ℕ) → remove_prefix (length xs) (new (xs ++ rest)) ≡ new rest
unfolding remove_prefix
remove_prefix-append xs rest = rw (not_short xs rest, drop-append xs rest) refl

pub u8-unparse :
    (v : ℕ) (rest : List ℕ) → v < 2 ^ 8 → u8 (new (unparse_int 1 v ++ rest)) ≡ (v, new rest)
unfolding u8
u8-unparse v rest h =
    parse_int-append (unparse_int 1 v) rest ∙ ap (λ k. (k, new rest)) (omega arith)

pub u16-unparse :
    (v : ℕ) (rest : List ℕ) → v < 2 ^ 16 → u16 (new (unparse_int 2 v ++ rest)) ≡ (v, new rest)
unfolding u16
u16-unparse v rest h =
    parse_int-append (unparse_int 2 v) rest ∙ ap (λ k. (k, new rest)) (omega arith)

pub u32-unparse :
    (v : ℕ) (rest : List ℕ) → v < 2 ^ 32 → u32 (new (unparse_int 4 v ++ rest)) ≡ (v, new rest)
unfolding u32
u32-unparse v rest h =
    parse_int-append (unparse_int 4 v) rest ∙ ap (λ k. (k, new rest)) (omega arith)

-- An integer of one, two or four bytes that is written and read back is what it was, and the
-- bytes behind it stay in the buffer, without an error.
pub parse-unparse :
    (a b c : ℕ) (rest : List ℕ)
    → a < 2 ^ 8
    → b < 2 ^ 16
    → c < 2 ^ 32
    → (u8 (new (unparse_int 1 a ++ rest)) ≡ (a, new rest))
      × (u16 (new (unparse_int 2 b ++ rest)) ≡ (b, new rest))
      × (u32 (new (unparse_int 4 c ++ rest)) ≡ (c, new rest))
parse-unparse a b c rest ha hb hc =
    (u8-unparse a rest ha, u16-unparse b rest hb, u32-unparse c rest hc)
