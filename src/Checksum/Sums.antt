-- ===== src/Checksum/Sums.antt =====
-- What the checksum computes.
use tcp_impliment.Common.{
  length, All, true, ◌*◌, Bool, replicate, ℕ, zero, suc, ◌+◌, ◌/◌, ◌%◌, ◌≤◌, ◌<◌, ◌≡◌, refl, sym,
  ◌∙◌, arith, List, [], ◌∷◌, ◌++◌, ltb, lt→ltb, false, ◌↔◌,
}
use native.Mathlib.Decide.{dec_le}
use tcp_impliment.Common.Words.{u16_mod, u32_mod}
use tcp_impliment.Checksum.{InternetChecksum, add, add_byte, fold, value}

-- Adding two strings one after the other is adding them joined.
pub add-append : (c : InternetChecksum) (xs ys : List ℕ) → add c (xs ++ ys) ≡ add (add c xs) ys
add-append c [] ys = refl
add-append c (x ∷ xs) ys = add-append (add_byte c x) xs ys

-- The sum of the words of a string, from a high byte on or from a low one.
abbrev pub words : Bool → List ℕ → ℕ
words false [] = 0
words true [] = 0
words false (b ∷ bs) = b * 256 % u16_mod + words true bs
words true (b ∷ bs) = b + words false bs

add-words :
    (s : ℕ) (p : Bool) (bs : List ℕ)
    → s + words p bs < u32_mod
    → (add (record { sum = s; parity = p }) bs).sum ≡ s + words p bs
add-words s false [] h = omega arith
add-words s true [] h = omega arith
add-words s false (b ∷ bs) h =
    add-words ((s + b * 256 % u16_mod) % u32_mod) true bs (omega arith) ∙ omega arith
add-words s true (b ∷ bs) h = add-words ((s + b) % u32_mod) false bs (omega arith) ∙ omega arith

-- While the sum fits into 32 bits, `add` adds the words.
pub sum-add :
    (c : InternetChecksum) (bs : List ℕ)
    → c.sum + words c.parity bs < u32_mod
    → (add c bs).sum ≡ c.sum + words c.parity bs
sum-add c bs h = add-words c.sum c.parity bs h

-- An even number of zeros adds nothing.
pub words_pad :
    (k n : ℕ) (bs : List ℕ) → n ≡ 2 * k → words false (replicate n 0 ++ bs) ≡ words false bs
words_pad k zero bs e = refl
words_pad zero (suc n) bs e = absurd (omega arith)
words_pad k (suc zero) bs e = absurd (omega arith)
words_pad (suc k) (suc (suc n)) bs e = omega (arith, words_pad k n bs (omega arith))

-- A string of bytes adds less than 2 ^ 16 for each.
pub words-le : (p : Bool) (bs : List ℕ) → All (λ b. b < 256) bs → words p bs ≤ 65280 * length bs
words-le false [] h = omega arith
words-le true [] h = omega arith
words-le false (b ∷ bs) (hb, h) = omega (arith, words-le true bs h)
words-le true (b ∷ bs) (hb, h) = omega (arith, words-le false bs h)

-- One round keeps the sum modulo 65535, keeps it positive and shrinks it.
round_lem :
    (s : ℕ)
    → s < u32_mod
    → let t = s / u16_mod + s % u16_mod in
      (t % 65535 ≡ s % 65535)
      × (0 < s → 0 < t)
      × (t ≤ 131070)
      × (65536 ≤ t → t / u16_mod + t % u16_mod ≤ 65535)
round_lem s h = (omega arith, omega arith, omega arith, omega arith)

le→not_ltb : (s : ℕ) → s ≤ 65535 → ltb 65535 s ≡ false
le→not_ltb s h = ground arith

fold_small : (fuel s : ℕ) → s ≤ 65535 → fold fuel s ≡ s
fold_small zero s h = refl
fold_small (suc fuel) s h = rw (le→not_ltb s h, fold) refl

fold_large : (fuel s : ℕ) → 65536 ≤ s → fold (suc fuel) s ≡ fold fuel (s / u16_mod + s % u16_mod)
fold_large fuel s h = rw (lt→ltb 65535 s h, fold) refl

-- Two rounds fold a 32-bit sum into 16 bits, and keep it modulo 65535.
fold_two :
    (s : ℕ)
    → s < u32_mod
    → (r : ℕ) × ((fuel : ℕ) → fold (suc (suc fuel)) s ≡ r)
      × (r ≤ 65535)
      × (r ≤ s)
      × (r % 65535 ≡ s % 65535)
      × (0 < s → 0 < r)
fold_two s h =
    let t = s / u16_mod + s % u16_mod in
    let u = t / u16_mod + t % u16_mod in
    let once = round_lem s h in
    let small : t < u32_mod = omega (arith, once.2) in
    elim (dec_le s 65535) [
      | yes le ↦ (s, λ fuel. fold_small (suc (suc fuel)) s le, le, omega arith, refl, λ p. p)
      | no gt ↦ elim (dec_le t 65535) [
        | yes le ↦ (
          t,
          λ fuel. fold_large (suc fuel) s (omega arith) ∙ fold_small (suc fuel) t le,
          le,
          omega arith,
          once.0,
          once.1,
        )
        | no gt' ↦
            let twice = round_lem t small in
            let le : u ≤ 65535 = once.3 (omega arith) in
            (
              u,
              λ fuel.
                  fold_large (suc fuel) s (omega arith)
                  ∙ fold_large fuel t (omega arith)
                  ∙ fold_small fuel u le,
              le,
              omega arith,
              twice.0 ∙ once.0,
              λ p. twice.1 (once.1 p),
            )
      ]
    ]

-- The loop of `value` ends after two rounds at most, on a sum of 32 bits: more fuel gives the same.
-- The value has 16 bits, and it is the one that completes the sum to a multiple of 65535; it is
-- zero, as at a receiver, exactly if the sum is a positive
-- multiple of 65535.
pub value_lem :
    (c : InternetChecksum) (fuel : ℕ)
    → c.sum < u32_mod
    → (fold (suc (suc fuel)) c.sum ≡ fold 2 c.sum)
      × (value c ≤ 65535)
      × ((value c + c.sum) % 65535 ≡ 0)
      × ((value c ≡ 0) ↔ (0 < c.sum) × (c.sum % 65535 ≡ 0))
unfolding value
value_lem c fuel h =
    let (r, folds, le, less, same, pos) = fold_two c.sum h in
    let e = folds 0 in
    (
      folds fuel ∙ sym e,
      omega (arith, e, le),
      omega (arith, e, le, same),
      (
        λ z. (omega (arith, e, le, z, less), omega (arith, e, le, z, same)),
        λ (p, q). omega (arith, e, le, same, pos p, q),
      ),
    )

pub value-le : (c : InternetChecksum) → value c ≤ 65535
unfolding value
value-le c = omega arith

-- The value of a sum completes it: with it added, the value is zero.
pub value-completes :
    (c d : InternetChecksum) → d.sum ≡ c.sum + value c → c.sum + 65535 < u32_mod → value d ≡ 0
value-completes c d e h =
    let before = value_lem c 0 (omega arith) in
    let after = value_lem d 0 (omega (arith, before.1)) in
    after.3.1 (
      elim (dec_le (value c) 0) [
        | yes z ↦ omega (arith, (before.3.0 (omega arith)).0)
        | no n ↦ omega arith
      ],
      omega (arith, before.2),
    )
