-- ===== src/Common/Maps.antt =====
-- `std::unordered_map` with numbers for keys, as an association list, and chains of options.
use Prim.Native.Nat.{ℕ}
use mathlib.Core.Bool.{Bool, true, false}
use mathlib.Core.List.{List, [], ◌∷◌}
use mathlib.Core.Option.{Option, none, some}
use mathlib.Core.Path.{◌≡◌, refl, ap}
use native.Mathlib.Omega.{arith}
use tcp_impliment.Common.Tests.{◌==◌, ==_iff, if◌then◌else◌}

infixl 5 ◌>>=◌
abbrev pub ◌>>=◌ {ℓ κ} : {A : Type ℓ} {B : Type κ} → Option A → (A → Option B) → Option B
none >>= f = none
some a >>= f = f a

-- What a chain that does not fail has come by.
pub bind_back {ℓ κ} :
    {A : Type ℓ} {B : Type κ} (o : Option A) (f : A → Option B) (v : B)
    → (o >>= f) ≡ some v
    → (u : A) × (o ≡ some u) × (f u ≡ some v)
bind_back none f v e = cc
bind_back (some u) f v e = (u, refl, e)

pub some_back {ℓ} : {A : Type ℓ} (a b : A) → ◌≡◌ {A = Option A} (some a) (some b) → a ≡ b
some_back {A} a b e = ap (λ (o : Option A). elim o [ none ↦ a | some x ↦ x ]) e

pub guard_back {ℓ} :
    {A : Type ℓ} (b : Bool) (o : Option A) (v : A)
    → (if b then none else o) ≡ some v
    → (b ≡ false) × (o ≡ some v)
guard_back true o v e = cc
guard_back false o v e = (refl, e)

abbrev pub Entries {ℓ} : Type ℓ → Type ℓ
Entries V = List (ℕ × V)

module _ {ℓ} {V : Type ℓ} where
  -- `erase(k)`. A key stands once, but this holds of every list.
  unfoldable pub erase : ℕ → Entries V → Entries V
  erase key [] = []
  erase key (entry ∷ rest) =
      let kept = erase key rest in if key == entry.0 then kept else entry ∷ kept

  -- `m[k]=v`
  unfoldable pub insert : ℕ → V → Entries V → Entries V
  insert key value [] = (key, value) ∷ []
  insert key value (entry ∷ rest) =
      if key == entry.0 then (key, value) ∷ rest else entry ∷ insert key value rest

  unfoldable pub lookup : ℕ → Entries V → Option V
  lookup key [] = none
  lookup key (entry ∷ rest) =
      let below = lookup key rest in if key == entry.0 then some entry.1 else below

  abbrev pub is_some : Option V → Bool
  is_some (some value) = true
  is_some none = false

  abbrev pub get_or : Option V → V → V
  get_or (some value) default = value
  get_or none default = default

  -- `count(k)`, which is 0 or 1.
  abbrev pub contains : ℕ → Entries V → Bool
  contains key entries = is_some (lookup key entries)

  pub lookup-erase :
      (gone key : ℕ) (entries : Entries V)
      → lookup key (erase gone entries) ≡ (if gone == key then none else lookup key entries)
  unfolding lookup erase
  lookup-erase gone key [] = ground arith
  lookup-erase gone key ((first, value) ∷ rest) =
      let ih = lookup-erase gone key rest in
      ground (arith, ih, ==_iff gone first, ==_iff key first, ==_iff gone key)

  pub lookup-insert :
      (new key : ℕ) (value : V) (entries : Entries V)
      → lookup key (insert new value entries)
        ≡ (if new == key then some value else lookup key entries)
  unfolding lookup insert
  lookup-insert new key value [] = ground (arith, ==_iff new key, ==_iff key new)
  lookup-insert new key value ((first, held) ∷ rest) =
      let ih = lookup-insert new key value rest in
      ground (arith, ih, ==_iff new first, ==_iff key first, ==_iff new key)
