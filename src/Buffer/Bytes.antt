-- ===== src/Buffer/Bytes.antt =====
-- Lists of buffers and of views as the bytes that they stand for.
use tcp_impliment.Common.{
  ℕ, ◌+◌, ◌-◌, ◌≤◌, ◌==◌, ◌≡◌, refl, sym, ap, ◌∙◌, arith, true, false, Bool-cases, inl, inr, Option,
  none, some, List, [], ◌∷◌, ◌++◌, leb, ltb, if◌then◌else◌, length, drop, length-append,
  append_assoc, append-nil, drop-drop, drop-all, ==_iff, ltb→lt, not_ltb→le, le→leb, zero, suc,
}
use mathlib.Core.Option
use tcp_impliment.Buffer
use tcp_impliment.Buffer.{Buffer, str, release, view, joined}
use tcp_impliment.Buffer.BufferList
use tcp_impliment.Buffer.BufferViewList

-- The bytes of a list of buffers, one buffer after the other.
abbrev pub bytes : List Buffer → List ℕ
bytes [] = []
bytes (b ∷ bs) = str b ++ bytes bs

le→not_ltb : {a b : ℕ} → a ≤ b → ltb b a ≡ false
le→not_ltb h = ground arith

view-release :
    (storage : Option (List ℕ)) (offset n : ℕ)
    → n ≤ length (view storage offset)
    → view (release storage (offset + n)) (offset + n) ≡ drop n (view storage offset)
view-release none o zero h = refl
view-release none o (suc n) h = refl
view-release (some xs) o n h = elim (Bool-cases (o + n == length xs)) [
  | inl e ↦ rw (e) (
      sym
        (drop-drop n o xs ∙ drop-all (o + n) xs (omega (arith, (==_iff (o + n) (length xs)).0 e))))
  | inr e ↦ rw (e) (sym (drop-drop n o xs))
]

str-remove_prefix :
    (b : Buffer) (n : ℕ)
    → n ≤ Buffer.size b
    → Option.map str (Buffer.remove_prefix b n) ≡ some (drop n (str b))
unfolding Buffer.remove_prefix str
str-remove_prefix b n h = rw (le→not_ltb h) (ap some (view-release b.storage b.starting_offset n h))

-- Dropping within the first of two lists, and past it.
drop_within : (n : ℕ) (xs ys : List ℕ) → n ≤ length xs → drop n (xs ++ ys) ≡ drop n xs ++ ys
drop_within zero xs ys h = refl
drop_within (suc n) [] ys h = elim h [ ]
drop_within (suc n) (x ∷ xs) ys h = drop_within n xs ys (omega arith)

drop_past : (n : ℕ) (xs ys : List ℕ) → length xs ≤ n → drop n (xs ++ ys) ≡ drop (n - length xs) ys
drop_past n [] ys h = ap (λ k. drop k ys) (omega arith)
drop_past (suc n) (x ∷ xs) ys h =
    drop_past n xs ys (omega arith) ∙ ap (λ k. drop k ys) (omega arith)
drop_past zero (x ∷ xs) ys h = elim h [ ]

-- What a list of buffers is asked for: the bytes behind the first `n`, if there are so many.
abbrev pub rest_of : List ℕ → ℕ → Option (List ℕ)
rest_of xs n = if leb n (length xs) then some (drop n xs) else none

concatenate_onto-bytes :
    (ret : List ℕ) (bs : List Buffer) → BufferList.concatenate_onto ret bs ≡ ret ++ bytes bs
concatenate_onto-bytes ret [] = sym (append-nil ret)
concatenate_onto-bytes ret (b ∷ bs) =
    concatenate_onto-bytes (ret ++ str b) bs ∙ append_assoc ret (str b) (bytes bs)

size_onto-bytes :
    (ret : ℕ) (bs : List Buffer) → BufferList.size_onto ret bs ≡ ret + length (bytes bs)
size_onto-bytes ret [] = omega arith
size_onto-bytes ret (b ∷ bs) =
    size_onto-bytes (ret + Buffer.size b) bs ∙ omega (arith, length-append (str b) (bytes bs))

bytes-append : (xs : List Buffer) (b : Buffer) → bytes (xs ++ b ∷ []) ≡ bytes xs ++ str b
bytes-append [] b = append-nil (str b)
bytes-append (x ∷ xs) b =
    ap (λ r. str x ++ r) (bytes-append xs b) ∙ sym (append_assoc (str x) (bytes xs) (str b))

append-bytes : (xs ys : List Buffer) → bytes (BufferList.append xs ys) ≡ bytes xs ++ bytes ys
append-bytes xs [] = sym (append-nil (bytes xs))
append-bytes xs (b ∷ ys) =
    append-bytes (xs ++ b ∷ []) ys
    ∙ ap (λ r. r ++ bytes ys) (bytes-append xs b)
    ∙ append_assoc (bytes xs) (str b) (bytes ys)

pub rest_of_all : (xs : List ℕ) → rest_of xs 0 ≡ some xs
rest_of_all xs = rw (le→leb 0 (length xs) (omega arith)) refl

rest_of_none : (xs : List ℕ) (n : ℕ) → (n == 0) ≡ true → rest_of xs n ≡ some xs
rest_of_none xs n z = ap (rest_of xs) ((==_iff n 0).0 z) ∙ rest_of_all xs

rest_of_within :
    (xs ys : List ℕ) (n : ℕ) → n ≤ length xs → rest_of (xs ++ ys) n ≡ some (drop n xs ++ ys)
rest_of_within xs ys n h =
    rw (le→leb n (length (xs ++ ys)) (omega (arith, length-append xs ys)), drop_within n xs ys h)
      refl

leb_shift : (a b n : ℕ) → a ≤ n → leb (n - a) b ≡ leb n (a + b)
leb_shift a b n h = ground arith

rest_of_past :
    (xs ys : List ℕ) (n : ℕ) → length xs ≤ n → rest_of (xs ++ ys) n ≡ rest_of ys (n - length xs)
rest_of_past xs ys n h =
    rw (length-append xs ys, drop_past n xs ys h, leb_shift (length xs) (length ys) n h) refl

replace_front-bytes :
    (o : Option Buffer) (bs : List Buffer)
    → Option.map bytes (BufferList.replace_front o bs)
      ≡ Option.map (λ s. s ++ bytes bs) (Option.map str o)
replace_front-bytes none bs = refl
replace_front-bytes (some b) bs = refl

remove_prefix-bytes :
    (bs : List Buffer) (n : ℕ)
    → Option.map bytes (BufferList.remove_prefix bs n) ≡ rest_of (bytes bs) n
unfolding BufferList.remove_prefix
remove_prefix-bytes [] n = ground arith
remove_prefix-bytes (b ∷ bs) n = elim (Bool-cases (n == 0)) [
  | inl z ↦ rw (z, Option.map) (sym (rest_of_none (str b ++ bytes bs) n z))
  | inr pos ↦ elim (Bool-cases (ltb n (Buffer.size b))) [
    | inl inside ↦
        let h = ltb→lt n (Buffer.size b) inside in
        rw (pos, Option.map, inside)
          (replace_front-bytes (Buffer.remove_prefix b n) bs
            ∙ ap (Option.map (λ s. s ++ bytes bs)) (str-remove_prefix b n (omega arith))
            ∙ sym (rest_of_within (str b) (bytes bs) n (omega arith)))
    | inr past ↦
        rw (pos, Option.map, past)
          (remove_prefix-bytes bs (n - Buffer.size b)
            ∙ sym (rest_of_past (str b) (bytes bs) n (not_ltb→le n (Buffer.size b) past)))
  ]
]

pub views_remove_prefix :
    (vs : List (List ℕ)) (n : ℕ)
    → Option.map joined (BufferViewList.remove_prefix vs n) ≡ rest_of (joined vs) n
unfolding BufferViewList.remove_prefix
views_remove_prefix [] n = ground arith
views_remove_prefix (v ∷ vs) n = elim (Bool-cases (n == 0)) [
  | inl z ↦ rw (z, Option.map) (sym (rest_of_none (v ++ joined vs) n z))
  | inr pos ↦ elim (Bool-cases (ltb n (length v))) [
    | inl inside ↦
        let h = ltb→lt n (length v) inside in
        rw (pos, Option.map, inside) (sym (rest_of_within v (joined vs) n (omega arith)))
    | inr past ↦
        rw (pos, Option.map, past)
          (views_remove_prefix vs (n - length v)
            ∙ sym (rest_of_past v (joined vs) n (not_ltb→le n (length v) past)))
  ]
]

joined-of_buffers : (bs : List Buffer) → joined (BufferViewList.of_buffers bs) ≡ bytes bs
joined-of_buffers [] = refl
joined-of_buffers (b ∷ bs) = ap (λ r. str b ++ r) (joined-of_buffers bs)

-- A list of buffers stands for the string of their bytes: `concatenate` returns it, `size` is its
-- length, `append` joins two of them, and `remove_prefix` drops so many bytes, whichever buffers
-- they lie in, or fails exactly when there are not so many. A list of views made of the buffers
-- drops the same bytes.
pub BufferList_refines :
    (xs ys : List Buffer) (n : ℕ)
    → (BufferList.concatenate xs ≡ bytes xs)
      × (BufferList.size xs ≡ length (bytes xs))
      × (bytes (BufferList.append xs ys) ≡ bytes xs ++ bytes ys)
      × (Option.map bytes (BufferList.remove_prefix xs n)
          ≡ (if leb n (length (bytes xs)) then some (drop n (bytes xs)) else none))
      × (Option.map joined (BufferViewList.remove_prefix (BufferViewList.of_buffers xs) n)
          ≡ Option.map bytes (BufferList.remove_prefix xs n))
BufferList_refines xs ys n = (
  concatenate_onto-bytes [] xs,
  size_onto-bytes 0 xs ∙ omega arith,
  append-bytes xs ys,
  remove_prefix-bytes xs n,
  views_remove_prefix (BufferViewList.of_buffers xs) n
      ∙ ap (λ l. rest_of l n) (joined-of_buffers xs)
      ∙ sym (remove_prefix-bytes xs n),
)
