-- ===== src/Buffer/BufferViewList.antt =====
-- The class `BufferViewList`: a deque of views of bytes, front first.
use tcp_impliment.Common.{
  ℕ, ◌+◌, ◌-◌, ◌==◌, true, false, Option, none, some, List, [], ◌∷◌, ltb, if◌then◌else◌, length,
  drop, map,
}
use tcp_impliment.Buffer.{Buffer, str}

-- The constructors from one string and from a list of buffers.
abbrev pub of_view : List ℕ → List (List ℕ)
of_view bytes = bytes ∷ []

abbrev pub of_buffers : List Buffer → List (List ℕ)
of_buffers buffers = map str buffers

unfoldable pub remove_prefix : List (List ℕ) → ℕ → Option (List (List ℕ))
remove_prefix [] n = if n == 0 then some [] else none
remove_prefix (v ∷ vs) n = elim (n == 0) [
  | true ↦ some (v ∷ vs)
  | false ↦ elim (ltb n (length v)) [
    | true ↦ some (drop n v ∷ vs)
    | false ↦ remove_prefix vs (n - length v)
  ]
]

abbrev pub size_onto : ℕ → List (List ℕ) → ℕ
size_onto ret [] = ret
size_onto ret (v ∷ vs) = size_onto (ret + length v) vs

abbrev pub size : List (List ℕ) → ℕ
size = size_onto 0

-- A vector of iovecs: each is the start of a view, here what it shows, and its size.
abbrev pub as_iovecs : List (List ℕ) → List (List ℕ × ℕ)
as_iovecs views = map (λ v. (v, length v)) views
