-- ===== src/Buffer/BufferList.antt =====
-- The class `BufferList`: a deque of buffers, front first.
use tcp_impliment.Common.{
  ℕ, ◌+◌, ◌-◌, ◌==◌, true, false, Option, none, some, List, [], ◌∷◌, ◌++◌, ltb, if◌then◌else◌,
}
use tcp_impliment.Buffer
use tcp_impliment.Buffer.{Buffer, str}

abbrev pub append : List Buffer → List Buffer → List Buffer
append buffers [] = buffers
append buffers (b ∷ other) = append (buffers ++ b ∷ []) other

-- `operator Buffer()`: `none` for the exception, more than one buffer.
abbrev pub to_buffer : List Buffer → Option Buffer
to_buffer [] = some Buffer.empty
to_buffer (b ∷ []) = some b
to_buffer (b ∷ c ∷ bs) = none

abbrev pub concatenate_onto : List ℕ → List Buffer → List ℕ
concatenate_onto ret [] = ret
concatenate_onto ret (b ∷ bs) = concatenate_onto (ret ++ str b) bs

abbrev pub concatenate : List Buffer → List ℕ
concatenate = concatenate_onto []

abbrev pub size_onto : ℕ → List Buffer → ℕ
size_onto ret [] = ret
size_onto ret (b ∷ bs) = size_onto (ret + Buffer.size b) bs

abbrev pub size : List Buffer → ℕ
size = size_onto 0

abbrev pub replace_front : Option Buffer → List Buffer → Option (List Buffer)
replace_front none bs = none
replace_front (some b) bs = some (b ∷ bs)

-- The loop ends at the first buffer that keeps a byte; `none` for the exception.
unfoldable pub remove_prefix : List Buffer → ℕ → Option (List Buffer)
remove_prefix [] n = if n == 0 then some [] else none
remove_prefix (b ∷ bs) n = elim (n == 0) [
  | true ↦ some (b ∷ bs)
  | false ↦ elim (ltb n (Buffer.size b)) [
    | true ↦ replace_front (Buffer.remove_prefix b n) bs
    | false ↦ remove_prefix bs (n - Buffer.size b)
  ]
]
