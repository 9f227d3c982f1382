-- ===== src/Buffer.antt =====
-- libsponge/util/buffer.hh and buffer.cc: shared strings that lose bytes from the front. The
-- shared storage is not written to, so each holder has its own copy here.
pub mod BufferList
pub mod BufferViewList
pub mod Bytes
use tcp_impliment.Common.{
  ℕ, ◌+◌, ◌≤◌, ◌==◌, Option, none, some, List, [], ◌∷◌, ◌++◌, drop, length, ltb, if◌then◌else◌,
}

pub record Buffer : Type 0 where
  pub storage : Option (List ℕ)
  pub starting_offset : ℕ

-- `Buffer()`, and the constructor from a string.
abbrev pub empty : Buffer
empty = record { storage = none; starting_offset = 0 }

abbrev pub of_string : List ℕ → Buffer
of_string bytes = record { storage = some bytes; starting_offset = 0 }

abbrev pub view : Option (List ℕ) → ℕ → List ℕ
view none offset = []
view (some bytes) offset = drop offset bytes

-- `str()`, which is also the conversion to `string_view` and the copy.
unfoldable pub str : Buffer → List ℕ
str b = view b.storage b.starting_offset

abbrev pub size : Buffer → ℕ
size b = length (str b)

-- The storage after the offset has moved: `_storage.reset()` at its end.
abbrev pub release : Option (List ℕ) → ℕ → Option (List ℕ)
release none offset = none
release (some bytes) offset = if offset == length bytes then none else some bytes

-- `none` for the exception.
unfoldable pub remove_prefix : Buffer → ℕ → Option Buffer
remove_prefix b n =
    let offset = b.starting_offset + n in
    if ltb (size b) n
    then none
    else some (record { storage = release b.storage offset; starting_offset = offset })

-- In the formats of frames, datagrams and segments a buffer is its bytes and a `BufferList` a list
-- of strings: what it stands for, and `operator Buffer`.
abbrev pub joined : List (List ℕ) → List ℕ
joined [] = []
joined (v ∷ vs) = v ++ joined vs

abbrev pub contiguous : List (List ℕ) → Option (List ℕ)
contiguous [] = some []
contiguous (v ∷ []) = some v
contiguous (v ∷ w ∷ vs) = none
