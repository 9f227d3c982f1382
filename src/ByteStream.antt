-- ===== src/ByteStream.antt =====
-- libsponge/byte_stream.hh and byte_stream.cc: the flow-controlled in-memory byte stream.
-- A `std::string` is the list of its bytes. Methods return the new stream, beside their result.
pub mod Invariant
pub mod Pieces
pub mod Fifo
use tcp_impliment.Common.{
  ℕ, ◌-◌, min, Bool, true, false, ◌&&◌, List, [], ◌++◌, ◌==◌, length, take, drop,
}
use tcp_impliment.Common.Words.{add64, sub64}

pub record ByteStream : Type 0 where
  pub buffer : List ℕ
  pub capacity : ℕ
  pub size : ℕ
  pub input_end : Bool
  pub total_write : ℕ
  pub total_read : ℕ
  pub error_flag : Bool

-- The constructor.
abbrev pub new : ℕ → ByteStream
new capacity = record {
  buffer = [];
  capacity = capacity;
  size = 0;
  input_end = false;
  total_write = 0;
  total_read = 0;
  error_flag = false;
}

-- `capcity-size`, in `size_t`.
unfoldable pub remaining_capacity : ByteStream → ℕ
remaining_capacity s = sub64 s.capacity s.size

-- The loop pushes `data[0]` to `data[addsize - 1]`.
unfoldable pub write : ByteStream → List ℕ → ℕ × ByteStream
write s bytes =
    let addsize = min (length bytes) (sub64 s.capacity s.size) in
    (
      addsize,
      record s {
        buffer = s.buffer ++ take addsize bytes;
        size = add64 s.size addsize;
        total_write = add64 s.total_write addsize;
      },
    )

unfoldable pub peek_output : ByteStream → ℕ → List ℕ
peek_output s len = let outsize = min s.size len in take outsize s.buffer

unfoldable pub pop_output : ByteStream → ℕ → ByteStream
pop_output s len =
    let outsize = min s.size len in
    record s {
      buffer = drop outsize s.buffer;
      size = s.size - outsize;
      total_read = add64 s.total_read outsize;
    }

unfoldable pub read : ByteStream → ℕ → List ℕ × ByteStream
read s len =
    let outsize = min s.size len in
    (
      take outsize s.buffer,
      record s {
        buffer = drop outsize s.buffer;
        size = s.size - outsize;
        total_read = add64 s.total_read outsize;
      },
    )

unfoldable pub end_input : ByteStream → ByteStream
end_input s = record s { input_end = true }

unfoldable pub set_error : ByteStream → ByteStream
set_error s = record s { error_flag = true }

abbrev pub input_ended : ByteStream → Bool
input_ended s = s.input_end

abbrev pub buffer_size : ByteStream → ℕ
buffer_size s = s.size

abbrev pub buffer_empty : ByteStream → Bool
buffer_empty s = s.size == 0

abbrev pub eof : ByteStream → Bool
eof s = s.input_end && s.size == 0

abbrev pub bytes_written : ByteStream → ℕ
bytes_written s = s.total_write

abbrev pub bytes_read : ByteStream → ℕ
bytes_read s = s.total_read
