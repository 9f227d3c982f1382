-- ===== src/ByteStream/Invariant.antt =====
-- The representation invariant of `ByteStream`, kept by every method.
use tcp_impliment.Common.{
  ℕ, ◌+◌, ◌≤◌, ◌<◌, min, ◌≡◌, ap, refl, arith, List, length, take, length-append, length-take,
  length-drop,
}
use tcp_impliment.Common.Words.{u64_mod, add64, sub64}
use tcp_impliment.ByteStream.{
  ByteStream, new, write, peek_output, pop_output, read, remaining_capacity, bytes_written,
  bytes_read, buffer_size,
}

pub record IsValid (s : ByteStream) : Type 0 where
  pub counted : s.size ≡ length s.buffer
  pub fits : s.size ≤ s.capacity
  pub word : s.capacity < u64_mod
  pub read_word : s.total_read < u64_mod
  pub totals : s.total_write ≡ add64 s.total_read s.size

pub new-IsValid : (capacity : ℕ) → capacity < u64_mod → IsValid (new capacity)
new-IsValid capacity h = omega arith

pub write-IsValid : (s : ByteStream) (bytes : List ℕ) → IsValid s → IsValid (write s bytes).1
unfolding write
write-IsValid s bytes v =
    let n = min (length bytes) (sub64 s.capacity s.size) in
    ground (arith, length-append s.buffer (take n bytes), length-take n bytes)

pub pop_output-IsValid : (s : ByteStream) (len : ℕ) → IsValid s → IsValid (pop_output s len)
unfolding pop_output
pop_output-IsValid s len v = ground (arith, length-drop (min s.size len) s.buffer)

-- On a valid stream `write` takes exactly as many bytes as are given and fit, the room left over
-- is the capacity less what is buffered, and both totals keep to it: `write` adds what it took to
-- `bytes_written`, `pop_output` adds what it removed to `bytes_read`. Both leave a valid stream.
pub write_pop_accounting :
    (s : ByteStream) (bytes : List ℕ) (len : ℕ)
    → IsValid s
    → let (n, w) = write s bytes in
      let p = pop_output s len in
      IsValid w
      × IsValid p
      × (n ≡ min (length bytes) (remaining_capacity s))
      × (remaining_capacity w + n ≡ remaining_capacity s)
      × (bytes_written w ≡ add64 (bytes_written s) n)
      × (bytes_read p ≡ add64 (bytes_read s) (min len (buffer_size s)))
      × (remaining_capacity p ≡ remaining_capacity s + min len (buffer_size s))
unfolding write pop_output remaining_capacity
write_pop_accounting s bytes len v = (
  write-IsValid s bytes v,
  pop_output-IsValid s len v,
  omega arith,
  omega arith,
  omega arith,
  ap (λ k. add64 s.total_read k) (omega arith),
  omega arith,
)

-- `read` returns what `peek_output` shows and leaves the stream as `pop_output` does.
pub read-eq-peek_pop :
    (s : ByteStream) (len : ℕ) → read s len ≡ (peek_output s len, pop_output s len)
unfolding read peek_output pop_output
read-eq-peek_pop s len = refl
