-- ===== src/Tests/Streams.antt =====
-- Sequence numbers and byte streams at concrete inputs.
use tcp_impliment.Common.{true, ◌+◌, ◌-◌, ◌^◌, ◌≤◌, min, ◌≡◌, refl, arith, List, [], ◌∷◌, false}
use tcp_impliment.Common.Words.{add64}
use tcp_impliment.WrappingInt.{wrap, unwrap, add_offset, sub_offset}
use tcp_impliment.WrappingInt.Unwrap.{
  wrap-unwrap, unwrap-wrap, unwrap_closest, sub_offset-add_offset,
}
use tcp_impliment.ByteStream
use tcp_impliment.ByteStream.{ByteStream, write, read, pop_output, peek_output, remaining_capacity}
use tcp_impliment.ByteStream.{bytes_written, bytes_read, buffer_size}
use tcp_impliment.ByteStream.Invariant.{IsValid, write_pop_accounting, read-eq-peek_pop}
use tcp_impliment.ByteStream.Fifo.{Op, put, get, skip, close, fail, run, Status, status, look}
use tcp_impliment.ByteStream.Fifo.{count, bytes, done}

-- The last number before the wrap, and the first behind it.
unwrap_runs : (unwrap 5 10 (2 ^ 32) ≡ 2 ^ 32 - 5) × (unwrap 1 0 (2 ^ 32 + 7) ≡ 2 ^ 32 + 1)
unfolding unwrap
unwrap_runs = (refl, refl)

wrap-unwrap_run : wrap (unwrap 5 10 (2 ^ 32)) 10 ≡ 5
wrap-unwrap_run = wrap-unwrap 5 10 (2 ^ 32) (omega arith) (omega arith) (omega arith)

unwrap-wrap_example : unwrap (wrap (2 ^ 32 + 3) 10) 10 (2 ^ 32 - 2) ≡ 2 ^ 32 + 3
unwrap-wrap_example =
    unwrap-wrap (2 ^ 32 + 3) 10 (2 ^ 32 - 2) (omega arith) (omega arith) (omega arith) (omega arith)
      (omega arith)

unwrap_closest_example :
    let r = unwrap 5 10 (2 ^ 32) in
    (r - 2 ^ 32) + (2 ^ 32 - r) ≤ (2 ^ 33 - 5 - 2 ^ 32) + (2 ^ 32 - (2 ^ 33 - 5))
unwrap_closest_example =
    unwrap_closest 5 10 (2 ^ 32) (2 ^ 33 - 5) (omega arith) (omega arith) (omega arith)
      (omega arith) wrapped
  where
    wrapped : wrap (2 ^ 33 - 5) 10 ≡ 5
    wrapped = unfold wrap in refl

sub_offset-add_offset_run :
    (sub_offset (add_offset (2 ^ 32 - 1) 3) 3 ≡ 2 ^ 32 - 1) × (add_offset (wrap 7 9) 3 ≡ wrap 10 9)
sub_offset-add_offset_run =
    sub_offset-add_offset (2 ^ 32 - 1) 3 7 9 (omega arith) (omega arith) (omega arith)

-- Two bytes read of four written, in a stream of four.
abbrev half_read : ByteStream
half_read = record {
  buffer = 30 ∷ 40 ∷ [];
  capacity = 4;
  size = 2;
  input_end = false;
  total_write = 4;
  total_read = 2;
  error_flag = false;
}

half_read-IsValid : IsValid half_read
half_read-IsValid = omega arith

half_read_run : (read (write (ByteStream.new 4) (10 ∷ 20 ∷ 30 ∷ 40 ∷ 50 ∷ [])).1 2).1 ≡ half_read
unfolding read write
half_read_run = refl

abbrev script : List Op
script = put (50 ∷ 60 ∷ 70 ∷ []) ∷ get 3 ∷ close ∷ skip 1 ∷ look ∷ fail ∷ get 9 ∷ look ∷ []

abbrev emptied : Status
emptied = record {
  at_end = true;
  input_over = true;
  error = false;
  buffered = 0;
  room = 4;
  taken = 6;
  given = 6;
}

script-run :
    run half_read script
    ≡ count 2
      ∷ bytes (30 ∷ 40 ∷ 50 ∷ [])
      ∷ done
      ∷ done
      ∷ status emptied
      ∷ done
      ∷ bytes []
      ∷ status (record emptied { error = true })
      ∷ []
unfolding write read pop_output ByteStream.end_input ByteStream.set_error remaining_capacity
script-run = refl

write_pop_accounting_run :
    let (n, w) = write half_read (50 ∷ 60 ∷ 70 ∷ []) in
    let p = pop_output half_read 1 in
    IsValid w
    × IsValid p
    × (n ≡ min 3 (remaining_capacity half_read))
    × (remaining_capacity w + n ≡ remaining_capacity half_read)
    × (bytes_written w ≡ add64 4 n)
    × (bytes_read p ≡ add64 2 (min 1 2))
    × (remaining_capacity p ≡ remaining_capacity half_read + min 1 2)
write_pop_accounting_run = write_pop_accounting half_read (50 ∷ 60 ∷ 70 ∷ []) 1 half_read-IsValid

read-eq-peek_pop_run : read half_read 1 ≡ (peek_output half_read 1, pop_output half_read 1)
read-eq-peek_pop_run = read-eq-peek_pop half_read 1
