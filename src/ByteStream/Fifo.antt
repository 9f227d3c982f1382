-- ===== src/ByteStream/Fifo.antt =====
-- What a `ByteStream` promises its two users: a bounded FIFO of bytes, given here on its own.
use tcp_impliment.Common.{
  ◌^◌, ◌%◌, ◌+◌, ◌&&◌, false, true, Bool, ℕ, ◌-◌, min, ◌≡◌, ap, arith, List, [], ◌∷◌, ◌++◌, length,
  take, drop, take-min, drop-min,
}
use tcp_impliment.Common.Words.{sub64}
use tcp_impliment.ByteStream.{
  ByteStream, write, pop_output, read, end_input, set_error, remaining_capacity, eof, input_ended,
  buffer_size, bytes_written, bytes_read,
}
use tcp_impliment.ByteStream.Invariant.{IsValid}

-- The calls of a writer and a reader, in the order in which they happen; `look` asks for all that
-- the stream tells of itself.
pub data Op : Type 0 where
  put : List ℕ → Op
  get : ℕ → Op
  skip : ℕ → Op
  close fail look : Op

-- `eof`, `input_ended`, `error`, `buffer_size`, `remaining_capacity`, `bytes_written`, `bytes_read`.
pub record Status : Type 0 where
  pub at_end : Bool
  pub input_over : Bool
  pub error : Bool
  pub buffered : ℕ
  pub room : ℕ
  pub taken : ℕ
  pub given : ℕ

-- What a call answers: the number of bytes taken, the bytes read, or what the stream tells.
pub data Reply : Type 0 where
  count : ℕ → Reply
  bytes : List ℕ → Reply
  status : Status → Reply
  done : Reply

abbrev pub status_of : ByteStream → Status
status_of s = record {
  at_end = eof s;
  input_over = input_ended s;
  error = s.error_flag;
  buffered = buffer_size s;
  room = remaining_capacity s;
  taken = bytes_written s;
  given = bytes_read s;
}

abbrev pub run : ByteStream → List Op → List Reply
run s [] = []
run s (put b ∷ ops) = let (n, s') = write s b in count n ∷ run s' ops
run s (get n ∷ ops) = let (out, s') = read s n in bytes out ∷ run s' ops
run s (skip n ∷ ops) = done ∷ run (pop_output s n) ops
run s (close ∷ ops) = done ∷ run (end_input s) ops
run s (fail ∷ ops) = done ∷ run (set_error s) ops
run s (look ∷ ops) = status (status_of s) ∷ run s ops

-- The queue of at most `cap` bytes, oldest first, how many have left it, whether the writer has
-- ended it, and whether it has failed.
pub record Fifo : Type 0 where
  pub cap : ℕ
  pub queue : List ℕ
  pub left : ℕ
  pub closed : Bool
  pub broken : Bool

abbrev pub fifo_of : ByteStream → Fifo
fifo_of s = record {
  cap = s.capacity;
  queue = s.buffer;
  left = s.total_read;
  closed = s.input_end;
  broken = s.error_flag;
}

abbrev pub is_nil : List ℕ → Bool
is_nil [] = true
is_nil (b ∷ q) = false

abbrev pub tells : Fifo → Status
tells f = record {
  at_end = f.closed && is_nil f.queue;
  input_over = f.closed;
  error = f.broken;
  buffered = length f.queue;
  room = f.cap - length f.queue;
  taken = (f.left + length f.queue) % 2 ^ 64;
  given = f.left;
}

abbrev pub without : Fifo → ℕ → Fifo
without f n = record f { queue = drop n f.queue; left = (f.left + min n (length f.queue)) % 2 ^ 64 }

-- The end of the writer's input does not keep it from putting more.
abbrev pub fifo_run : Fifo → List Op → List Reply
fifo_run f [] = []
fifo_run f (put b ∷ ops) =
    let room = f.cap - length f.queue in
    count (min (length b) room) ∷ fifo_run (record f { queue = f.queue ++ take room b }) ops
fifo_run f (get n ∷ ops) = bytes (take n f.queue) ∷ fifo_run (without f n) ops
fifo_run f (skip n ∷ ops) = done ∷ fifo_run (without f n) ops
fifo_run f (close ∷ ops) = done ∷ fifo_run (record f { closed = true }) ops
fifo_run f (fail ∷ ops) = done ∷ fifo_run (record f { broken = true }) ops
fifo_run f (look ∷ ops) = status (tells f) ∷ fifo_run f ops

pub remaining-eq :
    (s : ByteStream) → IsValid s → remaining_capacity s ≡ s.capacity - length s.buffer
unfolding remaining_capacity
remaining-eq s v = omega arith

pub write_lem :
    (s : ByteStream) (b : List ℕ)
    → IsValid s
    → ((write s b).0 ≡ min (length b) (s.capacity - length s.buffer))
      × ((write s b).1.buffer ≡ s.buffer ++ take (s.capacity - length s.buffer) b)
unfolding write
write_lem s b v =
    let room : sub64 s.capacity s.size ≡ s.capacity - length s.buffer = omega arith in
    (omega arith, rw room (ap (λ r. s.buffer ++ r) (take-min (s.capacity - length s.buffer) b)))

pub read_lem :
    (s : ByteStream) (n : ℕ)
    → IsValid s
    → ((read s n).0 ≡ take n s.buffer) × ((read s n).1.buffer ≡ drop n s.buffer)
unfolding read
read_lem s n v = (rw v.counted (take-min n s.buffer), rw v.counted (drop-min n s.buffer))
