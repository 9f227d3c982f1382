-- ===== src/FileDescriptor.antt =====
-- libsponge/util/file_descriptor.hh and file_descriptor.cc, with `SystemCall` of util.cc: a handle of
-- the kernel that knows whether it is at its end and counts its reads and writes. The kernel is a
-- parameter: a state `K` and its calls. A call returns `none` for an exception.
pub mod Calls
pub mod Writing
use tcp_impliment.Common.{
  ℕ, zero, suc, ◌+◌, ◌==◌, ◌*◌, ◌≤◌, ◌≡◌, Bool, true, false, ◌&&◌, ◌||◌, not, Option, none, some,
  List, [], length, min, ltb, if◌then◌else◌, ◌>>=◌,
}
use tcp_impliment.Common.Words.{add32, add64}
use tcp_impliment.Buffer.BufferViewList
use Prim.Native.Nat.{bit_and, bit_or, bit_xor}

-- What a call of the kernel returns: a value, or -1 with `errno`.
pub data Returned {ℓ} (A : Type ℓ) : Type ℓ where
  value : A → Returned A
  failure : ℕ → Returned A

-- `SystemCall`: an error throws unless its number is the one that is masked.
unfoldable pub system_call {ℓ} : {A : Type ℓ} → Returned A → ℕ → Option (Returned A)
system_call (value a) errno_mask = some (value a)
system_call (failure errno) errno_mask = if errno == errno_mask then some (failure errno) else none

-- With no mask: the number of an error is not 0.
abbrev pub checked {ℓ} : {A : Type ℓ} → Returned A → Option A
checked (value a) = some a
checked (failure errno) = none

-- The kernel's calls, with the state in which each leaves the kernel.
pub record Kernel {ℓ} (K : Type ℓ) : Type ℓ where
  pub read : K → ℕ → ℕ → Returned (List ℕ) × K
  pub writev : K → ℕ → List (List ℕ) → Returned ℕ × K
  pub close : K → ℕ → Returned (Unit {0}) × K
  pub get_flags : K → ℕ → Returned ℕ × K
  pub set_flags : K → ℕ → ℕ → Returned (Unit {0}) × K
  pub o_nonblock : ℕ

-- `FDWrapper`. The descriptors that share one see the same.
pub record FdWrapper : Type 0 where
  pub fd : ℕ
  pub eof : Bool
  pub closed : Bool
  pub read_count : ℕ
  pub write_count : ℕ

abbrev pub new : ℕ → FdWrapper
new fd = record { fd = fd; eof = false; closed = false; read_count = 0; write_count = 0 }

abbrev pub register_read : FdWrapper → FdWrapper
register_read f = record f { read_count = add32 f.read_count 1 }

abbrev pub register_write : FdWrapper → FdWrapper
register_write f = record f { write_count = add32 f.write_count 1 }

abbrev pub max_read : ℕ
max_read = 1024 * 1024

-- The flag behind a read of at most `limit` bytes that returned `bytes`.
abbrev pub at_end : FdWrapper → ℕ → List ℕ → FdWrapper
at_end f limit bytes = if ltb 0 limit && length bytes == 0 then record f { eof = true } else f

module _ {ℓ} {K : Type ℓ} (kernel : Kernel K) where
  unfoldable pub close : FdWrapper × K → Option (FdWrapper × K)
  close (f, k) =
      let (ret, k') = kernel.close k f.fd in
      checked ret >>= λ _. some (record f { eof = true; closed = true }, k')

  abbrev pub or_kept : FdWrapper × K → Option (FdWrapper × K) → FdWrapper × K
  or_kept o none = o
  or_kept o (some closed) = closed

  -- The destructor, which swallows the exception of `close`.
  unfoldable pub destroy : FdWrapper × K → FdWrapper × K
  destroy (f, k) = if f.closed then (f, k) else or_kept (f, (kernel.close k f.fd).1) (close (f, k))

  unfoldable pub read : FdWrapper × K → ℕ → Option (List ℕ × FdWrapper × K)
  read (f, k) limit =
      let size_to_read = min max_read limit in
      let (ret, k') = kernel.read k f.fd size_to_read in
      checked ret >>= λ bytes.
      if ltb size_to_read (length bytes)
      then none
      else some (bytes, register_read (at_end f limit bytes), k')

  abbrev pub written :
      FdWrapper × K → List (List ℕ) → ℕ → Option (ℕ × List (List ℕ) × FdWrapper × K)
  written (f, k) buffer n =
      BufferViewList.remove_prefix buffer n >>= λ rest. some (n, rest, register_write f, k)

  -- One round of the loop in `write`: how much was written, the rest, and the new state.
  unfoldable pub write_once :
      FdWrapper × K → List (List ℕ) → Option (ℕ × List (List ℕ) × FdWrapper × K)
  write_once (f, k) buffer =
      let (ret, k') = kernel.writev k f.fd buffer in
      checked ret >>= λ bytes_written.
      if bytes_written == 0 && not (BufferViewList.size buffer == 0)
      then none
      else if ltb (BufferViewList.size buffer) bytes_written
      then none
      else written (f, k') buffer bytes_written

  -- `do ... while (write_all and buffer.size())`, with fuel for the rounds.
  unfoldable pub write_loop :
      ℕ → FdWrapper × K → List (List ℕ) → Bool → ℕ → Option (ℕ × FdWrapper × K)
  write_loop zero o buffer write_all total = none
  write_loop (suc fuel) o buffer write_all total = write_once o buffer >>= λ r.
      elim (write_all && not (BufferViewList.size r.1 == 0)) [
        | true ↦ write_loop fuel (r.2, r.3) r.1 write_all (add64 total r.0)
        | false ↦ some (add64 total r.0, r.2, r.3)
      ]

  -- Each round but the last one writes something, so there are no more than bytes, and one.
  unfoldable pub write : FdWrapper × K → List (List ℕ) → Bool → Option (ℕ × FdWrapper × K)
  write o buffer write_all = write_loop (suc (BufferViewList.size buffer)) o buffer write_all 0

  -- `flags ^= (flags & O_NONBLOCK)` or `flags |= O_NONBLOCK`
  unfoldable pub set_blocking : FdWrapper × K → Bool → Option (FdWrapper × K)
  set_blocking (f, k) blocking_state =
      let (ret, k') = kernel.get_flags k f.fd in
      checked ret >>= λ flags.
      let (done, k'') = kernel.set_flags k' f.fd (
        if blocking_state
        then bit_xor flags (bit_and flags kernel.o_nonblock)
        else bit_or flags kernel.o_nonblock) in
      checked done >>= λ _. some (f, k'')
