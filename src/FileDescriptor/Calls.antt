-- ===== src/FileDescriptor/Calls.antt =====
-- What a call that returns has done.
use tcp_impliment.Common.{
  some_back, bind_back, guard_back, get_or, ℕ, ◌==◌, ◌≡◌, ◌≤◌, ◌^◌, ◌<◌, refl, sym, ap, ◌∙◌, arith,
  Bool, true, false, ◌&&◌, not, none, some, List, length, min, ltb, if◌then◌else◌,
}
use tcp_impliment.Common.Words.{add32}
use tcp_impliment.Buffer.BufferViewList
use Prim.Native.Nat.{bit_and, bit_or, bit_xor}
use tcp_impliment.FileDescriptor.{
  FdWrapper, Kernel, Returned, value, failure, checked, at_end, max_read, register_read,
  register_write, written, write_once, write_loop, read, write, close, set_blocking,
}

pub checked_back {ℓ} : {A : Type ℓ} (r : Returned A) (a : A) → checked r ≡ some a → r ≡ value a
checked_back (value b) a e = ap (λ o. value (get_or o b)) e
checked_back (failure errno) a e = cc

within_limit : (limit got : ℕ) → ltb (min max_read limit) got ≡ false → got ≤ limit
within_limit limit got h = ground (arith, h)

within_size : (size n : ℕ) → ltb size n ≡ false → n ≤ size
within_size size n h = ground (arith, h)

module _ {ℓ} {K : Type ℓ} (kernel : Kernel K) (f f' : FdWrapper) (k k' : K) where
  pub read_back :
      (limit : ℕ) (bytes : List ℕ)
      → read kernel (f, k) limit ≡ some (bytes, f', k')
      → (length bytes ≤ limit)
        × (kernel.read k f.fd (min max_read limit) ≡ (value bytes, k'))
        × (f' ≡ register_read (at_end f limit bytes))
  unfolding read
  read_back limit bytes e =
      let size_to_read = min max_read limit in
      let (r, k1) = kernel.read k f.fd size_to_read in
      let (got, run, after) = bind_back (checked r) _ (bytes, f', k') e in
      let (short, done) =
        guard_back (ltb size_to_read (length got))
          (some (got, register_read (at_end f limit got), k1)) (bytes, f', k') after in
      let q = some_back _ _ done in
      let same : got ≡ bytes = ap (λ (r : List ℕ × FdWrapper × K). r.0) q in
      (
        within_limit limit (length bytes)
            (ap (λ l. ltb size_to_read (length l)) (sym same) ∙ short),
        ap (λ x. (x, k1)) (checked_back r got run)
            ∙ (ap (λ x. (value x, k1)) same
                ∙ ap (λ (r : List ℕ × FdWrapper × K). (value bytes, r.2)) q),
        sym (ap (λ (r : List ℕ × FdWrapper × K). r.1) q)
            ∙ ap (λ l. register_read (at_end f limit l)) same,
      )

  pub write_once_back :
      (buffer rest : List (List ℕ)) (n : ℕ)
      → write_once kernel (f, k) buffer ≡ some (n, rest, f', k')
      → (n ≤ BufferViewList.size buffer)
        × (kernel.writev k f.fd buffer ≡ (value n, k'))
        × (f' ≡ register_write f)
  unfolding write_once
  write_once_back buffer rest n e =
      let (r, k1) = kernel.writev k f.fd buffer in
      let size = BufferViewList.size buffer in
      let (m, run, after) = bind_back (checked r) _ (n, rest, f', k') e in
      let (_, next) =
        guard_back (m == 0 && not (size == 0))
          (if ltb size m then none else written kernel (f, k1) buffer m) (n, rest, f', k') after in
      let (within, all) =
        guard_back (ltb size m) (written kernel (f, k1) buffer m) (n, rest, f', k') next in
      let (left, _, done) =
        bind_back (BufferViewList.remove_prefix buffer m) _ (n, rest, f', k') all in
      let q = some_back _ _ done in
      let same : m ≡ n = ap (λ (r : ℕ × List (List ℕ) × FdWrapper × K). r.0) q in
      (
        within_size size n (ap (λ l. ltb size l) (sym same) ∙ within),
        ap (λ x. (x, k1)) (checked_back r m run)
            ∙ (ap (λ x. (value x, k1)) same
                ∙ ap (λ (r : ℕ × List (List ℕ) × FdWrapper × K). (value n, r.3)) q),
        sym (ap (λ (r : ℕ × List (List ℕ) × FdWrapper × K). r.2) q),
      )

module _ {ℓ} {K : Type ℓ} (kernel : Kernel K) (f f' : FdWrapper) (k k' : K) where
  -- A write that need not be of all of the buffer is one call.
  pub write_back :
      (buffer : List (List ℕ)) (n : ℕ)
      → BufferViewList.size buffer < 2 ^ 64
      → write kernel (f, k) buffer false ≡ some (n, f', k')
      → (n ≤ BufferViewList.size buffer)
        × (kernel.writev k f.fd buffer ≡ (value n, k'))
        × (f' ≡ register_write f)
  unfolding write write_loop
  write_back buffer n short e =
      let ((m, rest, f1, k1), once, done) =
        bind_back (write_once kernel (f, k) buffer) _ (n, f', k') e in
      let (within, wrote, counted) = write_once_back kernel f f1 k k1 buffer rest m once in
      let q = some_back _ _ done in
      let same : n ≡ m =
        sym (ap (λ (r : ℕ × FdWrapper × K). r.0) q) ∙ omega (arith, within, short) in
      (
        omega (arith, same, within),
        wrote
            ∙ (ap (λ x. (value x, k1)) (sym same)
                ∙ ap (λ (r : ℕ × FdWrapper × K). (value n, r.2)) q),
        sym (ap (λ (r : ℕ × FdWrapper × K). r.1) q) ∙ counted,
      )

  pub close_back :
      close kernel (f, k) ≡ some (f', k')
      → (kernel.close k f.fd ≡ (value tt, k')) × (f' ≡ record f { eof = true; closed = true })
  unfolding close
  close_back e =
      let (r, k1) = kernel.close k f.fd in
      let (_, run, done) = bind_back (checked r) _ (f', k') e in
      let q = some_back _ _ done in
      (
        ap (λ x. (x, k1)) (checked_back r tt run) ∙ ap (λ (r : FdWrapper × K). (value tt, r.1)) q,
        sym (ap (λ (r : FdWrapper × K). r.0) q),
      )

  pub set_blocking_back :
      (b : Bool)
      → set_blocking kernel (f, k) b ≡ some (f', k')
      → (flags : ℕ) × (k1 : K) × ((kernel.get_flags k f.fd).1 ≡ k1)
        × ((kernel.set_flags k1 f.fd flags).1 ≡ k')
        × (f' ≡ f)
  unfolding set_blocking
  set_blocking_back b e =
      let (r, k1) = kernel.get_flags k f.fd in
      let (flags, _, after) = bind_back (checked r) _ (f', k') e in
      let flags' =
        if b
        then bit_xor flags (bit_and flags kernel.o_nonblock)
        else bit_or flags kernel.o_nonblock in
      let (_, _, done) = bind_back (checked (kernel.set_flags k1 f.fd flags').0) _ (f', k') after in
      let q = some_back _ _ done in
      (flags', k1, refl, ap (λ (r : FdWrapper × K). r.1) q, sym (ap (λ (r : FdWrapper × K). r.0) q))

module _ {ℓ} {K : Type ℓ} (kernel : Kernel K) where
  read_count-at_end :
      (f : FdWrapper) (limit : ℕ) (bytes : List ℕ)
      → (at_end f limit bytes).read_count ≡ f.read_count
  read_count-at_end f limit bytes = either (ltb 0 limit && length bytes == 0)
    where
      either : (b : Bool) → (if b then record f { eof = true } else f).read_count ≡ f.read_count
      either true = refl
      either false = refl

  pub read_counts :
      (f f' : FdWrapper) (k k' : K) (limit : ℕ) (bytes : List ℕ)
      → read kernel (f, k) limit ≡ some (bytes, f', k')
      → f'.read_count ≡ add32 f.read_count 1
  read_counts f f' k k' limit bytes e =
      ap (λ (x : FdWrapper). x.read_count) (read_back kernel f f' k k' limit bytes e).2
      ∙ ap (λ n. add32 n 1) (read_count-at_end f limit bytes)

  pub write_counts :
      (f f' : FdWrapper) (k k' : K) (buffer : List (List ℕ)) (n : ℕ)
      → write kernel (f, k) buffer false ≡ some (n, f', k')
      → f'.write_count ≡ add32 f.write_count 1
  unfolding write write_loop
  write_counts f f' k k' buffer n e =
      let ((m, rest, f1, k1), once, done) =
        bind_back (write_once kernel (f, k) buffer) _ (n, f', k') e in
      ap (λ (r : ℕ × FdWrapper × K). r.1.write_count) (sym (some_back _ _ done))
      ∙ ap (λ (x : FdWrapper). x.write_count)
          (write_once_back kernel f f1 k k1 buffer rest m once).2
