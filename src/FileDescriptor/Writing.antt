-- ===== src/FileDescriptor/Writing.antt =====
-- Writing all of a buffer, and a part of it.
use tcp_impliment.Common.{
  take-append-drop, append_assoc, take-all, ==_iff, length-drop, le→leb, length-append, ◌∷◌, ℕ,
  zero, suc, ◌+◌, ◌-◌, ◌≤◌, ◌<◌, ◌^◌, ◌==◌, ◌≡◌, refl, ap, ◌∙◌, arith, true, false, ◌&&◌, not,
  Option, none, some, List, [], ◌++◌, length, take, drop, ltb, ◌>>=◌, Bool-cases, inl, inr, if_true,
}
use mathlib.Core.Option
use tcp_impliment.Common.Words.{add64}
use tcp_impliment.Buffer.{joined}
use tcp_impliment.Buffer.Bytes.{views_remove_prefix}
use tcp_impliment.Buffer.BufferViewList
use tcp_impliment.FileDescriptor.{
  FdWrapper, Kernel, value, register_write, write_once, write_loop, write,
}

size_onto-joined :
    (n : ℕ) (vs : List (List ℕ)) → BufferViewList.size_onto n vs ≡ n + length (joined vs)
size_onto-joined n [] = omega arith
size_onto-joined n (v ∷ vs) =
    size_onto-joined (n + length v) vs ∙ omega (arith, length-append v (joined vs))

pub size-joined : (vs : List (List ℕ)) → BufferViewList.size vs ≡ length (joined vs)
size-joined vs = size_onto-joined 0 vs ∙ omega arith

-- What `writev` documents: the bytes that a descriptor has taken grow by the first ones of those
-- that are offered, as many as it returns.
pub record Takes {ℓ} {K : Type ℓ} (kernel : Kernel K) (sent : K → ℕ → List ℕ) : Type ℓ where
  pub taken :
      (k k' : K) (fd n : ℕ) (views : List (List ℕ))
      → kernel.writev k fd views ≡ (value n, k')
      → sent k' fd ≡ sent k fd ++ take n (joined views)

-- A descriptor that takes something of every buffer that is not empty.
pub record IsWilling {ℓ} {K : Type ℓ} (kernel : Kernel K) (fd : ℕ) : Type ℓ where
  pub takes_some :
      (k : K) (views : List (List ℕ))
      → (n : ℕ) × (k' : K) × (kernel.writev k fd views ≡ (value n, k'))
        × (n ≤ length (joined views))
        × (0 < length (joined views) → 0 < n)

joined_back :
    (o : Option (List (List ℕ))) (bytes : List ℕ)
    → Option.map joined o ≡ some bytes
    → (rest : List (List ℕ)) × (o ≡ some rest) × (joined rest ≡ bytes)
joined_back none bytes e = cc
joined_back (some rest) bytes e = (rest, refl, cc)

remove_within :
    (vs : List (List ℕ)) (n : ℕ)
    → n ≤ length (joined vs)
    → (rest : List (List ℕ)) × (BufferViewList.remove_prefix vs n ≡ some rest)
      × (joined rest ≡ drop n (joined vs))
remove_within vs n h =
    joined_back (BufferViewList.remove_prefix vs n) (drop n (joined vs))
      (views_remove_prefix vs n ∙ if_true _ _ (le→leb n (length (joined vs)) h))

not_stuck : (n size : ℕ) → (0 < size → 0 < n) → (n == 0 && not (size == 0)) ≡ false
not_stuck n size h = ground (arith, h)

not_more : (n size : ℕ) → n ≤ size → ltb size n ≡ false
not_more n size h = ground arith

module _ {ℓ} {K : Type ℓ} (kernel : Kernel K) (f : FdWrapper) (k k' : K) (buffer : List (List ℕ))
    (n : ℕ) (wrote : kernel.writev k f.fd buffer ≡ (value n, k'))
    (within : n ≤ length (joined buffer)) (some_written : 0 < length (joined buffer) → 0 < n) where
  write_once_lem :
      (rest : List (List ℕ)) × (write_once kernel (f, k) buffer
        ≡ some (n, rest, register_write f, k'))
      × (joined rest ≡ drop n (joined buffer))
  unfolding write_once
  write_once_lem =
      let (rest, removed, left) = remove_within buffer n within in
      (
        rest,
        rw
            (
              wrote,
              size-joined buffer,
              not_stuck n (length (joined buffer)) some_written,
              not_more n (length (joined buffer)) within,
              removed,
            )
            refl,
        left,
      )

module _ {ℓ} {K : Type ℓ} (kernel : Kernel K) (fuel : ℕ) (o : FdWrapper × K)
    (buffer rest : List (List ℕ)) (total n : ℕ) (f : FdWrapper) (k : K)
    (once : write_once kernel o buffer ≡ some (n, rest, f, k)) where
  loop_ends :
      length (joined rest) ≡ 0
      → write_loop kernel (suc fuel) o buffer true total ≡ some (add64 total n, f, k)
  unfolding write_loop
  loop_ends h = rw (once, ◌>>=◌, size-joined rest, h) refl

  loop_goes_on :
      (length (joined rest) == 0) ≡ false
      → write_loop kernel (suc fuel) o buffer true total
        ≡ write_loop kernel fuel (f, k) rest true (add64 total n)
  unfolding write_loop
  loop_goes_on h = rw (once, ◌>>=◌, size-joined rest, h) refl

module _ {ℓ} {K : Type ℓ} (kernel : Kernel K) (sent : K → ℕ → List ℕ)
    (takes : Takes kernel sent) where
  write_loop-All :
      (fuel : ℕ) (f : FdWrapper) (k : K) (buffer : List (List ℕ)) (total : ℕ)
      → IsWilling kernel f.fd
      → length (joined buffer) < fuel
      → total + length (joined buffer) < 2 ^ 64
      → (count : ℕ) × (k' : K) × (write_loop kernel fuel (f, k) buffer true total
          ≡ some (total + length (joined buffer), record f { write_count = count }, k'))
        × (sent k' f.fd ≡ sent k f.fd ++ joined buffer)
  unfolding write_loop
  write_loop-All zero f k buffer total v enough fits = absurd (omega arith)
  write_loop-All (suc fuel) f k buffer total v enough fits =
      let (n, k', wrote, within, some_written) = v.takes_some k buffer in
      let (rest, once, left) = write_once_lem kernel f k k' buffer n wrote within some_written in
      let size = length (joined buffer) in
      let size' : length (joined rest) ≡ size - n =
        ap length left ∙ length-drop n (joined buffer) in
      let took = takes.taken k k' f.fd n buffer wrote in
      elim (Bool-cases (length (joined rest) == 0)) [
        | inl z ↦
            let whole : size ≤ n = omega (arith, size', (==_iff (length (joined rest)) 0).0 z) in
            let whole' : size ≡ n = omega (arith, whole, within) in
            (
              (register_write f).write_count,
              k',
              loop_ends kernel fuel (f, k) buffer rest total n (register_write f) k' once
                    ((==_iff (length (joined rest)) 0).0 z)
                  ∙ (ap (λ t. some (t, register_write f, k')) (omega (arith, whole', fits))),
              took ∙ ap (λ r. sent k f.fd ++ r) (take-all n (joined buffer) whole),
            )
        | inr more ↦
            let nonempty : 0 < size = ground (arith, size') in
            let started : 0 < n = some_written nonempty in
            let t : add64 total n ≡ total + n = omega (arith, fits, within) in
            let (count, k'', run, got) =
              write_loop-All fuel (register_write f) k' rest (add64 total n) v
                (omega (arith, size', enough, started, nonempty))
                (omega (arith, size', fits, t, within)) in
            (
              count,
              k'',
              loop_goes_on kernel fuel (f, k) buffer rest total n (register_write f) k' once more
                  ∙ (run
                      ∙ ap (λ m. some (m, record f { write_count = count }, k''))
                          (omega (arith, size', t, within))),
              got
                  ∙ ap (λ l. l ++ joined rest) took
                  ∙ append_assoc (sent k f.fd) (take n (joined buffer)) (joined rest)
                  ∙ ap (λ r. sent k f.fd ++ r)
                      (ap (λ r. take n (joined buffer) ++ r) left
                        ∙ take-append-drop n (joined buffer)),
            )
      ]

  -- A descriptor that takes something of every buffer that is not empty takes all of one that is
  -- shorter than 2 ^ 64 and written with `write_all`: the call returns its length, the descriptor
  -- has taken its bytes behind those before, and only the count of its writes has changed.
  pub write-All :
      (f : FdWrapper) (k : K) (buffer : List (List ℕ))
      → IsWilling kernel f.fd
      → length (joined buffer) < 2 ^ 64
      → (count : ℕ) × (k' : K) × (write kernel (f, k) buffer true
          ≡ some (length (joined buffer), record f { write_count = count }, k'))
        × (sent k' f.fd ≡ sent k f.fd ++ joined buffer)
  unfolding write
  write-All f k buffer v short =
      let (count, k', run, got) =
        write_loop-All (suc (BufferViewList.size buffer)) f k buffer 0 v
          (omega (arith, size-joined buffer)) (omega (arith, short)) in
      (count, k', run ∙ ap (λ n. some (n, record f { write_count = count }, k')) (omega arith), got)
