-- ===== src/ByteStream/Pieces.antt =====
-- Handing on a part of what is buffered, and taking in what there is room for.
use tcp_impliment.Common.{
  ℕ, zero, suc, ◌≤◌, ◌≡◌, refl, ap, ◌∙◌, arith, List, [], ◌∷◌, ◌++◌, length, take, drop, min,
  take-all, length-take, take-append-drop,
}
use tcp_impliment.Common.Words.{sub64}
use tcp_impliment.ByteStream.{ByteStream, write, peek_output, pop_output, remaining_capacity}

take-take : (m n : ℕ) (xs : List ℕ) → m ≤ n → take m (take n xs) ≡ take m xs
take-take zero n xs h = refl
take-take (suc m) zero xs h = absurd (omega arith)
take-take (suc m) (suc n) [] h = refl
take-take (suc m) (suc n) (x ∷ xs) h = ap (λ r. x ∷ r) (take-take m n xs (omega arith))

pub taken-dropped :
    (s : ByteStream) (n amount : ℕ)
    → n ≤ length (peek_output s amount)
    → take n (peek_output s amount) ++ (pop_output s n).buffer ≡ s.buffer
unfolding peek_output pop_output
taken-dropped s n amount h =
    let m = min s.size amount in
    let within : n ≤ m = omega (arith, h, length-take m s.buffer) in
    let all : min s.size n ≡ n = omega (arith, within) in
    ap (λ k. take n (take m s.buffer) ++ drop k s.buffer) all
    ∙ ap (λ l. l ++ drop n s.buffer) (take-take n m s.buffer within)
    ∙ take-append-drop n s.buffer

pub take-peek_output :
    (s : ByteStream) (n amount : ℕ)
    → n ≤ length (peek_output s amount)
    → take n (peek_output s amount) ≡ take (min s.size n) s.buffer
unfolding peek_output
take-peek_output s n amount h =
    let m = min s.size amount in
    let within : n ≤ m = omega (arith, h, length-take m s.buffer) in
    let all : n ≡ min s.size n = omega (arith, within) in
    take-take n m s.buffer within ∙ ap (λ k. take k s.buffer) all

pub write_fitting :
    (s : ByteStream) (bytes : List ℕ)
    → length bytes ≤ remaining_capacity s
    → (write s bytes).1.buffer ≡ s.buffer ++ bytes
unfolding write remaining_capacity
write_fitting s bytes h =
    let all : length bytes ≤ min (length bytes) (sub64 s.capacity s.size) = omega (arith, h) in
    ap (λ l. s.buffer ++ l) (take-all (min (length bytes) (sub64 s.capacity s.size)) bytes all)
