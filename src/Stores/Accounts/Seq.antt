-- ===== src/Stores/Accounts/Seq.antt =====
-- Sequence numbers as bytes: they are read back, and keys are in their order.
use teleno.Base.{
  Bytes, [], ap, arith, bytes_beq, bytes_key, bytes_less, length, length-append, ltb, nat_beq,
  nat_key, refl, suc, sym, zero, ℕ, ◌%◌, ◌&&◌, ◌*◌, ◌++◌, ◌+◌, ◌/◌, ◌<?◌, ◌<◌, ◌==◌, ◌^◌, ◌||◌, ◌∙◌,
  ◌∷◌, ◌≡◌,
}
use teleno.Stores.Accounts.{encode_bytes, encode_seq, decode_bytes, decode_seq}

-- The numbers that `n` bytes hold.
abbrev pub byte_bound : ℕ → ℕ
byte_bound zero = 1
byte_bound (suc n) = 256 * byte_bound n

pub length-encode_bytes : (n s : ℕ) → length (encode_bytes n s) ≡ n
unfolding encode_bytes
length-encode_bytes zero s = refl
length-encode_bytes (suc n) s =
    length-append (encode_bytes n (s / 256)) (s % 256 ∷ [])
    ∙ omega (arith, length-encode_bytes n (s / 256))

less-append :
    (xs ys : Bytes) (a b : ℕ)
    → length xs ≡ length ys
    → bytes_less (xs ++ a ∷ []) (ys ++ b ∷ []) ≡ (bytes_less xs ys || (bytes_beq xs ys && ltb a b))
less-append [] [] a b e = ground arith
less-append [] (y ∷ ys) a b e = absurd (omega (arith, e))
less-append (x ∷ xs) [] a b e = absurd (omega (arith, e))
less-append (x ∷ xs) (y ∷ ys) a b e = ground (arith, less-append xs ys a b (omega (arith, e)))

beq-append :
    (xs ys : Bytes) (a b : ℕ)
    → length xs ≡ length ys
    → bytes_beq (xs ++ a ∷ []) (ys ++ b ∷ []) ≡ (bytes_beq xs ys && nat_beq a b)
beq-append [] [] a b e = ground arith
beq-append [] (y ∷ ys) a b e = absurd (omega (arith, e))
beq-append (x ∷ xs) [] a b e = absurd (omega (arith, e))
beq-append (x ∷ xs) (y ∷ ys) a b e = ground (arith, beq-append xs ys a b (omega (arith, e)))

same_length : (n s t : ℕ) → length (encode_bytes n s) ≡ length (encode_bytes n t)
same_length n s t = length-encode_bytes n s ∙ sym (length-encode_bytes n t)

beq-encode_bytes :
    (n s t : ℕ)
    → s < byte_bound n
    → t < byte_bound n
    → bytes_beq (encode_bytes n s) (encode_bytes n t) ≡ nat_beq s t
unfolding encode_bytes
beq-encode_bytes zero s t p q = ground arith
beq-encode_bytes (suc n) s t p q =
    beq-append (encode_bytes n (s / 256)) (encode_bytes n (t / 256)) (s % 256) (t % 256)
      (same_length n (s / 256) (t / 256))
    ∙ ap (λ b. b && nat_beq (s % 256) (t % 256))
        (beq-encode_bytes n (s / 256) (t / 256) (omega (arith, p)) (omega (arith, q)))
    ∙ ground arith

less-encode_bytes :
    (n s t : ℕ)
    → s < byte_bound n
    → t < byte_bound n
    → bytes_less (encode_bytes n s) (encode_bytes n t) ≡ ltb s t
unfolding encode_bytes
less-encode_bytes zero s t p q = ground arith
less-encode_bytes (suc n) s t p q =
    let p' : s / 256 < byte_bound n = omega (arith, p) in
    let q' : t / 256 < byte_bound n = omega (arith, q) in
    less-append (encode_bytes n (s / 256)) (encode_bytes n (t / 256)) (s % 256) (t % 256)
      (same_length n (s / 256) (t / 256))
    ∙ ground (
      arith,
      less-encode_bytes n (s / 256) (t / 256) p' q',
      beq-encode_bytes n (s / 256) (t / 256) p' q',
    )

decode-append :
    (n v a : ℕ) (xs : Bytes)
    → length xs ≡ n
    → decode_bytes (suc n) v (xs ++ a ∷ []) ≡ (decode_bytes n v xs * 256) % 2 ^ 64 + a
unfolding decode_bytes
decode-append zero v a [] e = refl
decode-append zero v a (x ∷ xs) e = absurd (omega (arith, e))
decode-append (suc n) v a [] e = absurd (omega (arith, e))
decode-append (suc n) v a (x ∷ xs) e =
    decode-append n ((v * 256) % 2 ^ 64 + x) a xs (omega (arith, e))

decode-encode_bytes :
    (n s : ℕ) → s < byte_bound n → s < 2 ^ 64 → decode_bytes n 0 (encode_bytes n s) ≡ s
unfolding encode_bytes decode_bytes
decode-encode_bytes zero s p q = omega (arith, p)
decode-encode_bytes (suc n) s p q =
    decode-append n 0 (s % 256) (encode_bytes n (s / 256)) (length-encode_bytes n (s / 256))
    ∙ ap (λ v. (v * 256) % 2 ^ 64 + s % 256)
        (decode-encode_bytes n (s / 256) (omega (arith, p)) (omega (arith, q)))
    ∙ omega (arith, q)

-- A 64-bit sequence number is read back from its bytes, and the order of bytes is that of numbers.
pub encode_seq-lem :
    (s t : ℕ)
    → s < 2 ^ 64
    → t < 2 ^ 64
    → (decode_seq (encode_seq s) ≡ s)
      × ((encode_seq s <? encode_seq t) ≡ ltb s t)
      × ((encode_seq s == encode_seq t) ≡ nat_beq s t)
unfolding encode_seq decode_seq
encode_seq-lem s t p q = (
  ground (arith, length-encode_bytes 8 s, decode-encode_bytes 8 s p p),
  less-encode_bytes 8 s t p q,
  beq-encode_bytes 8 s t p q,
)
