-- ===== src/P2p/Gorpc/Reader/Skip.antt =====
-- `skip` ends on every string: it passes over a part of it that is not empty, or throws.
use teleno.Base.{
  Bool, Bool-cases, Bytes, Result, [], arith, bytes_key, err, false, if◌then◌else◌, inl, inr,
  length, ltb, nat_key, ok, refl, suc, true, zero, ℕ, ◌%◌, ◌*◌, ◌+◌, ◌<◌, ◌>>=◌, ◌^◌, ◌∙◌, ◌∷◌, ◌≡◌,
  ◌≤◌, ◌⊎◌,
}
use teleno.P2p.Gorpc.Reader.{
  Error, decode_error, drop, read_byte, read_u16, read_u32, read_raw_size, read_size, read_count,
  skip_count, skip_number, skip_items, skip_after, skip_at, skip,
}

-- A result with what is left of the string, which is no longer than it was.
abbrev Reads {ℓ} : {A : Type ℓ} → Bytes → Result Error (A × Bytes) → Type ℓ
Reads {A = A} raw res =
    ((x : A) × (r : Bytes) × (res ≡ ok (x, r)) × (length r ≤ length raw))
    ⊎ ((t : Bool) × (res ≡ err (decode_error t)))

abbrev pub Passes : Bytes → Result Error Bytes → Type 0
Passes raw res =
    ((r : Bytes) × (res ≡ ok r) × (length r ≤ length raw))
    ⊎ ((t : Bool) × (res ≡ err (decode_error t)))

read_byte-Reads : (raw : Bytes) → Reads raw (read_byte raw)
unfolding read_byte
read_byte-Reads [] = inr (true, refl)
read_byte-Reads (b ∷ raw) = inl (b, raw, refl, omega arith)

read_u16-Reads : (raw : Bytes) → Reads raw (read_u16 raw)
unfolding read_u16
read_u16-Reads [] = inr (true, refl)
read_u16-Reads (a ∷ []) = inr (true, refl)
read_u16-Reads (a ∷ b ∷ raw) = inl (a * 2 ^ 8 + b, raw, refl, omega arith)

read_u32-Reads : (raw : Bytes) → Reads raw (read_u32 raw)
unfolding read_u32
read_u32-Reads [] = inr (true, refl)
read_u32-Reads (a ∷ []) = inr (true, refl)
read_u32-Reads (a ∷ b ∷ []) = inr (true, refl)
read_u32-Reads (a ∷ b ∷ c ∷ []) = inr (true, refl)
read_u32-Reads (a ∷ b ∷ c ∷ d ∷ raw) =
    inl (a * 2 ^ 24 + b * 2 ^ 16 + c * 2 ^ 8 + d, raw, refl, omega arith)

if-Reads {ℓ} :
    {A : Type ℓ} (b : Bool) (raw : Bytes) (x y : Result Error (A × Bytes))
    → Reads raw x
    → Reads raw y
    → Reads raw (if b then x else y)
if-Reads true raw x y hx hy = hx
if-Reads false raw x y hx hy = hy

if-Passes :
    (b : Bool) (raw : Bytes) (x y : Result Error Bytes)
    → Passes raw x
    → Passes raw y
    → Passes raw (if b then x else y)
if-Passes true raw x y hx hy = hx
if-Passes false raw x y hx hy = hy

read_raw_size-Reads : (b : ℕ) (raw : Bytes) → Reads raw (read_raw_size b raw)
unfolding read_raw_size
read_raw_size-Reads b raw = if-Reads _ raw _ _ (inl (b % 2 ^ 5, raw, refl, omega arith)) (
    if-Reads _ raw _ _ (read_byte-Reads raw) (
      if-Reads _ raw _ _ (read_u16-Reads raw)
        (if-Reads _ raw _ _ (read_u32-Reads raw) (inr (false, refl)))))

read_size-Reads : (k l m b : ℕ) (raw : Bytes) → Reads raw (read_size k l m b raw)
unfolding read_size
read_size-Reads k l m b raw = if-Reads _ raw _ _ (inl (b % 2 ^ 4, raw, refl, omega arith)) (
    if-Reads _ raw _ _ (read_u16-Reads raw)
      (if-Reads _ raw _ _ (read_u32-Reads raw) (inr (false, refl))))

length-drop : (n : ℕ) (raw : Bytes) → length (drop n raw) ≤ length raw
unfolding drop
length-drop zero raw = omega arith
length-drop (suc n) [] = omega arith
length-drop (suc n) (b ∷ raw) = omega (arith, length-drop n raw)

skip_count-Passes : (n : ℕ) (raw : Bytes) → Passes raw (skip_count n raw)
unfolding skip_count read_count
skip_count-Passes n raw = elim (Bool-cases (ltb (length raw) n)) [
  | inl e ↦ inr (true, rw e)
  | inr e ↦ inl (drop n raw, rw e, length-drop n raw)
]

skip_number-Passes : (b : ℕ) (raw : Bytes) → Passes raw (skip_number b raw)
unfolding skip_number
skip_number-Passes b raw = if-Passes _ raw _ _ (skip_count-Passes 1 raw) (
    if-Passes _ raw _ _ (skip_count-Passes 2 raw) (
      if-Passes _ raw _ _ (skip_count-Passes 4 raw)
        (if-Passes _ raw _ _ (skip_count-Passes 8 raw) (inr (false, refl)))))

-- A reader, and then what passes over the rest.
then-Passes :
    (raw : Bytes) (m : Result Error (ℕ × Bytes)) (f : ℕ → Bytes → Result Error Bytes)
    → Reads raw m
    → ((n : ℕ) (r : Bytes) → length r ≤ length raw → Passes r (f n r))
    → Passes raw (m >>= λ p. f p.0 p.1)
then-Passes raw m f (inr (t, e)) h = inr (t, rw e)
then-Passes raw m f (inl (n, r, e, le)) h = elim (h n r le) [
  | inl (r', e', le') ↦ inl (r', rw e e', omega (arith, le, le'))
  | inr (t, e') ↦ inr (t, rw e e')
]

pub skip_items_step :
    (below : Bytes → Result Error Bytes) (n : ℕ) (raw r : Bytes)
    → below raw ≡ ok r
    → skip_items below (suc n) raw ≡ skip_items below n r
unfolding skip_items
skip_items_step below n raw r e = ground (arith, e)

pub skip_items_stop :
    (below : Bytes → Result Error Bytes) (n : ℕ) (raw : Bytes) (x : Error)
    → below raw ≡ err x
    → skip_items below (suc n) raw ≡ err x
unfolding skip_items
skip_items_stop below n raw x e = ground (arith, e)

skip_items-Passes :
    (below : Bytes → Result Error Bytes) (n : ℕ) (raw : Bytes)
    → ((r : Bytes) → length r ≤ length raw → Passes r (below r))
    → Passes raw (skip_items below n raw)
skip_items-Passes below zero raw h = inl (raw, unfold skip_items in refl, omega arith)
skip_items-Passes below (suc n) raw h = elim (h raw (omega arith)) [
  | inr (t, e) ↦ inr (t, skip_items_stop below n raw (decode_error t) e)
  | inl (r, e, le) ↦ elim (skip_items-Passes below n r (λ r' le'. h r' (omega (arith, le, le')))) [
    | inr (t, e') ↦ inr (t, skip_items_step below n raw r e ∙ e')
    | inl (r', e', le') ↦ inl (r', skip_items_step below n raw r e ∙ e', omega (arith, le, le'))
  ]
]

skip_after-Passes :
    (below : Bytes → Result Error Bytes) (b : ℕ) (raw : Bytes)
    → ((r : Bytes) → length r ≤ length raw → Passes r (below r))
    → Passes raw (skip_after below b raw)
unfolding skip_after
skip_after-Passes below b raw h = if-Passes _ raw _ _ (inl (raw, refl, omega arith)) (
    if-Passes _ raw _ _
      (then-Passes raw (read_raw_size b raw) (λ size r. skip_count size r)
        (read_raw_size-Reads b raw) (λ n r le. skip_count-Passes n r))
      (if-Passes _ raw _ _
        (then-Passes raw (read_size 0x9 0xdc 0xdd b raw) (λ size r. skip_items below size r)
          (read_size-Reads 0x9 0xdc 0xdd b raw)
          (λ n r le. skip_items-Passes below n r (λ r' le'. h r' (omega (arith, le, le')))))
        (if-Passes _ raw _ _
          (then-Passes raw (read_size 0x8 0xde 0xdf b raw) (λ size r. skip_items below (size * 2) r)
            (read_size-Reads 0x8 0xde 0xdf b raw)
            (λ n r le. skip_items-Passes below (n * 2) r (λ r' le'. h r' (omega (arith, le, le')))))
          (skip_number-Passes b raw))))

-- With more fuel than bytes.
pub skip_at-Passes : (fuel : ℕ) (raw : Bytes) → length raw < fuel → Passes raw (skip_at fuel raw)
unfolding skip_at
skip_at-Passes zero raw lt = absurd (omega arith)
skip_at-Passes (suc fuel) [] lt = inr (true, refl)
skip_at-Passes (suc fuel) (b ∷ raw) lt =
    elim (skip_after-Passes (skip_at fuel) b raw (λ r le. skip_at-Passes fuel r (omega arith))) [
      | inl (r, e, le) ↦ inl (r, e, omega arith)
      | inr (t, e) ↦ inr (t, e)
    ]

-- On every string `skip` ends: it passes over a part of the string that is not empty, or it throws
-- a `DecodeError`.
pub skip_ends :
    (raw : Bytes)
    → ((r : Bytes) × (skip raw ≡ ok r) × (length r < length raw))
      ⊎ ((t : Bool) × (skip raw ≡ err (decode_error t)))
unfolding skip skip_at
skip_ends [] = inr (true, refl)
skip_ends (b ∷ raw) =
    elim (skip_after-Passes (skip_at (suc (length raw))) b raw
      (λ r le. skip_at-Passes (suc (length raw)) r (omega arith))) [
        | inl (r, e, le) ↦ inl (r, e, omega arith)
        | inr (t, e) ↦ inr (t, e)
      ]
