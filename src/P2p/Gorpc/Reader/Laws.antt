-- ===== src/P2p/Gorpc/Reader/Laws.antt =====
-- What the reader reads back of what was appended.
use teleno.Base.{
  Bool-cases, Bytes, [], ap, append_assoc, arith, bytes_key, false, inl, inr, leb, length,
  length-append, ltb, nat_key, ok, refl, take, ℕ, ◌%◌, ◌++◌, ◌+◌, ◌-◌, ◌/◌, ◌<◌, ◌^◌, ◌∷◌, ◌≡◌,
}
use teleno.P2p.Gorpc.{
  append_u16, append_u32, append_u64, append_map_header, append_array_header, raw_header,
  append_raw, append_uint,
}
use teleno.P2p.Gorpc.Reader.{
  read_byte, read_u16, read_u32, read_u64, read_uint, read_uint_as, read_raw_size, read_count,
  read_raw, read_size, read_map_size, read_array_size, drop,
}

pub read_u16-append :
    (v : ℕ) (rest : Bytes) → v < 2 ^ 16 → read_u16 (append_u16 v ++ rest) ≡ ok (v, rest)
unfolding read_u16 append_u16
read_u16-append v rest h = ap (λ x. ok (x, rest)) (omega arith)

pub read_u32-append :
    (v : ℕ) (rest : Bytes) → v < 2 ^ 32 → read_u32 (append_u32 v ++ rest) ≡ ok (v, rest)
unfolding read_u32 append_u32
read_u32-append v rest h = ap (λ x. ok (x, rest)) (omega arith)

pub read_u64-append :
    (v : ℕ) (rest : Bytes) → v < 2 ^ 64 → read_u64 (append_u64 v ++ rest) ≡ ok (v, rest)
unfolding read_u64 append_u64
read_u64-append v rest h =
    rw (append_assoc (append_u32 (v / 2 ^ 32 % 2 ^ 32)) (append_u32 (v % 2 ^ 32)) rest) (
      rw
        (
          read_u32-append (v / 2 ^ 32 % 2 ^ 32) (append_u32 (v % 2 ^ 32) ++ rest) (omega arith),
          read_u32-append (v % 2 ^ 32) rest (omega arith),
        )
        (ap (λ x. ok (x, rest)) (omega arith)))

-- An unsigned number of 64 bits is read back.
pub read_uint-append :
    (v : ℕ) (rest : Bytes) → v < 2 ^ 64 → read_uint (append_uint v ++ rest) ≡ ok (v, rest)
unfolding read_uint append_uint read_byte read_uint_as
read_uint-append v rest h = elim (Bool-cases (leb v 0x7f)) [
  | inl e ↦ rw e (rw e)
  | inr e ↦ elim (Bool-cases (leb v (2 ^ 8 - 1))) [
    | inl e1 ↦ rw (e, e1)
    | inr e1 ↦ elim (Bool-cases (leb v (2 ^ 16 - 1))) [
      | inl e2 ↦ rw (e, e1, e2) (read_u16-append v rest (ground arith))
      | inr e2 ↦ elim (Bool-cases (leb v (2 ^ 32 - 1))) [
        | inl e3 ↦ rw (e, e1, e2, e3) (read_u32-append v rest (ground arith))
        | inr e3 ↦ rw (e, e1, e2, e3) (read_u64-append v rest h)
      ]
    ]
  ]
]

take-append : (v rest : Bytes) → take (length v) (v ++ rest) ≡ v
take-append [] rest = refl
take-append (b ∷ v) rest = ap (λ x. b ∷ x) (take-append v rest)

drop-append : (v rest : Bytes) → drop (length v) (v ++ rest) ≡ rest
unfolding drop
drop-append [] rest = refl
drop-append (b ∷ v) rest = drop-append v rest

pub read_count-append : (v rest : Bytes) → read_count (length v) (v ++ rest) ≡ ok (v, rest)
unfolding read_count
read_count-append v rest =
    let e : ltb (length (v ++ rest)) (length v) ≡ false = ground (arith, length-append v rest) in
    rw (e, take-append v rest, drop-append v rest)

-- A short header is one byte, whose quotient tells its kind and whose remainder is the size.
pub raw_size-header :
    (n : ℕ) (rest : Bytes)
    → n < 2 ^ 32
    → (b : ℕ) × (r : Bytes) × (raw_header n ++ rest ≡ b ∷ r) × (read_raw_size b r ≡ ok (n, rest))
unfolding raw_header read_raw_size
raw_size-header n rest h = elim (Bool-cases (ltb n 32)) [
  | inl e ↦ (0xa0 + n, rest, rw e, ground arith)
  | inr e ↦ elim (Bool-cases (leb n (2 ^ 16 - 1))) [
    | inl e1 ↦ (0xda, append_u16 n ++ rest, rw (e, e1), read_u16-append n rest (ground arith))
    | inr e1 ↦
        let z : n % 2 ^ 32 ≡ n = omega arith in
        (0xdb, append_u32 n ++ rest, rw (e, e1, z), read_u32-append n rest h)
  ]
]

-- A string whose length fits 32 bits is read back.
pub read_raw-append :
    (v rest : Bytes) → length v < 2 ^ 32 → read_raw (append_raw v ++ rest) ≡ ok (v, rest)
unfolding read_raw append_raw read_byte
read_raw-append v rest h =
    let (b, r, e, size) = raw_size-header (length v) (v ++ rest) h in
    rw (append_assoc (raw_header (length v)) v rest, e, size, read_count-append v rest)

pub read_map_size-append :
    (n : ℕ) (rest : Bytes) → n < 2 ^ 32 → read_map_size (append_map_header n ++ rest) ≡ ok (n, rest)
unfolding read_map_size append_map_header read_byte read_size
read_map_size-append n rest h = elim (Bool-cases (ltb n 16)) [
  | inl e ↦ rw e (ground arith)
  | inr e ↦ elim (Bool-cases (leb n (2 ^ 16 - 1))) [
    | inl e1 ↦ rw (e, e1) (read_u16-append n rest (ground arith))
    | inr e1 ↦ let z : n % 2 ^ 32 ≡ n = omega arith in rw (e, e1, z) (read_u32-append n rest h)
  ]
]

pub read_array_size-append :
    (n : ℕ) (rest : Bytes)
    → n < 2 ^ 32
    → read_array_size (append_array_header n ++ rest) ≡ ok (n, rest)
unfolding read_array_size append_array_header read_byte read_size
read_array_size-append n rest h = elim (Bool-cases (ltb n 16)) [
  | inl e ↦ rw e (ground arith)
  | inr e ↦ elim (Bool-cases (leb n (2 ^ 16 - 1))) [
    | inl e1 ↦ rw (e, e1) (read_u16-append n rest (ground arith))
    | inr e1 ↦ let z : n % 2 ^ 32 ≡ n = omega arith in rw (e, e1, z) (read_u32-append n rest h)
  ]
]
