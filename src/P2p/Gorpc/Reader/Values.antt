-- ===== src/P2p/Gorpc/Reader/Values.antt =====
-- What was appended is one value: `skip` passes over it.
use teleno.Base.{
  Bool-cases, Bytes, Result, [], append_assoc, arith, bytes_key, false, inl, inr, leb, length, ltb,
  nat_key, ok, refl, subst, suc, true, ℕ, ◌%◌, ◌*◌, ◌++◌, ◌+◌, ◌-◌, ◌<◌, ◌^◌, ◌∷◌, ◌≡◌,
}
use teleno.P2p.Gorpc.{
  append_u16, append_u32, append_u64, raw_header, append_raw, append_uint, append_map_header,
}
use teleno.P2p.Gorpc.Reader.{
  Error, read_raw_size, read_size, skip_count, skip_number, skip_items, skip_after, skip_at, skip,
  is_one_byte, is_raw, is_array, is_map,
}
use teleno.P2p.Gorpc.Reader.Laws.{read_u16-append, read_u32-append, read_count-append}

-- The descriptor of a string, as `skip` and `read_raw` read it.
raw_descriptor :
    (n : ℕ) (rest : Bytes)
    → n < 2 ^ 32
    → (b : ℕ) × (r : Bytes) × (raw_header n ++ rest ≡ b ∷ r)
      × (read_raw_size b r ≡ ok (n, rest))
      × (is_one_byte b ≡ false)
      × (is_raw b ≡ true)
unfolding raw_header read_raw_size is_one_byte is_raw
raw_descriptor n rest h = elim (Bool-cases (ltb n 32)) [
  | inl e ↦ (0xa0 + n, rest, rw e, ground arith, ground arith, ground arith)
  | inr e ↦ elim (Bool-cases (leb n (2 ^ 16 - 1))) [
    | inl e1 ↦
        (0xda, append_u16 n ++ rest, rw (e, e1), read_u16-append n rest (ground arith), refl, refl)
    | inr e1 ↦
        let z : n % 2 ^ 32 ≡ n = omega arith in
        (0xdb, append_u32 n ++ rest, rw (e, e1, z), read_u32-append n rest h, refl, refl)
  ]
]

pub skip_at-append_raw :
    (fuel : ℕ) (v rest : Bytes)
    → length v < 2 ^ 32
    → skip_at (suc fuel) (append_raw v ++ rest) ≡ ok rest
unfolding skip_at skip_after append_raw skip_count
skip_at-append_raw fuel v rest h =
    let (b, r, e, size, one, kind) = raw_descriptor (length v) (v ++ rest) h in
    rw (append_assoc (raw_header (length v)) v rest, e, one, kind, size, read_count-append v rest)

skip_count-exact : (v rest : Bytes) (n : ℕ) → length v ≡ n → skip_count n (v ++ rest) ≡ ok rest
unfolding skip_count
skip_count-exact v rest n e =
    subst (λ k. skip_count k (v ++ rest) ≡ ok rest) e (rw (read_count-append v rest))

pub skip_at-append_uint :
    (fuel v : ℕ) (rest : Bytes) → skip_at (suc fuel) (append_uint v ++ rest) ≡ ok rest
unfolding skip_at skip_after append_uint is_one_byte skip_number is_raw is_array is_map
skip_at-append_uint fuel v rest = elim (Bool-cases (leb v 0x7f)) [
  | inl e ↦ rw e (rw e)
  | inr e ↦ elim (Bool-cases (leb v (2 ^ 8 - 1))) [
    | inl e1 ↦ rw (e, e1) (skip_count-exact (v ∷ []) rest 1 refl)
    | inr e1 ↦ elim (Bool-cases (leb v (2 ^ 16 - 1))) [
      | inl e2 ↦ rw (e, e1, e2) (skip_count-exact (append_u16 v) rest 2 (unfold append_u16 in refl))
      | inr e2 ↦ elim (Bool-cases (leb v (2 ^ 32 - 1))) [
        | inl e3 ↦
            rw (e, e1, e2, e3) (skip_count-exact (append_u32 v) rest 4 (unfold append_u32 in refl))
        | inr e3 ↦
            rw (e, e1, e2, e3)
              (skip_count-exact (append_u64 v) rest 8 (unfold append_u64 append_u32 in refl))
      ]
    ]
  ]
]

read_size_short :
    (n : ℕ) (rest : Bytes) → n < 16 → read_size 0x8 0xde 0xdf (0x80 + n) rest ≡ ok (n, rest)
unfolding read_size
read_size_short n rest h = ground arith

skip_after_map :
    (below : Bytes → Result Error Bytes) (n : ℕ) (rest : Bytes)
    → n < 16
    → skip_after below (0x80 + n) rest ≡ skip_items below (n * 2) rest
unfolding skip_after
skip_after_map below n rest h =
    let one : is_one_byte (0x80 + n) ≡ false = unfold is_one_byte in ground arith in
    let raw : is_raw (0x80 + n) ≡ false = unfold is_raw in ground arith in
    let array : is_array (0x80 + n) ≡ false = unfold is_array in ground arith in
    let map' : is_map (0x80 + n) ≡ true = unfold is_map in ground arith in
    rw (one, raw, array, map', read_size_short n rest h)

-- A map of fewer than 16 fields: its fields are passed over one level below.
pub skip-append_map_header :
    (n : ℕ) (rest : Bytes)
    → n < 16
    → skip (append_map_header n ++ rest) ≡ skip_items (skip_at (suc (length rest))) (n * 2) rest
unfolding skip skip_at append_map_header
skip-append_map_header n rest h =
    let e : ltb n 16 ≡ true = ground arith in
    rw e (skip_after_map (skip_at (suc (length rest))) n rest h)
