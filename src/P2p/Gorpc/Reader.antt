-- ===== src/P2p/Gorpc/Reader.antt =====
-- gorpc_codec.cpp, `Reader`: its state is what it has not read of the string.
pub mod Laws
pub mod Skip
pub mod Values
pub mod Depth
use teleno.Base.{
  Bool, Bytes, Result, [], bytes_key, err, false, if◌then◌else◌, leb, length, ltb, nat_beq, nat_key,
  ok, suc, take, true, zero, ℕ, ◌%◌, ◌*◌, ◌+◌, ◌/◌, ◌>>=◌, ◌>>◌, ◌^◌, ◌||◌, ◌∷◌,
}

-- `DecodeError` with its flag `truncated`; `out_of_fuel` is the model's.
pub data Error : Type 0 where
  decode_error : Bool → Error
  out_of_fuel : Error

abbrev pub malformed : Error
malformed = decode_error false

abbrev pub truncated : Error
truncated = decode_error true

unfoldable pub drop : ℕ → Bytes → Bytes
drop zero raw = raw
drop (suc n) [] = []
drop (suc n) (b ∷ raw) = drop n raw

unfoldable pub read_byte : Bytes → Result Error (ℕ × Bytes)
read_byte [] = err truncated
read_byte (b ∷ raw) = ok (b, raw)

unfoldable pub read_u16 : Bytes → Result Error (ℕ × Bytes)
read_u16 (a ∷ b ∷ raw) = ok (a * 2 ^ 8 + b, raw)
read_u16 raw = err truncated

unfoldable pub read_u32 : Bytes → Result Error (ℕ × Bytes)
read_u32 (a ∷ b ∷ c ∷ d ∷ raw) = ok (a * 2 ^ 24 + b * 2 ^ 16 + c * 2 ^ 8 + d, raw)
read_u32 raw = err truncated

unfoldable pub read_u64 : Bytes → Result Error (ℕ × Bytes)
read_u64 raw = do (hi, r) ← read_u32 raw; (lo, r') ← read_u32 r; ok (hi * 2 ^ 32 + lo, r')

-- A value of a signed type, which must not be negative.
unfoldable pub not_negative : ℕ → ℕ × Bytes → Result Error (ℕ × Bytes)
not_negative half (value, raw) = if ltb value half then ok (value, raw) else err malformed

unfoldable pub read_uint_as : ℕ → Bytes → Result Error (ℕ × Bytes)
read_uint_as b raw =
    if nat_beq b 0xcc
    then read_byte raw
    else if nat_beq b 0xcd
    then read_u16 raw
    else if nat_beq b 0xce
    then read_u32 raw
    else if nat_beq b 0xcf
    then read_u64 raw
    else if nat_beq b 0xd0
    then read_byte raw >>= not_negative (2 ^ 7)
    else if nat_beq b 0xd1
    then read_u16 raw >>= not_negative (2 ^ 15)
    else if nat_beq b 0xd2
    then read_u32 raw >>= not_negative (2 ^ 31)
    else if nat_beq b 0xd3
    then read_u64 raw >>= not_negative (2 ^ 63)
    else err malformed

unfoldable pub read_uint : Bytes → Result Error (ℕ × Bytes)
read_uint raw = do
  (b, r) ← read_byte raw
  if leb b 0x7f then ok (b, r) else if leb 0xe0 b then err malformed else read_uint_as b r

-- ( b & 0xe0 ) == 0xa0, and b & 0x1f.
unfoldable pub read_raw_size : ℕ → Bytes → Result Error (ℕ × Bytes)
read_raw_size b raw =
    if nat_beq (b / 2 ^ 5) 5
    then ok (b % 2 ^ 5, raw)
    else if nat_beq b 0xd9 || nat_beq b 0xc4
    then read_byte raw
    else if nat_beq b 0xda || nat_beq b 0xc5
    then read_u16 raw
    else if nat_beq b 0xdb || nat_beq b 0xc6
    then read_u32 raw
    else err malformed

-- `ensure( count )`, the next `count` bytes, and the step over them.
unfoldable pub read_count : ℕ → Bytes → Result Error (Bytes × Bytes)
read_count count raw =
    if ltb (length raw) count then err truncated else ok (take count raw, drop count raw)

unfoldable pub read_raw : Bytes → Result Error (Bytes × Bytes)
read_raw raw = do (b, r) ← read_byte raw; (size, r') ← read_raw_size b r; read_count size r'

-- The size of a container: `nibble` is the upper half of its short descriptor.
unfoldable pub read_size : ℕ → ℕ → ℕ → ℕ → Bytes → Result Error (ℕ × Bytes)
read_size nibble mp_16 mp_32 b raw =
    if nat_beq (b / 2 ^ 4) nibble
    then ok (b % 2 ^ 4, raw)
    else if nat_beq b mp_16
    then read_u16 raw
    else if nat_beq b mp_32
    then read_u32 raw
    else err malformed

unfoldable pub read_map_size : Bytes → Result Error (ℕ × Bytes)
read_map_size raw = do (b, r) ← read_byte raw; read_size 0x8 0xde 0xdf b r

unfoldable pub read_array_size : Bytes → Result Error (ℕ × Bytes)
read_array_size raw = do (b, r) ← read_byte raw; read_size 0x9 0xdc 0xdd b r

unfoldable pub read_nil : Bytes → Result Error Bytes
read_nil raw = do (b, r) ← read_byte raw; if nat_beq b 0xc0 then ok r else err malformed

-- The tests of `skip` on a descriptor.
unfoldable pub is_one_byte : ℕ → Bool
is_one_byte b = leb b 0x7f || leb 0xe0 b || nat_beq b 0xc0 || nat_beq b 0xc2 || nat_beq b 0xc3

unfoldable pub is_raw : ℕ → Bool
is_raw b =
    nat_beq (b / 2 ^ 5) 5
    || nat_beq b 0xd9
    || nat_beq b 0xda
    || nat_beq b 0xdb
    || nat_beq b 0xc4
    || nat_beq b 0xc5
    || nat_beq b 0xc6

unfoldable pub is_array : ℕ → Bool
is_array b = nat_beq (b / 2 ^ 4) 0x9 || nat_beq b 0xdc || nat_beq b 0xdd

unfoldable pub is_map : ℕ → Bool
is_map b = nat_beq (b / 2 ^ 4) 0x8 || nat_beq b 0xde || nat_beq b 0xdf

unfoldable pub skip_count : ℕ → Bytes → Result Error Bytes
skip_count count raw = do (_, r) ← read_count count raw; ok r

-- The numbers of fixed width.
unfoldable pub skip_number : ℕ → Bytes → Result Error Bytes
skip_number b raw =
    if nat_beq b 0xcc || nat_beq b 0xd0
    then skip_count 1 raw
    else if nat_beq b 0xcd || nat_beq b 0xd1
    then skip_count 2 raw
    else if nat_beq b 0xce || nat_beq b 0xd2 || nat_beq b 0xca
    then skip_count 4 raw
    else if nat_beq b 0xcf || nat_beq b 0xd3 || nat_beq b 0xcb
    then skip_count 8 raw
    else err malformed

-- `for( size_t i = 0; i < size; ++i ) skip();`, over the `skip` of the level below.
unfoldable pub skip_items : (Bytes → Result Error Bytes) → ℕ → Bytes → Result Error Bytes
skip_items below zero raw = ok raw
skip_items below (suc n) raw = elim (below raw) [ err e ↦ err e | ok r ↦ skip_items below n r ]

-- What `skip` does after it has read the descriptor.
unfoldable pub skip_after : (Bytes → Result Error Bytes) → ℕ → Bytes → Result Error Bytes
skip_after below b raw =
    if is_one_byte b
    then ok raw
    else if is_raw b
    then (do (size, r) ← read_raw_size b raw; skip_count size r)
    else if is_array b
    then (do (size, r) ← read_size 0x9 0xdc 0xdd b raw; skip_items below size r)
    else if is_map b
    then (do (size, r) ← read_size 0x8 0xde 0xdf b raw; skip_items below (size * 2) r)
    else skip_number b raw

-- Fuel bounds the depth of the recursion.
unfoldable pub skip_at : ℕ → Bytes → Result Error Bytes
skip_at zero raw = err out_of_fuel
skip_at (suc fuel) [] = err truncated
skip_at (suc fuel) (b ∷ raw) = skip_after (skip_at fuel) b raw

-- A value stands at least one level per byte above what it holds.
unfoldable pub skip : Bytes → Result Error Bytes
skip raw = skip_at (suc (length raw)) raw
