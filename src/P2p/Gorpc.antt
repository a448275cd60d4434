-- ===== src/P2p/Gorpc.antt =====
-- p2p/gorpc_codec.cpp: the MessagePack encoding of the peer calls. A string is its bytes, each below
-- 256; what is appended to `out` is returned. Masks and shifts are written as the division and the
-- remainder that they are on such values.
pub mod Reader
pub mod Name
pub mod Messages
mod Examples
use teleno.Base.{
  Bytes, [], bytes_key, if◌then◌else◌, leb, length, ltb, nat_key, ℕ, ◌%◌, ◌++◌, ◌+◌, ◌-◌, ◌/◌, ◌^◌,
  ◌∷◌,
}

unfoldable pub append_u16 : ℕ → Bytes
append_u16 value = (value / 2 ^ 8 % 256) ∷ (value % 256) ∷ []

unfoldable pub append_u32 : ℕ → Bytes
append_u32 value =
    (value / 2 ^ 24 % 256) ∷ (value / 2 ^ 16 % 256) ∷ (value / 2 ^ 8 % 256) ∷ (value % 256) ∷ []

unfoldable pub append_u64 : ℕ → Bytes
append_u64 value = append_u32 (value / 2 ^ 32 % 2 ^ 32) ++ append_u32 (value % 2 ^ 32)

-- 0x80 | size, mp_map16 and mp_map32.
unfoldable pub append_map_header : ℕ → Bytes
append_map_header size =
    if ltb size 16
    then (0x80 + size) ∷ []
    else if leb size (2 ^ 16 - 1)
    then 0xde ∷ append_u16 size
    else 0xdf ∷ append_u32 (size % 2 ^ 32)

-- 0x90 | size, mp_array16 and mp_array32.
unfoldable pub append_array_header : ℕ → Bytes
append_array_header size =
    if ltb size 16
    then (0x90 + size) ∷ []
    else if leb size (2 ^ 16 - 1)
    then 0xdc ∷ append_u16 size
    else 0xdd ∷ append_u32 (size % 2 ^ 32)

-- 0xa0 | size, mp_str16 and mp_str32.
unfoldable pub raw_header : ℕ → Bytes
raw_header size =
    if ltb size 32
    then (0xa0 + size) ∷ []
    else if leb size (2 ^ 16 - 1)
    then 0xda ∷ append_u16 size
    else 0xdb ∷ append_u32 (size % 2 ^ 32)

unfoldable pub append_raw : Bytes → Bytes
append_raw value = raw_header (length value) ++ value

-- The value itself, mp_uint8, mp_uint16, mp_uint32 and mp_uint64.
unfoldable pub append_uint : ℕ → Bytes
append_uint value =
    if leb value 0x7f
    then value ∷ []
    else if leb value (2 ^ 8 - 1)
    then 0xcc ∷ value ∷ []
    else if leb value (2 ^ 16 - 1)
    then 0xcd ∷ append_u16 value
    else if leb value (2 ^ 32 - 1)
    then 0xce ∷ append_u32 value
    else 0xcf ∷ append_u64 value
