-- ===== src/P2p/Gorpc/Messages/RoundTrip.antt =====
-- What is decoded of the requests and responses that were encoded.
use teleno.Base.{
  Bytes, List, [], arith, bytes_key, false, length, ltb, nat_key, ok, refl, ℕ, ◌-◌, ◌<◌, ◌^◌, ◌∷◌,
  ◌≡◌,
}
use teleno.P2p.Gorpc.Name
use teleno.P2p.Gorpc.Reader.Laws.{
  read_raw-append, read_map_size-append, read_uint-append, read_array_size-append,
}
use teleno.P2p.Gorpc.Messages.{
  encode_get_ancestor_block_id_request, decode_get_ancestor_block_id_request, ancestor_field,
  read_fields, decode_fields, decode_get_blocks_request, decode_id_response,
  decode_head_block_response, read_raws, decode_blocks_response, encode_get_blocks_request,
  encode_id_response, encode_head_block_response, append_all, encode_blocks_response,
  blocks_request_field, id_field, head_block_field, blocks_field,
}
use teleno.P2p.Gorpc.Messages.Fields.{read_uint_last, read_raw_last}

-- A request for an ancestor is decoded as it was encoded, if its id fits 32 bits of length and its
-- height 64 bits.
pub decode-encode_get_ancestor_block_id_request :
    (parent_id : Bytes) (child_height : ℕ)
    → length parent_id < 2 ^ 32
    → child_height < 2 ^ 64
    → decode_get_ancestor_block_id_request
        (encode_get_ancestor_block_id_request parent_id child_height)
      ≡ ok (record { parent_id = parent_id; child_height = child_height })
unfolding decode_get_ancestor_block_id_request encode_get_ancestor_block_id_request decode_fields
    read_fields ancestor_field
decode-encode_get_ancestor_block_id_request parent_id child_height hp hc = simp (
  λ (r : Bytes). read_map_size-append 2 r (omega arith),
  λ (r : Bytes). read_raw-append Name.parent_id r (omega arith),
  λ (r : Bytes). read_raw-append parent_id r hp,
  λ (r : Bytes). read_raw-append Name.child_height r (omega arith),
  read_uint_last child_height hc,
)

-- A request for blocks is decoded as it was encoded, if its id fits 32 bits of length, its start
-- height 64 bits and its number of blocks 32 bits.
pub decode-encode_get_blocks_request :
    (head_block_id : Bytes) (start_block_height num_blocks : ℕ)
    → length head_block_id < 2 ^ 32
    → start_block_height < 2 ^ 64
    → num_blocks < 2 ^ 32
    → decode_get_blocks_request
        (encode_get_blocks_request head_block_id start_block_height num_blocks)
      ≡ ok (record {
        head_block_id = head_block_id;
        start_block_height = start_block_height;
        num_blocks = num_blocks;
      })
unfolding decode_get_blocks_request encode_get_blocks_request decode_fields read_fields
    blocks_request_field
decode-encode_get_blocks_request head_block_id start_block_height num_blocks hi hs hn =
    let fits : ltb (2 ^ 32 - 1) num_blocks ≡ false = ground arith in
    simp (
      λ (r : Bytes). read_map_size-append 3 r (omega arith),
      λ (r : Bytes). read_raw-append Name.head_block_id r (omega arith),
      λ (r : Bytes). read_raw-append head_block_id r hi,
      λ (r : Bytes). read_raw-append Name.start_block_height r (omega arith),
      λ (r : Bytes). read_uint-append start_block_height r hs,
      λ (r : Bytes). read_raw-append Name.num_blocks r (omega arith),
      read_uint_last num_blocks (omega arith),
      fits,
    )

-- An id is decoded as it was encoded, if its length fits 32 bits.
pub decode-encode_id_response :
    (id : Bytes) → length id < 2 ^ 32 → decode_id_response (encode_id_response id) ≡ ok id
unfolding decode_id_response encode_id_response decode_fields read_fields id_field
decode-encode_id_response id h = simp (
  λ (r : Bytes). read_map_size-append 1 r (omega arith),
  λ (r : Bytes). read_raw-append Name.id r (omega arith),
  read_raw_last id h,
)

-- A head block is decoded as it was encoded, if its id fits 32 bits of length and its height 64 bits.
pub decode-encode_head_block_response :
    (id : Bytes) (height : ℕ)
    → length id < 2 ^ 32
    → height < 2 ^ 64
    → decode_head_block_response (encode_head_block_response id height)
      ≡ ok (record { id = id; height = height })
unfolding decode_head_block_response encode_head_block_response decode_fields read_fields
    head_block_field
decode-encode_head_block_response id height hi hh = simp (
  λ (r : Bytes). read_map_size-append 2 r (omega arith),
  λ (r : Bytes). read_raw-append Name.id r (omega arith),
  λ (r : Bytes). read_raw-append id r hi,
  λ (r : Bytes). read_raw-append Name.height r (omega arith),
  read_uint_last height hh,
)

-- The lengths of all payloads fit 32 bits.
abbrev pub AllFit : List Bytes → Type 0
AllFit [] = Unit
AllFit (v ∷ vs) = (length v < 2 ^ 32) × AllFit vs

read_raws-append_all :
    (vs : List Bytes) → AllFit vs → read_raws (length vs) (append_all vs) ≡ ok (vs, [])
unfolding read_raws append_all
read_raws-append_all [] h = refl
read_raws-append_all (v ∷ vs) h =
    rw (read_raw-append v (append_all vs) h.0, read_raws-append_all vs h.1)

-- A list of blocks is decoded as it was encoded, if it has fewer than 2 ^ 32 blocks and the length
-- of each fits 32 bits.
pub decode-encode_blocks_response :
    (block_payloads : List Bytes)
    → length block_payloads < 2 ^ 32
    → AllFit block_payloads
    → decode_blocks_response (encode_blocks_response block_payloads) ≡ ok block_payloads
unfolding decode_blocks_response encode_blocks_response decode_fields read_fields blocks_field
decode-encode_blocks_response block_payloads hn h = simp (
  λ (r : Bytes). read_map_size-append 1 r (omega arith),
  λ (r : Bytes). read_raw-append Name.blocks r (omega arith),
  λ (r : Bytes). read_array_size-append (length block_payloads) r hn,
  read_raws-append_all block_payloads h,
)
