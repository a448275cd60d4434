-- ===== src/P2p/Gorpc/Messages.antt =====
-- gorpc_codec.cpp: the requests and responses. A message is a map of named fields.
pub mod Fields
pub mod RoundTrip
pub mod Responses
pub mod Wire
use teleno.Base.{
  Bool, Bytes, List, Result, [], bytes_key, false, if◌then◌else◌, koinos_assert, length, ltb,
  nat_key, not, ok, suc, take, true, zero, ℕ, ◌++◌, ◌-◌, ◌==◌, ◌>>=◌, ◌>>◌, ◌^◌, ◌||◌, ◌∷◌,
}
use teleno.P2p.Gorpc.Name
use teleno.P2p.Gorpc.{append_map_header, append_array_header, append_raw, append_uint}
use teleno.P2p.Gorpc.Reader.{
  Error, malformed, read_uint, read_raw, read_map_size, read_array_size, skip,
}

pub record ServiceId : Type 0 where
  pub name : Bytes
  pub method : Bytes

-- `ErrorType` is an enumeration over `uint64_t`, and any number is cast to it.
pub record ResponseHeader : Type 0 where
  pub service : ServiceId
  pub error : Bytes
  pub err_type : ℕ

pub record Response : Type 0 where
  pub header : ResponseHeader
  pub payload : Bytes

pub record DecodedRequest : Type 0 where
  pub service : ServiceId
  pub args : Bytes

pub record HeadBlockResponse : Type 0 where
  pub id : Bytes
  pub height : ℕ

pub record AncestorBlockIdRequest : Type 0 where
  pub parent_id : Bytes
  pub child_height : ℕ

pub record BlocksRequest : Type 0 where
  pub head_block_id : Bytes
  pub start_block_height : ℕ
  pub num_blocks : ℕ

unfoldable pub append_service_id : Bytes → Bytes → Bytes
append_service_id service method =
    append_map_header 2
    ++ (append_raw Name.name
        ++ (append_raw service ++ (append_raw Name.method ++ append_raw method)))

unfoldable pub encode_empty_request : Bytes
encode_empty_request = append_map_header 0

unfoldable pub encode_get_ancestor_block_id_request : Bytes → ℕ → Bytes
encode_get_ancestor_block_id_request parent_id child_height =
    append_map_header 2
    ++ (append_raw Name.parent_id
        ++ (append_raw parent_id ++ (append_raw Name.child_height ++ append_uint child_height)))

unfoldable pub encode_get_blocks_request : Bytes → ℕ → ℕ → Bytes
encode_get_blocks_request head_block_id start_block_height num_blocks =
    append_map_header 3
    ++ (append_raw Name.head_block_id
        ++ (append_raw head_block_id
            ++ (append_raw Name.start_block_height
                ++ (append_uint start_block_height
                    ++ (append_raw Name.num_blocks ++ append_uint num_blocks)))))

unfoldable pub encode_id_response : Bytes → Bytes
encode_id_response id = append_map_header 1 ++ (append_raw Name.id ++ append_raw id)

unfoldable pub encode_head_block_response : Bytes → ℕ → Bytes
encode_head_block_response id height =
    append_map_header 2
    ++ (append_raw Name.id ++ (append_raw id ++ (append_raw Name.height ++ append_uint height)))

unfoldable pub append_all : List Bytes → Bytes
append_all [] = []
append_all (payload ∷ payloads) = append_raw payload ++ append_all payloads

unfoldable pub encode_blocks_response : List Bytes → Bytes
encode_blocks_response block_payloads =
    append_map_header 1
    ++ (append_raw Name.blocks
        ++ (append_array_header (length block_payloads) ++ append_all block_payloads))

unfoldable pub encode_request : Bytes → Bytes → Bytes → Bytes
encode_request service method msgpack_args = append_service_id service method ++ msgpack_args

unfoldable pub encode_success_response : ServiceId → Bytes → Bytes
encode_success_response service msgpack_payload =
    append_map_header 1
    ++ (append_raw Name.service
        ++ (append_service_id service.name service.method ++ msgpack_payload))

-- The payload of an error is nil.
unfoldable pub encode_error_response : ServiceId → Bytes → ℕ → Bytes
encode_error_response service error err_type =
    append_map_header 3
    ++ (append_raw Name.service
        ++ (append_service_id service.name service.method
            ++ (append_raw Name.error
                ++ (append_raw error
                    ++ (append_raw Name.err_type ++ (append_uint err_type ++ (0xc0 ∷ [])))))))

-- The loop that every decoder runs over the fields of a map: it reads a key and hands it to the
-- decoder's branches.
unfoldable pub read_fields {ℓ} :
    {S : Type ℓ}
    → (Bytes → S → Bytes → Result Error (S × Bytes))
    → ℕ
    → S
    → Bytes
    → Result Error (S × Bytes)
read_fields field zero s raw = ok (s, raw)
read_fields field (suc n) s raw = do
  (key, r) ← read_raw raw
  (s', r') ← field key s r
  read_fields field n s' r'

-- The branch for a key that the decoder does not know.
unfoldable pub skip_field {ℓ} : {S : Type ℓ} → S → Bytes → Result Error (S × Bytes)
skip_field s raw = do r ← skip raw; ok (s, r)

unfoldable pub service_field : Bytes → ServiceId → Bytes → Result Error (ServiceId × Bytes)
service_field key s raw =
    if key == Name.name
    then (do (v, r) ← read_raw raw; ok (record s { name = v }, r))
    else if key == Name.method
    then (do (v, r) ← read_raw raw; ok (record s { method = v }, r))
    else skip_field s raw

abbrev pub is_empty : Bytes → Bool
is_empty [] = true
is_empty (b ∷ bs) = false

unfoldable pub read_service_id : Bytes → Result Error (ServiceId × Bytes)
read_service_id raw = do
  (map_size, r) ← read_map_size raw
  (service, r') ← read_fields service_field map_size (record { name = []; method = [] }) r
  koinos_assert (not (is_empty service.name || is_empty service.method)) malformed
  ok (service, r')

unfoldable pub header_field : Bytes → ResponseHeader → Bytes → Result Error (ResponseHeader × Bytes)
header_field key s raw =
    if key == Name.service
    then (do (v, r) ← read_service_id raw; ok (record s { service = v }, r))
    else if key == Name.error
    then (do (v, r) ← read_raw raw; ok (record s { error = v }, r))
    else if key == Name.err_type
    then (do (v, r) ← read_uint raw; ok (record s { err_type = v }, r))
    else skip_field s raw

abbrev pub no_header : ResponseHeader
no_header = record { service = record { name = []; method = [] }; error = []; err_type = 0 }

unfoldable pub read_response_header : Bytes → Result Error (ResponseHeader × Bytes)
read_response_header raw = do
  (map_size, r) ← read_map_size raw
  read_fields header_field map_size no_header r

-- The bytes between two positions: `rest` is what is left of `raw`.
unfoldable pub slice : Bytes → Bytes → Bytes
slice raw rest = take (length raw - length rest) raw

unfoldable pub decode_request : Bytes → Result Error DecodedRequest
decode_request raw = do
  (service, r) ← read_service_id raw
  r' ← skip r
  ok (record { service = service; args = slice r r' })

unfoldable pub decode_response : Bytes → Result Error Response
decode_response raw = do
  (header, r) ← read_response_header raw
  r' ← skip r
  ok (record { header = header; payload = slice r r' })

-- A map of fields with nothing behind it.
unfoldable pub decode_fields {ℓ} :
    {S : Type ℓ} → (Bytes → S → Bytes → Result Error (S × Bytes)) → S → Bytes → Result Error S
decode_fields field s payload = do
  (map_size, r) ← read_map_size payload
  (s', r') ← read_fields field map_size s r
  koinos_assert (is_empty r') malformed
  ok s'

unfoldable pub ancestor_field :
    Bytes → AncestorBlockIdRequest → Bytes → Result Error (AncestorBlockIdRequest × Bytes)
ancestor_field key s raw =
    if key == Name.parent_id
    then (do (v, r) ← read_raw raw; ok (record s { parent_id = v }, r))
    else if key == Name.child_height
    then (do (v, r) ← read_uint raw; ok (record s { child_height = v }, r))
    else skip_field s raw

unfoldable pub decode_get_ancestor_block_id_request : Bytes → Result Error AncestorBlockIdRequest
decode_get_ancestor_block_id_request payload =
    decode_fields ancestor_field (record { parent_id = []; child_height = 0 }) payload

unfoldable pub blocks_request_field :
    Bytes → BlocksRequest → Bytes → Result Error (BlocksRequest × Bytes)
blocks_request_field key s raw =
    if key == Name.head_block_id
    then (do (v, r) ← read_raw raw; ok (record s { head_block_id = v }, r))
    else if key == Name.start_block_height
    then (do (v, r) ← read_uint raw; ok (record s { start_block_height = v }, r))
    else if key == Name.num_blocks
    then (do
      (v, r) ← read_uint raw
      koinos_assert (not (ltb (2 ^ 32 - 1) v)) malformed
      ok (record s { num_blocks = v }, r))
    else skip_field s raw

unfoldable pub decode_get_blocks_request : Bytes → Result Error BlocksRequest
decode_get_blocks_request payload =
    decode_fields blocks_request_field
      (record { head_block_id = []; start_block_height = 0; num_blocks = 0 }) payload

unfoldable pub id_field : Bytes → Bytes → Bytes → Result Error (Bytes × Bytes)
id_field key id raw = if key == Name.id then read_raw raw else skip_field id raw

unfoldable pub decode_id_response : Bytes → Result Error Bytes
decode_id_response payload = decode_fields id_field [] payload

unfoldable pub head_block_field :
    Bytes → HeadBlockResponse → Bytes → Result Error (HeadBlockResponse × Bytes)
head_block_field key s raw =
    if key == Name.id
    then (do (v, r) ← read_raw raw; ok (record s { id = v }, r))
    else if key == Name.height
    then (do (v, r) ← read_uint raw; ok (record s { height = v }, r))
    else skip_field s raw

unfoldable pub decode_head_block_response : Bytes → Result Error HeadBlockResponse
decode_head_block_response payload =
    decode_fields head_block_field (record { id = []; height = 0 }) payload

unfoldable pub read_raws : ℕ → Bytes → Result Error (List Bytes × Bytes)
read_raws zero raw = ok ([], raw)
read_raws (suc n) raw = do (v, r) ← read_raw raw; (vs, r') ← read_raws n r; ok (v ∷ vs, r')

-- The blocks of a second field of that name are put behind those of the first.
unfoldable pub blocks_field : Bytes → List Bytes → Bytes → Result Error (List Bytes × Bytes)
blocks_field key blocks raw =
    if key == Name.blocks
    then (do
      (block_count, r) ← read_array_size raw
      (more, r') ← read_raws block_count r
      ok (blocks ++ more, r'))
    else skip_field blocks raw

unfoldable pub decode_blocks_response : Bytes → Result Error (List Bytes)
decode_blocks_response payload = decode_fields blocks_field [] payload
