-- ===== src/P2p/Gorpc/Messages/Responses.antt =====
-- What is decoded of the envelopes that carry a request, a response or an error.
use teleno.Base.{
  Bytes, [], ap, append_assoc, arith, bytes_key, false, length, nat_key, ok, refl, take, ℕ, ◌++◌,
  ◌-◌, ◌<◌, ◌^◌, ◌∷◌, ◌≡◌,
}
use teleno.P2p.Gorpc.Name
use teleno.P2p.Gorpc.Reader.{skip_at, skip_after, is_one_byte, skip}
use teleno.P2p.Gorpc.Reader.Laws.{read_uint-append, read_raw-append, read_map_size-append}
use teleno.P2p.Gorpc.Messages.{
  ServiceId, append_service_id, read_service_id, service_field, read_fields, is_empty, slice,
  encode_request, decode_request, encode_success_response, encode_error_response, decode_response,
  read_response_header, header_field,
}

-- A name that a service or a method may have: not empty, and its length fits 32 bits.
abbrev pub IsName : Bytes → Type 0
IsName v = (is_empty v ≡ false) × (length v < 2 ^ 32)

read_service_id-append :
    (service method rest : Bytes)
    → IsName service
    → IsName method
    → read_service_id (append_service_id service method ++ rest)
      ≡ ok (record { name = service; method = method }, rest)
unfolding read_service_id append_service_id read_fields service_field
read_service_id-append service method rest hs hm = simp (
  append_assoc,
  λ (r : Bytes). read_map_size-append 2 r (omega arith),
  λ (r : Bytes). read_raw-append Name.name r (omega arith),
  λ (r : Bytes). read_raw-append service r hs.1,
  λ (r : Bytes). read_raw-append Name.method r (omega arith),
  λ (r : Bytes). read_raw-append method r hm.1,
  hs.0,
  hm.0,
)

take_all : (v : Bytes) → take (length v) v ≡ v
take_all [] = refl
take_all (b ∷ v) = ap (λ x. b ∷ x) (take_all v)

slice_all : (v : Bytes) → slice v [] ≡ v
unfolding slice
slice_all v = let z : length v - 0 ≡ length v = omega arith in rw z (take_all v)

-- A request whose arguments are one value is decoded as it was encoded: its service and method, if
-- they are not empty and their lengths fit 32 bits, and the bytes of its arguments.
pub decode-encode_request :
    (service method args : Bytes)
    → IsName service
    → IsName method
    → skip args ≡ ok []
    → decode_request (encode_request service method args)
      ≡ ok (record { service = record { name = service; method = method }; args = args })
unfolding decode_request encode_request
decode-encode_request service method args hs hm one =
    simp (read_service_id-append service method args hs hm, one, slice_all args)

-- A successful response whose payload is one value is decoded as it was encoded, with no error.
pub decode-encode_success_response :
    (service : ServiceId) (payload : Bytes)
    → IsName service.name
    → IsName service.method
    → skip payload ≡ ok []
    → decode_response (encode_success_response service payload)
      ≡ ok (record {
        header = record { service = service; error = []; err_type = 0 };
        payload = payload;
      })
unfolding decode_response encode_success_response read_response_header read_fields header_field
decode-encode_success_response service payload hs hm one = simp (
  λ (r : Bytes). read_map_size-append 1 r (omega arith),
  λ (r : Bytes). read_raw-append Name.service r (omega arith),
  read_service_id-append service.name service.method payload hs hm,
  one,
  slice_all payload,
)

skip_nil : skip (0xc0 ∷ []) ≡ ok []
unfolding skip skip_at skip_after is_one_byte
skip_nil = refl

-- An error response whose names are not empty and whose lengths and type fit their fields is
-- decoded as it was encoded: its service, its message and its type, with the
-- nil value as its payload.
pub decode-encode_error_response :
    (service : ServiceId) (error : Bytes) (err_type : ℕ)
    → IsName service.name
    → IsName service.method
    → length error < 2 ^ 32
    → err_type < 2 ^ 64
    → decode_response (encode_error_response service error err_type)
      ≡ ok (record {
        header = record { service = service; error = error; err_type = err_type };
        payload = 0xc0 ∷ [];
      })
unfolding decode_response encode_error_response read_response_header read_fields header_field
decode-encode_error_response service error err_type hs hm he ht = simp (
  λ (r : Bytes). read_map_size-append 3 r (omega arith),
  λ (r : Bytes). read_raw-append Name.service r (omega arith),
  λ (r : Bytes). read_service_id-append service.name service.method r hs hm,
  λ (r : Bytes). read_raw-append Name.error r (omega arith),
  λ (r : Bytes). read_raw-append error r he,
  λ (r : Bytes). read_raw-append Name.err_type r (omega arith),
  λ (r : Bytes). read_uint-append err_type r ht,
  skip_nil,
  slice_all (0xc0 ∷ []),
)
