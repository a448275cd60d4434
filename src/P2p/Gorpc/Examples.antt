-- ===== src/P2p/Gorpc/Examples.antt =====
-- Short messages.
use teleno.Base.{
  Bool, Bytes, List, [], arith, bytes_key, err, length, nat_key, ok, refl, ◌<◌, ◌∷◌, ◌≡◌, ◌⊎◌,
}
use teleno.P2p.Gorpc.Reader.{decode_error, skip, skip_at, out_of_fuel}
use teleno.P2p.Gorpc.Reader.Depth.{nested, skip-nested}
use teleno.P2p.Gorpc.Reader.Skip.{skip_ends}
use teleno.P2p.Gorpc.Messages.{
  ServiceId, DecodedRequest, encode_request, decode_request, encode_get_blocks_request,
  decode_get_blocks_request, encode_blocks_response, decode_blocks_response,
}
use teleno.P2p.Gorpc.Messages.RoundTrip.{decode-encode_blocks_response}
use teleno.P2p.Gorpc.Messages.Wire.{decode_request-get_blocks}

abbrev peer : Bytes
peer = b'p' ∷ []

abbrev call : Bytes
call = b'c' ∷ []

abbrev blocks : List Bytes
blocks = (1 ∷ 2 ∷ []) ∷ [] ∷ (3 ∷ []) ∷ []

decode_request-get_blocks_example :
    (q : DecodedRequest) × (decode_request
        (encode_request peer call (encode_get_blocks_request (7 ∷ []) 300 70000))
      ≡ ok q)
    × (q.service ≡ record { name = peer; method = call })
    × (decode_get_blocks_request q.args
        ≡ ok (record { head_block_id = 7 ∷ []; start_block_height = 300; num_blocks = 70000 }))
decode_request-get_blocks_example =
    decode_request-get_blocks peer call (7 ∷ []) 300 70000 (refl, omega arith) (refl, omega arith)
      (omega arith) (omega arith) (omega arith)

decode-encode_blocks_response_example :
    decode_blocks_response (encode_blocks_response blocks) ≡ ok blocks
decode-encode_blocks_response_example =
    decode-encode_blocks_response blocks (omega arith)
      (omega arith, (omega arith, (omega arith, tt)))

abbrev service : ServiceId
service = record { name = peer; method = call }

-- An array of two numbers, with one byte behind it.
skip_ends_example :
    ((r : Bytes) × (skip (0x92 ∷ 1 ∷ 2 ∷ 9 ∷ []) ≡ ok r) × (length r < 4))
    ⊎ ((t : Bool) × (skip (0x92 ∷ 1 ∷ 2 ∷ 9 ∷ []) ≡ err (decode_error t)))
skip_ends_example = skip_ends (0x92 ∷ 1 ∷ 2 ∷ 9 ∷ [])

skip-nested_example :
    (length (nested 5) ≡ 6) × (skip (nested 5) ≡ ok []) × (skip_at 5 (nested 5) ≡ err out_of_fuel)
skip-nested_example = skip-nested 5
