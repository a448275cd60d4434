-- ===== src/P2p/Gorpc/Messages/Wire.antt =====
-- A request for blocks, from the client's arguments to the server's.
use teleno.Base.{
  Bytes, [], ap, append-nil, arith, bytes_key, length, nat_key, ok, refl, suc, sym, ℕ, ◌++◌, ◌<◌,
  ◌^◌, ◌∙◌, ◌≡◌,
}
use teleno.P2p.Gorpc.Name
use teleno.P2p.Gorpc.{append_raw, append_uint}
use teleno.P2p.Gorpc.Reader.{skip, skip_at, skip_items}
use teleno.P2p.Gorpc.Reader.Skip.{skip_items_step}
use teleno.P2p.Gorpc.Reader.Values.{skip_at-append_raw, skip_at-append_uint, skip-append_map_header}
use teleno.P2p.Gorpc.Messages.{
  DecodedRequest, encode_request, decode_request, encode_get_blocks_request,
  decode_get_blocks_request,
}
use teleno.P2p.Gorpc.Messages.RoundTrip.{decode-encode_get_blocks_request}
use teleno.P2p.Gorpc.Messages.Responses.{IsName, decode-encode_request}

skip_at_uint_last : (fuel v : ℕ) → skip_at (suc fuel) (append_uint v) ≡ ok []
skip_at_uint_last fuel v =
    ap (skip_at (suc fuel)) (sym (append-nil (append_uint v))) ∙ skip_at-append_uint fuel v []

blocks_request_items :
    (fuel : ℕ) (head_block_id : Bytes) (start_block_height num_blocks : ℕ)
    → length head_block_id < 2 ^ 32
    → skip_items (skip_at (suc fuel)) 6 (
        append_raw Name.head_block_id
        ++ (append_raw head_block_id
            ++ (append_raw Name.start_block_height
                ++ (append_uint start_block_height
                    ++ (append_raw Name.num_blocks ++ append_uint num_blocks)))))
      ≡ ok []
blocks_request_items fuel head_block_id start_block_height num_blocks h =
    let below = skip_at (suc fuel) in
    skip_items_step below 5 _ _ (skip_at-append_raw fuel Name.head_block_id _ (omega arith))
    ∙ skip_items_step below 4 _ _ (skip_at-append_raw fuel head_block_id _ h)
    ∙ skip_items_step below 3 _ _ (skip_at-append_raw fuel Name.start_block_height _ (omega arith))
    ∙ skip_items_step below 2 _ _ (skip_at-append_uint fuel start_block_height _)
    ∙ skip_items_step below 1 _ _ (skip_at-append_raw fuel Name.num_blocks _ (omega arith))
    ∙ skip_items_step below 0 _ _ (skip_at_uint_last fuel num_blocks)
    ∙ unfold skip_items in refl

skip-encode_get_blocks_request :
    (head_block_id : Bytes) (start_block_height num_blocks : ℕ)
    → length head_block_id < 2 ^ 32
    → skip (encode_get_blocks_request head_block_id start_block_height num_blocks) ≡ ok []
unfolding encode_get_blocks_request
skip-encode_get_blocks_request head_block_id start_block_height num_blocks h =
    skip-append_map_header 3 _ (omega arith)
    ∙ blocks_request_items _ head_block_id start_block_height num_blocks h

-- A call of a service with a request for blocks as its arguments is decoded by the server as it was
-- made: the service, the method, and the request that the arguments decode to; names are not empty,
-- and lengths and numbers fit their fields.
pub decode_request-get_blocks :
    (service method head_block_id : Bytes) (start_block_height num_blocks : ℕ)
    → IsName service
    → IsName method
    → length head_block_id < 2 ^ 32
    → start_block_height < 2 ^ 64
    → num_blocks < 2 ^ 32
    → (q : DecodedRequest) × (decode_request (
          encode_request service method
            (encode_get_blocks_request head_block_id start_block_height num_blocks))
        ≡ ok q)
      × (q.service ≡ record { name = service; method = method })
      × (decode_get_blocks_request q.args
          ≡ ok (record {
            head_block_id = head_block_id;
            start_block_height = start_block_height;
            num_blocks = num_blocks;
          }))
decode_request-get_blocks service method head_block_id start_block_height num_blocks hs hm hi ht
      hn =
    (
      record {
        service = record { name = service; method = method };
        args = encode_get_blocks_request head_block_id start_block_height num_blocks;
      },
      decode-encode_request service method
          (encode_get_blocks_request head_block_id start_block_height num_blocks) hs hm
          (skip-encode_get_blocks_request head_block_id start_block_height num_blocks hi),
      refl,
      decode-encode_get_blocks_request head_block_id start_block_height num_blocks hi ht hn,
    )
