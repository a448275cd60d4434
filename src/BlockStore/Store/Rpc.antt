-- ===== src/BlockStore/Store/Rpc.antt =====
-- block_store.cpp: the RPC methods, `add_block` and the broadcast handler. Locks are not modelled: a
-- method runs alone.
use teleno.Base.{
  Bool, Bytes, List, Option, Result, [], bytes_key, err, if◌then◌else◌, is_some, leb, length, ltb,
  min, nat_beq, nat_key, none, ok, or_throw, replicate, reverse, some, take, ℕ, ◌%◌, ◌+◌, ◌-◌,
  ◌>>=◌, ◌^◌, ◌∷◌,
}
use teleno.BlockStore.SkipList.{get_previous_heights}
use teleno.BlockStore.Store.{
  Header, Block, Topology, Codec, Store, Error, runtime_error, block_not_present, unexpected_height,
  BlockItem, make_item, get_record_bytes, put_record_bytes, get_highest_block_topology,
  update_highest_block, readable, fill_blocks, get_ancestor_id_at_height,
}

abbrev pub max_block_request : ℕ
max_block_request = 1000

-- 34 bytes of zero.
abbrev genesis_id : Bytes
genesis_id = replicate 34 0

pub record AddRequest : Type 0 where
  pub block_to_add : Option Block
  pub receipt_to_add : Option Bytes

module _ {Raw : Type 0} (c : Codec Raw) where
  unfoldable pub initialize : Store Raw → Store Raw
  initialize s = elim (get_highest_block_topology c s) [
    | some t ↦ s
    | none ↦ update_highest_block c (record { id = genesis_id; height = 0; previous = [] }) s
  ]

  unfoldable pub get_highest_block : Store Raw → Option Topology
  get_highest_block s = get_highest_block_topology c s

  items_of : Store Raw → List Bytes → Bool → Bool → List BlockItem
  items_of s [] return_block return_receipt = []
  items_of s (block_id ∷ ids) return_block return_receipt =
      let rest = items_of s ids return_block return_receipt in
      elim (readable c s block_id) [
        | none ↦ rest
        | some r ↦ make_item return_block return_receipt r ∷ rest
      ]

  unfoldable pub get_blocks_by_id : Store Raw → List Bytes → Bool → Bool → List BlockItem
  unfolding items_of
  get_blocks_by_id s ids return_block return_receipt =
      items_of s (take (min (length ids) max_block_request) ids) return_block return_receipt

  -- The body of the `try` block. `end_height` is computed in uint64_t.
  unfoldable pub block_range :
      Store Raw → Bytes → ℕ → ℕ → Bool → Bool → Result Error (List BlockItem)
  block_range s head_block_id start num_blocks return_block return_receipt = do
    start_id ← get_ancestor_id_at_height c s head_block_id start
    if leb num_blocks 1 then ok (fill_blocks c s start_id 1 return_block return_receipt) else do
      end_id ← get_ancestor_id_at_height c s head_block_id ((start + num_blocks - 1) % 2 ^ 64)
      ok (reverse (fill_blocks c s end_id num_blocks return_block return_receipt))

  catch_missing : Result Error (List BlockItem) → Result Error (List BlockItem)
  catch_missing (err block_not_present) = ok []
  catch_missing (err unexpected_height) = ok []
  catch_missing r = r

  unfoldable pub get_blocks_by_height :
      Store Raw → Bytes → ℕ → ℕ → Bool → Bool → Result Error (List BlockItem)
  unfolding block_range catch_missing
  get_blocks_by_height s head_block_id start requested return_block return_receipt =
      let num_blocks = min requested max_block_request in
      if nat_beq start 0
      then ok []
      else if nat_beq num_blocks 0
      then ok []
      else catch_missing (block_range s head_block_id start num_blocks return_block return_receipt)

  -- The pointers of a new block; an exception of the traversal means that the block is rejected.
  unfoldable pub previous_ids : Store Raw → Header → List ℕ → Result Error (List Bytes)
  previous_ids s header [] = ok []
  previous_ids s header (h ∷ hs) = do
    a ←
        if nat_beq h (header.height - 1)
        then ok header.previous
        else get_ancestor_id_at_height c s header.previous h
    rest ← previous_ids s header hs
    ok (a ∷ rest)

  unfoldable pub skip_pointers : Store Raw → Header → Result Error (List Bytes)
  unfolding previous_ids
  skip_pointers s header =
      if ltb 1 header.height
      then previous_ids s header (get_previous_heights header.height)
      else if nat_beq header.height 1
      then ok (header.previous ∷ [])
      else ok []

  unfoldable pub raise_highest : Bytes → Header → Store Raw → Store Raw
  raise_highest block_id header s = elim (get_highest_block_topology c s) [
    | none ↦ s
    | some t ↦
        if ltb t.height header.height
        then update_highest_block c
            (record { id = block_id; height = header.height; previous = header.previous }) s
        else s
  ]

  unfoldable pub store_block : Block → Header → Option Bytes → Store Raw → Store Raw
  unfolding skip_pointers raise_highest
  store_block block header receipt s = elim (skip_pointers s header) [
    | err e ↦ s
    | ok ids ↦ raise_highest block.id header (
        put_record_bytes c block.id
          (c.serialize (record {
            block_id = block.id;
            block_height = header.height;
            previous_block_ids = ids;
            block = some block;
            receipt = receipt;
          }))
          s)
  ]

  unfoldable pub add_block : AddRequest → Store Raw → Result Error (Store Raw)
  unfolding store_block
  add_block req s = do
    block ← or_throw req.block_to_add runtime_error
    header ← or_throw block.header runtime_error
    ok (
        if is_some (get_record_bytes c s block.id)
        then s
        else store_block block header req.receipt_to_add s)

  -- `handle_block_accepted`: an exception is logged and dropped.
  unfoldable pub handle_block_accepted : AddRequest → Store Raw → Store Raw
  unfolding add_block
  handle_block_accepted ba s = elim ba.block_to_add [
    | none ↦ s
    | some b ↦ elim (add_block ba s) [ ok t ↦ t | err e ↦ s ]
  ]
