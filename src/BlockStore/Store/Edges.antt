-- ===== src/BlockStore/Store/Edges.antt =====
-- The store at its edges: ranges that pass the head, blocks of odd height with no parent, blocks
-- that are stored already.
use teleno.BlockStore.SkipList.Bounds.{get_previous_heights-odd}
use teleno.BlockStore.Store.Add.{new_record, stored, add_block_run, read_record-stored}
use teleno.Base.{
  Bool, Bool-cases, Bytes, Option, [], arith, beq_refl, bytes_key, err, inl, inr, leb, leb→le, min,
  nat_key, none, ok, refl, some, ℕ, ◌%◌, ◌+◌, ◌-◌, ◌<◌, ◌^◌, ◌∷◌, ◌≡◌, ◌≤◌,
}
use teleno.BlockStore.SkipList.{get_previous_height_index}
use teleno.BlockStore.Store.{
  Codec, Store, Header, Block, BlockRecord, invalid_argument, read_record, get_record_bytes, hop,
  walk, walk_fuel, get_ancestor_id_at_height,
}
use teleno.BlockStore.Store.Linked.{AllLinked, get_ancestor-finds}
use teleno.BlockStore.Store.Rpc.{
  add_block, skip_pointers, previous_ids, get_blocks_by_height, block_range, max_block_request,
}

module _ {Raw : Type 0} (c : Codec Raw) where
  get_ancestor-above :
      (s : Store Raw) (id : Bytes) (r : BlockRecord) (t : ℕ)
      → read_record c s id ≡ ok r
      → r.block_height < t
      → get_ancestor_id_at_height c s id t ≡ err invalid_argument
  unfolding get_ancestor_id_at_height walk_fuel walk hop get_previous_height_index
  get_ancestor-above s id r t rd lt = ground arith

  past_head :
      (s : Store Raw) (head : Bytes) (r : BlockRecord) (start num : ℕ) (b b' : Bool) (a : Bytes)
      → read_record c s head ≡ ok r
      → get_ancestor_id_at_height c s head start ≡ ok a
      → r.block_height < start + num - 1
      → start + num - 1 < 2 ^ 64
      → start ≤ r.block_height
      → block_range c s head start num b b' ≡ err invalid_argument
  unfolding block_range
  past_head s head r start num b b' a rd run past fits low =
      let z : (start + num - 1) % 2 ^ 64 ≡ start + num - 1 = omega arith in
      let up = get_ancestor-above s head r ((start + num - 1) % 2 ^ 64) rd (rw z past) in
      ground arith

  -- On a linked store, a request by height under a stored head, from a height of at least 1 on and
  -- for at least one block, whose last height lies above the head and fits 64 bits, throws
  -- `std::invalid_argument`, which is not caught: no block is returned.
  pub get_blocks_by_height_past_head :
      (s : Store Raw) (head : Bytes) (r : BlockRecord) (start requested : ℕ) (b b' : Bool)
      → AllLinked c s
      → read_record c s head ≡ ok r
      → 1 ≤ start
      → 1 ≤ requested
      → r.block_height < start + min requested max_block_request - 1
      → start + min requested max_block_request - 1 < 2 ^ 64
      → get_blocks_by_height c s head start requested b b' ≡ err invalid_argument
  unfolding get_blocks_by_height block_range
  get_blocks_by_height_past_head s head r start requested b b' w rd one some_blocks past fits =
      elim (Bool-cases (leb start r.block_height)) [
        | inl below ↦
            let (a, run, anc) =
              get_ancestor-finds c s w head r start rd (leb→le start r.block_height below) in
            ground (
              arith,
              past_head s head r start (min requested max_block_request) b b' a rd run past fits
                  (leb→le start r.block_height below),
            )
        | inr above ↦ ground (arith, get_ancestor-above s head r start rd)
      ]

  odd_pointers :
      (s : Store Raw) (header : Header)
      → 1 < header.height
      → header.height % 2 ≡ 1
      → skip_pointers c s header ≡ ok (header.previous ∷ [])
  unfolding skip_pointers previous_ids
  odd_pointers s header high odd = ground (arith, get_previous_heights-odd header.height odd)

  -- A block of odd height from 3 on, not stored yet, is stored whether its parent is or not.
  pub add_block_odd :
      (s : Store Raw) (block : Block) (header : Header) (receipt : Option Bytes)
      → block.header ≡ some header
      → get_record_bytes c s block.id ≡ none
      → 1 < header.height
      → header.height % 2 ≡ 1
      → (t : Store Raw) × (r : BlockRecord) × (add_block c
            (record { block_to_add = some block; receipt_to_add = receipt })
            s
          ≡ ok t)
        × (read_record c t block.id ≡ ok r)
        × (r.previous_block_ids ≡ header.previous ∷ [])
  add_block_odd s block header receipt h e high odd =
      let r = new_record c block header (header.previous ∷ []) receipt in
      (
        stored c s block header (header.previous ∷ []) receipt,
        r,
        add_block_run c s block header (header.previous ∷ []) receipt h e
            (odd_pointers s header high odd),
        rw (
          read_record-stored c s block header (header.previous ∷ []) receipt block.id,
          beq_refl block.id,
        ),
        refl,
      )

  -- A block that is stored already is left as it is, and the store with it.
  pub add_block_again :
      (s : Store Raw) (block : Block) (header : Header) (receipt : Option Bytes) (raw : Raw)
      → block.header ≡ some header
      → get_record_bytes c s block.id ≡ some raw
      → add_block c (record { block_to_add = some block; receipt_to_add = receipt }) s ≡ ok s
  unfolding add_block
  add_block_again s block header receipt raw h e = ground arith
