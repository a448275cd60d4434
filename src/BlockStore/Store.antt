-- ===== src/BlockStore/Store.antt =====
-- block_store/block_store.cpp over the two RocksDB column families it is given. RocksDB is a
-- parameter of the program: the families are maps of serialised values, and its own failures are
-- not modelled. A protobuf message is a record of what this file reads of it; its serialisation is
-- generated code, a `Codec`.
pub mod Ancestors
pub mod Linked
pub mod Rpc
pub mod Grow
pub mod Add
pub mod Edges
use teleno.Base.{
  Bool, Bytes, List, Option, Result, [], bytes_key, err, false, get_elem?, if◌then◌else◌,
  koinos_assert, nat_beq, nat_key, negsuc, none, not, ok, or_throw, pos, some, suc, true, zero, ℕ,
  ℤ, ◌%◌, ◌+◌, ◌-◌, ◌>>=◌, ◌>>◌, ◌^◌, ◌∷◌, ◌≡◌,
}
use teleno.StdMap
use teleno.StdMap.{Map}
use teleno.BlockStore.SkipList.{get_previous_heights, get_previous_height_index}

pub record Header : Type 0 where
  pub height : ℕ
  pub previous : Bytes

pub record Block : Type 0 where
  pub id : Bytes
  pub header : Option Header
  pub body : Bytes

pub record BlockRecord : Type 0 where
  pub block_id : Bytes
  pub block_height : ℕ
  pub previous_block_ids : List Bytes
  pub block : Option Block
  pub receipt : Option Bytes

pub record Topology : Type 0 where
  pub id : Bytes
  pub height : ℕ
  pub previous : Bytes

-- `SerializeToString`, `ParseFromString` and `empty`, with what the store relies on: parsing what
-- was serialised gives it back, and a serialised record is not empty.
pub record Codec (Raw : Type 0) : Type 0 where
  pub is_empty : Raw → Bool
  pub serialize : BlockRecord → Raw
  pub parse : Raw → Option BlockRecord
  pub parse-serialize : (r : BlockRecord) → parse (serialize r) ≡ some r
  pub is_empty-serialize : (r : BlockRecord) → is_empty (serialize r) ≡ false
  pub serialize_topology : Topology → Raw
  pub parse_topology : Raw → Option Topology
  pub parse-serialize_topology : (t : Topology) → parse_topology (serialize_topology t) ≡ some t

pub record Store (Raw : Type 0) : Type 0 where
  pub blocks : Map Bytes Raw
  pub meta : Option Raw

-- The exceptions, and `out_of_fuel` of the model's loop, which no call meets.
pub data Error : Type 0 where
  block_not_present unexpected_height db_error invalid_argument runtime_error : Error
  out_of_fuel : Error

abbrev pub height_mismatch : Option ℕ → ℕ → Bool
height_mismatch none height = false
height_mismatch (some expected) height = not (nat_beq height expected)

unfoldable pub nth_id : List Bytes → ℤ → Option Bytes
nth_id ids (pos i) = get_elem? ids i
nth_id ids (negsuc i) = none

-- What one round of the traversal finds: the ancestor, or where to go on and at which height.
pub data Hop : Type 0 where
  found : Bytes → Hop
  follow : Bytes → ℕ → Hop

pub record BlockItem : Type 0 where
  pub block_id : Bytes
  pub block_height : ℕ
  pub block : Option Block
  pub receipt : Option Bytes

unfoldable pub make_item : Bool → Bool → BlockRecord → BlockItem
make_item return_block return_receipt r = record {
  block_id = r.block_id;
  block_height = r.block_height;
  block = if return_block then r.block else none;
  receipt = if return_receipt then r.receipt else none;
}

abbrev pub first_id : List Bytes → Bytes
first_id [] = []
first_id (p ∷ ps) = p

abbrev pub is_nil : Bytes → Bool
is_nil [] = true
is_nil (b ∷ bs) = false

-- `expected_height` is uint64_t: 0 - 1 wraps.
abbrev pub height_below : ℕ → ℕ
height_below h = (h + 2 ^ 64 - 1) % 2 ^ 64

module _ {Raw : Type 0} (c : Codec Raw) where
  -- `none` for the empty string, which a missing key reads as.
  unfoldable pub get_record_bytes : Store Raw → Bytes → Option Raw
  get_record_bytes s block_id = elim (StdMap.lookup block_id s.blocks) [
    | none ↦ none
    | some raw ↦ if c.is_empty raw then none else some raw
  ]

  unfoldable pub put_record_bytes : Bytes → Raw → Store Raw → Store Raw
  put_record_bytes block_id raw s = record s {
    blocks = StdMap.insert_or_assign block_id raw s.blocks;
  }

  unfoldable pub get_highest_block_topology : Store Raw → Option Topology
  get_highest_block_topology s = elim s.meta [ none ↦ none | some raw ↦ c.parse_topology raw ]

  unfoldable pub update_highest_block : Topology → Store Raw → Store Raw
  update_highest_block t s = record s { meta = some (c.serialize_topology t) }

  -- The record at an id, or what the traversal throws.
  unfoldable pub read_record : Store Raw → Bytes → Result Error BlockRecord
  unfolding get_record_bytes
  read_record s block_id = elim (get_record_bytes s block_id) [
    | none ↦ err block_not_present
    | some raw ↦ or_throw (c.parse raw) db_error
  ]

  unfoldable pub hop : Store Raw → Bytes → Option ℕ → ℕ → Result Error Hop
  unfolding read_record nth_id
  hop s current_id expected target_height = do
    r ← read_record s current_id
    koinos_assert (not (height_mismatch expected r.block_height)) unexpected_height
    if nat_beq r.block_height target_height then ok (found r.block_id) else do
      skip ← or_throw (get_previous_height_index target_height r.block_height) invalid_argument
      next ← or_throw (nth_id r.previous_block_ids skip.index) unexpected_height
      ok (if nat_beq skip.height target_height then found next else follow next skip.height)

  -- `for( ;; )` on fuel.

  unfoldable pub walk : ℕ → Store Raw → Bytes → Option ℕ → ℕ → Result Error Bytes
  unfolding hop
  walk zero s current_id expected target_height = err out_of_fuel
  walk (suc fuel) s current_id expected target_height =
      elim (hop s current_id expected target_height) [
        | err e ↦ err e
        | ok (found a) ↦ ok a
        | ok (follow next h) ↦ walk fuel s next (some h) target_height
      ]

  -- Each hop goes to a lower height, so the height of the first record bounds the rounds.
  unfoldable pub walk_fuel : Store Raw → Bytes → ℕ
  walk_fuel s block_id = elim (read_record s block_id) [
    | err e ↦ 1
    | ok r ↦ suc (suc r.block_height)
  ]

  unfoldable pub get_ancestor_id_at_height : Store Raw → Bytes → ℕ → Result Error Bytes
  unfolding walk walk_fuel
  get_ancestor_id_at_height s block_id target_height =
      walk (walk_fuel s block_id) s block_id none target_height

  -- A record that can be read and parsed.
  unfoldable pub readable : Store Raw → Bytes → Option BlockRecord
  unfolding get_record_bytes
  readable s block_id = elim (get_record_bytes s block_id) [ none ↦ none | some raw ↦ c.parse raw ]

  -- The walk to the parents: at most `count` items, `expected` as in the traversal.
  unfoldable pub fill_from : Store Raw → ℕ → Bytes → Option ℕ → Bool → Bool → List BlockItem
  unfolding readable make_item
  fill_from s zero current_id expected return_block return_receipt = []
  fill_from s (suc count) current_id expected return_block return_receipt =
      if is_nil current_id then [] else elim (readable s current_id) [
        | none ↦ []
        | some r ↦
            if height_mismatch expected r.block_height
            then []
            else make_item return_block return_receipt r
              ∷ fill_from s count (first_id r.previous_block_ids)
                  (some (height_below r.block_height)) return_block return_receipt
      ]

  unfoldable pub fill_blocks : Store Raw → Bytes → ℕ → Bool → Bool → List BlockItem
  unfolding fill_from
  fill_blocks s start_id count return_block return_receipt =
      fill_from s count start_id none return_block return_receipt
