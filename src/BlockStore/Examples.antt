-- ===== src/BlockStore/Examples.antt =====
-- A chain of two blocks in a store over a concrete codec.
use teleno.BlockStore.Store.Ancestors.{get_ancestor-ends}
use teleno.BlockStore.Store.Edges.{add_block_odd, get_blocks_by_height_past_head}
use teleno.Base.{
  Bool, Bytes, Option, [], arith, bytes_key, err, false, inl, inr, nat_key, none, ok, ok_inj, refl,
  some, subst, sym, true, ℕ, ◌-◌, ◌∙◌, ◌∷◌, ◌≡◌, ◌≢◌,
}
use teleno.StdMap
use teleno.BlockStore.SkipList.{get_previous_heights, get_previous_height_index, countr_zero}
use teleno.BlockStore.Store.{
  Codec, Store, Header, Block, BlockRecord, Topology, Error, read_record, get_record_bytes,
  get_ancestor_id_at_height, out_of_fuel, invalid_argument, get_highest_block_topology,
  put_record_bytes,
}
use teleno.BlockStore.Store.Linked.{AllLinked, ancestor, get_ancestor-finds}
use teleno.BlockStore.Store.Rpc.{AddRequest, add_block, get_blocks_by_height, raise_highest}
use teleno.BlockStore.Store.Add.{Added, add_block-Added, stored, new_record}

-- Serialised values that are the values themselves.
data Raw : Type 0 where
  empty : Raw
  of_record : BlockRecord → Raw
  of_topology : Topology → Raw

abbrev raw_empty : Raw → Bool
raw_empty empty = true
raw_empty (of_record r) = false
raw_empty (of_topology t) = false

abbrev raw_record : Raw → Option BlockRecord
raw_record empty = none
raw_record (of_record r) = some r
raw_record (of_topology t) = none

abbrev raw_topology : Raw → Option Topology
raw_topology empty = none
raw_topology (of_record r) = none
raw_topology (of_topology t) = some t

abbrev codec : Codec Raw
codec = record {
  is_empty = raw_empty;
  serialize = of_record;
  parse = raw_record;
  parse-serialize = λ r. refl;
  is_empty-serialize = λ r. refl;
  serialize_topology = of_topology;
  parse_topology = raw_topology;
  parse-serialize_topology = λ t. refl;
}

abbrev no_blocks : Store Raw
no_blocks = record { blocks = []; meta = none }

abbrev header_at : ℕ → Bytes → Header
header_at h previous = record { height = h; previous = previous }

abbrev block_at : ℕ → Bytes → Block
block_at h previous = record { id = h ∷ []; header = some (header_at h previous); body = [] }

no_blocks-AllLinked : AllLinked codec no_blocks
unfolding read_record get_record_bytes StdMap.lookup
no_blocks-AllLinked id r rd = absurd (ground arith)

add_block-Added_example :
    (t : Store Raw) × (add_block codec
        (record { block_to_add = some (block_at 1 []); receipt_to_add = none })
        no_blocks
      ≡ ok t)
    × Added codec no_blocks t (block_at 1 []) (header_at 1 []) none
unfolding get_record_bytes StdMap.lookup
add_block-Added_example =
    add_block-Added codec no_blocks (block_at 1 []) (header_at 1 []) none no_blocks-AllLinked refl
      refl (inl (omega arith))

abbrev request : ℕ → Bytes → AddRequest
request h previous = record { block_to_add = some (block_at h previous); receipt_to_add = none }

-- The store once the first block, whose parent is not stored, is added, and then the second.
abbrev store_1 : Store Raw
store_1 = stored codec no_blocks (block_at 1 []) (header_at 1 []) ([] ∷ []) none

abbrev store_2 : Store Raw
store_2 =
    stored codec store_1 (block_at 2 (1 ∷ [])) (header_at 2 (1 ∷ [])) ((1 ∷ []) ∷ [] ∷ []) none

add_1 : add_block codec (request 1 []) no_blocks ≡ ok store_1
unfolding add_block StdMap.lookup StdMap.insert_or_assign get_previous_heights get_record_bytes
add_1 = refl

AllLinked-1 : AllLinked codec store_1
unfolding get_record_bytes StdMap.lookup
AllLinked-1 =
    let (t, run, added) =
      add_block-Added codec no_blocks (block_at 1 []) (header_at 1 []) none no_blocks-AllLinked refl
        refl (inl (omega arith)) in
    subst (AllLinked codec) (ok_inj {E = Error} t store_1 (sym run ∙ add_1)) added.linked

add_2 : add_block codec (request 2 (1 ∷ [])) store_1 ≡ ok store_2
unfolding add_block StdMap.lookup StdMap.insert_or_assign get_previous_heights get_record_bytes
    get_ancestor_id_at_height get_previous_height_index countr_zero get_highest_block_topology
    put_record_bytes
add_2 = refl

reads_1 :
    read_record codec store_1 (1 ∷ [])
    ≡ ok (new_record codec (block_at 1 []) (header_at 1 []) ([] ∷ []) none)
unfolding read_record StdMap.lookup StdMap.insert_or_assign raise_highest get_highest_block_topology
    put_record_bytes
reads_1 = refl

reads_2 :
    read_record codec store_2 (2 ∷ [])
    ≡ ok (new_record codec (block_at 2 (1 ∷ [])) (header_at 2 (1 ∷ [])) ((1 ∷ []) ∷ [] ∷ []) none)
unfolding read_record StdMap.lookup StdMap.insert_or_assign raise_highest get_highest_block_topology
    put_record_bytes
reads_2 = refl

AllLinked-2 : AllLinked codec store_2
unfolding get_record_bytes StdMap.lookup StdMap.insert_or_assign raise_highest
    get_highest_block_topology put_record_bytes
AllLinked-2 =
    let (t, run, added) =
      add_block-Added codec store_1 (block_at 2 (1 ∷ [])) (header_at 2 (1 ∷ [])) none AllLinked-1
        refl refl
        (inr (new_record codec (block_at 1 []) (header_at 1 []) ([] ∷ []) none, reads_1, refl)) in
    subst (AllLinked codec) (ok_inj {E = Error} t store_2 (sym run ∙ add_2)) added.linked

-- From the second block to the first.
get_ancestor-finds_example :
    (a : Bytes) × (get_ancestor_id_at_height codec store_2 (2 ∷ []) 1 ≡ ok a)
    × (ancestor codec store_2 (2 - 1) (2 ∷ []) ≡ ok a)
get_ancestor-finds_example =
    get_ancestor-finds codec store_2 AllLinked-2 (2 ∷ [])
      (new_record codec (block_at 2 (1 ∷ [])) (header_at 2 (1 ∷ [])) ((1 ∷ []) ∷ [] ∷ []) none) 1
      reads_2 (omega arith)

get_ancestor-ends_example : get_ancestor_id_at_height codec store_2 (2 ∷ []) 1 ≢ err out_of_fuel
get_ancestor-ends_example = get_ancestor-ends codec store_2 (2 ∷ []) 1

-- Heights 2 to 4 of a chain whose head is at height 2.
get_blocks_by_height_past_head_example :
    get_blocks_by_height codec store_2 (2 ∷ []) 2 3 true false ≡ err invalid_argument
get_blocks_by_height_past_head_example =
    get_blocks_by_height_past_head codec store_2 (2 ∷ [])
      (new_record codec (block_at 2 (1 ∷ [])) (header_at 2 (1 ∷ [])) ((1 ∷ []) ∷ [] ∷ []) none) 2 3
      true false AllLinked-2 reads_2 (omega arith) (omega arith) (omega arith) (omega arith)

-- Height 3, over a parent that the store does not hold.
add_block_odd_example :
    (t : Store Raw) × (r : BlockRecord) × (add_block codec (request 3 (7 ∷ [])) store_1 ≡ ok t)
    × (read_record codec t (3 ∷ []) ≡ ok r)
    × (r.previous_block_ids ≡ (7 ∷ []) ∷ [])
unfolding get_record_bytes StdMap.lookup StdMap.insert_or_assign raise_highest
    get_highest_block_topology put_record_bytes
add_block_odd_example =
    add_block_odd codec store_1 (block_at 3 (7 ∷ [])) (header_at 3 (7 ∷ [])) none refl refl
      (omega arith) (omega arith)
