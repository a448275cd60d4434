-- ===== src/StateDb/Delta/Merkle.antt =====
-- state_delta.cpp: the Merkle root of a delta and the entries that a block receipt lists.
use teleno.Base.{[], bytes_key, nat_key, none, some, sort, ℕ, ◌++◌, ◌∷◌}
use teleno.StdMap.{Map}
use teleno.StateDb.Backend
use teleno.StateDb.Delta.{Fields, Bytes, List, Option, Bool}

-- `koinos::crypto` is a library: the hash of a string, and the root of a Merkle tree over leaves.
pub record Crypto : Type 0 where
  pub hash : Bytes → Bytes
  pub tree_root : List Bytes → Bytes

unfoldable pub map_keys : Map Bytes Bytes → List Bytes
map_keys [] = []
map_keys ((k, v) ∷ m) = k ∷ map_keys m

-- The keys that `calculate_merkle_root` and `get_delta_entries` visit, in their order.
unfoldable pub object_keys : Fields → List Bytes
unfolding map_keys
object_keys f = sort (map_keys f.backend.objects ++ f.removed_objects)

abbrev value_or_empty : Option Bytes → Bytes
value_or_empty none = []
value_or_empty (some v) = v

merkle_leafs : Crypto → Fields → List Bytes → List Bytes
unfolding Backend.get
merkle_leafs c f [] = []
merkle_leafs c f (k ∷ ks) =
    c.hash k ∷ c.hash (value_or_empty (Backend.get f.backend k)) ∷ merkle_leafs c f ks

unfoldable pub calculate_merkle_root : Crypto → Fields → Bytes
unfolding merkle_leafs object_keys
calculate_merkle_root c f = c.tree_root (merkle_leafs c f (object_keys f))

-- The cached root, or the root that is computed now and cached.
unfoldable pub merkle_root : Crypto → Fields → Bytes
unfolding calculate_merkle_root
merkle_root c f = elim f.merkle_root [ none ↦ calculate_merkle_root c f | some r ↦ r ]

-- `koinos::chain::database_key` and its parser are generated code.
pub record DatabaseKey : Type 0 where
  pub system : Bool
  pub zone : Bytes
  pub space_id : ℕ
  pub key : Bytes

pub record DeltaEntry : Type 0 where
  pub at : DatabaseKey
  pub value : Option Bytes

delta_entries : (Bytes → Option DatabaseKey) → Fields → List Bytes → List DeltaEntry
unfolding Backend.get
delta_entries parse f [] = []
delta_entries parse f (k ∷ ks) =
    let rest = delta_entries parse f ks in
    elim (parse k) [
      | none ↦ rest
      | some db_key ↦ record { at = db_key; value = Backend.get f.backend k } ∷ rest
    ]

unfoldable pub get_delta_entries : (Bytes → Option DatabaseKey) → Fields → List DeltaEntry
unfolding delta_entries object_keys
get_delta_entries parse f = delta_entries parse f (object_keys f)
