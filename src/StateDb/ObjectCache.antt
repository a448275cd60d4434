-- ===== src/StateDb/ObjectCache.antt =====
-- koinos/state_db/backends/rocksdb/object_cache.cpp: the least recently used values of the RocksDB
-- backend. A value is absent (`nullptr`) or a string. The map of the source holds beside each value
-- the place of its key in the list; a key stands in the list once, so the key is that place.
pub mod Laws
pub mod Room
pub mod Put
pub mod Touch
mod Examples
use teleno.Base.{
  Bytes, List, Option, Result, [], bytes_key, err, false, if◌then◌else◌, leb, length, ltb, nat_key,
  none, ok, some, suc, true, zero, ℕ, ◌%◌, ◌+◌, ◌-◌, ◌>>=◌, ◌>>◌, ◌^◌, ◌∷◌,
}
use teleno.StdMap
use teleno.StdMap.{Map}
use teleno.StateDb.Delta.{set_erase}

pub record Cache : Type 0 where
  pub lru_list : List Bytes
  pub object_map : Map Bytes (Option Bytes)
  pub cache_size : ℕ
  pub cache_max_size : ℕ

-- `pop_empty` is `back()` of an empty list, which is undefined; `out_of_fuel` is the model's.
pub data Error : Type 0 where
  pop_empty out_of_fuel : Error

abbrev pub value_size : Option Bytes → ℕ
value_size none = 0
value_size (some v) = length v

abbrev pub at_least : ℕ → ℕ → ℕ
at_least low n = if ltb n low then low else n

-- At least one byte for the key and one for the value.
unfoldable pub entry_size : Bytes → Option Bytes → ℕ
entry_size k v = at_least 2 (length k + value_size v)

unfoldable pub make_cache : ℕ → Cache
make_cache size = record { lru_list = []; object_map = []; cache_size = 0; cache_max_size = size }

unfoldable pub get : Bytes → Cache → Option (Option Bytes) × Cache
unfolding set_erase
get k c = elim (StdMap.lookup k c.object_map) [
  | none ↦ (none, c)
  | some v ↦ (
    some v,
    record c {
      lru_list = k ∷ set_erase k c.lru_list;
      object_map = StdMap.insert_or_assign k v c.object_map;
    },
  )
]

-- `std::size_t` wraps.
unfoldable pub remove : Bytes → Cache → Cache
unfolding entry_size set_erase
remove k c = elim (StdMap.lookup k c.object_map) [
  | none ↦ c
  | some v ↦ record c {
    lru_list = set_erase k c.lru_list;
    object_map = StdMap.erase k c.object_map;
    cache_size = (c.cache_size + 2 ^ 64 - entry_size k v) % 2 ^ 64;
  }
]

unfoldable pub back : List Bytes → Option Bytes
back [] = none
back (k ∷ ks) = elim (back ks) [ none ↦ some k | some j ↦ some j ]

-- The `while` loop of `put`, on fuel.
unfoldable pub make_room : ℕ → ℕ → Cache → Result Error Cache
unfolding remove back
make_room zero size c = err out_of_fuel
make_room (suc fuel) size c = elim (leb ((c.cache_size + size) % 2 ^ 64) c.cache_max_size) [
  | true ↦ ok c
  | false ↦ elim (back c.lru_list) [
    | none ↦ err pop_empty
    | some k ↦ make_room fuel size (remove k c)
  ]
]

unfoldable pub push_front : Bytes → Option Bytes → Cache → Cache
unfolding entry_size
push_front k v c = record c {
  lru_list = k ∷ c.lru_list;
  object_map = StdMap.insert_or_assign k v c.object_map;
  cache_size = (c.cache_size + entry_size k v) % 2 ^ 64;
}

-- Each round takes one key off the list: its length and one more rounds are enough.
unfoldable pub put : Bytes → Option Bytes → Cache → Result Error Cache
unfolding remove make_room push_front entry_size
put k v c = do
  let c' = remove k c
  d ← make_room (suc (length c'.lru_list)) (entry_size k v) c'
  ok (push_front k v d)

unfoldable pub clear : Cache → Cache
clear c = record c { object_map = []; lru_list = [] }
