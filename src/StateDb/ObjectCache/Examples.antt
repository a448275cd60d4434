-- ===== src/StateDb/ObjectCache/Examples.antt =====
-- A cache of five bytes that holds two values.
use teleno.Base.{
  Bytes, Option, [], arith, bytes_beq_iff, bytes_key, err, is_some, nat_key, ok, refl, replicate,
  some, ℕ, ◌∷◌, ◌≡◌,
}
use teleno.StateDb.ObjectCache.{Cache, entry_size, get, put, clear, pop_empty}
use teleno.StateDb.ObjectCache.Laws.{IsValid, total}
use teleno.StateDb.ObjectCache.Put.{Stored, put-Stored, put_too_large, put-clear}
use teleno.StateDb.ObjectCache.Touch.{Touched, get-Touched}
use teleno.StdMap.{lookup}
use teleno.StateDb.Delta.{contains}

abbrev key_a : Bytes
key_a = 1 ∷ []

abbrev key_b : Bytes
key_b = 2 ∷ []

abbrev value : ℕ → Option Bytes
value n = some (n ∷ [])

abbrev full : Cache
full = record {
  lru_list = key_b ∷ key_a ∷ [];
  object_map = (key_a, value 7) ∷ (key_b, value 8) ∷ [];
  cache_size = 4;
  cache_max_size = 5;
}

full-held : (k : Bytes) → contains k full.lru_list ≡ is_some (lookup k full.object_map)
unfolding contains lookup
full-held k = ground (arith, bytes_beq_iff key_a k, bytes_beq_iff key_b k)

full-IsValid : IsValid full
unfolding total contains lookup entry_size
full-IsValid = record {
  distinct = (refl, (refl, tt));
  held = full-held;
  sized = refl;
  bound = omega arith;
  machine = omega arith;
}

put-Stored_example :
    (d : Cache) × (put (3 ∷ []) (value 9) full ≡ ok d) × Stored (3 ∷ []) (value 9) full d
unfolding entry_size
put-Stored_example = put-Stored (3 ∷ []) (value 9) full full-IsValid (omega arith)

get-Touched_example :
    ((get key_a full).0 ≡ lookup key_a full.object_map) × Touched key_a full (get key_a full).1
get-Touched_example = get-Touched key_a full full-IsValid

put_too_large_example : put key_a (some (replicate 9 1)) full ≡ err pop_empty
unfolding entry_size
put_too_large_example =
    put_too_large key_a (some (replicate 9 1)) full full-IsValid (omega arith) (omega arith)

put-clear_example : put key_a (value 7) (clear full) ≡ err pop_empty
unfolding entry_size
put-clear_example = put-clear key_a (value 7) full full-IsValid (omega arith) (omega arith)
