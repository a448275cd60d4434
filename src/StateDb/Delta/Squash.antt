-- ===== src/StateDb/Delta/Squash.antt =====
-- state_delta.cpp, `squash`: what a child wrote is moved into its parent.
use teleno.Base.{
  Bool, Bytes, List, Option, [], arith, bytes_beq_iff, bytes_key, false, if◌then◌else◌, is_some,
  nat_key, none, not, or_else, refl, some, true, ◌&&◌, ◌||◌, ◌∷◌, ◌≡◌,
}
use teleno.StdMap
use teleno.StdMap.{Map, lookup, IsSorted}
use teleno.StateDb.Backend
use teleno.StateDb.Backend.{Backend}
use teleno.StateDb.Delta.{
  Delta, Fields, root, child, fields, with_fields, is_root, contains, is_removed, find,
  squash_removed, squash_put, squash_erase, squash_objects, squash_into,
}
use teleno.StateDb.Delta.Find.{get-put, get-erase, contains-set_insert, contains-set_erase}

-- What a delta says of a key: nothing, that it is gone, or its value.
abbrev said : Bool → Fields → Bytes → Option Bytes → Option Bytes
said keep f k up = elim (Backend.get f.backend k) [
  | some v ↦ some v
  | none ↦ if is_removed f k then none else up
]

get-squash_removed :
    (keep : Bool) (ks : List Bytes) (p : Fields) (k : Bytes)
    → Backend.get (squash_removed keep ks p).backend k
      ≡ (if contains k ks then none else Backend.get p.backend k)
unfolding squash_removed squash_erase contains
get-squash_removed keep [] p k = refl
get-squash_removed keep (j ∷ ks) p k =
    ground (arith, get-squash_removed keep ks (squash_erase keep j p) k, get-erase j k p.backend)

is_removed-squash_removed :
    (ks : List Bytes) (p : Fields) (k : Bytes)
    → is_removed (squash_removed true ks p) k ≡ (contains k ks || is_removed p k)
unfolding squash_removed squash_erase contains is_removed
is_removed-squash_removed [] p k = refl
is_removed-squash_removed (j ∷ ks) p k = ground (
  arith,
  is_removed-squash_removed ks (squash_erase true j p) k,
  contains-set_insert j k p.removed_objects,
)

get-squash_objects :
    (keep : Bool) (m : Map Bytes Bytes) (p : Fields) (k : Bytes)
    → IsSorted m
    → Backend.get (squash_objects keep m p).backend k
      ≡ or_else (lookup k m) (Backend.get p.backend k)
unfolding squash_objects squash_put lookup
get-squash_objects keep [] p k h = refl
get-squash_objects keep ((j, v) ∷ m) p k h = ground (
  arith,
  get-squash_objects keep m (squash_put keep j v p) k h.1,
  get-put j k v p.backend,
  StdMap.lookup-Above j m h.0,
  bytes_beq_iff j k,
)

is_removed-squash_objects :
    (m : Map Bytes Bytes) (p : Fields) (k : Bytes)
    → is_removed (squash_objects true m p) k ≡ (not (is_some (lookup k m)) && is_removed p k)
unfolding squash_objects squash_put lookup is_removed
is_removed-squash_objects [] p k = refl
is_removed-squash_objects ((j, v) ∷ m) p k = ground (
  arith,
  is_removed-squash_objects m (squash_put true j v p) k,
  contains-set_erase j k p.removed_objects,
)

find-squash_into_root :
    (f g : Fields) (k : Bytes)
    → IsSorted f.backend.objects
    → find (squash_into f (root g)) k ≡ find (child f (root g)) k
unfolding squash_into find fields with_fields is_root is_removed
find-squash_into_root f g k h = ground (
  arith,
  get-squash_objects false f.backend.objects (squash_removed false f.removed_objects g) k h,
  get-squash_removed false f.removed_objects g k,
)

find-squash_into_child :
    (f g : Fields) (p : Delta) (k : Bytes)
    → IsSorted f.backend.objects
    → find (squash_into f (child g p)) k ≡ find (child f (child g p)) k
unfolding squash_into find fields with_fields is_root
find-squash_into_child f g p k h = ground (
  arith,
  get-squash_objects true f.backend.objects (squash_removed true f.removed_objects g) k h,
  get-squash_removed true f.removed_objects g k,
  is_removed-squash_objects f.backend.objects (squash_removed true f.removed_objects g) k,
  is_removed-squash_removed f.removed_objects g k,
)

-- Squashing a child into its parent leaves every key of the parent reading as it read in the
-- child, whether the parent is the root or not.
pub find-squash_into :
    (f : Fields) (p : Delta) (k : Bytes)
    → IsSorted f.backend.objects
    → find (squash_into f p) k ≡ find (child f p) k
find-squash_into f (root g) k h = find-squash_into_root f g k h
find-squash_into f (child g p) k h = find-squash_into_child f g p k h
