-- ===== src/StateDb/Delta/Valid.antt =====
-- Every operation on deltas keeps the invariant of `std::map` in the whole chain.
use teleno.Base.{Bool, Bytes, List, [], arith, bytes_key, nat_key, ◌∷◌}
use teleno.StdMap.{Map, IsSorted, IsSorted-insert, IsSorted-erase}
use teleno.StateDb.Backend
use teleno.StateDb.Delta.{
  Delta, Fields, root, child, fields, with_fields, IsValid, put, erase, squash_into, squash_removed,
  squash_objects, squash_erase, squash_put, make_child,
}

pub put-IsValid : (k v : Bytes) (d : Delta) → IsValid d → IsValid (put k v d)
unfolding put Backend.put
put-IsValid k v (root f) h = IsSorted-insert k v f.backend.objects h
put-IsValid k v (child f p) h = (IsSorted-insert k v f.backend.objects h.0, h.1)

pub erase-IsValid : (k : Bytes) (t : Bool) (d : Delta) → IsValid d → IsValid (erase k t d)
unfolding erase Backend.erase fields with_fields
erase-IsValid k t (root f) h = ground (arith, IsSorted-erase k f.backend.objects h)
erase-IsValid k t (child f p) h = ground (arith, IsSorted-erase k f.backend.objects h.0)

squash_removed-IsSorted :
    (keep : Bool) (ks : List Bytes) (p : Fields)
    → IsSorted p.backend.objects
    → IsSorted (squash_removed keep ks p).backend.objects
unfolding squash_removed squash_erase Backend.erase
squash_removed-IsSorted keep [] p h = h
squash_removed-IsSorted keep (k ∷ ks) p h =
    squash_removed-IsSorted keep ks (squash_erase keep k p) (IsSorted-erase k p.backend.objects h)

squash_objects-IsSorted :
    (keep : Bool) (m : Map Bytes Bytes) (p : Fields)
    → IsSorted p.backend.objects
    → IsSorted (squash_objects keep m p).backend.objects
unfolding squash_objects squash_put Backend.put
squash_objects-IsSorted keep [] p h = h
squash_objects-IsSorted keep ((k, v) ∷ m) p h =
    squash_objects-IsSorted keep m (squash_put keep k v p) (IsSorted-insert k v p.backend.objects h)

pub squash_into-IsValid : (f : Fields) (p : Delta) → IsValid p → IsValid (squash_into f p)
unfolding squash_into fields with_fields
squash_into-IsValid f (root g) h =
    squash_objects-IsSorted _ f.backend.objects _ (squash_removed-IsSorted _ f.removed_objects g h)
squash_into-IsValid f (child g p) h = (
  squash_objects-IsSorted _ f.backend.objects _ (squash_removed-IsSorted _ f.removed_objects g h.0),
  h.1,
)

pub make_child-IsValid :
    (id zero_hash : Bytes) (h : Backend.BlockHeader) (d : Delta)
    → IsValid d
    → IsValid (make_child id h zero_hash d)
unfolding make_child
make_child-IsValid id zero_hash h d v = (tt, v)
