-- ===== src/StateDb/Delta/Find.antt =====
-- Reads after writes, in one delta and through its ancestors.
use teleno.Base.{
  Bool, Bytes, List, [], arith, bytes_beq_iff, bytes_key, if◌then◌else◌, nat_key, none, not, refl,
  some, ◌&&◌, ◌==◌, ◌||◌, ◌∷◌, ◌≡◌,
}
use teleno.StdMap.{lookup-insert, lookup-erase}
use teleno.StdMap
use teleno.StateDb.Backend
use teleno.StateDb.Delta.{
  Delta, root, child, fields, with_fields, contains, set_insert, set_erase, is_removed, find, put,
  erase, make_child, make_child,
}

pub get-put :
    (k j v : Bytes) (b : Backend.Backend)
    → Backend.get (Backend.put k v b) j ≡ (if k == j then some v else Backend.get b j)
unfolding Backend.get Backend.put
get-put k j v b = lookup-insert k j v b.objects

pub get-erase :
    (k j : Bytes) (b : Backend.Backend)
    → Backend.get (Backend.erase k b) j ≡ (if k == j then none else Backend.get b j)
unfolding Backend.get Backend.erase
get-erase k j b = lookup-erase k j b.objects

pub contains-set_insert :
    (k j : Bytes) (s : List Bytes) → contains j (set_insert k s) ≡ (k == j || contains j s)
unfolding contains set_insert
contains-set_insert k j s = ground (arith, bytes_beq_iff k j)

pub contains-set_erase :
    (k j : Bytes) (s : List Bytes) → contains j (set_erase k s) ≡ (not (k == j) && contains j s)
unfolding contains set_erase
contains-set_erase k j [] = ground arith
contains-set_erase k j (i ∷ s) =
    ground
      (arith, contains-set_erase k j s, bytes_beq_iff k j, bytes_beq_iff i k, bytes_beq_iff i j)

-- A read after a write sees the value at its key, and what was there at every other.
pub find-put :
    (k j v : Bytes) (d : Delta) → find (put k v d) j ≡ (if k == j then some v else find d j)
unfolding find put
find-put k j v (root f) = ground (arith, get-put k j v f.backend)
find-put k j v (child f p) = ground (arith, get-put k j v f.backend)

-- An erased key reads as absent, also where an ancestor holds it; every other key is as it was.
pub find-erase :
    (k j : Bytes) (t : Bool) (d : Delta)
    → find (erase k t d) j ≡ (if k == j then none else find d j)
unfolding find erase is_removed fields with_fields
find-erase k j t (root f) = ground (arith, get-erase k j f.backend, bytes_beq_iff k j)
find-erase k j t (child f p) =
    ground
      (arith, get-erase k j f.backend, contains-set_insert k j f.removed_objects, bytes_beq_iff k j)

-- A new child reads as its parent does.
pub find-make_child :
    (id zero_hash k : Bytes) (h : Backend.BlockHeader) (d : Delta)
    → find (make_child id h zero_hash d) k ≡ find d k
unfolding find make_child is_removed contains Backend.get StdMap.lookup
find-make_child id zero_hash k h d = refl
