-- ===== src/StateDb/Delta.antt =====
-- koinos/state_db/state_delta.cpp: a delta is a backend, the set of keys that it removed, its
-- metadata, and (unless it is the root) its parent. The parent is held by value: a delta is the
-- chain of what `_parent` reaches. The order in which an `unordered_set` is walked is that of the
-- list `removed_objects`, of which nothing is assumed.
pub mod Find
pub mod Merkle
pub mod Squash
pub mod Valid
pub mod Commit
use teleno.Base.{
  Bool, Bytes, List, Option, [], bytes_key, false, if◌then◌else◌, is_some, nat_beq, nat_key, none,
  not, some, suc, true, ℕ, ◌&&◌, ◌==◌, ◌||◌, ◌∷◌,
}
use teleno.StdMap
use teleno.StdMap.{Map}
use teleno.StateDb.Backend
use teleno.StateDb.Backend.{Backend, BlockHeader}

-- The members of `state_delta` other than `_parent`.
pub record Fields : Type 0 where
  pub backend : Backend
  pub removed_objects : List Bytes
  pub id : Bytes
  pub revision : ℕ
  pub merkle_root : Option Bytes
  pub finalized : Bool

pub data Delta : Type 0 where
  root : Fields → Delta
  child : Fields → Delta → Delta

pub data Error : Type 0 where
  internal_error node_finalized : Error

unfoldable pub fields : Delta → Fields
fields (root f) = f
fields (child f p) = f

unfoldable pub with_fields : Fields → Delta → Delta
with_fields g (root f) = root g
with_fields g (child f p) = child g p

unfoldable pub is_root : Delta → Bool
is_root (root f) = true
is_root (child f p) = false

-- `_removed_objects.find( k ) != _removed_objects.end()`, and the two updates of the set.
unfoldable pub contains : Bytes → List Bytes → Bool
contains k [] = false
contains k (j ∷ s) = j == k || contains k s

unfoldable pub set_insert : Bytes → List Bytes → List Bytes
unfolding contains
set_insert k s = if contains k s then s else k ∷ s

unfoldable pub set_erase : Bytes → List Bytes → List Bytes
set_erase k [] = []
set_erase k (j ∷ s) = let rest = set_erase k s in if j == k then rest else j ∷ rest

unfoldable pub open_delta : Backend → Delta
open_delta b = root (record {
  backend = b;
  removed_objects = [];
  id = b.id;
  revision = b.revision;
  merkle_root = some b.merkle_root;
  finalized = false;
})

unfoldable pub is_removed : Fields → Bytes → Bool
unfolding contains
is_removed f k = contains k f.removed_objects

unfoldable pub is_modified : Fields → Bytes → Bool
unfolding contains Backend.get
is_modified f k = is_some (Backend.get f.backend k) || contains k f.removed_objects

unfoldable pub find : Delta → Bytes → Option Bytes
unfolding is_removed Backend.get
find (root f) k = elim (Backend.get f.backend k) [
  | some v ↦ some v
  | none ↦ if is_removed f k then none else none
]
find (child f p) k =
    let up = find p k in
    elim (Backend.get f.backend k) [ some v ↦ some v | none ↦ if is_removed f k then none else up ]

unfoldable pub put : Bytes → Bytes → Delta → Delta
unfolding fields with_fields Backend.put
put k v d = with_fields (record (fields d) { backend = Backend.put k v (fields d).backend }) d

unfoldable pub erase : Bytes → Bool → Delta → Delta
unfolding find fields with_fields Backend.erase set_insert
erase k preserve_tombstone d =
    if is_some (find d k) || preserve_tombstone
    then with_fields
        (record (fields d) {
          backend = Backend.erase k (fields d).backend;
          removed_objects = set_insert k (fields d).removed_objects;
        })
        d
    else d

-- The two loop bodies of `squash`, over the parent's fields. `keep` is `!_parent->is_root()`.
unfoldable pub squash_erase : Bool → Bytes → Fields → Fields
unfolding Backend.erase set_insert
squash_erase keep k p = record p {
  backend = Backend.erase k p.backend;
  removed_objects = if keep then set_insert k p.removed_objects else p.removed_objects;
}

unfoldable pub squash_put : Bool → Bytes → Bytes → Fields → Fields
unfolding Backend.put set_erase
squash_put keep k v p = record p {
  backend = Backend.put k v p.backend;
  removed_objects = if keep then set_erase k p.removed_objects else p.removed_objects;
}

unfoldable pub squash_removed : Bool → List Bytes → Fields → Fields
squash_removed keep [] p = p
squash_removed keep (k ∷ ks) p = squash_removed keep ks (squash_erase keep k p)

unfoldable pub squash_objects : Bool → Map Bytes Bytes → Fields → Fields
squash_objects keep [] p = p
squash_objects keep ((k, v) ∷ m) p = squash_objects keep m (squash_put keep k v p)

-- What `squash` of a child with these fields leaves of its parent.
unfoldable pub squash_into : Fields → Delta → Delta
unfolding squash_removed squash_objects fields with_fields is_root
squash_into f p =
    let keep = not (is_root p) in
    with_fields
      (squash_objects keep f.backend.objects (squash_removed keep f.removed_objects (fields p))) p

-- The child with its parent as `squash` leaves it; the root is left alone.
unfoldable pub squash : Delta → Delta
squash (root f) = root f
squash (child f p) = child f (squash_into f p)

unfoldable pub make_child : Bytes → BlockHeader → Bytes → Delta → Delta
unfolding fields Backend.make_backend
make_child id header zero_hash d =
    child
      (record {
        backend = record (Backend.make_backend zero_hash) { header = header };
        removed_objects = [];
        id = id;
        revision = suc (fields d).revision;
        merkle_root = none;
        finalized = false;
      })
      d

clone_backend : Bytes → BlockHeader → Fields → Backend
clone_backend id header f =
    let b : Backend = record f.backend { id = id; revision = f.revision; header = header } in
    elim f.merkle_root [ none ↦ b | some r ↦ record b { merkle_root = r } ]

unfoldable pub clone : Bytes → BlockHeader → Delta → Delta
unfolding fields with_fields clone_backend
clone id header d =
    with_fields (record (fields d) { backend = clone_backend id header (fields d); id = id }) d

unfoldable pub finalize : Delta → Delta
unfolding fields with_fields
finalize d = with_fields (record (fields d) { finalized = true }) d

unfoldable pub set_revision : ℕ → Delta → Delta
set_revision r (root f) =
    root (record f { revision = r; backend = record f.backend { revision = r } })
set_revision r (child f p) = child (record f { revision = r }) p

unfoldable pub clear : Bytes → Delta → Delta
unfolding fields with_fields Backend.clear
clear zero_hash d =
    with_fields
      (record (fields d) {
        backend = Backend.clear (fields d).backend;
        removed_objects = [];
        revision = 0;
        id = zero_hash;
      })
      d

unfoldable pub is_empty : Delta → Bool
unfolding Backend.size
is_empty (root f) = nat_beq (Backend.size f.backend) 0
is_empty (child f p) = nat_beq (Backend.size f.backend) 0 && is_empty p

-- The invariant of the chain: the objects of each backend are a `std::map`.
abbrev pub IsValid : Delta → Type 0
IsValid (root f) = StdMap.IsSorted f.backend.objects
IsValid (child f p) = StdMap.IsSorted f.backend.objects × IsValid p
