-- ===== src/StateDb/Delta/Commit/Laws.antt =====
-- What `commit` keeps: every read, the invariant of the backend, and the metadata.
use teleno.Base.{
  Bytes, List, [], ap, arith, bytes_beq_iff, bytes_key, err, if◌then◌else◌, nat_key, none, ok,
  or_else, refl, true, ◌∙◌, ◌∷◌, ◌≡◌,
}
use teleno.StdMap
use teleno.StdMap.{Map, lookup, IsSorted, IsSorted-insert, IsSorted-erase}
use teleno.StateDb.Backend
use teleno.StateDb.Backend.{Backend}
use teleno.StateDb.Delta.{
  Delta, Fields, root, child, fields, is_root, find, IsValid, contains, is_removed, internal_error,
}
use teleno.StateDb.Delta.Merkle.{Crypto, merkle_root}
use teleno.StateDb.Delta.Find.{get-put, get-erase}
use teleno.StateDb.Delta.Commit.{
  write_removed, write_objects, write_node, write_stack, node_stack, commit, committed,
}

get-write_removed :
    (ks : List Bytes) (b : Backend) (k : Bytes)
    → Backend.get (write_removed ks b) k ≡ (if contains k ks then none else Backend.get b k)
unfolding write_removed contains
get-write_removed [] b k = refl
get-write_removed (j ∷ ks) b k =
    ground (arith, get-write_removed ks (Backend.erase j b) k, get-erase j k b)

get-write_objects :
    (m : Map Bytes Bytes) (b : Backend) (k : Bytes)
    → IsSorted m
    → Backend.get (write_objects m b) k ≡ or_else (lookup k m) (Backend.get b k)
unfolding write_objects lookup
get-write_objects [] b k h = refl
get-write_objects ((j, v) ∷ m) b k h = ground (
  arith,
  get-write_objects m (Backend.put j v b) k h.1,
  get-put j k v b,
  StdMap.lookup-Above j m h.0,
  bytes_beq_iff j k,
)

get-write_node :
    (f : Fields) (b : Backend) (k : Bytes)
    → IsSorted f.backend.objects
    → Backend.get (write_node f b) k
      ≡ or_else (Backend.get f.backend k) (if is_removed f k then none else Backend.get b k)
unfolding write_node Backend.get is_removed
get-write_node f b k h =
    get-write_objects f.backend.objects (write_removed f.removed_objects b) k h
    ∙ ap (or_else (lookup k f.backend.objects)) (get-write_removed f.removed_objects b k)

-- The whole stack, written to the root's backend, holds what a read through the chain sees.
get-write_stack :
    (d : Delta) (k : Bytes)
    → IsValid d
    → Backend.get (write_stack (node_stack d).0 (node_stack d).1) k ≡ find d k
unfolding write_stack node_stack find
get-write_stack (root f) k h = ground arith
get-write_stack (child f p) k h = ground (
  arith,
  get-write_node f (write_stack (node_stack p).0 (node_stack p).1) k h.0,
  get-write_stack p k h.1,
)

write_removed-IsSorted :
    (ks : List Bytes) (b : Backend) → IsSorted b.objects → IsSorted (write_removed ks b).objects
unfolding write_removed Backend.erase
write_removed-IsSorted [] b h = h
write_removed-IsSorted (k ∷ ks) b h =
    write_removed-IsSorted ks (Backend.erase k b) (IsSorted-erase k b.objects h)

write_objects-IsSorted :
    (m : Map Bytes Bytes) (b : Backend) → IsSorted b.objects → IsSorted (write_objects m b).objects
unfolding write_objects Backend.put
write_objects-IsSorted [] b h = h
write_objects-IsSorted ((k, v) ∷ m) b h =
    write_objects-IsSorted m (Backend.put k v b) (IsSorted-insert k v b.objects h)

write_stack-IsSorted :
    (d : Delta) → IsValid d → IsSorted (write_stack (node_stack d).0 (node_stack d).1).objects
unfolding write_stack node_stack write_node
write_stack-IsSorted (root f) h = h
write_stack-IsSorted (child f p) h =
    write_objects-IsSorted f.backend.objects _
      (write_removed-IsSorted f.removed_objects _ (write_stack-IsSorted p h.1))

-- What a committed chain has in common with the chain it was.
pub record Committed (c : Crypto) (d e : Delta) : Type 0 where
  pub rooted : is_root e ≡ true
  pub valid : IsValid e
  pub reads : (k : Bytes) → find e k ≡ find d k
  pub same_id : (fields e).id ≡ (fields d).id
  pub same_revision : (fields e).revision ≡ (fields d).revision
  pub same_root : merkle_root c (fields e) ≡ merkle_root c (fields d)
  pub backend_id : (fields e).backend.id ≡ (fields d).id
  pub backend_revision : (fields e).backend.revision ≡ (fields d).revision
  pub backend_root : (fields e).backend.merkle_root ≡ merkle_root c (fields d)
  pub same_header : (fields e).backend.header ≡ (fields d).backend.header

get_objects :
    (a b : Backend) (k : Bytes) → a.objects ≡ b.objects → Backend.get a k ≡ Backend.get b k
unfolding Backend.get
get_objects a b k e = ap (lookup k) e

find_root : (f : Fields) (k : Bytes) → find (root f) k ≡ Backend.get f.backend k
unfolding find
find_root f k = ground arith

find-committed :
    (c : Crypto) (d : Delta) (k : Bytes) → IsValid d → find (root (committed c d)) k ≡ find d k
unfolding committed
find-committed c d k h =
    find_root (committed c d) k
    ∙ get_objects (committed c d).backend (write_stack (node_stack d).0 (node_stack d).1) k refl
    ∙ get-write_stack d k h

-- On a chain of deltas that is not the root alone, and whose backends are sorted maps, `commit`
-- succeeds: the result is a root whose backend is a sorted map, which reads at every key as the
-- chain did, and which carries the id, the revision, the block header and the Merkle root of the
-- committed delta, in its members and in its backend.
pub commit_lem :
    (c : Crypto) (f : Fields) (p : Delta)
    → IsValid (child f p)
    → (e : Delta) × (commit c (child f p) ≡ ok e) × Committed c (child f p) e
unfolding commit committed is_root fields merkle_root
commit_lem c f p h = (
  root (committed c (child f p)),
  refl,
  record {
    rooted = refl;
    valid = write_stack-IsSorted (child f p) h;
    reads = λ k. find-committed c (child f p) k h;
    same_id = refl;
    same_revision = refl;
    same_root = refl;
    backend_id = refl;
    backend_revision = refl;
    backend_root = refl;
    same_header = refl;
  },
)

-- Committing the root throws.
commit_root : (c : Crypto) (f : Fields) → commit c (root f) ≡ err internal_error
unfolding commit
commit_root c f = refl
