-- ===== src/StateDb/Delta/Commit.antt =====
-- state_delta.cpp, `commit`: the chain of deltas is written to the backend of the root.
pub mod Laws
use teleno.Base.{[], bytes_key, koinos_assert, nat_key, not, ok, some, ◌>>=◌, ◌>>◌, ◌∷◌, Result}
use teleno.StdMap.{Map}
use teleno.StateDb.Backend
use teleno.StateDb.Backend.{Backend}
use teleno.StateDb.Delta.{
  Delta, Fields, Error, root, child, fields, is_root, internal_error, List, Bytes,
}
use teleno.StateDb.Delta.Merkle.{Crypto, merkle_root}

-- One node of the stack of `commit`, written to the root's backend.
unfoldable pub write_removed : List Bytes → Backend → Backend
unfolding Backend.erase
write_removed [] b = b
write_removed (k ∷ ks) b = write_removed ks (Backend.erase k b)

unfoldable pub write_objects : Map Bytes Bytes → Backend → Backend
unfolding Backend.put
write_objects [] b = b
write_objects ((k, v) ∷ m) b = write_objects m (Backend.put k v b)

unfoldable pub write_node : Fields → Backend → Backend
unfolding write_removed write_objects
write_node f b = write_objects f.backend.objects (write_removed f.removed_objects b)

-- The stack of `commit` once the root is popped, this delta first, and the root's backend.
unfoldable pub node_stack : Delta → List Fields × Backend
node_stack (root f) = ([], f.backend)
node_stack (child f p) = let (stack, b) = node_stack p in (f ∷ stack, b)

-- The top of the stack, its last element, is written first.
unfoldable pub write_stack : List Fields → Backend → Backend
unfolding write_node
write_stack [] b = b
write_stack (f ∷ stack) b = write_node f (write_stack stack b)

-- The members of the delta once it is the root, over the root's backend.
unfoldable pub committed : Crypto → Delta → Fields
unfolding fields write_stack node_stack merkle_root
committed c d =
    let (stack, b) = node_stack d in
    record (fields d) {
      backend = record (write_stack stack b) {
        header = (fields d).backend.header;
        revision = (fields d).revision;
        id = (fields d).id;
        merkle_root = merkle_root c (fields d);
      };
      removed_objects = [];
      merkle_root = some (merkle_root c (fields d));
    }

unfoldable pub commit : Crypto → Delta → Result Error Delta
unfolding is_root committed
commit c d = do koinos_assert (not (is_root d)) internal_error; ok (root (committed c d))
