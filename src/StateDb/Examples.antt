-- ===== src/StateDb/Examples.antt =====
-- The state database at concrete deltas: the theorems' examples, and tests.
use teleno.Base.{
  Bytes, List, [], bytes_key, false, nat_key, none, ok, pair_key, refl, true, ℕ, ◌∷◌, ◌≡◌,
}
use teleno.StdMap
use teleno.StdMap.{lookup, insert_or_assign}
use teleno.StateDb.Backend.{Backend, empty_header}
use teleno.StateDb.Delta.{
  Delta, Fields, root, child, fields, find, squash_into, squash_put, squash_erase,
}
use teleno.StateDb.Delta.Squash.{find-squash_into}
use teleno.StateDb.Delta.Merkle.{Crypto}
use teleno.StateDb.Delta.Commit.{commit}
use teleno.StateDb.Delta.Commit.Laws.{Committed, commit_lem}
use teleno.StateDb.Node.{AnonymousNode, ObjectSpace, commit_anonymous}
use teleno.StateDb.Node.Anonymous.{Moved, find-commit_anonymous}

abbrev key_a : Bytes
key_a = b'a' ∷ []

abbrev key_b : Bytes
key_b = b'b' ∷ []

abbrev value_1 : Bytes
value_1 = 1 ∷ []

abbrev backend_of : StdMap.Map Bytes Bytes → Backend
backend_of m = record {
  objects = m;
  revision = 0;
  id = [];
  merkle_root = [];
  header = empty_header;
}

abbrev fields_of : StdMap.Map Bytes Bytes → List Bytes → ℕ → Fields
fields_of m removed revision = record {
  backend = backend_of m;
  removed_objects = removed;
  id = revision ∷ [];
  revision = revision;
  merkle_root = none;
  finalized = false;
}

-- The root holds `a`; the child removed it and wrote `b`.
abbrev base : Delta
base = root (fields_of ((key_a, value_1) ∷ []) [] 0)

abbrev change : Fields
change = fields_of ((key_b, value_1) ∷ []) (key_a ∷ []) 1

abbrev plain_crypto : Crypto
plain_crypto = record { hash = λ b. b; tree_root = λ leafs. 0 ∷ [] }

abbrev encode : ObjectSpace → Bytes → Bytes
encode s k = s.id ∷ k

abbrev space : ℕ → ObjectSpace
space n = record { system = true; zone = []; id = n }

commit_lem_example :
    (e : Delta) × (commit plain_crypto (child change base) ≡ ok e)
    × Committed plain_crypto (child change base) e
commit_lem_example = commit_lem plain_crypto change base ((tt, tt), (tt, tt))

find-squash_into_example : find (squash_into change base) key_a ≡ find (child change base) key_a
find-squash_into_example = find-squash_into change base key_a (tt, tt)

-- An anonymous node over the root, and the same node once its changes are committed and it has
-- written `a`.
abbrev first_use : AnonymousNode
first_use = record { top = change; between = []; parent = base }

abbrev second_use : AnonymousNode
second_use = record {
  top = fields_of ((key_a, value_1) ∷ []) [] 2;
  between = change ∷ [];
  parent = squash_into change base;
}

find-commit_anonymous_example :
    (b : AnonymousNode) × (commit_anonymous [] first_use ≡ ok b) × Moved first_use b
unfolding fields
find-commit_anonymous_example = find-commit_anonymous [] first_use (tt, tt) refl

-- The second commit does not reach the node: it has no `a`.
second_commit :
    (b : AnonymousNode) × (commit_anonymous [] second_use ≡ ok b) × (find b.parent key_a ≡ none)
unfolding commit_anonymous find squash_into insert_or_assign lookup fields squash_put squash_erase
    StdMap.erase
second_commit = (_, refl, refl)

abbrev zoned : Bytes → ℕ → ObjectSpace
zoned z n = record { system = false; zone = z; id = n }
