-- ===== src/StateDb/Database/Discard.antt =====
-- koinos/state_db/state_db.cpp: how nodes are discarded and committed. What an operation has changed
-- before it throws stays changed, so the answer is the database with the exception, if there is one.
-- The children of a node are taken in the order of their ids.
pub mod Queue
pub mod Rounds
pub mod Ends
pub mod Kept
pub mod Commit
pub mod Committed
use teleno.Base.{
  Bool, Bytes, List, Option, [], bytes_key, false, if◌then◌else◌, length, nat_key, none, not, some,
  suc, true, zero, ℕ, ◌&&◌, ◌++◌, ◌==◌, ◌∷◌,
}
use teleno.StateDb.Database.{
  Node, Database, Error, get_node, cannot_discard, internal_error, illegal_argument, out_of_fuel,
}
use teleno.StdMap
use teleno.StdMap.{Map}

abbrev pub contains : Bytes → List Bytes → Bool
contains id [] = false
contains id (j ∷ ids) = if j == id then true else contains id ids

-- The ids of the nodes of a parent, without those of the whitelist.
unfoldable pub children : Bytes → List Bytes → Map Bytes Node → List Bytes
children id whitelist [] = []
children id whitelist ((k, n) ∷ m) =
    let rest = children id whitelist m in
    if n.parent_id == id && not (contains k whitelist) then k ∷ rest else rest

-- The loop over `remove_queue`, on fuel: what is still to be looked at, what was looked at, and the
-- fork heads that are left.
unfoldable pub discard_rounds :
    ℕ
    → Bytes
    → List Bytes
    → Map Bytes Node
    → List Bytes
    → List Bytes
    → Map Bytes Bytes
    → (List Bytes × Map Bytes Bytes) × Option Error
discard_rounds zero head whitelist index queue done forks = ((done, forks), some out_of_fuel)
discard_rounds (suc fuel) head whitelist index [] done forks = ((done, forks), none)
discard_rounds (suc fuel) head whitelist index (id ∷ queue) done forks = elim (id == head) [
  | true ↦ ((done, forks), some cannot_discard)
  | false ↦
      discard_rounds fuel head whitelist index (queue ++ children id whitelist index) (id ∷ done)
        (StdMap.erase id forks)
]

unfoldable pub erase_all : List Bytes → Map Bytes Node → Map Bytes Node
erase_all [] m = m
erase_all (id ∷ ids) m = StdMap.erase id (erase_all ids m)

unfoldable pub has_child : Bytes → Map Bytes Node → Bool
has_child id [] = false
has_child id ((k, n) ∷ m) = if n.parent_id == id then true else has_child id m

-- The parent of what was discarded becomes a fork head if it is left without children.
unfoldable pub restore_fork : Bytes → Database → Database × Option Error
restore_fork parent_id db = elim (has_child parent_id db.index) [
  | true ↦ (db, none)
  | false ↦ elim (get_node parent_id db) [
    | none ↦ (db, some internal_error)
    | some p ↦ (record db { fork_heads = StdMap.insert_or_assign p.id p.id db.fork_heads }, none)
  ]
]

unfoldable pub erase_queue :
    Bytes → (List Bytes × Map Bytes Bytes) × Option Error → Database → Database × Option Error
erase_queue parent_id ((done, forks), some e) db = (record db { fork_heads = forks }, some e)
erase_queue parent_id ((done, forks), none) db =
    restore_fork parent_id (record db { index = erase_all done db.index; fork_heads = forks })

-- Every round looks at another node, or ends.
unfoldable pub discard_node : Bytes → List Bytes → Database → Database × Option Error
discard_node node_id whitelist db = elim (get_node node_id db) [
  | none ↦ (db, none)
  | some n ↦ elim (node_id == db.root) [
    | true ↦ (db, some illegal_argument)
    | false ↦
        erase_queue n.parent_id
          (discard_rounds (suc (suc (length db.index))) db.head whitelist db.index (node_id ∷ []) []
            db.fork_heads)
          db
  ]
]

-- `state_delta::commit` takes the parent off the node; what it writes is in StateDb/Delta.
unfoldable pub commit_node : Bytes → Database → Database × Option Error
commit_node node_id db = elim (node_id == db.root) [
  | true ↦ (db, none)
  | false ↦ elim (get_node node_id db) [
    | none ↦ (db, some illegal_argument)
    | some n ↦ discard_node db.root (node_id ∷ []) (record db {
      root = node_id;
      index = StdMap.insert_or_assign node_id (record n { parent_id = [] }) db.index;
    })
  ]
]
