-- ===== src/StateDb/Database.antt =====
-- koinos/state_db/state_db.cpp: the index of state nodes, the head and the fork heads, and the
-- comparators that choose between forks. A pointer to a delta is the id of its node, which the index
-- resolves; what a node holds of its delta here is its metadata. The overloads for a shared and for
-- a unique lock do the same and are one function; locks are not modelled, so a parent that is not
-- finalized when `create_writable_node` looks is not waited for. The database is open. Discard has the
-- removal of nodes.
pub mod Grow
pub mod Revision
pub mod Finalize
pub mod Priority
pub mod Discard
pub mod Sound
pub mod Shrink
pub mod Reach
mod Examples
use teleno.Base.{
  Bool, Bytes, List, Option, Result, [], bytes_key, err, false, if◌then◌else◌, is_some,
  koinos_assert, leb, ltb, map, nat_beq, nat_key, none, not, ok, or_else, or_throw, some, suc, true,
  zero, ℕ, ◌&&◌, ◌<?◌, ◌==◌, ◌>>=◌, ◌>>◌, ◌∷◌,
}
use teleno.StdMap
use teleno.StdMap.{Map}
use teleno.StateDb.Backend.{BlockHeader}

pub record Node : Type 0 where
  pub id : Bytes
  pub parent_id : Bytes
  pub revision : ℕ
  pub header : BlockHeader
  pub finalized : Bool

pub record Database : Type 0 where
  pub index : Map Bytes Node
  pub head : Bytes
  pub root : Bytes
  pub fork_heads : Map Bytes Bytes

-- `dangling` is a null pointer that the source follows; `out_of_fuel` is the model's.
pub data Error : Type 0 where
  illegal_argument cannot_discard internal_error dangling out_of_fuel : Error

unfoldable pub get_node : Bytes → Database → Option Node
get_node node_id db = StdMap.lookup node_id db.index

unfoldable pub get_head : Database → Option Node
unfolding get_node
get_head db = get_node db.head db

unfoldable pub get_root : Database → Option Node
unfolding get_node
get_root db = get_node db.root db

unfoldable pub get_all_nodes : Database → List Node
get_all_nodes db = map (λ e. e.1) db.index

-- The nodes of the fork heads, in the order of their ids.
unfoldable pub nodes_of : Database → Map Bytes Bytes → List Node
unfolding get_node
nodes_of db [] = []
nodes_of db ((k, j) ∷ m) =
    let rest = nodes_of db m in elim (get_node j db) [ none ↦ rest | some n ↦ n ∷ rest ]

unfoldable pub get_fork_heads : Database → List Node
unfolding nodes_of
get_fork_heads db = nodes_of db db.fork_heads

-- `while( delta->revision() > revision )`, on fuel.
unfoldable pub down_to : ℕ → ℕ → Node → Database → Result Error Node
unfolding get_node
down_to zero revision n db = err out_of_fuel
down_to (suc fuel) revision n db = elim (ltb revision n.revision) [
  | false ↦ ok n
  | true ↦ elim (get_node n.parent_id db) [
    | none ↦ err dangling
    | some p ↦ down_to fuel revision p db
  ]
]

-- From the node of an id, or from the head where there is none. Each step goes to a lower revision.
unfoldable pub get_node_at_revision : ℕ → Bytes → Database → Result Error Node
unfolding get_root get_head get_node down_to
get_node_at_revision revision child_id db = do
  r ← or_throw (get_root db) dangling
  koinos_assert (leb r.revision revision) illegal_argument
  if nat_beq revision r.revision then ok r else do
    child ← or_throw (or_else (get_node child_id db) (get_head db)) dangling
    down_to (suc child.revision) revision child db

-- `none` where the source returns a null pointer.
unfoldable pub create_writable_node : Bytes → Bytes → BlockHeader → Database → Option Database
unfolding get_node
create_writable_node parent_id new_id header db = elim (get_node parent_id db) [
  | none ↦ none
  | some p ↦
      if p.finalized && not (is_some (get_node new_id db))
      then some (record db {
        index =
            StdMap.insert_or_assign new_id
              (record {
                id = new_id;
                parent_id = p.id;
                revision = suc p.revision;
                header = header;
                finalized = false;
              })
              db.index;
      })
      else none
]

unfoldable pub clone_node : Bytes → Bytes → BlockHeader → Database → Result Error (Option Database)
unfolding get_node
clone_node node_id new_id header db = do
  n ← or_throw (get_node node_id db) illegal_argument
  koinos_assert (not n.finalized) illegal_argument
  ok (
      if is_some (get_node new_id db)
      then none
      else some (record db {
        index = StdMap.insert_or_assign new_id (record n { id = new_id; header = header }) db.index;
      }))

-- A comparator reads the fork heads, the head with its parent (absent for the root), and the new
-- node; `none` is the null pointer that stands for the parent of the head.
abbrev pub Comparator : Type 0
Comparator = List Node → Node → Option Node → Node → Result Error (Option Node)

unfoldable pub fifo_comparator : Comparator
fifo_comparator forks current parent new = ok (some current)

unfoldable pub earlier : Node → Node → Node
earlier current new = if ltb new.header.timestamp current.header.timestamp then new else current

unfoldable pub block_time_comparator : Comparator
unfolding earlier
block_time_comparator forks current parent new = ok (some (earlier current new))

-- `priority_algorithm`
unfoldable pub before : Node → Node → Bool
before a b =
    if ltb b.revision a.revision
    then true
    else if ltb a.revision b.revision
    then false
    else if ltb a.header.timestamp b.header.timestamp
    then true
    else if ltb b.header.timestamp a.header.timestamp
    then false
    else a.id <? b.id

-- The first of the forks once they are sorted.
unfoldable pub first_of : Node → List Node → Node
unfolding before
first_of n [] = n
first_of n (f ∷ fs) = first_of (if before f n then f else n) fs

unfoldable pub erase_first : Bytes → List Node → List Node
erase_first id [] = []
erase_first id (f ∷ fs) = let rest = erase_first id fs in if f.id == id then fs else f ∷ rest

abbrev pub best_fork : List Node → Option Node → Result Error (Option Node)
best_fork [] parent = ok none
best_fork (f ∷ fs) none = err dangling
best_fork (f ∷ fs) (some p) = ok (if before p (first_of f fs) then none else some (first_of f fs))

unfoldable pub pob_comparator : Comparator
unfolding earlier erase_first before first_of
pob_comparator forks current parent new =
    if current.header.signer == new.header.signer
    then best_fork (erase_first current.id forks) parent
    else ok (some (earlier current new))

-- Where the head goes, and what becomes of the fork heads, when the new node is as high as it.
unfoldable pub choose_head : Comparator → Node → Node → Database → Result Error Database
unfolding get_fork_heads get_node
choose_head comp current node db = do
  let parent = get_node current.parent_id db
  choice ← comp (get_fork_heads db) current parent node
  elim choice [
    | some n ↦ ok (record db { head = n.id })
    | none ↦ do
      p ← or_throw parent dangling
      ok (record db {
        head = p.id;
        fork_heads = StdMap.insert_or_assign p.id p.id (StdMap.erase current.id db.fork_heads);
      })
  ]

unfoldable pub move_forks : Node → Database → Database
move_forks node db = if node.parent_id == db.head then db else record db {
  fork_heads = StdMap.insert_or_assign node.id node.id (StdMap.erase node.parent_id db.fork_heads);
}

-- The head that a finalized node leaves, over the present head.
unfoldable pub settle_head : Comparator → Node → Node → Database → Result Error Database
settle_head comp current node db =
    if ltb current.revision node.revision
    then ok (record db { head = node.id })
    else if nat_beq node.revision current.revision
    then choose_head comp current node db
    else ok db

unfoldable pub finalize_node : Comparator → Bytes → Database → Result Error Database
finalize_node comp node_id db = do
  found ← or_throw (get_node node_id db) illegal_argument
  let node : Node = record found { finalized = true }
  let db' : Database = record db { index = StdMap.insert_or_assign node_id node db.index }
  current ← or_throw (get_head db') dangling
  db'' ← settle_head comp current node db'
  ok (move_forks node db'')
