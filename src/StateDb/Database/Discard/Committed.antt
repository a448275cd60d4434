-- ===== src/StateDb/Database/Discard/Committed.antt =====
-- What `commit_node` answers.
use teleno.Base.{
  Bytes, List, Option, [], ap, arith, bytes_beq_iff, bytes_key, false, length, nat_key, none, refl,
  some, subst, suc, sym, true, ◌==◌, ◌∷◌, ◌≡◌,
}
use teleno.StdMap.{Map, IsSorted, IsSorted-insert, lookup}
use teleno.StateDb.Database.{Node, Database, cannot_discard, Error, get_node}
use teleno.StateDb.Database.Discard.{
  contains, erase_all, discard_rounds, discard_node, erase_queue, restore_fork, has_child,
  commit_node, contains, erase_all,
}
use teleno.StateDb.Database.Discard.Ends.{Ended, discard_rounds-Ended}
use teleno.StateDb.Database.Discard.Kept.{IsSorted-erase_all, without, kept, lookup-erase_all}
use teleno.StateDb.Database.Discard.Rounds.{Below, Looked}
use teleno.StateDb.Database.Discard.Commit.{
  root_node, reroot, IsRooted, null_free_after, rerooted-Layered, root_in, node_in,
  committed-IsTree, node_left,
}

has_child-lookup :
    (x : Bytes) (n : Node) (m : Map Bytes Node)
    → lookup x m ≡ some n
    → has_child n.parent_id m ≡ true
unfolding has_child lookup
has_child-lookup x n [] e = absurd (ground arith)
has_child-lookup x n ((k, v) ∷ m) e = ground (
  arith,
  has_child-lookup x n m,
  bytes_beq_iff v.parent_id n.parent_id,
  ap (λ (k : Node). k.parent_id),
)

-- The database after a node was committed.
pub record Committed (node_id : Bytes) (n : Node) (db e : Database) : Type 0 where
  pub rooted : IsRooted e (root_node n)
  pub new_root : e.root ≡ node_id
  pub sorted : IsSorted e.index
  pub same_head : e.head ≡ db.head
  pub gone : lookup db.root e.index ≡ none

-- The node is the root of a tree without the old root; or an exception was thrown after the node
-- became the root, and no node is gone.
abbrev pub Outcome : Bytes → Node → Database → Database × Option Error → Type 0
Outcome node_id n db (e, none) = Committed node_id n db e
Outcome node_id n db (e, some x) =
    (x ≡ cannot_discard)
    × Below db.root (node_id ∷ []) (reroot node_id n db).index db.head
    × (e.root ≡ node_id)
    × (e.head ≡ db.head)
    × (e.index ≡ (reroot node_id n db).index)

module _ (node_id : Bytes) (n r : Node) (db : Database) (v : IsRooted db r)
    (at_node : lookup node_id db.index ≡ some n) (apart : (node_id == db.root) ≡ false) where
  restore_fork-none :
      (done : List Bytes) (forks : Map Bytes Bytes)
      → contains node_id done ≡ false
      → restore_fork r.parent_id (without done forks (reroot node_id n db))
        ≡ (without done forks (reroot node_id n db), none)
  unfolding restore_fork
  restore_fork-none done forks left =
      let has =
        has_child-lookup node_id (root_node n) (erase_all done (reroot node_id n db).index) (
          kept node_id (root_node n) done (reroot node_id n db) left
            (node_in node_id n r db v at_node apart)) in
      ground (
        arith,
        has,
        v.root_parent,
        ap (λ k. has_child k (erase_all done (reroot node_id n db).index)),
      )

  sorted_after : IsSorted db.index → IsSorted (reroot node_id n db).index
  sorted_after s = IsSorted-insert node_id (root_node n) db.index s

  committed :
      (sorted : IsSorted db.index) (done : List Bytes) (forks : Map Bytes Bytes)
      → Looked db.root db.head r (node_id ∷ []) (reroot node_id n db).index [] done
      → Committed node_id n db (without done forks (reroot node_id n db))
  committed sorted done forks w = record {
    rooted = record {
      tree = committed-IsTree node_id n r db v at_node apart done forks w;
      reads_root =
          kept node_id (root_node n) done (reroot node_id n db)
            (node_left node_id n r db v at_node apart done forks w)
            (node_in node_id n r db v at_node apart);
      root_parent = refl;
      null_free = ground (
        arith,
        lookup-erase_all [] done (reroot node_id n db).index,
        null_free_after node_id n r db v at_node apart,
      );
    };
    new_root = refl;
    sorted = IsSorted-erase_all done (reroot node_id n db).index (sorted_after sorted);
    same_head = refl;
    gone = ground (arith, lookup-erase_all db.root done (reroot node_id n db).index, w.started);
  }

  erase_queue-Outcome :
      (sorted : IsSorted db.index) (q : (List Bytes × Map Bytes Bytes) × Option Error)
      → Ended db.root db.head r
          (node_id ∷ [])
          (reroot node_id n db).index
          (sorted_after sorted)
          (rerooted-Layered node_id n r db v at_node apart)
          (root_in node_id n r db v at_node apart)
          q
      → Outcome node_id n db (erase_queue r.parent_id q (reroot node_id n db))
  unfolding erase_queue
  erase_queue-Outcome sorted ((done, forks), some e) w = (w.0, w.1, refl, refl, refl)
  erase_queue-Outcome sorted ((done, forks), none) w =
      subst (Outcome node_id n db)
        (sym (restore_fork-none done forks (node_left node_id n r db v at_node apart done forks w)))
        (committed sorted done forks w)

  commit_node_found :
      commit_node node_id db
      ≡ erase_queue r.parent_id
          (discard_rounds
            (suc (suc (length (reroot node_id n db).index)))
            db.head
            (node_id ∷ [])
            (reroot node_id n db).index
            (db.root ∷ [])
            []
            db.fork_heads)
          (reroot node_id n db)
  unfolding commit_node discard_node get_node
  commit_node_found = ground (
    arith,
    apart,
    at_node,
    root_in node_id n r db v at_node apart,
    bytes_beq_iff db.root node_id,
    bytes_beq_iff node_id db.root,
  )

  -- On a tree of nodes whose root has the null id as its parent, which no node has as its own,
  -- committing a node that is stored and not the root ends: either the node is the root of such a
  -- tree, from which the old root is gone, and the head stays; or `cannot_discard` is thrown, since
  -- the head is below the old root by a way that does not lead over the node, and the node is the
  -- root while no node is gone.
  pub commit_node-Outcome : IsSorted db.index → Outcome node_id n db (commit_node node_id db)
  commit_node-Outcome sorted = subst (Outcome node_id n db) (sym commit_node_found) (
      erase_queue-Outcome sorted
        (discard_rounds (suc (suc (length (reroot node_id n db).index))) db.head (node_id ∷ [])
          (reroot node_id n db).index (db.root ∷ []) [] db.fork_heads)
        (discard_rounds-Ended db.root db.head r (node_id ∷ []) (reroot node_id n db).index
          (sorted_after sorted) (rerooted-Layered node_id n r db v at_node apart)
          (root_in node_id n r db v at_node apart) db.fork_heads))
