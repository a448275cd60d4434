-- ===== src/StateDb/Database/Examples.antt =====
-- A root, and a child of it that is not finalized yet.
use teleno.Base.{
  Bytes, [], ap, arith, bytes_beq_iff, bytes_key, inl, nat_key, none, ok, pair_key, refl, some,
  some_inj, subst, sym, true, ℕ, ◌∙◌, ◌∷◌, ◌≡◌,
}
use teleno.StdMap
use teleno.StdMap.{lookup}
use teleno.StateDb.Database.{cannot_discard, get_node}
use teleno.StateDb.Database.Discard.{
  restore_fork, has_child, erase_all, discard_node, commit_node, discard_rounds, children,
  erase_queue,
}
use teleno.StateDb.Database.Sound.{IsSound}
use teleno.StateDb.Database.Finalize.{fifo_comparator-Chooses}
use teleno.StateDb.Database.{fifo_comparator}
use teleno.StateDb.Database.Reach.{Reach-IsSound, then_step, start_at, create, discard}
use teleno.StateDb.Database.Discard.Kept
use teleno.StateDb.Database.Discard.Kept.{Rootless, discard_node-Outcome}
use teleno.StateDb.Database.Discard.Committed
use teleno.StateDb.Database.Discard.Committed.{commit_node-Outcome}
use teleno.StateDb.Database.Discard.Commit.{IsRooted}
use teleno.StateDb.Backend.{empty_header}
use teleno.StateDb.Database.{
  Node, Database, create_writable_node, get_node_at_revision, finalize_node, block_time_comparator,
}
use teleno.StateDb.Database.Grow.{IsTree, with_node, new_node, create_writable_node-IsTree}
use teleno.StateDb.Database.Revision.{get_node_at_revision-finds}
use teleno.StateDb.Database.Finalize.{
  Finalized, block_time_comparator-Chooses, finalize_node-Finalized,
}

abbrev root_node : Node
root_node = record {
  id = 0 ∷ [];
  parent_id = [];
  revision = 5;
  header = empty_header;
  finalized = true;
}

abbrev root_only : Database
root_only = record {
  index = (0 ∷ [], root_node) ∷ [];
  head = 0 ∷ [];
  root = 0 ∷ [];
  fork_heads = (0 ∷ [], 0 ∷ []) ∷ [];
}

in_root_only :
    (id : Bytes) (n : Node) → lookup id root_only.index ≡ some n → (id ≡ 0 ∷ []) × (n ≡ root_node)
unfolding lookup
in_root_only id n e = ground (arith, bytes_beq_iff (0 ∷ []) id)

root_only-IsTree : IsTree root_only
unfolding lookup
root_only-IsTree = record {
  rooted = (root_node, refl);
  headed = (root_node, refl);
  named = λ id n e. let (a, b) = in_root_only id n e in ap (λ x. x.id) b ∙ sym a;
  parents = λ id n e. inl (in_root_only id n e).0;
}

abbrev grown : Database
grown = with_node (1 ∷ []) (new_node (1 ∷ []) empty_header root_node) root_only

grown-IsTree : IsTree grown
unfolding lookup
grown-IsTree =
    (create_writable_node-IsTree (0 ∷ []) (1 ∷ []) empty_header root_node root_only root_only-IsTree
      refl refl refl).1

get_node_at_revision-finds_example :
    (m : Node) × (get_node_at_revision 5 (1 ∷ []) grown ≡ ok m) × (m.revision ≡ 5)
unfolding lookup StdMap.insert_or_assign
get_node_at_revision-finds_example =
    get_node_at_revision-finds 5 (1 ∷ []) (new_node (1 ∷ []) empty_header root_node) root_node grown
      grown-IsTree refl refl (omega arith) (omega arith)

finalize_node-Finalized_example :
    (e : Database) × (finalize_node block_time_comparator (1 ∷ []) grown ≡ ok e)
    × Finalized (1 ∷ []) (new_node (1 ∷ []) empty_header root_node) root_node e
unfolding lookup StdMap.insert_or_assign
finalize_node-Finalized_example =
    finalize_node-Finalized block_time_comparator (1 ∷ [])
      (new_node (1 ∷ []) empty_header root_node) root_node grown block_time_comparator-Chooses
      grown-IsTree refl refl

root_only-Rootless : Rootless root_only
unfolding lookup
root_only-Rootless r e =
    ground
      (arith, ap (λ (m : Node). lookup m.parent_id root_only.index) (in_root_only (0 ∷ []) r e).1)

grown-Rootless : Rootless grown
unfolding lookup StdMap.insert_or_assign
grown-Rootless r e =
    subst (λ (m : Node). lookup m.parent_id grown.index ≡ none) (some_inj root_node r e) refl

discard_node-Outcome_example : Kept.Outcome (1 ∷ []) grown (discard_node (1 ∷ []) [] grown)
unfolding lookup StdMap.insert_or_assign
discard_node-Outcome_example =
    discard_node-Outcome (1 ∷ []) (new_node (1 ∷ []) empty_header root_node) grown grown-IsTree
      grown-Rootless ((refl, tt), (tt, tt)) refl refl

-- The child is the head.
abbrev raised : Database
raised = record grown { head = 1 ∷ [] }

raised-IsRooted : IsRooted raised root_node
unfolding lookup StdMap.insert_or_assign
raised-IsRooted = record {
  tree = record {
    rooted = (root_node, refl);
    headed = (new_node (1 ∷ []) empty_header root_node, refl);
    named = grown-IsTree.named;
    parents = grown-IsTree.parents;
  };
  reads_root = refl;
  root_parent = refl;
  null_free = refl;
}

commit_node-Outcome_example :
    Committed.Outcome
      (1 ∷ [])
      (new_node (1 ∷ []) empty_header root_node)
      raised
      (commit_node (1 ∷ []) raised)
unfolding lookup StdMap.insert_or_assign
commit_node-Outcome_example =
    commit_node-Outcome (1 ∷ []) (new_node (1 ∷ []) empty_header root_node) root_node raised
      raised-IsRooted refl refl ((refl, tt), (tt, tt))

abbrev child_of : Bytes → ℕ → Bytes → Node
child_of id revision parent_id = record {
  id = id;
  parent_id = parent_id;
  revision = revision;
  header = empty_header;
  finalized = true;
}

-- Node 1 with the children 2 and 3, the second of them the head.
abbrev forked : Database
forked = record {
  index =
      (0 ∷ [], root_node)
      ∷ (1 ∷ [], child_of (1 ∷ []) 6 (0 ∷ []))
      ∷ (2 ∷ [], child_of (2 ∷ []) 7 (1 ∷ []))
      ∷ (3 ∷ [], child_of (3 ∷ []) 7 (1 ∷ []))
      ∷ [];
  head = 3 ∷ [];
  root = 0 ∷ [];
  fork_heads = (2 ∷ [], 2 ∷ []) ∷ (3 ∷ [], 3 ∷ []) ∷ [];
}

-- Node 1 is not discarded, but node 2 is no fork head any more.
fork_lost :
    discard_node (1 ∷ []) [] forked
    ≡ (record forked { fork_heads = (3 ∷ [], 3 ∷ []) ∷ [] }, some cannot_discard)
unfolding discard_node get_node lookup discard_rounds children erase_queue StdMap.erase
fork_lost = refl

root_only-IsSound : IsSound root_only
unfolding lookup
root_only-IsSound = record {
  top = root_node;
  rooted = record {
    tree = root_only-IsTree;
    reads_root = refl;
    root_parent = refl;
    null_free = refl;
  };
  sorted = (tt, tt);
}

grown_run : create_writable_node (0 ∷ []) (1 ∷ []) empty_header root_only ≡ some grown
unfolding lookup
grown_run =
    (create_writable_node-IsTree (0 ∷ []) (1 ∷ []) empty_header root_node root_only root_only-IsTree
      refl refl refl).0

discard_run : discard_node (1 ∷ []) [] grown ≡ (root_only, none)
unfolding discard_node get_node lookup discard_rounds children erase_queue StdMap.erase
    StdMap.insert_or_assign restore_fork has_child erase_all
discard_run = refl

Reach-IsSound_example : IsSound root_only
Reach-IsSound_example =
    Reach-IsSound fifo_comparator root_only root_only ((1 ∷ []) ∷ []) fifo_comparator-Chooses
      root_only-IsSound (refl, tt)
      (then_step ((1 ∷ []) ∷ []) [] grown root_only
        (then_step [] ((1 ∷ []) ∷ []) root_only grown start_at
          (create (0 ∷ []) (1 ∷ []) empty_header root_only grown grown_run))
        (discard (1 ∷ []) grown root_only discard_run))
