-- ===== src/StateDb/Database/Finalize.antt =====
-- What `finalize_node` leaves: the node is finalized, the head is at least as high, and the index is
-- a tree.
use teleno.Base.{
  Bool-cases, Bytes, List, Option, ap, arith, beq_refl, bytes_key, inl, inr, ltb, nat_beq, nat_key,
  ok, ok_inj, refl, some, some_inj, subst, sym, true, ◌==◌, ◌∙◌, ◌≡◌, ◌≤◌, ◌⊎◌,
}
use teleno.StdMap.{insert_or_assign, lookup, lookup-insert}
use teleno.StateDb.Database.{
  Node, Database, Comparator, get_node, get_head, fifo_comparator, block_time_comparator, earlier,
  move_forks, choose_head, finalize_node, get_fork_heads, settle_head,
}
use teleno.StateDb.Database.Grow.{IsTree, with_node, with_node-IsTree, Replaces, still_there}

-- A comparator that chooses one of the two nodes that it compares.
abbrev pub Chooses : Comparator → Type 0
Chooses comp =
    (forks : List Node) (current : Node) (parent : Option Node) (new : Node)
    → (comp forks current parent new ≡ ok (some current))
      ⊎ (comp forks current parent new ≡ ok (some new))

pub fifo_comparator-Chooses : Chooses fifo_comparator
unfolding fifo_comparator
fifo_comparator-Chooses forks current parent new = inl refl

pub block_time_comparator-Chooses : Chooses block_time_comparator
unfolding block_time_comparator earlier
block_time_comparator-Chooses forks current parent new =
    elim (Bool-cases (ltb new.header.timestamp current.header.timestamp)) [
      | inl e ↦ inr (ground (arith, e))
      | inr e ↦ inl (ground (arith, e))
    ]

abbrev pub marked : Node → Node
marked n = record n { finalized = true }

-- A database after a node was finalized over a head.
pub record Finalized (node_id : Bytes) (n h : Node) (e : Database) : Type 0 where
  pub tree : IsTree e
  pub top : Node
  pub reads_head : get_head e ≡ some top
  pub above_node : n.revision ≤ top.revision
  pub above_head : h.revision ≤ top.revision
  pub stored : get_node node_id e ≡ some (record n { finalized = true })

mark-Replaces :
    (node_id : Bytes) (n : Node) (db : Database)
    → IsTree db
    → lookup node_id db.index ≡ some n
    → Replaces node_id (marked n) db
mark-Replaces node_id n db t e = record {
  named = t.named node_id n e;
  same = λ o old. ap (λ x. x.revision) (some_inj n o (sym e ∙ old));
  parent = t.parents node_id n e;
}

mark-IsTree :
    (node_id : Bytes) (n : Node) (db : Database)
    → IsTree db
    → lookup node_id db.index ≡ some n
    → IsTree (with_node node_id (marked n) db)
mark-IsTree node_id n db t e =
    with_node-IsTree node_id (marked n) db t (mark-Replaces node_id n db t e)

move_forks-IsTree :
    (node : Node) (x : Bytes) (top : Node) (db : Database)
    → IsTree db
    → lookup x db.index ≡ some top
    → IsTree (move_forks node (record db { head = x }))
unfolding move_forks
move_forks-IsTree node x top db t e = elim (Bool-cases (node.parent_id == x)) [
  | inl same ↦
      rw same
        (record { rooted = t.rooted; headed = (top, e); named = t.named; parents = t.parents })
  | inr other ↦
      rw other
        (record { rooted = t.rooted; headed = (top, e); named = t.named; parents = t.parents })
]

get_node-move_forks :
    (node : Node) (j : Bytes) (db : Database) → get_node j (move_forks node db) ≡ lookup j db.index
unfolding move_forks get_node
get_node-move_forks node j db = ground arith

get_head-move_forks :
    (node : Node) (db : Database) → get_head (move_forks node db) ≡ lookup db.head db.index
unfolding move_forks get_head get_node
get_head-move_forks node db = ground arith

choose_head-some :
    (comp : Comparator) (current node new : Node) (db : Database)
    → comp (get_fork_heads db) current (get_node current.parent_id db) node ≡ ok (some new)
    → choose_head comp current node db ≡ ok (record db { head = new.id })
unfolding choose_head
choose_head-some comp current node new db e = rw e

Finalized-of :
    (node_id : Bytes) (n h : Node) (x : Bytes) (top : Node) (db : Database)
    → IsTree db
    → lookup node_id db.index ≡ some n
    → lookup x (with_node node_id (marked n) db).index ≡ some top
    → n.revision ≤ top.revision
    → h.revision ≤ top.revision
    → Finalized node_id n h
        (move_forks (marked n) (record (with_node node_id (marked n) db) { head = x }))
Finalized-of node_id n h x top db t e ex above_n above_h = record {
  tree =
      move_forks-IsTree (marked n) x top (with_node node_id (marked n) db)
        (mark-IsTree node_id n db t e) ex;
  top = top;
  reads_head =
      get_head-move_forks (marked n) (record (with_node node_id (marked n) db) { head = x }) ∙ ex;
  above_node = above_n;
  above_head = above_h;
  stored =
      get_node-move_forks (marked n) node_id (record (with_node node_id (marked n) db) { head = x })
      ∙ ground (arith, lookup-insert node_id node_id (marked n) db.index, beq_refl node_id);
}

finalize_node_run :
    (comp : Comparator) (node_id : Bytes) (n c : Node) (db e : Database)
    → lookup node_id db.index ≡ some n
    → lookup db.head (with_node node_id (marked n) db).index ≡ some c
    → settle_head comp c (marked n) (with_node node_id (marked n) db) ≡ ok e
    → finalize_node comp node_id db ≡ ok (move_forks (marked n) e)
unfolding finalize_node get_node get_head
finalize_node_run comp node_id n c db e en ec run = rw (en, ec, run)

-- Where the head is after it: at a node that the index holds, as high as both.
record Settled (comp : Comparator) (node_id : Bytes) (n c : Node) (db' : Database) : Type 0 where
  x : Bytes
  top : Node
  run : settle_head comp c (marked n) db' ≡ ok (record db' { head = x })
  there : lookup x db'.index ≡ some top
  above_node : n.revision ≤ top.revision
  above_head : c.revision ≤ top.revision

settled :
    (comp : Comparator) (node_id : Bytes) (n c : Node) (db' : Database)
    → Chooses comp
    → IsTree db'
    → lookup node_id db'.index ≡ some (marked n)
    → lookup db'.head db'.index ≡ some c
    → Settled comp node_id n c db'
unfolding settle_head
settled comp node_id n c db' ch t en ec = elim (Bool-cases (ltb c.revision n.revision)) [
  | inl higher ↦ record {
    x = n.id;
    top = marked n;
    run = rw higher;
    there =
        subst (λ i. lookup i db'.index ≡ some (marked n)) (sym (t.named node_id (marked n) en)) en;
    above_node = omega arith;
    above_head = ground arith;
  }
  | inr low ↦ elim (Bool-cases (nat_beq n.revision c.revision)) [
    | inr lower ↦ record {
      x = db'.head;
      top = c;
      run = rw (low, lower);
      there = ec;
      above_node = ground arith;
      above_head = omega arith;
    }
    | inl level ↦ elim (ch (get_fork_heads db') c (get_node c.parent_id db') (marked n)) [
      | inl stay ↦ record {
        x = c.id;
        top = c;
        run = rw (low, level) (choose_head-some comp c (marked n) c db' stay);
        there = subst (λ i. lookup i db'.index ≡ some c) (sym (t.named db'.head c ec)) ec;
        above_node = ground arith;
        above_head = omega arith;
      }
      | inr move ↦ record {
        x = n.id;
        top = marked n;
        run = rw (low, level) (choose_head-some comp c (marked n) (marked n) db' move);
        there =
            subst (λ i. lookup i db'.index ≡ some (marked n)) (sym (t.named node_id (marked n) en))
              en;
        above_node = omega arith;
        above_head = ground arith;
      }
    ]
  ]
]

-- On a tree of nodes, with a comparator that chooses one of the two nodes it compares (as the
-- first-in and the block-time comparators do), finalizing a node of the index succeeds: the node is
-- finalized, the head is a node whose revision is not below that of the node nor below that of the
-- old head, and the index is a tree.
pub finalize_node-Finalized :
    (comp : Comparator) (node_id : Bytes) (n h : Node) (db : Database)
    → Chooses comp
    → IsTree db
    → lookup node_id db.index ≡ some n
    → lookup db.head db.index ≡ some h
    → (e : Database) × (finalize_node comp node_id db ≡ ok e) × Finalized node_id n h e
finalize_node-Finalized comp node_id n h db ch t en eh =
    let db' = with_node node_id (marked n) db in
    let w : Replaces node_id (marked n) db = mark-Replaces node_id n db t en in
    let (c, ec, same) = still_there node_id db.head (marked n) h db w eh in
    let s =
      settled comp node_id n c db' ch (mark-IsTree node_id n db t en)
        (ground (arith, lookup-insert node_id node_id (marked n) db.index, beq_refl node_id)) ec in
    (
      move_forks (marked n) (record db' { head = s.x }),
      finalize_node_run comp node_id n c db (record db' { head = s.x }) en ec s.run,
      Finalized-of node_id n h s.x s.top db t en s.there s.above_node
          (subst (λ r. r ≤ s.top.revision) same s.above_head),
    )

same-move_forks :
    (node : Node) (db : Database)
    → ((move_forks node db).index ≡ db.index) × ((move_forks node db).root ≡ db.root)
unfolding move_forks
same-move_forks node db = elim (Bool-cases (node.parent_id == db.head)) [
  | inl same ↦ rw same (refl, refl)
  | inr other ↦ rw other (refl, refl)
]

-- Of the index only the node changes, and the root stays.
pub finalize_node_index :
    (comp : Comparator) (node_id : Bytes) (n h : Node) (db e : Database)
    → Chooses comp
    → IsTree db
    → lookup node_id db.index ≡ some n
    → lookup db.head db.index ≡ some h
    → finalize_node comp node_id db ≡ ok e
    → (e.index ≡ insert_or_assign node_id (marked n) db.index) × (e.root ≡ db.root)
finalize_node_index comp node_id n h db e ch t en eh run =
    let db' = with_node node_id (marked n) db in
    let w : Replaces node_id (marked n) db = mark-Replaces node_id n db t en in
    let (c, ec, same) = still_there node_id db.head (marked n) h db w eh in
    let s =
      settled comp node_id n c db' ch (mark-IsTree node_id n db t en)
        (ground (arith, lookup-insert node_id node_id (marked n) db.index, beq_refl node_id)) ec in
    let result : move_forks (marked n) (record db' { head = s.x }) ≡ e =
      ok_inj (move_forks (marked n) (record db' { head = s.x })) e (
        sym (finalize_node_run comp node_id n c db (record db' { head = s.x }) en ec s.run)
        ∙ run) in
    let (index, root) = same-move_forks (marked n) (record db' { head = s.x }) in
    (
      ap (λ (d : Database). d.index) (sym result) ∙ index,
      ap (λ (d : Database). d.root) (sym result) ∙ root,
    )
