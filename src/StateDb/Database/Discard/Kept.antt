-- ===== src/StateDb/Database/Discard/Kept.antt =====
-- What discarding a node leaves of the tree.
use teleno.StateDb.Database.Discard.Ends.{Ended, discard_rounds-Ended}
use teleno.Base.{
  Bool-cases, Bytes, List, Option, [], ap, arith, bytes_beq_iff, bytes_key, false, if◌then◌else◌,
  inl, inr, length, nat_key, none, refl, some, some_inj, subst, suc, sym, ◌==◌, ◌∙◌, ◌∷◌, ◌≡◌,
}
use teleno.StdMap.{IsSorted-erase, insert_or_assign, Map, lookup, lookup-erase, IsSorted}
use teleno.StateDb.Database.{Node, Database, Error, get_node, cannot_discard}
use teleno.StateDb.Database.Grow.{IsTree}
use teleno.StateDb.Database.Discard.{
  contains, erase_all, restore_fork, erase_queue, discard_node, discard_rounds, has_child,
}
use teleno.StateDb.Database.Discard.Rounds.{Below, Layered, Looked}

pub lookup-erase_all :
    (k : Bytes) (ids : List Bytes) (m : Map Bytes Node)
    → lookup k (erase_all ids m) ≡ (if contains k ids then none else lookup k m)
unfolding erase_all
lookup-erase_all k [] m = refl
lookup-erase_all k (id ∷ ids) m =
    ground (arith, lookup-erase_all k ids m, lookup-erase id k (erase_all ids m))

pub IsSorted-erase_all :
    (ids : List Bytes) (m : Map Bytes Node) → IsSorted m → IsSorted (erase_all ids m)
unfolding erase_all
IsSorted-erase_all [] m s = s
IsSorted-erase_all (id ∷ ids) m s = IsSorted-erase id (erase_all ids m) (IsSorted-erase_all ids m s)

-- The root is no node's child: the index has no node of the id that it names as its parent.
abbrev pub Rootless : Database → Type 0
Rootless db = (r : Node) → lookup db.root db.index ≡ some r → lookup r.parent_id db.index ≡ none

pub tree-Layered : (db : Database) → IsTree db → Rootless db → Layered db.index
tree-Layered db t f x n p at up = elim (t.parents x n at) [
  | inl root ↦ absurd (ground (arith, f n (subst (λ k. lookup k db.index ≡ some n) root at), up))
  | inr (q, at_q, above) ↦ above ∙ ap (λ (m : Node). suc m.revision) (some_inj q p (sym at_q ∙ up))
]

-- The database without the nodes that were looked at.
abbrev pub without : List Bytes → Map Bytes Bytes → Database → Database
without done forks db = record db { index = erase_all done db.index; fork_heads = forks }

pub kept :
    (k : Bytes) (n : Node) (done : List Bytes) (db : Database)
    → contains k done ≡ false
    → lookup k db.index ≡ some n
    → lookup k (erase_all done db.index) ≡ some n
kept k n done db out e = ground (arith, lookup-erase_all k done db.index)

pub kept_inv :
    (k : Bytes) (n : Node) (done : List Bytes) (db : Database)
    → lookup k (erase_all done db.index) ≡ some n
    → (contains k done ≡ false) × (lookup k db.index ≡ some n)
kept_inv k n done db e = elim (Bool-cases (contains k done)) [
  | inl gone ↦ absurd (ground (arith, lookup-erase_all k done db.index, gone, e))
  | inr out ↦ (out, ground (arith, lookup-erase_all k done db.index, out, e))
]

module _ (start : Bytes) (top : Node) (db : Database) (done : List Bytes) (forks : Map Bytes Bytes)
    (t : IsTree db) (f : Rootless db) (w : Looked start db.head top [] db.index [] done)
    (at_start : lookup start db.index ≡ some top) (apart : (start == db.root) ≡ false) where
  -- The root is not looked at.
  root_left : contains db.root done ≡ false
  root_left = elim (Bool-cases (contains db.root done)) [
    | inr out ↦ out
    | inl gone ↦
        let (r, at, above, from) = w.grown db.root (ground (arith, gone)) in
        elim from [
          | inl first ↦ absurd (ground (arith, apart, bytes_beq_iff start db.root, sym first))
          | inr below ↦
              let (p, at_p, higher, up) = w.grown r.parent_id (ground (arith, below)) in
              absurd (ground (arith, f r at, at_p))
        ]
  ]

  -- The parent of a node that is left is left.
  parent_left :
      (x : Bytes) (n : Node)
      → contains x done ≡ false
      → lookup x db.index ≡ some n
      → contains n.parent_id done ≡ false
  parent_left x n out at = elim (Bool-cases (contains n.parent_id done)) [
    | inr left ↦ left
    | inl gone ↦ absurd (ground (arith, w.closed x n at gone refl, out))
  ]

  without-IsTree : IsTree (without done forks db)
  without-IsTree = record {
    rooted = (t.rooted.0, kept db.root t.rooted.0 done db root_left t.rooted.1);
    headed = (t.headed.0, kept db.head t.headed.0 done db w.spared t.headed.1);
    named = λ id n e. t.named id n (kept_inv id n done db e).1;
    parents = λ id n e.
        let (out, at) = kept_inv id n done db e in
        elim (t.parents id n at) [
          | inl root ↦ inl root
          | inr (p, at_p, above) ↦
              inr (p, kept n.parent_id p done db (parent_left id n out at) at_p, above)
        ];
  }

  -- The parent of the first node is left.
  first_parent_left : (p : Node) × (lookup top.parent_id (erase_all done db.index) ≡ some p)
  first_parent_left = elim (t.parents start top at_start) [
    | inl root ↦ absurd (ground (arith, apart, bytes_beq_iff start db.root, root))
    | inr (p, at_p, above) ↦ elim (Bool-cases (contains top.parent_id done)) [
      | inr left ↦ (p, kept top.parent_id p done db left at_p)
      | inl gone ↦
          let (q, at_q, higher, up) = w.grown top.parent_id (ground (arith, gone)) in
          let same : p ≡ q = some_inj p q (sym at_p ∙ at_q) in
          absurd (omega (arith, above, higher, ap (λ (m : Node). m.revision) same))
    ]
  ]

  start_gone : lookup start (erase_all done db.index) ≡ none
  start_gone = ground (arith, lookup-erase_all start done db.index, w.started)

-- The database after a node was discarded.
pub record Discarded (node_id : Bytes) (db e : Database) : Type 0 where
  pub tree : IsTree e
  pub gone : lookup node_id e.index ≡ none
  pub sorted : IsSorted e.index
  pub same_head : e.head ≡ db.head
  pub same_root : e.root ≡ db.root
  pub subset : (x : Bytes) (n : Node) → lookup x e.index ≡ some n → lookup x db.index ≡ some n

restore_fork-kept :
    (parent_id : Bytes) (p : Node) (db : Database)
    → lookup parent_id db.index ≡ some p
    → (forks : Map Bytes Bytes) × (restore_fork parent_id db
        ≡ (record db { fork_heads = forks }, none))
unfolding restore_fork get_node
restore_fork-kept parent_id p db e = elim (Bool-cases (has_child parent_id db.index)) [
  | inl forked ↦ (db.fork_heads, ground (arith, forked))
  | inr alone ↦ (insert_or_assign p.id p.id db.fork_heads, ground (arith, alone, e))
]

-- What `discard_node` answers: the node is gone, or an exception was thrown, since the head is the
-- node or below it, and no node is gone.
abbrev pub Outcome : Bytes → Database → Database × Option Error → Type 0
Outcome node_id db (e, none) = Discarded node_id db e
Outcome node_id db (e, some x) =
    (x ≡ cannot_discard)
    × Below node_id [] db.index db.head
    × (e.index ≡ db.index)
    × (e.head ≡ db.head)
    × (e.root ≡ db.root)

erase_queue-Outcome :
    (node_id : Bytes) (top : Node) (db : Database) (t : IsTree db) (f : Rootless db)
    (sorted : IsSorted db.index) (at : lookup node_id db.index ≡ some top)
    (r : (List Bytes × Map Bytes Bytes) × Option Error)
    → (node_id == db.root) ≡ false
    → Ended node_id db.head top [] db.index sorted (tree-Layered db t f) at r
    → Outcome node_id db (erase_queue top.parent_id r db)
unfolding erase_queue
erase_queue-Outcome node_id top db t f sorted at ((done, forks), some e) apart w =
    (w.0, w.1, refl, refl, refl)
erase_queue-Outcome node_id top db t f sorted at ((done, forks), none) apart w =
    let (p, at_p) = first_parent_left node_id top db done forks t f w at apart in
    let (forks', restored) = restore_fork-kept top.parent_id p (without done forks db) at_p in
    let tree = without-IsTree node_id top db done forks' t f w at apart in
    subst (Outcome node_id db) (sym restored) (record {
      tree = tree;
      gone = start_gone node_id top db done forks t f w at apart;
      sorted = IsSorted-erase_all done db.index sorted;
      same_head = refl;
      same_root = refl;
      subset = λ x n e. (kept_inv x n done db e).1;
    })

discard_node_found :
    (node_id : Bytes) (top : Node) (db : Database)
    → lookup node_id db.index ≡ some top
    → (node_id == db.root) ≡ false
    → discard_node node_id [] db
      ≡ erase_queue top.parent_id
          (discard_rounds
            (suc (suc (length db.index)))
            db.head
            []
            db.index
            (node_id ∷ [])
            []
            db.fork_heads)
          db
unfolding discard_node get_node
discard_node_found node_id top db at apart = ground (arith, at, apart)

-- On a tree of nodes whose root is no node's child, discarding a node that is stored and not the root
-- ends: either the node is gone, head and root stay, no other node comes in, and what is left is a
-- tree; or `cannot_discard` is thrown, since the head is the node or below it, and index, head and
-- root are as before.
pub discard_node-Outcome :
    (node_id : Bytes) (top : Node) (db : Database)
    → IsTree db
    → Rootless db
    → IsSorted db.index
    → lookup node_id db.index ≡ some top
    → (node_id == db.root) ≡ false
    → Outcome node_id db (discard_node node_id [] db)
discard_node-Outcome node_id top db t f sorted at apart =
    subst (Outcome node_id db) (sym (discard_node_found node_id top db at apart)) (
      erase_queue-Outcome node_id top db t f sorted at
        (discard_rounds (suc (suc (length db.index))) db.head [] db.index (node_id ∷ []) []
          db.fork_heads)
        apart
        (discard_rounds-Ended node_id db.head top [] db.index sorted (tree-Layered db t f) at
          db.fork_heads))
