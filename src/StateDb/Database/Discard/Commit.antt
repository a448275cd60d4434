-- ===== src/StateDb/Database/Discard/Commit.antt =====
-- What committing a node leaves of the tree.
use teleno.Base.{
  Bool-cases, Bytes, List, [], ap, arith, bytes_beq_iff, bytes_key, false, inl, inr, nat_key, none,
  refl, some, some_inj, subst, suc, sym, ◌==◌, ◌∙◌, ◌∷◌, ◌≡◌, ◌⊎◌,
}
use teleno.StdMap.{Map, insert_or_assign, lookup, lookup-insert, lookup-insert_inv}
use teleno.StateDb.Database.{Node, Database}
use teleno.StateDb.Database.Grow.{IsTree}
use teleno.StateDb.Database.Discard.{contains, erase_all}
use teleno.StateDb.Database.Discard.Rounds.{Layered, Looked}
use teleno.StateDb.Database.Discard.Kept.{Rootless, tree-Layered, kept, kept_inv, without}

-- No node has the null id, which is the parent of the root.
pub record IsRooted (db : Database) (r : Node) : Type 0 where
  pub tree : IsTree db
  pub reads_root : lookup db.root db.index ≡ some r
  pub root_parent : r.parent_id ≡ []
  pub null_free : lookup [] db.index ≡ none

-- The new root, and the database before the old one is discarded.
abbrev pub root_node : Node → Node
root_node n = record n { parent_id = [] }

abbrev pub reroot : Bytes → Node → Database → Database
reroot node_id n db = record db {
  root = node_id;
  index = insert_or_assign node_id (root_node n) db.index;
}

module _ (node_id : Bytes) (n r : Node) (db : Database) (v : IsRooted db r)
    (at_node : lookup node_id db.index ≡ some n) (apart : (node_id == db.root) ≡ false) where
  abbrev rooted_node : Node
  rooted_node = root_node n

  abbrev rerooted : Database
  rerooted = reroot node_id n db

  rootless : Rootless db
  rootless s at = ground (
    arith,
    v.null_free,
    v.root_parent,
    ap (λ (m : Node). m.parent_id) (some_inj r s (sym v.reads_root ∙ at)),
  )

  pub null_free_after : lookup [] rerooted.index ≡ none
  null_free_after = ground (
    arith,
    lookup-insert node_id [] rooted_node db.index,
    v.null_free,
    at_node,
    bytes_beq_iff node_id [],
    ap (λ k. lookup k db.index),
  )

  -- A node of the old index stands in the new one, with its revision.
  still_in :
      (x : Bytes) (m : Node)
      → lookup x db.index ≡ some m
      → (q : Node) × (lookup x rerooted.index ≡ some q) × (q.revision ≡ m.revision)
  still_in x m at = elim (Bool-cases (node_id == x)) [
    | inl same ↦ (
      rooted_node,
      ground (arith, lookup-insert node_id x rooted_node db.index, same),
      ap (λ (k : Node). k.revision)
          (some_inj n m
            (sym at_node ∙ ap (λ k. lookup k db.index) ((bytes_beq_iff node_id x).0 same) ∙ at)),
    )
    | inr other ↦ (m, ground (arith, lookup-insert node_id x rooted_node db.index, other, at), refl)
  ]

  pub rerooted-Layered : Layered rerooted.index
  rerooted-Layered x m p at up = elim (lookup-insert_inv node_id x rooted_node m db.index at) [
    | inl (here, same) ↦ absurd (
        ground
          (arith, null_free_after, up, ap (λ (k : Node). lookup k.parent_id rerooted.index) same))
    | inr (other, old) ↦ elim (lookup-insert_inv node_id m.parent_id rooted_node p db.index up) [
      | inl (there, same) ↦
          tree-Layered db v.tree rootless x m n old
            (subst (λ k. lookup k db.index ≡ some n) there at_node)
          ∙ ap (λ (k : Node). suc k.revision) same
      | inr (elsewhere, old_parent) ↦ tree-Layered db v.tree rootless x m p old old_parent
    ]
  ]

  pub root_in : lookup db.root rerooted.index ≡ some r
  root_in = ground (arith, lookup-insert node_id db.root rooted_node db.index, apart, v.reads_root)

  pub node_in : lookup node_id rerooted.index ≡ some rooted_node
  node_in =
      ground
        (arith, lookup-insert node_id node_id rooted_node db.index, bytes_beq_iff node_id node_id)

  module _ (done : List Bytes) (forks : Map Bytes Bytes)
      (w : Looked db.root db.head r (node_id ∷ []) rerooted.index [] done) where
    null_left : contains [] done ≡ false
    null_left = elim (Bool-cases (contains [] done)) [
      | inr out ↦ out
      | inl gone ↦
          let (m, at, above, from) = w.grown [] (ground (arith, gone)) in
          absurd (ground (arith, at, null_free_after))
    ]

    pub node_left : contains node_id done ≡ false
    node_left = elim (Bool-cases (contains node_id done)) [
      | inr out ↦ out
      | inl gone ↦
          let (m, at, above, from) = w.grown node_id (ground (arith, gone)) in
          let same : rooted_node ≡ m = some_inj rooted_node m (sym node_in ∙ at) in
          elim from [
            | inl first ↦ absurd (ground (arith, apart, bytes_beq_iff node_id db.root, first))
            | inr below ↦ absurd (
                ground (arith, below, null_left, ap (λ (k : Node). contains k.parent_id done) same))
          ]
    ]

    placed :
        (x : Bytes) (m : Node)
        → contains x done ≡ false
        → lookup x rerooted.index ≡ some m
        → (x ≡ node_id)
          ⊎ ((p : Node) × (lookup m.parent_id (erase_all done rerooted.index) ≡ some p)
              × (m.revision ≡ suc p.revision))
    placed x m out at = elim (lookup-insert_inv node_id x rooted_node m db.index at) [
      | inl (here, same) ↦ inl (sym here)
      | inr (other, old) ↦ elim (v.tree.parents x m old) [
        | inl root ↦ absurd (ground (arith, out, w.started, ap (λ k. contains k done) root))
        | inr (p, at_p, above) ↦ elim (Bool-cases (contains m.parent_id done)) [
          | inl gone ↦ absurd (ground (arith, w.closed x m at gone (ground (arith, other)), out))
          | inr left ↦
              let (q, at_q, rev) = still_in m.parent_id p at_p in
              inr (q, kept m.parent_id q done rerooted left at_q, above ∙ ap suc (sym rev))
        ]
      ]
    ]

    named_after : (x : Bytes) (m : Node) → lookup x rerooted.index ≡ some m → m.id ≡ x
    named_after x m at = elim (lookup-insert_inv node_id x rooted_node m db.index at) [
      | inl (here, same) ↦
          ap (λ (k : Node). k.id) (sym same) ∙ v.tree.named node_id n at_node ∙ here
      | inr (other, old) ↦ v.tree.named x m old
    ]

    pub committed-IsTree : IsTree (without done forks rerooted)
    committed-IsTree = record {
      rooted = (rooted_node, kept node_id rooted_node done rerooted node_left node_in);
      headed =
          let (q, at_q, rev) = still_in db.head v.tree.headed.0 v.tree.headed.1 in
          (q, kept db.head q done rerooted w.spared at_q);
      named = λ x m e. named_after x m (kept_inv x m done rerooted e).1;
      parents = λ x m e. let (out, at) = kept_inv x m done rerooted e in placed x m out at;
    }
