-- ===== src/StateDb/Database/Revision.antt =====
-- The search for an ancestor by its revision.
use teleno.Base.{
  Bool-cases, Bytes, ap, arith, bytes_key, inl, inr, ltb, nat_beq, nat_key, ok, some, some_inj, suc,
  sym, zero, ℕ, ◌<◌, ◌∙◌, ◌≡◌, ◌≤◌,
}
use teleno.StdMap.{lookup}
use teleno.StateDb.Database.{
  Node, Database, get_node, get_root, get_head, down_to, get_node_at_revision,
}
use teleno.StateDb.Database.Grow.{IsTree}

down_to-finds :
    (fuel revision : ℕ) (id : Bytes) (n r : Node) (db : Database)
    → IsTree db
    → lookup db.root db.index ≡ some r
    → lookup id db.index ≡ some n
    → r.revision ≤ revision
    → revision ≤ n.revision
    → n.revision < fuel
    → (m : Node) × (down_to fuel revision n db ≡ ok m) × (m.revision ≡ revision)
unfolding down_to get_node
down_to-finds zero revision id n r db t er e low high lt = absurd (omega arith)
down_to-finds (suc fuel) revision id n r db t er e low high lt =
    elim (Bool-cases (ltb revision n.revision)) [
      | inl above ↦ elim (t.parents id n e) [
        | inl top ↦
            absurd (ground (arith, some_inj n r (sym e ∙ ap (λ x. lookup x db.index) top ∙ er)))
        | inr (p, ep, up) ↦
            let (m, run, at) =
              down_to-finds fuel revision n.parent_id p r db t er ep low (ground arith)
                (ground arith) in
            (m, ground (arith, ep, run), at)
      ]
      | inr here ↦ (n, ground arith, ground arith)
    ]

-- On a tree of nodes, for a revision from that of the root to that of a stored node, the search from
-- that node returns a node of that revision.
pub get_node_at_revision-finds :
    (revision : ℕ) (child_id : Bytes) (n r : Node) (db : Database)
    → IsTree db
    → lookup db.root db.index ≡ some r
    → lookup child_id db.index ≡ some n
    → r.revision ≤ revision
    → revision ≤ n.revision
    → (m : Node) × (get_node_at_revision revision child_id db ≡ ok m) × (m.revision ≡ revision)
unfolding get_node_at_revision get_root get_node get_head
get_node_at_revision-finds revision child_id n r db t er e low high =
    let (m, run, at) =
      down_to-finds (suc n.revision) revision child_id n r db t er e low high (omega arith) in
    elim (Bool-cases (nat_beq revision r.revision)) [
      | inl same ↦ (r, ground (arith, er, e), ground arith)
      | inr other ↦ (m, ground (arith, er, e, run), at)
    ]
