-- ===== src/StateDb/Database/Grow.antt =====
-- The index of nodes is a tree, which the creation of nodes and their finalization keep.
use teleno.Base.{
  Bool-cases, Bytes, ap, arith, bytes_beq_iff, bytes_key, false, inl, inr, nat_key, none, refl,
  some, subst, suc, sym, true, ◌==◌, ◌∙◌, ◌≡◌, ◌⊎◌,
}
use teleno.StdMap.{lookup, insert_or_assign, lookup-insert}
use teleno.StateDb.Backend.{BlockHeader}
use teleno.StateDb.Database.{Node, Database, get_node, create_writable_node}

-- Root and head are in the index, every node stands under its id, and every node but the root has
-- its parent in the index, one revision lower.
pub record IsTree (db : Database) : Type 0 where
  pub rooted : (r : Node) × (lookup db.root db.index ≡ some r)
  pub headed : (h : Node) × (lookup db.head db.index ≡ some h)
  pub named : (id : Bytes) (n : Node) → lookup id db.index ≡ some n → n.id ≡ id
  pub parents :
      (id : Bytes) (n : Node)
      → lookup id db.index ≡ some n
      → (id ≡ db.root)
        ⊎ ((p : Node) × (lookup n.parent_id db.index ≡ some p) × (n.revision ≡ suc p.revision))

-- What may stand under an id next: a node of that id, of the revision that stood there before.
pub record Replaces (k : Bytes) (n : Node) (db : Database) : Type 0 where
  pub named : n.id ≡ k
  pub same : (o : Node) → lookup k db.index ≡ some o → n.revision ≡ o.revision
  pub parent :
      (k ≡ db.root)
      ⊎ ((p : Node) × (lookup n.parent_id db.index ≡ some p) × (n.revision ≡ suc p.revision))

abbrev pub with_node : Bytes → Node → Database → Database
with_node k n db = record db { index = insert_or_assign k n db.index }

pub still_there :
    (k i : Bytes) (n p : Node) (db : Database)
    → Replaces k n db
    → lookup i db.index ≡ some p
    → (q : Node) × (lookup i (with_node k n db).index ≡ some q) × (q.revision ≡ p.revision)
still_there k i n p db w e = elim (Bool-cases (k == i)) [
  | inl same ↦ (
    n,
    rw (lookup-insert k i n db.index, same),
    w.same p (subst (λ x. lookup x db.index ≡ some p) (sym ((bytes_beq_iff k i).0 same)) e),
  )
  | inr other ↦ (p, rw (lookup-insert k i n db.index, other) e, refl)
]

-- Where a node stands in the tree: it is the root, or its parent is there.
abbrev Placed : Bytes → Node → Database → Type 0
Placed i m db =
    (i ≡ db.root)
    ⊎ ((p : Node) × (lookup m.parent_id db.index ≡ some p) × (m.revision ≡ suc p.revision))

Placed-with_node :
    (k i : Bytes) (n m : Node) (db : Database)
    → Replaces k n db
    → Placed i m db
    → Placed i m (with_node k n db)
Placed-with_node k i n m db w (inl r) = inl r
Placed-with_node k i n m db w (inr (p, e, up)) =
    let (q, e', same) = still_there k m.parent_id n p db w e in inr (q, e', up ∙ ap suc (sym same))

found_in :
    (k i : Bytes) (n m : Node) (db : Database)
    → lookup i (with_node k n db).index ≡ some m
    → ((i ≡ k) × (m ≡ n)) ⊎ (lookup i db.index ≡ some m)
found_in k i n m db e = elim (Bool-cases (k == i)) [
  | inl same ↦
      inl (sym ((bytes_beq_iff k i).0 same), ground (arith, lookup-insert k i n db.index, e, same))
  | inr other ↦ inr (ground (arith, lookup-insert k i n db.index, e, other))
]

Placed-after :
    (k i : Bytes) (n m : Node) (db : Database)
    → IsTree db
    → Replaces k n db
    → ((i ≡ k) × (m ≡ n)) ⊎ (lookup i db.index ≡ some m)
    → (m.id ≡ i) × Placed i m (with_node k n db)
Placed-after k i n m db t w (inl (same, new)) =
    subst (λ x. (x.id ≡ i) × Placed i x (with_node k n db)) (sym new)
      (
        w.named ∙ sym same,
        Placed-with_node k i n n db w (subst (λ x. Placed x n db) (sym same) w.parent),
      )
Placed-after k i n m db t w (inr e) =
    (t.named i m e, Placed-with_node k i n m db w (t.parents i m e))

pub with_node-IsTree :
    (k : Bytes) (n : Node) (db : Database) → IsTree db → Replaces k n db → IsTree (with_node k n db)
with_node-IsTree k n db t w = record {
  rooted = let (q, e, _) = still_there k db.root n t.rooted.0 db w t.rooted.1 in (q, e);
  headed = let (q, e, _) = still_there k db.head n t.headed.0 db w t.headed.1 in (q, e);
  named = λ i m e. (Placed-after k i n m db t w (found_in k i n m db e)).0;
  parents = λ i m e. (Placed-after k i n m db t w (found_in k i n m db e)).1;
}

abbrev pub new_node : Bytes → BlockHeader → Node → Node
new_node new_id header p = record {
  id = new_id;
  parent_id = p.id;
  revision = suc p.revision;
  header = header;
  finalized = false;
}

-- On a tree of nodes, a node that is created under a finalized parent, with an id that no node has,
-- is one revision above its parent, is not finalized, and leaves a tree; nothing else changes.
pub create_writable_node-IsTree :
    (parent_id new_id : Bytes) (header : BlockHeader) (p : Node) (db : Database)
    → IsTree db
    → lookup parent_id db.index ≡ some p
    → p.finalized ≡ true
    → lookup new_id db.index ≡ none
    → (create_writable_node parent_id new_id header db
        ≡ some (with_node new_id (new_node new_id header p) db))
      × IsTree (with_node new_id (new_node new_id header p) db)
unfolding create_writable_node get_node
create_writable_node-IsTree parent_id new_id header p db t e fin free = (
  ground (arith, e, fin, free),
  with_node-IsTree new_id (new_node new_id header p) db t (record {
    named = refl;
    same = λ o old. absurd (ground (arith, free, old));
    parent = inr (p, subst (λ x. lookup x db.index ≡ some p) (sym (t.named parent_id p e)) e, refl);
  }),
)
