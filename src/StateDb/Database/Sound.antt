-- ===== src/StateDb/Database/Sound.antt =====
-- What holds between the operations on the index of nodes, and that creating and finalizing a node
-- keep it.
use teleno.Base.{
  Bool-cases, Bytes, Option-cases, [], ap, arith, bytes_beq_iff, bytes_key, false, if◌then◌else◌,
  inl, inr, nat_key, none, ok, ok_inj, some, some_inj, subst, sym, true, ◌==◌, ◌∙◌, ◌≡◌,
}
use teleno.StdMap.{IsSorted, IsSorted-insert, lookup, lookup-insert, insert_or_assign}
use teleno.StateDb.Backend.{BlockHeader}
use teleno.StateDb.Database.{
  Node, Database, Comparator, create_writable_node, finalize_node, get_node,
}
use teleno.StateDb.Database.Grow.{IsTree, with_node, new_node, create_writable_node-IsTree}
use teleno.StateDb.Database.Finalize.{Chooses, finalize_node-Finalized, finalize_node_index, marked}
use teleno.StateDb.Database.Discard.Commit.{IsRooted}

-- Nodes, head and root make a tree in a sorted index; the root has the null id as its parent, and no
-- node has that id.
pub record IsSound (db : Database) : Type 0 where
  pub top : Node
  pub rooted : IsRooted db top
  pub sorted : IsSorted db.index

created :
    (parent_id new_id : Bytes) (header : BlockHeader) (d e : Database)
    → create_writable_node parent_id new_id header d ≡ some e
    → (p : Node) × (lookup parent_id d.index ≡ some p)
      × (p.finalized ≡ true)
      × (lookup new_id d.index ≡ none)
      × (with_node new_id (new_node new_id header p) d ≡ e)
unfolding create_writable_node get_node
created parent_id new_id header d e run = elim (Option-cases (lookup parent_id d.index)) [
  | inl absent ↦ absurd (ground (arith, run, absent))
  | inr (p, at) ↦ (p, at, ground (arith, run, at), ground (arith, run, at), ground (arith, run, at))
]

pub IsSound-create :
    (parent_id new_id : Bytes) (header : BlockHeader) (d e : Database)
    → IsSound d
    → (new_id == []) ≡ false
    → create_writable_node parent_id new_id header d ≡ some e
    → IsSound e
IsSound-create parent_id new_id header d e s fresh run =
    let (p, at, final, free, same) = created parent_id new_id header d e run in
    let v = s.rooted in
    subst IsSound same (record {
      top = s.top;
      rooted = record {
        tree = (create_writable_node-IsTree parent_id new_id header p d v.tree at final free).1;
        reads_root = ground (
          arith,
          lookup-insert new_id d.root (new_node new_id header p) d.index,
          v.reads_root,
          free,
          bytes_beq_iff new_id d.root,
          ap (λ k. lookup k d.index),
        );
        root_parent = v.root_parent;
        null_free =
            ground (
              arith,
              lookup-insert new_id [] (new_node new_id header p) d.index,
              v.null_free,
              fresh,
            );
      };
      sorted = IsSorted-insert new_id (new_node new_id header p) d.index s.sorted;
    })

not_finalized :
    (comp : Comparator) (node_id : Bytes) (d e : Database)
    → lookup node_id d.index ≡ none
    → ¬ (finalize_node comp node_id d ≡ ok e)
unfolding finalize_node get_node
not_finalized comp node_id d e absent run = ground (arith, absent, run)

-- A replaced node that keeps its parent leaves a sound database sound.
IsSound-replace :
    (node_id : Bytes) (n : Node) (d e : Database)
    → IsSound d
    → IsTree e
    → lookup node_id d.index ≡ some n
    → e.index ≡ insert_or_assign node_id (marked n) d.index
    → e.root ≡ d.root
    → IsSound e
IsSound-replace node_id n d e s tree at index root =
    let v = s.rooted in
    let reads : (k : Bytes)
        → lookup k e.index ≡ (if node_id == k then some (marked n) else lookup k d.index) =
      λ k. ap (λ m. lookup k m) index ∙ lookup-insert node_id k (marked n) d.index in
    let null_free : lookup [] e.index ≡ none =
      ground
        (arith, reads [], v.null_free, at, bytes_beq_iff node_id [], ap (λ k. lookup k d.index)) in
    let sorted : IsSorted e.index =
      subst IsSorted (sym index) (IsSorted-insert node_id (marked n) d.index s.sorted) in
    elim (Bool-cases (node_id == d.root)) [
      | inl same ↦ record {
        top = marked n;
        rooted = record {
          tree = tree;
          reads_root = ap (λ k. lookup k e.index) root ∙ ground (arith, reads d.root, same);
          root_parent =
              ap (λ (m : Node). m.parent_id)
                (some_inj n s.top (
                  sym at
                  ∙ ap (λ k. lookup k d.index) ((bytes_beq_iff node_id d.root).0 same)
                  ∙ v.reads_root))
              ∙ v.root_parent;
          null_free = null_free;
        };
        sorted = sorted;
      }
      | inr other ↦ record {
        top = s.top;
        rooted = record {
          tree = tree;
          reads_root =
              ap (λ k. lookup k e.index) root ∙ ground (arith, reads d.root, other, v.reads_root);
          root_parent = v.root_parent;
          null_free = null_free;
        };
        sorted = sorted;
      }
    ]

pub IsSound-finalize :
    (comp : Comparator) (node_id : Bytes) (d e : Database)
    → Chooses comp
    → IsSound d
    → finalize_node comp node_id d ≡ ok e
    → IsSound e
IsSound-finalize comp node_id d e ch s run = elim (Option-cases (lookup node_id d.index)) [
  | inl absent ↦ absurd (not_finalized comp node_id d e absent run)
  | inr (n, at) ↦
      let t = s.rooted.tree in
      let (h, at_head) = t.headed in
      let (e', run', fin) = finalize_node-Finalized comp node_id n h d ch t at at_head in
      let (index, root) = finalize_node_index comp node_id n h d e ch t at at_head run in
      IsSound-replace node_id n d e s (subst IsTree (ok_inj e' e (sym run' ∙ run)) fin.tree) at
        index root
]
