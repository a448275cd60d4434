-- ===== src/StateDb/Database/Shrink.antt =====
-- Discarding and committing a node keep the database sound.
use teleno.Base.{
  Bool-cases, Bytes, Option, Option-cases, [], ap, arith, bytes_key, false, inl, inr, nat_key, none,
  some, some_inj, subst, sym, true, ◌==◌, ◌∙◌, ◌≡◌,
}
use teleno.StdMap.{lookup}
use teleno.StateDb.Database.{Node, Database, get_node, illegal_argument, Error}
use teleno.StateDb.Database.Discard.{discard_node, commit_node}
use teleno.StateDb.Database.Discard.Kept
use teleno.StateDb.Database.Discard.Kept.{Rootless, Discarded, discard_node-Outcome}
use teleno.StateDb.Database.Discard.Committed
use teleno.StateDb.Database.Discard.Committed.{commit_node-Outcome}
use teleno.StateDb.Database.Sound.{IsSound}

-- What `discard_node` does where it does not look at the queue.
discard_absent :
    (node_id : Bytes) (d : Database)
    → lookup node_id d.index ≡ none
    → discard_node node_id [] d ≡ (d, none)
unfolding discard_node get_node
discard_absent node_id d e = ground (arith, e)

discard_root :
    (node_id : Bytes) (n : Node) (d : Database)
    → lookup node_id d.index ≡ some n
    → (node_id == d.root) ≡ true
    → discard_node node_id [] d ≡ (d, some illegal_argument)
unfolding discard_node get_node
discard_root node_id n d e same = ground (arith, e, same)

Discarded-IsSound :
    (node_id : Bytes) (d e : Database) → IsSound d → Discarded node_id d e → IsSound e
Discarded-IsSound node_id d e s g =
    let v = s.rooted in
    let (r, at) = g.tree.rooted in
    let same : r ≡ s.top =
      some_inj r s.top
        (sym (g.subset e.root r at) ∙ ap (λ k. lookup k d.index) g.same_root ∙ v.reads_root) in
    record {
      top = r;
      rooted = record {
        tree = g.tree;
        reads_root = at;
        root_parent = ap (λ (m : Node). m.parent_id) same ∙ v.root_parent;
        null_free = elim (Option-cases (lookup [] e.index)) [
          | inl free ↦ free
          | inr (n, found) ↦ absurd (ground (arith, g.subset [] n found, v.null_free))
        ];
      };
      sorted = g.sorted;
    }

sound_Rootless : (d : Database) → IsSound d → Rootless d
sound_Rootless d s r at = ground (
  arith,
  s.rooted.null_free,
  s.rooted.root_parent,
  ap (λ (m : Node). m.parent_id) (some_inj s.top r (sym s.rooted.reads_root ∙ at)),
)

pub IsSound-discard :
    (node_id : Bytes) (d e : Database)
    → IsSound d
    → discard_node node_id [] d ≡ (e, none)
    → IsSound e
IsSound-discard node_id d e s run = elim (Option-cases (lookup node_id d.index)) [
  | inl absent ↦
      subst IsSound
        (ap (λ (x : Database × Option Error). x.0) (sym (discard_absent node_id d absent) ∙ run)) s
  | inr (n, at) ↦ elim (Bool-cases (node_id == d.root)) [
    | inl same ↦ absurd (ground (arith, discard_root node_id n d at same, run))
    | inr apart ↦ Discarded-IsSound node_id d e s (
        subst (Kept.Outcome node_id d) run
          (discard_node-Outcome node_id n d s.rooted.tree (sound_Rootless d s) s.sorted at apart))
  ]
]

commit_root :
    (node_id : Bytes) (d : Database)
    → (node_id == d.root) ≡ true
    → commit_node node_id d ≡ (d, none)
unfolding commit_node
commit_root node_id d same = ground (arith, same)

commit_absent :
    (node_id : Bytes) (d : Database)
    → (node_id == d.root) ≡ false
    → lookup node_id d.index ≡ none
    → commit_node node_id d ≡ (d, some illegal_argument)
unfolding commit_node get_node
commit_absent node_id d apart e = ground (arith, e, apart)

pub IsSound-commit :
    (node_id : Bytes) (d e : Database) → IsSound d → commit_node node_id d ≡ (e, none) → IsSound e
IsSound-commit node_id d e s run = elim (Bool-cases (node_id == d.root)) [
  | inl same ↦
      subst IsSound
        (ap (λ (x : Database × Option Error). x.0) (sym (commit_root node_id d same) ∙ run)) s
  | inr apart ↦ elim (Option-cases (lookup node_id d.index)) [
    | inl absent ↦ absurd (ground (arith, commit_absent node_id d apart absent, run))
    | inr (n, at) ↦
        let g : Committed.Committed node_id n d e =
          subst (Committed.Outcome node_id n d) run
            (commit_node-Outcome node_id n s.top d s.rooted at apart s.sorted) in
        record { top = record n { parent_id = [] }; rooted = g.rooted; sorted = g.sorted }
  ]
]
