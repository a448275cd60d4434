-- ===== src/StateDb/Database/Reach.antt =====
-- What holds after any sequence of operations on the index of nodes that do not throw.
use teleno.Base.{
  Bytes, List, [], bytes_key, false, nat_key, none, ok, pair_key, some, ◌++◌, ◌==◌, ◌∷◌, ◌≡◌,
}
use teleno.StateDb.Backend.{BlockHeader}
use teleno.StateDb.Database.{Database, Comparator, create_writable_node, finalize_node}
use teleno.StateDb.Database.Finalize.{Chooses}
use teleno.StateDb.Database.Discard.{discard_node, commit_node}
use teleno.StateDb.Database.Sound.{IsSound, IsSound-create, IsSound-finalize}
use teleno.StateDb.Database.Shrink.{IsSound-discard, IsSound-commit}

-- One operation that does not throw, with the ids of the nodes that it creates.
pub data Step (comp : Comparator) : List Bytes → Database → Database → Type 0 where
  create :
      (parent_id new_id : Bytes) (header : BlockHeader) (d e : Database)
      → create_writable_node parent_id new_id header d ≡ some e
      → Step comp (new_id ∷ []) d e
  finalize :
      (node_id : Bytes) (d e : Database) → finalize_node comp node_id d ≡ ok e → Step comp [] d e
  discard :
      (node_id : Bytes) (d e : Database) → discard_node node_id [] d ≡ (e, none) → Step comp [] d e
  commit : (node_id : Bytes) (d e : Database) → commit_node node_id d ≡ (e, none) → Step comp [] d e

-- A sequence of operations, with the ids of the nodes that they create, those of the last one first.
pub data Reach (comp : Comparator) (start : Database) : List Bytes → Database → Type 0 where
  start_at : Reach comp start [] start
  then_step :
      (ids new : List Bytes) (d e : Database)
      → Reach comp start ids d
      → Step comp new d e
      → Reach comp start (new ++ ids) e

-- None of these ids is the null id.
abbrev pub NoneNull : List Bytes → Type 0
NoneNull [] = Unit
NoneNull (new_id ∷ ids) = ((new_id == []) ≡ false) × NoneNull ids

NoneNull-append : (new ids : List Bytes) → NoneNull (new ++ ids) → NoneNull new × NoneNull ids
NoneNull-append [] ids h = (tt, h)
NoneNull-append (new_id ∷ new) ids h =
    let (front, back) = NoneNull-append new ids h.1 in ((h.0, front), back)

IsSound-Step :
    (comp : Comparator) (new : List Bytes) (d e : Database)
    → Chooses comp
    → NoneNull new
    → IsSound d
    → Step comp new d e
    → IsSound e
IsSound-Step comp _ _ _ ch h s (create parent_id new_id header d e run) =
    IsSound-create parent_id new_id header d e s h.0 run
IsSound-Step comp _ _ _ ch h s (finalize node_id d e run) =
    IsSound-finalize comp node_id d e ch s run
IsSound-Step comp _ _ _ ch h s (discard node_id d e run) = IsSound-discard node_id d e s run
IsSound-Step comp _ _ _ ch h s (commit node_id d e run) = IsSound-commit node_id d e s run

-- After any sequence of creations, finalizations, discards and commits that do not throw, in which
-- no node is created with the null id, and with a comparator that chooses one of the two nodes it
-- compares, a sound database is sound: root and head are in the index, every other node has its
-- parent there one revision lower, the root has the null id as its parent and no node has that id.
pub Reach-IsSound :
    (comp : Comparator) (start e : Database) (ids : List Bytes)
    → Chooses comp
    → IsSound start
    → NoneNull ids
    → Reach comp start ids e
    → IsSound e
Reach-IsSound comp start _ _ ch s h start_at = s
Reach-IsSound comp start _ _ ch s h (then_step ids new d e r st) =
    let (front, back) = NoneNull-append new ids h in
    IsSound-Step comp new d e ch front (Reach-IsSound comp start d ids ch s back r) st
