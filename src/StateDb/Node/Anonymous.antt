-- ===== src/StateDb/Node/Anonymous.antt =====
-- What an anonymous node and its node read after `commit` and `reset`.
use teleno.Base.{
  Bytes, List, Option, [], ap, arith, bytes_key, false, length, nat_key, ok, pair_key, refl, ◌+◌,
  ◌∙◌, ◌∷◌, ◌≡◌,
}
use teleno.StateDb.Backend.{empty_header}
use teleno.StdMap.{IsSorted}
use teleno.StateDb.Delta.{make_child, Delta, Fields, child, fields, find, squash_into, with_fields}
use teleno.StateDb.Delta.Find.{find-make_child}
use teleno.StateDb.Delta.Squash.{find-squash_into}
use teleno.StateDb.Node.{
  AnonymousNode, chain, state, state_parent, create_anonymous_node, reset, squash_anonymous,
  commit_anonymous,
}

find-over :
    (f : Fields) (q p : Delta) (k : Bytes)
    → find q k ≡ find (child f p) k
    → find (child f q) k ≡ find (child f p) k
unfolding find
find-over f q p k e = ground arith

find-create_anonymous_node :
    (zero_hash k : Bytes) (d : Delta)
    → find (state (create_anonymous_node zero_hash d)) k ≡ find d k
unfolding create_anonymous_node state state_parent chain make_child
find-create_anonymous_node zero_hash k d = find-make_child [] zero_hash k empty_header d

-- `reset` discards nothing: whatever was written to the anonymous node still reads the same.
find-reset :
    (zero_hash k : Bytes) (a : AnonymousNode)
    → find (state (reset zero_hash a)) k ≡ find (state a) k
unfolding reset state state_parent chain make_child
find-reset zero_hash k a = find-make_child [] zero_hash k empty_header (state a)

abbrev node_of : Fields → List Fields → Delta → AnonymousNode
node_of top between p = record { top = top; between = between; parent = p }

-- The squash moves the writes one delta down.
squash_below :
    (top : Fields) (between : List Fields) (p : Delta) (k : Bytes)
    → IsSorted top.backend.objects
    → find (state_parent (squash_anonymous (node_of top between p))) k
      ≡ find (state (node_of top between p)) k
unfolding squash_anonymous state_parent state chain squash_into fields with_fields
squash_below top [] p k h = find-squash_into top p k h
squash_below top (f ∷ fs) p k h = find-squash_into top (child f (chain fs p)) k h

-- What the anonymous node reads stays.
squash_state :
    (top : Fields) (between : List Fields) (p : Delta) (k : Bytes)
    → IsSorted top.backend.objects
    → find (state (squash_anonymous (node_of top between p))) k
      ≡ find (state (node_of top between p)) k
unfolding squash_anonymous state_parent state chain
squash_state top [] p k h = find-over top (squash_into top p) p k (squash_below top [] p k h)
squash_state top (f ∷ fs) p k h =
    find-over top _ (child f (chain fs p)) k (squash_below top (f ∷ fs) p k h)

-- What the node reads: what the anonymous node read if its delta stands on that of the node.
abbrev pub reads_after : AnonymousNode → Bytes → Option Bytes
reads_after a k = elim a.between [ [] ↦ find (state a) k | f ∷ fs ↦ find a.parent k ]

squash_node :
    (top : Fields) (between : List Fields) (p : Delta) (k : Bytes)
    → IsSorted top.backend.objects
    → find (squash_anonymous (node_of top between p)).parent k
      ≡ reads_after (node_of top between p) k
unfolding squash_anonymous state_parent state chain
squash_node top [] p k h = find-squash_into top p k h
squash_node top (f ∷ fs) p k h = refl

squash_length :
    (top : Fields) (between : List Fields) (p : Delta)
    → length (squash_anonymous (node_of top between p)).between ≡ length between
unfolding squash_anonymous
squash_length top [] p = refl
squash_length top (f ∷ fs) p = refl

-- An anonymous node `a` that commits as `b`: it reads as before, and so does its node, unless the
-- delta of `a` stood on that of the node, which then reads as `a` did; and the delta of `b` does not
-- stand on it.
pub record Moved (a b : AnonymousNode) : Type 0 where
  pub reads : (k : Bytes) → find (state b) k ≡ find (state a) k
  pub node : (k : Bytes) → find b.parent k ≡ reads_after a k
  pub reused : length b.between ≡ length a.between + 1

-- `commit` of an anonymous node, whose backend is a sorted map, over a node that is not finalized
-- succeeds, and the anonymous node reads at every key as before. The first commit since the creation
-- of the anonymous node, if there was no reset, leaves the node reading as the anonymous node; any
-- other leaves it reading as before.
pub find-commit_anonymous :
    (zero_hash : Bytes) (a : AnonymousNode)
    → IsSorted a.top.backend.objects
    → (fields a.parent).finalized ≡ false
    → (b : AnonymousNode) × (commit_anonymous zero_hash a ≡ ok b) × Moved a b
unfolding commit_anonymous
find-commit_anonymous zero_hash a h e = (
  reset zero_hash (squash_anonymous a),
  rw e refl,
  record {
    reads = λ k.
        find-reset zero_hash k (squash_anonymous a) ∙ squash_state a.top a.between a.parent k h;
    node = λ k.
        reset_parent zero_hash (squash_anonymous a) k ∙ squash_node a.top a.between a.parent k h;
    reused =
        reset_length zero_hash (squash_anonymous a)
        ∙ ap (λ n. n + 1) (squash_length a.top a.between a.parent);
  },
)
  where
    reset_parent :
        (zero_hash : Bytes) (b : AnonymousNode) (k : Bytes)
        → find (reset zero_hash b).parent k ≡ find b.parent k
    reset_parent zero_hash b k = refl

    reset_length :
        (zero_hash : Bytes) (b : AnonymousNode)
        → length (reset zero_hash b).between ≡ length b.between + 1
    reset_length zero_hash b = omega arith
