-- ===== src/StateDb/Node.antt =====
-- koinos/state_db/state_db.cpp: `state_node_impl` reads and writes the objects of a node through
-- its delta, under keys that pair an object space with a key; an anonymous node collects writes
-- and moves them into its parent by `commit`. `merge_state::find` is the delta's `find`.
pub mod Laws
pub mod Anonymous
use teleno.Base.{
  Bool, Bytes, List, Option, Result, [], bytes_key, false, if◌then◌else◌, koinos_assert, length,
  nat_key, none, not, ok, pair_key, pos, some, true, ℕ, ℤ, ◌+ℤ◌, ◌-ℤ◌, ◌<?◌, ◌>>=◌, ◌>>◌, ◌∷◌,
}
use teleno.StateDb.Backend.{empty_header}
use teleno.StateDb.Delta.{
  Delta, Fields, Error, node_finalized, child, fields, with_fields, find, put, erase, make_child,
  squash_into,
}

pub record ObjectSpace : Type 0 where
  pub system : Bool
  pub zone : Bytes
  pub id : ℕ

bool_less : Bool → Bool → Bool
bool_less false true = true
bool_less a b = false

-- `operator<` on object spaces.
unfoldable pub space_less : ObjectSpace → ObjectSpace → Bool
unfolding bool_less
space_less l r =
    if bool_less l.system r.system
    then true
    else if bool_less r.system l.system
    then false
    else if l.zone <? r.zone
    then true
    else if bool_less r.system l.system
    then false
    else l.id <? r.id

-- `bytes_used` of a write and of a removal, by the object that was found. Sizes are those of objects
-- in memory: sums of three of them do not leave `int64_t`.
unfoldable pub bytes_put : Bytes → Bytes → Option Bytes → ℤ
bytes_put key_string val (some obj) = pos 0 -ℤ pos (length obj) +ℤ pos (length val)
bytes_put key_string val none = pos (length key_string) +ℤ pos (length val)

unfoldable pub bytes_removed : Bytes → Option Bytes → ℤ
bytes_removed key_string (some obj) = pos 0 -ℤ pos (length obj) -ℤ pos (length key_string)
bytes_removed key_string none = pos 0

-- The bytes of a `chain::database_key` are those of generated code: `encode` is a parameter.
module _ (encode : ObjectSpace → Bytes → Bytes) where
  unfoldable pub get_object : ObjectSpace → Bytes → Delta → Option Bytes
  get_object space key d = find d (encode space key)

  unfoldable pub put_object : ObjectSpace → Bytes → Bytes → Delta → Result Error (ℤ × Delta)
  unfolding fields bytes_put
  put_object space key val d = do
    koinos_assert (not (fields d).finalized) node_finalized
    let key_string = encode space key
    ok (bytes_put key_string val (find d key_string), put key_string val d)

  unfoldable pub remove_object : ObjectSpace → Bytes → Bool → Delta → Result Error (ℤ × Delta)
  unfolding fields bytes_removed
  remove_object space key preserve_tombstone d = do
    koinos_assert (not (fields d).finalized) node_finalized
    let key_string = encode space key
    ok (bytes_removed key_string (find d key_string), erase key_string preserve_tombstone d)

-- `anonymous_state_node`. Its `_state` is the delta `top`; `between` are the deltas between it and
-- the delta of `_parent`, the nearest to `top` first, which come from `reset`; `parent` is the delta
-- of `_parent`, which the chain shares.
pub record AnonymousNode : Type 0 where
  pub top : Fields
  pub between : List Fields
  pub parent : Delta

unfoldable pub chain : List Fields → Delta → Delta
chain [] p = p
chain (f ∷ fs) p = child f (chain fs p)

-- The parent of `_state`, and `_state`.
unfoldable pub state_parent : AnonymousNode → Delta
unfolding chain
state_parent a = chain a.between a.parent

unfoldable pub state : AnonymousNode → Delta
unfolding state_parent
state a = child a.top (state_parent a)

unfoldable pub create_anonymous_node : Bytes → Delta → AnonymousNode
unfolding fields
create_anonymous_node zero_hash d = record {
  top = fields (make_child [] empty_header zero_hash d);
  between = [];
  parent = d;
}

-- `anonymous_state_node::reset`: the new delta is a child of the anonymous delta that was there.
unfoldable pub reset : Bytes → AnonymousNode → AnonymousNode
unfolding fields state
reset zero_hash a = record a {
  top = fields (make_child [] empty_header zero_hash (state a));
  between = a.top ∷ a.between;
}

-- `_impl->_state->squash()`: into the next delta of the anonymous node if there is one, and into
-- that of `_parent` if not.
unfoldable pub squash_anonymous : AnonymousNode → AnonymousNode
unfolding squash_into fields state_parent
squash_anonymous a = elim a.between [
  | [] ↦ record a { parent = squash_into a.top a.parent }
  | f ∷ fs ↦ record a { between = fields (squash_into a.top (state_parent a)) ∷ fs }
]

-- `anonymous_state_node::commit`.
unfoldable pub commit_anonymous : Bytes → AnonymousNode → Result Error AnonymousNode
unfolding fields reset squash_anonymous
commit_anonymous zero_hash a = do
  koinos_assert (not (fields a.parent).finalized) node_finalized
  ok (reset zero_hash (squash_anonymous a))
