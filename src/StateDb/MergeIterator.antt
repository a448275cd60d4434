-- ===== src/StateDb/MergeIterator.antt =====
-- koinos/state_db/merge_iterator.hpp and .cpp, forwards: the objects of a chain of deltas in key
-- order, and `state_node_impl::get_next_object` (state_db.cpp), which reads them. An iterator is
-- the list of its wrappers, one for each delta, the head's first. A wrapper keeps its delta, which
-- stands for the wrapper's `backend` and `revision` and for the delta's place in `_delta_deque`, and
-- the entries from `itr` to the end of the backend. An entry is `modify`d by its revision, which is
-- a unique key of the multi-index. `operator--` is not modelled.
pub mod First
pub mod Invariant
pub mod Steps
pub mod Advance
pub mod Resolve
pub mod Laws
pub mod Start
pub mod Traversal
pub mod NextObject
mod Examples
use teleno.Base.{
  Bool, Bytes, List, Option, Result, [], bytes_key, err, false, if◌then◌else◌, length, nat_beq,
  nat_key, none, not, ok, or_throw, some, suc, true, zero, ℕ, ◌&&◌, ◌+◌, ◌<?◌, ◌==◌, ◌>>=◌, ◌||◌,
  ◌∷◌,
}
use teleno.StdMap.{Map}
use teleno.StateDb.Delta.{Delta, Fields, root, child, is_modified}
use teleno.StateDb.Node.{ObjectSpace}

pub record Wrapper : Type 0 where
  pub delta : Fields
  pub itr : Map Bytes Bytes

pub data Error : Type 0 where
  koinos_exception parse_failure : Error

unfoldable pub valid : Wrapper → Bool
valid w = elim w.itr [ [] ↦ false | e ∷ m ↦ true ]

unfoldable pub current : Wrapper → Option (Bytes × Bytes)
current w = elim w.itr [ [] ↦ none | e ∷ m ↦ some e ]

unfoldable pub step : Wrapper → Wrapper
step w = record w { itr = elim w.itr [ [] ↦ [] | e ∷ m ↦ m ] }

-- `iterator_compare_less` and then `std::greater` on revisions: the order of the first index.
unfoldable pub order_less : Wrapper → Wrapper → Bool
order_less a b = elim a.itr [
  | [] ↦ elim b.itr [ [] ↦ b.delta.revision <? a.delta.revision | e ∷ m ↦ false ]
  | (j, v) ∷ l ↦ elim b.itr [
    | [] ↦ true
    | (k, w) ∷ m ↦ j <? k || (not (k <? j) && b.delta.revision <? a.delta.revision)
  ]
]

-- `_itr_revision_index.begin()`.
unfoldable pub begin : List Wrapper → Option Wrapper
unfolding order_less
begin [] = none
begin (u ∷ us) = elim (begin us) [
  | none ↦ some u
  | some w ↦ if order_less w u then some w else some u
]

-- `modify( ..., ++i.itr )` of the wrapper with this revision.
unfoldable pub advance : ℕ → List Wrapper → List Wrapper
unfolding step
advance r [] = []
advance r (u ∷ us) =
    let rest = advance r us in if nat_beq u.delta.revision r then step u ∷ us else u ∷ rest

-- Whether a delta of a later revision, from the head on, modified the key.
unfoldable pub is_dirty : List Wrapper → ℕ → Bytes → Bool
unfolding is_modified
is_dirty [] r k = false
is_dirty (u ∷ us) r k =
    let rest = is_dirty us r k in
    if r <? u.delta.revision then is_modified u.delta k || rest else false

-- The revision of the first wrapper, if it is valid and dirty.
unfoldable pub dirty_first : List Wrapper → Option ℕ
unfolding begin is_dirty
dirty_first ws = elim (begin ws) [
  | none ↦ none
  | some w ↦ elim w.itr [
    | [] ↦ none
    | (k, v) ∷ m ↦ if is_dirty ws w.delta.revision k then some w.delta.revision else none
  ]
]

-- The loop, on fuel. `remaining` is enough, since each round passes an entry.
unfoldable pub resolve_conflicts : ℕ → List Wrapper → List Wrapper
unfolding dirty_first advance
resolve_conflicts zero ws = ws
resolve_conflicts (suc n) ws = elim (dirty_first ws) [
  | none ↦ ws
  | some r ↦ resolve_conflicts n (advance r ws)
]

unfoldable pub remaining : List Wrapper → ℕ
remaining [] = 0
remaining (u ∷ us) = length u.itr + remaining us

-- The loop of the constructor.
unfoldable pub wrappers : (Map Bytes Bytes → Map Bytes Bytes) → Delta → List Wrapper
wrappers init (root f) = record { delta = f; itr = init f.backend.objects } ∷ []
wrappers init (child f p) = record { delta = f; itr = init f.backend.objects } ∷ wrappers init p

unfoldable pub merge_iterator : (Map Bytes Bytes → Map Bytes Bytes) → Delta → List Wrapper
unfolding resolve_conflicts remaining wrappers
merge_iterator init head = let ws = wrappers init head in resolve_conflicts (remaining ws) ws

-- `std::map::lower_bound`: the entries whose key is not below `k`.
unfoldable pub lower_bound_of : Bytes → Map Bytes Bytes → Map Bytes Bytes
lower_bound_of k [] = []
lower_bound_of k ((j, v) ∷ m) = let rest = lower_bound_of k m in if j <? k then rest else (j, v) ∷ m

-- `merge_state`.
unfoldable pub begin_of : Delta → List Wrapper
unfolding merge_iterator
begin_of head = merge_iterator (λ m. m) head

unfoldable pub end_of : Delta → List Wrapper
unfolding merge_iterator
end_of head = merge_iterator (λ m. []) head

unfoldable pub lower_bound : Bytes → Delta → List Wrapper
unfolding merge_iterator lower_bound_of
lower_bound k head = merge_iterator (lower_bound_of k) head

-- The entry that `operator*` and `key` read.
unfoldable pub deref : List Wrapper → Option (Bytes × Bytes)
unfolding begin current
deref ws = elim (begin ws) [ none ↦ none | some w ↦ current w ]

unfoldable pub key : List Wrapper → Result Error Bytes
unfolding deref
key ws = do (k, v) ← or_throw (deref ws) koinos_exception; ok k

-- `operator++`.
unfoldable pub next : List Wrapper → Result Error (List Wrapper)
unfolding begin valid advance resolve_conflicts remaining
next ws = elim (begin ws) [
  | none ↦ err koinos_exception
  | some w ↦
      let moved = advance w.delta.revision ws in
      if valid w then ok (resolve_conflicts (remaining moved) moved) else err koinos_exception
]

unfoldable pub is_end : List Wrapper → Bool
unfolding valid
is_end [] = true
is_end (u ∷ us) = not (valid u) && is_end us

-- `operator==`. Two iterators of one `std::map` are at the same place when as many entries remain.
unfoldable pub same : List Wrapper → List Wrapper → Bool
unfolding is_end begin valid
same a b = elim (begin a) [
  | none ↦ elim (begin b) [ none ↦ true | some w ↦ is_end b ]
  | some u ↦ elim (begin b) [
    | none ↦ is_end a
    | some w ↦
        if not (valid u) && not (valid w)
        then true
        else if not (valid u) || not (valid w)
        then false
        else nat_beq u.delta.revision w.delta.revision && nat_beq (length u.itr) (length w.itr)
  ]
]

space_beq : ObjectSpace → ObjectSpace → Bool
space_beq a b =
    elim a.system [ true ↦ b.system | false ↦ not b.system ]
    && a.zone == b.zone
    && nat_beq a.id b.id

-- `decode` is `util::converter::to< chain::database_key >`, which throws where it returns none. No
-- object stands for `{ nullptr, null_key }`.
module _ (encode : ObjectSpace → Bytes → Bytes)
    (decode : Bytes → Option (ObjectSpace × Bytes)) where
  -- What `get_next_object` returns from the entry at `it`.
  unfoldable pub object_at :
      ObjectSpace → Option (Bytes × Bytes) → Result Error (Option (Bytes × Bytes))
  unfolding space_beq
  object_at space none = ok none
  object_at space (some (k, v)) = do
    (next_space, next_key) ← or_throw (decode k) parse_failure
    ok (if space_beq next_space space then some (v, next_key) else none)

  unfoldable pub get_next_object :
      ObjectSpace → Bytes → Delta → Result Error (Option (Bytes × Bytes))
  unfolding lower_bound end_of same key next deref object_at
  get_next_object space k d = do
    let key_string = encode space k
    let it = lower_bound key_string d
    let end = end_of d
    found ← if same it end then ok false else (do j ← key it; ok (j == key_string))
    it ← if found then next it else ok it
    if same it end then ok none else object_at space (deref it)
