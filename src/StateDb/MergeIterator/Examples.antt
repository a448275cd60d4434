-- ===== src/StateDb/MergeIterator/Examples.antt =====
-- Merge iterators over a concrete chain of deltas: the theorems' examples, and tests.
use teleno.Base.{
  Bytes, List, Option, [], arith, bytes_key, false, nat_key, none, ok, refl, some, true, ℕ, ◌<?◌,
  ◌∷◌, ◌≡◌,
}
use teleno.StdMap
use teleno.StdMap.{Map, lookup}
use teleno.StateDb.Backend.{empty_header}
use teleno.StateDb.Delta.{Delta, Fields, IsValid, root, child, fields, find}
use teleno.StateDb.Node.{ObjectSpace}
use teleno.StateDb.MergeIterator.{begin_of, get_next_object, object_at, remaining}
use teleno.StateDb.MergeIterator.Laws.{IsNext, Descends}
use teleno.StateDb.MergeIterator.Start.{everywhere}
use teleno.StateDb.MergeIterator.Traversal.{
  entries, Visits, entries-find, run_to_end, Ends, begin_of-Ends,
}
use teleno.StateDb.MergeIterator.NextObject.{get_next_object-IsNext}

abbrev fields_of : Map Bytes Bytes → List Bytes → ℕ → Fields
fields_of m removed revision = record {
  backend = record { objects = m; revision = 0; id = []; merkle_root = []; header = empty_header };
  removed_objects = removed;
  id = revision ∷ [];
  revision = revision;
  merkle_root = none;
  finalized = false;
}

-- The root holds 1, 2 and 4, a block wrote 2 and 3 and removed 1, and the next one removed 3.
abbrev chain : Delta
chain = child (fields_of [] ((0 ∷ 3 ∷ []) ∷ []) 2) (
    child (fields_of ((0 ∷ 2 ∷ [], 20 ∷ []) ∷ (0 ∷ 3 ∷ [], 30 ∷ []) ∷ []) ((0 ∷ 1 ∷ []) ∷ []) 1) (
      root
        (fields_of ((0 ∷ 1 ∷ [], 1 ∷ []) ∷ (0 ∷ 2 ∷ [], 2 ∷ []) ∷ (0 ∷ 4 ∷ [], 4 ∷ []) ∷ []) [] 0)))

abbrev encode : ObjectSpace → Bytes → Bytes
encode s k = s.id ∷ k

abbrev decode : Bytes → Option (ObjectSpace × Bytes)
decode [] = none
decode (i ∷ k) = some (record { system = true; zone = []; id = i }, k)

abbrev space_0 : ObjectSpace
space_0 = record { system = true; zone = []; id = 0 }

entries-test : entries 3 (begin_of chain) ≡ (0 ∷ 2 ∷ [], 20 ∷ []) ∷ (0 ∷ 4 ∷ [], 4 ∷ []) ∷ []
unfolding entries begin_of StdMap.lookup
entries-test = refl

get_next_object-test :
    get_next_object encode decode space_0 (2 ∷ []) chain ≡ ok (some (4 ∷ [], 4 ∷ []))
unfolding get_next_object StdMap.lookup
get_next_object-test = refl

chain-IsValid : IsValid chain
chain-IsValid = (tt, (((refl, tt), (tt, tt)), ((refl, (refl, tt)), ((refl, tt), (tt, tt)))))

chain-Descends : Descends chain
unfolding fields
chain-Descends = (omega arith, (omega arith, tt))

entries-find_example :
    Visits everywhere chain (entries (remaining (begin_of chain)) (begin_of chain))
entries-find_example = entries-find chain chain-IsValid chain-Descends

begin_of-Ends_example : Ends (run_to_end (remaining (begin_of chain)) (begin_of chain))
begin_of-Ends_example = begin_of-Ends chain chain-IsValid chain-Descends

get_next_object-IsNext_example :
    (e : Option (Bytes × Bytes)) × IsNext (λ j. encode space_0 (2 ∷ []) <? j) (find chain) e
    × (get_next_object encode decode space_0 (2 ∷ []) chain ≡ object_at encode decode space_0 e)
get_next_object-IsNext_example =
    get_next_object-IsNext encode decode space_0 (2 ∷ []) chain chain-IsValid chain-Descends
