-- ===== src/StateDb/MergeIterator/Start.antt =====
-- A new merge iterator stands at the least key from its bound on.
use teleno.Base.{
  Bool, Bool-cases, Bytes, Option-cases, [], arith, bytes_beq_iff, bytes_key, bytes_less_trans,
  false, if◌then◌else◌, inl, inr, nat_key, none, not, refl, true, ℕ, ◌<?◌, ◌<◌, ◌∙◌, ◌∷◌, ◌≡◌,
}
use teleno.StdMap
use teleno.StdMap.{Above-lookup, Above, Map, IsSorted, Above}
use teleno.StateDb.Backend
use teleno.StateDb.Delta.{Delta, Fields, root, child, fields, find, IsValid}
use teleno.StateDb.MergeIterator.{
  remaining, wrappers, merge_iterator, lower_bound_of, lower_bound, begin_of,
}
use teleno.StateDb.MergeIterator.First.{Below, Descending}
use teleno.StateDb.MergeIterator.Invariant.{Covers, Tracks, seen_with, find_in}
use teleno.StateDb.MergeIterator.Resolve.{Inv, nothing_seen, resolve_conflicts-Settled}
use teleno.StateDb.MergeIterator.Laws.{At, Descends}

-- What an `init` of the constructor keeps of a `std::map`: its entries that are ahead.
pub record Keeps (ahead : Bytes → Bool) (init : Map Bytes Bytes → Map Bytes Bytes) : Type 0 where
  pub sorted : (m : Map Bytes Bytes) → IsSorted m → IsSorted (init m)
  pub reads :
      (j : Bytes) (m : Map Bytes Bytes)
      → IsSorted m
      → StdMap.lookup j (init m) ≡ (if ahead j then StdMap.lookup j m else none)

module _ (ahead : Bytes → Bool) (init : Map Bytes Bytes → Map Bytes Bytes)
    (keeps : Keeps ahead init) where
  wrapper-Covers :
      (seen : Bytes → Bool) (f : Fields)
      → IsSorted f.backend.objects
      → Covers ahead seen (record { delta = f; itr = init f.backend.objects })
  unfolding Backend.get
  wrapper-Covers seen f s = record {
    sorted = keeps.sorted f.backend.objects s;
    stored = λ k v h. ground (arith, keeps.reads k f.backend.objects s, h);
    kept = λ k v g a n. ground (arith, keeps.reads k f.backend.objects s, g, a);
    bounded = λ k v h. ground (arith, keeps.reads k f.backend.objects s, h);
  }

  wrappers-Tracks :
      (seen : Bytes → Bool) (d : Delta) → IsValid d → Tracks ahead seen (wrappers init d)
  unfolding wrappers
  wrappers-Tracks seen (root f) v = (wrapper-Covers seen f v, tt)
  wrappers-Tracks seen (child f p) v = (
    wrapper-Covers seen f v.0,
    wrappers-Tracks (seen_with seen (record { delta = f; itr = init f.backend.objects })) p v.1,
  )

  wrappers-Below :
      (r : ℕ) (d : Delta) → (fields d).revision < r → Descends d → Below r (wrappers init d)
  unfolding wrappers fields
  wrappers-Below r (root f) lt h = (lt, tt)
  wrappers-Below r (child f p) lt h = (lt, wrappers-Below r p (omega (arith, lt, h.0)) h.1)

  wrappers-Descending : (d : Delta) → Descends d → Descending (wrappers init d)
  unfolding wrappers
  wrappers-Descending (root f) h = (tt, tt)
  wrappers-Descending (child f p) h =
      (wrappers-Below f.revision p h.0 h.1, wrappers-Descending p h.1)

  find_in-wrappers : (d : Delta) (k : Bytes) → find_in (wrappers init d) k ≡ find d k
  unfolding wrappers find
  find_in-wrappers (root f) k = refl
  find_in-wrappers (child f p) k = ground (arith, find_in-wrappers p k)

  pub merge_iterator-At : (d : Delta) → IsValid d → Descends d → At ahead d (merge_iterator init d)
  unfolding merge_iterator
  merge_iterator-At d v h =
      let ws = wrappers init d in
      let inv : Inv ahead ws = record {
        tracks = wrappers-Tracks nothing_seen d v;
        descending = wrappers-Descending d h;
      } in
      let s = resolve_conflicts-Settled ahead (remaining ws) ws inv (omega arith) in
      record { inv = s.inv; clean = s.clean; reads = λ k. s.reads k ∙ find_in-wrappers d k }

lookup-below :
    (i j : Bytes) (m : Map Bytes Bytes) → Above i m → (i <? j) ≡ false → StdMap.lookup j m ≡ none
lookup-below i j m a h = elim (Option-cases (StdMap.lookup j m)) [
  | inl e ↦ e
  | inr (u, e) ↦ absurd (ground (arith, Above-lookup i j u m a e, h))
]

pub lower_bound_of-lookup :
    (k j : Bytes) (m : Map Bytes Bytes)
    → IsSorted m
    → StdMap.lookup j (lower_bound_of k m) ≡ (if j <? k then none else StdMap.lookup j m)
unfolding lower_bound_of StdMap.lookup
lower_bound_of-lookup k j [] s = ground arith
lower_bound_of-lookup k j ((i, v) ∷ m) s = elim (Bool-cases (i <? k)) [
  | inl below ↦ ground (arith, below, lower_bound_of-lookup k j m s.1, bytes_beq_iff i j)
  | inr from ↦ elim (Bool-cases (j <? k)) [
    | inr stays ↦ ground (arith, from, stays)
    | inl out ↦
        ground (arith, from, out, bytes_beq_iff i j, lookup-below i j m s.0 (not_below from out))
  ]
]
  where
    not_below : (i <? k) ≡ false → (j <? k) ≡ true → (i <? j) ≡ false
    not_below from out = ground (arith, bytes_less_trans i j k, from, out)

pub lower_bound_of-IsSorted :
    (k : Bytes) (m : Map Bytes Bytes) → IsSorted m → IsSorted (lower_bound_of k m)
unfolding lower_bound_of
lower_bound_of-IsSorted k [] s = tt
lower_bound_of-IsSorted k ((i, v) ∷ m) s = ground (arith, lower_bound_of-IsSorted k m s.1)

-- The bound of `lower_bound`.
abbrev pub not_below : Bytes → Bytes → Bool
not_below k j = not (j <? k)

abbrev pub everywhere : Bytes → Bool
everywhere j = true

pub lower_bound-At :
    (k : Bytes) (d : Delta) → IsValid d → Descends d → At (not_below k) d (lower_bound k d)
unfolding lower_bound
lower_bound-At k d v h =
    merge_iterator-At (not_below k) (lower_bound_of k)
      (record {
        sorted = lower_bound_of-IsSorted k;
        reads = λ j m s. ground (arith, lower_bound_of-lookup k j m s);
      })
      d v h

pub begin_of-At : (d : Delta) → IsValid d → Descends d → At everywhere d (begin_of d)
unfolding begin_of
begin_of-At d v h =
    merge_iterator-At everywhere (λ m. m) (record { sorted = λ m s. s; reads = λ j m s. refl }) d v
      h
