-- ===== src/StateDb/MergeIterator/Invariant.antt =====
-- The invariant of a merge iterator: `ahead` holds of the keys that it has not passed, and `seen` of
-- those that a delta above the list modified.
use teleno.Base.{
  Bool, Bool-cases, Bytes, List, List-cases, Option, Option-cases, [], ap, arith, bytes_beq_iff,
  bytes_key, bytes_less_irrefl, false, if◌then◌else◌, inl, inr, less_asym, lt→ltb, nat_key, none,
  some, subst, true, ℕ, ◌<?◌, ◌==◌, ◌||◌, ◌∙◌, ◌∷◌, ◌≡◌, ◌⊎◌,
}
use teleno.StdMap
use teleno.StdMap.{Map, IsSorted, Above, lookup-Above, Above-lookup}
use teleno.StateDb.Backend
use teleno.StateDb.Delta.{is_removed, is_modified}
use teleno.StateDb.MergeIterator.{Wrapper, begin, is_dirty}
use teleno.StateDb.MergeIterator.First.{
  head_first, later_first, begin-First, begin-Below, Descending, reaches, some_reaches,
  begin-reaches_head, begin-reaches_tail, Descending, begin-First,
}

pub record Covers (ahead seen : Bytes → Bool) (w : Wrapper) : Type 0 where
  pub sorted : IsSorted w.itr
  pub stored :
      (k v : Bytes) → StdMap.lookup k w.itr ≡ some v → Backend.get w.delta.backend k ≡ some v
  pub kept :
      (k v : Bytes)
      → Backend.get w.delta.backend k ≡ some v
      → ahead k ≡ true
      → seen k ≡ false
      → StdMap.lookup k w.itr ≡ some v
  pub bounded : (k v : Bytes) → StdMap.lookup k w.itr ≡ some v → (ahead k || seen k) ≡ true

abbrev pub seen_with : (Bytes → Bool) → Wrapper → Bytes → Bool
seen_with seen w k = seen k || is_modified w.delta k

abbrev pub Tracks : (ahead seen : Bytes → Bool) → List Wrapper → Type 0
Tracks ahead seen [] = Unit
Tracks ahead seen (w ∷ ws) = Covers ahead seen w × Tracks ahead (seen_with seen w) ws

-- What a read of the deltas of these wrappers finds.
abbrev pub find_in : List Wrapper → Bytes → Option Bytes
find_in [] k = none
find_in (w ∷ ws) k = elim (Backend.get w.delta.backend k) [
  | some v ↦ some v
  | none ↦ if is_removed w.delta k then none else find_in ws k
]

module _ (k v : Bytes) (m : Map Bytes Bytes) (w : Wrapper) (at : w.itr ≡ (k, v) ∷ m) where
  pub lookup-at : StdMap.lookup k w.itr ≡ some v
  unfolding StdMap.lookup
  lookup-at = rw at (ground (arith, bytes_beq_iff k k))

  -- An entry that is left is at the wrapper's key or behind it.
  pub reaches-lookup :
      (j u : Bytes)
      → IsSorted w.itr
      → StdMap.lookup j w.itr ≡ some u
      → (k ≡ j) ⊎ (StdMap.lookup j m ≡ some u) × ((k <? j) ≡ true)
  unfolding StdMap.lookup
  reaches-lookup j u s h =
      let s' = subst (λ x. IsSorted x) at s in
      let h' = subst (λ x. StdMap.lookup j x ≡ some u) at h in
      elim (Bool-cases (k == j)) [
        | inl same ↦ inl ((bytes_beq_iff k j).0 same)
        | inr other ↦
            let rest : StdMap.lookup j m ≡ some u = ground (arith, h', other) in
            inr (rest, Above-lookup k j u m s'.0 rest)
      ]

  pub lookup-reaches :
      (j u : Bytes) → IsSorted w.itr → StdMap.lookup j w.itr ≡ some u → (j <? k) ≡ false
  lookup-reaches j u s h = elim (reaches-lookup j u s h) [
    | inl same ↦ subst (λ x. (x <? k) ≡ false) same (bytes_less_irrefl k)
    | inr after ↦ less_asym k j after.1
  ]

pub entry-reaches :
    (j x : Bytes) (w : Wrapper)
    → IsSorted w.itr
    → StdMap.lookup j w.itr ≡ some x
    → reaches j w ≡ true
unfolding StdMap.lookup
entry-reaches j x w s h = elim (List-cases w.itr) [
  | inl e ↦ absurd (ground (arith, subst (λ m. StdMap.lookup j m ≡ some x) e h))
  | inr (e, m, at) ↦ ground (arith, at, lookup-reaches e.0 e.1 m w at j x s h)
]

unseen :
    (seen : Bytes → Bool) (j : Bytes) (w : Wrapper)
    → seen j ≡ false
    → Backend.get w.delta.backend j ≡ none
    → is_removed w.delta j ≡ false
    → seen_with seen w j ≡ false
unfolding is_modified is_removed
unseen seen j w s e stays = ground (arith, s, e, stays)

pub unmodified :
    (u : Wrapper) (us : List Wrapper) (r : ℕ) (k : Bytes)
    → (r <? u.delta.revision) ≡ true
    → is_dirty (u ∷ us) r k ≡ false
    → (is_modified u.delta k ≡ false) × (is_dirty us r k ≡ false)
unfolding is_dirty
unmodified u us r k lt clean = (ground (arith, lt, clean), ground (arith, lt, clean))

find-unmodified :
    (u : Wrapper) (us : List Wrapper) (k v : Bytes)
    → is_modified u.delta k ≡ false
    → find_in us k ≡ some v
    → find_in (u ∷ us) k ≡ some v
unfolding is_modified is_removed
find-unmodified u us k v fresh f = ground (arith, fresh, f)

module _ (ahead : Bytes → Bool) where
  -- A key that is found in the deltas is at or behind the first wrapper.
  pub find-reaches :
      (seen : Bytes → Bool) (ws : List Wrapper) (j u : Bytes)
      → Tracks ahead seen ws
      → ahead j ≡ true
      → seen j ≡ false
      → find_in ws j ≡ some u
      → some_reaches j (begin ws) ≡ true
  find-reaches seen [] j u t a s f = absurd (ground arith)
  find-reaches seen (w ∷ ws) j u t a s f = elim (Option-cases (Backend.get w.delta.backend j)) [
    | inr (x, e) ↦ begin-reaches_head j w ws (entry-reaches j x w t.0.sorted (t.0.kept j x e a s))
    | inl e ↦ elim (Bool-cases (is_removed w.delta j)) [
      | inl gone ↦ absurd (ground (arith, f, e, gone))
      | inr stays ↦
          let s' = unseen seen j w s e stays in
          let f' : find_in ws j ≡ some u = ground (arith, f, e, stays) in
          begin-reaches_tail j w ws (find-reaches (seen_with seen w) ws j u t.1 a s' f')
    ]
  ]

  -- What stands at the first wrapper, when it is not dirty, is what the deltas hold of its key.
  pub first-find :
      (seen : Bytes → Bool) (ws : List Wrapper) (w : Wrapper) (k v : Bytes) (m : Map Bytes Bytes)
      → Tracks ahead seen ws
      → Descending ws
      → begin ws ≡ some w
      → w.itr ≡ (k, v) ∷ m
      → is_dirty ws w.delta.revision k ≡ false
      → seen k ≡ false
      → (ahead k ≡ true) × (find_in ws k ≡ some v)
  unfolding is_dirty begin
  first-find seen [] w k v m t d h at clean s = absurd (ground arith)
  first-find seen (u ∷ us) w k v m t d h at clean s = elim (begin-First u w us h) [
    | head_first p o ↦
        let at' = ap (λ (x : Wrapper). x.itr) p ∙ at in
        let b = t.0.bounded k v (lookup-at k v m u at') in
        let g = t.0.stored k v (lookup-at k v m u at') in (ground (arith, b, s), ground (arith, g))
    | later_first p o ↦
        let lt = lt→ltb _ _ (begin-Below u.delta.revision us w d.0 p) in
        let (fresh, clean') = unmodified u us w.delta.revision k lt clean in
        let (a, f) =
          first-find (seen_with seen u) us w k v m t.1 d.1 p at clean' (ground (arith, s, fresh)) in
        (a, find-unmodified u us k v fresh f)
  ]
