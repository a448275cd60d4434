-- ===== src/StateDb/MergeIterator/Advance.antt =====
-- The invariant through the two uses of `modify`: past a dirty entry, and past the current one.
use teleno.Base.{
  Bool, Bytes, List, [], ap, arith, bytes_key, false, lt→ltb, nat_key, nat_less_irrefl, some, subst,
  true, ℕ, ◌<?◌, ◌<◌, ◌||◌, ◌∙◌, ◌∷◌, ◌≡◌,
}
use teleno.StdMap
use teleno.StdMap.{Map}
use teleno.StateDb.Delta.{is_modified}
use teleno.StateDb.MergeIterator.{is_dirty, Wrapper, begin, advance, is_dirty, step}
use teleno.StateDb.MergeIterator.First.{
  head_first, later_first, begin-First, begin-Below, Descending, begin-First, begin-Below,
  some_reaches, Descending, head_first, later_first, begin-reaches_head, begin-reaches_tail,
}
use teleno.StateDb.MergeIterator.Invariant.{unmodified, lookup-at, Tracks, seen_with, entry-reaches}
use teleno.StateDb.MergeIterator.Steps.{
  step-Covers, ahead_of, step-Covers, stay-Covers, step-Covers_seen,
}

-- Nothing below `k` is left in any wrapper.
abbrev pub From : Bytes → List Wrapper → Type 0
From k [] = Unit
From k (u ∷ us) = ((j x : Bytes) → StdMap.lookup j u.itr ≡ some x → (j <? k) ≡ false) × From k us

pub begin-From :
    (ahead seen : Bytes → Bool) (k : Bytes) (ws : List Wrapper)
    → Tracks ahead seen ws
    → ((j : Bytes) → some_reaches j (begin ws) ≡ true → (j <? k) ≡ false)
    → From k ws
begin-From ahead seen k [] t h = tt
begin-From ahead seen k (u ∷ us) t h = (
  λ j x found. h j (begin-reaches_head j u us (entry-reaches j x u t.0.sorted found)),
  begin-From ahead (seen_with seen u) k us t.1 (λ j r. h j (begin-reaches_tail j u us r)),
)

pub advance-head :
    (u : Wrapper) (us : List Wrapper) → advance u.delta.revision (u ∷ us) ≡ step u ∷ us
unfolding advance
advance-head u us = ground arith

pub advance-tail :
    (r : ℕ) (u : Wrapper) (us : List Wrapper)
    → r < u.delta.revision
    → advance r (u ∷ us) ≡ u ∷ advance r us
unfolding advance
advance-tail r u us lt = ground arith

-- The chain below a delta that holds `k` sees it.
past-Tracks :
    (ahead seen : Bytes → Bool) (k : Bytes) (us : List Wrapper)
    → From k us
    → seen k ≡ true
    → Tracks ahead seen us
    → Tracks (ahead_of ahead k) seen us
past-Tracks ahead seen k [] f s t = tt
past-Tracks ahead seen k (u ∷ us) f s t = (
  stay-Covers ahead seen k u f.0 (λ x h. s) t.0,
  past-Tracks ahead (seen_with seen u) k us f.1 (ground (arith, s)) t.1,
)

-- Passing an entry that a later delta modified.
pub advance-dirty :
    (ahead seen : Bytes → Bool) (ws : List Wrapper) (w : Wrapper) (k v : Bytes)
    (m : Map Bytes Bytes)
    → Tracks ahead seen ws
    → Descending ws
    → begin ws ≡ some w
    → w.itr ≡ (k, v) ∷ m
    → (seen k || is_dirty ws w.delta.revision k) ≡ true
    → Tracks ahead seen (advance w.delta.revision ws)
unfolding is_dirty begin step
advance-dirty ahead seen [] w k v m t d h at dirty = absurd (ground arith)
advance-dirty ahead seen (u ∷ us) w k v m t d h at dirty = elim (begin-First u w us h) [
  | head_first p o ↦
      let at' = ap (λ (x : Wrapper). x.itr) p ∙ at in
      let s : seen k ≡ true = ground (
        arith,
        dirty,
        ap (λ (x : Wrapper). x.delta.revision) p,
        nat_less_irrefl w.delta.revision,
      ) in
      subst (λ (x : Wrapper). Tracks ahead seen (advance x.delta.revision (u ∷ us))) p
        (rw (advance-head u us) (step-Covers_seen k v m u at' ahead seen s t.0, t.1))
  | later_first p o ↦
      let lt = begin-Below u.delta.revision us w d.0 p in
      rw (advance-tail w.delta.revision u us lt) (
        t.0,
        advance-dirty ahead (seen_with seen u) us w k v m t.1 d.1 p at
            (ground (arith, dirty, lt→ltb w.delta.revision u.delta.revision lt)),
      )
]

-- Passing the first entry, which no later delta modified.
pub advance-current :
    (ahead seen : Bytes → Bool) (ws : List Wrapper) (w : Wrapper) (k v : Bytes)
    (m : Map Bytes Bytes)
    → Tracks ahead seen ws
    → Descending ws
    → From k ws
    → begin ws ≡ some w
    → w.itr ≡ (k, v) ∷ m
    → is_dirty ws w.delta.revision k ≡ false
    → Tracks (ahead_of ahead k) seen (advance w.delta.revision ws)
unfolding begin step is_modified
advance-current ahead seen [] w k v m t d f h at clean = absurd (ground arith)
advance-current ahead seen (u ∷ us) w k v m t d f h at clean = elim (begin-First u w us h) [
  | head_first p o ↦
      let at' = ap (λ (x : Wrapper). x.itr) p ∙ at in
      let held = t.0.stored k v (lookup-at k v m u at') in
      subst (λ (x : Wrapper). Tracks (ahead_of ahead k) seen (advance x.delta.revision (u ∷ us))) p
        (rw (advance-head u us) (
          step-Covers ahead seen k u v m at' t.0,
          past-Tracks ahead (seen_with seen u) k us f.1 (ground (arith, held)) t.1,
        ))
  | later_first p o ↦
      let lt = begin-Below u.delta.revision us w d.0 p in
      let (fresh, clean') = unmodified u us w.delta.revision k (lt→ltb _ _ lt) clean in
      rw (advance-tail w.delta.revision u us lt) (
        stay-Covers ahead seen k u f.0
            (λ x found. absurd (ground (arith, t.0.stored k x found, fresh))) t.0,
        advance-current ahead (seen_with seen u) us w k v m t.1 d.1 f.1 p at clean',
      )
]
