-- ===== src/StateDb/MergeIterator/Laws.antt =====
-- A merge iterator visits what `find` reads of the chain, each key once and in order.
use teleno.Base.{
  Bool, Bool-cases, Bytes, List, List-cases, Option, Option-cases, arith, bytes_key, false, inl,
  inr, nat_key, none, ok, refl, some, subst, sym, true, ◌<?◌, ◌<◌, ◌∙◌, ◌∷◌, ◌≡◌, ◌≢◌, ◌⊎◌,
}
use teleno.StdMap.{Map}
use teleno.StateDb.Delta.{Delta, root, child, fields, find}
use teleno.StateDb.MergeIterator.{
  Wrapper, begin, advance, is_dirty, dirty_first, resolve_conflicts, remaining, deref, next,
  current, valid,
}
use teleno.StateDb.MergeIterator.First.{advance-Descending, some_reaches}
use teleno.StateDb.MergeIterator.Invariant.{find_in, first-find, find-reaches}
use teleno.StateDb.MergeIterator.Steps.{ahead_of}
use teleno.StateDb.MergeIterator.Advance.{begin-From, advance-current}
use teleno.StateDb.MergeIterator.Resolve.{
  Inv, resolve_conflicts-Settled, find_in-advance, remaining-advance, nothing_seen,
}

-- `make_child` gives a child a revision above its parent's.
abbrev pub Descends : Delta → Type 0
Descends (root f) = Unit
Descends (child f p) = ((fields p).revision < f.revision) × Descends p

-- What a cursor stands at: the entry of the least key ahead that is found, or the end where none is.
abbrev pub IsNext : (Bytes → Bool) → (Bytes → Option Bytes) → Option (Bytes × Bytes) → Type 0
IsNext ahead found none = (j u : Bytes) → ahead j ≡ true → found j ≢ some u
IsNext ahead found (some (k, v)) =
    (ahead k ≡ true)
    × (found k ≡ some v)
    × ((j u : Bytes) → ahead j ≡ true → found j ≡ some u → (j <? k) ≡ false)

pub record At (ahead : Bytes → Bool) (d : Delta) (ws : List Wrapper) : Type 0 where
  pub inv : Inv ahead ws
  pub clean : dirty_first ws ≡ none
  pub reads : (k : Bytes) → find_in ws k ≡ find d k

first-clean :
    (ws : List Wrapper) (w : Wrapper) (e : Bytes × Bytes) (m : Map Bytes Bytes)
    → dirty_first ws ≡ none
    → begin ws ≡ some w
    → w.itr ≡ e ∷ m
    → is_dirty ws w.delta.revision e.0 ≡ false
unfolding dirty_first
first-clean ws w e m h b at = elim (Bool-cases (is_dirty ws w.delta.revision e.0)) [
  | inl dirty ↦ absurd (ground (arith, h, b, at, dirty))
  | inr clean ↦ clean
]

pub record Entry (ws : List Wrapper) (e : Bytes × Bytes) : Type 0 where
  pub wrapper : Wrapper
  pub is_first : begin ws ≡ some wrapper
  pub later : Map Bytes Bytes
  pub at : wrapper.itr ≡ e ∷ later

pub deref-cases :
    (ws : List Wrapper)
    → ((j : Bytes) → some_reaches j (begin ws) ≡ false) × (deref ws ≡ none)
      ⊎ ((e : Bytes × Bytes) × Entry ws e × (deref ws ≡ some e))
unfolding deref current
deref-cases ws = elim (Option-cases (begin ws)) [
  | inl b ↦ inl (λ j. ground (arith, b), ground (arith, b))
  | inr (w, b) ↦ elim (List-cases w.itr) [
    | inl gone ↦ inl (λ j. ground (arith, b, gone), ground (arith, b, gone))
    | inr (e, m, at) ↦ inr (
      e,
      record { wrapper = w; is_first = b; later = m; at = at },
      rw (deref, b, current, at) refl,
    )
  ]
]

module _ (ahead : Bytes → Bool) (d : Delta) (ws : List Wrapper) (a : At ahead d ws) where
  reached : (j u : Bytes) → ahead j ≡ true → find d j ≡ some u → some_reaches j (begin ws) ≡ true
  reached j u h f = find-reaches ahead nothing_seen ws j u a.inv.tracks h refl (a.reads j ∙ f)

  least :
      (e : Bytes × Bytes)
      → Entry ws e
      → (j : Bytes) → some_reaches j (begin ws) ≡ true
      → (j <? e.0) ≡ false
  least e entry j r =
      let r' = subst (λ x. some_reaches j x ≡ true) entry.is_first r in ground (arith, r', entry.at)

  pub At-deref : IsNext ahead (find d) (deref ws)
  At-deref = elim (deref-cases ws) [
    | inl (none_left, e) ↦ rw e (λ j u h f. absurd (ground (arith, none_left j, reached j u h f)))
    | inr (x, entry, e) ↦
        let w = entry.wrapper in
        let (h, f) =
          first-find ahead nothing_seen ws w x.0 x.1 entry.later a.inv.tracks a.inv.descending
            entry.is_first entry.at (first-clean ws w x entry.later a.clean entry.is_first entry.at)
            refl in
        rw e (h, sym (a.reads x.0) ∙ f, λ j u h f. least x entry j (reached j u h f))
  ]

  pub next-At :
      (e : Bytes × Bytes)
      → Entry ws e
      → (rs : List Wrapper) × (next ws ≡ ok rs)
        × At (ahead_of ahead e.0) d rs
        × (remaining rs < remaining ws)
  unfolding next valid
  next-At (k, v) entry =
      let w = entry.wrapper in
      let moved = advance w.delta.revision ws in
      let clean = first-clean ws w (k, v) entry.later a.clean entry.is_first entry.at in
      let one =
        remaining-advance ws w (k, v) entry.later a.inv.descending entry.is_first entry.at in
      let from = begin-From ahead nothing_seen k ws a.inv.tracks (least (k, v) entry) in
      let inv : Inv (ahead_of ahead k) moved = record {
        tracks =
            advance-current ahead nothing_seen ws w k v entry.later a.inv.tracks a.inv.descending
              from entry.is_first entry.at clean;
        descending = advance-Descending w.delta.revision ws a.inv.descending;
      } in
      let s =
        resolve_conflicts-Settled (ahead_of ahead k) (remaining moved) moved inv (omega arith) in
      (
        resolve_conflicts (remaining moved) moved,
        rw (next, entry.is_first, valid, entry.at) refl,
        record {
          inv = s.inv;
          clean = s.clean;
          reads = λ j. s.reads j ∙ find_in-advance w.delta.revision ws j ∙ a.reads j;
        },
        omega (arith, s.shorter, one),
      )
