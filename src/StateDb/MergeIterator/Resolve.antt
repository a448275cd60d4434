-- ===== src/StateDb/MergeIterator/Resolve.antt =====
-- The loop of `resolve_conflicts` reaches an entry that no later delta modified, or the end.
use teleno.Base.{
  Bool, Bool-cases, Bytes, List, List-cases, Option-cases, [], ap, arith, bytes_key, false, inl,
  inr, nat_key, none, refl, some, some_inj, subst, suc, sym, true, zero, ℕ, ◌+◌, ◌∙◌, ◌∷◌, ◌≡◌, ◌≤◌,
}
use teleno.StdMap.{Map}
use teleno.StateDb.MergeIterator.{
  Wrapper, begin, advance, step, is_dirty, dirty_first, resolve_conflicts, remaining,
}
use teleno.StateDb.MergeIterator.First.{
  begin-First, Descending, head_first, later_first, begin-Below, advance-Descending,
}
use teleno.StateDb.MergeIterator.Invariant.{Tracks, find_in}
use teleno.StateDb.MergeIterator.Advance.{advance-dirty, advance-tail, advance-head}

pub find_in-advance :
    (r : ℕ) (ws : List Wrapper) (k : Bytes) → find_in (advance r ws) k ≡ find_in ws k
unfolding advance step
find_in-advance r [] k = refl
find_in-advance r (w ∷ ws) k = ground (arith, find_in-advance r ws k)

-- The step past the first entry leaves one entry fewer.
pub remaining-advance :
    (ws : List Wrapper) (w : Wrapper) (e : Bytes × Bytes) (m : Map Bytes Bytes)
    → Descending ws
    → begin ws ≡ some w
    → w.itr ≡ e ∷ m
    → remaining (advance w.delta.revision ws) + 1 ≡ remaining ws
unfolding remaining begin step
remaining-advance [] w e m d h at = absurd (ground arith)
remaining-advance (u ∷ us) w e m d h at = elim (begin-First u w us h) [
  | head_first p o ↦
      let at' = ap (λ (x : Wrapper). x.itr) p ∙ at in
      subst
        (λ (x : Wrapper). remaining (advance x.delta.revision (u ∷ us)) + 1 ≡ remaining (u ∷ us)) p
        (rw (advance-head u us, at') (omega arith))
  | later_first p o ↦
      rw (advance-tail w.delta.revision u us (begin-Below u.delta.revision us w d.0 p))
        (omega (arith, remaining-advance us w e m d.1 p at))
]

abbrev pub nothing_seen : Bytes → Bool
nothing_seen k = false

pub record Inv (ahead : Bytes → Bool) (ws : List Wrapper) : Type 0 where
  pub tracks : Tracks ahead nothing_seen ws
  pub descending : Descending ws

pub record DirtyFirst (ws : List Wrapper) (r : ℕ) : Type 0 where
  pub wrapper : Wrapper
  pub is_first : begin ws ≡ some wrapper
  pub entry : Bytes × Bytes
  pub later : Map Bytes Bytes
  pub at : wrapper.itr ≡ entry ∷ later
  pub dirty : is_dirty ws wrapper.delta.revision entry.0 ≡ true
  pub revision_lem : wrapper.delta.revision ≡ r

dirty_first-some : (ws : List Wrapper) (r : ℕ) → dirty_first ws ≡ some r → DirtyFirst ws r
unfolding dirty_first
dirty_first-some ws r h = elim (Option-cases (begin ws)) [
  | inl e ↦ absurd (ground (arith, h, e))
  | inr (w, e) ↦ elim (List-cases w.itr) [
    | inl none_left ↦ absurd (ground (arith, h, e, none_left))
    | inr (x, m, at) ↦ elim (Bool-cases (is_dirty ws w.delta.revision x.0)) [
      | inl dirty ↦ record {
        wrapper = w;
        is_first = e;
        entry = x;
        later = m;
        at = at;
        dirty = dirty;
        revision_lem = some_inj _ _ (ground (arith, h, e, at, dirty));
      }
      | inr clean ↦ absurd (ground (arith, h, e, at, clean))
    ]
  ]
]

round :
    (ahead : Bytes → Bool) (ws : List Wrapper) (r : ℕ)
    → Inv ahead ws
    → dirty_first ws ≡ some r
    → Inv ahead (advance r ws) × (remaining (advance r ws) + 1 ≡ remaining ws)
round ahead ws r inv h =
    let first = dirty_first-some ws r h in
    let w = first.wrapper in
    subst (λ q. Inv ahead (advance q ws) × (remaining (advance q ws) + 1 ≡ remaining ws))
      first.revision_lem
      (
        record {
          tracks =
              advance-dirty ahead nothing_seen ws w first.entry.0 first.entry.1 first.later
                inv.tracks inv.descending first.is_first first.at (ground (arith, first.dirty));
          descending = advance-Descending w.delta.revision ws inv.descending;
        },
        remaining-advance ws w first.entry first.later inv.descending first.is_first first.at,
      )

pub record Settled (ahead : Bytes → Bool) (ws rs : List Wrapper) : Type 0 where
  pub inv : Inv ahead rs
  pub clean : dirty_first rs ≡ none
  pub reads : (k : Bytes) → find_in rs k ≡ find_in ws k
  pub shorter : remaining rs ≤ remaining ws

pub resolve_conflicts-clean :
    (n : ℕ) (ws : List Wrapper) → dirty_first ws ≡ none → resolve_conflicts n ws ≡ ws
unfolding resolve_conflicts
resolve_conflicts-clean zero ws h = refl
resolve_conflicts-clean (suc n) ws h = rw (resolve_conflicts, h) refl

settled :
    (ahead : Bytes → Bool) (ws : List Wrapper)
    → Inv ahead ws
    → dirty_first ws ≡ none
    → Settled ahead ws ws
settled ahead ws inv clean = record {
  inv = inv;
  clean = clean;
  reads = λ k. refl;
  shorter = omega arith;
}

pub resolve_conflicts-Settled :
    (ahead : Bytes → Bool) (n : ℕ) (ws : List Wrapper)
    → Inv ahead ws
    → remaining ws ≤ n
    → Settled ahead ws (resolve_conflicts n ws)
unfolding resolve_conflicts
resolve_conflicts-Settled ahead zero ws inv le = elim (Option-cases (dirty_first ws)) [
  | inl clean ↦ settled ahead ws inv clean
  | inr (r, dirty) ↦ absurd (omega (arith, (round ahead ws r inv dirty).1, le))
]
resolve_conflicts-Settled ahead (suc n) ws inv le = elim (Option-cases (dirty_first ws)) [
  | inl clean ↦
      subst (Settled ahead ws) (sym (resolve_conflicts-clean (suc n) ws clean))
        (settled ahead ws inv clean)
  | inr (r, dirty) ↦
      let (inv', one) = round ahead ws r inv dirty in
      let s = resolve_conflicts-Settled ahead n (advance r ws) inv' (omega (arith, one, le)) in
      rw (resolve_conflicts, dirty)
        (record {
          inv = s.inv;
          clean = s.clean;
          reads = λ k. s.reads k ∙ find_in-advance r ws k;
          shorter = omega (arith, s.shorter, one);
        })
]
