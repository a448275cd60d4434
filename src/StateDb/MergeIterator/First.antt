-- ===== src/StateDb/MergeIterator/First.antt =====
-- Which wrapper the index of a merge iterator puts first.
use teleno.Base.{
  Bool, Bool-cases, Bytes, List, List-cases, Option, Option-cases, [], ap, arith, bytes_key, false,
  inl, inr, less_asym, nat_key, none, not, not_less_trans, refl, some, some_inj, subst, true, ℕ,
  ◌<?◌, ◌<◌, ◌∙◌, ◌∷◌, ◌≡◌,
}
use teleno.StateDb.MergeIterator.{Wrapper, order_less, begin, advance, step}

-- The wrapper is at an entry whose key is not above `j`.
abbrev pub reaches : Bytes → Wrapper → Bool
reaches j w = elim w.itr [ [] ↦ false | e ∷ m ↦ not (j <? e.0) ]

abbrev pub some_reaches : Bytes → Option Wrapper → Bool
some_reaches j none = false
some_reaches j (some w) = reaches j w

order_less-true :
    (j : Bytes) (a b : Wrapper) → order_less a b ≡ true → reaches j b ≡ true → reaches j a ≡ true
unfolding order_less
order_less-true j a b h r = elim (List-cases a.itr) [
  | inl ea ↦ elim (List-cases b.itr) [
    | inl eb ↦ absurd (ground (arith, ea, eb))
    | inr (e, m, eb) ↦ absurd (ground (arith, ea, eb))
  ]
  | inr (e, m, ea) ↦ elim (List-cases b.itr) [
    | inl eb ↦ absurd (ground (arith, ea, eb))
    | inr (f, l, eb) ↦ ground (arith, ea, eb, not_less_trans j f.0 e.0, less_asym e.0 f.0)
  ]
]

order_less-false :
    (j : Bytes) (a b : Wrapper) → order_less a b ≡ false → reaches j a ≡ true → reaches j b ≡ true
unfolding order_less
order_less-false j a b h r = elim (List-cases a.itr) [
  | inl ea ↦ absurd (ground (arith, ea))
  | inr (e, m, ea) ↦ elim (List-cases b.itr) [
    | inl eb ↦ absurd (ground (arith, ea, eb))
    | inr (f, l, eb) ↦ ground (arith, ea, eb, not_less_trans j e.0 f.0)
  ]
]

-- The first of a list is its head, which comes at or before all of the rest, or the first of the
-- rest, which comes before the head.
pub data First (u : Wrapper) (us : List Wrapper) (w : Wrapper) : Type 0 where
  head_first :
      u ≡ w → ((j : Bytes) → some_reaches j (begin us) ≡ true → reaches j u ≡ true) → First u us w
  later_first :
      begin us ≡ some w → ((j : Bytes) → reaches j u ≡ true → reaches j w ≡ true) → First u us w

pub begin-First : (u w : Wrapper) (us : List Wrapper) → begin (u ∷ us) ≡ some w → First u us w
unfolding begin
begin-First u w us h = elim (Option-cases (begin us)) [
  | inl e ↦ head_first (some_inj u w (ground (arith, e))) (λ j r. absurd (ground (arith, e)))
  | inr (x, e) ↦ elim (Bool-cases (order_less x u)) [
    | inl before ↦
        let same = some_inj x w (ground (arith, e, before)) in
        later_first (e ∙ ap some same)
          (λ j r. subst (λ y. reaches j y ≡ true) same (order_less-true j x u before r))
    | inr after ↦
        head_first (some_inj u w (ground (arith, e, after)))
          (λ j r. order_less-false j x u after (subst (λ y. some_reaches j y ≡ true) e r))
  ]
]

pub begin-none : (us : List Wrapper) → begin us ≡ none → us ≡ []
unfolding begin
begin-none [] h = refl
begin-none (u ∷ us) h = elim (Option-cases (begin us)) [
  | inl e ↦ absurd (ground (arith, e))
  | inr (x, e) ↦ absurd (ground (arith, e))
]

-- Revisions fall from the head of the chain on.
abbrev pub Below : ℕ → List Wrapper → Type 0
Below r [] = Unit
Below r (w ∷ ws) = (w.delta.revision < r) × Below r ws

abbrev pub Descending : List Wrapper → Type 0
Descending [] = Unit
Descending (w ∷ ws) = Below w.delta.revision ws × Descending ws

pub begin-Below :
    (r : ℕ) (ws : List Wrapper) (w : Wrapper)
    → Below r ws
    → begin ws ≡ some w
    → w.delta.revision < r
unfolding begin
begin-Below r [] w b h = absurd (ground arith)
begin-Below r (u ∷ us) w b h = elim (begin-First u w us h) [
  | head_first e o ↦ subst (λ x. x.delta.revision < r) e b.0
  | later_first e o ↦ begin-Below r us w b.1 e
]

advance-Below : (q r : ℕ) (ws : List Wrapper) → Below r ws → Below r (advance q ws)
unfolding advance step
advance-Below q r [] b = tt
advance-Below q r (w ∷ ws) b = ground (arith, advance-Below q r ws b.1)

pub advance-Descending : (q : ℕ) (ws : List Wrapper) → Descending ws → Descending (advance q ws)
unfolding advance step
advance-Descending q [] d = tt
advance-Descending q (w ∷ ws) d =
    ground (arith, advance-Descending q ws d.1, advance-Below q w.delta.revision ws d.0)

pub begin-some : (u : Wrapper) (us : List Wrapper) → (w : Wrapper) × (begin (u ∷ us) ≡ some w)
unfolding begin
begin-some u us = elim (Option-cases (begin us)) [
  | inl e ↦ (u, ground (arith, e))
  | inr (x, e) ↦ elim (Bool-cases (order_less x u)) [
    | inl before ↦ (x, ground (arith, e, before))
    | inr after ↦ (u, ground (arith, e, after))
  ]
]

-- The first wrapper of a list is at or before every wrapper of it.
pub begin-reaches_head :
    (j : Bytes) (u : Wrapper) (us : List Wrapper)
    → reaches j u ≡ true
    → some_reaches j (begin (u ∷ us)) ≡ true
begin-reaches_head j u us r =
    let (w, e) = begin-some u us in
    elim (begin-First u w us e) [
      | head_first p o ↦ rw e (subst (λ x. reaches j x ≡ true) p r)
      | later_first p o ↦ rw e (o j r)
    ]

pub begin-reaches_tail :
    (j : Bytes) (u : Wrapper) (us : List Wrapper)
    → some_reaches j (begin us) ≡ true
    → some_reaches j (begin (u ∷ us)) ≡ true
begin-reaches_tail j u us r =
    let (w, e) = begin-some u us in
    elim (begin-First u w us e) [
      | head_first p o ↦ rw e (subst (λ x. reaches j x ≡ true) p (o j r))
      | later_first p o ↦ rw e (subst (λ x. some_reaches j x ≡ true) p r)
    ]
