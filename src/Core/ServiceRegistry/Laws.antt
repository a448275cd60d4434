-- ===== src/Core/ServiceRegistry/Laws.antt =====
-- All components are started, or none is left started; and the order of the stops.
use teleno.Base.{
  Bool, Bool-cases, List, [], arith, bytes_key, false, if◌then◌else◌, inl, inr, nat_key, not, refl,
  subst, sym, true, ◌&&◌, ◌++◌, ◌∷◌, ◌≡◌, ◌⊎◌,
}
use teleno.Core.ServiceRegistry.{
  Component, Outcome, stop_component, stop_all, start_from, start_all, returned, rethrown,
}

module _ {W : Type 0} where
  abbrev pub all_are : Bool → List (Component W) → Bool
  all_are b [] = true
  all_are b (c ∷ cs) = (if c.started then b else not b) && all_are b cs

  -- The `stop` of each component comes back without an exception, whatever the state.
  abbrev pub Clean : List (Component W) → Type 0
  Clean [] = Unit
  Clean (c ∷ cs) = ((w : W) → (c.stop w).0 ≡ true) × Clean cs

  Clean-append : (xs ys : List (Component W)) → Clean xs → Clean ys → Clean (xs ++ ys)
  Clean-append [] ys h i = i
  Clean-append (x ∷ xs) ys h i = (h.0, Clean-append xs ys h.1 i)

  all_are-append :
      (b : Bool) (xs ys : List (Component W))
      → all_are b xs ≡ true
      → all_are b ys ≡ true
      → all_are b (xs ++ ys) ≡ true
  all_are-append b [] ys h i = i
  all_are-append b (x ∷ xs) ys h i = ground (arith, all_are-append b xs ys)

  all_are-stop_all :
      (cs : List (Component W)) (w : W) → Clean cs → all_are false (stop_all cs w).0 ≡ true
  unfolding stop_all stop_component
  all_are-stop_all [] w h = refl
  all_are-stop_all (c ∷ cs) w h = ground (arith, all_are-stop_all cs w h.1, h.0 (stop_all cs w).1)

  -- What a start of all components leaves: all started, or an exception and none started.
  abbrev pub AllOrNone : Outcome × List (Component W) × W → Type 0
  AllOrNone r =
      ((r.0 ≡ returned) × (all_are true r.1 ≡ true))
      ⊎ ((r.0 ≡ rethrown) × (all_are false r.1 ≡ true))

  start_from_started :
      (before : List (Component W)) (c : Component W) (cs : List (Component W)) (w : W)
      → c.started ≡ true
      → start_from before (c ∷ cs) w ≡ start_from (before ++ (c ∷ [])) cs w
  unfolding start_from
  start_from_started before c cs w on = ground arith

  start_from_fine :
      (before : List (Component W)) (c : Component W) (cs : List (Component W)) (w : W)
      → c.started ≡ false
      → (c.start w).0 ≡ true
      → start_from before (c ∷ cs) w
        ≡ start_from (before ++ (record c { started = true } ∷ [])) cs (c.start w).1
  unfolding start_from
  start_from_fine before c cs w off fine = ground arith

  start_from_bad :
      (before : List (Component W)) (c : Component W) (cs : List (Component W)) (w : W)
      → c.started ≡ false
      → (c.start w).0 ≡ false
      → start_from before (c ∷ cs) w ≡ (
        rethrown,
        (stop_all (before ++ (c ∷ cs)) (c.start w).1).0,
        (stop_all (before ++ (c ∷ cs)) (c.start w).1).1,
      )
  unfolding start_from
  start_from_bad before c cs w off bad = ground arith

  start_from_end :
      (before : List (Component W)) (w : W)
      → all_are true before ≡ true
      → AllOrNone (start_from before [] w)
  unfolding start_from
  start_from_end before w s = inl (refl, s)

  start_from-AllOrNone :
      (before cs : List (Component W)) (w : W)
      → all_are true before ≡ true
      → Clean before
      → Clean cs
      → AllOrNone (start_from before cs w)
  start_from-AllOrNone before [] w s h i = start_from_end before w s
  start_from-AllOrNone before (c ∷ cs) w s h i = elim (Bool-cases c.started) [
    | inl on ↦ subst AllOrNone (sym (start_from_started before c cs w on)) (
        start_from-AllOrNone (before ++ (c ∷ [])) cs w
          (all_are-append true before (c ∷ []) s (ground arith))
          (Clean-append before (c ∷ []) h (i.0, tt)) i.1)
    | inr off ↦ elim (Bool-cases (c.start w).0) [
      | inl fine ↦ subst AllOrNone (sym (start_from_fine before c cs w off fine)) (
          start_from-AllOrNone (before ++ (record c { started = true } ∷ [])) cs (c.start w).1
            (all_are-append true before (record c { started = true } ∷ []) s refl)
            (Clean-append before (record c { started = true } ∷ []) h (i.0, tt)) i.1)
      | inr bad ↦ subst AllOrNone (sym (start_from_bad before c cs w off bad)) (
          inr (
            refl,
            all_are-stop_all (before ++ (c ∷ cs)) (c.start w).1 (Clean-append before (c ∷ cs) h i),
          ))
    ]
  ]

  -- If no `stop` throws, `start_all` either returns with every component started, or throws with
  -- none left started.
  pub start_all-AllOrNone :
      (cs : List (Component W)) (w : W) → Clean cs → AllOrNone (start_all cs w)
  unfolding start_all
  start_all-AllOrNone cs w h = start_from-AllOrNone [] cs w refl tt h

  -- The components further back are stopped first: stopping two lists, one behind the other, stops
  -- the second and then the first.
  pub stop_all-append :
      (xs ys : List (Component W)) (w : W)
      → stop_all (xs ++ ys) w ≡ (
        (stop_all xs (stop_all ys w).1).0 ++ (stop_all ys w).0,
        (stop_all xs (stop_all ys w).1).1,
      )
  unfolding stop_all
  stop_all-append [] ys w = refl
  stop_all-append (x ∷ xs) ys w = rw (stop_all-append xs ys w)
