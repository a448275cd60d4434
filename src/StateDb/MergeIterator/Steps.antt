-- ===== src/StateDb/MergeIterator/Steps.antt =====
-- What the passing of an entry does to the invariant of a merge iterator.
use teleno.Base.{
  Bool, Bool-cases, Bytes, ap, arith, beq-false_sym, bytes_beq_iff, bytes_key, bytes_less_irrefl,
  bytes_less_total, false, inl, inr, nat_key, refl, some, subst, sym, true, ◌&&◌, ◌<?◌, ◌==◌, ◌∷◌,
  ◌≡◌,
}
use teleno.StdMap
use teleno.StdMap.{Map, IsSorted, Above-lookup}
use teleno.StateDb.MergeIterator.{Wrapper, step}
use teleno.StateDb.MergeIterator.Invariant.{Covers}

module _ (k v : Bytes) (m : Map Bytes Bytes) (w : Wrapper) (at : w.itr ≡ (k, v) ∷ m) where
  step-itr : (step w).itr ≡ m
  unfolding step
  step-itr = rw at refl

  step-sorted : IsSorted w.itr → IsSorted (step w).itr
  step-sorted s = rw step-itr (subst (λ x. IsSorted x) at s).1

  -- What is left behind the entry was there, above its key.
  step-lookup :
      (j u : Bytes)
      → IsSorted w.itr
      → StdMap.lookup j (step w).itr ≡ some u
      → (StdMap.lookup j w.itr ≡ some u) × ((k <? j) ≡ true)
  unfolding StdMap.lookup
  step-lookup j u s h =
      let h' = subst (λ x. StdMap.lookup j x ≡ some u) step-itr h in
      let above = Above-lookup k j u m (subst (λ x. IsSorted x) at s).0 h' in
      (rw at (ground (arith, h', above, bytes_beq_iff k j, bytes_less_irrefl k)), above)

  step-kept :
      (j u : Bytes)
      → IsSorted w.itr
      → StdMap.lookup j w.itr ≡ some u
      → (k == j) ≡ false
      → StdMap.lookup j (step w).itr ≡ some u
  unfolding StdMap.lookup
  step-kept j u s h other =
      let h' = subst (λ x. StdMap.lookup j x ≡ some u) at h in
      rw step-itr (ground (arith, h', other))

  -- The step past a key that was seen keeps the bound.
  pub step-Covers_seen :
      (ahead seen : Bytes → Bool) → seen k ≡ true → Covers ahead seen w → Covers ahead seen (step w)
  unfolding step
  step-Covers_seen ahead seen s c = record {
    sorted = step-sorted c.sorted;
    stored = λ j u h. c.stored j u (step-lookup j u c.sorted h).0;
    kept = λ j u g a n. step-kept j u c.sorted (c.kept j u g a n) (other j n);
    bounded = λ j u h. c.bounded j u (step-lookup j u c.sorted h).0;
  }
    where
      other : (j : Bytes) → seen j ≡ false → (k == j) ≡ false
      other j n = elim (Bool-cases (k == j)) [
        | inl same ↦ absurd (ground (arith, s, n, ap seen ((bytes_beq_iff k j).0 same)))
        | inr e ↦ e
      ]

-- The keys that are ahead once `k` is passed.
abbrev pub ahead_of : (Bytes → Bool) → Bytes → Bytes → Bool
ahead_of ahead k j = ahead j && k <? j

module _ (ahead seen : Bytes → Bool) (k : Bytes) (w : Wrapper) where
  -- The step past the key.
  pub step-Covers :
      (v : Bytes) (m : Map Bytes Bytes)
      → w.itr ≡ (k, v) ∷ m
      → Covers ahead seen w
      → Covers (ahead_of ahead k) seen (step w)
  unfolding step
  step-Covers v m at c = record {
    sorted = step-sorted k v m w at c.sorted;
    stored = λ j u h. c.stored j u (step-lookup k v m w at j u c.sorted h).0;
    kept = λ j u g a n.
        step-kept k v m w at j u c.sorted (c.kept j u g (ground (arith, a)) n)
          (ground (arith, a, bytes_beq_iff k j, bytes_less_irrefl k));
    bounded = λ j u h.
        let (old, above) = step-lookup k v m w at j u c.sorted h in
        ground (arith, c.bounded j u old, above);
  }

  -- A wrapper that no entry below the key is left of, and none at it that was not seen above.
  pub stay-Covers :
      ((j x : Bytes) → StdMap.lookup j w.itr ≡ some x → (j <? k) ≡ false)
      → ((x : Bytes) → StdMap.lookup k w.itr ≡ some x → seen k ≡ true)
      → Covers ahead seen w
      → Covers (ahead_of ahead k) seen w
  stay-Covers from held c = record {
    sorted = c.sorted;
    stored = c.stored;
    kept = λ j u g a n. c.kept j u g (ground (arith, a)) n;
    bounded = λ j u h. elim (Bool-cases (k == j)) [
      | inl same ↦
          let e = (bytes_beq_iff k j).0 same in
          let s =
            subst seen_at e (held u (subst (λ y. StdMap.lookup y w.itr ≡ some u) (sym e) h)) in
          ground (arith, s)
      | inr other ↦ ground (
        arith,
        c.bounded j u h,
        from j u h,
        other,
        bytes_less_total k j,
        from j u h,
        bytes_less_total j k,
        beq-false_sym k j other,
      )
    ];
  }
    where
      seen_at : Bytes → Type 0
      seen_at y = seen y ≡ true
