-- ===== src/StdMap.antt =====
-- `std::map` and `std::set` as sorted lists: `insert_or_assign`, `find`, `erase` and iteration in
-- key order. The laws of lookups hold of every such list; its order is an invariant of its own.
use teleno.Base.{
  Bool-cases, Key, List, Option, [], arith, beq-false_sym, bytes_key, false, if◌then◌else◌, inl,
  inr, length, less_asym, nat_key, none, pair_key, refl, some, some_inj, subst, true, ◌+◌, ◌<?◌,
  ◌==◌, ◌∷◌, ◌≡◌, ◌⊎◌,
}

abbrev pub Map {ℓ κ} : Type ℓ → Type κ → Type (ℓ ⊔ κ)
Map K V = List (K × V)

module _ {ℓ κ} {K : Type ℓ} {V : Type κ} ⦃e : Key K⦄ where
  unfoldable pub lookup : K → Map K V → Option V
  lookup k [] = none
  lookup k ((j, v) ∷ m) = if j == k then some v else lookup k m

  unfoldable pub insert_or_assign : K → V → Map K V → Map K V
  insert_or_assign k v [] = (k, v) ∷ []
  insert_or_assign k v ((j, w) ∷ m) =
      let rest = insert_or_assign k v m in
      if j == k then (k, v) ∷ m else if k <? j then (k, v) ∷ (j, w) ∷ m else (j, w) ∷ rest

  unfoldable pub erase : K → Map K V → Map K V
  erase k [] = []
  erase k ((j, w) ∷ m) = let rest = erase k m in if j == k then rest else (j, w) ∷ rest

  pub lookup-insert :
      (k j : K) (v : V) (m : Map K V)
      → lookup j (insert_or_assign k v m) ≡ (if k == j then some v else lookup j m)
  unfolding lookup insert_or_assign
  lookup-insert k j v [] = refl
  lookup-insert k j v ((i, w) ∷ m) =
      ground (arith, e.beq_iff k j, e.beq_iff i k, e.beq_iff i j, lookup-insert k j v m)

  pub lookup-erase :
      (k j : K) (m : Map K V) → lookup j (erase k m) ≡ (if k == j then none else lookup j m)
  unfolding lookup erase
  lookup-erase k j [] = ground arith
  lookup-erase k j ((i, w) ∷ m) =
      ground (arith, e.beq_iff k j, e.beq_iff i k, e.beq_iff i j, lookup-erase k j m)

  -- What is found after an insertion is what was inserted, or what was there under another key.
  pub lookup-insert_inv :
      (k j : K) (v w : V) (m : Map K V)
      → lookup j (insert_or_assign k v m) ≡ some w
      → (k ≡ j) × (v ≡ w) ⊎ ((k == j) ≡ false) × (lookup j m ≡ some w)
  lookup-insert_inv k j v w m h = elim (Bool-cases (k == j)) [
    | inl same ↦ inl ((e.beq_iff k j).0 same, some_inj v w (ground (arith, lookup-insert k j v m)))
    | inr other ↦ inr (other, ground (arith, lookup-insert k j v m))
  ]

  pub lookup-erase_inv :
      (k j : K) (w : V) (m : Map K V)
      → lookup j (erase k m) ≡ some w
      → ((k == j) ≡ false) × (lookup j m ≡ some w)
  lookup-erase_inv k j w m h = elim (Bool-cases (k == j)) [
    | inl same ↦ absurd (ground (arith, lookup-erase k j m))
    | inr other ↦ (other, ground (arith, lookup-erase k j m))
  ]

  -- Every key of the map lies above `k`.
  abbrev pub Above : K → Map K V → Type 0
  Above k [] = Unit
  Above k ((j, w) ∷ m) = ((k <? j) ≡ true) × Above k m

  -- The invariant of `std::map`: keys ascend strictly, so none stands twice.
  abbrev pub IsSorted : Map K V → Type 0
  IsSorted [] = Unit
  IsSorted ((k, v) ∷ m) = Above k m × IsSorted m

  pub lookup-Above : (k : K) (m : Map K V) → Above k m → lookup k m ≡ none
  unfolding lookup
  lookup-Above k [] h = refl
  lookup-Above k ((j, w) ∷ m) h =
      ground (arith, lookup-Above k m h.1, e.beq_iff j k, e.less_irrefl k)

  pub Above-lookup :
      (k j : K) (u : V) (m : Map K V) → Above k m → lookup j m ≡ some u → (k <? j) ≡ true
  unfolding lookup
  Above-lookup k j u [] a h = absurd (ground arith)
  Above-lookup k j u ((i, x) ∷ m) a h = elim (Bool-cases (i == j)) [
    | inl same ↦ subst (λ y. (k <? y) ≡ true) ((e.beq_iff i j).0 same) a.0
    | inr other ↦ Above-lookup k j u m a.1 (ground (arith, h, other))
  ]

  pub Above-trans : (i k : K) (m : Map K V) → (i <? k) ≡ true → Above k m → Above i m
  Above-trans i k [] p h = tt
  Above-trans i k ((j, w) ∷ m) p h = (e.less_trans i k j p h.0, Above-trans i k m p h.1)

  Above-insert :
      (i k : K) (v : V) (m : Map K V)
      → (i <? k) ≡ true
      → Above i m
      → Above i (insert_or_assign k v m)
  unfolding insert_or_assign
  Above-insert i k v [] p h = (p, tt)
  Above-insert i k v ((j, w) ∷ m) p h = ground (arith, Above-insert i k v m p h.1)

  Above-erase : (i k : K) (m : Map K V) → Above i m → Above i (erase k m)
  unfolding erase
  Above-erase i k [] h = tt
  Above-erase i k ((j, w) ∷ m) h = ground (arith, Above-erase i k m h.1)

  pub IsSorted-insert :
      (k : K) (v : V) (m : Map K V) → IsSorted m → IsSorted (insert_or_assign k v m)
  unfolding insert_or_assign
  IsSorted-insert k v [] h = (tt, tt)
  IsSorted-insert k v ((j, w) ∷ m) h = elim (Bool-cases (j == k)) [
    | inl same ↦ rw same (subst (λ x. Above x m) ((e.beq_iff j k).0 same) h.0, h.1)
    | inr other ↦ elim (Bool-cases (k <? j)) [
      | inl below ↦ rw (other, below) (((below, Above-trans k j m below h.0)), h)
      | inr above ↦
          rw (other, above)
            (
              Above-insert j k v m (e.less_total k j (beq-false_sym j k other) above) h.0,
              IsSorted-insert k v m h.1,
            )
    ]
  ]

  pub IsSorted-erase : (k : K) (m : Map K V) → IsSorted m → IsSorted (erase k m)
  unfolding erase
  IsSorted-erase k [] h = tt
  IsSorted-erase k ((j, w) ∷ m) h = ground (arith, IsSorted-erase k m h.1, Above-erase j k m h.0)

  pub erase-absent : (k : K) (m : Map K V) → lookup k m ≡ none → erase k m ≡ m
  unfolding erase lookup
  erase-absent k [] h = refl
  erase-absent k ((j, w) ∷ m) h = ground (arith, erase-absent k m)

  -- One entry goes when a key of a sorted map is erased.
  pub length-erase :
      (k : K) (v : V) (m : Map K V)
      → IsSorted m
      → lookup k m ≡ some v
      → length (erase k m) + 1 ≡ length m
  unfolding erase lookup
  length-erase k v [] h found = absurd (ground arith)
  length-erase k v ((j, w) ∷ m) h found =
      ground (arith, length-erase k v m h.1, erase-absent k m, lookup-Above j m h.0, e.beq_iff j k)

  -- A new key adds an entry, and one that is there keeps the number of a sorted map.
  pub length-insert_new :
      (k : K) (v : V) (m : Map K V)
      → lookup k m ≡ none
      → length (insert_or_assign k v m) ≡ length m + 1
  unfolding lookup insert_or_assign
  length-insert_new k v [] h = omega arith
  length-insert_new k v ((j, w) ∷ m) h = ground (arith, length-insert_new k v m)

  pub length-insert_old :
      (k : K) (v u : V) (m : Map K V)
      → IsSorted m
      → lookup k m ≡ some u
      → length (insert_or_assign k v m) ≡ length m
  unfolding lookup insert_or_assign
  length-insert_old k v u [] s h = absurd (ground (arith, h))
  length-insert_old k v u ((j, w) ∷ m) s h =
      ground (arith, length-insert_old k v u m s.1, Above-lookup j k u m s.0, less_asym j k)
