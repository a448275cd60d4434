-- ===== src/Stores/Transactions/Laws.antt =====
-- What indexing one transaction does to the items of the store.
use teleno.Base.{
  Bool-cases, Bytes, List, Option, Option-cases, [], ap, arith, bytes_beq_iff, bytes_key, false,
  if◌then◌else◌, inl, inr, nat_key, none, refl, some, some_inj, subst, sym, true, ◌++◌, ◌==◌, ◌∙◌,
  ◌∷◌, ◌≡◌, ◌⊎◌,
}
use teleno.StdMap
use teleno.StdMap.{Map, lookup-insert}
use teleno.Stores.Messages.{Transaction, Codec}
use teleno.Stores.Transactions.{Item, contains, add_included_transaction, put_new, append_block}

-- What a block adds to an item.
abbrev pub extend : Transaction → Bytes → Option Item → Item
extend tx bid none = record { transaction = tx; containing_blocks = bid ∷ [] }
extend tx bid (some item) =
    if contains bid item.containing_blocks
    then item
    else record item { containing_blocks = item.containing_blocks ++ bid ∷ [] }

extend-has :
    (tx : Transaction) (bid : Bytes) (x : Item)
    → contains bid x.containing_blocks ≡ true
    → extend tx bid (some x) ≡ x
extend-has tx bid x has = rw (extend, has) refl

extend-new :
    (tx : Transaction) (bid : Bytes) (x : Item)
    → contains bid x.containing_blocks ≡ false
    → extend tx bid (some x) ≡ record x { containing_blocks = x.containing_blocks ++ bid ∷ [] }
extend-new tx bid x new = rw (extend, new) refl

contains-append : (bid : Bytes) (xs : List Bytes) → contains bid (xs ++ bid ∷ []) ≡ true
unfolding contains
contains-append bid [] = ground (arith, bytes_beq_iff bid bid)
contains-append bid (x ∷ xs) = ground (arith, contains-append bid xs)

-- A block that has the transaction twice adds its id once.
pub extend-twice :
    (tx ty : Transaction) (bid : Bytes) (o : Option Item)
    → extend ty bid (some (extend tx bid o)) ≡ extend tx bid o
unfolding contains
extend-twice tx ty bid none = ground (arith, bytes_beq_iff bid bid)
extend-twice tx ty bid (some item) = elim (Bool-cases (contains bid item.containing_blocks)) [
  | inl has ↦ rw (has, has) refl
  | inr new ↦ rw new (rw (contains-append bid item.containing_blocks) refl)
]

module _ {Raw : Type 0} (codec : Codec Item Raw) where
  -- Every stored value is a serialised item.
  abbrev pub IsValid : Map Bytes Raw → Type 0
  IsValid db =
      (k : Bytes) (v : Raw) → StdMap.lookup k db ≡ some v → (x : Item) × (v ≡ codec.serialize x)

  abbrev pub view : Map Bytes Raw → Bytes → Option Item
  view db k = elim (StdMap.lookup k db) [ none ↦ none | some v ↦ codec.parse v ]

  pub stored :
      (k : Bytes) (db : Map Bytes Raw)
      → IsValid db
      → (StdMap.lookup k db ≡ none) ⊎ (x : Item) × (StdMap.lookup k db ≡ some (codec.serialize x))
  stored k db v = elim (Option-cases (StdMap.lookup k db)) [
    | inl e ↦ inl e
    | inr (r, e) ↦ let (x, p) = v k r e in inr (x, e ∙ ap some p)
  ]

  add-none :
      (tx : Transaction) (bid : Bytes) (db : Map Bytes Raw)
      → StdMap.lookup tx.id db ≡ none
      → add_included_transaction codec tx bid db ≡ put_new codec tx bid db
  unfolding add_included_transaction
  add-none tx bid db e = ground (arith, e)

  add-some :
      (tx : Transaction) (bid : Bytes) (x : Item) (db : Map Bytes Raw)
      → StdMap.lookup tx.id db ≡ some (codec.serialize x)
      → add_included_transaction codec tx bid db ≡ append_block codec tx bid x db
  unfolding add_included_transaction
  add-some tx bid x db e = ground (arith, e, codec.parse-serialize x, codec.is_empty-serialize x)

  pub view-some :
      (k : Bytes) (x : Item) (db : Map Bytes Raw)
      → StdMap.lookup k db ≡ some (codec.serialize x)
      → view db k ≡ some x
  view-some k x db e = ground (arith, e, codec.parse-serialize x)

  own :
      (k j : Bytes) (r : Raw) (db : Map Bytes Raw)
      → StdMap.lookup k db ≡ some r
      → StdMap.lookup j db ≡ (if k == j then some r else StdMap.lookup j db)
  own k j r db e = elim (Bool-cases (k == j)) [
    | inl same ↦
        subst (λ b. StdMap.lookup j db ≡ (if b then some r else StdMap.lookup j db)) (sym same)
          (subst (λ y. StdMap.lookup y db ≡ some r) ((bytes_beq_iff k j).0 same) e)
    | inr other ↦ ground (arith, other)
  ]

  append-lookup :
      (tx : Transaction) (bid j : Bytes) (x : Item) (db : Map Bytes Raw)
      → StdMap.lookup tx.id db ≡ some (codec.serialize x)
      → StdMap.lookup j (append_block codec tx bid x db) ≡ (
          if tx.id == j
          then some (codec.serialize (extend tx bid (some x)))
          else StdMap.lookup j db)
  unfolding append_block
  append-lookup tx bid j x db e = elim (Bool-cases (contains bid x.containing_blocks)) [
    | inr new ↦
        let y : Item = record x { containing_blocks = x.containing_blocks ++ bid ∷ [] } in
        subst
          (λ z.
            StdMap.lookup j (append_block codec tx bid x db)
            ≡ (if tx.id == j then some (codec.serialize z) else StdMap.lookup j db))
          (sym (extend-new tx bid x new))
          (rw (append_block, new) (lookup-insert tx.id j (codec.serialize y) db))
    | inl has ↦
        subst
          (λ y.
            StdMap.lookup j (append_block codec tx bid x db)
            ≡ (if tx.id == j then some (codec.serialize y) else StdMap.lookup j db))
          (sym (extend-has tx bid x has)) (rw (append_block, has) (own tx.id j _ db e))
  ]

  add-lookup :
      (tx : Transaction) (bid j : Bytes) (db : Map Bytes Raw)
      → IsValid db
      → StdMap.lookup j (add_included_transaction codec tx bid db) ≡ (
          if tx.id == j
          then some (codec.serialize (extend tx bid (view db tx.id)))
          else StdMap.lookup j db)
  unfolding put_new
  add-lookup tx bid j db v = elim (stored tx.id db v) [
    | inl e ↦ rw (add-none tx bid db e, view, e) (lookup-insert tx.id j _ db)
    | inr (x, e) ↦
        rw (add-some tx bid x db e, view-some tx.id x db e) (append-lookup tx bid j x db e)
  ]

  pub add-IsValid :
      (tx : Transaction) (bid : Bytes) (db : Map Bytes Raw)
      → IsValid db
      → IsValid (add_included_transaction codec tx bid db)
  add-IsValid tx bid db v k r h = elim (Bool-cases (tx.id == k)) [
    | inl same ↦ (
      extend tx bid (view db tx.id),
      sym (some_inj _ _ (ground (arith, h, add-lookup tx bid k db v, same))),
    )
    | inr other ↦ v k r (ground (arith, h, add-lookup tx bid k db v, other))
  ]

  pub add-view :
      (tx : Transaction) (bid j : Bytes) (db : Map Bytes Raw)
      → IsValid db
      → view (add_included_transaction codec tx bid db) j
        ≡ (if tx.id == j then some (extend tx bid (view db j)) else view db j)
  add-view tx bid j db v = elim (Bool-cases (tx.id == j)) [
    | inl same ↦
        let at = add-lookup tx bid j db v in
        let e = (bytes_beq_iff tx.id j).0 same in
        rw (view, at, same) (codec.parse-serialize _ ∙ ap (λ y. some (extend tx bid (view db y))) e)
    | inr other ↦ rw (view, add-lookup tx bid j db v, other) refl
  ]
