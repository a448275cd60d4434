-- ===== src/Stores/Transactions/History.antt =====
-- What is indexed of a history of accepted blocks.
use teleno.Base.{
  Bool-cases, Bytes, List, Option, Option-cases, [], ap, arith, bytes_key, false, if◌then◌else◌,
  inl, inr, is_some, nat_key, none, not, ok, or_else, refl, some, subst, sym, true, ◌&&◌, ◌++◌,
  ◌==◌, ◌∙◌, ◌∷◌, ◌≡◌,
}
use teleno.StdMap
use teleno.StdMap.{Map}
use teleno.Stores.Messages.{Transaction, Block, Codec}
use teleno.Stores.Transactions.{
  Item, is_nil, contains, add_included_transaction, add_transactions, handle_block_accepted,
  item_of, collect, get_transactions_by_id,
}
use teleno.Stores.Transactions.Laws.{
  IsValid, view, extend, extend-twice, add-view, add-IsValid, stored,
}

-- The first transaction with this id.
abbrev pub find_tx : Bytes → List Transaction → Option Transaction
find_tx i [] = none
find_tx i (tx ∷ txs) = if tx.id == i then some tx else find_tx i txs

-- Of a history, newest block first: the transaction as it came first, and the ids of the blocks that
-- have it, each once, in the order in which they came.
abbrev pub first_tx : Bytes → List Block → Option Transaction
first_tx i [] = none
first_tx i (b ∷ bs) = or_else (first_tx i bs) (find_tx i b.transactions)

abbrev pub blocks_with : Bytes → List Block → List Bytes
blocks_with i [] = []
blocks_with i (b ∷ bs) =
    let rest = blocks_with i bs in
    if is_some (find_tx i b.transactions) && not (contains b.id rest)
    then rest ++ b.id ∷ []
    else rest

abbrev pub indexed : List Block → Bytes → Option Item
indexed bs i = elim (first_tx i bs) [
  | none ↦ none
  | some tx ↦ some (record { transaction = tx; containing_blocks = blocks_with i bs })
]

module _ {Raw : Type 0} (codec : Codec Item Raw) where
  -- The database after a history, newest block first.
  abbrev pub run : List Block → Map Bytes Raw
  run [] = []
  run (b ∷ bs) = handle_block_accepted codec (record { block = some b }) (run bs)

  -- What the transactions of one block leave of an item.
  abbrev after : Bytes → Option Transaction → Option Item → Option Item
  after bid none o = o
  after bid (some tx) o = some (extend tx bid o)

  after-step :
      (i bid : Bytes) (tx : Transaction) (txs : List Transaction) (o : Option Item)
      → (tx.id == i) ≡ true
      → after bid (find_tx i txs) (some (extend tx bid o)) ≡ after bid (find_tx i (tx ∷ txs)) o
  after-step i bid tx txs o same = elim (Option-cases (find_tx i txs)) [
    | inl e ↦ rw (same, e) refl
    | inr (ty, e) ↦ rw (same, e) (ap some (extend-twice tx ty bid o))
  ]

  after-other :
      (i bid : Bytes) (tx : Transaction) (txs : List Transaction) (o : Option Item)
      → (tx.id == i) ≡ false
      → after bid (find_tx i (tx ∷ txs)) o ≡ after bid (find_tx i txs) o
  after-other i bid tx txs o other = rw other refl

  nil-other : (i j : Bytes) → is_nil i ≡ false → is_nil j ≡ true → (j == i) ≡ false
  unfolding is_nil
  nil-other [] j n nil = absurd (ground arith)
  nil-other (x ∷ i) [] n nil = refl
  nil-other (x ∷ i) (y ∷ j) n nil = absurd (ground arith)

  add_transactions-lem :
      (i bid : Bytes) (txs : List Transaction) (db : Map Bytes Raw)
      → is_nil i ≡ false
      → IsValid codec db
      → IsValid codec (add_transactions codec txs bid db)
        × (view codec (add_transactions codec txs bid db) i
            ≡ after bid (find_tx i txs) (view codec db i))
  unfolding add_transactions
  add_transactions-lem i bid [] db n v = (v, refl)
  add_transactions-lem i bid (tx ∷ txs) db n v = elim (Bool-cases (is_nil tx.id)) [
    | inl nil ↦
        let (v', e) = add_transactions-lem i bid txs db n v in
        subst (λ b. Goal (if b then db else add_included_transaction codec tx bid db)) (sym nil)
          (v', e ∙ sym (after-other i bid tx txs (view codec db i) (nil-other i tx.id n nil)))
    | inr full ↦
        let step = add_included_transaction codec tx bid db in
        let (v', e) = add_transactions-lem i bid txs step n (add-IsValid codec tx bid db v) in
        subst (λ b. Goal (if b then db else step)) (sym full)
          (
            v',
            e ∙ elim (Bool-cases (tx.id == i)) [
              | inl same ↦
                  ap (after bid (find_tx i txs)) (added same)
                  ∙ after-step i bid tx txs (view codec db i) same
              | inr other ↦
                  ap (after bid (find_tx i txs)) (kept other)
                  ∙ sym (after-other i bid tx txs (view codec db i) other)
            ],
          )
  ]
    where
      Goal : Map Bytes Raw → Type 0
      Goal db' =
          IsValid codec (add_transactions codec txs bid db')
          × (view codec (add_transactions codec txs bid db') i
              ≡ after bid (find_tx i (tx ∷ txs)) (view codec db i))

      added :
          (tx.id == i) ≡ true
          → view codec (add_included_transaction codec tx bid db) i
            ≡ some (extend tx bid (view codec db i))
      added same = add-view codec tx bid i db v ∙ ground (arith, same)

      kept :
          (tx.id == i) ≡ false
          → view codec (add_included_transaction codec tx bid db) i ≡ view codec db i
      kept other = add-view codec tx bid i db v ∙ ground (arith, other)

  blocks_with-none : (i : Bytes) (bs : List Block) → first_tx i bs ≡ none → blocks_with i bs ≡ []
  unfolding contains
  blocks_with-none i [] h = refl
  blocks_with-none i (b ∷ bs) h = elim (Option-cases (first_tx i bs)) [
    | inl e ↦ ground (arith, h, e, blocks_with-none i bs e)
    | inr (tx, e) ↦ absurd (ground (arith, h, e))
  ]

  indexed-step :
      (i : Bytes) (b : Block) (bs : List Block)
      → after b.id (find_tx i b.transactions) (indexed bs i) ≡ indexed (b ∷ bs) i
  unfolding contains
  indexed-step i b bs = elim (Option-cases (find_tx i b.transactions)) [
    | inl absent ↦ elim (Option-cases (first_tx i bs)) [
      | inl fresh ↦ rw (indexed, absent, fresh) refl
      | inr (ty, old) ↦ rw (indexed, absent, old) (rw (blocks_with, absent) refl)
    ]
    | inr (tx, found) ↦ elim (Option-cases (first_tx i bs)) [
      | inl fresh ↦
          let nobody = blocks_with-none i bs fresh in
          rw (indexed, found, fresh) (rw (blocks_with, found, nobody) refl)
      | inr (ty, old) ↦ elim (Bool-cases (contains b.id (blocks_with i bs))) [
        | inl has ↦ rw (indexed, found, old) (rw (extend, blocks_with, found, has) refl)
        | inr new ↦ rw (indexed, found, old) (rw (extend, blocks_with, found, new) refl)
      ]
    ]
  ]

  run-lem :
      (i : Bytes) (bs : List Block)
      → is_nil i ≡ false
      → IsValid codec (run bs) × (view codec (run bs) i ≡ indexed bs i)
  unfolding handle_block_accepted StdMap.lookup
  run-lem i [] n = (λ k v h. absurd (ground (arith, h)), refl)
  run-lem i (b ∷ bs) n =
      let (v, e) = run-lem i bs n in
      let (v', e') = add_transactions-lem i b.id b.transactions (run bs) n v in
      (v', e' ∙ ap (after b.id (find_tx i b.transactions)) e ∙ indexed-step i b bs)

  -- The answer to a list of ids: the items of those that are not empty and have one.
  abbrev pub answers : (Bytes → Option Item) → List Bytes → List Item
  answers found [] = []
  answers found (i ∷ ids) =
      let rest = answers found ids in
      elim (if is_nil i then none else found i) [ none ↦ rest | some item ↦ item ∷ rest ]

  item_of-view :
      (i : Bytes) (db : Map Bytes Raw)
      → IsValid codec db
      → item_of codec db i ≡ (if is_nil i then none else view codec db i)
  unfolding item_of
  item_of-view i db v = elim (stored codec i db v) [
    | inl e ↦ ground (arith, e)
    | inr (x, e) ↦ ground (arith, e, codec.is_empty-serialize x)
  ]

  item_of-indexed :
      (i : Bytes) (bs : List Block)
      → item_of codec (run bs) i ≡ (if is_nil i then none else indexed bs i)
  unfolding item_of
  item_of-indexed i bs = elim (Bool-cases (is_nil i)) [
    | inl nil ↦ rw (item_of, nil) refl
    | inr full ↦
        let (v, e) = run-lem i bs full in
        item_of-view i (run bs) v ∙ ap (λ o. if is_nil i then none else o) e
  ]

  collect-answers :
      (ids : List Bytes) (bs : List Block) → collect codec (run bs) ids ≡ answers (indexed bs) ids
  unfolding collect
  collect-answers [] bs = refl
  collect-answers (i ∷ ids) bs =
      let rest = answers (indexed bs) ids in
      ap (λ r. elim (item_of codec (run bs) i) [ none ↦ r | some item ↦ item ∷ r ])
        (collect-answers ids bs)
      ∙ ap (λ o. elim o [ none ↦ rest | some item ↦ item ∷ rest ]) (item_of-indexed i bs)

  -- After any history of accepted blocks, a request for at least one id is answered, for each of its
  -- ids that is not empty and that a block has, by the transaction as it was accepted first and the
  -- ids of all blocks that have it, each once and in the order of their acceptance.
  pub get_transactions_by_id-answers :
      (i : Bytes) (ids : List Bytes) (bs : List Block)
      → get_transactions_by_id codec (i ∷ ids) (run bs) ≡ ok (answers (indexed bs) (i ∷ ids))
  unfolding get_transactions_by_id
  get_transactions_by_id-answers i ids bs = ap ok (collect-answers (i ∷ ids) bs)
