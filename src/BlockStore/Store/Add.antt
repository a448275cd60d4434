-- ===== src/BlockStore/Store/Add.antt =====
-- `add_block` on a linked store, whole: the block is stored and the store stays linked.
use teleno.BlockStore.SkipList.{countr_zero}
use teleno.BlockStore.SkipList.Bounds.{pow_pos}
use teleno.Base.{
  Bool-cases, Bytes, List, Option, [], arith, beq_refl, bytes_beq_iff, bytes_key, false, get_elem?,
  if◌then◌else◌, inl, inr, ltb, ltb→lt, nat_beq, nat_key, none, ok, ok_inj, refl, some, subst, suc,
  true, zero, ℕ, ◌-◌, ◌<◌, ◌==◌, ◌^◌, ◌∙◌, ◌∷◌, ◌≡◌, ◌≢◌, ◌≤◌,
}
use teleno.BlockStore.Store.{
  Codec, Store, Header, Block, BlockRecord, read_record, get_record_bytes, put_record_bytes,
  first_id, Error,
}
use teleno.BlockStore.Store.Linked.{ancestor, IsLinked, AllLinked}
use teleno.BlockStore.Store.Rpc.{skip_pointers, raise_highest, store_block, add_block}
use teleno.BlockStore.Store.Grow.{
  HasParent, Extends, read_record-raise_highest, IsLinked-Extends, Points, read_record-put,
  ancestor-Extends, skip_pointers-Points,
}

module _ {Raw : Type 0} (c : Codec Raw) where
  ancestor_through :
      (t : Store Raw) (n : ℕ) (id a : Bytes) (r : BlockRecord)
      → 1 ≤ n
      → read_record c t id ≡ ok r
      → ancestor c t (n - 1) (first_id r.previous_block_ids) ≡ ok a
      → ancestor c t n id ≡ ok a
  unfolding ancestor
  ancestor_through t zero id a r h rd e = elim h [ ]
  ancestor_through t (suc n) id a r h rd e =
      let z : suc n - 1 ≡ n = omega arith in let e' = rw z at e in ground arith

  parent-Extends :
      (s t : Store Raw) (header : Header) (r : BlockRecord)
      → Extends c s t
      → r.block_height ≡ header.height
      → first_id r.previous_block_ids ≡ header.previous
      → 1 < r.block_height
      → HasParent c s header
      → (p : BlockRecord) × (read_record c t (first_id r.previous_block_ids) ≡ ok p)
        × (r.block_height ≡ suc p.block_height)
  unfolding Extends
  parent-Extends s t header r x high first lt (inl low) = absurd (omega arith)
  parent-Extends s t header r x high first lt (inr (p, rd, up)) =
      (p, rw first (x header.previous p rd), high ∙ up)

  new-IsLinked :
      (s t : Store Raw) (header : Header) (id : Bytes) (r : BlockRecord)
      → Extends c s t
      → read_record c t id ≡ ok r
      → r.block_id ≡ id
      → r.block_height ≡ header.height
      → 1 ≤ header.height
      → HasParent c s header
      → Points c s header r.previous_block_ids
      → IsLinked c t id r
  unfolding Extends
  new-IsLinked s t header id r x rd named high low parent (len, first, at) = record {
    named = named;
    pointers = ground arith;
    skips = λ i a q.
        ancestor_through t (2 ^ i) id a r (pow_pos i) rd
          (rw first (ancestor-Extends c s t x (2 ^ i - 1) header.previous a (at i a q)));
    parent = λ lt. parent-Extends s t header r x high first lt parent;
  }

  -- The record that `add_block` writes.
  abbrev pub new_record : Block → Header → List Bytes → Option Bytes → BlockRecord
  new_record block header ids receipt = record {
    block_id = block.id;
    block_height = header.height;
    previous_block_ids = ids;
    block = some block;
    receipt = receipt;
  }

  abbrev pub stored : Store Raw → Block → Header → List Bytes → Option Bytes → Store Raw
  stored s block header ids receipt =
      raise_highest c block.id header
        (put_record_bytes c block.id (c.serialize (new_record block header ids receipt)) s)

  pub read_record-stored :
      (s : Store Raw) (block : Block) (header : Header) (ids : List Bytes) (receipt : Option Bytes)
      (j : Bytes)
      → read_record c (stored s block header ids receipt) j
        ≡ (if block.id == j then ok (new_record block header ids receipt) else read_record c s j)
  read_record-stored s block header ids receipt j =
      read_record-raise_highest c
        (put_record_bytes c block.id (c.serialize (new_record block header ids receipt)) s) block.id
        j header
      ∙ read_record-put c s (new_record block header ids receipt) block.id j

  absent :
      (s : Store Raw) (id : Bytes) (r : BlockRecord)
      → get_record_bytes c s id ≡ none
      → read_record c s id ≢ ok r
  unfolding read_record
  absent s id r e q = ground arith

  Extends-stored :
      (s : Store Raw) (block : Block) (header : Header) (ids : List Bytes) (receipt : Option Bytes)
      → get_record_bytes c s block.id ≡ none
      → Extends c s (stored s block header ids receipt)
  unfolding Extends
  Extends-stored s block header ids receipt e j r rd = elim (Bool-cases (block.id == j)) [
    | inl same ↦ absurd (absent s block.id r e (rw ((bytes_beq_iff block.id j).0 same) rd))
    | inr other ↦ rw (read_record-stored s block header ids receipt j, other) rd
  ]

  read_old :
      (s : Store Raw) (block : Block) (header : Header) (ids : List Bytes) (receipt : Option Bytes)
      (j : Bytes) (r : BlockRecord)
      → (block.id == j) ≡ false
      → read_record c (stored s block header ids receipt) j ≡ ok r
      → read_record c s j ≡ ok r
  read_old s block header ids receipt j r other rd =
      ground (arith, read_record-stored s block header ids receipt j)

  read_new :
      (s : Store Raw) (block : Block) (header : Header) (ids : List Bytes) (receipt : Option Bytes)
      (j : Bytes) (r : BlockRecord)
      → (block.id == j) ≡ true
      → read_record c (stored s block header ids receipt) j ≡ ok r
      → new_record block header ids receipt ≡ r
  read_new s block header ids receipt j r same rd =
      ok_inj {E = Error} (new_record block header ids receipt) r
        (ground (arith, read_record-stored s block header ids receipt j))

  kept :
      (s : Store Raw) (block : Block) (header : Header) (ids : List Bytes) (receipt : Option Bytes)
      → get_record_bytes c s block.id ≡ none
      → (j : Bytes) (r : BlockRecord) → read_record c s j ≡ ok r
      → read_record c (stored s block header ids receipt) j ≡ ok r
  unfolding Extends
  kept s block header ids receipt e = Extends-stored s block header ids receipt e

  AllLinked-stored :
      (s : Store Raw) (block : Block) (header : Header) (ids : List Bytes) (receipt : Option Bytes)
      → get_record_bytes c s block.id ≡ none
      → AllLinked c s
      → IsLinked c
          (stored s block header ids receipt)
          block.id
          (new_record block header ids receipt)
      → AllLinked c (stored s block header ids receipt)
  AllLinked-stored s block header ids receipt e w new j r rd = elim (Bool-cases (block.id == j)) [
    | inl same ↦
        subst (λ x. IsLinked c (stored s block header ids receipt) x r)
          ((bytes_beq_iff block.id j).0 same)
          (subst (λ x. IsLinked c (stored s block header ids receipt) block.id x)
            (read_new s block header ids receipt j r same rd) new)
    | inr other ↦
        IsLinked-Extends c s (stored s block header ids receipt)
          (Extends-stored s block header ids receipt e) j r
          (w j r (read_old s block header ids receipt j r other rd))
  ]

  -- What `add_block` leaves: a linked store in which the block reads as it was given, and every
  -- record that was stored before.
  pub record Added (s t : Store Raw) (block : Block) (header : Header) (receipt : Option Bytes)
      : Type 0 where
    pub linked : AllLinked c t
    pub keeps : (j : Bytes) (r : BlockRecord) → read_record c s j ≡ ok r → read_record c t j ≡ ok r
    pub ids : List Bytes
    pub reads : read_record c t block.id ≡ ok (new_record block header ids receipt)

  added :
      (s : Store Raw) (block : Block) (header : Header) (ids : List Bytes) (receipt : Option Bytes)
      → AllLinked c s
      → get_record_bytes c s block.id ≡ none
      → IsLinked c
          (stored s block header ids receipt)
          block.id
          (new_record block header ids receipt)
      → Added s (stored s block header ids receipt) block header receipt
  added s block header ids receipt w e new = record {
    linked = AllLinked-stored s block header ids receipt e w new;
    keeps = λ j r rd. kept s block header ids receipt e j r rd;
    ids = ids;
    reads = rw (read_record-stored s block header ids receipt block.id, beq_refl block.id);
  }

  pub add_block_run :
      (s : Store Raw) (block : Block) (header : Header) (ids : List Bytes) (receipt : Option Bytes)
      → block.header ≡ some header
      → get_record_bytes c s block.id ≡ none
      → skip_pointers c s header ≡ ok ids
      → add_block c (record { block_to_add = some block; receipt_to_add = receipt }) s
        ≡ ok (stored s block header ids receipt)
  unfolding add_block store_block
  add_block_run s block header ids receipt h e q = ground arith

  one_pointer_at :
      (s : Store Raw) (header : Header) (i : ℕ) (a : Bytes)
      → get_elem? (header.previous ∷ []) i ≡ some a
      → ancestor c s (2 ^ i - 1) header.previous ≡ ok a
  unfolding ancestor
  one_pointer_at s header zero a q = ground arith
  one_pointer_at s header (suc i) a q = absurd (ground arith)

  one_pointer :
      (s : Store Raw) (header : Header)
      → header.height ≡ 1
      → Points c s header (header.previous ∷ [])
  unfolding countr_zero ancestor
  one_pointer s header e = (rw e, refl, λ i a q. one_pointer_at s header i a q)

  no_pointers :
      (s t : Store Raw) (block : Block) (header : Header) (receipt : Option Bytes)
      → header.height ≡ 0
      → IsLinked c t block.id (new_record block header [] receipt)
  no_pointers s t block header receipt e = record {
    named = refl;
    pointers = rw e;
    skips = λ i a q. absurd (ground arith);
    parent = λ lt. absurd (omega arith);
  }

  grown :
      (s : Store Raw) (block : Block) (header : Header) (ids : List Bytes) (receipt : Option Bytes)
      → AllLinked c s
      → block.header ≡ some header
      → get_record_bytes c s block.id ≡ none
      → HasParent c s header
      → 1 ≤ header.height
      → skip_pointers c s header ≡ ok ids
      → Points c s header ids
      → (t : Store Raw) × (add_block c
            (record { block_to_add = some block; receipt_to_add = receipt })
            s
          ≡ ok t)
        × Added s t block header receipt
  grown s block header ids receipt w h e parent high run pts =
      let t = stored s block header ids receipt in
      (
        t,
        add_block_run s block header ids receipt h e run,
        added s block header ids receipt w e (
            new-IsLinked s t header block.id (new_record block header ids receipt)
              (Extends-stored s block header ids receipt e)
              (rw (read_record-stored s block header ids receipt block.id, beq_refl block.id)) refl
              refl high parent pts),
      )

  -- On a linked store, a block that is not stored, and whose parent is stored one lower or whose
  -- height is at most 1, is stored: `add_block` returns a linked store that reads it as given,
  -- with its receipt, and keeps every record that was there.
  pub add_block-Added :
      (s : Store Raw) (block : Block) (header : Header) (receipt : Option Bytes)
      → AllLinked c s
      → block.header ≡ some header
      → get_record_bytes c s block.id ≡ none
      → HasParent c s header
      → (t : Store Raw) × (add_block c
            (record { block_to_add = some block; receipt_to_add = receipt })
            s
          ≡ ok t)
        × Added s t block header receipt
  unfolding skip_pointers
  add_block-Added s block header receipt w h e (inr (p, rd, up)) =
      elim (Bool-cases (ltb 1 header.height)) [
        | inl high ↦
            let (ids, run, pts) = skip_pointers-Points c s w header p rd up (ltb→lt _ _ high) in
            grown s block header ids receipt w h e (inr (p, rd, up)) (omega arith) run pts
        | inr low ↦
            grown s block header (header.previous ∷ []) receipt w h e (inr (p, rd, up))
              (omega arith) (ground arith) (one_pointer s header (ground arith))
      ]
  add_block-Added s block header receipt w h e (inl low) =
      elim (Bool-cases (nat_beq header.height 0)) [
        | inl zero_height ↦ (
          stored s block header [] receipt,
          add_block_run s block header [] receipt h e (ground arith),
          added s block header [] receipt w e (
              no_pointers s (stored s block header [] receipt) block header receipt (ground arith)),
        )
        | inr one ↦
            grown s block header (header.previous ∷ []) receipt w h e (inl low) (ground arith)
              (ground arith) (one_pointer s header (ground arith))
      ]
