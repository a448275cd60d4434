-- ===== src/BlockStore/Store/Grow.antt =====
-- `add_block` on a linked store: a block whose parent is stored one lower is stored with all its
-- pointers, and the store stays linked.
use teleno.BlockStore.SkipList.Bounds.{slot_range, get_previous_heights-Pointers}
use teleno.BlockStore.SkipList.{countr_zero}
use teleno.Base.{
  Bool-cases, Bytes, List, Result, Result-cases, [], ap, arith, bytes_key, get_elem?, get_elem?-lt,
  get_elem?_in, if◌then◌else◌, inl, inr, length, nat_beq, nat_beq_iff, nat_key, ok, ok_inj, refl,
  some, some_inj, subst, suc, sym, zero, ℕ, ◌-◌, ◌<◌, ◌==◌, ◌^◌, ◌∙◌, ◌∷◌, ◌≡◌, ◌≤◌, ◌⊎◌,
}
use teleno.StdMap
use teleno.BlockStore.Store.{
  Codec, Store, Header, BlockRecord, Error, read_record, get_record_bytes, put_record_bytes,
  get_ancestor_id_at_height, first_id, get_highest_block_topology, update_highest_block,
  get_previous_heights,
}
use teleno.BlockStore.Store.Linked.{ancestor, IsLinked, AllLinked, get_ancestor-finds}
use teleno.BlockStore.Store.Rpc.{previous_ids, raise_highest, skip_pointers}

module _ {Raw : Type 0} (c : Codec Raw) where
  pub read_record-put :
      (s : Store Raw) (r : BlockRecord) (id j : Bytes)
      → read_record c (put_record_bytes c id (c.serialize r) s) j
        ≡ (if id == j then ok r else read_record c s j)
  unfolding read_record get_record_bytes put_record_bytes
  read_record-put s r id j = ground (
    arith,
    StdMap.lookup-insert id j (c.serialize r) s.blocks,
    c.parse-serialize r,
    c.is_empty-serialize r,
  )

  pub read_record-raise_highest :
      (s : Store Raw) (id j : Bytes) (h : Header)
      → read_record c (raise_highest c id h s) j ≡ read_record c s j
  unfolding read_record get_record_bytes raise_highest update_highest_block
      get_highest_block_topology
  read_record-raise_highest s id j h = ground arith

  -- A record that a store holds is one that the other holds too.
  unfoldable pub Extends : Store Raw → Store Raw → Type 0
  Extends s t = (j : Bytes) (r : BlockRecord) → read_record c s j ≡ ok r → read_record c t j ≡ ok r

  pub ancestor-Extends :
      (s t : Store Raw)
      → Extends s t
      → (n : ℕ) (j a : Bytes) → ancestor c s n j ≡ ok a
      → ancestor c t n j ≡ ok a
  unfolding ancestor Extends
  ancestor-Extends s t x zero j a e = e
  ancestor-Extends s t x (suc n) j a e = elim (Result-cases (read_record c s j)) [
    | inl (r, rd) ↦
        ground (arith, x j r rd, ancestor-Extends s t x n (first_id r.previous_block_ids) a)
    | inr (q, rd) ↦ ground arith
  ]

  pub IsLinked-Extends :
      (s t : Store Raw)
      → Extends s t
      → (id : Bytes) (r : BlockRecord) → IsLinked c s id r
      → IsLinked c t id r
  unfolding Extends
  IsLinked-Extends s t x id r l = record {
    named = l.named;
    pointers = l.pointers;
    skips = λ i a at. ancestor-Extends s t x (2 ^ i) id a (l.skips i a at);
    parent = λ lt. let (p, rp, h) = l.parent lt in (p, x (first_id r.previous_block_ids) p rp, h);
  }

  -- What one pointer of a new block is.
  abbrev pointer : Store Raw → Header → ℕ → Result Error Bytes
  pointer s header h =
      if nat_beq h (header.height - 1)
      then ok header.previous
      else get_ancestor_id_at_height c s header.previous h

  previous_ids-step :
      (s : Store Raw) (header : Header) (h : ℕ) (hs : List ℕ) (a : Bytes) (ids : List Bytes)
      → pointer s header h ≡ ok a
      → previous_ids c s header hs ≡ ok ids
      → previous_ids c s header (h ∷ hs) ≡ ok (a ∷ ids)
  unfolding previous_ids
  previous_ids-step s header h hs a ids p q = ground arith

  pointers_cons :
      (s : Store Raw) (header : Header) (h : ℕ) (hs : List ℕ) (a : Bytes) (ids : List Bytes)
      → pointer s header h ≡ ok a
      → ((i k : ℕ) (b : Bytes)
          → get_elem? hs i ≡ some k
          → get_elem? ids i ≡ some b
          → pointer s header k ≡ ok b)
      → (i k : ℕ) (b : Bytes) → get_elem? (h ∷ hs) i ≡ some k
      → get_elem? (a ∷ ids) i ≡ some b
      → pointer s header k ≡ ok b
  pointers_cons s header h hs a ids p at zero k b e q = rw (← some_inj h k e, ← some_inj a b q) p
  pointers_cons s header h hs a ids p at (suc i) k b e q = at i k b e q

  -- The pointers of heights that can all be found.
  previous_ids-total :
      (s : Store Raw) (header : Header) (hs : List ℕ)
      → ((i h : ℕ) → get_elem? hs i ≡ some h → (a : Bytes) × (pointer s header h ≡ ok a))
      → (ids : List Bytes) × (previous_ids c s header hs ≡ ok ids)
        × (length ids ≡ length hs)
        × ((i h : ℕ) (a : Bytes)
            → get_elem? hs i ≡ some h
            → get_elem? ids i ≡ some a
            → pointer s header h ≡ ok a)
  unfolding previous_ids
  previous_ids-total s header [] f = ([], refl, refl, λ i h a p q. absurd (ground arith))
  previous_ids-total s header (h ∷ hs) f =
      let (a, p) = f 0 h refl in
      let (ids, q, len, at) = previous_ids-total s header hs (λ i k e. f (suc i) k e) in
      (
        a ∷ ids,
        previous_ids-step s header h hs a ids p q,
        ap suc len,
        pointers_cons s header h hs a ids p at,
      )

  -- The block's parent is stored one lower, if the block has one that is.
  abbrev pub HasParent : Store Raw → Header → Type 0
  HasParent s header =
      (header.height ≤ 1)
      ⊎ ((p : BlockRecord) × (read_record c s header.previous ≡ ok p)
          × (header.height ≡ suc p.block_height))

  -- What the pointers of a block have to be, for its record to be linked.
  abbrev pub Points : Store Raw → Header → List Bytes → Type 0
  Points s header ids =
      (length ids ≡ suc (countr_zero header.height))
      × (first_id ids ≡ header.previous)
      × ((i : ℕ) (a : Bytes)
          → get_elem? ids i ≡ some a
          → ancestor c s (2 ^ i - 1) header.previous ≡ ok a)

  pointer-finds :
      (s : Store Raw)
      → AllLinked c s
      → (header : Header) (p : BlockRecord) (i h : ℕ) → read_record c s header.previous ≡ ok p
      → header.height ≡ suc p.block_height
      → get_elem? (get_previous_heights header.height) i ≡ some h
      → (a : Bytes) × (pointer s header h ≡ ok a)
        × (ancestor c s (2 ^ i - 1) header.previous ≡ ok a)
  unfolding ancestor
  pointer-finds s w header p i h rd up at =
      let (e, low, high) = slot_range header.height i h (omega arith) at in
      elim (Bool-cases (nat_beq h (header.height - 1))) [
        | inl direct ↦
            let z : 2 ^ i - 1 ≡ 0 = omega (arith, (nat_beq_iff h (header.height - 1)).0 direct) in
            (header.previous, rw direct, rw z)
        | inr skip ↦
            let (a, run, anc) = get_ancestor-finds c s w header.previous p h rd (omega arith) in
            let z : p.block_height - h ≡ 2 ^ i - 1 = omega arith in (a, rw skip run, rw (← z) anc)
      ]

  skip_pointers_high :
      (s : Store Raw) (header : Header) (ids : List Bytes)
      → 1 < header.height
      → previous_ids c s header (get_previous_heights header.height) ≡ ok ids
      → skip_pointers c s header ≡ ok ids
  unfolding skip_pointers
  skip_pointers_high s header ids lt run = ground arith

  first_id-at : (ids : List Bytes) (a : Bytes) → get_elem? ids 0 ≡ some a → first_id ids ≡ a
  first_id-at [] a e = ground arith
  first_id-at (x ∷ xs) a e = some_inj x a e

  pointer-first :
      (s : Store Raw) (header : Header) (x : Bytes)
      → pointer s header (header.height - 2 ^ 0) ≡ ok x
      → x ≡ header.previous
  pointer-first s header x e = ground arith

  points_first :
      (s : Store Raw) (header : Header) (ids : List Bytes)
      → length ids ≡ suc (countr_zero header.height)
      → ((x : Bytes) → get_elem? ids 0 ≡ some x → pointer s header (header.height - 2 ^ 0) ≡ ok x)
      → get_elem? ids 0 ≡ some header.previous
  points_first s header [] e f = absurd (omega arith)
  points_first s header (x ∷ xs) e f = ap some (pointer-first s header x (f x refl))

  points :
      (s : Store Raw)
      → AllLinked c s
      → (header : Header) (p : BlockRecord) (ids : List Bytes)
      → read_record c s header.previous ≡ ok p
      → header.height ≡ suc p.block_height
      → length ids ≡ length (get_previous_heights header.height)
      → ((i h : ℕ) (a : Bytes)
          → get_elem? (get_previous_heights header.height) i ≡ some h
          → get_elem? ids i ≡ some a
          → pointer s header h ≡ ok a)
      → Points s header ids
  points s w header p ids rd up len at =
      let ps = get_previous_heights-Pointers header.height (omega arith) in
      let heights = get_previous_heights header.height in
      (
        len ∙ ps.count,
        first_id-at ids header.previous (
            points_first s header ids (len ∙ ps.count)
              (λ x q. at 0 (header.height - 2 ^ 0) x (ps.at 0 (omega arith)) q)),
        λ i a q.
            let (h, hq) = get_elem?_in heights i (omega (arith, get_elem?-lt ids i a q)) in
            let (b, r, anc) = pointer-finds s w header p i h rd up hq in
            subst (λ x. ancestor c s (2 ^ i - 1) header.previous ≡ ok x)
              (ok_inj b a (sym r ∙ at i h a hq q)) anc,
      )

  pub skip_pointers-Points :
      (s : Store Raw)
      → AllLinked c s
      → (header : Header) (p : BlockRecord) → read_record c s header.previous ≡ ok p
      → header.height ≡ suc p.block_height
      → 1 < header.height
      → (ids : List Bytes) × (skip_pointers c s header ≡ ok ids) × Points s header ids
  skip_pointers-Points s w header p rd up lt =
      let heights = get_previous_heights header.height in
      let (ids, run, len, at) =
        previous_ids-total s header heights
          (λ i h q. let (a, r, anc) = pointer-finds s w header p i h rd up q in (a, r)) in
      (ids, skip_pointers_high s header ids lt run, points s w header p ids rd up len at)
