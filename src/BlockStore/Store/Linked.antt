-- ===== src/BlockStore/Store/Linked.antt =====
-- The invariant of the store: each record points to its ancestors. On a store that keeps it the
-- traversal returns the ancestor that one would reach from parent to parent.
use teleno.Base.{
  Bool-cases, Bytes, Option, Result, Result-cases, arith, bytes_key, false, get_elem?, get_elem?_in,
  if◌then◌else◌, inl, inr, length, nat_beq, nat_key, none, ok, pos, refl, some, subst, suc, sym,
  true, zero, ℕ, ◌+◌, ◌-◌, ◌<◌, ◌>>=◌, ◌^◌, ◌≡◌, ◌≤◌,
}
use teleno.BlockStore.SkipList.{get_previous_height_index, SkipIndex, countr_zero}
use teleno.BlockStore.SkipList.Bounds.{
  Jump, get_previous_height_index-Jump, Jump-within, skip_range,
}
use teleno.BlockStore.Store.{
  Codec, Store, BlockRecord, Error, read_record, height_mismatch, found, follow, hop, walk,
  walk_fuel, get_ancestor_id_at_height, first_id,
}

module _ {Raw : Type 0} (c : Codec Raw) where
  -- The id that stands `n` parents above a block.
  unfoldable pub ancestor : Store Raw → ℕ → Bytes → Result Error Bytes
  ancestor s zero id = ok id
  ancestor s (suc n) id = do r ← read_record c s id; ancestor s n (first_id r.previous_block_ids)

  -- What a record has to say of its ancestors.
  pub record IsLinked (s : Store Raw) (id : Bytes) (r : BlockRecord) : Type 0 where
    pub named : r.block_id ≡ id
    pub pointers :
        length r.previous_block_ids
        ≡ (if nat_beq r.block_height 0 then 0 else suc (countr_zero r.block_height))
    pub skips :
        (i : ℕ) (a : Bytes)
        → get_elem? r.previous_block_ids i ≡ some a
        → ancestor s (2 ^ i) id ≡ ok a
    pub parent :
        1 < r.block_height
        → (p : BlockRecord) × (read_record c s (first_id r.previous_block_ids) ≡ ok p)
          × (r.block_height ≡ suc p.block_height)

  abbrev pub AllLinked : Store Raw → Type 0
  AllLinked s = (id : Bytes) (r : BlockRecord) → read_record c s id ≡ ok r → IsLinked s id r

module _ {Raw : Type 0} (c : Codec Raw) (s : Store Raw) where
  ancestor-ancestor :
      (n m : ℕ) (id a : Bytes)
      → ancestor c s n id ≡ ok a
      → ancestor c s (n + m) id ≡ ancestor c s m a
  unfolding ancestor
  ancestor-ancestor zero m id a e = let q : 0 + m ≡ m = omega arith in rw q (cc)
  ancestor-ancestor (suc n) m id a e =
      let q : suc n + m ≡ suc (n + m) = omega arith in
      elim (Result-cases (read_record c s id)) [
        | inl (r, rd) ↦
            rw q (ground (arith, ancestor-ancestor n m (first_id r.previous_block_ids) a))
        | inr (x, rd) ↦ ground arith
      ]

  -- A block below the first has its parents stored, each one lower.
  ancestor-height :
      AllLinked c s
      → (n : ℕ) (id a : Bytes) (r : BlockRecord) → read_record c s id ≡ ok r
      → n < r.block_height
      → ancestor c s n id ≡ ok a
      → (p : BlockRecord) × (read_record c s a ≡ ok p) × (r.block_height ≡ n + p.block_height)
  unfolding ancestor
  ancestor-height w zero id a r rd lt e = (r, ground arith, omega arith)
  ancestor-height w (suc n) id a r rd lt e =
      let (p, rp, up) = (w id r rd).parent (omega arith) in
      let (q, rq, down) =
        ancestor-height w n (first_id r.previous_block_ids) a p rp (omega arith) (ground arith) in
      (q, rq, omega arith)

  hop-eval :
      (id a : Bytes) (r : BlockRecord) (e : Option ℕ) (t i : ℕ) (k : SkipIndex)
      → read_record c s id ≡ ok r
      → t < r.block_height
      → height_mismatch e r.block_height ≡ false
      → get_previous_height_index t r.block_height ≡ some k
      → k.index ≡ pos i
      → get_elem? r.previous_block_ids i ≡ some a
      → hop c s id e t ≡ ok (if nat_beq k.height t then found a else follow a k.height)
  unfolding hop
  hop-eval id a r e t i k rd lt ex q x at = ground arith

  -- The slot of a jump is one of the pointers of a linked record.
  slot-listed :
      (r : BlockRecord) (id : Bytes) (t : ℕ) (k : SkipIndex)
      → IsLinked c s id r
      → t < r.block_height
      → (j : Jump t r.block_height k) → j.slot < length r.previous_block_ids
  slot-listed r id t k l lt j = ground (arith, l.pointers, j.listed)

  -- One hop on a linked store: to an ancestor at or above the target.
  hop-finds :
      AllLinked c s
      → (id : Bytes) (r : BlockRecord) (e : Option ℕ) (t : ℕ) → read_record c s id ≡ ok r
      → t < r.block_height
      → height_mismatch e r.block_height ≡ false
      → (n h : ℕ) × (a : Bytes) × (hop c s id e t
          ≡ ok (if nat_beq h t then found a else follow a h))
        × (ancestor c s n id ≡ ok a)
        × (n + h ≡ r.block_height)
        × (t ≤ h)
        × (h < r.block_height)
  hop-finds w id r e t rd lt ex =
      let (k, q, j) = get_previous_height_index-Jump t r.block_height lt in
      let (a, at) =
        get_elem?_in r.previous_block_ids j.slot (slot-listed r id t k (w id r rd) lt j) in
      (
        2 ^ j.slot,
        k.height,
        a,
        hop-eval id a r e t j.slot k rd lt ex q j.index at,
        (w id r rd).skips j.slot a at,
        omega (arith, j.target, Jump-within t r.block_height k j (omega arith)),
        j.reach,
        (skip_range t r.block_height k q).0,
      )

  expected-height :
      (p : BlockRecord) (h : ℕ)
      → p.block_height ≡ h
      → height_mismatch (some h) p.block_height ≡ false
  expected-height p h e = ground arith

  abbrev Finds : ℕ → Bytes → Option ℕ → ℕ → ℕ → Type 0
  Finds fuel id e t height =
      (a : Bytes) × (walk c fuel s id e t ≡ ok a) × (ancestor c s (height - t) id ≡ ok a)

  Finds-here :
      (fuel t : ℕ) (id : Bytes) (r : BlockRecord) (e : Option ℕ)
      → read_record c s id ≡ ok r
      → r.block_id ≡ id
      → height_mismatch e r.block_height ≡ false
      → nat_beq r.block_height t ≡ true
      → Finds (suc fuel) id e t r.block_height
  unfolding walk ancestor
  Finds-here fuel t id r e rd named ex here =
      let z : r.block_height - t ≡ 0 = ground arith in (id, ground arith, rw z)

  Finds-there :
      (fuel t n h height : ℕ) (id a : Bytes) (e : Option ℕ)
      → hop c s id e t ≡ ok (if nat_beq h t then found a else follow a h)
      → ancestor c s n id ≡ ok a
      → n + h ≡ height
      → nat_beq h t ≡ true
      → Finds (suc fuel) id e t height
  unfolding walk
  Finds-there fuel t n h height id a e q up sum there =
      let z : height - t ≡ n = ground arith in (a, ground arith, rw z up)

  Finds-further :
      (fuel t n h height : ℕ) (id a : Bytes) (e : Option ℕ)
      → hop c s id e t ≡ ok (if nat_beq h t then found a else follow a h)
      → ancestor c s n id ≡ ok a
      → n + h ≡ height
      → t ≤ h
      → nat_beq h t ≡ false
      → Finds fuel a (some h) t h
      → Finds (suc fuel) id e t height
  unfolding walk
  Finds-further fuel t n h height id a e q up sum low further (b, run, anc) =
      let z : height - t ≡ n + (h - t) = omega arith in
      (b, ground arith, rw (z, ancestor-ancestor n (h - t) id a up) anc)

  -- The traversal from a block returns the ancestor at the target height.
  walk-Finds :
      AllLinked c s
      → (fuel : ℕ) (id : Bytes) (r : BlockRecord) (e : Option ℕ) (t : ℕ) → read_record c s id ≡ ok r
      → t ≤ r.block_height
      → height_mismatch e r.block_height ≡ false
      → r.block_height < fuel
      → Finds fuel id e t r.block_height
  walk-Finds w zero id r e t rd le ex lt = elim lt [ ]
  walk-Finds w (suc fuel) id r e t rd le ex lt = elim (Bool-cases (nat_beq r.block_height t)) [
    | inl here ↦ Finds-here fuel t id r e rd (w id r rd).named ex here
    | inr on ↦
        let (n, h, a, q, up, sum, low, high) = hop-finds w id r e t rd (ground arith) ex in
        elim (Bool-cases (nat_beq h t)) [
          | inl there ↦ Finds-there fuel t n h r.block_height id a e q up sum there
          | inr further ↦
              let (p, rp, hp) = ancestor-height w n id a r rd (ground arith) up in
              let same : p.block_height ≡ h = omega arith in
              Finds-further fuel t n h r.block_height id a e q up sum low further (
                subst (λ x. Finds fuel a (some h) t x) same
                  (walk-Finds w fuel a p (some h) t rp (omega arith) (expected-height p h same)
                    (omega arith)))
        ]
  ]

  walk_fuel_lem :
      (id : Bytes) (r : BlockRecord)
      → read_record c s id ≡ ok r
      → walk_fuel c s id ≡ suc (suc r.block_height)
  unfolding walk_fuel
  walk_fuel_lem id r rd = ground arith

  -- On a linked store the traversal from a stored block, to any height that is not above it,
  -- returns the id that is reached by going from parent to parent.
  pub get_ancestor-finds :
      AllLinked c s
      → (id : Bytes) (r : BlockRecord) (t : ℕ) → read_record c s id ≡ ok r
      → t ≤ r.block_height
      → (a : Bytes) × (get_ancestor_id_at_height c s id t ≡ ok a)
        × (ancestor c s (r.block_height - t) id ≡ ok a)
  unfolding get_ancestor_id_at_height walk_fuel
  get_ancestor-finds w id r t rd le =
      subst (λ f. Finds f id none t r.block_height) (sym (walk_fuel_lem id r rd))
        (walk-Finds w (suc (suc r.block_height)) id r none t rd le refl (omega arith))
