-- ===== src/BlockStore/Store/Ancestors.antt =====
-- The traversal to an ancestor ends, on every store.
use teleno.Base.{
  Bytes, Option, Option-cases, Result, arith, bytes_key, err, false, inl, inr, nat_key, none, ok,
  refl, some, suc, zero, ℕ, ◌<◌, ◌≡◌, ◌≢◌, ◌⊎◌,
}
use teleno.BlockStore.SkipList.{get_previous_height_index}
use teleno.BlockStore.SkipList.Bounds.{skip_range}
use teleno.BlockStore.Store.{
  Codec, Store, BlockRecord, Error, out_of_fuel, read_record, height_mismatch, Hop, found, follow,
  hop, walk, walk_fuel, get_ancestor_id_at_height,
}

module _ {Raw : Type 0} (c : Codec Raw) (s : Store Raw) where
  abbrev HopCases : Bytes → Option ℕ → ℕ → Type 0
  HopCases id e t =
      ((x : Error) × (hop c s id e t ≡ err x))
      ⊎ ((a : Bytes) × (hop c s id e t ≡ ok (found a)))
      ⊎ ((r : BlockRecord) × (n : Bytes) × (h : ℕ) × (read_record c s id ≡ ok r)
          × (hop c s id e t ≡ ok (follow n h)))

  reads-follow :
      (id n : Bytes) (e : Option ℕ) (t h : ℕ) (x : Result Error BlockRecord)
      → read_record c s id ≡ x
      → hop c s id e t ≡ ok (follow n h)
      → (r : BlockRecord) × (read_record c s id ≡ ok r)
  unfolding hop
  reads-follow id n e t h (ok r) rd q = (r, rd)
  reads-follow id n e t h (err x) rd q = absurd (ground arith)

  HopCases-at :
      (id : Bytes) (e : Option ℕ) (t : ℕ) (x : Result Error Hop)
      → hop c s id e t ≡ x
      → HopCases id e t
  HopCases-at id e t (err x) q = inl (x, q)
  HopCases-at id e t (ok (found a)) q = inr (inl (a, q))
  HopCases-at id e t (ok (follow n h)) q =
      let (r, rd) = reads-follow id n e t h (read_record c s id) refl q in
      inr (inr (r, n, h, rd, q))

  hop_cases : (id : Bytes) (e : Option ℕ) (t : ℕ) → HopCases id e t
  hop_cases id e t = HopCases-at id e t (hop c s id e t) refl

  read_record-fuel : (id : Bytes) → read_record c s id ≢ err out_of_fuel
  unfolding read_record
  read_record-fuel id = ground arith

  -- A hop that goes on goes to a lower height.
  hop-falls :
      (id next : Bytes) (e : Option ℕ) (t h : ℕ) (r : BlockRecord)
      → read_record c s id ≡ ok r
      → hop c s id e t ≡ ok (follow next h)
      → (h < r.block_height) × (height_mismatch e r.block_height ≡ false)
  unfolding hop
  hop-falls id next e t h r rd hp =
      elim (Option-cases (get_previous_height_index t r.block_height)) [
        | inl q ↦ ground arith
        | inr (k, q) ↦ ground (arith, skip_range t r.block_height k q)
      ]

  hop-fuel : (id : Bytes) (e : Option ℕ) (t : ℕ) → hop c s id e t ≢ err out_of_fuel
  unfolding hop
  hop-fuel id e t = ground (arith, read_record-fuel id)

  walk-fuel :
      (fuel : ℕ) (id : Bytes) (h t : ℕ) → h < fuel → walk c fuel s id (some h) t ≢ err out_of_fuel
  unfolding walk
  walk-fuel zero id h t lt = elim lt [ ]
  walk-fuel (suc fuel) id h t lt = elim (hop_cases id (some h) t) [
    | inl (e, q) ↦ ground (arith, hop-fuel id (some h) t)
    | inr (inl (a, q)) ↦ ground arith
    | inr (inr (r, n, h', rd, q)) ↦
        ground (arith, hop-falls id n (some h) t h' r rd q, walk-fuel fuel n h' t)
  ]

  -- On every store, whatever its records hold, the traversal ends: its fuel never runs out.
  pub get_ancestor-ends :
      (id : Bytes) (t : ℕ) → get_ancestor_id_at_height c s id t ≢ err out_of_fuel
  unfolding get_ancestor_id_at_height walk_fuel walk
  get_ancestor-ends id t = elim (hop_cases id none t) [
    | inl (e, q) ↦ ground (arith, hop-fuel id none t)
    | inr (inl (a, q)) ↦ ground arith
    | inr (inr (r, n, h', rd, q)) ↦
        ground (arith, hop-falls id n none t h' r rd q, walk-fuel (suc r.block_height) n h' t)
  ]
