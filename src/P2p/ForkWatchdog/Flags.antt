-- ===== src/P2p/ForkWatchdog/Flags.antt =====
-- Which blocks the watchdog flags.
use teleno.Base.{
  Bool-cases, Bytes, List, Option-cases, [], ap, arith, beq_refl, bytes_key, false, inl, inr, leb,
  length, ltb, nat_key, pair_key, refl, some, sym, ℕ, ◌∙◌, ◌∷◌, ◌≡◌,
}
use teleno.StdMap
use teleno.StdMap.{Map, lookup-insert, lookup-insert_inv, lookup-erase_inv}
use teleno.P2p.ForkWatchdog.{
  ForkKey, Watchdog, new_watchdog, or_empty, blocks_of, erase_keys, purge, purge_below, Seen,
  check_block, on_block_irreversible, max_forks_per_parent,
}

pub data Event : Type 0 where
  seen : Seen → Event
  irreversible : ℕ → Event

-- The watchdog after these events, the newest first.
abbrev pub run : List Event → Watchdog
run [] = new_watchdog
run (seen b ∷ es) = (check_block b (run es)).1
run (irreversible height ∷ es) = on_block_irreversible height (run es)

-- Every block of these has its own signature: the id is a function of it.
abbrev pub AllOwn : (Bytes → Bytes) → List Event → Type 0
AllOwn owner [] = Unit
AllOwn owner (seen b ∷ es) = (b.id ≡ owner b.signature) × AllOwn owner es
AllOwn owner (irreversible height ∷ es) = AllOwn owner es

abbrev single : Bytes → Map Bytes (Unit {0})
single i = (i, tt) ∷ []

module _ (owner : Bytes → Bytes) where
  abbrev Single : Map ForkKey (Map Bytes (Unit {0})) → Type 0
  Single forks =
      (key : ForkKey) (s : Map Bytes (Unit {0}))
      → StdMap.lookup key forks ≡ some s
      → s ≡ single (owner key.0)

  erase_keys-Single :
      (keys : Map ForkKey (Unit {0})) (forks : Map ForkKey (Map Bytes (Unit {0})))
      → Single forks
      → Single (erase_keys keys forks)
  unfolding erase_keys
  erase_keys-Single [] forks h = h
  erase_keys-Single ((k, _) ∷ keys) forks h =
      erase_keys-Single keys (StdMap.erase k forks)
        (λ key s found. h key s (lookup-erase_inv k key s forks found).1)

  purge-Single :
      (height : ℕ) (index : Map ℕ (Map ForkKey (Unit {0})))
      (forks : Map ForkKey (Map Bytes (Unit {0})))
      → Single forks
      → Single (purge height index forks).forks
  unfolding purge
  purge-Single height [] forks h = h
  purge-Single height ((i, keys) ∷ index) forks h = elim (Bool-cases (leb i height)) [
    | inl old ↦
        rw old (purge-Single height index (erase_keys keys forks) (erase_keys-Single keys forks h))
    | inr new ↦ rw new h
  ]

  insert-same : (i : Bytes) → StdMap.insert_or_assign i tt (single i) ≡ single i
  unfolding StdMap.insert_or_assign
  insert-same i = rw (beq_refl i) refl

  blocks-Single :
      (id parent : Bytes) (w : Watchdog) (sig : Bytes)
      → Single w.forks
      → id ≡ owner sig
      → StdMap.insert_or_assign id tt (blocks_of (sig, parent) w) ≡ single (owner sig)
  unfolding blocks_of or_empty StdMap.insert_or_assign
  blocks-Single id parent w sig h e = elim (Option-cases (StdMap.lookup (sig, parent) w.forks)) [
    | inl fresh ↦ ap (λ o. StdMap.insert_or_assign id tt (or_empty o)) fresh ∙ ap single e
    | inr (s, old) ↦
        ap (λ o. StdMap.insert_or_assign id tt (or_empty o)) (old ∙ ap some (h (sig, parent) s old))
        ∙ ap (λ i. StdMap.insert_or_assign i tt (single (owner sig))) e
        ∙ insert-same (owner sig)
  ]

  check-Single :
      (b : Seen) (w : Watchdog)
      → Single w.forks
      → b.id ≡ owner b.signature
      → Single (check_block b w).1.forks
  unfolding check_block
  check-Single b w h e key s found =
      elim (lookup-insert_inv (b.signature, b.previous) key _ s w.forks found) [
        | inl (same, stored) ↦
            sym stored
            ∙ blocks-Single b.id b.previous w b.signature h e
            ∙ ap (λ (k : ForkKey). single (owner k.0)) same
        | inr (_, old) ↦ h key s old
      ]

  run-Single : (es : List Event) → AllOwn owner es → Single (run es).forks
  unfolding on_block_irreversible purge_below StdMap.lookup
  run-Single [] h = λ key s found. absurd (ground (arith, found))
  run-Single (seen b ∷ es) h = check-Single b (run es) (run-Single es h.1) h.0
  run-Single (irreversible height ∷ es) h =
      purge-Single height (run es).height_index (run es).forks (run-Single es h)

  -- If no two blocks have one signature, the node flags no block after any checks and purges, however
  -- many forks a signer makes from one parent.
  pub check_block-never :
      (es : List Event) (b : Seen)
      → AllOwn owner es
      → b.id ≡ owner b.signature
      → (check_block b (run es)).0 ≡ false
  unfolding check_block
  check_block-never es b h e =
      ap (λ (s : Map Bytes (Unit {0})). ltb max_forks_per_parent (length s))
        (blocks-Single b.id b.previous (run es) b.signature (run-Single es h) e)
