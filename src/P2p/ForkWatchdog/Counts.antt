-- ===== src/P2p/ForkWatchdog/Counts.antt =====
-- The watchdog counts the blocks of a signer under a parent.
use teleno.Base.{
  Bool, Bool-cases, Bytes, List, Option-cases, [], ap, arith, bytes_beq_iff, bytes_key, false,
  if◌then◌else◌, inl, inr, is_some, length, ltb, nat_key, not, pair_beq, pair_beq_iff, pair_key,
  refl, subst, sym, true, ℕ, ◌&&◌, ◌==◌, ◌||◌, ◌∙◌, ◌∷◌, ◌≡◌,
}
use teleno.StdMap
use teleno.StdMap.{
  Map, IsSorted, IsSorted-insert, lookup-insert, length-insert_new, length-insert_old,
}
use teleno.P2p.ForkWatchdog.{ForkKey, Watchdog, new_watchdog, or_empty, blocks_of, check}

pub record Check : Type 0 where
  pub id : Bytes
  pub signer : Bytes
  pub parent : Bytes
  pub height : ℕ

abbrev pub check_of : Check → Watchdog → Bool × Watchdog
check_of c w = check c.id c.signer c.parent c.height w

-- The watchdog after these checks, the newest first.
abbrev pub run : List Check → Watchdog
run [] = new_watchdog
run (c ∷ cs) = (check_of c (run cs)).1

abbrev pub listed : Bytes → List Bytes → Bool
listed i [] = false
listed i (j ∷ js) = j == i || listed i js

-- The ids of the blocks that were checked for a pair, each once.
abbrev pub met : ForkKey → List Check → List Bytes
met key [] = []
met key (c ∷ cs) =
    let rest = met key cs in
    if pair_beq (c.signer, c.parent) key && not (listed c.id rest) then c.id ∷ rest else rest

-- A set of ids with the members of a list of distinct ids.
record Same (s : Map Bytes (Unit {0})) (ids : List Bytes) : Type 0 where
  pub sorted : IsSorted s
  pub members : (i : Bytes) → is_some (StdMap.lookup i s) ≡ listed i ids
  pub size : length s ≡ length ids

insert-Same :
    (i : Bytes) (s : Map Bytes (Unit {0})) (ids : List Bytes)
    → Same s ids
    → Same (StdMap.insert_or_assign i tt s) (if not (listed i ids) then i ∷ ids else ids)
insert-Same i s ids h = elim (Option-cases (StdMap.lookup i s)) [
  | inl fresh ↦
      let new : listed i ids ≡ false = sym (h.members i) ∙ ap is_some fresh in
      rw new (record {
        sorted = IsSorted-insert i tt s h.sorted;
        members = λ j. ground (arith, lookup-insert i j tt s, h.members j);
        size = omega (arith, length-insert_new i tt s fresh, h.size);
      })
  | inr (u, old) ↦
      let there : listed i ids ≡ true = sym (h.members i) ∙ ap is_some old in
      rw there (record {
        sorted = IsSorted-insert i tt s h.sorted;
        members = λ j.
            ground
              (arith, lookup-insert i j tt s, h.members j, h.members i, old, bytes_beq_iff i j);
        size = length-insert_old i tt u s h.sorted old ∙ h.size;
      })
]

blocks_of-check :
    (c : Check) (w : Watchdog) (key : ForkKey)
    → blocks_of key (check_of c w).1 ≡ (
        if pair_beq (c.signer, c.parent) key
        then StdMap.insert_or_assign c.id tt (blocks_of (c.signer, c.parent) w)
        else blocks_of key w)
unfolding check blocks_of or_empty
blocks_of-check c w key = elim (Bool-cases (pair_beq (c.signer, c.parent) key)) [
  | inl same ↦ ap or_empty (lookup-insert (c.signer, c.parent) key _ w.forks) ∙ rw same refl
  | inr other ↦ ap or_empty (lookup-insert (c.signer, c.parent) key _ w.forks) ∙ rw other refl
]

empty-Same : (key : ForkKey) → Same (blocks_of key new_watchdog) []
unfolding blocks_of or_empty StdMap.lookup
empty-Same key = record { sorted = tt; members = λ i. refl; size = refl }

run-Same : (cs : List Check) (key : ForkKey) → Same (blocks_of key (run cs)) (met key cs)
run-Same [] key = empty-Same key
run-Same (c ∷ cs) key = elim (Bool-cases (pair_beq (c.signer, c.parent) key)) [
  | inl same ↦
      let e = (pair_beq_iff (c.signer, c.parent) key).0 same in
      let old = subst (λ q. Same (blocks_of q (run cs)) (met key cs)) (sym e) (run-Same cs key) in
      let blocks : blocks_of key (run (c ∷ cs))
          ≡ StdMap.insert_or_assign c.id tt (blocks_of (c.signer, c.parent) (run cs)) =
        blocks_of-check c (run cs) key ∙ rw same refl in
      rw (blocks, met, same)
        (insert-Same c.id (blocks_of (c.signer, c.parent) (run cs)) (met key cs) old)
  | inr other ↦
      let blocks : blocks_of key (run (c ∷ cs)) ≡ blocks_of key (run cs) =
        blocks_of-check c (run cs) key ∙ rw other refl in
      rw (blocks, met, other) (run-Same cs key)
]

-- After any checks, and no purge, a check flags its block just when the blocks that were checked for
-- its signer and its parent, this one among them, have more than three different ids.
pub check-counts :
    (cs : List Check) (c : Check)
    → (check_of c (run cs)).0 ≡ ltb 3 (length (met (c.signer, c.parent) (c ∷ cs)))
unfolding check
check-counts cs c =
    let key : ForkKey = (c.signer, c.parent) in
    let after = blocks_of-check c (run cs) key ∙ rw ((pair_beq_iff key key).1 refl) refl in
    ap (λ n. ltb 3 n)
      (sym (ap (λ (s : Map Bytes (Unit {0})). length s) after) ∙ (run-Same (c ∷ cs) key).size)
