-- ===== src/StateDb/Database/Discard/Ends.antt =====
-- The loop of `discard_node` ends.
use teleno.Base.{
  Bool-cases, Bytes, List, Option, [], arith, bytes_beq_iff, bytes_key, false, inl, inr, length,
  length-append, nat_key, none, refl, some, subst, suc, sym, true, zero, ℕ, ◌++◌, ◌+◌, ◌<◌, ◌==◌,
  ◌∷◌, ◌≡◌,
}
use teleno.StdMap.{Map, IsSorted, lookup, erase}
use teleno.StateDb.Database.{Node, cannot_discard, Error}
use teleno.StateDb.Database.Discard.{children, discard_rounds}
use teleno.StateDb.Database.Discard.Queue.{unseen, unseen-next, unseen-none}
use teleno.StateDb.Database.Discard.Rounds.{Below, Layered, Looked, next-Looked, initial}

round_none :
    (fuel : ℕ) (head : Bytes) (whitelist : List Bytes) (index : Map Bytes Node) (done : List Bytes)
    (forks : Map Bytes Bytes)
    → discard_rounds (suc fuel) head whitelist index [] done forks ≡ ((done, forks), none)
unfolding discard_rounds
round_none fuel head whitelist index done forks = refl

module _ (fuel : ℕ) (head id : Bytes) (whitelist : List Bytes) (index : Map Bytes Node)
    (queue done : List Bytes) (forks : Map Bytes Bytes) where
  round_head :
      (id == head) ≡ true
      → discard_rounds (suc fuel) head whitelist index (id ∷ queue) done forks
        ≡ ((done, forks), some cannot_discard)
  unfolding discard_rounds
  round_head e = ground (arith, e)

  round_next :
      (id == head) ≡ false
      → discard_rounds (suc fuel) head whitelist index (id ∷ queue) done forks
        ≡ discard_rounds fuel head whitelist index
            (queue ++ children id whitelist index)
            (id ∷ done)
            (erase id forks)
  unfolding discard_rounds
  round_next e = ground (arith, e)

module _ (start head : Bytes) (top : Node) (whitelist : List Bytes) (index : Map Bytes Node)
    (sorted : IsSorted index) (layered : Layered index)
    (at_start : lookup start index ≡ some top) where
  -- The loop ends: with all nodes that are to go, or at the head.
  abbrev pub Ended : (List Bytes × Map Bytes Bytes) × Option Error → Type 0
  Ended ((done, forks), none) = Looked start head top whitelist index [] done
  Ended ((done, forks), some e) = (e ≡ cannot_discard) × Below start whitelist index head

  rounds-Ended :
      (fuel : ℕ) (queue done : List Bytes) (forks : Map Bytes Bytes)
      → Looked start head top whitelist index queue done
      → length queue + unseen done index < fuel
      → Ended (discard_rounds fuel head whitelist index queue done forks)
  rounds-Ended zero queue done forks w lt = absurd (omega arith)
  rounds-Ended (suc fuel) [] done forks w lt =
      subst Ended (sym (round_none fuel head whitelist index done forks)) w
  rounds-Ended (suc fuel) (id ∷ queue) done forks w lt = elim (Bool-cases (id == head)) [
    | inl same ↦ subst Ended (sym (round_head fuel head id whitelist index queue done forks same)) (
      refl,
      subst (λ k. Below start whitelist index k) ((bytes_beq_iff id head).0 same)
          (w.below id (ground (arith, bytes_beq_iff id id))),
    )
    | inr other ↦
        subst Ended (sym (round_next fuel head id whitelist index queue done forks other)) (
          rounds-Ended fuel (queue ++ children id whitelist index) (id ∷ done) (erase id forks)
            (next-Looked start head top whitelist index sorted layered at_start id queue done w
              other)
            (omega (
              arith,
              lt,
              length-append queue (children id whitelist index),
              unseen-next id whitelist done index
                  (w.apart id (ground (arith, bytes_beq_iff id id))),
            )))
  ]

  pub discard_rounds-Ended :
      (forks : Map Bytes Bytes)
      → Ended (discard_rounds (suc (suc (length index))) head whitelist index (start ∷ []) [] forks)
  discard_rounds-Ended forks =
      rounds-Ended (suc (suc (length index))) (start ∷ []) [] forks
        (initial start head top whitelist index sorted layered at_start)
        (omega (arith, unseen-none index))
