-- ===== src/P2p/ForkWatchdog/Examples.antt =====
-- The watchdog after concrete blocks: the theorems' examples, and a test.
use teleno.Base.{[], bytes_key, false, length, ltb, nat_key, pair_key, refl, ℕ, ◌∷◌, ◌≡◌}
use teleno.P2p.ForkWatchdog.{Seen, check_block}
use teleno.P2p.ForkWatchdog.Flags.{seen, irreversible, run, check_block-never}
use teleno.P2p.ForkWatchdog.Counts.{Check, check_of, met, check-counts}
use teleno.P2p.ForkWatchdog.Counts

-- Forks of one parent, each with a signature of its own, which the id repeats.
abbrev fork : ℕ → Seen
fork n = record { id = n ∷ []; signature = n ∷ []; previous = 0 ∷ []; height = 1 }

check_block-never_example :
    (check_block
      (fork 4)
      (run (seen (fork 3) ∷ seen (fork 2) ∷ irreversible 0 ∷ seen (fork 1) ∷ []))).0
    ≡ false
check_block-never_example =
    check_block-never (λ s. s) (seen (fork 3) ∷ seen (fork 2) ∷ irreversible 0 ∷ seen (fork 1) ∷ [])
      (fork 4) (refl, (refl, (refl, tt))) refl

abbrev of_signer : ℕ → Check
of_signer n = record { id = n ∷ []; signer = 9 ∷ []; parent = 0 ∷ []; height = 1 }

met-test :
    met (9 ∷ [], 0 ∷ []) (of_signer 2 ∷ of_signer 1 ∷ of_signer 2 ∷ []) ≡ (1 ∷ []) ∷ (2 ∷ []) ∷ []
met-test = refl

check-counts_example :
    (check_of (of_signer 4) (Counts.run (of_signer 3 ∷ of_signer 2 ∷ of_signer 1 ∷ []))).0
    ≡ ltb 3
        (length (met (9 ∷ [], 0 ∷ []) (of_signer 4 ∷ of_signer 3 ∷ of_signer 2 ∷ of_signer 1 ∷ [])))
check-counts_example = check-counts (of_signer 3 ∷ of_signer 2 ∷ of_signer 1 ∷ []) (of_signer 4)
