-- ===== src/P2p/ErrorHandler/Examples.antt =====
-- Concrete errors of peers: the theorem's example.
use teleno.Base.{[], arith, bytes_key, false, nat_key, pair_key, refl, true, ℕ, ◌/◌, ◌^◌, ◌∷◌, ◌≡◌}
use teleno.StdMap
use teleno.P2p.ErrorHandler.{Options, record_error, can_connect}
use teleno.P2p.ErrorHandler.Blocked.{run, can_connect-never}

-- The default thresholds, and a score that is halved every 1800 seconds.
abbrev options : Options
options = record {
  error_score_disconnect_threshold = 100000;
  error_score_reconnect_threshold = 50000;
}

abbrev halved : ℕ → ℕ → ℕ
halved elapsed score = score / 2 ^ (elapsed / 1800)

disconnects : (record_error options halved (1 ∷ []) 100000 0 []).0 ≡ true
unfolding record_error StdMap.lookup
disconnects = refl

-- A day after the error, another peer makes one.
can_connect-never_example :
    can_connect options halved (1 ∷ []) (
      run options halved
        (record { peer_addr = 2 ∷ []; score = 5; now = 86400 } ∷ [])
        (record_error options halved (1 ∷ []) 100000 0 []).1)
    ≡ false
can_connect-never_example =
    can_connect-never options halved (1 ∷ []) 100000 0 []
      (record { peer_addr = 2 ∷ []; score = 5; now = 86400 } ∷ []) (omega arith) disconnects
      (refl, tt)
