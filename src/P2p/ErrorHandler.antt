-- ===== src/P2p/ErrorHandler.antt =====
-- p2p/error_handler.hpp: the error scores of peers, which decay with time. The factor of the decay is
-- computed in floating point: `decay` gives the score that is left after the seconds that passed.
-- Times are those of a steady clock, in seconds. The mutex is not modelled.
pub mod Blocked
mod Examples
use teleno.Base.{
  Bool, Bytes, bytes_key, if◌then◌else◌, leb, ltb, nat_key, none, pair_key, some, true, ℕ, ◌%◌, ◌+◌,
  ◌-◌, ◌^◌,
}
use teleno.StdMap
use teleno.StdMap.{Map}

pub record Options : Type 0 where
  pub error_score_disconnect_threshold : ℕ
  pub error_score_reconnect_threshold : ℕ

pub record ScoreRecord : Type 0 where
  pub score : ℕ
  pub last_update : ℕ

-- `_scores[ peer_addr ]`: the record, or a new one.
unfoldable pub record_of : Bytes → ℕ → Map Bytes ScoreRecord → ScoreRecord
record_of peer_addr now scores = elim (StdMap.lookup peer_addr scores) [
  | none ↦ record { score = 0; last_update = now }
  | some r ↦ r
]

module _ (opts : Options) (decay : ℕ → ℕ → ℕ) where
  unfoldable pub new_score : ScoreRecord → ℕ → ℕ → ℕ
  new_score r score now =
      ((if ltb 0 r.score then decay (now - r.last_update) r.score else r.score) + score) % 2 ^ 64

  unfoldable pub record_error : Bytes → ℕ → ℕ → Map Bytes ScoreRecord → Bool × Map Bytes ScoreRecord
  unfolding record_of new_score
  record_error peer_addr score now scores =
      let s = new_score (record_of peer_addr now scores) score now in
      (
        leb opts.error_score_disconnect_threshold s,
        StdMap.insert_or_assign peer_addr (record { score = s; last_update = now }) scores,
      )

  unfoldable pub can_connect : Bytes → Map Bytes ScoreRecord → Bool
  can_connect peer_addr scores = elim (StdMap.lookup peer_addr scores) [
    | none ↦ true
    | some r ↦ ltb r.score opts.error_score_reconnect_threshold
  ]

  unfoldable pub get_score : Bytes → Map Bytes ScoreRecord → ℕ
  get_score peer_addr scores = elim (StdMap.lookup peer_addr scores) [ none ↦ 0 | some r ↦ r.score ]
