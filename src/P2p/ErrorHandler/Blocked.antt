-- ===== src/P2p/ErrorHandler/Blocked.antt =====
-- A peer that was disconnected for its errors stays blocked.
use teleno.Base.{
  Bytes, List, [], arith, beq_refl, bytes_key, false, leb, nat_key, pair_key, refl, some, true, ℕ,
  ◌==◌, ◌∙◌, ◌∷◌, ◌≡◌, ◌≤◌,
}
use teleno.StdMap
use teleno.StdMap.{Map, lookup-insert}
use teleno.P2p.ErrorHandler.{Options, ScoreRecord, record_of, new_score, record_error, can_connect}

-- An error of a peer, with its score and the time at which it is recorded.
pub record Event : Type 0 where
  pub peer_addr : Bytes
  pub score : ℕ
  pub now : ℕ

module _ (opts : Options) (decay : ℕ → ℕ → ℕ) where
  -- The scores after these events, the newest first.
  abbrev pub run : List Event → Map Bytes ScoreRecord → Map Bytes ScoreRecord
  run [] scores = scores
  run (e ∷ es) scores = (record_error opts decay e.peer_addr e.score e.now (run es scores)).1

  -- None of the events is of this peer.
  abbrev pub AllOthers : Bytes → List Event → Type 0
  AllOthers a [] = Unit
  AllOthers a (e ∷ es) = ((e.peer_addr == a) ≡ false) × AllOthers a es

  lookup-run :
      (a : Bytes) (es : List Event) (scores : Map Bytes ScoreRecord)
      → AllOthers a es
      → StdMap.lookup a (run es scores) ≡ StdMap.lookup a scores
  unfolding record_error
  lookup-run a [] scores h = refl
  lookup-run a (e ∷ es) scores h =
      lookup-insert e.peer_addr a _ (run es scores) ∙ rw (h.0) (lookup-run a es scores h.1)

  lookup-record_error :
      (a : Bytes) (score now : ℕ) (scores : Map Bytes ScoreRecord)
      → StdMap.lookup a (record_error opts decay a score now scores).1
        ≡ some (record {
          score = new_score opts decay (record_of a now scores) score now;
          last_update = now;
        })
  unfolding record_error
  lookup-record_error a score now scores = lookup-insert a a _ scores ∙ rw (beq_refl a) refl

  refused :
      (a : Bytes) (r : ScoreRecord) (scores : Map Bytes ScoreRecord)
      → StdMap.lookup a scores ≡ some r
      → leb opts.error_score_disconnect_threshold r.score ≡ true
      → opts.error_score_reconnect_threshold ≤ opts.error_score_disconnect_threshold
      → can_connect opts decay a scores ≡ false
  unfolding can_connect
  refused a r scores e h le = ground (arith, e, h, le)

  -- If the threshold for reconnecting is not above the one for disconnecting, a peer whose error
  -- disconnects it cannot connect after any errors of other peers, however much time they take.
  pub can_connect-never :
      (a : Bytes) (score now : ℕ) (scores : Map Bytes ScoreRecord) (es : List Event)
      → opts.error_score_reconnect_threshold ≤ opts.error_score_disconnect_threshold
      → (record_error opts decay a score now scores).0 ≡ true
      → AllOthers a es
      → can_connect opts decay a (run es (record_error opts decay a score now scores).1) ≡ false
  unfolding record_error
  can_connect-never a score now scores es le h others =
      let s' = (record_error opts decay a score now scores).1 in
      refused a _ (run es s') (lookup-run a es s' others ∙ lookup-record_error a score now scores) h
        le
