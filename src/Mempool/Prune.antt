-- ===== src/Mempool/Prune.antt =====
-- The loop of `prune` on one node takes out what has expired.
use teleno.Base.{Bytes, [], bytes_key, length, nat_key, pair_key, ℕ, ◌++◌, ◌+◌, ◌<◌, ◌∷◌, ◌≡◌, ◌≤◌}
use teleno.StdMap.{Map}
use teleno.Mempool.{Pending, Pool}
use teleno.Mempool.Valid.{IsValid}

-- A transaction of the pool is kept by `prune` until its time and the expiration are reached.
abbrev pub IsFresh : ℕ → ℕ → Map ℕ Pending → Type 0
IsFresh expiration now [] = Unit
IsFresh expiration now ((seq, r) ∷ m) = now < r.timestamp + expiration

-- Every one of these transactions has reached its expiration.
abbrev pub AllExpired : ℕ → ℕ → Map ℕ Pending → Type 0
AllExpired expiration now [] = Unit
AllExpired expiration now ((seq, r) ∷ m) =
    (r.timestamp + expiration ≤ now) × AllExpired expiration now m

module _ (nonce_bytes : ℕ → Bytes) where
  -- What a run of `prune` that takes `count` transactions out makes of a pool with these pending ones.
  pub record Pruned (expiration now count : ℕ) (m : Map ℕ Pending) (p : Pool) : Type 0 where
    pub taken : Map ℕ Pending
    pub split : m ≡ taken ++ p.pending
    pub expired : AllExpired expiration now taken
    pub counted : count ≡ length taken
    pub fresh : IsFresh expiration now p.pending
    pub valid : IsValid nonce_bytes p
