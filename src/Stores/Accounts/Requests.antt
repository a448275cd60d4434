-- ===== src/Stores/Accounts/Requests.antt =====
-- The answers to requests after a history of accepted blocks.
use teleno.Base.{
  Bytes, List, [], arith, bytes_key, false, length, nat_beq, nat_key, pair_key, refl, some, take,
  true, ℕ, ◌<◌, ◌^◌, ◌||◌, ◌∷◌, ◌≡◌,
}
use teleno.StdMap
use teleno.StdMap.{Map}
use teleno.Stores.Messages.{Block, Codec}
use teleno.Stores.Transactions.{is_nil}
use teleno.Stores.Accounts.{
  Item, Request, current_sequence, handle_block_accepted, get_account_history, addresses, in_prefix,
}
use teleno.Stores.Accounts.Keys.{IsAddress}
use teleno.Stores.Accounts.Query.{Holds, drop, limit_of, get_account_history-forward}
use teleno.Stores.Accounts.Push.{IsLog}
use teleno.Stores.Accounts.History.{
  history, AllAddresses, length-history, addresses-IsSorted, index_addresses-IsLog,
}

IsAddress-full : (size : ℕ) (a : Bytes) → IsAddress size a → is_nil a ≡ false
unfolding is_nil in_prefix
IsAddress-full size [] h = absurd (ground (arith, h.plain []))
IsAddress-full size (x ∷ a) h = refl

module _ (codec : Codec Item Bytes) (size : ℕ) where
  -- The database after a history, newest block first.
  abbrev pub run : List Block → Map Bytes Bytes
  run [] = []
  run (k ∷ ks) = handle_block_accepted codec (record { block = some k }) (run ks)

  empty-Holds : (a : Bytes) → Holds codec a [] 0 []
  unfolding StdMap.lookup
  empty-Holds a = record {
    sorted = tt;
    records = λ j x le g. absurd (ground (arith, g));
    only = λ k v found pre. absurd (ground (arith, found));
  }

  pub run-IsLog :
      (ks : List Block)
      → AllAddresses size ks
      → length ks < 2 ^ 64
      → IsLog codec size (history ks) (run ks)
  unfolding handle_block_accepted current_sequence StdMap.lookup
  run-IsLog [] h few = record { holds = λ a ha. empty-Holds a; counts = λ a ha. refl }
  run-IsLog (k ∷ ks) h few =
      index_addresses-IsLog codec size (addresses k) (history ks) (run ks) k (addresses-IsSorted k)
        (run-IsLog ks h.1 (omega (arith, few))) h.0 (λ a e. omega (arith, few, length-history ks a))

  -- After any history of accepted blocks, fewer than 2 ^ 64, whose addresses have one length and are
  -- no start of a key of `"meta:"` and an address, a request for such an address that is ascending or
  -- starts at 0 is answered by the blocks that concern it, in the order in which they were accepted,
  -- each under the number of those before it, from the number that was asked for on: 500 of them
  -- where the limit of the request is 0, and otherwise as many as the low 32 bits of the limit say,
  -- 500 at most.
  pub get_account_history-history :
      (ks : List Block) (req : Request)
      → AllAddresses size ks
      → length ks < 2 ^ 64
      → IsAddress size req.address
      → req.seq_num < 2 ^ 64
      → (req.ascending || nat_beq req.seq_num 0) ≡ true
      → get_account_history codec req (run ks)
        ≡ take (limit_of req.limit) (drop req.seq_num (history ks req.address))
  get_account_history-history ks req h few ha fits forward =
      let l = run-IsLog ks h few in
      get_account_history-forward codec req (history ks req.address) (run ks)
        (l.holds req.address ha) (omega (arith, few, length-history ks req.address)) fits
        (IsAddress-full size req.address ha) forward

  -- Under the same conditions the number that the next record of an address gets is that of the
  -- blocks that concern it.
  pub current_sequence-history :
      (ks : List Block) (a : Bytes)
      → AllAddresses size ks
      → length ks < 2 ^ 64
      → IsAddress size a
      → current_sequence a (run ks) ≡ length (history ks a)
  current_sequence-history ks a h few ha = (run-IsLog ks h few).counts a ha
