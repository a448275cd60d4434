-- ===== src/Mempool/Requests.antt =====
-- koinos/mempool/mempool.cpp: the listings of the pending transactions of a node. A transaction that
-- is asked for by an id that is not found is left out.
pub mod InOrder
use teleno.Base.{
  Bool, Bytes, List, Option, Result, [], bytes_key, if◌then◌else◌, koinos_assert, leb, length, ltb,
  nat_key, none, ok, some, suc, true, zero, ℕ, ◌>>=◌, ◌>>◌, ◌∷◌,
}
use teleno.StdMap
use teleno.StdMap.{Map}
use teleno.Mempool.{Pending, Pool, Transaction, Error}

pub data RequestError : Type 0 where
  request_overflow : RequestError

-- `constants::max_request_limit`
abbrev pub max_request_limit : ℕ
max_request_limit = 2000

abbrev pub is_after : Option ℕ → ℕ → Bool
is_after none seq = true
is_after (some next) seq = ltb next seq

-- The first entry behind a key, or of all where there is no key.
unfoldable pub get_next_object : Option ℕ → Map ℕ Pending → Option (ℕ × Pending)
get_next_object next [] = none
get_next_object next ((seq, r) ∷ m) =
    let rest = get_next_object next m in if is_after next seq then some (seq, r) else rest

-- `while( pending_transactions.size() < limit )`, with what is left of the limit.
unfoldable pub list_next : ℕ → Option ℕ → Map ℕ Pending → List Transaction
list_next zero next m = []
list_next (suc left) next m = elim (get_next_object next m) [
  | none ↦ []
  | some (seq, r) ↦ r.transaction ∷ list_next left (some seq) m
]

unfoldable pub get_pending_transactions : ℕ → Pool → Result RequestError (List Transaction)
get_pending_transactions limit pool = do
  koinos_assert (leb limit max_request_limit) request_overflow
  ok (list_next limit none pool.pending)

unfoldable pub list_ids : List Bytes → Pool → List Transaction
list_ids [] pool = []
list_ids (id ∷ ids) pool =
    let rest = list_ids ids pool in
    elim (StdMap.lookup id pool.index) [
      | none ↦ rest
      | some seq ↦ elim (StdMap.lookup seq pool.pending) [
        | none ↦ rest
        | some r ↦ r.transaction ∷ rest
      ]
    ]

unfoldable pub get_pending_transactions_by_id :
    List Bytes → Pool → Result RequestError (List Transaction)
get_pending_transactions_by_id ids pool = do
  koinos_assert (leb (length ids) max_request_limit) request_overflow
  ok (list_ids ids pool)
