-- ===== src/Mempool.antt =====
-- koinos/mempool/mempool.cpp: the pending transactions of a state node. The five object spaces of a
-- node that the mempool uses are maps of what their values are deserialised to, which `util::converter`
-- and generated code do; the keys of pending transactions are sequence numbers, whose bytes are in the
-- order of the numbers. Locks, log output and the look-up of nodes are not modelled.
pub mod Totals
pub mod Valid
pub mod Accounts
pub mod Add
pub mod Admit
pub mod Preserved
pub mod Remove
pub mod Batch
pub mod Prune
pub mod Nodes
pub mod Requests
mod Examples
use teleno.Base.{
  Bool, Bytes, List, Option, Result, [], bytes_key, err, false, if◌then◌else◌, is_some,
  koinos_assert, leb, leb_ℤ, length, ltb, nat_key, none, not, ok, or_throw, pos, pos_part, some,
  suc, true, zero, ℕ, ℤ, ◌%◌, ◌++◌, ◌+ℤ◌, ◌+◌, ◌-ℤ◌, ◌-◌, ◌>>=◌, ◌>>◌, ◌^◌, ◌∷◌,
}
use teleno.StdMap
use teleno.StdMap.{Map}

pub record Transaction : Type 0 where
  pub id : Bytes
  pub payer : Bytes
  pub payee : Bytes
  pub nonce : ℕ
  pub rc_limit : ℕ

-- `pending_transaction_record`, with its time in milliseconds.
pub record Pending : Type 0 where
  pub transaction : Transaction
  pub timestamp : ℕ

pub record Resources : Type 0 where
  pub max_rc : ℕ
  pub current_rc : ℕ

pub record Pool : Type 0 where
  pub pending : Map ℕ Pending
  pub index : Map Bytes ℕ
  pub resources : Map Bytes Resources
  pub nonces : Map Bytes (Unit {0})
  pub metadata : Option ℕ

-- `null_object` is a pointer to a missing object, which the source asserts and then follows;
-- `out_of_fuel` is the model's.
pub data Error : Type 0 where
  exceeds_resources insertion_failure nonce_conflict null_object : Error
  out_of_fuel : Error

abbrev is_empty : Bytes → Bool
is_empty [] = true
is_empty (b ∷ bs) = false

-- `create_account_nonce_key`; the bytes of a nonce are those of a library.
unfoldable pub nonce_key : (ℕ → Bytes) → Transaction → Bytes
nonce_key nonce_bytes t = (if is_empty t.payee then t.payer else t.payee) ++ nonce_bytes t.nonce

unfoldable pub has_pending_transaction : Bytes → Pool → Bool
has_pending_transaction id pool = is_some (StdMap.lookup id pool.index)

-- Subtraction of `uint64_t`.
unfoldable pub reserved_of : Option Resources → ℕ
reserved_of none = 0
reserved_of (some arr) = (arr.max_rc + 2 ^ 64 - arr.current_rc) % 2 ^ 64

unfoldable pub get_reserved_account_rc : Bytes → Pool → ℕ
get_reserved_account_rc account pool = reserved_of (StdMap.lookup account pool.resources)

-- The credits that are left after a transaction of this limit, in `int128_t`.
abbrev pub new_resources : Resources → ℕ → ℕ → ℤ
new_resources arr max_payer limit =
    pos arr.current_rc +ℤ (pos max_payer -ℤ pos arr.max_rc) -ℤ pos limit

unfoldable pub check_resources : Option Resources → ℕ → ℕ → Bool
check_resources none max_payer limit = leb limit max_payer
check_resources (some arr) max_payer limit = leb_ℤ (pos 0) (new_resources arr max_payer limit)

unfoldable pub check_pending_account_resources : Bytes → ℕ → ℕ → Pool → Bool
check_pending_account_resources payer max_payer limit pool =
    check_resources (StdMap.lookup payer pool.resources) max_payer limit

unfoldable pub check_account_nonce : Bytes → Pool → Bool
check_account_nonce key pool = not (is_some (StdMap.lookup key pool.nonces))

unfoldable pub next_seq : Pool → ℕ
next_seq pool = elim pool.metadata [ none ↦ 1 | some seq_num ↦ seq_num ]

-- The record of the payer once the transaction is in.
unfoldable pub charged : Option Resources → ℕ → ℕ → Resources
charged none max_payer limit = record {
  max_rc = max_payer;
  current_rc = (max_payer + 2 ^ 64 - limit) % 2 ^ 64;
}
charged (some arr) max_payer limit = record {
  max_rc = max_payer;
  current_rc = pos_part (new_resources arr max_payer limit) % 2 ^ 64;
}

unfoldable pub rc_used : Option Resources → ℕ → ℕ → ℕ
rc_used none max_payer limit = limit
rc_used (some arr) max_payer limit =
    (max_payer + 2 ^ 64 - (charged (some arr) max_payer limit).current_rc) % 2 ^ 64

-- The record of the payer once the transaction is out: `none` if it is removed.
unfoldable pub refunded : Resources → ℕ → Option Resources
refunded arr limit =
    let sum = (arr.current_rc + limit) % 2 ^ 64 in
    if leb arr.max_rc sum then none else some (record arr { current_rc = sum })

unfoldable pub cleanup_account_resources : Transaction → Pool → Result Error Pool
cleanup_account_resources t pool = do
  arr ← or_throw (StdMap.lookup t.payer pool.resources) null_object
  ok (record pool {
    resources = elim (refunded arr t.rc_limit) [
      | none ↦ StdMap.erase t.payer pool.resources
      | some left ↦ StdMap.insert_or_assign t.payer left pool.resources
    ];
  })

module _ (nonce_bytes : ℕ → Bytes) where
  -- What `add_pending_transaction_to_node` writes, once its tests are passed.
  unfoldable pub put_pending : Pending → ℕ → Pool → Pool
  put_pending r max_payer pool =
      let t = r.transaction in
      let seq = next_seq pool in
      record {
        pending = StdMap.insert_or_assign seq r pool.pending;
        index = StdMap.insert_or_assign t.id seq pool.index;
        resources =
            StdMap.insert_or_assign t.payer
              (charged (StdMap.lookup t.payer pool.resources) max_payer t.rc_limit) pool.resources;
        nonces = StdMap.insert_or_assign (nonce_key nonce_bytes t) tt pool.nonces;
        metadata = some ((seq + 1) % 2 ^ 64);
      }

  unfoldable pub add_pending_transaction_to_node : Pending → ℕ → Pool → Result Error (ℕ × Pool)
  add_pending_transaction_to_node r max_payer pool = do
    let t = r.transaction
    koinos_assert (check_pending_account_resources t.payer max_payer t.rc_limit pool)
        exceeds_resources
    koinos_assert (not (has_pending_transaction t.id pool)) insertion_failure
    koinos_assert (check_account_nonce (nonce_key nonce_bytes t) pool) nonce_conflict
    ok (
      rc_used (StdMap.lookup t.payer pool.resources) max_payer t.rc_limit,
      put_pending r max_payer pool,
    )

  -- One transaction taken out of the four spaces that hold it.
  unfoldable pub take_out : Bytes → ℕ → Pending → Pool → Result Error Pool
  take_out id seq r pool = do
    p ← cleanup_account_resources r.transaction pool
    ok (record p {
      pending = StdMap.erase seq p.pending;
      index = StdMap.erase id p.index;
      nonces = StdMap.erase (nonce_key nonce_bytes r.transaction) p.nonces;
    })

  unfoldable pub remove_pending_transactions_on_node : List Bytes → Pool → Result Error (ℕ × Pool)
  remove_pending_transactions_on_node [] pool = ok (0, pool)
  remove_pending_transactions_on_node (id ∷ ids) pool = elim (StdMap.lookup id pool.index) [
    | none ↦ remove_pending_transactions_on_node ids pool
    | some seq ↦ elim (StdMap.lookup seq pool.pending) [
      | none ↦ err null_object
      | some r ↦ elim (take_out id seq r pool) [
        | err e ↦ err e
        | ok p ↦ elim (remove_pending_transactions_on_node ids p) [
          | err e ↦ err e
          | ok (count, q) ↦ ok (suc count, q)
        ]
      ]
    ]
  ]

  -- The loop of `prune` on one node, on fuel; times are in milliseconds.
  unfoldable pub prune_rounds : ℕ → ℕ → ℕ → Pool → Result Error (ℕ × Pool)
  prune_rounds zero expiration now pool = err out_of_fuel
  prune_rounds (suc fuel) expiration now pool = elim pool.pending [
    | [] ↦ ok (0, pool)
    | (seq, r) ∷ rest ↦ elim (ltb now (r.timestamp + expiration)) [
      | true ↦ ok (0, pool)
      | false ↦ elim (take_out r.transaction.id seq r pool) [
        | err e ↦ err e
        | ok p ↦ elim (prune_rounds fuel expiration now p) [
          | err e ↦ err e
          | ok (count, q) ↦ ok (suc count, q)
        ]
      ]
    ]
  ]

  -- Every round takes out one pending transaction.
  unfoldable pub prune_on_node : ℕ → ℕ → Pool → Result Error (ℕ × Pool)
  prune_on_node expiration now pool = prune_rounds (suc (length pool.pending)) expiration now pool
