-- ===== src/Mempool/Examples.antt =====
-- The pending transactions on concrete pools.
use teleno.Mempool.Nodes.Accepted.{error_of, add_pending_transaction-check_account_nonce}
use teleno.Mempool.Nodes.Removed.{Removed, remove_pending_transactions-AllValid}
use teleno.Mempool.Requests.{get_pending_transactions, get_pending_transactions_by_id, list_ids}
use teleno.Mempool.Requests.InOrder.{get_pending_transactions-take}
use teleno.Mempool.Admit.{any_pending, add_pending_transaction_to_node-admitted}
use teleno.Mempool.Nodes.Checks.{AllValid, Kept, add_pending_transaction-AllValid}
use teleno.Mempool.Nodes.{
  PoolNode, check_pending_account_resources_on_nodes, remove_pending_transactions,
  add_pending_transaction, check_account_nonce_on_nodes,
}
use teleno.Base.{
  Bytes, List, [], arith, bytes_key, err, false, nat_key, none, ok, pair_key, refl, some, true, ℕ,
  ◌*◌, ◌∷◌, ◌≡◌,
}
use teleno.StdMap.{lookup, insert_or_assign, erase}
use teleno.Mempool.{
  Pending, Pool, add_pending_transaction_to_node, put_pending, check_pending_account_resources,
  next_seq, remove_pending_transactions_on_node, nonce_key, check_resources,
  has_pending_transaction, charged, check_account_nonce, refunded, rc_used, take_out,
  exceeds_resources, nonce_conflict, cleanup_account_resources, null_object,
}
use teleno.Mempool.Valid.{IsValid}
use teleno.Mempool.Totals.{reserved, share}
use teleno.Mempool.Preserved.{add_pending_transaction_to_node-IsValid}

abbrev short_nonce : ℕ → Bytes
short_nonce n = n ∷ []

abbrev pay : ℕ → ℕ → ℕ → Pending
pay id nonce limit = record {
  transaction = record {
    id = id ∷ [];
    payer = 65 ∷ [];
    payee = [];
    nonce = nonce;
    rc_limit = limit;
  };
  timestamp = 1000 * id;
}

abbrev no_pending : Pool
no_pending = record { pending = []; index = []; resources = []; nonces = []; metadata = none }

no_pending-IsValid : IsValid short_nonce no_pending
unfolding lookup reserved
no_pending-IsValid = record {
  sorted = tt;
  indexed = λ id seq e. absurd (ground arith);
  listed = λ seq r e. absurd (ground arith);
  nonces = λ seq r e. absurd (ground arith);
  used = λ key e. absurd (ground arith);
  distinct = λ i j r s ei ej same. absurd (ground arith);
  accounts = λ payer. refl;
}

abbrev one_pending : Pool
one_pending = record {
  pending = (1, pay 7 1 40) ∷ [];
  index = (7 ∷ [], 1) ∷ [];
  resources = (65 ∷ [], record { max_rc = 100; current_rc = 60 }) ∷ [];
  nonces = (65 ∷ 1 ∷ [], tt) ∷ [];
  metadata = some 2;
}

first_run :
    add_pending_transaction_to_node short_nonce (pay 7 1 40) 100 no_pending ≡ ok (40, one_pending)
unfolding add_pending_transaction_to_node put_pending check_pending_account_resources
    check_resources lookup has_pending_transaction check_account_nonce rc_used insert_or_assign
    next_seq charged nonce_key
first_run = refl

one_pending-IsValid : IsValid short_nonce one_pending
unfolding next_seq
one_pending-IsValid =
    add_pending_transaction_to_node-IsValid short_nonce (pay 7 1 40) 100 40 no_pending one_pending
      no_pending-IsValid (omega arith) (omega arith) (omega arith) first_run

-- A second transaction of the account: its credits no longer suffice for 70, and its nonce is taken.
second_refused :
    add_pending_transaction_to_node short_nonce (pay 8 2 70) 100 one_pending ≡ err exceeds_resources
unfolding add_pending_transaction_to_node put_pending check_pending_account_resources
    check_resources lookup has_pending_transaction check_account_nonce rc_used insert_or_assign
    next_seq charged nonce_key
second_refused = refl

second_conflicts :
    add_pending_transaction_to_node short_nonce (pay 8 1 20) 100 one_pending ≡ err nonce_conflict
unfolding add_pending_transaction_to_node put_pending check_pending_account_resources
    check_resources lookup has_pending_transaction check_account_nonce rc_used insert_or_assign
    next_seq charged nonce_key
second_conflicts = refl

-- Two transactions that reserve nothing, of one account: taking out the first drops the record of the
-- account, and taking out the second follows a pointer to it.
abbrev two_unpaid : Pool
two_unpaid =
    put_pending short_nonce (pay 8 2 0) 100 (put_pending short_nonce (pay 7 1 0) 100 no_pending)

unpaid_removed :
    remove_pending_transactions_on_node short_nonce ((7 ∷ []) ∷ (8 ∷ []) ∷ []) two_unpaid
    ≡ err null_object
unfolding remove_pending_transactions_on_node put_pending lookup insert_or_assign next_seq charged
    nonce_key refunded take_out cleanup_account_resources erase
unpaid_removed = refl

add_pending_transaction_to_node-admitted_example :
    add_pending_transaction_to_node short_nonce (pay 8 2 60) 100 one_pending
    ≡ ok (100, put_pending short_nonce (pay 8 2 60) 100 one_pending)
unfolding lookup nonce_key reserved any_pending share
add_pending_transaction_to_node-admitted_example =
    add_pending_transaction_to_node-admitted short_nonce (pay 8 2 60) 100 one_pending
      one_pending-IsValid (omega arith)

-- The second transaction came later: it is kept while the first one has expired.
abbrev two_pending : Pool
two_pending = put_pending short_nonce (pay 100 2 50) 100 one_pending

-- The head's node and that of another fork.
abbrev two_nodes : List PoolNode
two_nodes =
    record { id = 1 ∷ []; is_finalized = true; pool = no_pending }
    ∷ record { id = 2 ∷ []; is_finalized = false; pool = one_pending }
    ∷ record { id = 3 ∷ []; is_finalized = false; pool = no_pending }
    ∷ []

two_nodes-AllValid : AllValid short_nonce two_nodes
two_nodes-AllValid = (no_pending-IsValid, (one_pending-IsValid, (no_pending-IsValid, tt)))

add_pending_transaction-AllValid_example :
    Kept short_nonce (add_pending_transaction short_nonce (pay 8 1 30) 100 (3 ∷ []) two_nodes)
unfolding next_seq
add_pending_transaction-AllValid_example =
    add_pending_transaction-AllValid short_nonce (pay 8 1 30) 100 (omega arith) (omega arith)
      (3 ∷ []) two_nodes two_nodes-AllValid (omega arith, (omega arith, (omega arith, tt)))

add_pending_transaction-check_account_nonce_example :
    error_of (add_pending_transaction short_nonce (pay 8 1 30) 100 (3 ∷ []) two_nodes) ≡ none
unfolding check_pending_account_resources_on_nodes check_pending_account_resources check_resources
    lookup has_pending_transaction check_account_nonce_on_nodes check_account_nonce nonce_key
add_pending_transaction-check_account_nonce_example =
    add_pending_transaction-check_account_nonce short_nonce (pay 8 1 30) 100 (3 ∷ []) two_nodes refl
      (refl, (refl, (refl, tt)))

remove_pending_transactions-AllValid_example :
    (total : ℕ) × (left : List PoolNode) × (remove_pending_transactions short_nonce
        ((7 ∷ []) ∷ [])
        (2 ∷ [])
        0
        two_nodes
      ≡ ok (total, left))
    × AllValid short_nonce left
    × Removed ((7 ∷ []) ∷ []) two_nodes left
remove_pending_transactions-AllValid_example =
    remove_pending_transactions-AllValid short_nonce ((7 ∷ []) ∷ []) (2 ∷ []) 0 two_nodes
      two_nodes-AllValid

get_pending_transactions-take_example :
    get_pending_transactions 10 one_pending ≡ ok ((pay 7 1 40).transaction ∷ [])
get_pending_transactions-take_example =
    get_pending_transactions-take short_nonce 10 one_pending one_pending-IsValid

found_by_id :
    get_pending_transactions_by_id ((9 ∷ []) ∷ (7 ∷ []) ∷ []) one_pending
    ≡ ok ((pay 7 1 40).transaction ∷ [])
unfolding get_pending_transactions_by_id list_ids lookup
found_by_id = refl
