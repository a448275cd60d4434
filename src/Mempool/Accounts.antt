-- ===== src/Mempool/Accounts.antt =====
-- The record of an account, before and after a transaction is put in or taken out.
use teleno.Base.{
  Option, arith, bytes_key, leb, nat_key, none, some, ℕ, ◌+◌, ◌-◌, ◌<◌, ◌^◌, ◌≡◌, ◌≤◌,
}
use teleno.Mempool.{Resources, check_resources, charged, rc_used, refunded, reserved_of}
use teleno.Mempool.Valid.{Account}

pub check_resources-Account :
    (n max_payer limit : ℕ) (o : Option Resources)
    → Account n o
    → check_resources o max_payer limit ≡ leb (n + limit) max_payer
unfolding check_resources
check_resources-Account n max_payer limit none a = ground arith
check_resources-Account n max_payer limit (some arr) a = ground arith

pub charged-Account :
    (n max_payer limit : ℕ) (o : Option Resources)
    → Account n o
    → n + limit ≤ max_payer
    → max_payer < 2 ^ 64
    → Account (n + limit) (some (charged o max_payer limit))
unfolding charged
charged-Account n max_payer limit none a le fits = ground arith
charged-Account n max_payer limit (some arr) a le fits = ground arith

pub refunded-Account :
    (n limit : ℕ) (arr : Resources)
    → Account n (some arr)
    → limit ≤ n
    → Account (n - limit) (refunded arr limit)
unfolding refunded
refunded-Account n limit arr a le = ground arith

pub rc_used-Account :
    (n max_payer limit : ℕ) (o : Option Resources)
    → Account n o
    → n + limit ≤ max_payer
    → max_payer < 2 ^ 64
    → rc_used o max_payer limit ≡ n + limit
unfolding rc_used charged
rc_used-Account n max_payer limit none a le fits = ground arith
rc_used-Account n max_payer limit (some arr) a le fits = ground arith

pub reserved_of-Account : (n : ℕ) (o : Option Resources) → Account n o → reserved_of o ≡ n
unfolding reserved_of
reserved_of-Account n none a = ground arith
reserved_of-Account n (some arr) a = omega arith
