-- ===== src/Mempool/Totals.antt =====
-- The credits that the pending transactions of a payer reserve.
use teleno.Base.{
  Bytes, [], arith, beq_refl, bytes_key, false, if◌then◌else◌, nat_beq_iff, nat_key, none, refl,
  some, ℕ, ◌+◌, ◌==◌, ◌∷◌, ◌≡◌,
}
use teleno.StdMap.{erase-absent, Map, lookup, insert_or_assign, erase, IsSorted, lookup-Above}
use teleno.Mempool.{Pending}
use teleno.Base.{beq_refl, false}

unfoldable pub share : Bytes → Pending → ℕ
share payer r = if r.transaction.payer == payer then r.transaction.rc_limit else 0

pub share_own : (r : Pending) → share r.transaction.payer r ≡ r.transaction.rc_limit
unfolding share
share_own r = rw (beq_refl r.transaction.payer)

pub share_other :
    (r : Pending) (payer : Bytes) → (r.transaction.payer == payer) ≡ false → share payer r ≡ 0
unfolding share
share_other r payer ne = rw ne

unfoldable pub reserved : Bytes → Map ℕ Pending → ℕ
reserved payer [] = 0
reserved payer ((seq, r) ∷ m) = share payer r + reserved payer m

pub reserved-insert :
    (payer : Bytes) (seq : ℕ) (r : Pending) (m : Map ℕ Pending)
    → lookup seq m ≡ none
    → reserved payer (insert_or_assign seq r m) ≡ share payer r + reserved payer m
unfolding reserved insert_or_assign lookup
reserved-insert payer seq r [] e = refl
reserved-insert payer seq r ((j, v) ∷ m) e = ground (arith, reserved-insert payer seq r m)

pub reserved-erase :
    (payer : Bytes) (seq : ℕ) (r : Pending) (m : Map ℕ Pending)
    → IsSorted m
    → lookup seq m ≡ some r
    → share payer r + reserved payer (erase seq m) ≡ reserved payer m
unfolding reserved erase lookup
reserved-erase payer seq r [] h e = absurd (ground arith)
reserved-erase payer seq r ((j, v) ∷ m) h e = ground (
  arith,
  reserved-erase payer seq r m h.1,
  erase-absent seq m,
  lookup-Above j m h.0,
  nat_beq_iff j seq,
)
