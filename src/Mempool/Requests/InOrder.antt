-- ===== src/Mempool/Requests/InOrder.antt =====
-- The listing by a limit takes the pending transactions in their order.
use teleno.Base.{
  Bytes, List, Option, [], ap, arith, bytes_key, err, if◌then◌else◌, leb, nat_key, none, ok, refl,
  some, suc, sym, take, zero, ℕ, ◌++◌, ◌<◌, ◌∙◌, ◌∷◌, ◌≡◌, ◌≤◌,
}
use teleno.StdMap.{Map, IsSorted, Above}
use teleno.Mempool.{Pending, Pool, Transaction}
use teleno.Mempool.Valid.{IsValid}
use teleno.Mempool.Requests.{
  request_overflow, get_next_object, list_next, get_pending_transactions, max_request_limit,
}

abbrev transactions : Map ℕ Pending → List Transaction
transactions [] = []
transactions ((seq, r) ∷ m) = r.transaction ∷ transactions m

-- No key of the entries is above the key.
abbrev UpTo : ℕ → Map ℕ Pending → Type 0
UpTo key [] = Unit
UpTo key ((seq, r) ∷ m) = (seq ≤ key) × UpTo key m

get_next_object-append :
    (key : ℕ) (before after : Map ℕ Pending)
    → UpTo key before
    → get_next_object (some key) (before ++ after) ≡ get_next_object (some key) after
unfolding get_next_object
get_next_object-append key [] after h = refl
get_next_object-append key ((seq, r) ∷ before) after h =
    ground (arith, get_next_object-append key before after h.1, h.0)

UpTo-append :
    (key seq : ℕ) (r : Pending) (before : Map ℕ Pending)
    → UpTo key before
    → key < seq
    → UpTo seq (before ++ (seq, r) ∷ [])
UpTo-append key seq r [] h lt = (omega arith, tt)
UpTo-append key seq r ((i, s) ∷ before) h lt =
    (omega (arith, h.0), UpTo-append key seq r before h.1 lt)

list_step :
    (left : ℕ) (next : Option ℕ) (m : Map ℕ Pending) (seq : ℕ) (r : Pending)
    → get_next_object next m ≡ some (seq, r)
    → list_next (suc left) next m ≡ r.transaction ∷ list_next left (some seq) m
unfolding list_next
list_step left next m seq r e = ground (arith, e)

list_end :
    (left : ℕ) (next : Option ℕ) (m : Map ℕ Pending)
    → get_next_object next m ≡ none
    → list_next (suc left) next m ≡ []
unfolding list_next
list_end left next m e = ground (arith, e)

next_front :
    (key seq : ℕ) (r : Pending) (after : Map ℕ Pending)
    → key < seq
    → get_next_object (some key) ((seq, r) ∷ after) ≡ some (seq, r)
unfolding get_next_object
next_front key seq r after lt = ground arith

next_nothing : (key : ℕ) → get_next_object (some key) [] ≡ none
unfolding get_next_object
next_nothing key = refl

append_one :
    (seq : ℕ) (r : Pending) (before after : Map ℕ Pending)
    → (before ++ (seq, r) ∷ []) ++ after ≡ before ++ (seq, r) ∷ after
append_one seq r [] after = refl
append_one seq r (e ∷ before) after = ap (λ m. e ∷ m) (append_one seq r before after)

list_next-take :
    (left key : ℕ) (before after : Map ℕ Pending)
    → UpTo key before
    → Above key after
    → IsSorted after
    → list_next left (some key) (before ++ after) ≡ take left (transactions after)
list_next-take zero key before after h a s = unfold list_next in refl
list_next-take (suc left) key before [] h a s =
    list_end left (some key) (before ++ [])
      (get_next_object-append key before [] h ∙ next_nothing key)
list_next-take (suc left) key before ((seq, r) ∷ after) h a s =
    let lt : key < seq = ground (arith, a.0) in
    let rest =
      list_next-take left seq (before ++ (seq, r) ∷ []) after (UpTo-append key seq r before h lt)
        s.0 s.1 in
    list_step left (some key) (before ++ (seq, r) ∷ after) seq r
      (get_next_object-append key before ((seq, r) ∷ after) h ∙ next_front key seq r after lt)
    ∙ ap (λ ts. r.transaction ∷ ts)
        (ap (list_next left (some seq)) (sym (append_one seq r before after)) ∙ rest)

list_all :
    (limit : ℕ) (m : Map ℕ Pending)
    → IsSorted m
    → list_next limit none m ≡ take limit (transactions m)
list_all zero m s = unfold list_next in refl
list_all (suc left) [] s = list_end left none [] (unfold get_next_object in refl)
list_all (suc left) ((seq, r) ∷ m) s =
    list_step left none ((seq, r) ∷ m) seq r (unfold get_next_object in refl)
    ∙ ap (λ ts. r.transaction ∷ ts)
        (list_next-take left seq ((seq, r) ∷ []) m (omega arith, tt) s.0 s.1)

-- Of a valid pool, a request within the limit is answered by the first pending transactions, in the
-- order of their sequence numbers; a request above it is refused.
pub get_pending_transactions-take :
    (nonce_bytes : ℕ → Bytes) (limit : ℕ) (pool : Pool)
    → IsValid nonce_bytes pool
    → get_pending_transactions limit pool ≡ (
        if leb limit max_request_limit
        then ok (take limit (transactions pool.pending))
        else err request_overflow)
unfolding get_pending_transactions
get_pending_transactions-take nonce_bytes limit pool w =
    ground (arith, list_all limit pool.pending w.sorted)
