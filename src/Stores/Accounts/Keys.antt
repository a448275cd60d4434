-- ===== src/Stores/Accounts/Keys.antt =====
-- The keys of one address: they are what lies between two of them, in the order of the numbers.
use teleno.Base.{
  Bool-cases, Bytes, List-cases, [], ap, arith, bytes_beq, bytes_beq_iff, bytes_key, bytes_less,
  bytes_less_irrefl, false, inl, inr, length, ltb, nat_beq, nat_key, refl, subst, true, ℕ, ◌++◌,
  ◌<?◌, ◌<◌, ◌==◌, ◌^◌, ◌∙◌, ◌∷◌, ◌≡◌,
}
use teleno.Stores.Accounts.{meta_key, encode_bytes, encode_seq, in_prefix}
use teleno.Stores.Accounts.Seq.{encode_seq-lem, length-encode_bytes}

abbrev pub record_key : Bytes → ℕ → Bytes
record_key a i = a ++ encode_seq i

less-prefix : (a x y : Bytes) → bytes_less (a ++ x) (a ++ y) ≡ bytes_less x y
less-prefix [] x y = refl
less-prefix (p ∷ a) x y = ground (arith, less-prefix a x y)

beq-prefix : (a x y : Bytes) → bytes_beq (a ++ x) (a ++ y) ≡ bytes_beq x y
beq-prefix [] x y = refl
beq-prefix (p ∷ a) x y = ground (arith, beq-prefix a x y)

pub less-record_key :
    (a : Bytes) (i j : ℕ) → i < 2 ^ 64 → j < 2 ^ 64 → (record_key a i <? record_key a j) ≡ ltb i j
less-record_key a i j p q = less-prefix a (encode_seq i) (encode_seq j) ∙ (encode_seq-lem i j p q).1

pub beq-record_key :
    (a : Bytes) (i j : ℕ)
    → i < 2 ^ 64
    → j < 2 ^ 64
    → (record_key a i == record_key a j) ≡ nat_beq i j
beq-record_key a i j p q = beq-prefix a (encode_seq i) (encode_seq j) ∙ (encode_seq-lem i j p q).2

between-prefix :
    (a y k : Bytes) (c : ℕ) (x : Bytes)
    → bytes_less k (a ++ c ∷ x) ≡ false
    → bytes_less (a ++ y) k ≡ false
    → in_prefix a k ≡ true
unfolding in_prefix
between-prefix [] y [] c x p q = absurd (ground (arith, p))
between-prefix [] y (d ∷ k) c x p q = refl
between-prefix (e ∷ a) y [] c x p q = absurd (ground (arith, p))
between-prefix (e ∷ a) y (d ∷ k) c x p q = ground (arith, p, q, between-prefix a y k c x)

-- What lies between two keys of an address starts with it.
pub between_keys :
    (a k : Bytes) (i j : ℕ)
    → (k <? record_key a i) ≡ false
    → (record_key a j <? k) ≡ false
    → in_prefix a k ≡ true
unfolding encode_seq
between_keys a k i j p q = elim (List-cases (encode_bytes 8 i)) [
  | inl e ↦ absurd (omega (arith, length-encode_bytes 8 i, ap length e))
  | inr (c, x, e) ↦
      between-prefix a (encode_bytes 8 j) k c x (subst (λ z. bytes_less k (a ++ z) ≡ false) e p) q
]

-- The addresses that the keys of the column family keep apart: those of one length that no
-- `"meta:"` key starts with.
pub record IsAddress (size : ℕ) (a : Bytes) : Type 0 where
  pub has_size : length a ≡ size
  pub plain : (b : Bytes) → in_prefix a (meta_key b) ≡ false

pub in_prefix-same : (a b x : Bytes) → length a ≡ length b → in_prefix b (a ++ x) ≡ true → a ≡ b
unfolding in_prefix
in_prefix-same [] [] x e h = refl
in_prefix-same [] (c ∷ b) x e h = absurd (omega (arith, e))
in_prefix-same (d ∷ a) [] x e h = absurd (omega (arith, e))
in_prefix-same (d ∷ a) (c ∷ b) x e h =
    let rest = in_prefix-same a b x (omega (arith, e)) (ground (arith, h)) in
    let head : c ≡ d = ground (arith, h) in cc

pub in_prefix-record_key : (a : Bytes) (i : ℕ) → in_prefix a (record_key a i) ≡ true
in_prefix-record_key a i =
    between_keys a (record_key a i) i i (bytes_less_irrefl (record_key a i))
      (bytes_less_irrefl (record_key a i))

-- A record and a number never share a key.
pub record_key-meta_key :
    (size : ℕ) (a b : Bytes) (i : ℕ) → IsAddress size a → (record_key a i == meta_key b) ≡ false
record_key-meta_key size a b i h = elim (Bool-cases (record_key a i == meta_key b)) [
  | inr e ↦ e
  | inl same ↦
      let e = (bytes_beq_iff (record_key a i) (meta_key b)).0 same in
      absurd (ground (arith, in_prefix-record_key a i, h.plain b, ap (in_prefix a) e))
]
