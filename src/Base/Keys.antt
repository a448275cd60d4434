-- ===== src/Base/Keys.antt =====
-- Keys of the source's ordered containers: an equality test and a strict order, with their laws.
-- `Bytes` is `std::string`, compared byte by byte as `std::less< std::string >` does.
use Prim.Native.Nat.{ℕ}
use mathlib.Core.Path.{◌≡◌, refl}
use mathlib.Core.Logic.{◌↔◌}
use mathlib.Core.Bool.{Bool, true, false, ◌&&◌, ◌||◌}
use mathlib.Core.List.{List, [], ◌∷◌}
use native.Mathlib.Omega.{arith}
use teleno.Base.Tests.{nat_beq, nat_beq_iff, ltb}

pub record Key {ℓ} (A : Type ℓ) : Type ℓ where
  pub beq : A → A → Bool
  pub beq_iff : (a b : A) → (beq a b ≡ true) ↔ (a ≡ b)
  pub less : A → A → Bool
  pub less_irrefl : (a : A) → less a a ≡ false
  pub less_trans : (a b c : A) → less a b ≡ true → less b c ≡ true → less a c ≡ true
  pub less_total : (a b : A) → beq a b ≡ false → less a b ≡ false → less b a ≡ true

infix 50 ◌==◌ ◌<?◌
abbrev pub ◌==◌ {ℓ} : {A : Type ℓ} ⦃e : Key A⦄ → A → A → Bool
◌==◌ ⦃e⦄ = e.beq

abbrev pub ◌<?◌ {ℓ} : {A : Type ℓ} ⦃e : Key A⦄ → A → A → Bool
◌<?◌ ⦃e⦄ = e.less

abbrev pub Bytes : Type 0
Bytes = List ℕ

abbrev pub bytes_beq : Bytes → Bytes → Bool
bytes_beq [] [] = true
bytes_beq [] (y ∷ ys) = false
bytes_beq (x ∷ xs) [] = false
bytes_beq (x ∷ xs) (y ∷ ys) = nat_beq x y && bytes_beq xs ys

abbrev pub bytes_less : Bytes → Bytes → Bool
bytes_less [] [] = false
bytes_less [] (y ∷ ys) = true
bytes_less (x ∷ xs) [] = false
bytes_less (x ∷ xs) (y ∷ ys) = ltb x y || (nat_beq x y && bytes_less xs ys)

pub bytes_beq_iff : (a b : Bytes) → (bytes_beq a b ≡ true) ↔ (a ≡ b)
bytes_beq_iff [] [] = ground arith
bytes_beq_iff [] (y ∷ ys) = ground arith
bytes_beq_iff (x ∷ xs) [] = ground arith
bytes_beq_iff (x ∷ xs) (y ∷ ys) = ground (arith, bytes_beq_iff xs ys)

pub bytes_less_irrefl : (a : Bytes) → bytes_less a a ≡ false
bytes_less_irrefl [] = refl
bytes_less_irrefl (x ∷ xs) = ground (arith, bytes_less_irrefl xs)

pub bytes_less_trans :
    (a b c : Bytes) → bytes_less a b ≡ true → bytes_less b c ≡ true → bytes_less a c ≡ true
bytes_less_trans [] [] c p q = q
bytes_less_trans [] (y ∷ ys) [] p q = q
bytes_less_trans [] (y ∷ ys) (z ∷ zs) p q = refl
bytes_less_trans (x ∷ xs) [] c p q = ground arith
bytes_less_trans (x ∷ xs) (y ∷ ys) [] p q = q
bytes_less_trans (x ∷ xs) (y ∷ ys) (z ∷ zs) p q = ground (arith, bytes_less_trans xs ys zs)

pub bytes_less_total :
    (a b : Bytes) → bytes_beq a b ≡ false → bytes_less a b ≡ false → bytes_less b a ≡ true
bytes_less_total [] [] p q = ground arith
bytes_less_total [] (y ∷ ys) p q = ground arith
bytes_less_total (x ∷ xs) [] p q = refl
bytes_less_total (x ∷ xs) (y ∷ ys) p q = ground (arith, bytes_less_total xs ys)

pub nat_less_irrefl : (a : ℕ) → ltb a a ≡ false
nat_less_irrefl a = ground arith

pub nat_less_trans : (a b c : ℕ) → ltb a b ≡ true → ltb b c ≡ true → ltb a c ≡ true
nat_less_trans a b c p q = ground arith

pub nat_less_total : (a b : ℕ) → nat_beq a b ≡ false → ltb a b ≡ false → ltb b a ≡ true
nat_less_total a b p q = ground arith

instance abbrev pub nat_key : Key ℕ
nat_key = record {
  beq = nat_beq;
  beq_iff = nat_beq_iff;
  less = ltb;
  less_irrefl = nat_less_irrefl;
  less_trans = nat_less_trans;
  less_total = nat_less_total;
}

instance abbrev pub bytes_key : Key Bytes
bytes_key = record {
  beq = bytes_beq;
  beq_iff = bytes_beq_iff;
  less = bytes_less;
  less_irrefl = bytes_less_irrefl;
  less_trans = bytes_less_trans;
  less_total = bytes_less_total;
}

pub beq-false_sym {ℓ} : {A : Type ℓ} ⦃e : Key A⦄ (a b : A) → e.beq a b ≡ false → e.beq b a ≡ false
beq-false_sym ⦃e⦄ a b h = ground (arith, e.beq_iff a b, e.beq_iff b a)

pub beq_refl {ℓ} : {A : Type ℓ} ⦃e : Key A⦄ (a : A) → e.beq a a ≡ true
beq_refl ⦃e⦄ a = (e.beq_iff a a).1 refl

pub not_less_trans {ℓ} :
    {A : Type ℓ} ⦃e : Key A⦄ (a b c : A)
    → e.less a b ≡ false
    → e.less b c ≡ false
    → e.less a c ≡ false
not_less_trans ⦃e⦄ a b c p q = ground (arith, e.less_total a b, e.less_trans b a c, e.beq_iff a b)

pub less_asym {ℓ} : {A : Type ℓ} ⦃e : Key A⦄ (a b : A) → e.less a b ≡ true → e.less b a ≡ false
less_asym ⦃e⦄ a b p = ground (arith, e.less_trans a b a, e.less_irrefl a)

-- Pairs in the lexicographic order of `std::tuple`.
module _ {ℓ κ} {A : Type ℓ} {B : Type κ} ⦃e : Key A⦄ ⦃f : Key B⦄ where
  abbrev pub pair_beq : A × B → A × B → Bool
  pair_beq (a, b) (c, d) = e.beq a c && f.beq b d

  abbrev pub pair_less : A × B → A × B → Bool
  pair_less (a, b) (c, d) = e.less a c || (e.beq a c && f.less b d)

  pub pair_beq_iff : (p q : A × B) → (pair_beq p q ≡ true) ↔ (p ≡ q)
  pair_beq_iff (a, b) (c, d) = ground (arith, e.beq_iff a c, f.beq_iff b d)

  pub pair_less_irrefl : (p : A × B) → pair_less p p ≡ false
  pair_less_irrefl (a, b) = ground (arith, e.less_irrefl a, f.less_irrefl b)

  pub pair_less_trans :
      (p q r : A × B) → pair_less p q ≡ true → pair_less q r ≡ true → pair_less p r ≡ true
  pair_less_trans (a, b) (c, d) (i, j) h k =
      ground
        (arith, e.less_trans a c i, f.less_trans b d j, e.beq_iff a c, e.beq_iff c i, e.beq_iff a i)

  pub pair_less_total :
      (p q : A × B) → pair_beq p q ≡ false → pair_less p q ≡ false → pair_less q p ≡ true
  pair_less_total (a, b) (c, d) h k =
      ground (arith, e.less_total a c, f.less_total b d, e.beq_iff a c, e.beq_iff c a)

  instance abbrev pub pair_key : Key (A × B)
  pair_key = record {
    beq = pair_beq;
    beq_iff = pair_beq_iff;
    less = pair_less;
    less_irrefl = pair_less_irrefl;
    less_trans = pair_less_trans;
    less_total = pair_less_total;
  }
