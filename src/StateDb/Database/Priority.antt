-- ===== src/StateDb/Database/Priority.antt =====
-- The order in which the proof-of-burn comparator ranks forks, and the fork that it ranks first.
use teleno.Base.{
  Bool, Bool-cases, List, [], ap, arith, bytes_beq_iff, bytes_key, bytes_less, false, get_elem?,
  inl, inr, nat_key, refl, some, some_inj, subst, suc, true, zero, ℕ, ◌==◌, ◌∷◌, ◌≡◌,
}
use teleno.StateDb.Database.{Node, before, first_of}

-- The order ranks no node before itself, and is transitive; of two nodes with different ids it ranks
-- one before the other.
pub record IsStrictOrder (less : Node → Node → Bool) : Type 0 where
  pub irrefl : (a : Node) → less a a ≡ false
  pub trans : (a b c : Node) → less a b ≡ true → less b c ≡ true → less a c ≡ true
  pub total : (a b : Node) → (a.id == b.id) ≡ false → less a b ≡ false → less b a ≡ true

before_irrefl : (a : Node) → before a a ≡ false
unfolding before
before_irrefl a = ground (arith, bytes_key.less_irrefl a.id)

before_trans : (a b c : Node) → before a b ≡ true → before b c ≡ true → before a c ≡ true
unfolding before
before_trans a b c p q = ground (arith, bytes_key.less_trans a.id b.id c.id)

before_total : (a b : Node) → (a.id == b.id) ≡ false → before a b ≡ false → before b a ≡ true
unfolding before
before_total a b ne p = ground (arith, bytes_key.less_total a.id b.id)

-- `priority_algorithm` ranks no node before itself and is transitive, and of two nodes with
-- different ids it ranks one before the other.
pub before-IsStrictOrder : IsStrictOrder before
before-IsStrictOrder = record { irrefl = before_irrefl; trans = before_trans; total = before_total }

-- What is before a node is before every node that is not before it.
before_over : (a b r : Node) → before a r ≡ true → before a b ≡ false → before b r ≡ true
unfolding before
before_over a b r p q = ground (
  arith,
  bytes_key.less_total a.id b.id,
  bytes_key.less_trans b.id a.id r.id,
  bytes_beq_iff a.id b.id,
  ap (λ x. bytes_less x r.id),
)

-- The fork that is ranked first stands among the forks, and none of them is ranked before it.
pub record IsFirst (n : Node) (fs : List Node) (r : Node) : Type 0 where
  pub place : ℕ
  pub among : get_elem? (n ∷ fs) place ≡ some r
  pub least : (j : ℕ) (x : Node) → get_elem? (n ∷ fs) j ≡ some x → before x r ≡ false

least_swap :
    (n f : Node) (fs : List Node) (r : Node)
    → before f n ≡ true
    → IsFirst f fs r
    → (j : ℕ) (x : Node) → get_elem? (n ∷ f ∷ fs) j ≡ some x
    → before x r ≡ false
least_swap n f fs r lt w zero x e =
    ground (arith, before_trans f n r lt, w.least 0 f refl, some_inj n x e)
least_swap n f fs r lt w (suc j) x e = w.least j x e

least_keep :
    (n f : Node) (fs : List Node) (r : Node)
    → before f n ≡ false
    → IsFirst n fs r
    → (j : ℕ) (x : Node) → get_elem? (n ∷ f ∷ fs) j ≡ some x
    → before x r ≡ false
least_keep n f fs r le w zero x e = w.least 0 x e
least_keep n f fs r le w (suc zero) x e =
    subst (λ y. before y r ≡ false) (some_inj f x e)
      (ground (arith, before_over f n r, w.least 0 n refl))
least_keep n f fs r le w (suc (suc j)) x e = w.least (suc j) x e

place_keep :
    (n f : Node) (fs : List Node) (r : Node) (j : ℕ)
    → get_elem? (n ∷ fs) j ≡ some r
    → (i : ℕ) × (get_elem? (n ∷ f ∷ fs) i ≡ some r)
place_keep n f fs r zero e = (0, e)
place_keep n f fs r (suc j) e = (suc (suc j), e)

IsFirst-swap :
    (n f : Node) (fs : List Node) (r : Node)
    → before f n ≡ true
    → IsFirst f fs r
    → IsFirst n (f ∷ fs) r
IsFirst-swap n f fs r lt w = record {
  place = suc w.place;
  among = w.among;
  least = least_swap n f fs r lt w;
}

IsFirst-keep :
    (n f : Node) (fs : List Node) (r : Node)
    → before f n ≡ false
    → IsFirst n fs r
    → IsFirst n (f ∷ fs) r
IsFirst-keep n f fs r le w = record {
  place = (place_keep n f fs r w.place w.among).0;
  among = (place_keep n f fs r w.place w.among).1;
  least = least_keep n f fs r le w;
}

least_alone : (n : Node) (j : ℕ) (x : Node) → get_elem? (n ∷ []) j ≡ some x → before x n ≡ false
least_alone n zero x e = subst (λ y. before y n ≡ false) (some_inj n x e) (before_irrefl n)
least_alone n (suc j) x e = absurd (ground arith)

IsFirst-alone : (n : Node) → IsFirst n [] n
IsFirst-alone n = record { place = 0; among = refl; least = least_alone n }

-- The fork that the comparator takes of a list that is not empty stands in the list, and no fork of
-- the list is ranked before it.
pub first_of-IsFirst : (n : Node) (fs : List Node) → IsFirst n fs (first_of n fs)
unfolding first_of
first_of-IsFirst n [] = IsFirst-alone n
first_of-IsFirst n (f ∷ fs) = elim (Bool-cases (before f n)) [
  | inl swap ↦ rw swap (IsFirst-swap n f fs (first_of f fs) swap (first_of-IsFirst f fs))
  | inr keep ↦ rw keep (IsFirst-keep n f fs (first_of n fs) keep (first_of-IsFirst n fs))
]
