-- ===== src/StateDb/Database/Discard/Queue.antt =====
-- The removal queue of `discard_node`.
use teleno.Base.{
  Bool-cases, Bytes, List, [], ap, arith, bytes_beq_iff, bytes_key, false, if◌then◌else◌, inl, inr,
  length, nat_key, not, refl, some, subst, true, ℕ, ◌&&◌, ◌++◌, ◌+◌, ◌==◌, ◌∷◌, ◌≡◌, ◌≤◌,
}
use teleno.StdMap.{Above, Map, IsSorted, lookup, lookup-Above}
use teleno.StateDb.Database.{Node}
use teleno.StateDb.Database.Discard.{contains, children}

pub contains-append :
    (id : Bytes) (xs ys : List Bytes)
    → contains id (xs ++ ys) ≡ (if contains id xs then true else contains id ys)
contains-append id [] ys = refl
contains-append id (x ∷ xs) ys = ground (arith, contains-append id xs ys)

-- No id stands twice.
abbrev pub AllDistinct : List Bytes → Type 0
AllDistinct [] = Unit
AllDistinct (x ∷ xs) = (contains x xs ≡ false) × AllDistinct xs

-- The nodes whose parent was not looked at.
unfoldable pub unseen : List Bytes → Map Bytes Node → ℕ
unseen done [] = 0
unseen done ((k, n) ∷ m) = (if contains n.parent_id done then 0 else 1) + unseen done m

pub unseen-none : (m : Map Bytes Node) → unseen [] m ≡ length m
unfolding unseen
unseen-none [] = refl
unseen-none ((k, n) ∷ m) = omega (arith, unseen-none m)

-- What is looked at next has not more children than it makes nodes seen.
pub unseen-next :
    (id : Bytes) (whitelist done : List Bytes) (m : Map Bytes Node)
    → contains id done ≡ false
    → unseen (id ∷ done) m + length (children id whitelist m) ≤ unseen done m
unfolding unseen children
unseen-next id whitelist done [] h = omega arith
unseen-next id whitelist done ((k, n) ∷ m) h = ground (
  arith,
  unseen-next id whitelist done m h,
  bytes_beq_iff n.parent_id id,
  ap (λ x. contains x done),
)

-- A child of the queue is a node of the index with that parent.
pub children-lookup :
    (id c : Bytes) (whitelist : List Bytes) (m : Map Bytes Node)
    → IsSorted m
    → contains c (children id whitelist m) ≡ true
    → (n : Node) × (lookup c m ≡ some n) × (n.parent_id ≡ id) × (contains c whitelist ≡ false)
unfolding children lookup
children-lookup id c whitelist [] s h = absurd (ground arith)
children-lookup id c whitelist ((k, v) ∷ m) s h = elim (Bool-cases (k == c)) [
  | inl same ↦ elim (Bool-cases (v.parent_id == id && not (contains k whitelist))) [
    | inl taken ↦
        let free : contains k whitelist ≡ false = ground (arith, taken) in
        let at : k ≡ c = (bytes_beq_iff k c).0 same in
        (
          v,
          ground (arith, same),
          (bytes_beq_iff v.parent_id id).0 (ground (arith, taken)),
          subst (λ x. contains x whitelist ≡ false) at free,
        )
    | inr other ↦
        let (n, e, p, free) = children-lookup id c whitelist m s.1 (ground (arith, h, other)) in
        absurd
          (ground (arith, e, lookup-Above k m s.0, same, bytes_beq_iff k c, ap (λ x. lookup x m)))
  ]
  | inr apart ↦
      let (n, e, p, free) = children-lookup id c whitelist m s.1 (ground (arith, h, apart)) in
      (n, ground (arith, e, apart), p, free)
]

pub lookup-children :
    (id c : Bytes) (n : Node) (whitelist : List Bytes) (m : Map Bytes Node)
    → lookup c m ≡ some n
    → n.parent_id ≡ id
    → contains c whitelist ≡ false
    → contains c (children id whitelist m) ≡ true
unfolding children lookup
lookup-children id c n whitelist [] e p h = absurd (ground arith)
lookup-children id c n whitelist ((k, v) ∷ m) e p h =
    ground
      (arith, lookup-children id c n whitelist m, bytes_beq_iff v.parent_id id, bytes_beq_iff k c)

children-not-Above :
    (k id : Bytes) (whitelist : List Bytes) (m : Map Bytes Node)
    → IsSorted m
    → Above k m
    → contains k (children id whitelist m) ≡ false
children-not-Above k id whitelist m s a = elim (Bool-cases (contains k (children id whitelist m))) [
  | inl found ↦
      let (n, e, p, free) = children-lookup id k whitelist m s found in
      absurd (ground (arith, e, lookup-Above k m a))
  | inr missing ↦ missing
]

pub children-AllDistinct :
    (id : Bytes) (whitelist : List Bytes) (m : Map Bytes Node)
    → IsSorted m
    → AllDistinct (children id whitelist m)
unfolding children
children-AllDistinct id whitelist [] s = tt
children-AllDistinct id whitelist ((k, n) ∷ m) s =
    let rest = children-AllDistinct id whitelist m s.1 in
    elim (Bool-cases (n.parent_id == id && not (contains k whitelist))) [
      | inl taken ↦ rw taken (children-not-Above k id whitelist m s.1 s.0, rest)
      | inr left ↦ rw left rest
    ]

pub AllDistinct-append :
    (xs ys : List Bytes)
    → AllDistinct xs
    → AllDistinct ys
    → ((c : Bytes) → contains c ys ≡ true → contains c xs ≡ false)
    → AllDistinct (xs ++ ys)
AllDistinct-append [] ys dx dy h = dy
AllDistinct-append (x ∷ xs) ys dx dy h = (
  elim (Bool-cases (contains x ys)) [
    | inl both ↦ absurd (ground (arith, h x both, bytes_beq_iff x x))
    | inr apart ↦ ground (arith, contains-append x xs ys, dx.0, apart)
  ],
  AllDistinct-append xs ys dx.1 dy (λ c e. ground (arith, h c e)),
)
