-- ===== src/Stores/Accounts/Query.antt =====
-- The forward query of an address answers its records in the order of their numbers.
use teleno.StateDb.MergeIterator.Start.{lower_bound_of-IsSorted, lower_bound_of-lookup}
use teleno.StateDb.MergeIterator.{lower_bound_of}
use teleno.Base.{
  Bool-cases, Bytes, List, List-cases, Option-cases, [], ap, arith, bytes_beq_iff, bytes_key,
  bytes_less_irrefl, false, get_elem?, get_elem?-lt, get_elem?_in, if◌then◌else◌, inl, inr, length,
  less_asym, ltb, min, nat_beq, nat_key, none, pair_key, refl, some, some_inj, subst, suc, sym,
  take, true, zero, ℕ, ◌%◌, ◌<?◌, ◌<◌, ◌==◌, ◌^◌, ◌||◌, ◌∙◌, ◌∷◌, ◌≡◌, ◌≢◌, ◌≤◌,
}
use teleno.StdMap
use teleno.StdMap.{Map, IsSorted, Above, lookup-Above, Above-lookup}
use teleno.Stores.Messages.{Codec}
use teleno.Stores.Accounts.{
  Item, in_prefix, scan, lower_bound_of, max_records_per_query, get_account_history, Request,
  is_nil,
}
use teleno.Stores.Accounts.Keys.{record_key, less-record_key, between_keys, beq-record_key}

abbrev pub drop : ℕ → List Item → List Item
drop zero xs = xs
drop (suc n) [] = []
drop (suc n) (x ∷ xs) = drop n xs

drop-none : (i : ℕ) (xs : List Item) → get_elem? xs i ≡ none → drop i xs ≡ []
drop-none zero [] h = refl
drop-none zero (x ∷ xs) h = absurd (ground (arith, h))
drop-none (suc i) [] h = refl
drop-none (suc i) (x ∷ xs) h = drop-none i xs h

drop-some :
    (i : ℕ) (x : Item) (xs : List Item) → get_elem? xs i ≡ some x → drop i xs ≡ x ∷ drop (suc i) xs
drop-some zero x [] h = absurd (ground (arith, h))
drop-some zero x (y ∷ xs) h = ap (λ z. z ∷ xs) (some_inj y x h)
drop-some (suc i) x [] h = absurd (ground (arith, h))
drop-some (suc i) x (y ∷ xs) h = drop-some i x xs h

head-least :
    (k v : Bytes) (m : Map Bytes Bytes) (j u : Bytes)
    → IsSorted ((k, v) ∷ m)
    → StdMap.lookup j ((k, v) ∷ m) ≡ some u
    → (j <? k) ≡ false
unfolding StdMap.lookup
head-least k v m j u s h = elim (Bool-cases (k == j)) [
  | inl same ↦ subst (λ x. (x <? k) ≡ false) ((bytes_beq_iff k j).0 same) (bytes_less_irrefl k)
  | inr other ↦ less_asym k j (Above-lookup k j u m s.0 (ground (arith, h, other)))
]

module _ (codec : Codec Item Bytes) (a : Bytes) (xs : List Item) where
  -- From number `i` on, the keys of this map that start with the address are those of its records.
  pub record Holds (i : ℕ) (m : Map Bytes Bytes) : Type 0 where
    pub sorted : IsSorted m
    pub records :
        (j : ℕ) (x : Item)
        → i ≤ j
        → get_elem? xs j ≡ some x
        → StdMap.lookup (record_key a j) m ≡ some (codec.serialize x)
    pub only :
        (k v : Bytes)
        → StdMap.lookup k m ≡ some v
        → in_prefix a k ≡ true
        → (j : ℕ) × (i ≤ j) × (j < length xs) × (k ≡ record_key a j)

  abbrev From : ℕ → Map Bytes Bytes → Type 0
  From s m = (k v : Bytes) → StdMap.lookup k m ≡ some v → (k <? record_key a s) ≡ false

  module _ (few : length xs ≤ 2 ^ 64) (s : ℕ) (s_fits : s < 2 ^ 64) where
    -- The head of such a map is the record of number `i`, if there is one.
    head-record :
        (i : ℕ) (x : Item) (k v : Bytes) (m : Map Bytes Bytes)
        → get_elem? xs i ≡ some x
        → Holds i ((k, v) ∷ m)
        → From s ((k, v) ∷ m)
        → (k ≡ record_key a i) × (v ≡ codec.serialize x)
    unfolding StdMap.lookup
    head-record i x k v m g h f =
        let own : StdMap.lookup k ((k, v) ∷ m) ≡ some v = ground (arith, bytes_beq_iff k k) in
        let at = h.records i x (omega arith) g in
        let fits = get_elem?-lt xs i x g in
        let after = head-least k v m (record_key a i) (codec.serialize x) h.sorted at in
        let (j, le, lt, e) = h.only k v own (between_keys a k s i (f k v own) after) in
        let order = less-record_key a i j (omega (arith, few, fits)) (omega (arith, few, lt)) in
        let not_above : ltb i j ≡ false =
          sym order ∙ subst (λ z. (record_key a i <? z) ≡ false) e after in
        let same : j ≡ i = ground (arith, le, not_above) in
        let here = e ∙ ap (record_key a) same in
        (
          here,
          some_inj v (codec.serialize x)
              (sym own ∙ ap (λ z. StdMap.lookup z ((k, v) ∷ m)) here ∙ at),
        )

    tail-Holds :
        (i : ℕ) (x : Item) (k v : Bytes) (m : Map Bytes Bytes)
        → get_elem? xs i ≡ some x
        → k ≡ record_key a i
        → Holds i ((k, v) ∷ m)
        → Holds (suc i) m
    unfolding StdMap.lookup
    tail-Holds i x k v m g e h = record {
      sorted = h.sorted.1;
      records = λ j y le gj.
          let fits = get_elem?-lt xs j y gj in
          let other : (k == record_key a j) ≡ false =
            subst (λ z. (z == record_key a j) ≡ false) (sym e)
              (beq-record_key a i j (omega (arith, few, fits, le)) (omega (arith, few, fits))
                ∙ ground (arith, le)) in
          let old = h.records j y (omega (arith, le)) gj in ground (arith, old, other);
      only = λ z w found pre.
          let above = Above-lookup k z w m h.sorted.0 found in
          let other : (k == z) ≡ false =
            ground (arith, above, bytes_beq_iff k z, bytes_less_irrefl k) in
          let (j, le, lt, ej) = h.only z w (ground (arith, found, other)) pre in
          let ne : i ≢ j = λ same.
            ground (arith, other, (bytes_beq_iff k z).1 (e ∙ ap (record_key a) same ∙ sym ej)) in
          (j, omega (arith, le, ne), lt, ej);
    }

    tail-From :
        (k v : Bytes) (m : Map Bytes Bytes) → IsSorted ((k, v) ∷ m) → From s ((k, v) ∷ m) → From s m
    unfolding StdMap.lookup
    tail-From k v m so f z w found =
        let above = Above-lookup k z w m so.0 found in
        f z w (ground (arith, found, above, bytes_beq_iff k z, bytes_less_irrefl k))

    scan-end :
        (n i : ℕ) (m : Map Bytes Bytes) → get_elem? xs i ≡ none → Holds i m → scan codec n a m ≡ []
    unfolding scan StdMap.lookup
    scan-end zero i m g h = refl
    scan-end (suc n) i [] g h = refl
    scan-end (suc n) i ((k, v) ∷ m) g h = elim (Bool-cases (in_prefix a k)) [
      | inr out ↦ ground (arith, out)
      | inl pre ↦
          let (j, le, lt, _) = h.only k v (ground (arith, bytes_beq_iff k k)) pre in
          let (x, e) = get_elem?_in xs i (omega (arith, le, lt)) in absurd (ground (arith, g, e))
    ]

    nothing :
        (i : ℕ) (x : Item) (m : Map Bytes Bytes) → get_elem? xs i ≡ some x → Holds i m → m ≢ []
    unfolding StdMap.lookup
    nothing i x m g h e =
        let held =
          subst (λ z. StdMap.lookup (record_key a i) z ≡ some (codec.serialize x)) e
            (h.records i x (omega arith) g) in
        absurd (ground (arith, held))

    scan-step :
        (n i : ℕ) (x : Item) (k v : Bytes) (m : Map Bytes Bytes)
        → k ≡ record_key a i
        → v ≡ codec.serialize x
        → scan codec (suc n) a ((k, v) ∷ m) ≡ x ∷ scan codec n a m
    unfolding scan
    scan-step n i x k v m e value =
        let own =
          between_keys a (record_key a i) i i (bytes_less_irrefl (record_key a i))
            (bytes_less_irrefl (record_key a i)) in
        let pre : in_prefix a k ≡ true = ap (in_prefix a) e ∙ own in
        let parsed : codec.parse v ≡ some x = ap codec.parse value ∙ codec.parse-serialize x in
        ground (arith, pre, parsed)

    pub scan-take :
        (n i : ℕ) (m : Map Bytes Bytes)
        → Holds i m
        → From s m
        → scan codec n a m ≡ take n (drop i xs)
    unfolding scan
    scan-take zero i m h f = refl
    scan-take (suc n) i m h f = elim (Option-cases (get_elem? xs i)) [
      | inl over ↦ scan-end (suc n) i m over h ∙ sym (ap (take (suc n)) (drop-none i xs over))
      | inr (x, g) ↦ elim (List-cases m) [
        | inl gone ↦ absurd (nothing i x m g h gone)
        | inr (e, rest, at) ↦
            let h' = subst (Holds i) at h in
            let f' = subst (From s) at f in
            let (here, value) = head-record i x e.0 e.1 rest g h' f' in
            let later =
              scan-take n (suc i) rest (tail-Holds i x e.0 e.1 rest g here h')
                (tail-From e.0 e.1 rest h'.sorted f') in
            ap (scan codec (suc n) a) at
            ∙ scan-step n i x e.0 e.1 rest here value
            ∙ ap (λ ys. x ∷ ys) later
            ∙ sym (ap (take (suc n)) (drop-some i x xs g))
      ]
    ]

    lower_bound_of-Holds :
        (db : Map Bytes Bytes) → Holds 0 db → Holds s (lower_bound_of (record_key a s) db)
    lower_bound_of-Holds db h = record {
      sorted = lower_bound_of-IsSorted (record_key a s) db h.sorted;
      records = λ j x le g.
          let order = less-record_key a j s (omega (arith, few, get_elem?-lt xs j x g)) s_fits in
          ground (
            arith,
            lower_bound_of-lookup (record_key a s) (record_key a j) db h.sorted,
            order,
            le,
            h.records j x (omega arith) g,
          );
      only = λ k v found pre.
          let at = lower_bound_of-lookup (record_key a s) k db h.sorted in
          let (j, _, lt, e) = h.only k v (ground (arith, at, found)) pre in
          let stays : (k <? record_key a s) ≡ false = ground (arith, at, found) in
          let order = less-record_key a j s (omega (arith, few, lt)) s_fits in
          let below : ltb j s ≡ false =
            sym order ∙ subst (λ z. (z <? record_key a s) ≡ false) e stays in
          (j, ground (arith, below), lt, e);
    }

    lower_bound_of-From :
        (db : Map Bytes Bytes) → Holds 0 db → From s (lower_bound_of (record_key a s) db)
    lower_bound_of-From db h k v found =
        ground (arith, lower_bound_of-lookup (record_key a s) k db h.sorted, found)

-- The number of records that a request may be answered by.
abbrev pub limit_of : ℕ → ℕ
limit_of limit =
    if ltb 0 limit then min (limit % 2 ^ 32) max_records_per_query else max_records_per_query

-- If the records of an address that is not empty, at most 2 ^ 64, are stored under its numbers from 0
-- on, and no other key starts with it, then a request for it that is ascending or starts at 0 is
-- answered by its records from the number that was asked for on, in their order: 500 of them where
-- the limit of the request is 0, and otherwise as many as the low 32 bits of the limit say, 500 at
-- most.
pub get_account_history-forward :
    (codec : Codec Item Bytes) (req : Request) (xs : List Item) (db : Map Bytes Bytes)
    → Holds codec req.address xs 0 db
    → length xs ≤ 2 ^ 64
    → req.seq_num < 2 ^ 64
    → is_nil req.address ≡ false
    → (req.ascending || nat_beq req.seq_num 0) ≡ true
    → get_account_history codec req db ≡ take (limit_of req.limit) (drop req.seq_num xs)
unfolding get_account_history
get_account_history-forward codec req xs db h few fits full forward =
    let a = req.address in
    let s = req.seq_num in
    rw (get_account_history, full, forward)
      (scan-take codec a xs few s fits (limit_of req.limit) s (lower_bound_of (record_key a s) db)
        (lower_bound_of-Holds codec a xs few s fits db h)
        (lower_bound_of-From codec a xs few s fits db h))
