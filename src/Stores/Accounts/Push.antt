-- ===== src/Stores/Accounts/Push.antt =====
-- One more record of one address: what `next_sequence` and `store_record` do to the records of all.
use teleno.Stores.Accounts.Seq.{length-encode_bytes, encode_seq-lem}
use teleno.Base.{
  Bool-cases, Bytes, List, [], ap, arith, beq-false_sym, beq_refl, bytes_beq_iff, bytes_key, false,
  get_elem?, get_elem?-lt, if◌then◌else◌, inl, inr, length, length-append, nat_key, refl, some,
  some_inj, subst, suc, sym, true, zero, ℕ, ◌++◌, ◌+◌, ◌<◌, ◌==◌, ◌^◌, ◌∙◌, ◌∷◌, ◌≡◌, ◌⊎◌,
}
use teleno.StdMap
use teleno.StdMap.{Map, IsSorted, IsSorted-insert, lookup-insert}
use teleno.Stores.Messages.{Codec}
use teleno.Stores.Accounts.{Item, encode_seq, meta_key, in_prefix, current_sequence}
use teleno.Stores.Accounts.Keys.{
  IsAddress, in_prefix-same, in_prefix-record_key, record_key-meta_key, record_key, beq-record_key,
}
use teleno.Stores.Accounts.Query.{Holds}

get_elem?-snoc :
    (xs : List Item) (x y : Item) (i : ℕ)
    → get_elem? (xs ++ x ∷ []) i ≡ some y
    → (get_elem? xs i ≡ some y) ⊎ (i ≡ length xs) × (x ≡ y)
get_elem?-snoc [] x y zero h = inr (refl, some_inj x y h)
get_elem?-snoc [] x y (suc i) h = absurd (ground (arith, h))
get_elem?-snoc (z ∷ xs) x y zero h = inl h
get_elem?-snoc (z ∷ xs) x y (suc i) h = elim (get_elem?-snoc xs x y i h) [
  | inl e ↦ inl e
  | inr (e, f) ↦ inr (omega (arith, e), f)
]

module _ (codec : Codec Item Bytes) (size : ℕ) where
  pub record IsLog (log : Bytes → List Item) (db : Map Bytes Bytes) : Type 0 where
    pub holds : (a : Bytes) → IsAddress size a → Holds codec a (log a) 0 db
    pub counts : (a : Bytes) → IsAddress size a → current_sequence a db ≡ length (log a)

  abbrev pub push : Bytes → Item → (Bytes → List Item) → Bytes → List Item
  push a x log b = if a == b then log b ++ x ∷ [] else log b

  -- The database with one record more.
  abbrev pub pushed : Bytes → ℕ → Item → Map Bytes Bytes → Map Bytes Bytes
  pushed a n x db =
      StdMap.insert_or_assign (record_key a n) (codec.serialize x)
        (StdMap.insert_or_assign (meta_key a) (encode_seq (n + 1)) db)

  lookup-pushed :
      (a k : Bytes) (n : ℕ) (x : Item) (db : Map Bytes Bytes)
      → StdMap.lookup k (pushed a n x db) ≡ (
          if record_key a n == k
          then some (codec.serialize x)
          else if meta_key a == k
          then some (encode_seq (n + 1))
          else StdMap.lookup k db)
  lookup-pushed a k n x db =
      lookup-insert (record_key a n) k (codec.serialize x) _
      ∙ ap (λ r. if record_key a n == k then some (codec.serialize x) else r)
          (lookup-insert (meta_key a) k (encode_seq (n + 1)) db)

  module _ (log : Bytes → List Item) (db : Map Bytes Bytes) (l : IsLog log db) (a : Bytes)
      (x : Item) (h : IsAddress size a) (room : length (log a) + 1 < 2 ^ 64) where
    -- Another address than `a` keeps its keys and gets none.
    other-record :
        (b : Bytes) (j : ℕ)
        → IsAddress size b
        → (a == b) ≡ false
        → (record_key a (length (log a)) == record_key b j) ≡ false
    other-record b j hb other =
        elim (Bool-cases (record_key a (length (log a)) == record_key b j)) [
          | inr e ↦ e
          | inl same ↦
              let e = (bytes_beq_iff (record_key a (length (log a))) (record_key b j)).0 same in
              let pre = ap (in_prefix b) e ∙ in_prefix-record_key b j in
              let eq = in_prefix-same a b _ (h.has_size ∙ sym hb.has_size) pre in
              absurd (ground (arith, other, (bytes_beq_iff a b).1 eq))
        ]

    -- What a key of an address holds, unless it is the new one, was there before.
    unpushed :
        (b k v : Bytes)
        → IsAddress size b
        → (record_key a (length (log a)) == k) ≡ false
        → StdMap.lookup k (pushed a (length (log a)) x db) ≡ some v
        → in_prefix b k ≡ true
        → StdMap.lookup k db ≡ some v
    unpushed b k v hb no_record found pre = elim (Bool-cases (meta_key a == k)) [
      | inl same ↦
          let e = (bytes_beq_iff (meta_key a) k).0 same in
          absurd (ground (arith, pre, hb.plain a, ap (in_prefix b) e))
      | inr other ↦
          let at = lookup-pushed a k (length (log a)) x db in
          ground (arith, at, found, no_record, other)
    ]

    other-Holds :
        (b : Bytes)
        → IsAddress size b
        → (a == b) ≡ false
        → Holds codec b (log b) 0 (pushed a (length (log a)) x db)
    other-Holds b hb other =
        let old = l.holds b hb in
        record {
          sorted = IsSorted-insert _ _ _ (IsSorted-insert _ _ db old.sorted);
          records = λ j y le g.
              lookup-pushed a (record_key b j) (length (log a)) x db
              ∙ ground (
                arith,
                other-record b j hb other,
                record_key-meta_key size b a j hb,
                beq-false_sym (record_key b j) (meta_key a),
                old.records j y le g,
              );
          only = λ k v found pre. elim (Bool-cases (record_key a (length (log a)) == k)) [
            | inl same ↦
                let e = (bytes_beq_iff (record_key a (length (log a))) k).0 same in
                let eq =
                  in_prefix-same a b _ (h.has_size ∙ sym hb.has_size) (ap (in_prefix b) e ∙ pre) in
                absurd (ground (arith, other, (bytes_beq_iff a b).1 eq))
            | inr no_record ↦ old.only k v (unpushed b k v hb no_record found pre) pre
          ];
        }

    own-Holds : Holds codec a (log a ++ x ∷ []) 0 (pushed a (length (log a)) x db)
    own-Holds =
        let old = l.holds a h in
        record {
          sorted = IsSorted-insert _ _ _ (IsSorted-insert _ _ db old.sorted);
          records = λ j y le g.
              lookup-pushed a (record_key a j) (length (log a)) x db
              ∙ elim (get_elem?-snoc (log a) x y j g) [
                | inl before ↦
                    let lt = get_elem?-lt (log a) j y before in
                    let other : (record_key a (length (log a)) == record_key a j) ≡ false =
                      beq-record_key a (length (log a)) j (omega (arith, room))
                        (omega (arith, room, lt))
                      ∙ ground (arith, lt) in
                    ground (
                      arith,
                      other,
                      record_key-meta_key size a a j h,
                      beq-false_sym (record_key a j) (meta_key a),
                      old.records j y le before,
                    )
                | inr (at, e) ↦
                    let same : (record_key a (length (log a)) == record_key a j) ≡ true =
                      ap (λ i. record_key a (length (log a)) == record_key a i) at
                      ∙ beq_refl (record_key a (length (log a))) in
                    rw same (ap (λ z. some (codec.serialize z)) e)
              ];
          only = λ k v found pre. elim (Bool-cases (record_key a (length (log a)) == k)) [
            | inl same ↦ (
              length (log a),
              omega arith,
              omega (arith, length-append (log a) (x ∷ [])),
              sym ((bytes_beq_iff (record_key a (length (log a))) k).0 same),
            )
            | inr no_record ↦
                let (j, le, lt, e) = old.only k v (unpushed a k v h no_record found pre) pre in
                (j, le, omega (arith, lt, length-append (log a) (x ∷ [])), e)
          ];
        }

    current_sequence-some :
        (n : ℕ) (b : Bytes) (m : Map Bytes Bytes)
        → n < 2 ^ 64
        → StdMap.lookup (meta_key b) m ≡ some (encode_seq n)
        → current_sequence b m ≡ n
    unfolding current_sequence encode_seq
    current_sequence-some n b m fits e =
        ground (arith, e, length-encode_bytes 8 n, (encode_seq-lem n n fits fits).0)

    current_sequence-same :
        (b : Bytes) (m : Map Bytes Bytes)
        → StdMap.lookup (meta_key b) m ≡ StdMap.lookup (meta_key b) db
        → current_sequence b m ≡ current_sequence b db
    unfolding current_sequence
    current_sequence-same b m e = ground (arith, e)

    pushed-counts :
        (b : Bytes)
        → IsAddress size b
        → current_sequence b (pushed a (length (log a)) x db) ≡ length (push a x log b)
    pushed-counts b hb =
        let n = length (log a) in
        let at = lookup-pushed a (meta_key b) n x db in
        let no_record = record_key-meta_key size a b n h in
        elim (Bool-cases (a == b)) [
          | inl same ↦
              let e = (bytes_beq_iff a b).0 same in
              let kept : StdMap.lookup (meta_key b) (pushed a n x db) ≡ some (encode_seq (n + 1)) =
                at ∙ ground (arith, no_record, same) in
              current_sequence-some (n + 1) b (pushed a n x db) room kept
              ∙ rw same (omega (arith, length-append (log b) (x ∷ []), ap (λ c. length (log c)) e))
          | inr other ↦
              let kept : StdMap.lookup (meta_key b) (pushed a n x db)
                  ≡ StdMap.lookup (meta_key b) db =
                at ∙ ground (arith, no_record, other) in
              current_sequence-same b (pushed a n x db) kept ∙ l.counts b hb ∙ rw other refl
        ]

    push-Holds :
        (b : Bytes)
        → IsAddress size b
        → Holds codec b (push a x log b) 0 (pushed a (length (log a)) x db)
    push-Holds b hb = elim (Bool-cases (a == b)) [
      | inl same ↦ rw same (
          subst (λ c. Holds codec c (log c ++ x ∷ []) 0 (pushed a (length (log a)) x db))
            ((bytes_beq_iff a b).0 same) own-Holds)
      | inr other ↦ rw other (other-Holds b hb other)
    ]

    pub push-IsLog : IsLog (push a x log) (pushed a (length (log a)) x db)
    push-IsLog = record { holds = push-Holds; counts = pushed-counts }
