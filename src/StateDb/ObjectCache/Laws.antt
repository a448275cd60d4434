-- ===== src/StateDb/ObjectCache/Laws.antt =====
-- What holds of the cache between its operations, and that they keep it.
use teleno.Base.{
  Bool-cases, Bytes, List, Option, Option-cases, [], arith, beq-false_sym, beq_refl, bytes_beq_iff,
  bytes_key, false, if◌then◌else◌, inl, inr, is_some, nat_key, none, refl, some, subst, sym, true,
  ℕ, ◌%◌, ◌+◌, ◌-◌, ◌<◌, ◌==◌, ◌^◌, ◌∷◌, ◌≡◌, ◌≤◌,
}
use teleno.StdMap.{Map, lookup, insert_or_assign, erase, lookup-insert, lookup-erase}
use teleno.StateDb.Delta.{contains, set_erase}
use teleno.StateDb.Delta.Find.{contains-set_erase}
use teleno.StateDb.ObjectCache.{Cache, entry_size, remove}

-- The size of what the list names.
unfoldable pub total : List Bytes → Map Bytes (Option Bytes) → ℕ
unfolding lookup entry_size
total [] m = 0
total (k ∷ ks) m = elim (lookup k m) [ none ↦ total ks m | some v ↦ entry_size k v + total ks m ]

abbrev pub AllDistinct : List Bytes → Type 0
AllDistinct [] = Unit
AllDistinct (k ∷ ks) = (contains k ks ≡ false) × AllDistinct ks

-- The list names each key of the map once, the size is that of the entries, and it is in bounds.
pub record IsValid (c : Cache) : Type 0 where
  pub distinct : AllDistinct c.lru_list
  pub held : (k : Bytes) → contains k c.lru_list ≡ is_some (lookup k c.object_map)
  pub sized : c.cache_size ≡ total c.lru_list c.object_map
  pub bound : c.cache_size ≤ c.cache_max_size
  pub machine : c.cache_max_size < 2 ^ 63

pub AllDistinct-set_erase :
    (k : Bytes) (s : List Bytes) → AllDistinct s → AllDistinct (set_erase k s)
unfolding set_erase
AllDistinct-set_erase k [] h = tt
AllDistinct-set_erase k (j ∷ s) h =
    ground (arith, AllDistinct-set_erase k s h.1, contains-set_erase k j s)

total-other :
    (ks : List Bytes) (m n : Map Bytes (Option Bytes))
    → ((j : Bytes) → contains j ks ≡ true → lookup j m ≡ lookup j n)
    → total ks m ≡ total ks n
unfolding total contains
total-other [] m n h = refl
total-other (k ∷ ks) m n h =
    ground (arith, total-other ks m n (λ j i. h j (ground arith)), h k, beq_refl k)

set_erase-absent : (k : Bytes) (s : List Bytes) → contains k s ≡ false → set_erase k s ≡ s
unfolding set_erase contains
set_erase-absent k [] h = refl
set_erase-absent k (j ∷ s) h = ground (arith, set_erase-absent k s, bytes_beq_iff j k)

-- Erasing a key that the list does not name does not change the total.
pub total-erase :
    (k : Bytes) (ks : List Bytes) (m : Map Bytes (Option Bytes))
    → contains k ks ≡ false
    → total ks (erase k m) ≡ total ks m
total-erase k ks m h =
    total-other ks (erase k m) m (λ j i. ground (arith, lookup-erase k j m, bytes_beq_iff k j))

pub total-insert :
    (k : Bytes) (v : Option Bytes) (ks : List Bytes) (m : Map Bytes (Option Bytes))
    → contains k ks ≡ false
    → total ks (insert_or_assign k v m) ≡ total ks m
total-insert k v ks m h =
    total-other ks (insert_or_assign k v m) m
      (λ j i. ground (arith, lookup-insert k j v m, bytes_beq_iff k j))

-- Removing a key that is held takes its entry off the total.
pub total-remove :
    (k : Bytes) (v : Option Bytes) (ks : List Bytes) (m : Map Bytes (Option Bytes))
    → AllDistinct ks
    → contains k ks ≡ true
    → lookup k m ≡ some v
    → total (set_erase k ks) (erase k m) + entry_size k v ≡ total ks m
unfolding total contains set_erase
total-remove k v [] m d h e = absurd (ground arith)
total-remove k v (j ∷ ks) m d h e = elim (Bool-cases (j == k)) [
  | inl same ↦ ground (arith, (bytes_beq_iff j k).0 same, set_erase-absent k ks, total-erase k ks m)
  | inr other ↦
      ground (arith, total-remove k v ks m d.1, lookup-erase k j m, beq-false_sym j k other)
]

abbrev removed : Bytes → Option Bytes → Cache → Cache
removed k v c = record c {
  lru_list = set_erase k c.lru_list;
  object_map = erase k c.object_map;
  cache_size = (c.cache_size + 2 ^ 64 - entry_size k v) % 2 ^ 64;
}

remove_absent : (k : Bytes) (c : Cache) → lookup k c.object_map ≡ none → remove k c ≡ c
unfolding remove
remove_absent k c e = ground arith

remove_held :
    (k : Bytes) (v : Option Bytes) (c : Cache)
    → lookup k c.object_map ≡ some v
    → remove k c ≡ removed k v c
unfolding remove
remove_held k v c e = ground arith

removed-IsValid :
    (k : Bytes) (v : Option Bytes) (c : Cache)
    → IsValid c
    → lookup k c.object_map ≡ some v
    → IsValid (removed k v c) × ((removed k v c).cache_size + entry_size k v ≡ c.cache_size)
removed-IsValid k v c w e =
    let t = total-remove k v c.lru_list c.object_map w.distinct (ground (arith, w.held k)) e in
    let z : (removed k v c).cache_size + entry_size k v ≡ c.cache_size =
      omega (arith, t, w.sized, w.bound, w.machine) in
    (
      record {
        distinct = AllDistinct-set_erase k c.lru_list w.distinct;
        held = λ j.
            ground
              (arith, w.held j, lookup-erase k j c.object_map, contains-set_erase k j c.lru_list);
        sized = omega (arith, t, w.sized, z);
        bound = omega (arith, z, w.bound);
        machine = w.machine;
      },
      z,
    )

-- `remove` keeps the invariant, whether the key is held or not.
pub remove-IsValid : (k : Bytes) (c : Cache) → IsValid c → IsValid (remove k c)
remove-IsValid k c w = elim (Option-cases (lookup k c.object_map)) [
  | inl e ↦ subst IsValid (sym (remove_absent k c e)) w
  | inr (v, e) ↦ subst IsValid (sym (remove_held k v c e)) (removed-IsValid k v c w e).0
]

-- Nothing but the key is touched.
pub lookup-remove :
    (k j : Bytes) (c : Cache)
    → lookup j (remove k c).object_map ≡ (if k == j then none else lookup j c.object_map)
unfolding remove
lookup-remove k j c = ground (arith, lookup-erase k j c.object_map, bytes_beq_iff k j)

pub max-remove : (k : Bytes) (c : Cache) → (remove k c).cache_max_size ≡ c.cache_max_size
unfolding remove
max-remove k c = ground arith
