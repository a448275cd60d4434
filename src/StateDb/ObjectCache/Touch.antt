-- ===== src/StateDb/ObjectCache/Touch.antt =====
-- A read of the cache: the value it finds, and the order of use that it leaves.
use teleno.Base.{
  Bytes, Option, Option-cases, arith, beq_refl, bytes_beq_iff, bytes_key, false, if◌then◌else◌, inl,
  inr, nat_key, none, refl, some, subst, sym, ◌∙◌, ◌∷◌, ◌≡◌,
}
use teleno.StdMap.{lookup, insert_or_assign, lookup-insert}
use teleno.StateDb.Delta.{contains, set_erase}
use teleno.StateDb.Delta.Find.{contains-set_erase}
use teleno.StateDb.ObjectCache.{Cache, get}
use teleno.StateDb.ObjectCache.Laws.{
  IsValid, AllDistinct-set_erase, total, total-remove, total-erase, total-insert,
}

-- A cache after a read of a key.
pub record Touched (k : Bytes) (c d : Cache) : Type 0 where
  pub valid : IsValid d
  pub same : (j : Bytes) → lookup j d.object_map ≡ lookup j c.object_map
  pub same_size : d.cache_size ≡ c.cache_size
  pub order :
      d.lru_list ≡ (if contains k c.lru_list then k ∷ set_erase k c.lru_list else c.lru_list)

abbrev touched : Bytes → Option Bytes → Cache → Cache
touched k v c = record c {
  lru_list = k ∷ set_erase k c.lru_list;
  object_map = insert_or_assign k v c.object_map;
}

same_lookup :
    (k j : Bytes) (v : Option Bytes) (c : Cache)
    → lookup k c.object_map ≡ some v
    → lookup j (insert_or_assign k v c.object_map) ≡ lookup j c.object_map
same_lookup k j v c e = ground (arith, lookup-insert k j v c.object_map, bytes_beq_iff k j)

total-touched :
    (k : Bytes) (v : Option Bytes) (c : Cache)
    → IsValid c
    → lookup k c.object_map ≡ some v
    → total (k ∷ set_erase k c.lru_list) (insert_or_assign k v c.object_map)
      ≡ total c.lru_list c.object_map
unfolding total
total-touched k v c w e =
    let out : contains k (set_erase k c.lru_list) ≡ false =
      ground (arith, contains-set_erase k k c.lru_list, beq_refl k) in
    ground (
      arith,
      same_lookup k k v c e,
      total-remove k v c.lru_list c.object_map w.distinct (ground (arith, w.held k)) e,
      total-erase k (set_erase k c.lru_list) c.object_map out,
      total-insert k v (set_erase k c.lru_list) c.object_map out,
    )

Touched-touched :
    (k : Bytes) (v : Option Bytes) (c : Cache)
    → IsValid c
    → lookup k c.object_map ≡ some v
    → Touched k c (touched k v c)
unfolding contains
Touched-touched k v c w e = record {
  valid = record {
    distinct = (
      ground (arith, contains-set_erase k k c.lru_list, beq_refl k),
      AllDistinct-set_erase k c.lru_list w.distinct,
    );
    held = λ j. ground (
      arith,
      w.held j,
      w.held k,
      same_lookup k j v c e,
      contains-set_erase k j c.lru_list,
      bytes_beq_iff k j,
    );
    sized = w.sized ∙ sym (total-touched k v c w e);
    bound = w.bound;
    machine = w.machine;
  };
  same = λ j. same_lookup k j v c e;
  same_size = refl;
  order = ground (arith, w.held k);
}

get_absent : (k : Bytes) (c : Cache) → lookup k c.object_map ≡ none → get k c ≡ (none, c)
unfolding get
get_absent k c e = ground arith

get_held :
    (k : Bytes) (v : Option Bytes) (c : Cache)
    → lookup k c.object_map ≡ some v
    → get k c ≡ (some v, touched k v c)
unfolding get
get_held k v c e = ground arith

-- `get` returns what the map holds for the key, keeps the invariant, the size and every value, and
-- moves the key to the front of the list if it is held.
pub get-Touched :
    (k : Bytes) (c : Cache)
    → IsValid c
    → ((get k c).0 ≡ lookup k c.object_map) × Touched k c (get k c).1
get-Touched k c w = elim (Option-cases (lookup k c.object_map)) [
  | inl e ↦
      subst (λ r. (r.0 ≡ lookup k c.object_map) × Touched k c r.1) (sym (get_absent k c e))
        (
          sym e,
          record {
            valid = w;
            same = λ j. refl;
            same_size = refl;
            order = ground (arith, w.held k);
          },
        )
  | inr (v, e) ↦
      subst (λ r. (r.0 ≡ lookup k c.object_map) × Touched k c r.1) (sym (get_held k v c e))
        (sym e, Touched-touched k v c w e)
]
