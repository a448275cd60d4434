-- ===== src/StateDb/ObjectCache/Put.antt =====
-- What `put`, `get` and `clear` leave of the cache.
use teleno.Base.{
  Bytes, List, Option, Option-cases, arith, beq_refl, bytes_key, err, false, inl, inr, leb, length,
  nat_key, ok, refl, some, suc, true, zero, ℕ, ◌%◌, ◌++◌, ◌+◌, ◌<◌, ◌==◌, ◌^◌, ◌∷◌, ◌≡◌, ◌≤◌,
}
use teleno.StdMap.{lookup, lookup-insert}
use teleno.StateDb.Delta.{contains}
use teleno.StateDb.ObjectCache.{
  back, Cache, entry_size, remove, make_room, push_front, put, clear, pop_empty,
}
use teleno.StateDb.ObjectCache.Laws.{max-remove, IsValid, remove-IsValid, lookup-remove}
use teleno.StateDb.ObjectCache.Room.{
  push_front-IsValid, make_room-Roomy, length-remove, back_in, Roomy,
}

-- A cache after a value was put into it.
pub record Stored (k : Bytes) (v : Option Bytes) (c d : Cache) : Type 0 where
  pub valid : IsValid d
  pub reads : lookup k d.object_map ≡ some v
  pub others :
      (j : Bytes)
      → (k == j) ≡ false
      → contains j d.lru_list ≡ true
      → lookup j d.object_map ≡ lookup j c.object_map
  pub left : List Bytes
  pub dropped : List Bytes
  pub newest : d.lru_list ≡ k ∷ left
  pub oldest : (remove k c).lru_list ≡ left ++ dropped

absent-remove : (k : Bytes) (c : Cache) → IsValid c → contains k (remove k c).lru_list ≡ false
absent-remove k c w =
    let w' = remove-IsValid k c w in ground (arith, w'.held k, lookup-remove k k c, beq_refl k)

put-Stored_of :
    (k : Bytes) (v : Option Bytes) (c d : Cache)
    → IsValid c
    → Roomy (entry_size k v) (remove k c) d
    → Stored k v c (push_front k v d)
unfolding push_front contains
put-Stored_of k v c d w r = record {
  valid = push_front-IsValid k v (remove k c) d r (absent-remove k c w);
  reads = ground (arith, lookup-insert k k v d.object_map, beq_refl k);
  others =
      λ j ne h. ground (arith, lookup-insert k j v d.object_map, r.kept j, lookup-remove k j c);
  left = d.lru_list;
  dropped = r.dropped;
  newest = refl;
  oldest = r.front;
}

-- Putting an entry that the whole cache could hold succeeds and keeps the invariant: the key reads
-- as the value and is the newest, what is dropped to make room is the oldest part of the list, and
-- every other key that is left reads as before.
pub put-Stored :
    (k : Bytes) (v : Option Bytes) (c : Cache)
    → IsValid c
    → entry_size k v ≤ c.cache_max_size
    → (d : Cache) × (put k v c ≡ ok d) × Stored k v c d
unfolding put
put-Stored k v c w le =
    let (d, run, r) =
      make_room-Roomy (suc (length (remove k c).lru_list)) (entry_size k v) (remove k c)
        (remove-IsValid k c w) (rw (max-remove k c) le) (omega arith) in
    (push_front k v d, rw run, put-Stored_of k v c d w r)

make_room_too_large :
    (fuel size : ℕ) (c : Cache)
    → IsValid c
    → c.cache_max_size < size
    → size < 2 ^ 63
    → length c.lru_list < fuel
    → make_room fuel size c ≡ err pop_empty
unfolding make_room
make_room_too_large zero size c w large fits lt = absurd (omega arith)
make_room_too_large (suc fuel) size c w large fits lt =
    let z : (c.cache_size + size) % 2 ^ 64 ≡ c.cache_size + size =
      omega (arith, w.bound, w.machine) in
    let full : leb ((c.cache_size + size) % 2 ^ 64) c.cache_max_size ≡ false =
      rw z (ground arith) in
    elim (Option-cases (back c.lru_list)) [
      | inl e ↦ ground arith
      | inr (k, e) ↦
          let again =
            make_room_too_large fuel size (remove k c) (remove-IsValid k c w)
              (rw (max-remove k c) large) fits
              (omega (arith, length-remove k c w (back_in k c.lru_list e))) in
          ground arith
    ]

-- Putting an entry larger than the whole cache drops every other entry and then takes the back of
-- the empty list, which is undefined.
pub put_too_large :
    (k : Bytes) (v : Option Bytes) (c : Cache)
    → IsValid c
    → c.cache_max_size < entry_size k v
    → entry_size k v < 2 ^ 63
    → put k v c ≡ err pop_empty
unfolding put
put_too_large k v c w large fits = rw (
    make_room_too_large (suc (length (remove k c).lru_list)) (entry_size k v) (remove k c)
      (remove-IsValid k c w) (rw (max-remove k c) large) fits (omega arith))

remove-clear : (k : Bytes) (c : Cache) → remove k (clear c) ≡ clear c
unfolding remove clear lookup
remove-clear k c = refl

make_room_cleared :
    (size : ℕ) (c : Cache)
    → IsValid c
    → size ≤ c.cache_max_size
    → c.cache_max_size < c.cache_size + size
    → make_room (suc (length (clear c).lru_list)) size (clear c) ≡ err pop_empty
unfolding make_room clear back
make_room_cleared size c w le over =
    let z : (c.cache_size + size) % 2 ^ 64 ≡ c.cache_size + size =
      omega (arith, w.bound, w.machine) in
    let full : leb ((c.cache_size + size) % 2 ^ 64) c.cache_max_size ≡ false =
      rw z (ground arith) in
    ground arith

-- `clear` keeps the size of what it drops: after it, an entry that no longer fits beside that size
-- makes `put` take the back of the empty list, which is undefined.
pub put-clear :
    (k : Bytes) (v : Option Bytes) (c : Cache)
    → IsValid c
    → entry_size k v ≤ c.cache_max_size
    → c.cache_max_size < c.cache_size + entry_size k v
    → put k v (clear c) ≡ err pop_empty
unfolding put
put-clear k v c w le over = rw (remove-clear k c, make_room_cleared (entry_size k v) c w le over)
