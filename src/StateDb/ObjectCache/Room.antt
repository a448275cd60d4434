-- ===== src/StateDb/ObjectCache/Room.antt =====
-- The loop that makes room for an entry, and the entry that is then put in front.
use teleno.Base.{
  Bool-cases, Bytes, List, Option, Option-cases, [], ap, append-nil, append_assoc, arith, beq_refl,
  bytes_beq_iff, bytes_key, false, inl, inr, leb, leb→le, length, nat_key, none, ok, refl, some,
  subst, suc, sym, true, zero, ℕ, ◌%◌, ◌++◌, ◌+◌, ◌<◌, ◌==◌, ◌^◌, ◌∙◌, ◌∷◌, ◌≡◌, ◌≤◌,
}
use teleno.StdMap.{Map, lookup, lookup-insert}
use teleno.StateDb.Delta.{contains, set_erase}
use teleno.StateDb.Delta.Find.{contains-set_erase}
use teleno.StateDb.ObjectCache.{Cache, entry_size, remove, back, make_room, push_front}
use teleno.StateDb.ObjectCache.Laws.{
  max-remove, total, AllDistinct, lookup-remove, remove-IsValid, total-insert, IsValid,
}

pub back_in : (k : Bytes) (ks : List Bytes) → back ks ≡ some k → contains k ks ≡ true
unfolding back contains
back_in k [] e = absurd (ground arith)
back_in k (j ∷ ks) e = ground (arith, back_in k ks, beq_refl j)

-- What is dropped to make room is the end of the list: a front part of it is left.
pub record Roomy (size : ℕ) (c d : Cache) : Type 0 where
  pub valid : IsValid d
  pub room : d.cache_size + size ≤ d.cache_max_size
  pub same_max : d.cache_max_size ≡ c.cache_max_size
  pub fewer : (j : Bytes) → contains j c.lru_list ≡ false → contains j d.lru_list ≡ false
  pub kept :
      (j : Bytes) → contains j d.lru_list ≡ true → lookup j d.object_map ≡ lookup j c.object_map
  pub dropped : List Bytes
  pub front : c.lru_list ≡ d.lru_list ++ dropped

room_test :
    (size : ℕ) (c : Cache)
    → IsValid c
    → size ≤ c.cache_max_size
    → (c.cache_size + size) % 2 ^ 64 ≡ c.cache_size + size
room_test size c w le = omega (arith, w.bound, w.machine)

length-set_erase-le : (k : Bytes) (s : List Bytes) → length (set_erase k s) ≤ length s
unfolding set_erase
length-set_erase-le k [] = omega arith
length-set_erase-le k (j ∷ s) = ground (arith, length-set_erase-le k s)

length-set_erase :
    (k : Bytes) (s : List Bytes) → contains k s ≡ true → length (set_erase k s) < length s
unfolding set_erase contains
length-set_erase k [] h = absurd (ground arith)
length-set_erase k (j ∷ s) h = ground (arith, length-set_erase k s, length-set_erase-le k s)

pub length-remove :
    (k : Bytes) (c : Cache)
    → IsValid c
    → contains k c.lru_list ≡ true
    → length (remove k c).lru_list < length c.lru_list
unfolding remove
length-remove k c w h = ground (arith, w.held k, length-set_erase k c.lru_list h)

contains-remove :
    (k j : Bytes) (c : Cache)
    → contains j c.lru_list ≡ false
    → contains j (remove k c).lru_list ≡ false
unfolding remove
contains-remove k j c h = ground (arith, contains-set_erase k j c.lru_list)

pub total-back : (ks : List Bytes) (m : Map Bytes (Option Bytes)) → back ks ≡ none → total ks m ≡ 0
unfolding back total
total-back [] m e = refl
total-back (k ∷ ks) m e = absurd (ground arith)

remove_last :
    (k : Bytes) (s : List Bytes) → AllDistinct s → back s ≡ some k → s ≡ set_erase k s ++ (k ∷ [])
unfolding back set_erase contains
remove_last k [] d e = absurd (ground arith)
remove_last k (j ∷ []) d e = ground (arith, beq_refl j)
remove_last k (j ∷ i ∷ s) d e =
    let next : back (i ∷ s) ≡ some k = ground arith in
    let ne : (j == k) ≡ false = ground (arith, back_in k (i ∷ s) next, bytes_beq_iff j k) in
    rw ne (ap (λ x. j ∷ x) (remove_last k (i ∷ s) d.1 next))

lru_list-remove :
    (k : Bytes) (c : Cache)
    → IsValid c
    → contains k c.lru_list ≡ true
    → (remove k c).lru_list ≡ set_erase k c.lru_list
unfolding remove
lru_list-remove k c w h = ground (arith, w.held k)

lookup_kept :
    (k j : Bytes) (c : Cache)
    → IsValid c
    → contains k c.lru_list ≡ true
    → contains j (remove k c).lru_list ≡ true
    → lookup j (remove k c).object_map ≡ lookup j c.object_map
lookup_kept k j c w held h =
    ground
      (arith, lookup-remove k j c, lru_list-remove k c w held, contains-set_erase k j c.lru_list)

Roomy-remove :
    (k : Bytes) (size : ℕ) (c d : Cache)
    → IsValid c
    → back c.lru_list ≡ some k
    → Roomy size (remove k c) d
    → Roomy size c d
Roomy-remove k size c d w e r =
    let held = back_in k c.lru_list e in
    record {
      valid = r.valid;
      room = r.room;
      same_max = r.same_max ∙ max-remove k c;
      fewer = λ j h. r.fewer j (contains-remove k j c h);
      kept = λ j h. elim (Bool-cases (contains j (remove k c).lru_list)) [
        | inl there ↦ r.kept j h ∙ lookup_kept k j c w held there
        | inr gone ↦ absurd (ground (arith, r.fewer j gone))
      ];
      dropped = r.dropped ++ (k ∷ []);
      front =
          remove_last k c.lru_list w.distinct e
          ∙ ap (λ x. x ++ (k ∷ [])) (sym (lru_list-remove k c w held) ∙ r.front)
          ∙ append_assoc d.lru_list r.dropped (k ∷ []);
    }

-- With fuel for every key of the list, the loop ends with room for the entry.
pub make_room-Roomy :
    (fuel size : ℕ) (c : Cache)
    → IsValid c
    → size ≤ c.cache_max_size
    → length c.lru_list < fuel
    → (d : Cache) × (make_room fuel size c ≡ ok d) × Roomy size c d
unfolding make_room
make_room-Roomy zero size c w le lt = absurd (omega arith)
make_room-Roomy (suc fuel) size c w le lt =
    let z = room_test size c w le in
    elim (Bool-cases (leb ((c.cache_size + size) % 2 ^ 64) c.cache_max_size)) [
      | inl fits ↦ (
        c,
        ground arith,
        record {
          valid = w;
          room = subst (λ x. x ≤ c.cache_max_size) z (leb→le _ _ fits);
          same_max = refl;
          fewer = λ j h. h;
          kept = λ j h. refl;
          dropped = [];
          front = sym (append-nil c.lru_list);
        },
      )
      | inr full ↦ elim (Option-cases (back c.lru_list)) [
        | inl e ↦ absurd (ground (arith, total-back c.lru_list c.object_map e, w.sized, z))
        | inr (k, e) ↦
            let (d, run, r) =
              make_room-Roomy fuel size (remove k c) (remove-IsValid k c w) (rw (max-remove k c) le)
                (omega (arith, length-remove k c w (back_in k c.lru_list e))) in
            (d, ground (arith, run, e), Roomy-remove k size c d w e r)
      ]
    ]

pub push_front-IsValid :
    (k : Bytes) (v : Option Bytes) (c d : Cache)
    → Roomy (entry_size k v) c d
    → contains k c.lru_list ≡ false
    → IsValid (push_front k v d)
unfolding push_front total contains
push_front-IsValid k v c d r h =
    let out = r.fewer k h in
    record {
      distinct = (out, r.valid.distinct);
      held =
          λ j. ground (arith, lookup-insert k j v d.object_map, bytes_beq_iff k j, r.valid.held j);
      sized = ground (
        arith,
        lookup-insert k k v d.object_map,
        beq_refl k,
        total-insert k v d.lru_list d.object_map out,
        r.room,
        r.valid.sized,
        r.valid.machine,
      );
      bound = omega (arith, r.room, r.valid.machine);
      machine = r.valid.machine;
    }
