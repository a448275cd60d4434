-- ===== src/StateDb/Node/Laws.antt =====
-- What the objects of a node read after each operation, and the bytes that it reports.
use teleno.Base.{
  Bool, Bytes, Option, arith, beq_refl, bytes_key, false, length, nat_key, none, ok, pair_key, some,
  sub_ℕ, true, ℕ, ℤ, ◌+◌, ◌<?◌, ◌<◌, ◌==◌, ◌≡◌,
}
use teleno.StateDb.Delta.{Delta, Fields, child, fields, find, put, erase}
use teleno.StateDb.Delta.Find.{find-put, find-erase}
use teleno.StateDb.Node.{
  ObjectSpace, space_less, put_object, remove_object, bytes_put, bytes_removed,
}

-- The bytes that a key and its object take.
abbrev pub charge : Bytes → Option Bytes → ℕ
charge key_string none = 0
charge key_string (some v) = length key_string + length v

bytes_put_lem :
    (k v : Bytes) (o : Option Bytes) → bytes_put k v o ≡ sub_ℕ (charge k (some v)) (charge k o)
unfolding bytes_put
bytes_put_lem k v none = ground arith
bytes_put_lem k v (some w) = ground arith

bytes_removed_lem :
    (k : Bytes) (o : Option Bytes) → bytes_removed k o ≡ sub_ℕ (charge k none) (charge k o)
unfolding bytes_removed
bytes_removed_lem k none = ground arith
bytes_removed_lem k (some w) = ground arith

-- A node after an operation on one key that returned `n`: the key reads as `o`, every other key as
-- before, and `n` is the change in the bytes that the key takes.
pub record Wrote (key_string : Bytes) (o : Option Bytes) (d : Delta) (n : ℤ) (e : Delta)
    : Type 0 where
  pub reads : find e key_string ≡ o
  pub others : (j : Bytes) → (key_string == j) ≡ false → find e j ≡ find d j
  pub change : n ≡ sub_ℕ (charge key_string o) (charge key_string (find d key_string))

module _ (encode : ObjectSpace → Bytes → Bytes) where
  -- A write to a node that is not finalized succeeds: the key then reads as the value, every other
  -- key as before, and the result is the change in the bytes that the key takes.
  pub put_object-Wrote :
      (s : ObjectSpace) (k v : Bytes) (d : Delta)
      → (fields d).finalized ≡ false
      → (n : ℤ) × (e : Delta) × (put_object encode s k v d ≡ ok (n, e))
        × Wrote (encode s k) (some v) d n e
  unfolding put_object
  put_object-Wrote s k v d h = (
    bytes_put (encode s k) v (find d (encode s k)),
    put (encode s k) v d,
    rw h,
    record {
      reads = rw (find-put (encode s k) (encode s k) v d, beq_refl (encode s k));
      others = λ j ne. rw (find-put (encode s k) j v d, ne);
      change = bytes_put_lem (encode s k) v (find d (encode s k));
    },
  )

  -- A removal from a node that is not finalized succeeds, with or without a tombstone: the key then
  -- reads as absent, every other key as before, and the result is the change in the bytes that the
  -- key takes.
  pub remove_object-Wrote :
      (s : ObjectSpace) (k : Bytes) (t : Bool) (d : Delta)
      → (fields d).finalized ≡ false
      → (n : ℤ) × (e : Delta) × (remove_object encode s k t d ≡ ok (n, e))
        × Wrote (encode s k) none d n e
  unfolding remove_object
  remove_object-Wrote s k t d h = (
    bytes_removed (encode s k) (find d (encode s k)),
    erase (encode s k) t d,
    rw h,
    record {
      reads = rw (find-erase (encode s k) (encode s k) t d, beq_refl (encode s k));
      others = λ j ne. rw (find-erase (encode s k) j t d, ne);
      change = bytes_removed_lem (encode s k) (find d (encode s k));
    },
  )

find-over :
    (f : Fields) (q p : Delta) (k : Bytes)
    → find q k ≡ find (child f p) k
    → find (child f q) k ≡ find (child f p) k
unfolding find
find-over f q p k e = ground arith

-- Two object spaces of one system flag, whose zones and ids are ordered the opposite way round, are
-- each below the other in `operator<`.
pub space_less_both :
    (a b : ObjectSpace)
    → a.system ≡ b.system
    → (b.zone <? a.zone) ≡ true
    → a.id < b.id
    → (space_less a b ≡ true) × (space_less b a ≡ true)
unfolding space_less
space_less_both a b s z i = ground arith
