-- ===== src/Chain/ResourceMeter/Disk.antt =====
-- Disk storage, which can be given back; and what the meter reports as used.
use teleno.Base.{
  Bool-cases, Option, Result, arith, bytes_key, err, if◌then◌else◌, inl, inr, ltb, nat_key, negsuc,
  none, ok, pair_key, pos, some, true, ℕ, ◌+ℤ◌, ◌+◌, ◌-ℤ◌, ◌-◌, ◌<◌, ◌>>=◌, ◌^◌, ◌≡◌, ◌≤◌,
}
use teleno.Chain.ResourceMeter.{
  Error, disk_storage_limit_exceeded, Session, Lane, use_storage, make_meter, use_disk_storage,
  fits_int64,
}
use teleno.Chain.ResourceMeter.Bounds.{plain_charge, scale-pos, InRange, charge_system-plain}

-- The use of storage without conversions.
abbrev pub plain_storage : ℕ → Lane → Option Session → Result Error (Lane × Option Session)
plain_storage n lane s = if ltb lane.remaining n then err disk_storage_limit_exceeded else do
  (lane', s') ← plain_charge n lane s
  ok (record lane' { remaining = lane'.remaining - n }, s')

-- On a lane in range, taking storage is the plain use.
pub use_storage-plain :
    (n : ℕ) (lane : Lane) (s : Option Session)
    → InRange lane
    → use_storage (pos n) lane s ≡ plain_storage n lane s
unfolding use_storage
use_storage-plain n lane none v = elim (Bool-cases (ltb lane.remaining n)) [
  | inl over ↦ rw over (ground arith)
  | inr free ↦ rw (free, charge_system-plain n v.used lane v.counted (ground arith)) (ground arith)
]
use_storage-plain n lane (some s) v = rw (scale-pos n lane.cost) (ground arith)

-- Past that no storage can be taken at all: the cast of what remains is negative.
pub use_storage_wraps :
    (n : ℕ) (lane : Lane) (s : Option Session)
    → 2 ^ 63 ≤ lane.remaining
    → lane.remaining < 2 ^ 64
    → use_storage (pos n) lane s ≡ err disk_storage_limit_exceeded
unfolding use_storage
use_storage_wraps n lane s low high = ground arith

-- A meter as it is constructed refuses every use of disk that is not negative, with a session or
-- without one.
pub make_meter_refuses :
    (n : ℕ) (s : Option Session)
    → use_disk_storage (pos n) make_meter s ≡ err disk_storage_limit_exceeded
unfolding use_disk_storage make_meter
make_meter_refuses n s = ground (arith, use_storage_wraps n make_meter.disk s)

fits_int64-back :
    (used n : ℕ) → used < 2 ^ 63 → n < 2 ^ 63 → fits_int64 (pos used +ℤ negsuc n) ≡ true
unfolding fits_int64
fits_int64-back used n fits lt = ground arith

-- Without a session, storage that is given back (a negative use) is there again, and comes off what
-- the system used; what the system used and what remained are below 2 ^ 63, the amount at most 2 ^ 63.
pub use_storage_back :
    (n used : ℕ) (lane : Lane)
    → lane.system_used ≡ pos used
    → used < 2 ^ 63
    → lane.remaining < 2 ^ 63
    → n < 2 ^ 63
    → use_storage (negsuc n) lane none
      ≡ ok (
        record lane {
          remaining = lane.remaining + n + 1;
          system_used = lane.system_used -ℤ pos (n + 1);
        },
        none,
      )
unfolding use_storage
use_storage_back n used lane e fits lt lt' = rw (e, fits_int64-back used n fits lt') (ground arith)
