-- ===== src/Chain/ResourceMeter.antt =====
-- koinos/chain/resource_meter.cpp and the resource credits of session.cpp. `int64_t` is ℤ, and
-- `uint64_t` a number below 2 ^ 64; conversions between them are written out. The meter holds its
-- session weakly: the session is an argument, and comes back as the call leaves it.
pub mod Bounds
pub mod Disk
use teleno.Base.{
  Bool, Option, Result, bytes_key, if◌then◌else◌, koinos_assert, leb, leb_ℤ, ltb, ltb_ℤ, min,
  nat_key, neg_part, negsuc, none, ok, pair_key, pos, pos_part, some, sub_ℕ, suc, ℕ, ℤ, ◌%◌, ◌&&◌,
  ◌*◌, ◌+ℤ◌, ◌+◌, ◌-ℤ◌, ◌-◌, ◌/◌, ◌>>=◌, ◌>>◌, ◌^◌,
}

-- int64_t( u ) and uint64_t( z ).
unfoldable pub to_int64 : ℕ → ℤ
to_int64 u = if ltb u (2 ^ 63) then pos u else sub_ℕ u (2 ^ 64)

unfoldable pub to_uint64 : ℤ → ℕ
to_uint64 (pos n) = n % 2 ^ 64
to_uint64 (negsuc n) = (2 ^ 64 - 1 - n) % 2 ^ 64

-- int128_t( bytes ) * cost
abbrev pub scale : ℤ → ℕ → ℤ
scale z c = sub_ℕ (pos_part z * c) (neg_part z * c)

pub data Error : Type 0 where
  disk_storage_limit_exceeded network_bandwidth_limit_exceeded compute_bandwidth_limit_exceeded :
      Error
  reversion insufficient_rc : Error
  -- No exception of the source: the sum of two `int64_t` does not fit, which is undefined there.
  signed_overflow : Error

pub record Session : Type 0 where
  pub begin_rc : ℤ
  pub end_rc : ℤ

unfoldable pub open_session : ℤ → Session
open_session rc = record { begin_rc = rc; end_rc = rc }

unfoldable pub use_rc : ℤ → Session → Result Error Session
use_rc rc s = do
  koinos_assert (leb_ℤ rc s.end_rc) insufficient_rc
  ok (record s { end_rc = s.end_rc -ℤ rc })

abbrev min_ℤ : ℤ → ℤ → ℤ
min_ℤ a b = if ltb_ℤ b a then b else a

unfoldable pub remaining_rc : Session → ℕ
unfolding to_uint64
remaining_rc s = to_uint64 (min_ℤ s.begin_rc s.end_rc)

unfoldable pub used_rc : Session → ℕ
unfolding to_uint64
used_rc s = if ltb_ℤ s.begin_rc s.end_rc then 0 else to_uint64 (s.begin_rc -ℤ s.end_rc)

-- One of the three resources: what is left of it, what the system used, its limit and its cost.
pub record Lane : Type 0 where
  pub remaining : ℕ
  pub system_used : ℤ
  pub limit : ℕ
  pub cost : ℕ

unfoldable pub fresh_lane : ℕ → ℕ → Lane
fresh_lane limit cost = record {
  remaining = limit;
  system_used = pos 0;
  limit = limit;
  cost = cost;
}

pub record Meter : Type 0 where
  pub disk : Lane
  pub network : Lane
  pub compute : Lane

pub record Limits : Type 0 where
  pub disk_limit : ℕ
  pub disk_cost : ℕ
  pub network_limit : ℕ
  pub network_cost : ℕ
  pub compute_limit : ℕ
  pub compute_cost : ℕ

unfoldable pub set_resource_limit_data : Limits → Meter
unfolding fresh_lane
set_resource_limit_data l = record {
  disk = fresh_lane l.disk_limit l.disk_cost;
  network = fresh_lane l.network_limit l.network_cost;
  compute = fresh_lane l.compute_limit l.compute_cost;
}

-- The constructor: every limit is the largest `uint64_t`, every cost 0.
unfoldable pub make_meter : Meter
unfolding set_resource_limit_data
make_meter = set_resource_limit_data (record {
  disk_limit = 2 ^ 64 - 1;
  disk_cost = 0;
  network_limit = 2 ^ 64 - 1;
  network_cost = 0;
  compute_limit = 2 ^ 64 - 1;
  compute_cost = 0;
})

-- Is a sum of two `int64_t` one again?
unfoldable pub fits_int64 : ℤ → Bool
fits_int64 z = leb_ℤ (negsuc (2 ^ 63 - 1)) z && leb_ℤ z (pos (2 ^ 63 - 1))

-- The charge for an amount: to the session if there is one, to the system if not.
unfoldable pub charge : ℤ → Lane → Option Session → Result Error (Lane × Option Session)
unfolding use_rc
charge amount lane none = do
  let used = lane.system_used +ℤ amount
  koinos_assert (fits_int64 used) signed_overflow
  ok (record lane { system_used = used }, none)
charge amount lane (some s) = do
  let rc_cost = scale amount lane.cost
  koinos_assert (leb_ℤ rc_cost (pos (2 ^ 63 - 1))) reversion
  s' ← use_rc rc_cost s
  ok (lane, some s')

-- The source leaves `-1 * bytes` undefined for the least `int64_t`; it is 2 ^ 63 here.
abbrev take_off : ℤ → Lane → Lane
take_off (pos n) lane = record lane { remaining = (lane.remaining + 2 ^ 64 - n % 2 ^ 64) % 2 ^ 64 }
take_off (negsuc n) lane = record lane { remaining = (lane.remaining + suc n) % 2 ^ 64 }

-- The body of `use_disk_storage`.
unfoldable pub use_storage : ℤ → Lane → Option Session → Result Error (Lane × Option Session)
unfolding to_int64 charge
use_storage bytes lane s = do
  koinos_assert (leb_ℤ bytes (to_int64 lane.remaining)) disk_storage_limit_exceeded
  (lane', s') ← charge bytes lane s
  ok (take_off bytes lane', s')

-- The body of `use_network_bandwidth` and `use_compute_bandwidth`, which differ in the exception.
-- `bytes <= remaining` compares a signed with an unsigned number.
unfoldable pub use_bandwidth :
    Error → ℤ → Lane → Option Session → Result Error (Lane × Option Session)
unfolding to_uint64 charge
use_bandwidth exceeded amount lane s = do
  koinos_assert (leb (to_uint64 amount) lane.remaining) exceeded
  koinos_assert (leb_ℤ (pos 0) amount) exceeded
  (lane', s') ← charge amount lane s
  ok (record lane' { remaining = (lane'.remaining + 2 ^ 64 - to_uint64 amount) % 2 ^ 64 }, s')

unfoldable pub use_disk_storage : ℤ → Meter → Option Session → Result Error (Meter × Option Session)
unfolding use_storage
use_disk_storage bytes m s = do
  (lane, s') ← use_storage bytes m.disk s
  ok (record m { disk = lane }, s')

unfoldable pub use_network_bandwidth :
    ℤ → Meter → Option Session → Result Error (Meter × Option Session)
unfolding use_bandwidth
use_network_bandwidth bytes m s = do
  (lane, s') ← use_bandwidth network_bandwidth_limit_exceeded bytes m.network s
  ok (record m { network = lane }, s')

unfoldable pub use_compute_bandwidth :
    ℤ → Meter → Option Session → Result Error (Meter × Option Session)
unfolding use_bandwidth
use_compute_bandwidth ticks m s = do
  (lane, s') ← use_bandwidth compute_bandwidth_limit_exceeded ticks m.compute s
  ok (record m { compute = lane }, s')

-- `disk_storage_remaining`, and the same for the other two.
unfoldable pub lane_remaining : Lane → Option Session → ℕ
unfolding remaining_rc
lane_remaining lane none = lane.remaining
lane_remaining lane (some s) =
    if ltb 0 lane.cost then min (remaining_rc s / lane.cost) lane.remaining else lane.remaining

unfoldable pub disk_storage_used : Meter → ℕ
disk_storage_used m =
    if ltb m.disk.limit m.disk.remaining then 0 else m.disk.limit - m.disk.remaining

-- The difference is taken in `uint64_t`.
unfoldable pub bandwidth_used : Lane → ℕ
bandwidth_used lane = (lane.limit + 2 ^ 64 - lane.remaining) % 2 ^ 64

unfoldable pub system_used : Lane → ℕ
system_used lane = pos_part lane.system_used
