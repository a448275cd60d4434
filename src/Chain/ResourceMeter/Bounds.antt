-- ===== src/Chain/ResourceMeter/Bounds.antt =====
-- Bandwidth: the machine arithmetic of the meter is plain subtraction within its bounds, and what
-- the meter says is left can be used.
use teleno.Base.{
  Bool-cases, Option, Result, arith, bytes_key, err, if◌then◌else◌, inl, inr, ltb, ltb_ℤ, ltb→lt,
  lt→ltb, min, nat_key, negsuc, none, ok, pair_key, pos, refl, some, true, ℕ, ◌%◌, ◌*◌, ◌+ℤ◌, ◌+◌,
  ◌-ℤ◌, ◌-◌, ◌/◌, ◌<◌, ◌>>=◌, ◌^◌, ◌∙◌, ◌≡◌, ◌≤◌,
}
use native.Mathlib.Nat.{le-div_iff_mul-le}
use teleno.Chain.ResourceMeter.{
  Error, reversion, insufficient_rc, Session, Lane, to_uint64, scale, remaining_rc, charge,
  use_bandwidth, lane_remaining, fresh_lane, fits_int64,
}

-- The values of the machine types, and room in the counter of what the system used for all that
-- remains.
pub record InRange (lane : Lane) : Type 0 where
  pub within : lane.remaining ≤ lane.limit
  pub fits : lane.limit < 2 ^ 64
  pub used : ℕ
  pub counted : lane.system_used ≡ pos used
  pub room : used + lane.remaining < 2 ^ 63

-- A lane starts in range where its limit is below 2 ^ 63.
pub fresh_lane-InRange : (limit cost : ℕ) → limit < 2 ^ 63 → InRange (fresh_lane limit cost)
unfolding fresh_lane
fresh_lane-InRange limit cost lt = record {
  within = omega arith;
  fits = omega arith;
  used = 0;
  counted = refl;
  room = omega arith;
}

-- The charge without conversions.
abbrev pub plain_charge : ℕ → Lane → Option Session → Result Error (Lane × Option Session)
plain_charge n lane none = ok (record lane { system_used = lane.system_used +ℤ pos n }, none)
plain_charge n lane (some s) =
    if ltb (2 ^ 63 - 1) (n * lane.cost)
    then err reversion
    else if ltb_ℤ s.end_rc (pos (n * lane.cost))
    then err insufficient_rc
    else ok (lane, some (record s { end_rc = s.end_rc -ℤ pos (n * lane.cost) }))

-- The use of bandwidth without conversions: refused past what remains, charged, then subtracted.
abbrev pub plain_use : Error → ℕ → Lane → Option Session → Result Error (Lane × Option Session)
plain_use exceeded n lane s = if ltb lane.remaining n then err exceeded else do
  (lane', s') ← plain_charge n lane s
  ok (record lane' { remaining = lane'.remaining - n }, s')

pub scale-pos : (n c : ℕ) → scale (pos n) c ≡ pos (n * c)
scale-pos n c = ground arith

pub fits_int64-pos : (n : ℕ) → n < 2 ^ 63 → fits_int64 (pos n) ≡ true
unfolding fits_int64
fits_int64-pos n lt = ground arith

-- While what the system used and the amount are below 2 ^ 63 together, the charge is the plain one.
pub charge_system-plain :
    (n used : ℕ) (lane : Lane)
    → lane.system_used ≡ pos used
    → used + n < 2 ^ 63
    → charge (pos n) lane none ≡ plain_charge n lane none
unfolding charge
charge_system-plain n used lane e lt =
    let z : pos used +ℤ pos n ≡ pos (used + n) = ground arith in
    rw (e, z, fits_int64-pos (used + n) lt) refl

-- For every amount that an `int64_t` holds, and a lane in range (what remains is within the limit,
-- which a `uint64_t` holds, and what the system used is not negative and stays below 2 ^ 63 with
-- what remains), the use of bandwidth is the plain one; so the counter of the system does not
-- overflow.
pub use_bandwidth-plain :
    (exceeded : Error) (n : ℕ) (lane : Lane) (s : Option Session)
    → InRange lane
    → n < 2 ^ 63
    → use_bandwidth exceeded (pos n) lane s ≡ plain_use exceeded n lane s
unfolding use_bandwidth to_uint64
use_bandwidth-plain exceeded n lane none v lt =
    let z : n % 2 ^ 64 ≡ n = omega arith in
    elim (Bool-cases (ltb lane.remaining n)) [
      | inl over ↦ rw (z, over) (ground arith)
      | inr free ↦
          let e = charge_system-plain n v.used lane v.counted (ground arith) in
          rw (z, free, e) (ground arith)
    ]
use_bandwidth-plain exceeded n lane (some s) v lt =
    let z : n % 2 ^ 64 ≡ n = omega arith in rw (z, scale-pos n lane.cost) (ground arith)

-- A negative amount is refused.
pub use_bandwidth_negative :
    (exceeded : Error) (n : ℕ) (lane : Lane) (s : Option Session)
    → use_bandwidth exceeded (negsuc n) lane s ≡ err exceeded
unfolding use_bandwidth
use_bandwidth_negative exceeded n lane s = ground arith

remaining_rc-pos :
    (b e : ℕ)
    → b < 2 ^ 63
    → e < 2 ^ 63
    → remaining_rc (record { begin_rc = pos b; end_rc = pos e }) ≡ min b e
unfolding remaining_rc to_uint64
remaining_rc-pos b e hb he = ground arith

lane_remaining-priced :
    (b e : ℕ) (lane : Lane)
    → b < 2 ^ 63
    → e < 2 ^ 63
    → 0 < lane.cost
    → lane_remaining lane (some (record { begin_rc = pos b; end_rc = pos e }))
      ≡ min (min b e / lane.cost) lane.remaining
unfolding lane_remaining
lane_remaining-priced b e lane hb he h = rw (lt→ltb 0 lane.cost h, remaining_rc-pos b e hb he)

affordable-priced : (n y rem c : ℕ) → 0 < c → n ≤ min (y / c) rem → (n * c ≤ y) × (n ≤ rem)
affordable-priced n y rem c h le =
    ((le-div_iff_mul-le {k = c} {x = n} {y = y} h).0 (omega arith), omega arith)

affordable :
    (n b e : ℕ) (lane : Lane)
    → b < 2 ^ 63
    → e < 2 ^ 63
    → n ≤ lane_remaining lane (some (record { begin_rc = pos b; end_rc = pos e }))
    → (n * lane.cost ≤ e) × (n ≤ lane.remaining)
unfolding lane_remaining
affordable n b e lane hb he le = elim (Bool-cases (ltb 0 lane.cost)) [
  | inl priced ↦
      let h = ltb→lt 0 lane.cost priced in
      let (p, q) =
        affordable-priced n (min b e) lane.remaining lane.cost h
          (rw (← lane_remaining-priced b e lane hb he h) le) in
      (omega arith, q)
  | inr free ↦
      let z : lane.cost ≡ 0 = ground arith in
      let q : n ≤ lane.remaining = rw free at le in (rw z (omega arith), q)
]

-- What the meter says is left can be used, under a session too: the use succeeds, takes the amount
-- off and charges its cost, which the session has.
pub use_bandwidth_remaining :
    (exceeded : Error) (n b e : ℕ) (lane : Lane)
    → InRange lane
    → b < 2 ^ 63
    → e < 2 ^ 63
    → n < 2 ^ 63
    → n ≤ lane_remaining lane (some (record { begin_rc = pos b; end_rc = pos e }))
    → (n * lane.cost ≤ e)
      × (use_bandwidth exceeded (pos n) lane (some (record { begin_rc = pos b; end_rc = pos e }))
          ≡ ok (
            record lane { remaining = lane.remaining - n },
            some (record { begin_rc = pos b; end_rc = pos (e - n * lane.cost) }),
          ))
use_bandwidth_remaining exceeded n b e lane v hb he hn le =
    let (paid, room) = affordable n b e lane hb he le in
    (
      paid,
      use_bandwidth-plain exceeded n lane (some (record { begin_rc = pos b; end_rc = pos e })) v hn
          ∙ ground arith,
    )
