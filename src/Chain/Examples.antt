-- ===== src/Chain/Examples.antt =====
-- The resource meter at concrete amounts.
use teleno.Base.{arith, bytes_key, err, nat_key, none, ok, pair_key, pos, refl, some, ◌-◌, ◌^◌, ◌≡◌}
use teleno.Chain.ResourceMeter.{
  network_bandwidth_limit_exceeded, disk_storage_limit_exceeded, Session, Lane, make_meter,
  use_bandwidth, use_disk_storage, charge, use_rc, fits_int64, to_uint64, signed_overflow,
}
use teleno.Chain.ResourceMeter.Bounds.{InRange, plain_use, use_bandwidth-plain}
use teleno.Chain.ResourceMeter.Disk.{make_meter_refuses}

abbrev lane : Lane
lane = record { remaining = 100; system_used = pos 5; limit = 120; cost = 3 }

abbrev payer : Session
payer = record { begin_rc = pos 90; end_rc = pos 60 }

lane-InRange : InRange lane
lane-InRange = record {
  within = omega arith;
  fits = omega arith;
  used = 5;
  counted = refl;
  room = omega arith;
}

use_bandwidth-plain_example :
    use_bandwidth network_bandwidth_limit_exceeded (pos 7) lane none
    ≡ plain_use network_bandwidth_limit_exceeded 7 lane none
use_bandwidth-plain_example =
    use_bandwidth-plain network_bandwidth_limit_exceeded 7 lane none lane-InRange (omega arith)

paid_use :
    use_bandwidth network_bandwidth_limit_exceeded (pos 7) lane (some payer)
    ≡ ok (record lane { remaining = 93 }, some (record payer { end_rc = pos 39 }))
unfolding use_bandwidth charge use_rc to_uint64
paid_use = refl

-- The limits that the constructor sets are out of range: the counter of the system overflows.
abbrev full_counter : Lane
full_counter = record {
  remaining = 2 ^ 63;
  system_used = pos (2 ^ 63 - 1);
  limit = 2 ^ 64 - 1;
  cost = 0;
}

second_use_overflows :
    use_bandwidth network_bandwidth_limit_exceeded (pos 1) full_counter none ≡ err signed_overflow
unfolding use_bandwidth charge fits_int64 to_uint64
second_use_overflows = refl

make_meter_refuses_example :
    use_disk_storage (pos 0) make_meter none ≡ err disk_storage_limit_exceeded
make_meter_refuses_example = make_meter_refuses 0 none
