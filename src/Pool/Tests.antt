-- ===== src/Pool/Tests.antt =====
-- Runs of the pool on concrete sizes.
use mimo26f_afd.Prelude.{◌-◌, ◌≡◌, refl, arith}
use mimo26f_afd.Pool.{KvPool, admitted, admit, request_reservation, full_lifetime_reservation}
use mimo26f_afd.Pool.Bounds.{IsValid, IsSmall, AdmitsExactly, admit-AdmitsExactly}

-- A pool of 1 GiB.
abbrev gib_pool : KvPool
gib_pool = record { total = 1_073_741_824; used = 0 }

-- The constants that the source's tests pin.
trap_755_mb : full_lifetime_reservation 0 65536 - request_reservation 0 0 0 ≡ 754_974_720
unfolding full_lifetime_reservation request_reservation
trap_755_mb = refl

admit_once :
    admit gib_pool 1000 65536 8192 ≡ (record gib_pool { used = 118671360 }, admitted 118671360)
unfolding admit request_reservation
admit_once = refl

IsSmall-request : IsSmall 1000 65536
IsSmall-request = omega arith

gib_pool-IsValid : IsValid gib_pool
gib_pool-IsValid = omega arith

admit-AdmitsExactly_example :
    AdmitsExactly gib_pool (request_reservation 1000 65536 8192) (admit gib_pool 1000 65536 8192)
admit-AdmitsExactly_example =
    admit-AdmitsExactly gib_pool 1000 65536 8192 gib_pool-IsValid IsSmall-request
