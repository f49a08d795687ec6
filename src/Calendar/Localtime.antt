-- ===== src/Calendar/Localtime.antt =====
-- `localtime` of src/kernel/time.c, and the binary coded decimals of src/lib/stdlib.c.
use neonix.Prelude.{ℕ, ◌+◌, ◌*◌, ◌%◌, ◌<◌, ◌≡◌, arith}
use neonix.Calendar.{localtime, bcd_to_bin, bin_to_bcd}

-- The time of day that `localtime` gives is the one of the stamp, whatever day it finds: the
-- hours, minutes and seconds are in range and add up to the seconds since midnight, and the day
-- of the week is in range.
pub localtime-time_of_day :
    (stamp : ℕ)
    → ((localtime stamp).tm_hour * 3600 + (localtime stamp).tm_min * 60 + (localtime stamp).tm_sec
        ≡ stamp % 86400)
      × ((localtime stamp).tm_hour < 24)
      × ((localtime stamp).tm_min < 60)
      × ((localtime stamp).tm_sec < 60)
      × ((localtime stamp).tm_wday < 7)
unfolding localtime
localtime-time_of_day stamp = (omega arith, omega arith, omega arith, omega arith, omega arith)

-- Every number of two digits is encoded and decoded unchanged.
pub bcd_to_bin-bin_to_bcd : (value : ℕ) → value < 100 → bcd_to_bin (bin_to_bcd value) ≡ value
unfolding bcd_to_bin bin_to_bcd
bcd_to_bin-bin_to_bcd value lt = omega arith
