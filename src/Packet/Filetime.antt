-- ===== src/Packet/Filetime.antt =====
-- FILETIME stamps: `timeToFiletime` and `filetimeToTime` of internal/smb/packet.go.
use portable_smb_server.Base.{ℕ, ◌≤◌, ◌≡◌, refl, arith, ◌==◌, if◌then◌else◌}
use portable_smb_server.Base.Int.{ℤ, sub, add, scale, quot, uint64, int64, wrap64}

-- Go's zero time, or the value of `UnixNano`.
pub data Time : Type 0 where
  zero_time : Time
  unix_nano : ℤ → Time

abbrev pub filetime_epoch_delta : ℕ
filetime_epoch_delta = 116444736000000000

unfoldable pub time_to_filetime : Time → ℕ
time_to_filetime zero_time = 0
time_to_filetime (unix_nano n) = uint64 (wrap64 (add (quot n 100) filetime_epoch_delta))

unfoldable pub filetime_to_time : ℕ → Time
filetime_to_time ft =
    if ft == 0
    then zero_time
    else unix_nano (wrap64 (scale (wrap64 (sub (int64 ft) filetime_epoch_delta)) 100))

-- A FILETIME that is converted to a time and back is the same again, for every FILETIME from
-- 1677-09-21 to 2262-04-11, the years that nanoseconds in an int64 can hold; the stamp 0, which
-- stands for no time, is kept as well.
pub time_to_filetime-filetime_to_time :
    (ft : ℕ)
    → 24211015631452242 ≤ ft
    → ft ≤ 208678456368547758
    → (time_to_filetime (filetime_to_time ft) ≡ ft) × (time_to_filetime (filetime_to_time 0) ≡ 0)
unfolding time_to_filetime filetime_to_time
time_to_filetime-filetime_to_time ft lo hi = (ground arith, refl)
