-- ===== src/Cpu/Clock.antt =====
-- Differences of two readings.
use hlfs.Common.{ℕ, ◌+◌, ◌-◌, ◌*◌, ◌%◌, ◌^◌, ◌<◌, ◌≡◌, arith}
use hlfs.Cpu.{get_ts_usec, get_ts_nsec}

-- The difference of two readings of GetTsNsec, taken in 64 bits, is the number of nanoseconds
-- between them, if that is below `2 ^ 64`, even where the count wraps in between.
pub get_ts_nsec-elapsed :
    (s n s' n' d : ℕ)
    → s' * 1000000000 + n' ≡ s * 1000000000 + n + d
    → d < 2 ^ 64
    → (get_ts_nsec s' n' + 2 ^ 64 - get_ts_nsec s n) % 2 ^ 64 ≡ d
unfolding get_ts_nsec
get_ts_nsec-elapsed s n s' n' d e fits = omega arith

pub get_ts_usec-elapsed :
    (s n s' n' d : ℕ)
    → s' * 1000000 + n' ≡ s * 1000000 + n + d
    → d < 2 ^ 64
    → (get_ts_usec s' n' + 2 ^ 64 - get_ts_usec s n) % 2 ^ 64 ≡ d
unfolding get_ts_usec
get_ts_usec-elapsed s n s' n' d e fits = omega arith
