-- ===== src/Base/Clock.antt =====
-- Instants are nanoseconds after Go's zero time, durations are nanoseconds.
use Prim.Native.Nat.{ℕ, ◌-◌, ◌*◌, ◌%◌}
use mathlib.Core.Bool.{Bool}
use bazusop.Base.Tests.{ltb, nat_eqb}

abbrev pub Time : Type 0
Time = ℕ

abbrev pub Duration : Type 0
Duration = ℕ

abbrev pub second : Duration
second = 1000000000

abbrev pub minute : Duration
minute = 60 * second

abbrev pub hour : Duration
hour = 60 * minute

-- t.Before(u) and t.After(u).
abbrev pub before : Time → Time → Bool
before t u = ltb t u

abbrev pub after : Time → Time → Bool
after t u = ltb u t

abbrev pub is_zero_time : Time → Bool
is_zero_time t = nat_eqb t 0

-- t.Truncate(time.Microsecond).
unfoldable pub truncate_micro : Time → Time
truncate_micro t = t - t % 1000
