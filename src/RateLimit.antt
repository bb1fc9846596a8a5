-- ===== src/RateLimit.antt =====
-- internal/ratelimit/ratelimit.go: the sliding-window limiter of the hub's login endpoints.
pub mod Window
mod Examples
use bazusop.Base.{
  ℕ, ◌+◌, String, Bool, true, false, List, [], ◌∷◌, ◌++◌, Option, none, some, Time, Duration, ltb,
  leb, length, filter, string_comparable, if◌then◌else◌,
}
use bazusop.Base.Assoc.{Map, lookup, insert}

pub record Limiter : Type 0 where
  pub attempts : Map String (List Time)
  pub max : ℕ
  pub window : Duration

abbrev pub new_limiter : ℕ → Duration → Limiter
new_limiter max window = record { attempts = []; max = max; window = window }

abbrev pub or_empty : Option (List Time) → List Time
or_empty none = []
or_empty (some ts) = ts

-- `at.After(now.Add(-window))`, as a sum.
abbrev pub is_recent : Duration → Time → Time → Bool
is_recent window now at = ltb now (at + window)

abbrev pub kept : Limiter → String → Time → List Time
kept l key now = filter (is_recent l.window now) (or_empty (lookup key l.attempts))

-- What Allow does once the expired attempts are pruned.
abbrev pub decide : Limiter → String → Time → List Time → Limiter × Bool
decide l key now ts =
    if leb l.max (length ts)
    then (record l { attempts = insert key ts l.attempts }, false)
    else (record l { attempts = insert key (ts ++ now ∷ []) l.attempts }, true)

unfoldable pub allow : Limiter → String → Time → Limiter × Bool
allow l key now = decide l key now (kept l key now)

-- A call is of a key at an instant.
abbrev pub Call : Type 0
Call = String × Time

unfoldable pub run : Limiter → List Call → Limiter
run l [] = l
run l (c ∷ cs) = run (allow l c.0 c.1).0 cs
