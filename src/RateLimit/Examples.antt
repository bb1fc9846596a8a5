-- ===== src/RateLimit/Examples.antt =====
-- Two attempts in a window of ten nanoseconds.
use bazusop.Base.{◌≡◌, refl, ◌≤◌, List, [], ◌∷◌, length, filter, ltb, arith}
use bazusop.Base.Assoc.{lookup, insert}
use bazusop.RateLimit.{new_limiter, Call, allow, run, is_recent}
use bazusop.RateLimit.Window.{granted, is_within, granted-within, allow-granted}

abbrev calls : List Call
calls =
    ("10.0.0.1", 1) ∷ ("10.0.0.1", 4) ∷ ("10.0.0.2", 4) ∷ ("10.0.0.1", 5) ∷ ("10.0.0.1", 12) ∷ []

granted-calls : granted "10.0.0.1" (new_limiter 2 10) calls ≡ 1 ∷ 4 ∷ 12 ∷ []
unfolding granted allow lookup insert
granted-calls = refl

granted-within_example :
    length (filter (is_within 10 3) (granted "10.0.0.1" (new_limiter 2 10) calls)) ≤ 2
granted-within_example =
    granted-within 2 10 "10.0.0.1" calls 3
      (omega arith, (omega arith, (omega arith, (omega arith, (omega arith, tt)))))

allow-granted_example :
    (allow (run (new_limiter 2 10) calls) "10.0.0.1" 13).1
    ≡ ltb (length (filter (is_recent 10 13) (granted "10.0.0.1" (new_limiter 2 10) calls))) 2
allow-granted_example =
    allow-granted 2 10 "10.0.0.1" calls 13
      (omega arith, (omega arith, (omega arith, (omega arith, (omega arith, tt))))) (omega arith)
