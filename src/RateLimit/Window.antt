-- ===== src/RateLimit/Window.antt =====
-- The limiter against its purpose: how many attempts of a key go through.
use bazusop.Base.{
  ℕ, ◌+◌, ◌≤◌, ◌<◌, subst, ==_refl, ◌≡◌, refl, ◌∙◌, ap, String, Bool, true, false, ◌&&◌, List, [],
  ◌∷◌, ◌++◌, Time, Duration, ltb, leb, length, filter, filter-append, length-append,
  string_comparable, if◌then◌else◌, ◌==◌, ==_cases, inl, inr, Bool-cases, arith,
}
use bazusop.Base.Assoc.{lookup, insert, lookup-insert_self, lookup-insert_other}
use bazusop.RateLimit.{Limiter, new_limiter, or_empty, is_recent, kept, allow, Call, run}

-- The instants at which calls of `k` were let through, in their order.
unfoldable pub granted : String → Limiter → List Call → List Time
unfolding allow
granted k l [] = []
granted k l (c ∷ cs) =
    let rest = granted k (allow l c.0 c.1).0 cs in
    if c.0 == k && (allow l c.0 c.1).1 then c.1 ∷ rest else rest

-- The clock does not run backwards from `t` on.
abbrev pub Ordered : Time → List Call → Type 0
Ordered t [] = Unit
Ordered t (c ∷ cs) = (t ≤ c.1) × Ordered c.1 cs

-- The span of one window from `w` on.
abbrev pub is_within : Duration → Time → Time → Bool
is_within window w at = leb w at && ltb at (w + window)

-- `gs` are the attempts of `k` let through up to `t`.
pub record Tracks (l : Limiter) (k : String) (t : Time) (gs : List Time) : Type 0 where
  pub recent :
      (u : Time)
      → t ≤ u
      → filter (is_recent l.window u) (or_empty (lookup k l.attempts))
        ≡ filter (is_recent l.window u) gs
  pub bounded : (w : Time) → length (filter (is_within l.window w) gs) ≤ l.max

filter-recent :
    (window : Duration) (t u : Time) (ts : List Time)
    → t ≤ u
    → filter (is_recent window u) (filter (is_recent window t) ts) ≡ filter (is_recent window u) ts
filter-recent window t u [] h = refl
filter-recent window t u (at ∷ ts) h = ground (arith, filter-recent window t u ts h)

-- Those within a window that contains `now` are among the recent ones.
within_recent :
    (window : Duration) (now w : Time) (ts : List Time)
    → now < w + window
    → length (filter (is_within window w) ts) ≤ length (filter (is_recent window now) ts)
within_recent window now w [] h = omega arith
within_recent window now w (at ∷ ts) h = ground (arith, within_recent window now w ts h)

max-kept : (l : Limiter) (k : String) (now : Time) → (allow l k now).0.max ≡ l.max
unfolding allow
max-kept l k now = ground arith

window-kept : (l : Limiter) (k : String) (now : Time) → (allow l k now).0.window ≡ l.window
unfolding allow
window-kept l k now = ground arith

-- The pruned attempts are the recent ones among those let through.
kept-recent :
    (l : Limiter) (k : String) (t now u : Time) (gs : List Time)
    → Tracks l k t gs
    → t ≤ now
    → now ≤ u
    → filter (is_recent l.window u) (kept l k now) ≡ filter (is_recent l.window u) gs
kept-recent l k t now u gs tr p q =
    filter-recent l.window now u (or_empty (lookup k l.attempts)) q ∙ tr.recent u (omega arith)

blocked-Tracks :
    (l : Limiter) (k : String) (t now : Time) (gs : List Time)
    → Tracks l k t gs
    → t ≤ now
    → Tracks (record l { attempts = insert k (kept l k now) l.attempts }) k now gs
blocked-Tracks l k t now gs tr p = record {
  recent = λ u q.
      rw (lookup-insert_self k (kept l k now) l.attempts) (kept-recent l k t now u gs tr p q);
  bounded = tr.bounded;
}

append-bounded :
    (window : Duration) (max : ℕ) (now w : Time) (gs : List Time)
    → length (filter (is_recent window now) gs) < max
    → length (filter (is_within window w) gs) ≤ max
    → length (filter (is_within window w) (gs ++ now ∷ [])) ≤ max
append-bounded window max now w gs few h =
    rw
      (
        filter-append (is_within window w) gs (now ∷ []),
        length-append (filter (is_within window w) gs) (filter (is_within window w) (now ∷ [])),
      )
      (elim (Bool-cases (is_within window w now)) [
        | inl i ↦ rw i (let less = within_recent window now w gs (ground arith) in omega arith)
        | inr o ↦ rw o (omega arith)
      ])

allowed-Tracks :
    (l : Limiter) (k : String) (t now : Time) (gs : List Time)
    → Tracks l k t gs
    → t ≤ now
    → length (kept l k now) < l.max
    → Tracks
        (record l { attempts = insert k (kept l k now ++ now ∷ []) l.attempts })
        k
        now
        (gs ++ now ∷ [])
allowed-Tracks l k t now gs tr p few = record {
  recent = λ u q.
      rw
        (
          lookup-insert_self k (kept l k now ++ now ∷ []) l.attempts,
          filter-append (is_recent l.window u) (kept l k now) (now ∷ []),
          filter-append (is_recent l.window u) gs (now ∷ []),
        )
        (ap (λ xs. xs ++ filter (is_recent l.window u) (now ∷ []))
          (kept-recent l k t now u gs tr p q));
  bounded = λ w.
      append-bounded l.window l.max now w gs (subst (λ xs. length xs < l.max) (tr.recent now p) few)
        (tr.bounded w);
}

-- Other keys' attempts stay.
other-Tracks :
    (l : Limiter) (k key : String) (t now : Time) (gs ts : List Time)
    → ¬ (key ≡ k)
    → t ≤ now
    → Tracks l k t gs
    → Tracks (record l { attempts = insert key ts l.attempts }) k now gs
other-Tracks l k key t now gs ts other p tr = record {
  recent = λ u q. rw (lookup-insert_other l.attempts key ts k other) (tr.recent u (omega arith));
  bounded = tr.bounded;
}

abbrev extended : Bool → List Time → Time → List Time
extended b gs now = if b then gs ++ now ∷ [] else gs

decide-Tracks :
    (l : Limiter) (k key : String) (t now : Time) (gs : List Time)
    → t ≤ now
    → Tracks l k t gs
    → Tracks (allow l key now).0 k now (extended (key == k && (allow l key now).1) gs now)
unfolding allow
decide-Tracks l k key t now gs p tr = elim (==_cases key k) [
  | inl (s, e) ↦ elim (Bool-cases (leb l.max (length (kept l k now)))) [
    | inl full ↦ rw (e, ==_refl k, full) (blocked-Tracks l k t now gs tr p)
    | inr free ↦ rw (e, ==_refl k, free) (allowed-Tracks l k t now gs tr p (ground arith))
  ]
  | inr (d, n) ↦ elim (Bool-cases (leb l.max (length (kept l key now)))) [
    | inl full ↦ rw (d, full) (other-Tracks l k key t now gs (kept l key now) n p tr)
    | inr free ↦ rw (d, free) (other-Tracks l k key t now gs (kept l key now ++ now ∷ []) n p tr)
  ]
]

append_one :
    (gs : List Time) (now : Time) (rest : List Time) → gs ++ now ∷ rest ≡ (gs ++ now ∷ []) ++ rest
append_one [] now rest = refl
append_one (g ∷ gs) now rest = ap (λ xs. g ∷ xs) (append_one gs now rest)

append_nil : (gs : List Time) → gs ++ [] ≡ gs
append_nil [] = refl
append_nil (g ∷ gs) = ap (λ xs. g ∷ xs) (append_nil gs)

extended_append :
    (b : Bool) (gs : List Time) (now : Time) (rest : List Time)
    → gs ++ (if b then now ∷ rest else rest) ≡ extended b gs now ++ rest
extended_append true gs now rest = append_one gs now rest
extended_append false gs now rest = refl

-- The instant of the last call.
abbrev pub last_call : Time → List Call → Time
last_call t [] = t
last_call t (c ∷ cs) = last_call c.1 cs

run-Tracks :
    (l : Limiter) (k : String) (t : Time) (gs : List Time) (cs : List Call)
    → Ordered t cs
    → Tracks l k t gs
    → Tracks (run l cs) k (last_call t cs) (gs ++ granted k l cs)
unfolding run granted
run-Tracks l k t gs [] o tr = rw (append_nil gs) tr
run-Tracks l k t gs (c ∷ cs) o tr =
    let b : Bool = c.0 == k && (allow l c.0 c.1).1 in
    rw (extended_append b gs c.1 (granted k (allow l c.0 c.1).0 cs)) (
      run-Tracks (allow l c.0 c.1).0 k c.1 (extended b gs c.1) cs o.1
        (decide-Tracks l k c.0 t c.1 gs o.0 tr))

run_limits :
    (l : Limiter) (cs : List Call) → ((run l cs).max ≡ l.max) × ((run l cs).window ≡ l.window)
unfolding run
run_limits l [] = (refl, refl)
run_limits l (c ∷ cs) =
    let (m, w) = run_limits (allow l c.0 c.1).0 cs in
    (m ∙ max-kept l c.0 c.1, w ∙ window-kept l c.0 c.1)

new-Tracks : (max : ℕ) (window : Duration) (k : String) → Tracks (new_limiter max window) k 0 []
unfolding lookup
new-Tracks max window k = record { recent = λ u q. refl; bounded = λ w. omega arith }

limits-Tracks :
    (l : Limiter) (k : String) (t : Time) (gs : List Time) (max : ℕ) (window : Duration)
    → l.max ≡ max
    → l.window ≡ window
    → Tracks l k t gs
    → Tracks (record l { max = max; window = window }) k t gs
limits-Tracks l k t gs max window m v tr =
    subst (λ (x : ℕ × ℕ). Tracks (record l { max = x.0; window = x.1 }) k t gs) (λ i. (m i, v i)) tr

allow-recent :
    (l : Limiter) (k : String) (t now : Time) (gs : List Time)
    → Tracks l k t gs
    → t ≤ now
    → (allow l k now).1 ≡ ltb (length (filter (is_recent l.window now) gs)) l.max
unfolding allow
allow-recent l k t now gs tr p = rw (tr.recent now p) (ground arith)

-- If the clock does not run backwards, then of the calls of one key made to a new limiter, among those
-- of any others, no more than `max` are let through in any span of time as long as the window.
pub granted-within :
    (max : ℕ) (window : Duration) (k : String) (cs : List Call) (w : Time)
    → Ordered 0 cs
    → length (filter (is_within window w) (granted k (new_limiter max window) cs)) ≤ max
granted-within max window k cs w o =
    let l = new_limiter max window in
    let tr = run-Tracks l k 0 [] cs o (new-Tracks max window k) in
    let (m, v) = run_limits l cs in
    (limits-Tracks (run l cs) k (last_call 0 cs) (granted k l cs) max window m v tr).bounded w

-- If the clock does not run backwards, then after any calls to a new limiter, a call of a key is let
-- through exactly if fewer than `max` calls of that key were let through within the last window:
-- calls of other keys, and calls that were turned down, do not count.
pub allow-granted :
    (max : ℕ) (window : Duration) (k : String) (cs : List Call) (now : Time)
    → Ordered 0 cs
    → last_call 0 cs ≤ now
    → (allow (run (new_limiter max window) cs) k now).1
      ≡ ltb (length (filter (is_recent window now) (granted k (new_limiter max window) cs))) max
allow-granted max window k cs now o p =
    let l = new_limiter max window in
    let tr = run-Tracks l k 0 [] cs o (new-Tracks max window k) in
    let (m, v) = run_limits l cs in
    allow-recent (run l cs) k (last_call 0 cs) now (granted k l cs) tr p
    ∙ ap (λ (x : ℕ × ℕ). ltb (length (filter (is_recent x.1 now) (granted k l cs))) x.0)
        (λ i. (m i, v i))
