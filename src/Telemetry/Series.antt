-- ===== src/Telemetry/Series.antt =====
-- The series of samples that a store keeps of a host.
use bazusop.Base.{
  subst, ℕ, suc, ◌-◌, ◌≤◌, ◌≡◌, ◌≢◌, refl, String, true, false, not, ◌||◌, before, is_zero_time,
  List, [], ◌∷◌, ok, ◌==◌, ltb, All, filter, filter_sound, length, Bool-cases, inl, inr, arith,
  ==_cases, string_comparable, nat_comparable, Time, All-filter, trim_space,
}
use bazusop.Base.Ordered.{All-sort_by, All-drop, length-drop}
use bazusop.Base.Strict.{
  IsDistinct, IsStrict, IsStrict-IsDistinct, drop-IsStrict, filter-IsStrict, sort_by-IsStrict,
}
use bazusop.Base.Sort.{sort_by}
use bazusop.Base.Keeps.{Keeps, keeps_rules}
use bazusop.Base.Assoc.{Map, lookup, lookup-insert}
use bazusop.Tenancy.{Scope, Agent, scope_valid, agent_valid, agent_comparable}
use bazusop.Jobs.Store.{or_empty}
use bazusop.Telemetry.{Floats, Sample, MemoryStore}
use bazusop.Telemetry.Store.{
  agent_of, put, earlier, append, is_in, cut, asked, history, report, shown, empty_store,
}

module _ {F : Type 0} where
  abbrev instant : Sample F → ℕ
  instant x = x.recorded_at

  abbrev of : Agent → Map Agent (List (Sample F)) → List (Sample F)
  of k m = or_empty (lookup k m)

  -- The samples are the host's, in the order of their instants, and no instant comes twice.
  abbrev pub IsSeries : Agent → List (Sample F) → Type 0
  IsSeries k xs =
      All (λ (x : Sample F). agent_of x ≡ k) xs × IsStrict (λ (x : Sample F). x.recorded_at) xs

  All-put :
      (P : Sample F → Type 0) (x : Sample F) (ys : List (Sample F))
      → P x
      → All P ys
      → All P (put x ys)
  All-put P x [] p h = (p, tt)
  All-put P x (y ∷ ys) p h = elim (Bool-cases (y.recorded_at == x.recorded_at)) [
    | inl t ↦ rw t (p, h.1)
    | inr f ↦ rw f (h.0, All-put P x ys p h.1)
  ]

  put-IsDistinct :
      (x : Sample F) (ys : List (Sample F)) → IsDistinct instant ys → IsDistinct instant (put x ys)
  put-IsDistinct x [] h = (tt, tt)
  put-IsDistinct x (y ∷ ys) h = elim (==_cases y.recorded_at x.recorded_at) [
    | inl (t, same) ↦ rw t (subst (λ n. All (λ (z : Sample F). z.recorded_at ≢ n) ys) same h.0, h.1)
    | inr (f, n) ↦ rw f (
      All-put (λ (z : Sample F). z.recorded_at ≢ y.recorded_at) x ys (λ e. n (let b = e in cc)) h.0,
      put-IsDistinct x ys h.1,
    )
  ]

  earlier-above : (y x : Sample F) → earlier y x ≡ true → suc (instant y) ≤ instant x
  earlier-above y x h = ground arith

  earlier-below : (y x : Sample F) → earlier y x ≡ false → instant x ≤ instant y
  earlier-below y x h = ground arith

  put-IsSeries :
      (x : Sample F) (ys : List (Sample F))
      → IsSeries (agent_of x) ys
      → IsSeries (agent_of x) (sort_by earlier (put x ys))
  put-IsSeries x ys h = (
    All-sort_by (λ (z : Sample F). agent_of z ≡ agent_of x) earlier (put x ys)
        (All-put (λ (z : Sample F). agent_of z ≡ agent_of x) x ys refl h.0),
    sort_by-IsStrict instant earlier earlier-above earlier-below (put x ys)
        (put-IsDistinct x ys (IsStrict-IsDistinct instant ys h.1)),
  )

  abbrev pub AllSeries : MemoryStore F → Type 0
  AllSeries s = (k : Agent) → IsSeries k (of k s.samples)

  append-AllSeries : (x : Sample F) → Keeps AllSeries (append x)
  unfolding append
  append-AllSeries x = record {
    at = λ s h. elim (Bool-cases (not (agent_valid (agent_of x)))) [
      | inl t ↦ rw t h
      | inr f ↦ rw f (λ k. elim (==_cases (agent_of x) k) [
        | inl (t, same) ↦
            rw
              (
                lookup-insert s.samples (agent_of x)
                    (sort_by earlier (put x (of (agent_of x) s.samples))) k,
                t,
              )
              (subst (λ a. IsSeries a (sort_by earlier (put x (of (agent_of x) s.samples)))) same
                (put-IsSeries x (of (agent_of x) s.samples) (h (agent_of x))))
        | inr (g, _) ↦
            rw
              (
                lookup-insert s.samples (agent_of x)
                    (sort_by earlier (put x (of (agent_of x) s.samples))) k,
                g,
              )
              (h k)
      ])
    ];
  }

  report-AllSeries :
      (f : Floats F) (agent : Agent) (x : Sample F) → Keeps AllSeries (report f agent x)
  unfolding report
  report-AllSeries f agent x = search (keeps_rules, append-AllSeries) depth 12

-- What a host sends.
pub record Report (F : Type 0) : Type 0 where
  pub agent : Agent
  pub sample : Sample F

unfoldable pub report_all :
    {F : Type 0} → Floats F → MemoryStore F → List (Report F) → MemoryStore F
report_all f s [] = s
report_all f s (r ∷ rs) = report_all f (report f r.agent r.sample s).0 rs

report_all-AllSeries :
    {F : Type 0} (f : Floats F) (rs : List (Report F)) (s : MemoryStore F)
    → AllSeries s
    → AllSeries (report_all f s rs)
unfolding report_all
report_all-AllSeries f [] s h = h
report_all-AllSeries f (r ∷ rs) s h =
    report_all-AllSeries f rs (report f r.agent r.sample s).0
      ((report-AllSeries f r.agent r.sample).at s h)

-- What a history may show: samples of the host, from the window, in the order of their instants, none of
-- which comes twice, and no more than the limit.
abbrev pub IsShown : {F : Type 0} → Agent → Time → Time → ℕ → List (Sample F) → Type 0
IsShown {F} k from to limit xs =
    All (λ (x : Sample F). is_in from to x ≡ true) xs × IsSeries k xs × (length xs ≤ limit)

module _ {F : Type 0} where
  cut-IsShown :
      (k : Agent) (from to : Time) (limit : ℕ) (xs : List (Sample F))
      → All (λ (x : Sample F). is_in from to x ≡ true) xs
      → IsSeries k xs
      → IsShown k from to limit (cut limit xs)
  cut-IsShown k from to limit xs inside h = elim (Bool-cases (ltb limit (length xs))) [
    | inl t ↦ rw t (
      All-drop (λ (x : Sample F). is_in from to x ≡ true) (length xs - limit) xs inside,
      (
        All-drop (λ (x : Sample F). agent_of x ≡ k) (length xs - limit) xs h.0,
        drop-IsStrict instant (length xs - limit) xs h.1,
      ),
      omega (arith, length-drop (length xs - limit) xs, rest (length xs) t),
    )
    | inr f ↦ rw f (inside, h, ground arith)
  ]
    where
      rest : (n : ℕ) → ltb limit n ≡ true → n - (n - limit) ≤ limit
      rest n t = ground arith

  history-IsShown :
      (scope : Scope) (agent : String) (from to : Time) (limit : ℕ) (s : MemoryStore F)
      (xs : List (Sample F))
      → AllSeries s
      → history scope agent from to limit s ≡ ok xs
      → IsShown (asked scope agent) from to limit xs
  unfolding history
  history-IsShown scope agent from to limit s xs all h =
      elim (Bool-cases (not (scope_valid scope))) [
        | inl t ↦ absurd (let b = rw t at h in cc)
        | inr f ↦
            let b = rw f at h in
            let stored = of (asked scope agent) s.samples in
            let found = filter (is_in from to) stored in
            let same : cut limit found ≡ xs = cc in
            subst (IsShown (asked scope agent) from to limit) same (
              cut-IsShown (asked scope agent) from to limit found
                (filter_sound (is_in from to) stored)
                (
                  All-filter (λ (x : Sample F). agent_of x ≡ asked scope agent) (is_in from to)
                      stored (all (asked scope agent)).0,
                  filter-IsStrict instant (is_in from to) stored (all (asked scope agent)).1,
                ))
      ]

-- Whatever was reported to an empty store, if the history of a host is shown, then the limit was at most
-- 2000, and what is shown are samples of that host from the window, in the order of their instants, none
-- of which comes twice, and no more than the limit.
pub shown-IsShown :
    {F : Type 0} (f : Floats F) (rs : List (Report F)) (scope : Scope) (agent : String)
    (from to : Time) (limit : ℕ) (xs : List (Sample F))
    → (shown scope agent from to limit (report_all f empty_store rs)).1 ≡ ok xs
    → (limit ≤ 2000) × IsShown (asked scope (trim_space agent)) from to limit xs
unfolding shown lookup
shown-IsShown f rs scope agent from to limit xs h = elim (Bool-cases (not (scope_valid scope))) [
  | inl t ↦ absurd (let b = rw t at h in cc)
  | inr g ↦
      elim (Bool-cases (
        trim_space agent == ""
        || is_zero_time from
        || is_zero_time to
        || not (before from to)
        || ltb limit 1
        || ltb 2000 limit)) [
          | inl t ↦ absurd (let b = rw (g, t) at h in cc)
          | inr n ↦ (
            ground arith,
            history-IsShown scope (trim_space agent) from to limit (report_all f empty_store rs) xs
                (report_all-AllSeries f rs empty_store (λ k. (tt, tt)))
                (let b = rw (g, n) at h in b),
          )
        ]
]
