-- ===== src/Jobs/Log.antt =====
-- The event log of a job, and the status that replaying it gives.
use bazusop.Base.{
  ℕ, suc, ◌+◌, ◌≡◌, refl, List, [], ◌∷◌, ◌++◌, arith, ◌==◌, string_comparable, if◌then◌else◌,
  length,
}
use bazusop.Jobs.{
  Status, queued, running, succeeded, failed, event_claimed, event_succeeded, event_failed, Event,
  Job,
}

-- What one audit event says of the status.
abbrev pub replay_step : Status → Event → Status
replay_step st e =
    let st₁ : Status = if e.type == event_claimed then running else st in
    let st₂ : Status = if e.type == event_succeeded then succeeded else st₁ in
    if e.type == event_failed then failed else st₂

unfoldable pub replay_from : Status → List Event → Status
replay_from st [] = st
replay_from st (e ∷ es) = replay_from (replay_step st e) es

abbrev pub replay : List Event → Status
replay = replay_from queued

-- The events are numbered from `n` on, with no gap.
unfoldable pub IsNumbered : ℕ → List Event → Type 0
IsNumbered n [] = Unit
IsNumbered n (e ∷ es) = (e.sequence ≡ n) × IsNumbered (suc n) es

pub replay_from-append :
    (st : Status) (es : List Event) (e : Event)
    → replay_from st (es ++ e ∷ []) ≡ replay_step (replay_from st es) e
unfolding replay_from
replay_from-append st [] e = refl
replay_from-append st (x ∷ es) e = replay_from-append (replay_step st x) es e

pub IsNumbered-append :
    (n : ℕ) (es : List Event) (e : Event)
    → IsNumbered n es
    → e.sequence ≡ n + length es
    → IsNumbered n (es ++ e ∷ [])
unfolding IsNumbered
IsNumbered-append n [] e h p = (omega arith, tt)
IsNumbered-append n (x ∷ es) e h p = (h.0, IsNumbered-append (suc n) es e h.1 (omega arith))

-- A job agrees with its log: the events are numbered 0 to `last_sequence`, replaying them gives the
-- status, and a job that waits has been approved and no more.
pub record Log (j : Job) (es : List Event) : Type 0 where
  pub numbered : IsNumbered 0 es
  pub counted : length es ≡ suc j.last_sequence
  pub replayed : replay es ≡ j.status
  pub waiting : j.status ≡ queued → j.last_sequence ≡ 0
