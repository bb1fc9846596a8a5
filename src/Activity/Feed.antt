-- ===== src/Activity/Feed.antt =====
-- What the feed shows.
use bazusop.Base.{
  string_comparable, ◌↔◌, ℕ, ◌≤◌, ◌≡◌, ◌++◌, List, [], ◌∷◌, ok, All, length, if◌then◌else◌, ltb,
}
use mathlib.Core.List.{Perm}
use bazusop.Tenancy.{Scope}
use bazusop.Jobs as Jobs
use bazusop.Jobs.Store as JobStore
use bazusop.Alerting as Alerting
use bazusop.Alerting.Store as AlertStore
use bazusop.Activity.Records.{Has, IsOfJobs}
use bazusop.Activity.Warned.{IsOfAlerts}
use bazusop.Activity.{Event, MemoryStore}

-- Each is no older than those behind it.
abbrev pub IsNewestFirst : List Event → Type 0
IsNewestFirst [] = Unit
IsNewestFirst (x ∷ xs) = All (λ (y : Event). y.occurred_at ≤ x.occurred_at) xs × IsNewestFirst xs

-- The event tells what the record says, as one of jobs.
pub record TellsJob (r : JobStore.EventRecord) (e : Event) : Type 0 where
  pub scope : (e.organization_id ≡ r.event.organization_id) × (e.site_id ≡ r.event.site_id)
  pub source : e.source ≡ "job"
  pub about : (e.reference_id ≡ r.event.job_id) × (e.agent_id ≡ r.agent_id)
  pub what : (e.type ≡ r.event.type) × (e.actor ≡ r.event.actor) × (e.message ≡ r.event.message)
  pub at : e.occurred_at ≡ r.event.occurred_at

-- The event tells what the record says, as one of alerts.
pub record TellsAlert (r : AlertStore.EventRecord) (e : Event) : Type 0 where
  pub scope : (e.organization_id ≡ r.event.organization_id) × (e.site_id ≡ r.event.site_id)
  pub source : e.source ≡ "alert"
  pub about : (e.reference_id ≡ r.event.incident_id) × (e.agent_id ≡ r.agent_id)
  pub opened : r.event.type_ ≡ Alerting.event_opened → e.type ≡ "opened"
  pub acknowledged : r.event.type_ ≡ Alerting.event_acknowledged → e.type ≡ "acknowledged"
  pub resolved : r.event.type_ ≡ Alerting.event_resolved → e.type ≡ "resolved"
  pub what : (e.actor ≡ r.event.actor) × (e.message ≡ r.event.message)
  pub at : e.occurred_at ≡ r.event.occurred_at

-- Two lists of one length, related element by element.
abbrev pub Each : {A B : Type 0} → (A → B → Type 0) → List A → List B → Type 0
Each R [] [] = Unit
Each R [] (y ∷ ys) = ⊥
Each R (x ∷ xs) [] = ⊥
Each R (x ∷ xs) (y ∷ ys) = R x y × Each R xs ys

abbrev pub InScope : Scope → Event → Type 0
InScope scope e = (e.organization_id ≡ scope.organization_id) × (e.site_id ≡ scope.site_id)

-- The events told of the records of jobs and of alerts, and those that were recorded for the scope, are
-- together those of the feed and those that are left out. They follow one another from the newest, and are
-- left out only beyond the limit.
pub record IsFeed (scope : Scope) (limit : ℕ) (s : MemoryStore) (jobs : List JobStore.EventRecord)
    (alerts : List AlertStore.EventRecord) (es : List Event) : Type 0 where
  pub of_jobs : List Event
  pub of_alerts : List Event
  pub own : List Event
  pub elsewhere : List Event
  pub left_out : List Event
  pub tells_jobs : Each TellsJob jobs of_jobs
  pub tells_alerts : Each TellsAlert alerts of_alerts
  pub recorded : Perm (own ++ elsewhere) s.recorded
  pub in_scope : All (λ (e : Event). InScope scope e) own
  pub out_of_scope : All (λ (e : Event). ¬ InScope scope e) elsewhere
  pub all_of_them : Perm (es ++ left_out) ((of_jobs ++ of_alerts) ++ own)
  pub ordered : IsNewestFirst (es ++ left_out)
  pub short :
      length es ≡ (if ltb limit (length (es ++ left_out)) then limit else length (es ++ left_out))

-- What a list of the feed shows.
abbrev pub IsShown :
    {F : Type 0}
    → Jobs.MemoryStore
    → Alerting.MemoryStore F
    → MemoryStore
    → Scope
    → ℕ
    → List Event
    → Type 0
IsShown jobs alerts s scope limit es =
    (js : List JobStore.EventRecord) × (vs : List AlertStore.EventRecord) × (JobStore.all_events
        jobs scope
      ≡ ok js)
    × (AlertStore.all_events alerts scope ≡ ok vs)
    × ((r : JobStore.EventRecord) → Has r js ↔ IsOfJobs jobs.jobs jobs.events scope r)
    × ((r : AlertStore.EventRecord) → Has r vs ↔ IsOfAlerts alerts alerts.events scope r)
    × IsFeed scope limit s js vs es
