-- ===== src/Activity.antt =====
-- internal/activity/activity.go: the feed of what happened, over the stores of jobs and of alerts.
pub mod Records
pub mod Warned
pub mod Feed
mod Examples
use bazusop.Base.{
  ℕ, String, Bool, true, false, not, ◌&&◌, ◌||◌, List, [], ◌∷◌, ◌++◌, map, filter, take, length,
  Option, Result, ok, err, Exec, ◌==◌, string_comparable, nat_comparable, string_ltb, ltb,
  if◌then◌else◌, Time, after, is_zero_time,
}
use bazusop.Base.Sort.{sort_by}
use bazusop.Tenancy.{Scope, scope_valid}
use bazusop.Jobs as Jobs
use bazusop.Jobs.Store as JobStore
use bazusop.Alerting as Alerting
use bazusop.Alerting.Store as AlertStore

pub data Error : Type 0 where
  invalid_activity invalid_scope : Error
  of_jobs : Jobs.Error → Error
  of_alerts : Alerting.Error → Error

abbrev pub Source : Type 0
Source = String

abbrev pub source_job : Source
source_job = "job"

abbrev pub source_alert : Source
source_alert = "alert"

pub record Event : Type 0 where
  pub organization_id : String
  pub site_id : String
  pub source : Source
  pub reference_id : String
  pub agent_id : String
  pub type : String
  pub actor : String
  pub message : String
  pub occurred_at : Time

-- What the feed keeps itself; the stores of jobs and of alerts are arguments.
pub record MemoryStore : Type 0 where
  pub recorded : List Event

abbrev pub record_activity_event : Event → Exec MemoryStore Error (Unit {0})
record_activity_event event s = (record s { recorded = s.recorded ++ event ∷ [] }, ok tt)

-- Service.Record.
unfoldable pub record_event : Event → Time → Exec MemoryStore Error (Unit {0})
record_event event now = record_activity_event (record event {
  occurred_at = if is_zero_time event.occurred_at then now else event.occurred_at;
})

abbrev pub from_job : JobStore.EventRecord → Event
from_job r = record {
  organization_id = r.event.organization_id;
  site_id = r.event.site_id;
  source = source_job;
  reference_id = r.event.job_id;
  agent_id = r.agent_id;
  type = r.event.type;
  actor = r.event.actor;
  message = r.event.message;
  occurred_at = r.event.occurred_at;
}

-- string(record.Event.Type).
abbrev pub text_of : Alerting.EventType → String
text_of Alerting.event_opened = "opened"
text_of Alerting.event_acknowledged = "acknowledged"
text_of Alerting.event_resolved = "resolved"

abbrev pub from_alert : AlertStore.EventRecord → Event
from_alert r = record {
  organization_id = r.event.organization_id;
  site_id = r.event.site_id;
  source = source_alert;
  reference_id = r.event.incident_id;
  agent_id = r.agent_id;
  type = text_of r.event.type_;
  actor = r.event.actor;
  message = r.event.message;
  occurred_at = r.event.occurred_at;
}

abbrev pub is_in : Scope → Event → Bool
is_in scope event = event.organization_id == scope.organization_id && event.site_id == scope.site_id

-- The order of the feed.
abbrev pub less : Event → Event → Bool
less l r =
    if l.occurred_at == r.occurred_at
    then if not (l.source == r.source)
      then string_ltb l.source r.source
      else string_ltb l.reference_id r.reference_id
    else after l.occurred_at r.occurred_at

-- All events of the scope, in the order in which they are collected.
abbrev pub collected :
    Scope → MemoryStore → List JobStore.EventRecord → List AlertStore.EventRecord → List Event
collected scope s jobs alerts =
    map from_job jobs ++ map from_alert alerts ++ filter (is_in scope) s.recorded

abbrev pub merged :
    Scope
    → ℕ
    → MemoryStore
    → Result Jobs.Error (List JobStore.EventRecord)
    → Result Alerting.Error (List AlertStore.EventRecord)
    → Result Error (List Event)
merged scope limit s (err e) alerts = err (of_jobs e)
merged scope limit s (ok jobs) (err e) = err (of_alerts e)
merged scope limit s (ok jobs) (ok alerts) =
    ok (take limit (sort_by less (collected scope s jobs alerts)))

module _ {F : Type 0} where
  unfoldable pub list_activity_events :
      Jobs.MemoryStore
      → Alerting.MemoryStore F
      → MemoryStore
      → Scope
      → ℕ
      → Result Error (List Event)
  list_activity_events jobs alerts s scope limit =
      if not (scope_valid scope)
      then err invalid_scope
      else merged scope limit s (JobStore.all_events jobs scope)
          (AlertStore.all_events alerts scope)

  -- Service.List.
  unfoldable pub list :
      Jobs.MemoryStore
      → Alerting.MemoryStore F
      → MemoryStore
      → Scope
      → ℕ
      → Result Error (List Event)
  list jobs alerts s scope limit =
      if not (scope_valid scope)
      then err invalid_scope
      else if ltb limit 1 || ltb 500 limit
      then err invalid_activity
      else list_activity_events jobs alerts s scope limit
