-- ===== src/Alerting.antt =====
-- internal/alerting/alerting.go: rules, maintenance windows, incidents and their memory store. `F` is
-- the type of the measured values, Go's float64.
pub mod Store
pub mod Service
pub mod Single
pub mod History
pub mod Evaluation
mod Examples
use bazusop.Base.{ℕ, String, Bool, true, false, Option, List, Time}
use bazusop.Base.Assoc.{Map}

pub data Error : Type 0 where
  invalid_alert not_found conflict invalid_scope : Error
  other : String → Error

-- Kinds, metrics, severities, states and event types are texts in Go.
abbrev pub kind_metric : String
kind_metric = "metric"

abbrev pub kind_reachability : String
kind_reachability = "reachability"

pub data Status : Type 0 where
  status_open status_acknowledged status_resolved : Status

abbrev pub status_eqb : Status → Status → Bool
status_eqb status_open status_open = true
status_eqb status_acknowledged status_acknowledged = true
status_eqb status_resolved status_resolved = true
status_eqb _ _ = false

pub data EventType : Type 0 where
  event_opened event_acknowledged event_resolved : EventType

pub record RuleRequest (F : Type 0) : Type 0 where
  pub name : String
  pub kind : String
  pub metric : String
  pub threshold : F
  pub stale_after_seconds : ℕ
  pub severity : String
  pub enabled : Bool

pub record Rule (F : Type 0) : Type 0 where
  pub organization_id : String
  pub site_id : String
  pub id : String
  pub request : RuleRequest F
  pub created_at : Time

pub record MaintenanceRequest : Type 0 where
  pub name : String
  pub agent_id : String
  pub starts_at : Time
  pub ends_at : Time
  pub created_by : String

pub record MaintenanceWindow : Type 0 where
  pub organization_id : String
  pub site_id : String
  pub id : String
  pub request : MaintenanceRequest
  pub created_at : Time

pub record Incident (F : Type 0) : Type 0 where
  pub organization_id : String
  pub site_id : String
  pub id : String
  pub rule_id : String
  pub rule_name : String
  pub agent_id : String
  pub severity : String
  pub status : Status
  pub message : String
  pub latest_value : F
  pub opened_at : Time
  pub acknowledged_at : Option Time
  pub acknowledged_by : String
  pub resolved_at : Option Time

pub record Event : Type 0 where
  pub organization_id : String
  pub site_id : String
  pub id : String
  pub incident_id : String
  pub type_ : EventType
  pub actor : String
  pub message : String
  pub occurred_at : Time

pub record MemoryStore (F : Type 0) : Type 0 where
  pub rules : Map String (Rule F)
  pub windows : Map String MaintenanceWindow
  pub incidents : Map String (Incident F)
  pub events : Map String (List Event)
