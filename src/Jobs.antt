-- ===== src/Jobs.antt =====
-- internal/jobs/jobs.go: the data of signed jobs and of their audit events.
pub mod Store
pub mod Log
pub mod Invariant
pub mod Cases
pub mod Report
pub mod Signing
pub mod Service
pub mod History
pub mod Redelivery
pub mod Claim
pub mod Frame
pub mod Order
pub mod Single
pub mod Spent
pub mod Verified
pub mod Toy
mod Examples
use bazusop.Base.{
  ℕ, String, len, Bool, true, false, not, ◌&&◌, ◌||◌, ◌≡◌, ◌↔◌, List, arith, Comparable, ◌==◌,
  string_comparable, eq_iff, Time,
}
use bazusop.Base.Assoc.{Map}
use bazusop.Tenancy.{Scope, scope_comparable, scope_eqb, scope_eqb_iff}

-- What a call returns in place of a result. `other` is an error of a dependency.
pub data Error : Type 0 where
  invalid_job job_conflict job_not_found invalid_scope : Error
  other : String → Error

-- Requests may hold any text here; these are the ones with a meaning.
abbrev pub Action : Type 0
Action = String

abbrev pub service_restart : Action
service_restart = "service.restart"

abbrev pub host_reboot : Action
host_reboot = "host.reboot"

pub data Status : Type 0 where
  queued running succeeded failed : Status

abbrev pub status_eqb : Status → Status → Bool
status_eqb queued queued = true
status_eqb running running = true
status_eqb succeeded succeeded = true
status_eqb failed failed = true
status_eqb _ _ = false

abbrev pub EventType : Type 0
EventType = String

abbrev pub event_approved : EventType
event_approved = "approved"

abbrev pub event_claimed : EventType
event_claimed = "claimed"

abbrev pub event_output : EventType
event_output = "output"

abbrev pub event_succeeded : EventType
event_succeeded = "succeeded"

abbrev pub event_failed : EventType
event_failed = "failed"

pub record CreateRequest : Type 0 where
  pub action : Action
  pub target : String
  pub approved_by : String
  pub reason : String

pub record Job : Type 0 where
  pub id : String
  pub organization_id : String
  pub site_id : String
  pub agent_id : String
  pub action : Action
  pub target : String
  pub approved_by : String
  pub reason : String
  pub requested_at : Time
  pub status : Status
  pub last_sequence : ℕ
  pub signature : String
  pub signing_public_key : String
  pub resumed : Bool

pub record EventRequest : Type 0 where
  pub sequence : ℕ
  pub type : EventType
  pub message : String

pub record Event : Type 0 where
  pub job_id : String
  pub organization_id : String
  pub site_id : String
  pub sequence : ℕ
  pub type : EventType
  pub message : String
  pub actor : String
  pub occurred_at : Time

-- jobKey.
pub record JobKey : Type 0 where
  pub scope : Scope
  pub id : String

abbrev pub job_key_eqb : JobKey → JobKey → Bool
job_key_eqb a b = scope_eqb a.scope b.scope && a.id == b.id

pub job_key_eqb_iff : (a b : JobKey) → (job_key_eqb a b ≡ true) ↔ (a ≡ b)
job_key_eqb_iff a b = ground (arith, scope_eqb_iff a.scope b.scope, eq_iff a.id b.id)

instance abbrev pub job_key_comparable : Comparable JobKey
job_key_comparable = record { same = job_key_eqb; same_iff = job_key_eqb_iff }

pub record MemoryStore : Type 0 where
  pub jobs : Map JobKey Job
  pub events : Map JobKey (List Event)
