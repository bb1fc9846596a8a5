-- ===== src/Logstream.antt =====
-- internal/logstream/logstream.go: the data of log streams and of their memory store.
pub mod Store
pub mod Service
pub mod Kept
pub mod Bounds
pub mod Wanted
pub mod Listing
mod Examples
use bazusop.Base.{ℕ, String, List, Time}
use bazusop.Base.Assoc.{Map}
use bazusop.Tenancy.{Scope, Agent}

pub data Error : Type 0 where
  invalid_logs invalid_scope : Error
  other : String → Error

abbrev pub max_batch_entries : ℕ
max_batch_entries = 1000

abbrev pub Collector : Type 0
Collector = String

abbrev pub collector_journald : Collector
collector_journald = "journald"

abbrev pub collector_file : Collector
collector_file = "file"

abbrev pub collector_windows_event : Collector
collector_windows_event = "windows_event"

abbrev pub Severity : Type 0
Severity = String

abbrev pub severity_debug : Severity
severity_debug = "debug"

abbrev pub severity_info : Severity
severity_info = "info"

abbrev pub severity_warn : Severity
severity_warn = "warn"

abbrev pub severity_error : Severity
severity_error = "error"

abbrev pub severity_critical : Severity
severity_critical = "critical"

pub record Entry : Type 0 where
  pub organization_id : String
  pub site_id : String
  pub id : String
  pub agent_id : String
  pub occurred_at : Time
  pub collector : Collector
  pub source : String
  pub severity : Severity
  pub message : String
  pub source_id : String

pub record Query : Type 0 where
  pub scope : Scope
  pub agent_id : String
  pub from : Time
  pub to : Time
  pub collector : Collector
  pub severity : Severity
  pub source : String
  pub text : String
  pub limit : ℕ

pub record MemoryStore : Type 0 where
  pub entries : Map Agent (List Entry)
