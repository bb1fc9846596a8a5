-- ===== src/Telemetry.antt =====
-- internal/telemetry/telemetry.go: samples of the hosts, kept in memory. float64 is a parameter.
pub mod Store
pub mod Series
mod Examples
use bazusop.Base.{ℕ, String, Bool, List, Time}
use bazusop.Base.Assoc.{Map}
use bazusop.Tenancy.{Agent}

pub data Error : Type 0 where
  invalid_sample invalid_scope : Error

-- What the program does with float64.
pub record Floats (F : Type 0) : Type 0 where
  pub is_nan : F → Bool
  pub is_inf : F → Bool
  pub at_least : F → ℕ → Bool
  pub at_most : F → ℕ → Bool
  pub of_int : ℕ → F
  pub plus : F → F → F
  pub over : F → F → F

pub record Sample (F : Type 0) : Type 0 where
  pub organization_id : String
  pub site_id : String
  pub agent_id : String
  pub recorded_at : Time
  pub cpu_percent : F
  pub memory_percent : F
  pub disk_percent : F
  pub network_rx_bytes : ℕ
  pub network_tx_bytes : ℕ

pub record FleetAverage (F : Type 0) : Type 0 where
  pub average_cpu_percent : F
  pub device_count : ℕ

pub record MemoryStore (F : Type 0) : Type 0 where
  pub samples : Map Agent (List (Sample F))
