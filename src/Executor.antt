-- ===== src/Executor.antt =====
-- internal/agent/job_executor.go and job_state.go: the agent's execution of the jobs that it claims.
-- The agent's errors are the texts that they print, since the executor reports them to the hub.
pub mod Trust
pub mod Trusted
pub mod Disk
pub mod World
pub mod Process
pub mod Frame
pub mod Guard
pub mod Once
pub mod Finish
pub mod Accepted
pub mod Progress
mod Examples
use bazusop.Base.{String, List, Option, Time}
use bazusop.Jobs.{Job, EventRequest}
use bazusop.Jobs.Signing.{Bytes}

abbrev pub Error : Type 0
Error = String

pub record Identity : Type 0 where
  pub agent_id : String
  pub certificate_pem : Bytes
  pub private_key_pem : Bytes
  pub ca_certificate_pem : Bytes
  pub expires_at : Time

abbrev pub phase_executing : String
phase_executing = "executing"

abbrev pub phase_completed : String
phase_completed = "completed"

-- jobExecutionState.
pub record ExecutionState : Type 0 where
  pub job : Job
  pub phase : String
  pub events : List EventRequest
