-- ===== src/Executor/World.antt =====
-- The surroundings of the executor: the hub's jobs, the file of its state, the jobs that were run, and
-- what goes wrong. The hub is that of Jobs; the HTTP client and server between it and the agent pass
-- requests and answers on.
use bazusop.Base.{ℕ, suc, String, List, [], ◌∷◌, Option, Time, Result, ok, err, Exec}
use bazusop.Tenancy.{Agent}
use bazusop.Jobs.{Job, EventRequest, MemoryStore}
use bazusop.Jobs.Service.{claim_next, report}
use bazusop.Jobs.{Error as HubError}
use bazusop.Jobs.Service.{Service}
use bazusop.Executor.{Error, Identity, ExecutionState}
use bazusop.Executor.Trust.{Certificates}
use bazusop.Executor.Disk.{Codec, File, load, save, remove}

-- How one call of the executor to the outside goes: as meant; done, but its answer lost; or not done.
-- An agent that stops at a call is one that loses its answer or does not make it, since the executor
-- returns at the first error.
pub data Fault : Type 0 where
  works : Fault
  lost fails : Error → Fault

pub record World : Type 0 where
  pub hub : MemoryStore
  pub file : File
  -- The identifiers of the jobs that were run, the latest first.
  pub runs : List String
  -- Of the calls to come; those that the list has no entry for work.
  pub faults : List Fault
  pub ticks : ℕ

-- What stays the same: the hub's service and clock, the agent as its certificate names it to the hub,
-- the agent's own identity, and Go's packages and the platform that the executor calls.
pub record Surroundings : Type 0 where
  pub service : Service
  pub clock : ℕ → Time
  pub agent : Agent
  pub identity : Identity
  pub certificates : Certificates
  pub codec : Codec
  -- The output of a job, and the error that ended it if one did.
  pub execute : Job → String × Option Error
  -- The text of an answer that is an error.
  pub describe : HubError → Error

abbrev next_fault : List Fault → Fault
next_fault [] = works
next_fault (f ∷ fs) = f

abbrev later_faults : List Fault → List Fault
later_faults [] = []
later_faults (f ∷ fs) = fs

module _ {A : Type 0} where
  abbrev pub attempt_as : Fault → Exec World Error A → Exec World Error A
  attempt_as works m w = m w
  attempt_as (lost e) m w = ((m w).0, err e)
  attempt_as (fails e) m w = (w, err e)

  -- A call to the outside, which may go wrong.
  unfoldable pub attempt : Exec World Error A → Exec World Error A
  attempt m w = attempt_as (next_fault w.faults) m (record w { faults = later_faults w.faults })

  abbrev pub described : (HubError → Error) → Result HubError A → Result Error A
  described text (ok a) = ok a
  described text (err e) = err (text e)

  abbrev pub on_hub : Surroundings → (Time → Exec MemoryStore HubError A) → Exec World Error A
  on_hub env call w =
      let (hub, answer) = call (env.clock w.ticks) w.hub in
      (record w { hub = hub; ticks = suc w.ticks }, described env.describe answer)

abbrev pub load_state : Surroundings → Exec World Error (Option ExecutionState)
load_state env w = (w, load env.codec w.file)

abbrev pub save_state : Surroundings → ExecutionState → Exec World Error (Unit {0})
save_state env st w =
    let (file, answer) = save env.codec st w.file in (record w { file = file }, answer)

abbrev pub delete_state : Exec World Error (Unit {0})
delete_state w = let (file, answer) = remove w.file in (record w { file = file }, answer)

abbrev pub claim_job : Surroundings → Exec World Error (Option Job)
claim_job env = on_hub env (λ now. claim_next env.service env.agent now)

abbrev pub report_event : Surroundings → String → EventRequest → Exec World Error Job
report_event env id event = on_hub env (λ now. report env.agent id event now)

abbrev pub execute_job : Surroundings → Job → Exec World Error (String × Option Error)
execute_job env j w = (record w { runs = j.id ∷ w.runs }, ok (env.execute j))
