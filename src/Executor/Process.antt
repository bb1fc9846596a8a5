-- ===== src/Executor/Process.antt =====
-- The methods of JobExecutor.
use Prim.Native.String.{◌++◌ as append}
use bazusop.Base.{
  ◌+◌, ◌*◌, String, Bool, true, false, not, ◌||◌, List, [], ◌∷◌, Option, none, some, Result, ok,
  err, Exec, pure, refuse, ◌>>=◌, ◌>>◌, ◌==◌, string_comparable, trim_space, if◌then◌else◌,
}
use bazusop.Base.Utf8.{truncate_utf8}
use bazusop.Jobs.{Job, EventRequest, event_output, event_succeeded, event_failed}
use bazusop.Executor.{Error, ExecutionState, phase_executing, phase_completed}
use bazusop.Executor.Trust.{job_id_valid, validate_claimed_job}
use bazusop.Executor.World.{
  World, Surroundings, attempt, load_state, save_state, delete_state, claim_job, report_event,
  execute_job,
}

-- `fmt.Errorf("prefix: %w", err)`.
abbrev pub prefixed : {A : Type 0} → String → Result Error A → Result Error A
prefixed prefix (ok a) = ok a
prefixed prefix (err e) = err (append prefix e)

abbrev pub wrapped : {A : Type 0} → String → Exec World Error A → Exec World Error A
wrapped prefix m w = let (w', answer) = m w in (w', prefixed prefix answer)

abbrev pub cut : String → String
cut text = truncate_utf8 text (32 * 1024)

-- What is saved between two reports: the events that are left, if any are.
abbrev pub save_rest :
    Surroundings → ExecutionState → List EventRequest → Exec World Error (Unit {0})
save_rest env st [] = pure tt
save_rest env st (e ∷ es) = attempt (save_state env (record st { events = e ∷ es }))

-- flushState, whose loop shortens the events of the state `st`.
unfoldable pub flush_events :
    Surroundings → ExecutionState → List EventRequest → Exec World Error (Unit {0})
flush_events env st [] = attempt delete_state
flush_events env st (e ∷ es) = do
  attempt (report_event env st.job.id e)
  save_rest env st es
  flush_events env st es

abbrev pub flush_state : Surroundings → ExecutionState → Exec World Error (Unit {0})
flush_state env st = flush_events env st st.events

unfoldable pub report_events : Surroundings → Job → List EventRequest → Exec World Error (Unit {0})
report_events env j events = do
  let st : ExecutionState = record { job = j; phase = phase_completed; events = events }
  wrapped "persist job result: " (attempt (save_state env st))
  flush_state env st

abbrev pub failure : Job → String → EventRequest
failure j message = record {
  sequence = j.last_sequence + 1;
  type = event_failed;
  message = message;
}

-- A state of a job that was being executed is settled as a failure before it is flushed.
abbrev pub interrupted : ExecutionState → ExecutionState
interrupted st = record st {
  phase = phase_completed;
  events = failure st.job "agent restarted during execution; outcome unknown" ∷ [];
}

abbrev pub settle : Surroundings → ExecutionState → Bool → Exec World Error (Unit {0})
settle env st true = do attempt (save_state env (interrupted st)); flush_state env (interrupted st)
settle env st false = flush_state env st

-- recoverState, for a state that was found.
unfoldable pub recover_state : Surroundings → ExecutionState → Exec World Error (Unit {0})
unfolding flush_events
recover_state env st = do
  refuse (not (st.job.agent_id == env.identity.agent_id) || not (job_id_valid st.job.id))
      "stored job execution state belongs to another identity"
  settle env st (st.phase == phase_executing)

abbrev pub shown_output : Job → String → String
shown_output j output =
    let trimmed = trim_space output in
    if trimmed == "" then append j.action " produced no output" else trimmed

abbrev pub last_event : Job → Option Error → EventRequest
last_event j none = record {
  sequence = 3;
  type = event_succeeded;
  message = append j.action " completed";
}
last_event j (some e) = record { sequence = 3; type = event_failed; message = cut e }

-- What is reported of a job that was executed.
abbrev pub result_events : Job → String × Option Error → List EventRequest
result_events j (output, failed) =
    record { sequence = 2; type = event_output; message = cut (shown_output j output) }
    ∷ last_event j failed
    ∷ []

abbrev pub executing : Job → ExecutionState
executing j = record { job = j; phase = phase_executing; events = [] }

-- ProcessNext from the saving of the state that tells of the execution.
unfoldable pub run_job : Surroundings → Job → Exec World Error (Unit {0})
run_job env j = do
  wrapped "persist job before execution: " (attempt (save_state env (executing j)))
  result ← attempt (execute_job env j)
  report_events env j (result_events j result)

-- A job that is marked as resumed is not run.
abbrev pub unless_resumed : Surroundings → Job → Bool → Exec World Error (Unit {0})
unless_resumed env j true =
    report_events env j
      (failure j "running job has no durable execution state; outcome unknown" ∷ [])
unless_resumed env j false = run_job env j

abbrev pub if_trusted : Surroundings → Job → Result Error (Unit {0}) → Exec World Error (Unit {0})
if_trusted env j (err e) = report_events env j (failure j (cut e) ∷ [])
if_trusted env j (ok _) = unless_resumed env j j.resumed

unfoldable pub handle : Surroundings → Job → Exec World Error (Unit {0})
handle env j = do
  refuse (not (job_id_valid j.id)) "claimed job ID is invalid"
  if_trusted env j (validate_claimed_job env.service.crypto env.certificates j env.identity)

abbrev pub if_claimed : Surroundings → Option Job → Exec World Error (Unit {0})
if_claimed env none = pure tt
if_claimed env (some j) = handle env j

abbrev pub claim_and_handle : Surroundings → Exec World Error (Unit {0})
claim_and_handle env = do claimed ← attempt (claim_job env); if_claimed env claimed

abbrev pub after_load : Surroundings → Option ExecutionState → Exec World Error (Unit {0})
after_load env none = claim_and_handle env
after_load env (some st) = recover_state env st

unfoldable pub process_next : Surroundings → Exec World Error (Unit {0})
process_next env = do found ← attempt (load_state env); after_load env found
