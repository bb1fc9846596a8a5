-- ===== src/Executor/Progress.antt =====
-- A claimed job comes to an end at the hub, and an interrupted one is given up there.
use bazusop.Base.{
  ℕ, suc, ◌+◌, ◌≤◌, ◌≡◌, refl, sym, ap, true, false, String, Bool, List, [], ◌∷◌, none, some, arith,
  ok, Exec, ◌==◌, string_comparable, nat_comparable, eq_iff, trim_space, ◌⊎◌, inl, inr,
}
use bazusop.Tenancy.{agent_valid}
use bazusop.Jobs.{running, failed, Job, EventRequest, MemoryStore, job_key_comparable}
use bazusop.Jobs.Invariant.{IsWellFormed}
use bazusop.Jobs.Service.{claim_next, refused_report}
use bazusop.Executor.{Error, ExecutionState, phase_executing, phase_completed}
use bazusop.Executor.Trust.{job_id_valid, validate_claimed_job}
use bazusop.Executor.Trusted.{MayRun, validate_claimed_job-IsTrusted}
use bazusop.Executor.Disk.{state_valid, save, load}
use bazusop.Executor.World.{World, Surroundings, attempt}
use bazusop.Executor.Process.{
  result_events, failure, interrupted, executing, report_events, settle, recover_state, run_job,
  handle, unless_resumed, process_next,
}
use bazusop.Executor.Finish.{
  sent, Deliverable, delivered, Held, Finishes, flush_events-Finishes, job_id_valid-trim_space,
}
use bazusop.Executor.Accepted.{
  Started, claim_next-Started, IsTrusted-IsNamed, named_id, Explained, done, delivered-results,
  results-Deliverable,
}

saved_valid :
    (j : Job) (phase : String) (es : List EventRequest)
    → job_id_valid j.id ≡ true
    → (phase ≡ phase_executing) ⊎ (phase ≡ phase_completed)
    → state_valid (record { job = j; phase = phase; events = es }) ≡ true
unfolding state_valid
saved_valid j phase es v (inl e) = rw (named_id j.id v, e) refl
saved_valid j phase es v (inr e) = rw (named_id j.id v, e) refl

report_events-Finishes :
    (env : Surroundings) (j i : Job) (es : List EventRequest) (w : World)
    → agent_valid env.agent ≡ true
    → job_id_valid j.id ≡ true
    → Held env.agent j.id i w.hub
    → Deliverable i j.id es
    → Finishes env.agent j.id
        (delivered i es)
        w.runs
        (report_events env j es (record w { faults = [] }))
unfolding report_events attempt save
report_events-Finishes env j i es w a v held d =
    let st : ExecutionState = record { job = j; phase = phase_completed; events = es } in
    let valid = saved_valid j phase_completed es v (inr refl) in
    rw valid (
      flush_events-Finishes env st es (record w { file = some (env.codec.encode st) }) i a
        (job_id_valid-trim_space j.id v) valid held d)

run_job-Finishes :
    (env : Surroundings) (j : Job) (w : World)
    → Started env.agent j w.hub
    → job_id_valid j.id ≡ true
    → MayRun j
    → Explained (env.execute j).1
    → Finishes env.agent j.id
        (done j (env.execute j).1)
        (j.id ∷ w.runs)
        (run_job env j (record w { faults = [] }))
unfolding run_job attempt save
run_job-Finishes env j w (a, held, busy, first) v may x =
    let (output, r) = env.execute j in
    rw (saved_valid j phase_executing [] v (inl refl)) (
      rw (sym (delivered-results j output r)) (
        report_events-Finishes env j j (result_events j (output, r))
          (record w { file = some (env.codec.encode (executing j)); runs = j.id ∷ w.runs }) a v held
          (results-Deliverable j output r v (IsTrusted-IsNamed j may) x busy first)))

if_first :
    (env : Surroundings) (j : Job) (b : Bool) → b ≡ false → unless_resumed env j b ≡ run_job env j
if_first env j true h = cc
if_first env j false h = refl

handle_trusted :
    (env : Surroundings) (j : Job) (w : World)
    → job_id_valid j.id ≡ true
    → validate_claimed_job env.service.crypto env.certificates j env.identity ≡ ok tt
    → j.resumed ≡ false
    → handle env j w ≡ run_job env j w
unfolding handle
handle_trusted env j w v t first =
    rw (v, t) (ap (λ (m : Exec World Error (Unit {0})). m w) (if_first env j j.resumed first))

-- When the agent's calls work, a job that it has no other to finish before is run to its end: if the
-- hub hands out a job for the first time, whose identifier and trust the agent accepts, and a failed
-- execution says why it failed, then the call returns, the job is run once more, the hub holds it as
-- succeeded or failed as the execution did, with three as its last sequence, and the agent's file is
-- gone.
pub process_next-Finishes :
    (env : Surroundings) (w : World) (j : Job)
    → IsWellFormed w.hub
    → let claim = claim_next env.service env.agent (env.clock w.ticks) w.hub in
      claim.1 ≡ ok (some j)
      → j.resumed ≡ false
      → job_id_valid j.id ≡ true
      → validate_claimed_job env.service.crypto env.certificates j env.identity ≡ ok tt
      → Explained (env.execute j).1
      → Finishes env.agent j.id
          (done j (env.execute j).1)
          (j.id ∷ w.runs)
          (process_next env (record w { file = none; faults = [] }))
unfolding process_next attempt load
process_next-Finishes env w j formed claimed first v trusted x =
    let claim = claim_next env.service env.agent (env.clock w.ticks) w.hub in
    let later : World = record w { hub = claim.0; file = none; ticks = suc w.ticks; faults = [] } in
    rw claimed (
      rw (handle_trusted env j later v trusted first) (
        run_job-Finishes env j later
          (claim_next-Started env.service w.hub env.agent (env.clock w.ticks) formed j claimed
            first)
          v
          ((validate_claimed_job-IsTrusted env.service.crypto env.certificates j env.identity).0
            trusted).may_run
          x))

-- The job that was interrupted, as the hub holds it once the agent has given it up.
abbrev pub given_up : Job → ℕ → Job
given_up i n = record i { status = failed; last_sequence = n + 1 }

interruption_accepted :
    (j : Job)
    → job_id_valid j.id ≡ true
    → 1 ≤ j.last_sequence
    → refused_report j.id (sent (failure j "agent restarted during execution; outcome unknown"))
      ≡ false
unfolding refused_report trim_space
interruption_accepted j v n = rw (named_id j.id v) (ground arith)

-- The file tells of an execution of the job `i` at the hub that was not reported on.
pub record IsInterrupted (env : Surroundings) (st : ExecutionState) (i : Job) (hub : MemoryStore)
    : Type 0 where
  pub executing : st.phase ≡ phase_executing
  pub own : st.job.agent_id ≡ env.identity.agent_id
  pub named : job_id_valid st.job.id ≡ true
  pub held : Held env.agent st.job.id i hub
  pub busy : i.status ≡ running
  pub unreported : i.last_sequence ≡ st.job.last_sequence
  pub claimed : 1 ≤ i.last_sequence

settle-Finishes :
    (env : Surroundings) (st : ExecutionState) (w : World) (i : Job)
    → agent_valid env.agent ≡ true
    → IsInterrupted env st i w.hub
    → Finishes env.agent st.job.id
        (given_up i st.job.last_sequence)
        w.runs
        (settle env st true (record w { faults = [] }))
unfolding attempt save
settle-Finishes env st w i a h =
    let valid = saved_valid st.job phase_completed (interrupted st).events h.named (inr refl) in
    rw valid (
      flush_events-Finishes env (interrupted st) (interrupted st).events
        (record w { file = some (env.codec.encode (interrupted st)) }) i a
        (job_id_valid-trim_space st.job.id h.named) valid h.held
        (
          h.busy,
          omega (arith, h.unreported),
          interruption_accepted st.job h.named (omega (arith, h.unreported, h.claimed)),
          tt,
        ))

settle_executing :
    (env : Surroundings) (st : ExecutionState) (b : Bool)
    → b ≡ true
    → settle env st b ≡ settle env st true
settle_executing env st true h = refl
settle_executing env st false h = cc

recover_state_executing :
    (env : Surroundings) (st : ExecutionState) (i : Job) (w : World) (hub : MemoryStore)
    → IsInterrupted env st i hub
    → recover_state env st w ≡ settle env st true w
unfolding recover_state
recover_state_executing env st i w hub h =
    rw ((eq_iff st.job.agent_id env.identity.agent_id).1 h.own, h.named)
      (ap (λ (m : Exec World Error (Unit {0})). m w)
        (settle_executing env st (st.phase == phase_executing)
          ((eq_iff st.phase phase_executing).1 h.executing)))

-- When the agent's calls work and its file tells of a job that was being executed when the agent
-- stopped, and on which it has not reported, then the call returns, nothing is run, the hub holds the
-- job as failed with one more event, and the file is gone.
pub process_next-recovers :
    (env : Surroundings) (w : World) (st : ExecutionState) (contents : String) (i : Job)
    → agent_valid env.agent ≡ true
    → env.codec.decode contents ≡ some st
    → IsInterrupted env st i w.hub
    → Finishes env.agent st.job.id
        (given_up i st.job.last_sequence)
        w.runs
        (process_next env (record w { file = some contents; faults = [] }))
unfolding process_next attempt load
process_next-recovers env w st contents i a decodes h =
    let kept : World = record w { file = some contents } in
    rw (decodes, valid)
      (rw (recover_state_executing env st i (record kept { faults = [] }) w.hub h)
        (settle-Finishes env st kept i a h))
  where
    valid : state_valid st ≡ true
    valid = saved_valid st.job st.phase st.events h.named (inl h.executing)
