-- ===== src/Executor/Guard.antt =====
-- What is known of a job that the agent has claimed, and of one that it is about to run.
use bazusop.Base.{
  ℕ, ◌≡◌, sym, subst, false, String, List, Option, none, some, ◌⊎◌, inl, inr, arith, Time, ==_cases,
  ◌==◌, string_comparable, ◌≢◌, Result, ok, ◌>>=◌, length, filter, ◌-◌,
}
use bazusop.Base.Assoc.{lookup, values, lookup-insert_self}
use bazusop.Base.Keeps.{Keeps, Leads, Leads-first, Leads-then}
use bazusop.Tenancy.{Agent}
use bazusop.Jobs.{queued, running, Job, EventRequest, MemoryStore, job_key_comparable}
use bazusop.Jobs.{Error as HubError}
use bazusop.Jobs.Store.{agent_key, select, claim_queued, claim_running}
use bazusop.Jobs.Invariant.{
  IsWellFormed, Holds, Selected, select-Selected, candidate-key, candidate-status,
}
use bazusop.Jobs.Cases.{claim_cases}
use bazusop.Jobs.Claim.{claim_next_cases}
use bazusop.Jobs.Service.{Service, claim_next}
use bazusop.Jobs.History.{reports, serve, serve-IsWellFormed}
use bazusop.Jobs.Spent.{IsSpent, serve-IsSpent}
use bazusop.Executor.World.{
  Fault, works, lost, fails, World, Surroundings, attempt_as, attempt, save_state, report_event,
  execute_job,
}
use bazusop.Executor.Process.{wrapped, executing, result_events, report_events, run_job}
use bazusop.Executor.Frame.{Kept, attempt-Kept, wrapped-Kept, save-Kept, report_events-Kept}

-- How often the job was run.
abbrev pub times : String → List String → ℕ
times id runs = length (filter (λ r. r == id) runs)

-- A job that was run was run once, and does not wait at the hub.
abbrev pub Guard : Agent → String → MemoryStore → List String → Type 0
Guard a id hub runs =
    IsWellFormed hub × ((times id runs ≡ 0) ⊎ ((times id runs ≡ 1) × IsSpent (agent_key a id) hub))

-- What is known where a job is about to be run: it has not been, and it does not wait any more.
abbrev pub Ready : Agent → String → Job → MemoryStore → List String → Type 0
Ready a id j hub runs =
    Guard a id hub runs × (j.id ≡ id → (times id runs ≡ 0) × IsSpent (agent_key a id) hub)

pub Guard-hub :
    (a : Agent) (id : String) (s t : MemoryStore) (runs : List String)
    → (IsWellFormed s → IsWellFormed t)
    → (IsSpent (agent_key a id) s → IsSpent (agent_key a id) t)
    → Guard a id s runs
    → Guard a id t runs
Guard-hub a id s t runs formed spent (w, inl none_yet) = (formed w, inl none_yet)
Guard-hub a id s t runs formed spent (w, inr (once, h)) = (formed w, inr (once, spent h))

pub report-Guard :
    (env : Surroundings) (a : Agent) (id : String) (i : String) (e : EventRequest)
    → Keeps (Kept (Guard a id)) (report_event env i e)
unfolding serve
report-Guard env a id i e = record {
  at = λ w h.
      Guard-hub a id w.hub _ w.runs
        (serve-IsWellFormed env.service w.hub (reports env.agent i e (env.clock w.ticks)))
        (serve-IsSpent (agent_key a id) env.service w.hub
          (reports env.agent i e (env.clock w.ticks)) tt)
        h;
}

execute-Guard :
    (env : Surroundings) (a : Agent) (id : String) (j : Job)
    → Leads (Kept (Ready a id j)) (Kept (Guard a id)) (attempt (execute_job env j))
unfolding attempt
execute-Guard env a id j = record { at = λ w h. go _ (record w { faults = _ }) h }
  where
    ran : (w : World) → Kept (Ready a id j) w → Kept (Guard a id) (execute_job env j w).0
    ran w h = elim (==_cases j.id id) [
      | inl (t, p) ↦ rw t (h.0.0, inr (omega (arith, (h.1 p).0), (h.1 p).1))
      | inr (f, n) ↦ rw f h.0
    ]

    go :
        (f : Fault) (w : World)
        → Kept (Ready a id j) w
        → Kept (Guard a id) (attempt_as f (execute_job env j) w).0
    go works w h = ran w h
    go (lost e) w h = ran w h
    go (fails e) w h = h.0

pub run_job-Guard :
    (env : Surroundings) (a : Agent) (id : String) (j : Job)
    → Leads (Kept (Ready a id j)) (Kept (Guard a id)) (run_job env j)
unfolding run_job
run_job-Guard env a id j =
    Leads-first (wrapped "persist job before execution: " (attempt (save_state env (executing j))))
      (λ _. attempt (execute_job env j) >>= λ result. report_events env j (result_events j result))
      (search (wrapped-Kept, attempt-Kept, save-Kept)) (λ w h. h.0)
      (λ _.
        Leads-then (attempt (execute_job env j))
          (λ result. report_events env j (result_events j result)) (execute-Guard env a id j)
          (λ result.
            report_events-Kept (Guard a id) env (report-Guard env a id) j (result_events j result)))

-- Of a job that a claim hands out to be run.
abbrev Fresh : Agent → String → List String → MemoryStore × Result HubError (Option Job) → Type 0
Fresh a id runs p =
    (j : Job)
    → p.1 ≡ ok (some j)
    → j.resumed ≡ false
    → j.id ≡ id
    → (times id runs ≡ 0) × IsSpent (agent_key a id) p.0

started-Fresh :
    (s : MemoryStore) (a : Agent) (id : String) (runs : List String) (i : Job) (at : Time)
    → Selected s a queued i
    → Guard a id s runs
    → i.id ≡ id
    → (times id runs ≡ 0) × IsSpent (agent_key a id) (claim_queued s a at (some i)).0
unfolding claim_queued
started-Fresh s a id runs i at sel g e = (unrun g.1, spent)
  where
    found : lookup (agent_key a id) s.jobs ≡ some i
    found = rw (sym e, candidate-key a queued i sel.1) sel.0

    unrun :
        (times id runs ≡ 0) ⊎ ((times id runs ≡ 1) × IsSpent (agent_key a id) s) → times id runs ≡ 0
    unrun (inl none_yet) = none_yet
    unrun (inr (once, h)) =
        let busy : i.status ≢ queued = subst (Holds (λ (j : Job). j.status ≢ queued)) found h in
        absurd (busy (candidate-status a queued i sel.1))

    spent : IsSpent (agent_key a id) (claim_queued s a at (some i)).0
    spent =
        rw
          (
            sym e,
            lookup-insert_self (agent_key a i.id) (record i { status = running; last_sequence = 1 })
                s.jobs,
          )
          (λ q. cc)

claim_queued-Fresh :
    (s : MemoryStore) (a : Agent) (id : String) (runs : List String) (o : Option Job) (at : Time)
    → Holds (Selected s a queued) o
    → Guard a id s runs
    → Fresh a id runs (claim_queued s a at o)
unfolding claim_queued
claim_queued-Fresh s a id runs none at sel g = λ j e. cc
claim_queued-Fresh s a id runs (some i) at sel g =
    λ j e _ same. started-Fresh s a id runs i at sel g (ground (arith, e, same))

claim_running-Fresh :
    (s : MemoryStore) (a : Agent) (id : String) (runs : List String) (i : Job) (at cutoff : Time)
    → Fresh a id runs (claim_running s a at cutoff (some i))
unfolding claim_running
claim_running-Fresh s a id runs i at cutoff = λ j e first same. ground (arith, e, first)

pub claim_next-Fresh :
    (sv : Service) (s : MemoryStore) (a : Agent) (id : String) (runs : List String) (now : Time)
    → Guard a id s runs
    → Fresh a id runs (claim_next sv a now s)
claim_next-Fresh sv s a id runs now g =
    claim_next_cases (Fresh a id runs) sv a now s (λ j e. cc)
      (claim_cases (Fresh a id runs) s a now (now - sv.job_lease) (λ j e. cc)
        (λ _ i _. claim_running-Fresh s a id runs i now (now - sv.job_lease))
        (λ _ _.
          claim_queued-Fresh s a id runs (select a queued none (values s.jobs)) now
            (select-Selected s a queued g.0) g))
