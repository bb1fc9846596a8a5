-- ===== src/Jobs/Report.antt =====
-- RecordJobEvent keeps a job in step with its log.
use bazusop.Base.{◌+◌, ◌≡◌, String, List, [], ◌∷◌, ◌++◌, some, arith, Time}
use bazusop.Base.Assoc.{lookup}
use bazusop.Base.Assoc.Unique.{All-lookup}
use bazusop.Tenancy.{Agent}
use bazusop.Jobs.{running, Job, Event, EventRequest, JobKey, MemoryStore, job_key_comparable}
use bazusop.Jobs.Store.{
  or_empty, job_key, agent_key, record_for, record_job_event, reported, reported_event,
}
use bazusop.Jobs.Cases.{record_cases, record_for_cases}
use bazusop.Jobs.Log.{Log}
use bazusop.Jobs.Invariant.{IsWellFormed, write-IsWellFormed, Log-append}

report_Log :
    (a : Agent) (id : String) (j : Job) (r : EventRequest) (at : Time) (es : List Event)
    → j.status ≡ running
    → r.sequence ≡ j.last_sequence + 1
    → Log j es
    → Log (reported j r) (es ++ reported_event a id r at ∷ [])
report_Log a id j r at es p q l =
    Log-append j (reported j r) es (reported_event a id r at) l (omega arith) (omega arith)
      (rw p (ground arith)) (rw p (ground arith))

record_for-IsWellFormed :
    (s : MemoryStore) (a : Agent) (j : Job) (r : EventRequest) (at : Time) (id : String)
    → IsWellFormed s
    → lookup (agent_key a id) s.jobs ≡ some j
    → IsWellFormed (record_for s a j r at id).0
record_for-IsWellFormed s a j r at id w h =
    let key = agent_key a id in
    let past = or_empty (lookup key s.events) in
    record_for_cases (λ p. IsWellFormed p.0) s a j r at id (λ _. w) w
      λ p q.
        write-IsWellFormed s key (reported j r) (past ++ reported_event a id r at ∷ []) w
          (All-lookup (λ (k : JobKey) (v : Job). job_key v ≡ k) key j s.jobs w.keyed h)
          (report_Log a id j r at past p q (w.logged key j h))

pub record_job_event-IsWellFormed :
    (s : MemoryStore) (a : Agent) (id : String) (r : EventRequest) (at : Time)
    → IsWellFormed s
    → IsWellFormed (record_job_event s a id r at).0
record_job_event-IsWellFormed s a id r at w =
    record_cases (λ p. IsWellFormed p.0) s a id r at w w
      λ _ j found _. record_for-IsWellFormed s a j r at id w found
