-- ===== src/Jobs/History.antt =====
-- What the hub's callers can do to the jobs, in any order: operators create, agents claim and report.
use bazusop.Base.{refl, String, List, [], ◌∷◌, Result, Time}
use bazusop.Base.Keeps.{Keeps, keeps_rules}
use bazusop.Tenancy.{Scope, Agent}
use bazusop.Jobs.{Error, CreateRequest, Job, EventRequest, Event, MemoryStore}
use bazusop.Jobs.Store.{create_job, claim_next_job, record_job_event}
use bazusop.Jobs.Service.{Service, create, claim_next, report, new_job, approval}
use bazusop.Jobs.Invariant.{
  IsWellFormed, IsNew, create_job-IsWellFormed, claim_next_job-IsWellFormed,
}
use bazusop.Jobs.Report.{record_job_event-IsWellFormed}

pub data Call : Type 0 where
  creates : Scope → String → CreateRequest → Result Error String → Time → Call
  claims : Agent → Time → Call
  reports : Agent → String → EventRequest → Time → Call

unfoldable pub serve : Service → MemoryStore → Call → MemoryStore
serve sv s (creates sc agent r new_id now) = (create sv sc agent r new_id now s).0
serve sv s (claims a now) = (claim_next sv a now s).0
serve sv s (reports a id r now) = (report a id r now s).0

unfoldable pub run : Service → MemoryStore → List Call → MemoryStore
unfolding serve
run sv s [] = s
run sv s (c ∷ cs) = run sv (serve sv s c) cs

pub create_job-Keeps :
    (j : Job) (e : Event) → IsNew j e → Keeps IsWellFormed (λ s. create_job s j e)
create_job-Keeps j e n = record { at = λ s w. create_job-IsWellFormed s j e n w }

new_job-IsNew :
    (sv : Service) (sc : Scope) (agent : String) (r : CreateRequest) (id : String) (now : Time)
    → IsNew (new_job sv sc agent r id now) (approval (new_job sv sc agent r id now))
new_job-IsNew sv sc agent r id now = record {
  waits = refl;
  unclaimed = refl;
  first = refl;
  approval = refl;
}

create-Keeps :
    (sv : Service) (sc : Scope) (agent : String) (r : CreateRequest) (new_id : Result Error String)
    (now : Time)
    → Keeps IsWellFormed (create sv sc agent r new_id now)
unfolding create
create-Keeps sv sc agent r new_id now =
    search (keeps_rules, create_job-Keeps, new_job-IsNew) depth 12

claim-Keeps :
    (a : Agent) (now cutoff : Time) → Keeps IsWellFormed (λ s. claim_next_job s a now cutoff)
claim-Keeps a now cutoff = record { at = λ s w. claim_next_job-IsWellFormed s a now cutoff w }

claim_next-Keeps :
    (sv : Service) (a : Agent) (now : Time) → Keeps IsWellFormed (claim_next sv a now)
unfolding claim_next
claim_next-Keeps sv a now = search (keeps_rules, claim-Keeps)

record-Keeps :
    (a : Agent) (id : String) (r : EventRequest) (at : Time)
    → Keeps IsWellFormed (λ s. record_job_event s a id r at)
record-Keeps a id r at = record { at = λ s w. record_job_event-IsWellFormed s a id r at w }

report-Keeps :
    (a : Agent) (id : String) (r : EventRequest) (now : Time)
    → Keeps IsWellFormed (report a id r now)
unfolding report
report-Keeps a id r now = search (keeps_rules, record-Keeps)

pub serve-IsWellFormed :
    (sv : Service) (s : MemoryStore) (c : Call) → IsWellFormed s → IsWellFormed (serve sv s c)
unfolding serve
serve-IsWellFormed sv s (creates sc agent r new_id now) =
    (create-Keeps sv sc agent r new_id now).at s
serve-IsWellFormed sv s (claims a now) = (claim_next-Keeps sv a now).at s
serve-IsWellFormed sv s (reports a id r now) = (report-Keeps a id r now).at s

-- From a well-formed store, whatever is called, every stored job is found under its own scope and
-- identifier, and agrees with its event log: the events are numbered without a gap up to the job's
-- last sequence, and replaying them gives the job's status.
pub run-IsWellFormed :
    (sv : Service) (s : MemoryStore) (cs : List Call) → IsWellFormed s → IsWellFormed (run sv s cs)
unfolding run
run-IsWellFormed sv s [] w = w
run-IsWellFormed sv s (c ∷ cs) w =
    run-IsWellFormed sv (serve sv s c) cs (serve-IsWellFormed sv s c w)
