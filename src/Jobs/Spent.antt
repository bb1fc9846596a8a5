-- ===== src/Jobs/Spent.antt =====
-- A job that has been started does not wait again.
use bazusop.Base.{
  ◌-◌, ◌≡◌, ap, String, List, [], Option, none, some, inl, inr, arith, Time, ==_cases, ◌≢◌, ok, err,
  trim_space,
}
use bazusop.Base.Assoc.{lookup, values, lookup-insert}
use bazusop.Base.Keeps.{Keeps, keeps_rules}
use bazusop.Tenancy.{Scope, Agent}
use bazusop.Jobs.{
  Error, queued, running, Job, Event, EventRequest, JobKey, CreateRequest, MemoryStore,
  job_key_comparable,
}
use bazusop.Jobs.Store.{
  job_key, agent_key, write, select, claim_queued, claim_next_job, create_job, record_job_event,
  reported,
}
use bazusop.Jobs.Cases.{record_cases, record_for_cases, claim_cases}
use bazusop.Jobs.Invariant.{Holds}
use bazusop.Jobs.Frame.{claim_running_store}
use bazusop.Jobs.Service.{Service, create, report, new_job, approval, trimmed}
use bazusop.Jobs.Claim.{claim_next_cases}
use bazusop.Jobs.History.{Call, creates, claims, reports, serve}

-- No job waits under the key.
abbrev pub IsSpent : JobKey → MemoryStore → Type 0
IsSpent k s = Holds (λ j. j.status ≢ queued) (lookup k s.jobs)

pub write-IsSpent :
    (s : MemoryStore) (k l : JobKey) (j : Job) (es : List Event)
    → j.status ≢ queued
    → IsSpent k s
    → IsSpent k (write s l j es)
write-IsSpent s k l j es ne h = elim (==_cases l k) [
  | inl (t, p) ↦ rw (lookup-insert s.jobs l j k, t) ne
  | inr (f, n) ↦ rw (lookup-insert s.jobs l j k, f) h
]

reported-status : (j : Job) (r : EventRequest) → j.status ≡ running → (reported j r).status ≢ queued
reported-status j r e q = ground arith

record-IsSpent :
    (k : JobKey) (a : Agent) (id : String) (r : EventRequest) (at : Time)
    → Keeps (IsSpent k) (λ s. record_job_event s a id r at)
record-IsSpent k a id r at = record {
  at = λ s h.
      record_cases (λ p. IsSpent k p.0) s a id r at h h
        λ _ j found own.
          record_for_cases (λ p. IsSpent k p.0) s a j r at id (λ _. h) h
            λ busy _.
              write-IsSpent s k (agent_key a id) (reported j r) [] (reported-status j r busy) h;
}

pub report-IsSpent :
    (k : JobKey) (a : Agent) (id : String) (r : EventRequest) (now : Time)
    → Keeps (IsSpent k) (report a id r now)
unfolding report
report-IsSpent k a id r now = search (keeps_rules, record-IsSpent)

claim_queued-IsSpent :
    (k : JobKey) (s : MemoryStore) (a : Agent) (at : Time) (o : Option Job)
    → IsSpent k s
    → IsSpent k (claim_queued s a at o).0
unfolding claim_queued
claim_queued-IsSpent k s a at none h = h
claim_queued-IsSpent k s a at (some j) h =
    write-IsSpent s k (agent_key a j.id) (record j { status = running; last_sequence = 1 }) []
      (λ e. cc) h

claim_next_job-IsSpent :
    (k : JobKey) (s : MemoryStore) (a : Agent) (at cutoff : Time)
    → IsSpent k s
    → IsSpent k (claim_next_job s a at cutoff).0
claim_next_job-IsSpent k s a at cutoff h =
    claim_cases (λ p. IsSpent k p.0) s a at cutoff h
      (λ _ j _. rw (claim_running_store s a at cutoff j) h)
      (λ _ _. claim_queued-IsSpent k s a at (select a queued none (values s.jobs)) h)

create_job-IsSpent :
    (k : JobKey) (j : Job) (e : Event) → j.id ≢ k.id → Keeps (IsSpent k) (λ s. create_job s j e)
unfolding create_job
create_job-IsSpent k j e ne = record {
  at = λ s h. elim (==_cases (job_key j) k) [
    | inl (t, p) ↦ absurd (ne (ap (λ (x : JobKey). x.id) p))
    | inr (f, n) ↦ ground (arith, lookup-insert s.jobs (job_key j) j k)
  ];
}

create-IsSpent :
    (k : JobKey) (sv : Service) (sc : Scope) (agent : String) (r : CreateRequest) (id : String)
    (now : Time)
    → id ≢ k.id
    → Keeps (IsSpent k) (create sv sc agent r (ok id) now)
unfolding create
create-IsSpent k sv sc agent r id now ne = record {
  at = λ s h. ground (
    arith,
    (create_job-IsSpent k (new_job sv sc (trim_space agent) (trimmed r) id now)
          (approval (new_job sv sc (trim_space agent) (trimmed r) id now)) ne).at
        s h,
  );
}

failed-IsSpent :
    (k : JobKey) (sv : Service) (sc : Scope) (agent : String) (r : CreateRequest) (e : Error)
    (now : Time)
    → Keeps (IsSpent k) (create sv sc agent r (err e) now)
unfolding create
failed-IsSpent k sv sc agent r e now = record { at = λ s h. ground (arith) }

-- What a call draws for a new job is another identifier.
abbrev pub Avoids : String → Call → Type 0
Avoids id (creates sc agent r (ok drawn) now) = drawn ≢ id
Avoids id (creates sc agent r (err e) now) = Unit
Avoids id (claims a now) = Unit
Avoids id (reports a i r now) = Unit

pub serve-IsSpent :
    (k : JobKey) (sv : Service) (s : MemoryStore) (c : Call)
    → Avoids k.id c
    → IsSpent k s
    → IsSpent k (serve sv s c)
unfolding serve
serve-IsSpent k sv s (creates sc agent r (ok id) now) ne h =
    (create-IsSpent k sv sc agent r id now ne).at s h
serve-IsSpent k sv s (creates sc agent r (err e) now) _ h =
    (failed-IsSpent k sv sc agent r e now).at s h
serve-IsSpent k sv s (claims a now) _ h =
    claim_next_cases (λ p. IsSpent k p.0) sv a now s h
      (claim_next_job-IsSpent k s a now (now - sv.job_lease) h)
serve-IsSpent k sv s (reports a id r now) _ h = (report-IsSpent k a id r now).at s h
