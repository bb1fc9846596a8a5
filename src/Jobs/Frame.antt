-- ===== src/Jobs/Frame.antt =====
-- What an agent's calls leave alone.
use bazusop.Base.{
  ◌-◌, ◌≡◌, sym, ◌∙◌, ap, String, List, [], ◌∷◌, ◌++◌, Option, none, some, ◌⊎◌, inl, inr, arith,
  Time, All, ==_cases, ◌≢◌,
}
use bazusop.Base.Assoc.{lookup, lookup-insert}
use bazusop.Base.Keeps.{Keeps, keeps_rules}
use bazusop.Tenancy.{Agent}
use bazusop.Jobs.{
  queued, running, succeeded, failed, Job, Event, EventRequest, JobKey, MemoryStore,
  job_key_comparable,
}
use bazusop.Jobs.Store.{
  or_empty, agent_key, write, claim_queued, claim_running, claim_event, claim_next_job,
  record_job_event, reported,
}
use bazusop.Jobs.Cases.{record_cases, record_for_cases, claim_cases}
use bazusop.Jobs.Invariant.{
  IsWellFormed, Holds, Selected, select-Selected, candidate-key, candidate-status, candidate-agent,
}
use bazusop.Jobs.Service.{Service, report}
use bazusop.Jobs.Claim.{claim_next_cases}
use bazusop.Jobs.History.{Call, claims, reports, creates, serve, run, serve-IsWellFormed}

abbrev pub IsFinished : Job → Type 0
IsFinished j = (j.status ≡ succeeded) ⊎ (j.status ≡ failed)

-- A job that `a` may not change.
abbrev pub OutOfReach : Agent → Job → Type 0
OutOfReach a j = (j.agent_id ≢ a.id) ⊎ IsFinished j

-- The job under `k` is `j` and its log is `es`.
abbrev pub Holding : JobKey → Job → Option (List Event) → MemoryStore → Type 0
Holding k j es s = (lookup k s.jobs ≡ some j) × (lookup k s.events ≡ es)

write-Holding :
    (s : MemoryStore) (k l : JobKey) (j i : Job) (es : Option (List Event)) (log : List Event)
    → lookup l s.jobs ≡ some i
    → i ≢ j
    → Holding k j es s
    → (u : Job) → Holding k j es (write s l u log)
write-Holding s k l j i es log old ne h u = elim (==_cases l k) [
  | inl (t, p) ↦ absurd (ne (cc (old, p, h.0)))
  | inr (f, n) ↦
      (rw (lookup-insert s.jobs l u k, f) h.0, rw (lookup-insert s.events l log k, f) h.1)
]

-- A job that `a` may change is not one that it may not.
apart :
    (a : Agent) (i j : Job)
    → i.agent_id ≡ a.id
    → (i.status ≡ queued) ⊎ (i.status ≡ running)
    → OutOfReach a j
    → i ≢ j
apart a i j own active (inl foreign) e = foreign (ap (λ (x : Job). x.agent_id) (sym e) ∙ own)
apart a i j own active (inr finished) e = let same = ap (λ (x : Job). x.status) e in ground arith

record_job_event-Holding :
    (s : MemoryStore) (a : Agent) (id : String) (r : EventRequest) (at : Time) (k : JobKey)
    (j : Job) (es : Option (List Event))
    → OutOfReach a j
    → Holding k j es s
    → Holding k j es (record_job_event s a id r at).0
record_job_event-Holding s a id r at k j es far h =
    record_cases (λ p. Holding k j es p.0) s a id r at h h
      λ _ i found own.
        record_for_cases (λ p. Holding k j es p.0) s a i r at id (λ _. h) h
          λ busy _.
            write-Holding s k (agent_key a id) j i es _ found (apart a i j own (inr busy) far) h
              (reported i r)

claim_queued-Holding :
    (s : MemoryStore) (a : Agent) (at : Time) (o : Option Job) (k : JobKey) (j : Job)
    (es : Option (List Event))
    → Holds (Selected s a queued) o
    → OutOfReach a j
    → Holding k j es s
    → Holding k j es (claim_queued s a at o).0
unfolding claim_queued
claim_queued-Holding s a at none k j es sel far h = h
claim_queued-Holding s a at (some i) k j es sel far h =
    write-Holding s k (agent_key a i.id) j i es
      (or_empty (lookup (agent_key a i.id) s.events) ++ claim_event a i at ∷ [])
      (rw (candidate-key a queued i sel.1) sel.0)
      (apart a i j (candidate-agent a queued i sel.1) (inl (candidate-status a queued i sel.1)) far)
      h (record i { status = running; last_sequence = 1 })

pub claim_running_store :
    (s : MemoryStore) (a : Agent) (at cutoff : Time) (i : Job)
    → (claim_running s a at cutoff (some i)).0 ≡ s
unfolding claim_running
claim_running_store s a at cutoff i = ground arith

claim_next_job-Holding :
    (s : MemoryStore) (a : Agent) (at cutoff : Time) (k : JobKey) (j : Job)
    (es : Option (List Event))
    → IsWellFormed s
    → OutOfReach a j
    → Holding k j es s
    → Holding k j es (claim_next_job s a at cutoff).0
claim_next_job-Holding s a at cutoff k j es w far h =
    claim_cases (λ p. Holding k j es p.0) s a at cutoff h
      (λ _ i _. rw (claim_running_store s a at cutoff i) h)
      (λ _ _. claim_queued-Holding s a at _ k j es (select-Selected s a queued w) far h)

-- The calls that an agent can make.
abbrev pub ByAgent : (Agent → Type 0) → Call → Type 0
ByAgent P (creates sc agent r new_id now) = ⊥
ByAgent P (claims a now) = P a
ByAgent P (reports a id r now) = P a

report-Holding :
    (k : JobKey) (j : Job) (es : Option (List Event)) (a : Agent) (id : String) (r : EventRequest)
    (now : Time)
    → OutOfReach a j
    → Keeps (Holding k j es) (λ s. record_job_event s a id r now)
report-Holding k j es a id r now far = record {
  at = λ s h. record_job_event-Holding s a id r now k j es far h;
}

serve-Holding :
    (sv : Service) (s : MemoryStore) (c : Call) (k : JobKey) (j : Job) (es : Option (List Event))
    → IsWellFormed s
    → ByAgent (λ a. OutOfReach a j) c
    → Holding k j es s
    → Holding k j es (serve sv s c)
unfolding serve report
serve-Holding sv s (creates sc agent r new_id now) k j es w far h = absurd far
serve-Holding sv s (claims a now) k j es w far h =
    claim_next_cases (λ p. Holding k j es p.0) sv a now s h
      (claim_next_job-Holding s a now (now - sv.job_lease) k j es w far h)
serve-Holding sv s (reports a id r now) k j es w far h =
    let kept : Keeps (Holding k j es) (report a id r now) = search (keeps_rules, report-Holding) in
    kept.at s h

-- Whatever agents claim and report, in any order, a job of none of them, and a job that has succeeded or
-- failed, stays as it is, and so does its event log.
pub run-Holding :
    (sv : Service) (s : MemoryStore) (cs : List Call) (k : JobKey) (j : Job)
    (es : Option (List Event))
    → IsWellFormed s
    → All (ByAgent (λ a. OutOfReach a j)) cs
    → Holding k j es s
    → Holding k j es (run sv s cs)
unfolding run
run-Holding sv s [] k j es w far h = h
run-Holding sv s (c ∷ cs) k j es w far h =
    run-Holding sv (serve sv s c) cs k j es (serve-IsWellFormed sv s c w) far.1
      (serve-Holding sv s c k j es w far.0 h)
