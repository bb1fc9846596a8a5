-- ===== src/Jobs/Single.antt =====
-- An agent runs one job at a time.
use bazusop.Base.{
  ℕ, ◌+◌, ◌≤◌, ◌≡◌, refl, ap, Option, none, some, List, [], ◌∷◌, true, false, String, arith, Time,
  any, filter, length, Bool, Bool-cases, inl, inr, string_comparable, eq_iff, ◌-◌,
}
use bazusop.Base.Keeps.{Keeps, keeps_rules}
use bazusop.Base.Assoc.{lookup, values}
use bazusop.Base.Assoc.Unique.{count, weight, count-insert}
use bazusop.Tenancy.{Agent}
use bazusop.Jobs.{
  queued, running, Job, Event, EventRequest, JobKey, MemoryStore, job_key_comparable,
}
use bazusop.Jobs.Store.{
  agent_key, job_key, write, select, is_candidate, reported, claim_queued, claim_next_job,
  create_job, record_job_event,
}
use bazusop.Jobs.Cases.{record_cases, record_for_cases, claim_cases}
use bazusop.Jobs.Invariant.{Holds, select-candidate}
use bazusop.Jobs.Order.{select-none}
use bazusop.Jobs.Frame.{claim_running_store}
use bazusop.Jobs.Service.{Service, create, report}
use bazusop.Jobs.Claim.{claim_next_cases}
use bazusop.Jobs.History.{Call, creates, claims, reports, serve, run}

abbrev pub running_count : Agent → MemoryStore → ℕ
running_count a s = count (is_candidate a running) s.jobs

pub record IsSingle (s : MemoryStore) : Type 0 where
  pub at_agent : (a : Agent) → running_count a s ≤ 1

count-any : {A : Type 0} (p : A → Bool) (xs : List A) → any p xs ≡ false → length (filter p xs) ≡ 0
count-any p [] h = refl
count-any p (x ∷ xs) h = ground (arith, count-any p xs)

-- A write that makes no job run which did not.
write-IsSingle :
    (s : MemoryStore) (k : JobKey) (j : Job) (es : List Event)
    → ((a : Agent)
        → weight (is_candidate a running) (some j)
          ≤ weight (is_candidate a running) (lookup k s.jobs))
    → IsSingle s
    → IsSingle (write s k j es)
write-IsSingle s k j es less h = record {
  at_agent =
      λ a. omega (arith, count-insert (is_candidate a running) k j s.jobs, less a, h.at_agent a);
}

record_job_event-IsSingle :
    (s : MemoryStore) (a : Agent) (id : String) (r : EventRequest) (at : Time)
    → IsSingle s
    → IsSingle (record_job_event s a id r at).0
record_job_event-IsSingle s a id r at h =
    record_cases (λ p. IsSingle p.0) s a id r at h h
      λ _ j found own.
        record_for_cases (λ p. IsSingle p.0) s a j r at id (λ _. h) h
          λ busy _.
            write-IsSingle s (agent_key a id) (reported j r) _ (λ b. rw found (ground arith)) h

-- Agents that count the same job as theirs count the same jobs.
same_agent :
    (a b : Agent) (j : Job)
    → is_candidate a queued j ≡ true
    → is_candidate b running (record j { status = running; last_sequence = 1 }) ≡ true
    → b ≡ a
same_agent a b j h k =
    λ i. record { id = (names.0) i; organization_id = (names.1) i; site_id = (names.2) i }
  where
    names : (b.id ≡ a.id) × (b.organization_id ≡ a.organization_id) × (b.site_id ≡ a.site_id)
    names = ground (
      arith,
      eq_iff j.agent_id a.id,
      eq_iff j.agent_id b.id,
      eq_iff j.organization_id a.organization_id,
      eq_iff j.organization_id b.organization_id,
      eq_iff j.site_id a.site_id,
      eq_iff j.site_id b.site_id,
    )

-- Starting a job of an agent that runs none leaves every agent with one at most.
started_count :
    (s : MemoryStore) (a b : Agent) (j : Job)
    → running_count a s ≡ 0
    → running_count b s ≤ 1
    → is_candidate a queued j ≡ true
    → running_count b s
        + weight (is_candidate b running) (some (record j { status = running; last_sequence = 1 }))
      ≤ 1
started_count s a b j free h c =
    elim (Bool-cases (is_candidate b running (record j { status = running; last_sequence = 1 }))) [
      | inl t ↦ rw t (let same = ap (λ x. running_count x s) (same_agent a b j c t) in omega arith)
      | inr f ↦ rw f (omega arith)
    ]

claim_queued-IsSingle :
    (s : MemoryStore) (a : Agent) (at : Time) (o : Option Job)
    → running_count a s ≡ 0
    → Holds (λ j. is_candidate a queued j ≡ true) o
    → IsSingle s
    → IsSingle (claim_queued s a at o).0
unfolding claim_queued
claim_queued-IsSingle s a at none free c h = h
claim_queued-IsSingle s a at (some j) free c h = record {
  at_agent = λ b. omega (
    arith,
    count-insert (is_candidate b running) (agent_key a j.id)
        (record j { status = running; last_sequence = 1 }) s.jobs,
    started_count s a b j free (h.at_agent b) c,
  );
}

claim_next_job-IsSingle :
    (s : MemoryStore) (a : Agent) (at cutoff : Time)
    → IsSingle s
    → IsSingle (claim_next_job s a at cutoff).0
claim_next_job-IsSingle s a at cutoff h =
    claim_cases (λ p. IsSingle p.0) s a at cutoff h
      (λ _ j _. rw (claim_running_store s a at cutoff j) h)
      λ _ e.
        claim_queued-IsSingle s a at (select a queued none (values s.jobs))
          (count-any (is_candidate a running) (values s.jobs)
            (select-none a running none (values s.jobs) e).1)
          (select-candidate a queued (values s.jobs)) h

create_job-IsSingle :
    (s : MemoryStore) (j : Job) (e : Event)
    → j.status ≡ queued
    → IsSingle s
    → IsSingle (create_job s j e).0
unfolding create_job
create_job-IsSingle s j e q h =
    ground (arith, write-IsSingle s (job_key j) j (e ∷ []) (λ a. rw q (ground arith)) h)

create-Single : (j : Job) (e : Event) → j.status ≡ queued → Keeps IsSingle (λ s. create_job s j e)
create-Single j e q = record { at = λ s h. create_job-IsSingle s j e q h }

record-Single :
    (a : Agent) (id : String) (r : EventRequest) (at : Time)
    → Keeps IsSingle (λ s. record_job_event s a id r at)
record-Single a id r at = record { at = λ s h. record_job_event-IsSingle s a id r at h }

serve-IsSingle : (sv : Service) (s : MemoryStore) (c : Call) → IsSingle s → IsSingle (serve sv s c)
unfolding serve create report
serve-IsSingle sv s (creates sc agent r new_id now) h =
    let kept : Keeps IsSingle (create sv sc agent r new_id now) =
      search (keeps_rules, create-Single) depth 12 in
    kept.at s h
serve-IsSingle sv s (claims a now) h =
    claim_next_cases (λ p. IsSingle p.0) sv a now s h
      (claim_next_job-IsSingle s a now (now - sv.job_lease) h)
serve-IsSingle sv s (reports a id r now) h =
    let kept : Keeps IsSingle (report a id r now) = search (keeps_rules, record-Single) in
    kept.at s h

-- If no agent runs more than one job, then whatever is called, in any order, none ever does.
pub run-IsSingle :
    (sv : Service) (s : MemoryStore) (cs : List Call) → IsSingle s → IsSingle (run sv s cs)
unfolding run
run-IsSingle sv s [] h = h
run-IsSingle sv s (c ∷ cs) h = run-IsSingle sv (serve sv s c) cs (serve-IsSingle sv s c h)
