-- ===== src/Jobs/Invariant.antt =====
-- The stored jobs agree with their event logs, whatever the hub and the agents do.
use bazusop.Base.{
  suc, ◌≡◌, refl, sym, true, ◌&&◌, List, [], ◌∷◌, ◌++◌, Option, none, some, arith,
  string_comparable, eq_iff, length-append, All, Bool-cases, inl, inr, Time, ◌≢◌,
}
use bazusop.Base.Assoc.{lookup, values}
use bazusop.Base.Assoc.Unique.{IsUnique, insert-IsUnique, All-insert, values-lookup}
use bazusop.Base.Assoc.Joined.{Joined, insert-Joined}
use bazusop.Tenancy.{Agent}
use bazusop.Jobs.{
  Status, queued, running, Job, Event, JobKey, MemoryStore, job_key_comparable, event_approved,
}
use bazusop.Jobs.Store.{
  empty_store, write, or_empty, job_key, agent_key, create_job, is_candidate, replaces, pick,
  select, claim_queued, claim_next_job, claim_event,
}
use bazusop.Jobs.Log.{
  replay_step, replay_from, replay_from-append, IsNumbered, IsNumbered-append, Log,
}

abbrev pub Logged : Job → Option (List Event) → Type 0
Logged j es = Log j (or_empty es)

pub record IsWellFormed (s : MemoryStore) : Type 0 where
  pub unique : IsUnique s.jobs
  pub keyed : All (λ (entry : JobKey × Job). job_key entry.1 ≡ entry.0) s.jobs
  pub logged : Joined Logged s.jobs s.events

pub empty_store-IsWellFormed : IsWellFormed empty_store
unfolding lookup
empty_store-IsWellFormed = record { unique = tt; keyed = tt; logged = λ k j h. cc }

pub write-IsWellFormed :
    (s : MemoryStore) (k : JobKey) (j : Job) (es : List Event)
    → IsWellFormed s
    → job_key j ≡ k
    → Log j es
    → IsWellFormed (write s k j es)
write-IsWellFormed s k j es w p l = record {
  unique = insert-IsUnique k j s.jobs w.unique;
  keyed = All-insert (λ k v. job_key v ≡ k) k j s.jobs w.keyed p;
  logged = insert-Joined Logged k j es s.jobs s.events w.logged l;
}

-- A job and the event of its approval, as the hub has just made them.
pub record IsNew (j : Job) (e : Event) : Type 0 where
  pub waits : j.status ≡ queued
  pub unclaimed : j.last_sequence ≡ 0
  pub first : e.sequence ≡ 0
  pub approval : e.type ≡ event_approved

new_Log : (j : Job) (e : Event) → IsNew j e → Log j (e ∷ [])
unfolding IsNumbered replay_from
new_Log j e n = record {
  numbered = (n.first, tt);
  counted = omega (arith, n.unclaimed);
  replayed = rw n.approval (sym n.waits);
  waiting = λ _. n.unclaimed;
}

pub create_job-IsWellFormed :
    (s : MemoryStore) (j : Job) (e : Event)
    → IsNew j e
    → IsWellFormed s
    → IsWellFormed (create_job s j e).0
unfolding create_job
create_job-IsWellFormed s j e n w =
    ground (arith, write-IsWellFormed s (job_key j) j (e ∷ []) w refl (new_Log j e n))

-- One more event carries a log from one state of the job to the next.
pub Log-append :
    (i j : Job) (es : List Event) (e : Event)
    → Log i es
    → e.sequence ≡ suc i.last_sequence
    → j.last_sequence ≡ suc i.last_sequence
    → replay_step i.status e ≡ j.status
    → j.status ≢ queued
    → Log j (es ++ e ∷ [])
Log-append i j es e l p q r ne = record {
  numbered = IsNumbered-append 0 es e l.numbered (omega (arith, l.counted));
  counted = omega (arith, length-append {0} es (e ∷ []), l.counted);
  replayed = rw (replay_from-append queued es e, l.replayed) r;
  waiting = λ h. absurd (ne h);
}

abbrev pub Holds : (Job → Type 0) → Option Job → Type 0
Holds P none = Unit
Holds P (some j) = P j

All-true : (cs : List Job) → All (λ _. Unit {0}) cs
All-true [] = tt
All-true (c ∷ cs) = (tt, All-true cs)

Holds-snd : (P : Job → Type 0) (o : Option Job) → Holds (λ j. Unit {0} × P j) o → Holds P o
Holds-snd P none h = tt
Holds-snd P (some j) h = h.1

-- What holds of every job holds of the selected one, and it passes the selection's test.
pick-Holds :
    (P : Job → Type 0) (a : Agent) (st : Status) (c : Job) (o : Option Job)
    → P c
    → Holds (λ j. P j × (is_candidate a st j ≡ true)) o
    → Holds (λ j. P j × (is_candidate a st j ≡ true)) (pick a st c o)
unfolding pick
pick-Holds P a st c o p k = elim (Bool-cases (is_candidate a st c && replaces c o)) [
  | inl t ↦ rw t (p, ground arith)
  | inr f ↦ rw f k
]

pub select-Holds :
    (P : Job → Type 0) (a : Agent) (st : Status) (o : Option Job) (cs : List Job)
    → All P cs
    → Holds (λ j. P j × (is_candidate a st j ≡ true)) o
    → Holds (λ j. P j × (is_candidate a st j ≡ true)) (select a st o cs)
unfolding select
select-Holds P a st o [] h k = k
select-Holds P a st o (c ∷ cs) h k =
    select-Holds P a st (pick a st c o) cs h.1 (pick-Holds P a st c o h.0 k)

pub select-candidate :
    (a : Agent) (st : Status) (cs : List Job)
    → Holds (λ j. is_candidate a st j ≡ true) (select a st none cs)
select-candidate a st cs =
    Holds-snd (λ j. is_candidate a st j ≡ true) (select a st none cs)
      (select-Holds (λ _. Unit {0}) a st none cs (All-true cs) tt)

-- What a selection returns is stored under its own key, and is the agent's.
abbrev pub Selected : MemoryStore → Agent → Status → Job → Type 0
Selected s a st j = (lookup (job_key j) s.jobs ≡ some j) × (is_candidate a st j ≡ true)

pub select-Selected :
    (s : MemoryStore) (a : Agent) (st : Status)
    → IsWellFormed s
    → Holds (Selected s a st) (select a st none (values s.jobs))
select-Selected s a st w =
    select-Holds (λ j. lookup (job_key j) s.jobs ≡ some j) a st none (values s.jobs)
      (values-lookup job_key s.jobs w.unique w.keyed) tt

pub candidate-key :
    (a : Agent) (st : Status) (j : Job) → is_candidate a st j ≡ true → agent_key a j.id ≡ job_key j
candidate-key a st j h =
    ground (arith, eq_iff j.organization_id a.organization_id, eq_iff j.site_id a.site_id)

pub candidate-status :
    (a : Agent) (st : Status) (j : Job) → is_candidate a st j ≡ true → j.status ≡ st
candidate-status a st j h = ground arith

pub candidate-agent :
    (a : Agent) (st : Status) (j : Job) → is_candidate a st j ≡ true → j.agent_id ≡ a.id
candidate-agent a st j h = ground (arith, eq_iff j.agent_id a.id)

claim_Log :
    (a : Agent) (j : Job) (at : Time) (es : List Event)
    → j.status ≡ queued
    → Log j es
    → Log (record j { status = running; last_sequence = 1 }) (es ++ claim_event a j at ∷ [])
claim_Log a j at es q l =
    Log-append j (record j { status = running; last_sequence = 1 }) es (claim_event a j at) l
      (omega (arith, l.waiting q)) (omega (arith, l.waiting q)) refl (λ h. cc)

claim_queued-IsWellFormed :
    (s : MemoryStore) (a : Agent) (at : Time) (o : Option Job)
    → IsWellFormed s
    → Holds (Selected s a queued) o
    → IsWellFormed (claim_queued s a at o).0
unfolding claim_queued
claim_queued-IsWellFormed s a at none w h = w
claim_queued-IsWellFormed s a at (some j) w h =
    let key = candidate-key a queued j h.1 in
    write-IsWellFormed s (agent_key a j.id) (record j { status = running; last_sequence = 1 })
      (or_empty (lookup (agent_key a j.id) s.events) ++ claim_event a j at ∷ []) w (sym key)
      (rw key (
        claim_Log a j at (or_empty (lookup (job_key j) s.events)) (candidate-status a queued j h.1)
          (w.logged (job_key j) j h.0)))

pub claim_next_job-IsWellFormed :
    (s : MemoryStore) (a : Agent) (at cutoff : Time)
    → IsWellFormed s
    → IsWellFormed (claim_next_job s a at cutoff).0
unfolding claim_next_job
claim_next_job-IsWellFormed s a at cutoff w = ground (
  arith,
  claim_queued-IsWellFormed s a at (select a queued none (values s.jobs)) w
      (select-Selected s a queued w),
)
