-- ===== src/Jobs/Store.antt =====
-- The methods of jobs.MemoryStore. The store's mutex makes each of them one step.
use bazusop.Base.{
  ℕ, ◌+◌, String, Bool, true, not, ◌&&◌, ◌||◌, List, [], ◌∷◌, ◌++◌, Option, none, some, leb, ◌==◌,
  string_comparable, nat_comparable, string_ltb, if◌then◌else◌, Result, ok, err, Time, before,
  after, find, any, filter, take, map,
}
use Prim.Native.String.{◌++◌ as append}
use bazusop.Base.Assoc.{Map, lookup, insert, values}
use bazusop.Base.Sort.{sort_by}
use bazusop.Tenancy.{Scope, Agent, scope_of, scope_valid, agent_valid, scope_comparable}
use bazusop.Jobs.{
  Error, job_conflict, job_not_found, invalid_scope, Status, queued, running, succeeded, failed,
  status_eqb, event_claimed, event_succeeded, event_failed, Job, Event, EventRequest, JobKey,
  MemoryStore, job_key_comparable,
}

abbrev pub empty_store : MemoryStore
empty_store = record { jobs = []; events = [] }

-- A slice that a map has no entry for is empty.
abbrev pub or_empty {ℓ} : {A : Type ℓ} → Option (List A) → List A
or_empty none = []
or_empty (some l) = l

abbrev pub job_key : Job → JobKey
job_key j = record {
  scope = record { organization_id = j.organization_id; site_id = j.site_id };
  id = j.id;
}

abbrev pub agent_key : Agent → String → JobKey
agent_key a id = record { scope = scope_of a; id = id }

abbrev pub agent_actor : Agent → String
agent_actor a = append "agent:" a.id

-- A job and its log are written together.
abbrev pub write : MemoryStore → JobKey → Job → List Event → MemoryStore
write s k j es = record { jobs = insert k j s.jobs; events = insert k es s.events }

unfoldable pub create_job : MemoryStore → Job → Event → MemoryStore × Result Error (Unit {0})
create_job s job event =
    let key = job_key job in
    if not (scope_valid key.scope)
      || not (event.organization_id == job.organization_id)
      || not (event.site_id == job.site_id)
    then (s, err invalid_scope)
    else (write s key job (event ∷ []), ok tt)

-- The tests of both selection loops.
abbrev pub is_candidate : Agent → Status → Job → Bool
is_candidate a st c =
    c.agent_id == a.id
    && c.organization_id == a.organization_id
    && c.site_id == a.site_id
    && status_eqb c.status st

abbrev pub is_earlier : Job → Job → Bool
is_earlier c s =
    before c.requested_at s.requested_at
    || (c.requested_at == s.requested_at && string_ltb c.id s.id)

abbrev pub replaces : Job → Option Job → Bool
replaces c none = true
replaces c (some s) = is_earlier c s

-- One round of a selection loop.
unfoldable pub pick : Agent → Status → Job → Option Job → Option Job
pick a st c selected = if is_candidate a st c && replaces c selected then some c else selected

unfoldable pub select : Agent → Status → Option Job → List Job → Option Job
unfolding pick
select a st selected [] = selected
select a st selected (c ∷ cs) = select a st (pick a st c selected) cs

abbrev pub claimed_after : Time → Event → Bool
claimed_after t e = e.type == event_claimed && after e.occurred_at t

abbrev pub claim_event : Agent → Job → Time → Event
claim_event a j at = record {
  job_id = j.id;
  organization_id = a.organization_id;
  site_id = a.site_id;
  sequence = 1;
  type = event_claimed;
  message = "agent claimed job";
  actor = agent_actor a;
  occurred_at = at;
}

-- The second half of ClaimNextJob, once no running job is found.
unfoldable pub claim_queued :
    MemoryStore → Agent → Time → Option Job → MemoryStore × Result Error (Option Job)
claim_queued s a at none = (s, ok none)
claim_queued s a at (some j) =
    let claimed = record j { status = running; last_sequence = 1 } in
    let key = agent_key a j.id in
    (
      write s key claimed (or_empty (lookup key s.events) ++ claim_event a j at ∷ []),
      ok (some claimed),
    )

-- The first half, for the running job that is found.
unfoldable pub claim_running :
    MemoryStore → Agent → Time → Time → Option Job → MemoryStore × Result Error (Option Job)
unfolding claim_queued select
claim_running s a at cutoff none = claim_queued s a at (select a queued none (values s.jobs))
claim_running s a at cutoff (some j) =
    if any (claimed_after cutoff) (or_empty (lookup (agent_key a j.id) s.events))
    then (s, ok none)
    else (s, ok (some (record j { resumed = true })))

unfoldable pub claim_next_job :
    MemoryStore → Agent → Time → Time → MemoryStore × Result Error (Option Job)
unfolding claim_running select
claim_next_job s a at cutoff =
    if not (agent_valid a)
    then (s, err invalid_scope)
    else claim_running s a at cutoff (select a running none (values s.jobs))

abbrev pub same_report : EventRequest → Event → Bool
same_report r e = e.sequence == r.sequence && e.type == r.type && e.message == r.message

abbrev pub reported_event : Agent → String → EventRequest → Time → Event
reported_event a id r at = record {
  job_id = id;
  organization_id = a.organization_id;
  site_id = a.site_id;
  sequence = r.sequence;
  type = r.type;
  message = r.message;
  actor = agent_actor a;
  occurred_at = at;
}

abbrev pub status_after : EventRequest → Status → Status
status_after r st =
    let st' : Status = if r.type == event_succeeded then succeeded else st in
    if r.type == event_failed then failed else st'

abbrev pub known_report : Job → Option Event → Result Error (Job × Event)
known_report j none = err job_conflict
known_report j (some e) = ok (j, e)

-- The job after a report that it accepts.
abbrev pub reported : Job → EventRequest → Job
reported j r = record j { status = status_after r j.status; last_sequence = r.sequence }

-- RecordJobEvent, once the agent's job is found.
unfoldable pub record_for :
    MemoryStore
    → Agent
    → Job
    → EventRequest
    → Time
    → String
    → MemoryStore × Result Error (Job × Event)
record_for s a j r at id =
    let key = agent_key a id in
    let past = or_empty (lookup key s.events) in
    let event = reported_event a id r at in
    let updated = reported j r in
    if leb r.sequence j.last_sequence
    then (s, known_report j (find (same_report r) past))
    else if not (status_eqb j.status running) || not (r.sequence == j.last_sequence + 1)
    then (s, err job_conflict)
    else (write s key updated (past ++ event ∷ []), ok (updated, event))

abbrev pub owned_by : Agent → Option Job → Option Job
owned_by a none = none
owned_by a (some j) = if j.agent_id == a.id then some j else none

abbrev record_owned :
    MemoryStore
    → Agent
    → String
    → EventRequest
    → Time
    → Option Job
    → MemoryStore × Result Error (Job × Event)
record_owned s a id r at none = (s, err job_not_found)
record_owned s a id r at (some j) = record_for s a j r at id

unfoldable pub record_job_event :
    MemoryStore → Agent → String → EventRequest → Time → MemoryStore × Result Error (Job × Event)
unfolding record_for
record_job_event s a id r at =
    if not (agent_valid a)
    then (s, err invalid_scope)
    else record_owned s a id r at (owned_by a (lookup (agent_key a id) s.jobs))

abbrev in_scope_of : Scope → String → Job → Bool
in_scope_of sc agent_id j =
    j.agent_id == agent_id && j.organization_id == sc.organization_id && j.site_id == sc.site_id

unfoldable pub list_jobs : MemoryStore → Scope → String → ℕ → Result Error (List Job)
list_jobs s sc agent_id limit =
    if not (scope_valid sc)
    then err invalid_scope
    else ok (
        take limit (
          sort_by (λ l r. after l.requested_at r.requested_at)
            (filter (in_scope_of sc agent_id) (values s.jobs))))

abbrev job_events : Option Job → String → List Event → Result Error (List Event)
job_events none agent_id es = err job_not_found
job_events (some j) agent_id es = if j.agent_id == agent_id then ok es else err job_not_found

unfoldable pub list_job_events : MemoryStore → Scope → String → String → Result Error (List Event)
list_job_events s sc agent_id id =
    let key : JobKey = record { scope = sc; id = id } in
    if not (scope_valid sc)
    then err invalid_scope
    else job_events (lookup key s.jobs) agent_id (or_empty (lookup key s.events))

pub record EventRecord : Type 0 where
  pub event : Event
  pub agent_id : String

-- The zero Job that Go's `store.jobs[key]` reads for a missing key has the empty agent.
abbrev pub agent_of : Option Job → String
agent_of none = ""
agent_of (some j) = j.agent_id

unfoldable pub all_events_from : Map JobKey Job → Scope → Map JobKey (List Event) → List EventRecord
all_events_from jobs sc [] = []
all_events_from jobs sc ((k, es) ∷ m) =
    let rest = all_events_from jobs sc m in
    let agent = agent_of (lookup k jobs) in
    if k.scope == sc then map (λ e. record { event = e; agent_id = agent }) es ++ rest else rest

unfoldable pub all_events : MemoryStore → Scope → Result Error (List EventRecord)
unfolding all_events_from
all_events s sc =
    if not (scope_valid sc) then err invalid_scope else ok (all_events_from s.jobs sc s.events)
