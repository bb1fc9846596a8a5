-- ===== src/Executor/Finish.antt =====
-- What the agent does when its calls work.
use bazusop.Base.{
  ℕ, suc, ◌+◌, ◌-◌, ◌≡◌, refl, true, false, String, List, [], ◌∷◌, ◌++◌, Option, none, some, arith,
  Time, Result, ok, string_comparable, nat_comparable, eq_iff, trim_space, trim_left, trim_right,
}
use bazusop.Base.Assoc.{lookup, lookup-insert_self}
use bazusop.Tenancy.{Agent, agent_valid}
use bazusop.Jobs.{running, Job, EventRequest, MemoryStore, job_key_comparable}
use bazusop.Jobs.Store.{
  agent_key, write, or_empty, reported, reported_event, record_job_event, record_for,
}
use bazusop.Jobs.Service.{report, refused_report}
use bazusop.Executor.{Error, ExecutionState}
use bazusop.Executor.Trust.{is_hex_of, job_id_valid}
use bazusop.Executor.Disk.{state_valid, save, remove}
use bazusop.Executor.World.{World, Surroundings, attempt}
use bazusop.Executor.Process.{save_rest, flush_events}

trim_right_hex : (n : ℕ) (s : String) → is_hex_of n s ≡ true → trim_right s ≡ s
unfolding is_hex_of trim_right
trim_right_hex n String.[] h = refl
trim_right_hex n (String.◌∷◌ c s) h = ground (arith, trim_right_hex (n - 1) s)

trim_left_hex : (n : ℕ) (s : String) → is_hex_of n s ≡ true → trim_left s ≡ s
unfolding is_hex_of trim_left
trim_left_hex n String.[] h = refl
trim_left_hex n (String.◌∷◌ c s) h = ground arith

-- A valid identifier of a job is not changed by the hub's trimming.
pub job_id_valid-trim_space : (id : String) → job_id_valid id ≡ true → trim_space id ≡ id
unfolding trim_space
job_id_valid-trim_space id h = rw (trim_left_hex 32 id h) (trim_right_hex 32 id h)

abbrev pub sent : EventRequest → EventRequest
sent e = record e { message = trim_space e.message }

-- The hub takes each of the events in turn from the job's agent.
abbrev pub Deliverable : Job → String → List EventRequest → Type 0
Deliverable i id [] = Unit
Deliverable i id (e ∷ es) =
    (i.status ≡ running)
    × (e.sequence ≡ i.last_sequence + 1)
    × (refused_report id (sent e) ≡ false)
    × Deliverable (reported i e) id es

abbrev pub delivered : Job → List EventRequest → Job
delivered i [] = i
delivered i (e ∷ es) = delivered (reported i e) es

-- The hub holds the agent's job under its identifier.
abbrev pub Held : Agent → String → Job → MemoryStore → Type 0
Held a id i s = (lookup (agent_key a id) s.jobs ≡ some i) × (i.agent_id ≡ a.id)

report-Accepted :
    (a : Agent) (id : String) (e : EventRequest) (now : Time) (s : MemoryStore) (i : Job)
    → agent_valid a ≡ true
    → trim_space id ≡ id
    → refused_report id (sent e) ≡ false
    → Held a id i s
    → i.status ≡ running
    → e.sequence ≡ i.last_sequence + 1
    → report a id e now s ≡ (
      write s
          (agent_key a id)
          (reported i e)
          (or_empty (lookup (agent_key a id) s.events) ++ reported_event a id (sent e) now ∷ []),
      ok (reported i e),
    )
unfolding report record_job_event record_for
report-Accepted a id e now s i v t ok_report held busy next =
    rw (t, v, ok_report, held.0) (ground (arith, eq_iff i.agent_id a.id))

save_rest-Works :
    (env : Surroundings) (st : ExecutionState) (es : List EventRequest) (w : World)
    → state_valid st ≡ true
    → (file : Option String) × (save_rest env st es (record w { faults = [] })
        ≡ (record w { faults = []; file = file }, ok tt))
unfolding attempt save state_valid
save_rest-Works env st [] w v = (w.file, refl)
save_rest-Works env st (e ∷ es) w v =
    (some (env.codec.encode (record st { events = e ∷ es })), ground arith)

-- The call returned, the file is gone, nothing was run, and the hub holds `i`.
pub record Finishes (a : Agent) (id : String) (i : Job) (runs : List String)
    (p : World × Result Error (Unit {0})) : Type 0 where
  pub returns : p.1 ≡ ok tt
  pub cleared : p.0.file ≡ none
  pub held : Held a id i p.0.hub
  pub ran : p.0.runs ≡ runs

pub flush_events-Finishes :
    (env : Surroundings) (st : ExecutionState) (es : List EventRequest) (w : World) (i : Job)
    → agent_valid env.agent ≡ true
    → trim_space st.job.id ≡ st.job.id
    → state_valid st ≡ true
    → Held env.agent st.job.id i w.hub
    → Deliverable i st.job.id es
    → Finishes env.agent st.job.id
        (delivered i es)
        w.runs
        (flush_events env st es (record w { faults = [] }))
unfolding flush_events attempt remove
flush_events-Finishes env st [] w i v t sv held d = record {
  returns = refl;
  cleared = refl;
  held = held;
  ran = refl;
}
flush_events-Finishes env st (e ∷ es) w i v t sv held (busy, next, fine, rest) =
    rw (report-Accepted env.agent st.job.id e (env.clock w.ticks) w.hub i v t fine held busy next) (
      rw (save_rest-Works env st es (later w) sv).1 (
        flush_events-Finishes env st es
          (record (later w) { file = (save_rest-Works env st es (later w) sv).0 }) (reported i e) v
          t sv
          (lookup-insert_self (agent_key env.agent st.job.id) (reported i e) w.hub.jobs, held.1)
          rest))
  where
    later : World → World
    later u = record u {
      hub = write u.hub (agent_key env.agent st.job.id) (reported i e) (
          or_empty (lookup (agent_key env.agent st.job.id) u.hub.events)
          ++ reported_event env.agent st.job.id (sent e) (env.clock u.ticks) ∷ []);
      ticks = suc u.ticks;
      faults = [];
    }
