-- ===== src/Jobs/Service.antt =====
-- The methods of jobs.Service. Each reading of the clock, each new identifier and the check of the
-- host are arguments; a dependency's own error is `other`.
use bazusop.Base.{
  ℕ, ◌-◌, ◌*◌, String, len, Bool, true, false, not, ◌&&◌, ◌||◌, List, Option, ltb, leb, ◌==◌,
  string_comparable, nat_comparable, Result, Exec, pure, lift, reads, refuse, ◌>>=◌, ◌>>◌, Time,
  Duration, truncate_micro, trim_space, starts_with, minute,
}
use Prim.Native.Char.{code}
use bazusop.Tenancy.{Scope, Agent, scope_valid, agent_valid}
use bazusop.Jobs.{
  Error, invalid_job, job_not_found, invalid_scope, queued, event_approved, event_output,
  event_succeeded, event_failed, Action, service_restart, host_reboot, CreateRequest, Job, Event,
  EventRequest, MemoryStore,
}
use bazusop.Jobs.Store.{create_job, claim_next_job, record_job_event, list_jobs, list_job_events}
use bazusop.Jobs.Signing.{Bytes, Crypto, signing_payload}

abbrev pub default_job_lease : Duration
default_job_lease = 2 * minute

pub record Service : Type 0 where
  pub crypto : Crypto
  pub private_key : Bytes
  pub job_lease : Duration
  pub host_exists : Scope → String → Result Error Bool

-- One character of serviceTargetPattern, `[A-Za-z0-9_.@:-]`.
abbrev pub is_target_char : ℕ → Bool
is_target_char c =
    (leb b'A' c && leb c b'Z')
    || (leb b'a' c && leb c b'z')
    || (leb b'0' c && leb c b'9')
    || c == b'_'
    || c == b'.'
    || c == b'@'
    || c == b':'
    || c == b'-'

abbrev all_target_chars : String → Bool
all_target_chars String.[] = true
all_target_chars (String.◌∷◌ c s) = is_target_char (code c) && all_target_chars s

-- serviceTargetPattern.MatchString.
unfoldable pub matches_target : String → Bool
matches_target s = not (s == "") && all_target_chars s

unfoldable pub valid_action_target : Action → String → Bool
unfolding matches_target
valid_action_target action target =
    (action == service_restart && matches_target target && not (starts_with target "-"))
    || (action == host_reboot && target == "")

abbrev pub trimmed : CreateRequest → CreateRequest
trimmed r = record r {
  target = trim_space r.target;
  approved_by = trim_space r.approved_by;
  reason = trim_space r.reason;
}

-- The condition under which Create answers ErrInvalidJob.
unfoldable pub refused : String → CreateRequest → Bool
refused agent_id r =
    agent_id == ""
    || r.approved_by == ""
    || r.reason == ""
    || ltb 128 (len r.approved_by)
    || ltb 1024 (len r.reason)
    || ltb 256 (len r.target)
    || not (valid_action_target r.action r.target)

abbrev unsigned : Service → Scope → String → CreateRequest → String → Time → Job
unsigned sv sc agent_id r id now = record {
  id = id;
  organization_id = sc.organization_id;
  site_id = sc.site_id;
  agent_id = agent_id;
  action = r.action;
  target = r.target;
  approved_by = r.approved_by;
  reason = r.reason;
  requested_at = truncate_micro now;
  status = queued;
  last_sequence = 0;
  signature = "";
  signing_public_key = sv.crypto.encode_base64 (sv.crypto.public_of sv.private_key);
  resumed = false;
}

abbrev signed : Service → Job → Job
signed sv j = record j {
  signature =
      sv.crypto.encode_base64
        (sv.crypto.sign sv.private_key (sv.crypto.marshal (signing_payload j)));
}

abbrev pub new_job : Service → Scope → String → CreateRequest → String → Time → Job
new_job sv sc agent_id r id now = signed sv (unsigned sv sc agent_id r id now)

abbrev pub approval : Job → Event
approval j = record {
  job_id = j.id;
  organization_id = j.organization_id;
  site_id = j.site_id;
  sequence = 0;
  type = event_approved;
  message = j.reason;
  actor = j.approved_by;
  occurred_at = j.requested_at;
}

unfoldable pub create :
    Service
    → Scope
    → String
    → CreateRequest
    → Result Error String
    → Time
    → Exec MemoryStore Error Job
unfolding refused
create sv sc agent r new_id now = do
  let agent_id = trim_space agent
  let request = trimmed r
  refuse (not (scope_valid sc)) invalid_scope
  refuse (refused agent_id request) invalid_job
  exists ← lift (sv.host_exists sc agent_id)
  refuse (not exists) job_not_found
  id ← lift new_id
  let job = new_job sv sc agent_id request id now
  (λ s. create_job s job (approval job))
  pure job

unfoldable pub claim_next : Service → Agent → Time → Exec MemoryStore Error (Option Job)
claim_next sv a now = do
  refuse (not (agent_valid a)) invalid_scope
  (λ s. claim_next_job s a now (now - sv.job_lease))

-- The condition under which Report answers ErrInvalidJob.
unfoldable pub refused_report : String → EventRequest → Bool
refused_report id r =
    id == ""
    || ltb r.sequence 2
    || r.message == ""
    || ltb (32 * 1024) (len r.message)
    || (not (r.type == event_output)
        && not (r.type == event_succeeded)
        && not (r.type == event_failed))

unfoldable pub report : Agent → String → EventRequest → Time → Exec MemoryStore Error Job
unfolding refused_report
report a job_id r now = do
  let id = trim_space job_id
  let request = record r { message = trim_space r.message }
  refuse (not (agent_valid a)) invalid_scope
  refuse (refused_report id request) invalid_job
  recorded ← (λ s. record_job_event s a id request now)
  pure recorded.0

unfoldable pub list : Scope → String → ℕ → Exec MemoryStore Error (List Job)
list sc agent limit = do
  let agent_id = trim_space agent
  refuse (not (scope_valid sc)) invalid_scope
  refuse (agent_id == "" || ltb limit 1 || ltb 200 limit) invalid_job
  reads (λ s. list_jobs s sc agent_id limit)

unfoldable pub events : Scope → String → String → Exec MemoryStore Error (List Event)
events sc agent job = do
  let agent_id = trim_space agent
  let job_id = trim_space job
  refuse (not (scope_valid sc)) invalid_scope
  refuse (agent_id == "" || job_id == "") invalid_job
  reads (λ s. list_job_events s sc agent_id job_id)
