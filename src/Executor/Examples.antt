-- ===== src/Executor/Examples.antt =====
-- The theorems on the agent's execution of jobs at concrete worlds, and runs of the code.
use bazusop.Base.{
  ◌+◌, ◌*◌, ◌≤◌, ◌≡◌, refl, true, false, String, List, [], ◌∷◌, Option, none, some, arith, ok,
  eq_iff, string_comparable, nat_comparable, minute, ◌≢◌, ◌↔◌, trim_space, contains_nul,
  truncate_micro,
}
use bazusop.Base.Assoc.{lookup, insert, option_map}
use bazusop.Base.Utf8.{fit, truncate_utf8, IsLongestFit}
use bazusop.Base.Bytes.{utf8, accepts, drop_until_valid, truncate_bytes}
use bazusop.Base.Truncate.{truncate_bytes-IsLongestFit}
use bazusop.Tenancy.{Agent, default_scope, scope_valid, agent_valid}
use bazusop.Jobs.{Job, CreateRequest, MemoryStore, running, host_reboot, job_key_comparable, Status}
use bazusop.Jobs.Store.{empty_store, create_job, claim_next_job, select, agent_key}
use bazusop.Jobs.Signing.{verify, signing_payload, signing_payload_v1}
use bazusop.Jobs.Service.{Service, create, claim_next, valid_action_target}
use bazusop.Jobs.Toy.{toy, encode, decode, same_bytes}
use bazusop.Jobs.Invariant.{IsWellFormed, empty_store-IsWellFormed}
use bazusop.Jobs.History.{creates, serve, run, run-IsWellFormed}
use bazusop.Executor.Trust.{
  is_hex_of, job_id_valid, validate_claimed_job, enrollment_ca_public_key, bytes_equal,
}
use bazusop.Executor.Trusted.{IsTrusted, validate_claimed_job-IsTrusted}
use bazusop.Executor.World.{works, lost, World, Surroundings}
use bazusop.Executor.Process.{executing, process_next}
use bazusop.Executor.Guard.{times}
use bazusop.Executor.Once.{Happening, processes, serves, happen_all, happen_all-times}
use bazusop.Executor.Finish.{Finishes}
use bazusop.Executor.Accepted.{done}
use bazusop.Executor.Progress.{
  process_next-Finishes, process_next-recovers, IsInterrupted, given_up,
}

abbrev id : String
id = "00000000000000000000000000000001"

abbrev service : Service
service = record {
  crypto = toy;
  private_key = [];
  job_lease = 2 * minute;
  host_exists = λ _ _. ok true;
}

abbrev agent : Agent
agent = record { id = "a1"; organization_id = "org_default"; site_id = "site_default" }

abbrev request : CreateRequest
request = record { action = host_reboot; target = ""; approved_by = "ops"; reason = "kernel" }

abbrev hub : MemoryStore
hub = run service empty_store (creates default_scope "a1" request (ok id) 5000 ∷ [])

hub-IsWellFormed : IsWellFormed hub
hub-IsWellFormed =
    run-IsWellFormed service empty_store (creates default_scope "a1" request (ok id) 5000 ∷ [])
      empty_store-IsWellFormed

abbrev job : Job
job = record {
  id = id;
  organization_id = "org_default";
  site_id = "site_default";
  agent_id = "a1";
  action = host_reboot;
  target = "";
  approved_by = "ops";
  reason = "kernel";
  requested_at = 5000;
  status = running;
  last_sequence = 1;
  signature = encode (2 ∷ 5000 ∷ []);
  signing_public_key = encode (toy.public_of []);
  resumed = false;
}

abbrev surroundings : Surroundings
surroundings = record {
  service = service;
  clock = λ n. 6000 + n * minute;
  agent = agent;
  identity = record {
    agent_id = "a1";
    certificate_pem = [];
    private_key_pem = [];
    ca_certificate_pem = toy.public_of [];
    expires_at = 0;
  };
  certificates = record {
    decode_pem = λ b. some ("CERTIFICATE", b);
    parse_certificate = λ b. some (some b);
  };
  codec = record { encode = λ st. st.phase; decode = λ _. some (executing job) };
  execute = λ _. ("", none);
  describe = λ _. "refused";
}

abbrev world : World
world = record { hub = hub; file = none; runs = []; faults = []; ticks = 0 }

abbrev status_at_hub : World → Option Status
status_at_hub w = option_map (λ (j : Job). j.status) (lookup (agent_key agent id) w.hub.jobs)

claimed : (claim_next service agent 6000 hub).1 ≡ ok (some job)
unfolding run serve create create_job claim_next claim_next_job select lookup insert scope_valid
    agent_valid valid_action_target trim_space contains_nul encode signing_payload truncate_micro
claimed = refl

trusted : validate_claimed_job toy surroundings.certificates job surroundings.identity ≡ ok tt
unfolding validate_claimed_job verify signing_payload enrollment_ca_public_key encode decode
    same_bytes bytes_equal signing_payload_v1
trusted = refl

valid : job_id_valid id ≡ true
unfolding is_hex_of
valid = refl

agent_is_valid : agent_valid agent ≡ true
unfolding agent_valid trim_space contains_nul
agent_is_valid = refl

validate_claimed_job-IsTrusted_example :
    (validate_claimed_job toy surroundings.certificates job surroundings.identity ≡ ok tt)
    ↔ IsTrusted toy surroundings.certificates job surroundings.identity
validate_claimed_job-IsTrusted_example =
    validate_claimed_job-IsTrusted toy surroundings.certificates job surroundings.identity

process_next-Finishes_example :
    Finishes agent id
      (done job none)
      (id ∷ [])
      (process_next surroundings (record world { file = none; faults = [] }))
process_next-Finishes_example =
    process_next-Finishes surroundings world job hub-IsWellFormed claimed refl valid trusted tt

-- The agent stops as it runs the job; its file tells of that.
abbrev stopped : World
stopped = record world {
  hub = (claim_next service agent 6000 hub).0;
  file = some "executing";
  runs = id ∷ [];
  ticks = 1;
}

interrupted : IsInterrupted surroundings (executing job) job stopped.hub
unfolding run serve create create_job claim_next claim_next_job select lookup insert scope_valid
    agent_valid valid_action_target trim_space contains_nul encode signing_payload truncate_micro
    is_hex_of
interrupted = record {
  executing = refl;
  own = refl;
  named = refl;
  held = (refl, refl);
  busy = refl;
  unreported = refl;
  claimed = omega arith;
}

process_next-recovers_example :
    Finishes agent id
      (given_up job 1)
      (id ∷ [])
      (process_next surroundings (record stopped { file = some "executing"; faults = [] }))
process_next-recovers_example =
    process_next-recovers surroundings stopped (executing job) "executing" job agent_is_valid refl
      interrupted

-- The answer of the run is lost, then the agent looks again, twice.
abbrev mishaps : List Happening
mishaps =
    processes (works ∷ works ∷ works ∷ lost "killed" ∷ [])
    ∷ serves (creates default_scope "a1" request (ok "00000000000000000000000000000002") 7000)
    ∷ processes []
    ∷ processes []
    ∷ []

other_id : ◌≢◌ {A = String} "00000000000000000000000000000002" id
other_id = ground (arith, eq_iff "00000000000000000000000000000002" id)

happen_all-times_example : times id (happen_all surroundings world mishaps).runs ≤ 1
happen_all-times_example =
    happen_all-times surroundings id world mishaps hub-IsWellFormed refl
      (tt, (other_id, (tt, (tt, tt))))

truncate_bytes-IsLongestFit_example :
    (truncate_bytes (utf8 "aé") 2 ≡ utf8 (truncate_utf8 "aé" 2))
    × IsLongestFit "aé" 2 (truncate_utf8 "aé" 2)
truncate_bytes-IsLongestFit_example = truncate_bytes-IsLongestFit "aé" 2

cuts_bytes : truncate_bytes (utf8 "aé") 2 ≡ 97 ∷ []
unfolding truncate_bytes drop_until_valid utf8 accepts
cuts_bytes = refl

cuts_whole_characters : truncate_utf8 "aé" 2 ≡ "a"
unfolding truncate_utf8 fit
cuts_whole_characters = refl
