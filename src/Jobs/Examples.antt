-- ===== src/Jobs/Examples.antt =====
-- The theorems on jobs at concrete stores, and runs of the code.
use bazusop.Base.{
  ◌≡◌, refl, [], ◌∷◌, some, ok, true, false, inl, inr, arith, String, ◌≢◌, eq_iff, trim_space,
  contains_nul, truncate_micro, List, minute, ◌*◌,
}
use bazusop.Base.Assoc.{lookup, insert, option_map}
use bazusop.Tenancy.{Agent, default_scope, scope_valid, agent_valid}
use bazusop.Jobs.{
  Job, EventRequest, CreateRequest, MemoryStore, queued, running, succeeded, job_key_comparable,
  event_succeeded, service_restart, host_reboot, JobKey,
}
use bazusop.Jobs.Store.{
  empty_store, create_job, claim_next_job, record_job_event, reported, reported_event, agent_key,
  claim_event, select,
}
use bazusop.Jobs.Signing.{verify, signing_payload}
use bazusop.Jobs.Service.{Service, create, report, claim_next, approval, valid_action_target}
use bazusop.Jobs.Toy.{toy, toy-IsSound, encode, decode, same_bytes}
use bazusop.Jobs.Invariant.{
  IsWellFormed, empty_store-IsWellFormed, create_job-IsWellFormed, claim_next_job-IsWellFormed,
}
use bazusop.Jobs.History.{Call, creates, claims, reports, run, run-IsWellFormed}
use bazusop.Jobs.Redelivery.{record_job_event-again}
use bazusop.Jobs.Frame.{Holding, run-Holding}
use bazusop.Jobs.Order.{Claims, claim_next_job-Claims}
use bazusop.Jobs.Single.{IsSingle, run-IsSingle}
use bazusop.Jobs.Verified.{Signed, IsVerified, verify-Signed, run-IsVerified}

abbrev service : Service
service = record {
  crypto = toy;
  private_key = [];
  job_lease = 2 * minute;
  host_exists = λ _ _. ok true;
}

abbrev agent : Agent
agent = record { id = "a1"; organization_id = "org_default"; site_id = "site_default" }

abbrev stranger : Agent
stranger = record { id = "a2"; organization_id = "org_default"; site_id = "site_default" }

abbrev request : CreateRequest
request = record {
  action = service_restart;
  target = " nginx ";
  approved_by = "ops";
  reason = "stuck";
}

abbrev done : EventRequest
done = record { sequence = 2; type = event_succeeded; message = "restarted" }

abbrev calls : List Call
calls =
    creates default_scope "a1" request (ok "j1") 5000
    ∷ claims agent 6000
    ∷ reports agent "j1" done 7000
    ∷ []

abbrev waiting : Job
waiting = record {
  id = "j1";
  organization_id = "org_default";
  site_id = "site_default";
  agent_id = "a1";
  action = host_reboot;
  target = "";
  approved_by = "ops";
  reason = "kernel";
  requested_at = 5000;
  status = queued;
  last_sequence = 0;
  signature = "";
  signing_public_key = "";
  resumed = false;
}

abbrev stocked : MemoryStore
stocked = (create_job empty_store waiting (approval waiting)).0

stocked-IsWellFormed : IsWellFormed stocked
stocked-IsWellFormed =
    create_job-IsWellFormed empty_store waiting (approval waiting)
      (record { waits = refl; unclaimed = refl; first = refl; approval = refl })
      empty_store-IsWellFormed

abbrev busy : MemoryStore
busy = (claim_next_job stocked agent 6000 0).0

busy-IsWellFormed : IsWellFormed busy
busy-IsWellFormed = claim_next_job-IsWellFormed stocked agent 6000 0 stocked-IsWellFormed

abbrev key : JobKey
key = agent_key agent "j1"

abbrev started : Job
started = record waiting { status = running; last_sequence = 1 }

-- A job's whole life: created, claimed and reported as done.
life :
    option_map (λ (j : Job). j.status) (lookup key (run service empty_store calls).jobs)
    ≡ some succeeded
unfolding run create create_job claim_next claim_next_job select report record_job_event lookup
    insert scope_valid agent_valid valid_action_target trim_space contains_nul encode
    signing_payload truncate_micro
life = refl

run-IsWellFormed_example : IsWellFormed (run service empty_store calls)
run-IsWellFormed_example = run-IsWellFormed service empty_store calls empty_store-IsWellFormed

accepted :
    (record_job_event busy agent "j1" done 7000).1
    ≡ ok (reported started done, reported_event agent "j1" done 7000)
unfolding create_job claim_next_job select record_job_event lookup insert scope_valid agent_valid
    trim_space contains_nul
accepted = refl

record_job_event-again_example :
    record_job_event (record_job_event busy agent "j1" done 7000).0 agent "j1" done 9000 ≡ (
      (record_job_event busy agent "j1" done 7000).0,
      ok (reported started done, reported_event agent "j1" done 7000),
    )
record_job_event-again_example =
    record_job_event-again busy agent "j1" done 7000 9000 (reported started done)
      (reported_event agent "j1" done 7000) busy-IsWellFormed accepted

agent_is_valid : agent_valid agent ≡ true
unfolding agent_valid trim_space contains_nul
agent_is_valid = refl

claim_next_job-Claims_example : Claims stocked agent 6000 0 (claim_next_job stocked agent 6000 0)
claim_next_job-Claims_example =
    claim_next_job-Claims stocked agent 6000 0 stocked-IsWellFormed agent_is_valid

busy_holds :
    Holding key started (some (approval waiting ∷ claim_event agent waiting 6000 ∷ [])) busy
unfolding create_job claim_next_job select lookup insert scope_valid agent_valid trim_space
    contains_nul
busy_holds = (refl, refl)

agents_differ : ◌≢◌ {A = String} "a1" "a2"
agents_differ = ground (arith, eq_iff "a1" "a2")

run-Holding_example :
    Holding key started
      (some (approval waiting ∷ claim_event agent waiting 6000 ∷ []))
      (run service busy (claims stranger 7000 ∷ reports stranger "j1" done 8000 ∷ []))
run-Holding_example =
    run-Holding service busy (claims stranger 7000 ∷ reports stranger "j1" done 8000 ∷ []) key
      started (some (approval waiting ∷ claim_event agent waiting 6000 ∷ [])) busy-IsWellFormed
      (inl agents_differ, (inl agents_differ, tt)) busy_holds

run-IsSingle_example : IsSingle (run service empty_store calls)
run-IsSingle_example =
    run-IsSingle service empty_store calls (record { at_agent = λ a. omega arith })

run-IsVerified_example : IsVerified toy (run service empty_store calls)
run-IsVerified_example =
    run-IsVerified service empty_store calls toy-IsSound (record { jobs_verify = tt })

abbrev moved : Job
moved = record waiting {
  site_id = "site_b";
  signature = encode (2 ∷ 5000 ∷ []);
  signing_public_key = encode (toy.public_of []);
}

moved_verifies : verify toy moved ≡ true
unfolding verify signing_payload encode decode same_bytes
moved_verifies = refl

moved_elsewhere : ◌≢◌ {A = String} "site_b" "site_default"
moved_elsewhere = ground (arith, eq_iff "site_b" "site_default")

verify-Signed_example : Signed toy moved
verify-Signed_example = verify-Signed toy moved (inr moved_elsewhere) moved_verifies
