-- ===== src/Jobs/Verified.antt =====
-- Verify accepts the jobs that the hub keeps, and what its acceptance means.
use bazusop.Base.{
  ℕ, ◌≡◌, refl, ◌∙◌, trim_space, Option, none, some, List, [], ◌∷◌, true, String, arith, Time, All,
  Bool-cases, inl, inr, ◌≢◌, ◌⊎◌, ◌==◌, string_comparable, nat_comparable, eq_iff, ◌-◌, length,
}
use bazusop.Base.Keeps.{Keeps, keeps_rules}
use bazusop.Base.Assoc.{Map, values}
use bazusop.Base.Assoc.Unique.{All-lookup, All-insert}
use bazusop.Tenancy.{Agent, Scope, default_organization_id, default_site_id}
use bazusop.Jobs.{
  Status, queued, running, Job, Event, EventRequest, CreateRequest, JobKey, MemoryStore,
  job_key_comparable,
}
use bazusop.Jobs.Store.{
  agent_key, job_key, write, select, is_candidate, reported, claim_queued, claim_next_job,
  create_job, record_job_event,
}
use bazusop.Jobs.Cases.{record_cases, record_for_cases, claim_cases}
use bazusop.Jobs.Invariant.{Holds, select-Holds}
use bazusop.Jobs.Frame.{claim_running_store}
use bazusop.Jobs.Signing.{
  Bytes, Crypto, IsSound, signing_payload, signing_payload_v1, verify, verify_keyed, verify_signed,
  public_key_size,
}
use bazusop.Jobs.Service.{Service, create, report, new_job, approval, trimmed}
use bazusop.Jobs.Claim.{claim_next_cases}
use bazusop.Jobs.History.{Call, creates, claims, reports, serve, run}

-- A key and a signature that the job carries, and that the signature is over its present payload.
pub record Signed (c : Crypto) (j : Job) : Type 0 where
  pub key : Bytes
  pub signature : Bytes
  pub carried_key : c.decode_base64 j.signing_public_key ≡ some key
  pub carried_signature : c.decode_base64 j.signature ≡ some signature
  pub sized : length key ≡ public_key_size
  pub checked : c.verify key (c.marshal (signing_payload j)) signature ≡ true

-- A job of another scope than the default one.
abbrev pub IsElsewhere : Job → Type 0
IsElsewhere j = (j.organization_id ≢ default_organization_id) ⊎ (j.site_id ≢ default_site_id)

signed_inversion :
    (c : Crypto) (j : Job) (key : Bytes) (o : Option Bytes)
    → IsElsewhere j
    → verify_signed c j key o ≡ true
    → (s : Bytes) × (o ≡ some s) × (c.verify key (c.marshal (signing_payload j)) s ≡ true)
signed_inversion c j key none moved h = cc
signed_inversion c j key (some s) moved h = (
  s,
  refl,
  ground
      (arith, eq_iff j.organization_id default_organization_id, eq_iff j.site_id default_site_id),
)

keyed_inversion :
    (c : Crypto) (j : Job) (o : Option Bytes)
    → verify_keyed c j o ≡ true
    → (key : Bytes) × (o ≡ some key)
      × (length key ≡ public_key_size)
      × (verify_signed c j key (c.decode_base64 j.signature) ≡ true)
keyed_inversion c j none h = cc
keyed_inversion c j (some key) h = elim (Bool-cases (length key == public_key_size)) [
  | inl t ↦ (key, refl, ground arith, rw t at h)
  | inr f ↦ absurd (let h' = rw f at h in cc)
]

-- Outside the default scope Verify accepts a job only if its signature is over the payload that names
-- the job's organization and site: a signature of the older form counts for nothing there.
pub verify-Signed : (c : Crypto) (j : Job) → IsElsewhere j → verify c j ≡ true → Signed c j
unfolding verify
verify-Signed c j moved h =
    let (key, carried, sized, kept) =
      keyed_inversion c j (c.decode_base64 j.signing_public_key) h in
    let (signature, held, checked) =
      signed_inversion c j key (c.decode_base64 j.signature) moved kept in
    record {
      key = key;
      signature = signature;
      carried_key = carried;
      carried_signature = held;
      sized = sized;
      checked = checked;
    }

new_job-verify :
    (sv : Service) (sc : Scope) (agent : String) (r : CreateRequest) (id : String) (now : Time)
    → IsSound sv.crypto
    → verify sv.crypto (new_job sv sc agent r id now) ≡ true
unfolding verify signing_payload
new_job-verify sv sc agent r id now sound =
    rw
      (
        sound.decodes (sv.crypto.public_of sv.private_key),
        sound.sized sv.private_key,
        sound.decodes (
            sv.crypto.sign sv.private_key
              (sv.crypto.marshal (signing_payload (new_job sv sc agent r id now)))),
        sound.verifies sv.private_key
            (sv.crypto.marshal (signing_payload (new_job sv sc agent r id now))),
      )
      refl

-- Progress of a job leaves what was signed alone.
verify-progress :
    (c : Crypto) (j : Job) (st : Status) (n : ℕ)
    → verify c (record j { status = st; last_sequence = n }) ≡ verify c j
unfolding verify signing_payload signing_payload_v1
verify-progress c j st n = refl

module _ (c : Crypto) where
  pub record IsVerified (s : MemoryStore) : Type 0 where
    pub jobs_verify : All (λ (entry : JobKey × Job). verify c entry.1 ≡ true) s.jobs

  write-IsVerified :
      (s : MemoryStore) (k : JobKey) (j : Job) (es : List Event)
      → verify c j ≡ true
      → IsVerified s
      → IsVerified (write s k j es)
  write-IsVerified s k j es v h = record {
    jobs_verify = All-insert (λ _ i. verify c i ≡ true) k j s.jobs h.jobs_verify v;
  }

  values-verify :
      (m : Map JobKey Job)
      → All (λ (entry : JobKey × Job). verify c entry.1 ≡ true) m
      → All (λ i. verify c i ≡ true) (values m)
  values-verify [] h = tt
  values-verify ((k, v) ∷ m) h = (h.0, values-verify m h.1)

  record_job_event-IsVerified :
      (s : MemoryStore) (a : Agent) (id : String) (r : EventRequest) (at : Time)
      → IsVerified s
      → IsVerified (record_job_event s a id r at).0
  record_job_event-IsVerified s a id r at h =
      record_cases (λ p. IsVerified p.0) s a id r at h h
        λ _ j found own.
          record_for_cases (λ p. IsVerified p.0) s a j r at id (λ _. h) h
            λ _ _.
              write-IsVerified s (agent_key a id) (reported j r) _
                (verify-progress c j _ r.sequence
                  ∙ All-lookup (λ _ i. verify c i ≡ true) (agent_key a id) j s.jobs h.jobs_verify
                      found)
                h

  claim_queued-IsVerified :
      (s : MemoryStore) (a : Agent) (at : Time) (o : Option Job)
      → Holds (λ j. (verify c j ≡ true) × (is_candidate a queued j ≡ true)) o
      → IsVerified s
      → IsVerified (claim_queued s a at o).0
  unfolding claim_queued
  claim_queued-IsVerified s a at none v h = h
  claim_queued-IsVerified s a at (some j) v h =
      write-IsVerified s (agent_key a j.id) (record j { status = running; last_sequence = 1 }) _
        (verify-progress c j running 1 ∙ v.0) h

  claim_next_job-IsVerified :
      (s : MemoryStore) (a : Agent) (at cutoff : Time)
      → IsVerified s
      → IsVerified (claim_next_job s a at cutoff).0
  claim_next_job-IsVerified s a at cutoff h =
      claim_cases (λ p. IsVerified p.0) s a at cutoff h
        (λ _ j _. rw (claim_running_store s a at cutoff j) h)
        λ _ _.
          claim_queued-IsVerified s a at (select a queued none (values s.jobs))
            (select-Holds (λ j. verify c j ≡ true) a queued none (values s.jobs)
              (values-verify s.jobs h.jobs_verify) tt)
            h

  create_job-IsVerified :
      (j : Job) (e : Event) → verify c j ≡ true → Keeps IsVerified (λ s. create_job s j e)
  unfolding create_job
  create_job-IsVerified j e v = record {
    at = λ s h. ground (arith, write-IsVerified s (job_key j) j (e ∷ []) v h);
  }

  record-Verified :
      (a : Agent) (id : String) (r : EventRequest) (at : Time)
      → Keeps IsVerified (λ s. record_job_event s a id r at)
  record-Verified a id r at = record { at = λ s h. record_job_event-IsVerified s a id r at h }

serve-IsVerified :
    (sv : Service) (s : MemoryStore) (c : Call)
    → IsSound sv.crypto
    → IsVerified sv.crypto s
    → IsVerified sv.crypto (serve sv s c)
unfolding serve create report
serve-IsVerified sv s (creates sc agent r new_id now) sound h =
    let kept : Keeps (IsVerified sv.crypto) (create sv sc agent r new_id now) =
      search
        (
          keeps_rules,
          λ (id : String).
              create_job-IsVerified sv.crypto (new_job sv sc (trim_space agent) (trimmed r) id now)
                (approval (new_job sv sc (trim_space agent) (trimmed r) id now))
                (new_job-verify sv sc (trim_space agent) (trimmed r) id now sound),
        )
        depth 12 in
    kept.at s h
serve-IsVerified sv s (claims a now) sound h =
    claim_next_cases (λ p. IsVerified sv.crypto p.0) sv a now s h
      (claim_next_job-IsVerified sv.crypto s a now (now - sv.job_lease) h)
serve-IsVerified sv s (reports a id r now) sound h =
    let kept : Keeps (IsVerified sv.crypto) (report a id r now) =
      search (keeps_rules, record-Verified sv.crypto) in
    kept.at s h

-- With sound cryptography, if every stored job verifies, then whatever is called, in any order, every
-- stored job does: claims and reports do not spoil the signature that the hub made at creation.
pub run-IsVerified :
    (sv : Service) (s : MemoryStore) (cs : List Call)
    → IsSound sv.crypto
    → IsVerified sv.crypto s
    → IsVerified sv.crypto (run sv s cs)
unfolding run
run-IsVerified sv s [] sound h = h
run-IsVerified sv s (c ∷ cs) sound h =
    run-IsVerified sv (serve sv s c) cs sound (serve-IsVerified sv s c sound h)
