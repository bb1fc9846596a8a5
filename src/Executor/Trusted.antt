-- ===== src/Executor/Trusted.antt =====
-- Which claimed jobs validateClaimedJob lets through.
use bazusop.Base.{
  ◌≤◌, ◌≡◌, refl, ap, true, false, [], ◌∷◌, Option, none, some, arith, Result, ok, err, ◌==◌,
  string_comparable, nat_comparable, eq_iff, Bool-cases, ◌⊎◌, inl, inr, ◌≢◌, ◌↔◌, starts_with,
}
use bazusop.Jobs.{running, service_restart, host_reboot, Job}
use bazusop.Jobs.Signing.{Bytes, Crypto, verify}
use bazusop.Jobs.Service.{matches_target}
use bazusop.Executor.{Error, Identity}
use bazusop.Executor.Trust.{
  Certificates, enrollment_ca_public_key, bytes_equal, equal_fold, target_trusted, signer_trusted,
  against_authority, validate_claimed_job,
}

bytes_equal_iff : (a b : Bytes) → (bytes_equal a b ≡ true) ↔ (a ≡ b)
unfolding bytes_equal
bytes_equal_iff a b = (to a b, λ e. rw e (same b))
  where
    to : (a b : Bytes) → bytes_equal a b ≡ true → a ≡ b
    to [] [] h = refl
    to [] (y ∷ b) h = cc
    to (x ∷ a) [] h = cc
    to (x ∷ a) (y ∷ b) h =
        let rest : bytes_equal a b ≡ true = ground arith in
        let first : x ≡ y = ground arith in let tail = to a b rest in cc

    same : (b : Bytes) → bytes_equal b b ≡ true
    same [] = refl
    same (y ∷ b) = ground (arith, same b)

-- The actions that a job may ask of the agent: to restart a service other than the agent itself, which
-- is named by a plain word, or to reboot the host.
abbrev pub MayRun : Job → Type 0
MayRun j =
    ((j.action ≡ service_restart)
      × (matches_target j.target ≡ true)
      × (starts_with j.target "-" ≡ false)
      × (equal_fold j.target "bazusop-agent" ≡ false)
      × (equal_fold j.target "bazusop-agent.service" ≡ false))
    ⊎ ((j.action ≡ host_reboot) × (j.target ≡ ""))

pub record IsTrusted (c : Crypto) (certs : Certificates) (j : Job) (identity : Identity)
    : Type 0 where
  pub named : j.id ≢ ""
  pub own : j.agent_id ≡ identity.agent_id
  pub claimed : (j.status ≡ running) × (1 ≤ j.last_sequence)
  pub verified : verify c j ≡ true
  -- The key that the job names is that of the pinned authority's certificate.
  pub signer :
      (key : Bytes) × (enrollment_ca_public_key certs identity.ca_certificate_pem ≡ ok key)
      × (c.decode_base64 j.signing_public_key ≡ some key)
  pub may_run : MayRun j

target_trusted-MayRun : (j : Job) → target_trusted j ≡ ok tt → MayRun j
target_trusted-MayRun j h = elim (Bool-cases (j.action == service_restart)) [
  | inl t ↦ inl (
    (eq_iff j.action service_restart).0 t,
    ground arith,
    ground arith,
    ground arith,
    ground arith,
  )
  | inr f ↦ inr (ground (arith, eq_iff j.action host_reboot), ground (arith, eq_iff j.target ""))
]

MayRun-target_trusted : (j : Job) → MayRun j → target_trusted j ≡ ok tt
MayRun-target_trusted j (inl (e, plain, dash, agent, unit)) =
    ground (arith, eq_iff j.action service_restart)
MayRun-target_trusted j (inr (e, h)) = rw (e, h) refl

signer_trusted-Signer :
    (j : Job) (trusted : Bytes) (o : Option Bytes)
    → signer_trusted j trusted o ≡ ok tt
    → (o ≡ some trusted) × MayRun j
signer_trusted-Signer j trusted none h = cc
signer_trusted-Signer j trusted (some provided) h =
    elim (Bool-cases (bytes_equal provided trusted)) [
      | inl t ↦ (
        ap (λ (x : Bytes). some x) ((bytes_equal_iff provided trusted).0 t),
        target_trusted-MayRun j (rw t at h),
      )
      | inr f ↦ ground arith
    ]

against_authority-Signer :
    (c : Crypto) (j : Job) (r : Result Error Bytes)
    → against_authority c j r ≡ ok tt
    → ((key : Bytes) × (r ≡ ok key) × (c.decode_base64 j.signing_public_key ≡ some key)) × MayRun j
against_authority-Signer c j (err e) h = cc
against_authority-Signer c j (ok key) h =
    let (same, runs) = signer_trusted-Signer j key (c.decode_base64 j.signing_public_key) h in
    ((key, refl, same), runs)

-- What is left of the check when the two guards let the job pass.
guards :
    (c : Crypto) (certs : Certificates) (j : Job) (identity : Identity)
    → validate_claimed_job c certs j identity ≡ ok tt
    → (j.id ≢ "")
      × (j.agent_id ≡ identity.agent_id)
      × (j.status ≡ running)
      × (1 ≤ j.last_sequence)
      × (verify c j ≡ true)
      × (against_authority c j (enrollment_ca_public_key certs identity.ca_certificate_pem) ≡ ok tt)
unfolding validate_claimed_job
guards c certs j identity h = (
  λ e. ground (arith, eq_iff j.id ""),
  ground (arith, eq_iff j.agent_id identity.agent_id),
  ground arith,
  ground arith,
  ground arith,
  ground arith,
)

-- A claimed job is let through exactly when it is the agent's own running job, its signature verifies
-- under the very key of the enrollment authority that the agent has pinned, and it asks for a restart
-- of a service other than the agent or for a reboot.
pub validate_claimed_job-IsTrusted :
    (c : Crypto) (certs : Certificates) (j : Job) (identity : Identity)
    → (validate_claimed_job c certs j identity ≡ ok tt) ↔ IsTrusted c certs j identity
unfolding validate_claimed_job
validate_claimed_job-IsTrusted c certs j identity = (only, all)
  where
    only : validate_claimed_job c certs j identity ≡ ok tt → IsTrusted c certs j identity
    only h =
        let (named, own, busy, first, signed, rest) = guards c certs j identity h in
        let (signer, runs) =
          against_authority-Signer c j (enrollment_ca_public_key certs identity.ca_certificate_pem)
            rest in
        record {
          named = named;
          own = own;
          claimed = (busy, first);
          verified = signed;
          signer = signer;
          may_run = runs;
        }

    all : IsTrusted c certs j identity → validate_claimed_job c certs j identity ≡ ok tt
    all t =
        let (key, pinned, named_key) = t.signer in
        let passed : signer_trusted j key (some key) ≡ ok tt =
          rw ((bytes_equal_iff key key).1 refl) (MayRun-target_trusted j t.may_run) in
        let authority : against_authority c j
              (enrollment_ca_public_key certs identity.ca_certificate_pem)
            ≡ ok tt =
          rw (pinned, named_key) passed in
        ground (
          arith,
          t.named,
          t.own,
          t.claimed,
          t.verified,
          authority,
          eq_iff j.id "",
          eq_iff j.agent_id identity.agent_id,
        )
