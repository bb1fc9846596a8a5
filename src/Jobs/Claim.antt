-- ===== src/Jobs/Claim.antt =====
-- The ways that a call of the service can go.
use bazusop.Base.{Option, Bool-cases, inl, inr, err, Result, Time, ◌-◌, not}
use bazusop.Tenancy.{Agent, agent_valid}
use bazusop.Jobs.{Error, invalid_scope, Job, MemoryStore}
use bazusop.Jobs.Store.{claim_next_job}
use bazusop.Jobs.Service.{Service, claim_next}

pub claim_next_cases :
    (P : MemoryStore × Result Error (Option Job) → Type 0) (sv : Service) (a : Agent) (now : Time)
    (s : MemoryStore)
    → P (s, err invalid_scope)
    → P (claim_next_job s a now (now - sv.job_lease))
    → P (claim_next sv a now s)
unfolding claim_next
claim_next_cases P sv a now s bad good = elim (Bool-cases (not (agent_valid a))) [
  | inl t ↦ rw (t, claim_next) bad
  | inr f ↦ rw (f, claim_next) good
]
