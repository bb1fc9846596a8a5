-- ===== src/Jobs/Cases.antt =====
-- The ways that a call of the store can go, as rules to reason by.
use bazusop.Base.{
  ◌+◌, ◌≤◌, [], ◌∷◌, ◌++◌, find, leb, nat_comparable, ◌||◌, ◌≡◌, String, Option, none, some, true,
  not, Bool-cases, Option-cases, inl, inr, ◌==◌, string_comparable, eq_iff, Time, ok, err, Result,
  arith,
}
use bazusop.Base.Assoc.{lookup, values}
use bazusop.Tenancy.{Agent, agent_valid}
use bazusop.Jobs.{
  Error, invalid_scope, job_not_found, job_conflict, status_eqb, queued, running, Job, Event,
  EventRequest, MemoryStore, job_key_comparable,
}
use bazusop.Jobs.Store.{
  known_report, same_report, reported, write, reported_event, or_empty, agent_key, select,
  claim_queued, claim_running, claim_next_job, record_for, record_job_event,
}

pub record_cases :
    (P : MemoryStore × Result Error (Job × Event) → Type 0) (s : MemoryStore) (a : Agent)
    (id : String) (r : EventRequest) (at : Time)
    → P (s, err invalid_scope)
    → P (s, err job_not_found)
    → (agent_valid a ≡ true
        → (j : Job) → lookup (agent_key a id) s.jobs ≡ some j
        → j.agent_id ≡ a.id
        → P (record_for s a j r at id))
    → P (record_job_event s a id r at)
unfolding record_job_event
record_cases P s a id r at bad missing found = elim (Bool-cases (agent_valid a)) [
  | inl v ↦ rw v (elim (Option-cases (lookup (agent_key a id) s.jobs)) [
    | inl e ↦ rw e missing
    | inr (j, e) ↦ rw e (elim (Bool-cases (j.agent_id == a.id)) [
      | inl t ↦ rw t (found v j e ((eq_iff j.agent_id a.id).0 t))
      | inr g ↦ rw g missing
    ])
  ])
  | inr f ↦ rw f bad
]

-- The three ways that a report of the agent's own job can go.
pub record_for_cases :
    (P : MemoryStore × Result Error (Job × Event) → Type 0) (s : MemoryStore) (a : Agent) (j : Job)
    (r : EventRequest) (at : Time) (id : String)
    → let past = or_empty (lookup (agent_key a id) s.events) in
      (r.sequence ≤ j.last_sequence → P (s, known_report j (find (same_report r) past)))
      → P (s, err job_conflict)
      → (j.status ≡ running
          → r.sequence ≡ j.last_sequence + 1
          → P (
            write s (agent_key a id) (reported j r) (past ++ reported_event a id r at ∷ []),
            ok (reported j r, reported_event a id r at),
          ))
      → P (record_for s a j r at id)
unfolding record_for
record_for_cases P s a j r at id known refused fresh =
    elim (Bool-cases (leb r.sequence j.last_sequence)) [
      | inl t ↦ rw t (known (ground arith))
      | inr f ↦
          rw f
            (elim (Bool-cases
              (not (status_eqb j.status running) || not (r.sequence == j.last_sequence + 1))) [
                | inl t ↦ rw t refused
                | inr g ↦ rw g (fresh (ground arith) (ground arith))
              ])
    ]

pub claim_cases :
    (P : MemoryStore × Result Error (Option Job) → Type 0) (s : MemoryStore) (a : Agent)
    (at cutoff : Time)
    → P (s, err invalid_scope)
    → (agent_valid a ≡ true
        → (j : Job) → select a running none (values s.jobs) ≡ some j
        → P (claim_running s a at cutoff (some j)))
    → (agent_valid a ≡ true
        → select a running none (values s.jobs) ≡ none
        → P (claim_queued s a at (select a queued none (values s.jobs))))
    → P (claim_next_job s a at cutoff)
unfolding claim_next_job
claim_cases P s a at cutoff bad busy idle = elim (Bool-cases (agent_valid a)) [
  | inl t ↦ rw t (elim (Option-cases (select a running none (values s.jobs))) [
    | inl e ↦ rw e (idle t e)
    | inr (j, e) ↦ rw e (busy t j e)
  ])
  | inr f ↦ rw f bad
]
