-- ===== src/Executor/Accepted.antt =====
-- The hub takes what the agent reports of a job that it has run.
use bazusop.Base.{
  ◌-◌, ◌*◌, ◌≤◌, ◌≡◌, refl, true, false, String, len, Option, none, some, arith, Time, Result, ok,
  ◌==◌, string_comparable, nat_comparable, eq_iff, trim_space, Bool-cases, ◌⊎◌, inl, inr,
}
use Prim.Native.String.{◌++◌ as append}
use bazusop.Base.Utf8.{truncate_utf8-IsLongestFit}
use bazusop.Base.Trim.{
  IsOpen, len-trim_space, truncate_utf8-IsOpen, trim_space-IsOpen, IsOpen-trim_space,
}
use bazusop.Base.Assoc.{values, lookup-insert_self}
use bazusop.Tenancy.{Agent, agent_valid}
use bazusop.Jobs.{
  queued, running, succeeded, failed, Status, service_restart, host_reboot, Job, MemoryStore,
  job_key_comparable, event_output,
}
use bazusop.Jobs.{Error as HubError}
use bazusop.Jobs.Store.{agent_key, select, claim_queued, claim_running}
use bazusop.Jobs.Invariant.{IsWellFormed, Holds, Selected, select-Selected, candidate-agent}
use bazusop.Jobs.Cases.{claim_cases}
use bazusop.Jobs.Claim.{claim_next_cases}
use bazusop.Jobs.Service.{Service, claim_next, refused_report}
use bazusop.Executor.{Error}
use bazusop.Executor.Trust.{is_hex_of, job_id_valid}
use bazusop.Executor.Trusted.{MayRun}
use bazusop.Executor.Process.{cut, shown_output, last_event, result_events}
use bazusop.Executor.Finish.{sent, Deliverable, delivered, Held}

-- A job that is handed out for the first time is the agent's, runs, and has reported nothing.
abbrev pub Started : Agent → Job → MemoryStore → Type 0
Started a j s =
    (agent_valid a ≡ true) × Held a j.id j s × (j.status ≡ running) × (j.last_sequence ≡ 1)

abbrev Starts : Agent → MemoryStore × Result HubError (Option Job) → Type 0
Starts a p = (j : Job) → p.1 ≡ ok (some j) → j.resumed ≡ false → Started a j p.0

claim_queued-Starts :
    (s : MemoryStore) (a : Agent) (at : Time) (o : Option Job)
    → agent_valid a ≡ true
    → Holds (Selected s a queued) o
    → Starts a (claim_queued s a at o)
unfolding claim_queued
claim_queued-Starts s a at none v sel = λ j e. cc
claim_queued-Starts s a at (some i) v sel =
    let claimed : Job = record i { status = running; last_sequence = 1 } in
    λ j e _. (
      v,
      (
        ground (arith, e, lookup-insert_self (agent_key a i.id) claimed s.jobs),
        ground (arith, e, candidate-agent a queued i sel.1),
      ),
      ground (arith, e),
      ground (arith, e),
    )

claim_running-Starts :
    (s : MemoryStore) (a : Agent) (at cutoff : Time) (i : Job)
    → Starts a (claim_running s a at cutoff (some i))
unfolding claim_running
claim_running-Starts s a at cutoff i = λ j e first. ground (arith, e, first)

pub claim_next-Started :
    (sv : Service) (s : MemoryStore) (a : Agent) (now : Time)
    → IsWellFormed s
    → (j : Job) → (claim_next sv a now s).1 ≡ ok (some j)
    → j.resumed ≡ false
    → Started a j (claim_next sv a now s).0
claim_next-Started sv s a now w =
    claim_next_cases (Starts a) sv a now s (λ j e. cc)
      (claim_cases (Starts a) s a now (now - sv.job_lease) (λ j e. cc)
        (λ _ i _. claim_running-Starts s a now (now - sv.job_lease) i)
        (λ v _.
          claim_queued-Starts s a now (select a queued none (values s.jobs)) v
            (select-Selected s a queued w)))

-- A text that starts with a character, and is cut, is neither too long nor blank.
cut_fits : (s : String) → len (trim_space (cut s)) ≤ 32 * 1024
cut_fits s =
    let (rest, whole, short, _) = truncate_utf8-IsLongestFit s (32 * 1024) in
    omega (arith, len-trim_space (cut s), short)

IsOpen-nonempty : (s : String) → IsOpen s → (s == "") ≡ false
IsOpen-nonempty String.[] o = absurd o
IsOpen-nonempty (String.◌∷◌ c s) o = elim (Bool-cases (String.◌∷◌ c s == "")) [
  | inl t ↦ let e = (eq_iff (String.◌∷◌ c s) "").0 t in cc
  | inr f ↦ f
]

cut_nonblank : (s : String) → IsOpen s → (trim_space (cut s) == "") ≡ false
cut_nonblank s o =
    IsOpen-nonempty (trim_space (cut s))
      (IsOpen-trim_space (cut s) (truncate_utf8-IsOpen s (32 * 1024) (omega arith) o))

-- The actions that are run have plain names.
abbrev IsNamed : String → Type 0
IsNamed action = (action ≡ service_restart) ⊎ (action ≡ host_reboot)

pub IsTrusted-IsNamed : (j : Job) → MayRun j → IsNamed j.action
IsTrusted-IsNamed j (inl (e, _, _, _, _)) = inl e
IsTrusted-IsNamed j (inr (e, _)) = inr e

shown_output-IsOpen :
    (j : Job) (output : String) → IsNamed j.action → IsOpen (shown_output j output)
shown_output-IsOpen j output named = elim (trim_space-IsOpen output) [
  | inl e ↦ rw e (placeholder named)
  | inr o ↦ rw (IsOpen-nonempty (trim_space output) o) o
]
  where
    placeholder : IsNamed j.action → IsOpen (append j.action " produced no output")
    placeholder (inl e) = rw e refl
    placeholder (inr e) = rw e refl

pub named_id : (id : String) → job_id_valid id ≡ true → (id == "") ≡ false
unfolding is_hex_of
named_id String.[] h = ground arith
named_id (String.◌∷◌ c s) h = elim (Bool-cases (String.◌∷◌ c s == "")) [
  | inl t ↦ let e = (eq_iff (String.◌∷◌ c s) "").0 t in cc
  | inr f ↦ f
]

-- The error of a failed execution leaves something to say of it, once it is cut and trimmed.
abbrev pub Explained : Option Error → Type 0
Explained none = Unit
Explained (some e) = (trim_space (cut e) == "") ≡ false

output_accepted :
    (j : Job) (output : String)
    → job_id_valid j.id ≡ true
    → IsNamed j.action
    → refused_report j.id
        (sent (record { sequence = 2; type = event_output; message = cut (shown_output j output) }))
      ≡ false
unfolding refused_report
output_accepted j output v named =
    rw (named_id j.id v, cut_nonblank (shown_output j output) (shown_output-IsOpen j output named))
      (ground (arith, cut_fits (shown_output j output)))

last_accepted :
    (j : Job) (r : Option Error)
    → job_id_valid j.id ≡ true
    → IsNamed j.action
    → Explained r
    → refused_report j.id (sent (last_event j r)) ≡ false
unfolding refused_report trim_space
last_accepted j none v (inl e) x = rw (named_id j.id v, e) refl
last_accepted j none v (inr e) x = rw (named_id j.id v, e) refl
last_accepted j (some e) v named x = rw (named_id j.id v, x) (ground (arith, cut_fits e))

-- The status in which a run of a job ends.
abbrev pub outcome : Option Error → Status
outcome none = succeeded
outcome (some e) = failed

abbrev pub done : Job → Option Error → Job
done j r = record j { status = outcome r; last_sequence = 3 }

pub delivered-results :
    (j : Job) (output : String) (r : Option Error)
    → delivered j (result_events j (output, r)) ≡ done j r
delivered-results j output none = refl
delivered-results j output (some e) = refl

pub results-Deliverable :
    (j : Job) (output : String) (r : Option Error)
    → job_id_valid j.id ≡ true
    → IsNamed j.action
    → Explained r
    → j.status ≡ running
    → j.last_sequence ≡ 1
    → Deliverable j j.id (result_events j (output, r))
results-Deliverable j output r v named x busy first = (
  busy,
  omega (arith, first),
  output_accepted j output v named,
  (busy, last_sequence r, last_accepted j r v named x, tt),
)
  where
    last_sequence : (r : Option Error) → (last_event j r).sequence ≡ 3
    last_sequence none = refl
    last_sequence (some e) = refl
