-- ===== src/Jobs/Redelivery.antt =====
-- An agent that does not hear the hub's answer sends its report again.
use bazusop.Base.{
  ℕ, suc, ◌+◌, ◌≤◌, ◌≡◌, refl, ap, ◌∙◌, String, List, [], ◌∷◌, ◌++◌, Option, none, some, true,
  arith, string_comparable, nat_comparable, eq_iff, find, length, Time, Result, ok,
}
use bazusop.Base.Assoc.{lookup, lookup-insert_self}
use bazusop.Tenancy.{Agent, agent_valid}
use bazusop.Jobs.{Error, Job, Event, EventRequest, MemoryStore, job_key_comparable}
use bazusop.Jobs.Store.{
  or_empty, agent_key, record_for, record_job_event, same_report, reported_event, known_report,
  reported, write,
}
use bazusop.Jobs.Log.{IsNumbered}
use bazusop.Jobs.Invariant.{IsWellFormed}
use bazusop.Jobs.Cases.{record_cases, record_for_cases}

-- A report that is new to the log is found at its end.
find-reported :
    (n : ℕ) (es : List Event) (a : Agent) (id : String) (r : EventRequest) (at : Time)
    → IsNumbered n es
    → n + length es ≤ r.sequence
    → find (same_report r) (es ++ reported_event a id r at ∷ []) ≡ some (reported_event a id r at)
unfolding IsNumbered
find-reported n [] a id r at h l = ground (arith, eq_iff r.type r.type, eq_iff r.message r.message)
find-reported n (x ∷ es) a id r at h l = ground (arith, find-reported (suc n) es a id r at h.1)

-- A report that the log holds is answered from the log, and changes nothing.
known :
    (s : MemoryStore) (a : Agent) (j : Job) (e : Event) (r : EventRequest) (at : Time) (id : String)
    → agent_valid a ≡ true
    → lookup (agent_key a id) s.jobs ≡ some j
    → j.agent_id ≡ a.id
    → r.sequence ≤ j.last_sequence
    → find (same_report r) (or_empty (lookup (agent_key a id) s.events)) ≡ some e
    → record_job_event s a id r at ≡ (s, ok (j, e))
unfolding record_job_event record_for
known s a j e r at id v l own le f = rw (v, l) (ground (arith, eq_iff j.agent_id a.id))

abbrev Repeats :
    Agent → String → EventRequest → Time → MemoryStore × Result Error (Job × Event) → Type 0
Repeats a id r again p =
    (j : Job) (e : Event) → p.1 ≡ ok (j, e) → record_job_event p.0 a id r again ≡ (p.0, ok (j, e))

Repeats-known :
    (s : MemoryStore) (a : Agent) (j : Job) (r : EventRequest) (again : Time) (id : String)
    (o : Option Event)
    → agent_valid a ≡ true
    → lookup (agent_key a id) s.jobs ≡ some j
    → j.agent_id ≡ a.id
    → r.sequence ≤ j.last_sequence
    → find (same_report r) (or_empty (lookup (agent_key a id) s.events)) ≡ o
    → Repeats a id r again (s, known_report j o)
Repeats-known s a j r again id none v l own le f i e h = cc
Repeats-known s a j r again id (some d) v l own le f i e h =
    known s a j d r again id v l own le f ∙ ap (λ (x : Result Error (Job × Event)). (s, x)) h

Repeats-fresh :
    (s : MemoryStore) (a : Agent) (j : Job) (r : EventRequest) (at again : Time) (id : String)
    (es : List Event)
    → agent_valid a ≡ true
    → j.agent_id ≡ a.id
    → find (same_report r) (es ++ reported_event a id r at ∷ []) ≡ some (reported_event a id r at)
    → Repeats a id r again (
      write s (agent_key a id) (reported j r) (es ++ reported_event a id r at ∷ []),
      ok (reported j r, reported_event a id r at),
    )
Repeats-fresh s a j r at again id es v own f i e h =
    let key = agent_key a id in
    let log = es ++ reported_event a id r at ∷ [] in
    let t = write s key (reported j r) log in
    known t a (reported j r) (reported_event a id r at) r again id v
      (lookup-insert_self key (reported j r) s.jobs) own (omega arith)
      (rw (lookup-insert_self key log s.events) f)
    ∙ ap (λ (x : Result Error (Job × Event)). (t, x)) h

-- In a well-formed store a report that was accepted may be delivered again, at any later time: the
-- second call returns the same job and the same event, and changes nothing.
pub record_job_event-again :
    (s : MemoryStore) (a : Agent) (id : String) (r : EventRequest) (at again : Time) (j : Job)
    (e : Event)
    → IsWellFormed s
    → let (s', result) = record_job_event s a id r at in
      result ≡ ok (j, e) → record_job_event s' a id r again ≡ (s', ok (j, e))
record_job_event-again s a id r at again j e w =
    record_cases (Repeats a id r again) s a id r at (λ i d h. cc) (λ i d h. cc)
      (λ v i l own.
        let past = or_empty (lookup (agent_key a id) s.events) in
        let log = w.logged (agent_key a id) i l in
        record_for_cases (Repeats a id r again) s a i r at id
          (λ le. Repeats-known s a i r again id (find (same_report r) past) v l own le refl)
          (λ i d h. cc)
          (λ _ next.
            Repeats-fresh s a i r at again id past v own
              (find-reported 0 past a id r at log.numbered (omega (arith, log.counted)))))
      j e
