-- ===== src/Jobs/Order.antt =====
-- Which job ClaimNextJob hands out.
use bazusop.Base.{
  ◌≡◌, refl, sym, subst, Option, none, some, List, [], ◌∷◌, ◌++◌, Bool, true, false, inl, inr,
  arith, Time, All, any, Bool-cases, Option-cases, string_comparable, nat_comparable, Result, ok,
}
use bazusop.Base.TextOrder.{string_ltb-asymm, string_ltb-cotrans}
use bazusop.Base.Assoc.{lookup, values}
use bazusop.Tenancy.{Agent, agent_valid}
use bazusop.Jobs.{Error, Status, queued, running, Job, Event, MemoryStore, job_key_comparable}
use bazusop.Jobs.Store.{
  or_empty, agent_key, write, is_candidate, is_earlier, pick, select, claim_event, claimed_after,
  claim_queued, claim_running, claim_next_job,
}
use bazusop.Jobs.Invariant.{IsWellFormed, Holds, Selected, select-Selected}

is_earlier-asymm : (i j : Job) → is_earlier i j ≡ true → is_earlier j i ≡ false
is_earlier-asymm i j h = ground (arith, string_ltb-asymm i.id j.id)

is_earlier-cotrans :
    (i j k : Job) → is_earlier i j ≡ false → is_earlier j k ≡ false → is_earlier i k ≡ false
is_earlier-cotrans i j k h l = ground (arith, string_ltb-cotrans i.id j.id k.id)

is_earlier_irrefl : (i : Job) → is_earlier i i ≡ false
is_earlier_irrefl i = elim (Bool-cases (is_earlier i i)) [
  | inl t ↦ is_earlier-asymm i i t
  | inr f ↦ f
]

-- Nothing that the loop has seen is earlier than what it keeps.
abbrev Bounds : Job → Option Job → Type 0
Bounds i none = Unit
Bounds i (some x) = is_earlier x i ≡ false

abbrev pub Least : Agent → Status → Job → List Job → Type 0
Least a st i cs = All (λ c. is_candidate a st c ≡ true → is_earlier c i ≡ false) cs

Bounds-pick :
    (a : Agent) (st : Status) (c i : Job) (o : Option Job)
    → Bounds i (pick a st c o)
    → (is_candidate a st c ≡ true → is_earlier c i ≡ false) × Bounds i o
unfolding pick
Bounds-pick a st c i none h = (λ t. rw t at h, tt)
Bounds-pick a st c i (some x) h = elim (Bool-cases (is_candidate a st c)) [
  | inr n ↦ (λ y. ground arith, rw n at h)
  | inl y ↦ elim (Bool-cases (is_earlier c x)) [
    | inl t ↦
        let bound : is_earlier c i ≡ false = rw (y, t) at h in
        (λ _. bound, is_earlier-cotrans x c i (is_earlier-asymm c x t) bound)
    | inr f ↦
        let bound : is_earlier x i ≡ false = rw (y, f) at h in
        (λ _. is_earlier-cotrans c x i f bound, bound)
  ]
]

select-Least :
    (a : Agent) (st : Status) (o : Option Job) (cs : List Job) (i : Job)
    → select a st o cs ≡ some i
    → Least a st i cs × Bounds i o
unfolding select
select-Least a st o [] i h = (tt, subst (Bounds i) (sym h) (is_earlier_irrefl i))
select-Least a st o (c ∷ cs) i h =
    let (least, bound) = select-Least a st (pick a st c o) cs i h in
    let (here, rest) = Bounds-pick a st c i o bound in ((here, least), rest)

pick-none :
    (a : Agent) (st : Status) (c : Job) (o : Option Job)
    → pick a st c o ≡ none
    → (o ≡ none) × (is_candidate a st c ≡ false)
unfolding pick
pick-none a st c none h = (refl, ground arith)
pick-none a st c (some x) h = ground arith

pub select-none :
    (a : Agent) (st : Status) (o : Option Job) (cs : List Job)
    → select a st o cs ≡ none
    → (o ≡ none) × (any (is_candidate a st) cs ≡ false)
unfolding select
select-none a st o [] h = (h, refl)
select-none a st o (c ∷ cs) h =
    let (p, rest) = select-none a st (pick a st c o) cs h in
    let (q, here) = pick-none a st c o p in (q, rw (here, rest))

-- `i` is stored as the agent's, in status `st`, and none of its jobs in that status is earlier.
pub record IsOldest (s : MemoryStore) (a : Agent) (st : Status) (i : Job) : Type 0 where
  pub selected : Selected s a st i
  pub least : Least a st i (values s.jobs)

pub select-IsOldest :
    (s : MemoryStore) (a : Agent) (st : Status) (i : Job)
    → IsWellFormed s
    → select a st none (values s.jobs) ≡ some i
    → IsOldest s a st i
select-IsOldest s a st i w h = record {
  selected = subst (Holds (Selected s a st)) h (select-Selected s a st w);
  least = (select-Least a st none (values s.jobs) i h).0;
}

abbrev pub has : MemoryStore → Agent → Status → Bool
has s a st = any (is_candidate a st) (values s.jobs)

abbrev pub log_of : MemoryStore → Agent → Job → List Event
log_of s a i = or_empty (lookup (agent_key a i.id) s.events)

-- The four ways that a claim by a valid agent can end.
pub data Claims (s : MemoryStore) (a : Agent) (at cutoff : Time)
    (p : MemoryStore × Result Error (Option Job)) : Type 0 where
  leased :
      (i : Job)
      → IsOldest s a running i
      → any (claimed_after cutoff) (log_of s a i) ≡ true
      → p ≡ (s, ok none)
      → Claims s a at cutoff p
  resumes :
      (i : Job)
      → IsOldest s a running i
      → any (claimed_after cutoff) (log_of s a i) ≡ false
      → p ≡ (s, ok (some (record i { resumed = true })))
      → Claims s a at cutoff p
  starts :
      (i : Job)
      → has s a running ≡ false
      → IsOldest s a queued i
      → p ≡ (
        write s
            (agent_key a i.id)
            (record i { status = running; last_sequence = 1 })
            (log_of s a i ++ claim_event a i at ∷ []),
        ok (some (record i { status = running; last_sequence = 1 })),
      )
      → Claims s a at cutoff p
  idle :
      has s a running ≡ false → has s a queued ≡ false → p ≡ (s, ok none) → Claims s a at cutoff p

claim_running-Claims :
    (s : MemoryStore) (a : Agent) (at cutoff : Time) (i : Job)
    → IsOldest s a running i
    → Claims s a at cutoff (claim_running s a at cutoff (some i))
unfolding claim_running
claim_running-Claims s a at cutoff i o =
    elim (Bool-cases (any (claimed_after cutoff) (log_of s a i))) [
      | inl t ↦ leased i o t (rw t)
      | inr f ↦ resumes i o f (rw f)
    ]

claim_queued-Claims :
    (s : MemoryStore) (a : Agent) (at cutoff : Time) (o : Option Job)
    → IsWellFormed s
    → has s a running ≡ false
    → select a queued none (values s.jobs) ≡ o
    → Claims s a at cutoff (claim_queued s a at o)
unfolding claim_queued
claim_queued-Claims s a at cutoff none w free e =
    idle free (select-none a queued none (values s.jobs) e).1 refl
claim_queued-Claims s a at cutoff (some i) w free e =
    starts i free (select-IsOldest s a queued i w e) refl

-- In a well-formed store a valid agent's claim ends in one of four ways: its oldest running job was
-- claimed after the cutoff, and nothing is handed out; that job was not, and it is handed out again,
-- marked as resumed, with the store unchanged; the agent runs nothing, and its oldest queued job is
-- started and logged; it has neither, and nothing is handed out. Oldest is by request time, then by
-- identifier.
pub claim_next_job-Claims :
    (s : MemoryStore) (a : Agent) (at cutoff : Time)
    → IsWellFormed s
    → agent_valid a ≡ true
    → Claims s a at cutoff (claim_next_job s a at cutoff)
unfolding claim_next_job
claim_next_job-Claims s a at cutoff w v =
    rw v (elim (Option-cases (select a running none (values s.jobs))) [
      | inl e ↦
          rw (e, claim_running)
            (claim_queued-Claims s a at cutoff (select a queued none (values s.jobs)) w
              (select-none a running none (values s.jobs) e).1 refl)
      | inr (i, e) ↦ rw e (claim_running-Claims s a at cutoff i (select-IsOldest s a running i w e))
    ])
