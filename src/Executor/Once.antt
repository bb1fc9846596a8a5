-- ===== src/Executor/Once.antt =====
-- No job is run twice, whatever goes wrong between the agent and the hub and wherever the agent stops.
use bazusop.Base.{
  ℕ, ◌≤◌, ◌≡◌, refl, true, false, not, String, Bool, List, [], ◌∷◌, Option, none, some, ◌⊎◌, inl,
  inr, arith, string_comparable, Result, ok, err, resume, All, Bool-cases,
}
use bazusop.Base.Keeps.{Keeps, keeps_rules}
use bazusop.Tenancy.{Agent}
use bazusop.Jobs.{Job, EventRequest, MemoryStore, job_key_comparable}
use bazusop.Jobs.{Error as HubError}
use bazusop.Jobs.Store.{agent_key}
use bazusop.Jobs.Invariant.{IsWellFormed}
use bazusop.Jobs.Service.{claim_next}
use bazusop.Jobs.History.{Call, claims, serve, serve-IsWellFormed}
use bazusop.Jobs.Spent.{IsSpent, serve-IsSpent, Avoids}
use bazusop.Executor.{Error, ExecutionState}
use bazusop.Executor.World.{
  Fault, works, lost, fails, World, described, Surroundings, attempt_as, attempt, load_state,
  claim_job,
}
use bazusop.Executor.Trust.{job_id_valid, validate_claimed_job}
use bazusop.Executor.Process.{
  report_events, handle, unless_resumed, if_trusted, if_claimed, after_load, process_next,
}
use bazusop.Executor.Frame.{Kept, attempt-Kept, report_events-Kept, recover_state-Kept}
use bazusop.Executor.Guard.{
  times, Guard, Ready, Guard-hub, report-Guard, run_job-Guard, claim_next-Fresh,
}

-- What is known once the hub has answered a claim.
abbrev Claimed : Agent → String → MemoryStore → List String → Result Error (Option Job) → Type 0
Claimed a id hub runs answer =
    Guard a id hub runs
    × ((j : Job)
        → answer ≡ ok (some j)
        → j.resumed ≡ false
        → j.id ≡ id
        → (times id runs ≡ 0) × IsSpent (agent_key a id) hub)

claim_job-Claimed :
    (env : Surroundings) (id : String) (w : World)
    → Kept (Guard env.agent id) w
    → let (w', answer) = claim_job env w in Claimed env.agent id w'.hub w'.runs answer
unfolding serve
claim_job-Claimed env id w g = (
  Guard-hub env.agent id w.hub _ w.runs
      (serve-IsWellFormed env.service w.hub (claims env.agent (env.clock w.ticks)))
      (serve-IsSpent (agent_key env.agent id) env.service w.hub
        (claims env.agent (env.clock w.ticks)) tt)
      g,
  λ j e first same.
      claim_next-Fresh env.service w.hub env.agent id w.runs (env.clock w.ticks) g j
        (plain (claim_next env.service env.agent (env.clock w.ticks) w.hub).1 j e) first same,
)
  where
    plain :
        (r : Result HubError (Option Job)) (j : Job)
        → described env.describe r ≡ ok (some j)
        → r ≡ ok (some j)
    plain (ok o) j e = cc
    plain (err o) j e = cc

attempt-Claimed :
    (env : Surroundings) (id : String) (w : World)
    → Kept (Guard env.agent id) w
    → let (w', answer) = attempt (claim_job env) w in Claimed env.agent id w'.hub w'.runs answer
unfolding attempt
attempt-Claimed env id w g = go _ (record w { faults = _ }) g
  where
    go :
        (f : Fault) (w : World)
        → Kept (Guard env.agent id) w
        → let (w', answer) = attempt_as f (claim_job env) w in
          Claimed env.agent id w'.hub w'.runs answer
    go works w g = claim_job-Claimed env id w g
    go (lost e) w g = ((claim_job-Claimed env id w g).0, λ j e. cc)
    go (fails e) w g = (g, λ j e. cc)

module _ (env : Surroundings) (id : String) where
  reporting :
      (j : Job) (es : List EventRequest)
      → Keeps (Kept (Guard env.agent id)) (report_events env j es)
  reporting j es = report_events-Kept (Guard env.agent id) env (report-Guard env env.agent id) j es

  unless_resumed-Guard :
      (j : Job) (b : Bool) (w : World)
      → Kept (Guard env.agent id) w
      → (b ≡ false → Kept (Ready env.agent id j) w)
      → Kept (Guard env.agent id) (unless_resumed env j b w).0
  unless_resumed-Guard j true w g ready = (reporting j _).at w g
  unless_resumed-Guard j false w g ready = (run_job-Guard env env.agent id j).at w (ready refl)

  if_trusted-Guard :
      (j : Job) (r : Result Error (Unit {0})) (w : World)
      → Kept (Guard env.agent id) w
      → (j.resumed ≡ false → Kept (Ready env.agent id j) w)
      → Kept (Guard env.agent id) (if_trusted env j r w).0
  if_trusted-Guard j (err e) w g ready = (reporting j _).at w g
  if_trusted-Guard j (ok _) w g ready = unless_resumed-Guard j j.resumed w g ready

  handle-Guard :
      (j : Job) (w : World)
      → Kept (Guard env.agent id) w
      → (j.resumed ≡ false → Kept (Ready env.agent id j) w)
      → Kept (Guard env.agent id) (handle env j w).0
  unfolding handle
  handle-Guard j w g ready = elim (Bool-cases (not (job_id_valid j.id))) [
    | inl t ↦ rw t g
    | inr f ↦ rw f (
        if_trusted-Guard j (validate_claimed_job env.service.crypto env.certificates j env.identity)
          w g ready)
  ]

  if_claimed-Guard :
      (r : Result Error (Option Job)) (w : World)
      → Claimed env.agent id w.hub w.runs r
      → Kept (Guard env.agent id) (resume r (if_claimed env) w).0
  if_claimed-Guard (err e) w h = h.0
  if_claimed-Guard (ok none) w h = h.0
  if_claimed-Guard (ok (some j)) w h = handle-Guard j w h.0 λ first. (h.0, h.1 j refl first)

  after_load-Guard :
      (o : Option ExecutionState) → Keeps (Kept (Guard env.agent id)) (after_load env o)
  after_load-Guard none = record {
    at = λ w g.
        if_claimed-Guard (attempt (claim_job env) w).1 (attempt (claim_job env) w).0
          (attempt-Claimed env id w g);
  }
  after_load-Guard (some st) =
      recover_state-Kept (Guard env.agent id) env (report-Guard env env.agent id) st

  load-Guard : Keeps (Kept (Guard env.agent id)) (load_state env)
  load-Guard = record { at = λ w g. g }

  pub process_next-Guard : Keeps (Kept (Guard env.agent id)) (process_next env)
  unfolding process_next
  process_next-Guard = search (keeps_rules, attempt-Kept, load-Guard, after_load-Guard) depth 12

-- What happens to the hub and to the agent: a run of ProcessNext, in which some calls go wrong, or
-- another caller's call of the hub.
pub data Happening : Type 0 where
  processes : List Fault → Happening
  serves : Call → Happening

unfoldable pub happen : Surroundings → World → Happening → World
happen env w (processes faults) = (process_next env (record w { faults = faults })).0
happen env w (serves c) = record w { hub = serve env.service w.hub c }

unfoldable pub happen_all : Surroundings → World → List Happening → World
unfolding happen
happen_all env w [] = w
happen_all env w (h ∷ hs) = happen_all env (happen env w h) hs

-- No job is created under the identifier.
abbrev pub Undrawn : String → Happening → Type 0
Undrawn id (processes faults) = Unit
Undrawn id (serves c) = Avoids id c

happen-Guard :
    (env : Surroundings) (id : String) (w : World) (h : Happening)
    → Undrawn id h
    → Kept (Guard env.agent id) w
    → Kept (Guard env.agent id) (happen env w h)
unfolding happen
happen-Guard env id w (processes faults) _ g =
    (process_next-Guard env id).at (record w { faults = faults }) g
happen-Guard env id w (serves c) u g =
    Guard-hub env.agent id w.hub _ w.runs (serve-IsWellFormed env.service w.hub c)
      (serve-IsSpent (agent_key env.agent id) env.service w.hub c u) g

happen_all-Guard :
    (env : Surroundings) (id : String) (w : World) (hs : List Happening)
    → All (Undrawn id) hs
    → Kept (Guard env.agent id) w
    → Kept (Guard env.agent id) (happen_all env w hs)
unfolding happen_all
happen_all-Guard env id w [] u g = g
happen_all-Guard env id w (h ∷ hs) u g =
    happen_all-Guard env id (happen env w h) hs u.1 (happen-Guard env id w h u.0 g)

-- If a job was not run yet and the hub's store is well-formed, then it is run at most once, however
-- often the agent looks for jobs, whichever of its calls fail, are done and lose their answers, or are
-- the last before it stops, and whatever others call of the hub in between, as long as no new job
-- draws its identifier.
pub happen_all-times :
    (env : Surroundings) (id : String) (w : World) (hs : List Happening)
    → IsWellFormed w.hub
    → times id w.runs ≡ 0
    → All (Undrawn id) hs
    → times id (happen_all env w hs).runs ≤ 1
happen_all-times env id w hs formed none_yet u =
    let g = happen_all-Guard env id w hs u (formed, inl none_yet) in bound g.1
  where
    bound : {P : Type 0} {n : ℕ} → (n ≡ 0) ⊎ ((n ≡ 1) × P) → n ≤ 1
    bound (inl e) = omega (arith, e)
    bound (inr (e, p)) = omega (arith, e)
