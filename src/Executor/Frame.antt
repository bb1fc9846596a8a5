-- ===== src/Executor/Frame.antt =====
-- What the executor's calls leave alone, whatever goes wrong in them.
use bazusop.Base.{String, List, [], ◌∷◌, Bool, true, false, Exec, ◌>>◌}
use bazusop.Base.Keeps.{Keeps, Keeps-bind, keeps_rules}
use bazusop.Jobs.{Job, EventRequest, MemoryStore}
use bazusop.Executor.{Error, ExecutionState}
use bazusop.Executor.World.{
  Fault, works, lost, fails, World, Surroundings, attempt_as, attempt, save_state, delete_state,
  report_event,
}
use bazusop.Executor.Process.{
  wrapped, save_rest, flush_events, report_events, settle, recover_state,
}

-- A property of the hub and of the jobs that were run.
module _ (R : MemoryStore → List String → Type 0) where
  abbrev pub Kept : World → Type 0
  Kept w = R w.hub w.runs

  pub attempt-Kept : {A : Type 0} (m : Exec World Error A) → Keeps Kept m → Keeps Kept (attempt m)
  unfolding attempt
  attempt-Kept m k = record { at = λ w h. go _ (record w { faults = _ }) h }
    where
      go : (f : Fault) (w : World) → Kept w → Kept (attempt_as f m w).0
      go works w h = k.at w h
      go (lost e) w h = k.at w h
      go (fails e) w h = h

  pub wrapped-Kept :
      {A : Type 0} (prefix : String) (m : Exec World Error A)
      → Keeps Kept m
      → Keeps Kept (wrapped prefix m)
  wrapped-Kept prefix m k = record { at = λ w h. k.at w h }

  pub save-Kept : (env : Surroundings) (st : ExecutionState) → Keeps Kept (save_state env st)
  save-Kept env st = record { at = λ w h. h }

  pub delete-Kept : Keeps Kept delete_state
  delete-Kept = record { at = λ w h. h }

  -- Reports may change the hub.
  module _ (env : Surroundings)
      (report-Kept : (id : String) (e : EventRequest) → Keeps Kept (report_event env id e)) where
    save_rest-Kept :
        (st : ExecutionState) (es : List EventRequest) → Keeps Kept (save_rest env st es)
    save_rest-Kept st [] = search (keeps_rules)
    save_rest-Kept st (e ∷ es) = search (keeps_rules, attempt-Kept, save-Kept)

    flush_events-Kept :
        (st : ExecutionState) (es : List EventRequest) → Keeps Kept (flush_events env st es)
    unfolding flush_events
    flush_events-Kept st [] = search (attempt-Kept, delete-Kept)
    flush_events-Kept st (e ∷ es) =
        Keeps-bind (attempt (report_event env st.job.id e))
          (λ _. save_rest env st es >> flush_events env st es) (search (attempt-Kept, report-Kept))
          (λ _.
            Keeps-bind (save_rest env st es) (λ _. flush_events env st es) (save_rest-Kept st es)
              (λ _. flush_events-Kept st es))

    pub report_events-Kept :
        (j : Job) (es : List EventRequest) → Keeps Kept (report_events env j es)
    unfolding report_events
    report_events-Kept j es =
        search (keeps_rules, attempt-Kept, wrapped-Kept, save-Kept, flush_events-Kept) depth 12

    settle-Kept : (st : ExecutionState) (b : Bool) → Keeps Kept (settle env st b)
    settle-Kept st true = search (keeps_rules, attempt-Kept, save-Kept, flush_events-Kept) depth 12
    settle-Kept st false = search (flush_events-Kept)

    pub recover_state-Kept : (st : ExecutionState) → Keeps Kept (recover_state env st)
    unfolding recover_state
    recover_state-Kept st = search (keeps_rules, settle-Kept) depth 12
