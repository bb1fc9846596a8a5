-- ===== src/Telemetry/Store.antt =====
-- telemetry.MemoryStore and telemetry.Service.
use bazusop.Base.{
  ℕ, suc, ◌-◌, ◌^◌, String, Bool, not, ◌&&◌, ◌||◌, List, [], ◌∷◌, Option, none, some, Result, ok,
  err, Exec, reads, refuse, ◌>>◌, ◌==◌, string_comparable, nat_comparable, ltb, if◌then◌else◌, Time,
  before, after, is_zero_time, filter, length, drop, trim_space, truncate_micro,
}
use bazusop.Base.Assoc.{Map, lookup, insert}
use bazusop.Base.Sort.{sort_by}
use bazusop.Tenancy.{Scope, Agent, scope_valid, agent_valid, agent_comparable}
use bazusop.Jobs.Store.{or_empty}
use bazusop.Telemetry.{
  Error, invalid_sample, invalid_scope, Floats, Sample, FleetAverage, MemoryStore,
}

abbrev pub asked : Scope → String → Agent
asked scope agent = record {
  id = agent;
  organization_id = scope.organization_id;
  site_id = scope.site_id;
}

module _ {F : Type 0} where
  abbrev pub empty_store : MemoryStore F
  empty_store = record { samples = [] }

  abbrev pub agent_of : Sample F → Agent
  agent_of x = record { id = x.agent_id; organization_id = x.organization_id; site_id = x.site_id }

  -- The sample in place of the first one of its instant, or behind all others.
  abbrev pub put : Sample F → List (Sample F) → List (Sample F)
  put x [] = x ∷ []
  put x (y ∷ ys) =
      let rest = put x ys in if y.recorded_at == x.recorded_at then x ∷ ys else y ∷ rest

  abbrev pub earlier : Sample F → Sample F → Bool
  earlier l r = before l.recorded_at r.recorded_at

  unfoldable pub append : Sample F → Exec (MemoryStore F) Error Unit
  append x s = if not (agent_valid (agent_of x)) then (s, err invalid_scope) else (
    record s {
      samples =
          insert (agent_of x) (sort_by earlier (put x (or_empty (lookup (agent_of x) s.samples))))
            s.samples;
    },
    ok tt,
  )

  abbrev pub is_in : Time → Time → Sample F → Bool
  is_in from to x = not (before x.recorded_at from || after x.recorded_at to)

  -- The last of a list, no more than the limit.
  abbrev pub cut : ℕ → List (Sample F) → List (Sample F)
  cut limit xs = if ltb limit (length xs) then drop (length xs - limit) xs else xs

  unfoldable pub history :
      Scope → String → Time → Time → ℕ → MemoryStore F → Result Error (List (Sample F))
  history scope agent from to limit s =
      if not (scope_valid scope)
      then err invalid_scope
      else ok (cut limit (filter (is_in from to) (or_empty (lookup (asked scope agent) s.samples))))

  -- samples[len(samples)-1]
  abbrev pub last : List (Sample F) → Option (Sample F)
  last [] = none
  last (x ∷ []) = some x
  last (x ∷ y ∷ ys) = last (y ∷ ys)

  module _ (f : Floats F) where
    abbrev pub counted : Time → Option (Sample F) → F × ℕ → F × ℕ
    counted since none (sum, count) = (sum, count)
    counted since (some x) (sum, count) =
        if before x.recorded_at since then (sum, count) else (f.plus sum x.cpu_percent, suc count)

    -- The loop of FleetAverage.
    abbrev pub add_up : Scope → Time → Map Agent (List (Sample F)) → F × ℕ → F × ℕ
    add_up scope since [] acc = acc
    add_up scope since ((a, xs) ∷ m) acc = add_up scope since m (
        if not (a.organization_id == scope.organization_id) || not (a.site_id == scope.site_id)
        then acc
        else counted since (last xs) acc)

    unfoldable pub fleet_average : Scope → Time → MemoryStore F → Result Error (FleetAverage F)
    fleet_average scope since s =
        let (sum, count) = add_up scope since s.samples (f.of_int 0, 0) in
        if count == 0
        then ok (record { average_cpu_percent = f.of_int 0; device_count = 0 })
        else ok (record { average_cpu_percent = f.over sum (f.of_int count); device_count = count })

    abbrev pub valid_percent : F → Bool
    valid_percent value =
        not (f.is_nan value) && not (f.is_inf value) && f.at_least value 0 && f.at_most value 100

    -- The sample that Report is about to store.
    abbrev pub reported : Agent → Sample F → Sample F
    reported agent x = record x {
      agent_id = trim_space agent.id;
      organization_id = agent.organization_id;
      site_id = agent.site_id;
      recorded_at = truncate_micro x.recorded_at;
    }

    abbrev pub refused : Sample F → Bool
    refused x =
        x.agent_id == ""
        || is_zero_time x.recorded_at
        || not (valid_percent x.cpu_percent)
        || not (valid_percent x.memory_percent)
        || not (valid_percent x.disk_percent)
        || ltb (2 ^ 63 - 1) x.network_rx_bytes
        || ltb (2 ^ 63 - 1) x.network_tx_bytes

    -- Service.Report.
    unfoldable pub report : Agent → Sample F → Exec (MemoryStore F) Error Unit
    report agent x = do
      refuse (not (agent_valid agent)) invalid_scope
      refuse (refused (reported agent x)) invalid_sample
      append (reported agent x)

    -- Service.FleetAverage.
    unfoldable pub fleet : Scope → Time → Exec (MemoryStore F) Error (FleetAverage F)
    fleet scope since = do
      refuse (not (scope_valid scope)) invalid_scope
      reads (fleet_average scope since)

  -- Service.History.
  unfoldable pub shown :
      Scope → String → Time → Time → ℕ → Exec (MemoryStore F) Error (List (Sample F))
  shown scope agent from to limit = do
    refuse (not (scope_valid scope)) invalid_scope
    refuse
        (trim_space agent == ""
          || is_zero_time from
          || is_zero_time to
          || not (before from to)
          || ltb limit 1
          || ltb 2000 limit)
        invalid_sample
    reads (history scope (trim_space agent) from to limit)
