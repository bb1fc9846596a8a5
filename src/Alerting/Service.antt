-- ===== src/Alerting/Service.antt =====
-- The methods of alerting.Service. Readings of the clock and new identifiers are arguments; float64 and
-- the texts that fmt makes of measured values are an interface.
use bazusop.Base.{
  ℕ, suc, String, len, Bool, true, false, not, ◌&&◌, ◌||◌, List, [], ◌∷◌, none, Time, Result, ok,
  err, Exec, pure, lift, reads, refuse, ◌>>=◌, ◌>>◌, ◌==◌, string_comparable, nat_comparable, any,
  before, leb, ltb, is_zero_time, truncate_micro, trim_space, if◌then◌else◌,
}
use bazusop.Tenancy.{Scope, scope_valid}
use bazusop.Alerting.{
  Error, invalid_alert, not_found, invalid_scope, kind_metric, kind_reachability, status_open,
  event_opened, event_acknowledged, event_resolved, RuleRequest, Rule, MaintenanceRequest,
  MaintenanceWindow, Incident, Event, MemoryStore,
}
use bazusop.Alerting.Store.{
  create_alert_rule, list_alert_rules, create_maintenance_window, list_maintenance_windows,
  ensure_incident, resolve_incident, acknowledge_incident, list_alert_incidents, list_alert_events,
}

-- What the program does with float64: comparisons, three conversions, and its two messages.
pub record Numbers (F : Type 0) : Type 0 where
  pub greater : F → F → Bool
  pub at_most : F → F → Bool
  pub equal : F → F → Bool
  pub of_int : ℕ → F
  pub seconds_between : Time → Time → F
  pub metric_message : String → F → F → String
  pub stale_message : F → String

pub record Telemetry (F : Type 0) : Type 0 where
  pub cpu_percent : F
  pub memory_percent : F
  pub disk_percent : F

-- One reading of the clock, one identifier that may fail and one that may not.
pub record Draw : Type 0 where
  pub now : Time
  pub id : Result Error String
  pub event_id : String

abbrev pub covers : String → Time → MaintenanceWindow → Bool
covers agent now w =
    (w.request.agent_id == "" || w.request.agent_id == agent)
    && not (before now w.request.starts_at)
    && before now w.request.ends_at

unfoldable pub metric_label : String → String
metric_label metric =
    if metric == "cpu"
    then "CPU"
    else if metric == "memory"
    then "Bellek"
    else if metric == "disk"
    then "Disk"
    else ""

module _ {F : Type 0} (n : Numbers F) where
  unfoldable pub valid_rule : RuleRequest F → Bool
  valid_rule r =
      if r.name == ""
        || ltb 128 (len r.name)
        || (not (r.severity == "warning") && not (r.severity == "critical"))
      then false
      else if r.kind == kind_metric
      then (r.metric == "cpu" || r.metric == "memory" || r.metric == "disk")
        && n.greater r.threshold (n.of_int 0)
        && n.at_most r.threshold (n.of_int 100)
        && r.stale_after_seconds == 0
      else r.kind == kind_reachability
        && r.metric == ""
        && n.equal r.threshold (n.of_int 0)
        && leb 60 r.stale_after_seconds
        && leb r.stale_after_seconds 86400

  unfoldable pub create_rule :
      Scope → RuleRequest F → Result Error String → Time → Exec (MemoryStore F) Error (Rule F)
  create_rule scope request new_id now = do
    refuse (not (scope_valid scope)) invalid_scope
    let request' : RuleRequest F = record request { name = trim_space request.name }
    refuse (not (valid_rule request')) invalid_alert
    id ← lift new_id
    let rule : Rule F = record {
      organization_id = scope.organization_id;
      site_id = scope.site_id;
      id = id;
      request = request';
      created_at = truncate_micro now;
    }
    create_alert_rule scope rule
    pure rule

  -- values[rule.Metric], which is zero for a metric that the map has not.
  abbrev pub value_of : Telemetry F → String → F
  value_of t metric =
      if metric == "cpu"
      then t.cpu_percent
      else if metric == "memory"
      then t.memory_percent
      else if metric == "disk"
      then t.disk_percent
      else n.of_int 0

abbrev pub tidied : MaintenanceRequest → MaintenanceRequest
tidied r = record {
  name = trim_space r.name;
  agent_id = trim_space r.agent_id;
  starts_at = truncate_micro r.starts_at;
  ends_at = truncate_micro r.ends_at;
  created_by = trim_space r.created_by;
}

abbrev refused : MaintenanceRequest → Bool
refused r =
    r.name == ""
    || r.created_by == ""
    || is_zero_time r.starts_at
    || not (before r.starts_at r.ends_at)
    || ltb 128 (len r.name)
    || ltb 128 (len r.agent_id)

-- The check of a host that is named.
abbrev pub host_known : (Scope → String → Result Error Bool) → Scope → String → Result Error Bool
host_known exists scope agent = if agent == "" then ok true else exists scope agent

module _ {F : Type 0} where
  unfoldable pub create_maintenance :
      (Scope → String → Result Error Bool)
      → Scope
      → MaintenanceRequest
      → Result Error String
      → Time
      → Exec (MemoryStore F) Error MaintenanceWindow
  create_maintenance exists scope request new_id now = do
    refuse (not (scope_valid scope)) invalid_scope
    refuse (refused (tidied request)) invalid_alert
    known ← lift (host_known exists scope (tidied request).agent_id)
    refuse (not known) not_found
    id ← lift new_id
    let window : MaintenanceWindow = record {
      organization_id = scope.organization_id;
      site_id = scope.site_id;
      id = id;
      request = tidied request;
      created_at = truncate_micro now;
    }
    create_maintenance_window scope window
    pure window

  abbrev pub opened : Scope → Rule F → String → F → String → String → Time → Incident F
  opened scope rule agent value message id now = record {
    organization_id = scope.organization_id;
    site_id = scope.site_id;
    id = id;
    rule_id = rule.id;
    rule_name = rule.request.name;
    agent_id = agent;
    severity = rule.request.severity;
    status = status_open;
    message = message;
    latest_value = value;
    opened_at = now;
    acknowledged_at = none;
    acknowledged_by = "";
    resolved_at = none;
  }

  -- Past the maintenance windows.
  abbrev pub raise :
      Scope
      → Rule F
      → String
      → F
      → String
      → Draw
      → Time
      → Bool
      → Exec (MemoryStore F) Error (Unit {0})
  raise scope rule agent value message draw now true = pure tt
  raise scope rule agent value message draw now false = do
    id ← lift draw.id
    ensure_incident scope (opened scope rule agent value message id now) (record {
      organization_id = scope.organization_id;
      site_id = scope.site_id;
      id = draw.event_id;
      incident_id = id;
      type_ = event_opened;
      actor = "hub";
      message = message;
      occurred_at = now;
    })
    pure tt

  abbrev pub on_breach :
      Scope
      → Rule F
      → String
      → F
      → String
      → Draw
      → Time
      → Bool
      → Exec (MemoryStore F) Error (Unit {0})
  on_breach scope rule agent value message draw now true = do
    windows ← reads (λ s. list_maintenance_windows s scope)
    raise scope rule agent value message draw now (any (covers agent now) windows)
  on_breach scope rule agent value message draw now false = do
    resolve_incident scope rule.id agent value "Koşul normale döndü" (record {
      organization_id = scope.organization_id;
      site_id = scope.site_id;
      id = draw.event_id;
      incident_id = "";
      type_ = event_resolved;
      actor = "hub";
      message = "Koşul normale döndü";
      occurred_at = now;
    })
    pure tt

  unfoldable pub evaluate :
      Scope → Rule F → String → Bool → F → String → Draw → Exec (MemoryStore F) Error (Unit {0})
  evaluate scope rule agent breached value message draw = do
    refuse (agent == "") invalid_alert
    on_breach scope rule agent value message draw (truncate_micro draw.now) breached

  unfoldable pub acknowledge :
      Scope → String → String → String → Time → Exec (MemoryStore F) Error (Incident F)
  acknowledge scope incident_id actor event_id now = do
    refuse (not (scope_valid scope)) invalid_scope
    let id = trim_space incident_id
    let by = trim_space actor
    refuse (id == "" || by == "" || ltb 128 (len by)) invalid_alert
    acknowledge_incident scope id by (truncate_micro now) (record {
      organization_id = scope.organization_id;
      site_id = scope.site_id;
      id = event_id;
      incident_id = id;
      type_ = event_acknowledged;
      actor = by;
      message = "Olay operatör tarafından onaylandı";
      occurred_at = truncate_micro now;
    })

  unfoldable pub list_incidents : MemoryStore F → Scope → ℕ → Result Error (List (Incident F))
  list_incidents s scope limit =
      if not (scope_valid scope)
      then err invalid_scope
      else if ltb limit 1 || ltb 500 limit
      then err invalid_alert
      else list_alert_incidents s scope limit

  unfoldable pub list_events : MemoryStore F → Scope → String → Result Error (List Event)
  list_events s scope incident_id =
      if not (scope_valid scope)
      then err invalid_scope
      else if trim_space incident_id == ""
      then err invalid_alert
      else list_alert_events s scope incident_id

module _ {F : Type 0} (n : Numbers F) where
  -- The loop of EvaluateTelemetry.
  unfoldable pub each_metric :
      Scope
      → String
      → Telemetry F
      → (ℕ → Draw)
      → List (Rule F)
      → Exec (MemoryStore F) Error (Unit {0})
  each_metric scope agent t draws [] = pure tt
  each_metric scope agent t draws (rule ∷ rules) =
      let rest = each_metric scope agent t (λ i. draws (suc i)) rules in
      if not rule.request.enabled || not (rule.request.kind == kind_metric)
      then rest
      else (evaluate scope rule (trim_space agent)
            (n.greater (value_of n t rule.request.metric) rule.request.threshold)
            (value_of n t rule.request.metric)
            (n.metric_message (metric_label rule.request.metric) (value_of n t rule.request.metric)
              rule.request.threshold)
            (draws 0)
          >> rest)

  unfoldable pub evaluate_telemetry :
      Scope → String → Telemetry F → (ℕ → Draw) → Exec (MemoryStore F) Error (Unit {0})
  evaluate_telemetry scope agent t draws = do
    refuse (not (scope_valid scope)) invalid_scope
    rules ← reads (λ s. list_alert_rules s scope)
    each_metric scope agent t draws rules

  -- The seconds since the agent was seen, at least zero.
  abbrev pub stale_seconds : Time → Time → F
  stale_seconds now last_seen =
      if n.greater (n.of_int 0) (n.seconds_between now last_seen)
      then n.of_int 0
      else n.seconds_between now last_seen

  -- The loop of EvaluateReachability, which reads the clock once for each rule and once more inside.
  unfoldable pub each_reachability :
      Scope
      → String
      → Time
      → (ℕ → Time)
      → (ℕ → Draw)
      → List (Rule F)
      → Exec (MemoryStore F) Error (Unit {0})
  each_reachability scope agent seen clock draws [] = pure tt
  each_reachability scope agent seen clock draws (rule ∷ rules) =
      let rest =
        each_reachability scope agent seen (λ i. clock (suc i)) (λ i. draws (suc i)) rules in
      if not rule.request.enabled || not (rule.request.kind == kind_reachability)
      then rest
      else (evaluate scope rule (trim_space agent)
            (n.greater (stale_seconds (clock 0) seen) (n.of_int rule.request.stale_after_seconds))
            (stale_seconds (clock 0) seen) (n.stale_message (stale_seconds (clock 0) seen))
            (draws 0)
          >> rest)

  unfoldable pub evaluate_reachability :
      Scope → String → Time → (ℕ → Time) → (ℕ → Draw) → Exec (MemoryStore F) Error (Unit {0})
  evaluate_reachability scope agent seen clock draws = do
    refuse (not (scope_valid scope)) invalid_scope
    rules ← reads (λ s. list_alert_rules s scope)
    each_reachability scope agent seen clock draws rules

module _ {F : Type 0} where
  unfoldable pub list_rules : MemoryStore F → Scope → Result Error (List (Rule F))
  list_rules s scope =
      if not (scope_valid scope) then err invalid_scope else list_alert_rules s scope

  unfoldable pub list_maintenance : MemoryStore F → Scope → Result Error (List MaintenanceWindow)
  list_maintenance s scope =
      if not (scope_valid scope) then err invalid_scope else list_maintenance_windows s scope
