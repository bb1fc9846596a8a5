-- ===== src/Alerting/History.antt =====
-- What operators, agents' reports and the hub's clock can do to the alerts, in any order.
use bazusop.Base.{
  ℕ, suc, String, Bool, true, false, not, ◌||◌, List, [], ◌∷◌, Time, Result, Exec, ok, ◌>>◌, ◌==◌,
  string_comparable, trim_space, if◌then◌else◌,
}
use bazusop.Base.Keeps.{Keeps, Keeps-bind, keeps_rules}
use bazusop.Base.Assoc.{insert}
use bazusop.Tenancy.{Scope}
use bazusop.Alerting.{
  Error, kind_metric, kind_reachability, RuleRequest, Rule, MaintenanceRequest, MaintenanceWindow,
  MemoryStore,
}
use bazusop.Alerting.Store.{create_alert_rule, create_maintenance_window}
use bazusop.Alerting.Service.{
  Numbers, Telemetry, Draw, create_rule, create_maintenance, raise, on_breach, evaluate,
  acknowledge, each_metric, evaluate_telemetry, each_reachability, evaluate_reachability,
  metric_label, value_of, stale_seconds,
}
use bazusop.Alerting.Single.{
  IsExclusive, ensure_incident-IsExclusive, resolve_incident-IsExclusive,
  acknowledge_incident-IsExclusive,
}

pub data Call (F : Type 0) : Type 0 where
  adds_rule : Scope → RuleRequest F → Result Error String → Time → Call F
  adds_window :
      (Scope → String → Result Error Bool)
      → Scope
      → MaintenanceRequest
      → Result Error String
      → Time
      → Call F
  measures : Scope → String → Telemetry F → (ℕ → Draw) → Call F
  looks_at : Scope → String → Time → (ℕ → Time) → (ℕ → Draw) → Call F
  acknowledges : Scope → String → String → String → Time → Call F

module _ {F : Type 0} (n : Numbers F) where
  unfoldable pub serve : MemoryStore F → Call F → MemoryStore F
  serve s (adds_rule scope request new_id now) = (create_rule n scope request new_id now s).0
  serve s (adds_window exists scope request new_id now) =
      (create_maintenance exists scope request new_id now s).0
  serve s (measures scope agent t draws) = (evaluate_telemetry n scope agent t draws s).0
  serve s (looks_at scope agent seen clock draws) =
      (evaluate_reachability n scope agent seen clock draws s).0
  serve s (acknowledges scope id actor event_id now) = (acknowledge scope id actor event_id now s).0

  unfoldable pub run : MemoryStore F → List (Call F) → MemoryStore F
  unfolding serve
  run s [] = s
  run s (c ∷ cs) = run (serve s c) cs

module _ {F : Type 0} where
  -- A write of the rules or the windows leaves the incidents as they are.
  rule-IsExclusive :
      (rule : Rule F)
      → Keeps {E = Error} IsExclusive
          (λ (s : MemoryStore F). (record s { rules = insert rule.id rule s.rules }, ok (tt {0})))
  rule-IsExclusive rule = record {
    at = λ s h. record { unique = h.unique; at_most_one = h.at_most_one };
  }

  rules-IsExclusive :
      (rule : Rule F) (scope : Scope) → Keeps IsExclusive (create_alert_rule scope rule)
  unfolding create_alert_rule
  rules-IsExclusive rule scope = search (keeps_rules, rule-IsExclusive) depth 8

  window-IsExclusive :
      (window : MaintenanceWindow)
      → Keeps {E = Error} IsExclusive (λ (s : MemoryStore F).
        (record s { windows = insert window.id window s.windows }, ok (tt {0})))
  window-IsExclusive window = record {
    at = λ s h. record { unique = h.unique; at_most_one = h.at_most_one };
  }

  windows-IsExclusive :
      (window : MaintenanceWindow) (scope : Scope)
      → Keeps {S = MemoryStore F} IsExclusive (create_maintenance_window scope window)
  unfolding create_maintenance_window
  windows-IsExclusive window scope = search (keeps_rules, window-IsExclusive) depth 8

  raise-IsExclusive :
      (scope : Scope) (rule : Rule F) (agent : String) (value : F) (message : String) (draw : Draw)
      (now : Time) (covered : Bool)
      → Keeps IsExclusive (raise scope rule agent value message draw now covered)
  raise-IsExclusive scope rule agent value message draw now true = search keeps_rules
  raise-IsExclusive scope rule agent value message draw now false =
      search (keeps_rules, ensure_incident-IsExclusive) depth 8

  breach-IsExclusive :
      (scope : Scope) (rule : Rule F) (agent : String) (value : F) (message : String) (draw : Draw)
      (now : Time) (breached : Bool)
      → Keeps IsExclusive (on_breach scope rule agent value message draw now breached)
  breach-IsExclusive scope rule agent value message draw now true =
      search (keeps_rules, raise-IsExclusive) depth 8
  breach-IsExclusive scope rule agent value message draw now false =
      search (keeps_rules, resolve_incident-IsExclusive) depth 8

  evaluate-IsExclusive :
      (scope : Scope) (rule : Rule F) (agent : String) (breached : Bool) (value : F)
      (message : String) (draw : Draw)
      → Keeps IsExclusive (evaluate scope rule agent breached value message draw)
  unfolding evaluate
  evaluate-IsExclusive scope rule agent breached value message draw =
      search (keeps_rules, breach-IsExclusive) depth 8

  Keeps-skip :
      (b : Bool) (m rest : Exec (MemoryStore F) Error (Unit {0}))
      → Keeps IsExclusive m
      → Keeps IsExclusive rest
      → Keeps IsExclusive (if b then rest else m >> rest)
  Keeps-skip true m rest kept kept_rest = kept_rest
  Keeps-skip false m rest kept kept_rest = Keeps-bind m (λ _. rest) kept (λ _. kept_rest)

  each_metric-IsExclusive :
      (n : Numbers F) (scope : Scope) (agent : String) (t : Telemetry F) (draws : ℕ → Draw)
      (rules : List (Rule F))
      → Keeps IsExclusive (each_metric n scope agent t draws rules)
  unfolding each_metric
  each_metric-IsExclusive n scope agent t draws [] = search keeps_rules
  each_metric-IsExclusive n scope agent t draws (rule ∷ rules) =
      Keeps-skip (not rule.request.enabled || not (rule.request.kind == kind_metric))
        (evaluate scope rule (trim_space agent)
          (n.greater (value_of n t rule.request.metric) rule.request.threshold)
          (value_of n t rule.request.metric)
          (n.metric_message (metric_label rule.request.metric) (value_of n t rule.request.metric)
            rule.request.threshold)
          (draws 0))
        (each_metric n scope agent t (λ i. draws (suc i)) rules)
        (evaluate-IsExclusive scope rule (trim_space agent) _ _ _ (draws 0))
        (each_metric-IsExclusive n scope agent t (λ i. draws (suc i)) rules)

  each_reachability-IsExclusive :
      (n : Numbers F) (scope : Scope) (agent : String) (seen : Time) (clock : ℕ → Time)
      (draws : ℕ → Draw) (rules : List (Rule F))
      → Keeps IsExclusive (each_reachability n scope agent seen clock draws rules)
  unfolding each_reachability
  each_reachability-IsExclusive n scope agent seen clock draws [] = search keeps_rules
  each_reachability-IsExclusive n scope agent seen clock draws (rule ∷ rules) =
      Keeps-skip (not rule.request.enabled || not (rule.request.kind == kind_reachability))
        (evaluate scope rule (trim_space agent)
          (n.greater (stale_seconds n (clock 0) seen) (n.of_int rule.request.stale_after_seconds))
          (stale_seconds n (clock 0) seen) (n.stale_message (stale_seconds n (clock 0) seen))
          (draws 0))
        (each_reachability n scope agent seen (λ i. clock (suc i)) (λ i. draws (suc i)) rules)
        (evaluate-IsExclusive scope rule (trim_space agent) _ _ _ (draws 0))
        (each_reachability-IsExclusive n scope agent seen (λ i. clock (suc i)) (λ i. draws (suc i))
          rules)

  serve-IsExclusive :
      (n : Numbers F) (s : MemoryStore F) (c : Call F) → IsExclusive s → IsExclusive (serve n s c)
  unfolding serve create_rule create_maintenance evaluate_telemetry evaluate_reachability
      acknowledge
  serve-IsExclusive n s (adds_rule scope request new_id now) h =
      let kept : Keeps IsExclusive (create_rule n scope request new_id now) =
        search (keeps_rules, rules-IsExclusive) depth 14 in
      kept.at s h
  serve-IsExclusive n s (adds_window exists scope request new_id now) h =
      let kept : Keeps {S = MemoryStore F} IsExclusive
          (create_maintenance exists scope request new_id now) =
        search (keeps_rules, windows-IsExclusive) depth 14 in
      kept.at s h
  serve-IsExclusive n s (measures scope agent t draws) h =
      let kept : Keeps IsExclusive (evaluate_telemetry n scope agent t draws) =
        search (keeps_rules, each_metric-IsExclusive) depth 10 in
      kept.at s h
  serve-IsExclusive n s (looks_at scope agent seen clock draws) h =
      let kept : Keeps IsExclusive (evaluate_reachability n scope agent seen clock draws) =
        search (keeps_rules, each_reachability-IsExclusive) depth 10 in
      kept.at s h
  serve-IsExclusive n s (acknowledges scope id actor event_id now) h =
      let kept : Keeps {S = MemoryStore F} IsExclusive (acknowledge scope id actor event_id now) =
        search (keeps_rules, acknowledge_incident-IsExclusive) depth 10 in
      kept.at s h

  -- If incidents are stored under distinct keys and every rule has at most one unresolved incident for
  -- each agent in each scope, then so it is after any calls, in any order: reports of telemetry, looks
  -- at the agents' last sight, acknowledgements, and new rules and maintenance windows.
  pub run-IsExclusive :
      (n : Numbers F) (s : MemoryStore F) (cs : List (Call F))
      → IsExclusive s
      → IsExclusive (run n s cs)
  unfolding run
  run-IsExclusive n s [] h = h
  run-IsExclusive n s (c ∷ cs) h = run-IsExclusive n (serve n s c) cs (serve-IsExclusive n s c h)
