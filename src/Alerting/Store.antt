-- ===== src/Alerting/Store.antt =====
-- The methods of alerting.MemoryStore.
use bazusop.Base.{
  map, ℕ, String, Bool, true, false, not, ◌&&◌, ◌||◌, List, [], ◌∷◌, ◌++◌, Option, none, some, Time,
  Result, ok, err, Exec, refuse, ◌>>◌, ◌==◌, string_comparable, filter, find, take, before, after,
  if◌then◌else◌,
}
use bazusop.Base.Assoc.{Map, lookup, insert, values}
use bazusop.Base.Sort.{sort_by}
use bazusop.Tenancy.{Scope, scope_valid}
use bazusop.Alerting.{
  Error, invalid_scope, not_found, conflict, status_open, status_acknowledged, status_resolved,
  status_eqb, Rule, MaintenanceWindow, Incident, Event, MemoryStore,
}

abbrev pub or_empty : Option (List Event) → List Event
or_empty none = []
or_empty (some es) = es

module _ {F : Type 0} where
  abbrev pub empty_store : MemoryStore F
  empty_store = record { rules = []; windows = []; incidents = []; events = [] }

  unfoldable pub create_alert_rule : Scope → Rule F → Exec (MemoryStore F) Error (Unit {0})
  create_alert_rule scope rule = do
    refuse (not (scope_valid scope)) invalid_scope
    refuse
        (not (rule.organization_id == scope.organization_id) || not (rule.site_id == scope.site_id))
        invalid_scope
    (λ s. (record s { rules = insert rule.id rule s.rules }, ok tt))

  unfoldable pub list_alert_rules : MemoryStore F → Scope → Result Error (List (Rule F))
  list_alert_rules s scope =
      if scope_valid scope
      then ok (
          sort_by (λ x y. before x.created_at y.created_at)
            (filter (λ v. v.organization_id == scope.organization_id && v.site_id == scope.site_id)
              (values s.rules)))
      else err invalid_scope

  unfoldable pub create_maintenance_window :
      Scope → MaintenanceWindow → Exec (MemoryStore F) Error (Unit {0})
  create_maintenance_window scope window = do
    refuse (not (scope_valid scope)) invalid_scope
    refuse
        (not (window.organization_id == scope.organization_id)
          || not (window.site_id == scope.site_id))
        invalid_scope
    (λ s. (record s { windows = insert window.id window s.windows }, ok tt))

  unfoldable pub list_maintenance_windows :
      MemoryStore F → Scope → Result Error (List MaintenanceWindow)
  list_maintenance_windows s scope =
      if scope_valid scope
      then ok (
          sort_by (λ x y. before x.request.starts_at y.request.starts_at)
            (filter (λ v. v.organization_id == scope.organization_id && v.site_id == scope.site_id)
              (values s.windows)))
      else err invalid_scope

  -- An incident of a rule and an agent in a scope that is not resolved.
  abbrev pub is_active : Scope → String → String → Incident F → Bool
  is_active scope rule agent v =
      v.organization_id == scope.organization_id
      && v.site_id == scope.site_id
      && v.rule_id == rule
      && v.agent_id == agent
      && not (status_eqb v.status status_resolved)

  abbrev pub ensured :
      MemoryStore F
      → Incident F
      → Event
      → Option (Incident F)
      → MemoryStore F × Result Error (Incident F × Bool)
  ensured s incident event (some v) = (s, ok (v, false))
  ensured s incident event none = (
    record s {
      incidents = insert incident.id incident s.incidents;
      events = insert incident.id (record event { incident_id = incident.id } ∷ []) s.events;
    },
    ok (incident, true),
  )

  unfoldable pub ensure_incident :
      Scope → Incident F → Event → Exec (MemoryStore F) Error (Incident F × Bool)
  ensure_incident scope incident event = do
    refuse (not (scope_valid scope)) invalid_scope
    refuse
        (not (incident.organization_id == scope.organization_id)
          || not (incident.site_id == scope.site_id)
          || not (event.organization_id == scope.organization_id)
          || not (event.site_id == scope.site_id))
        invalid_scope
    (λ s.
        ensured s incident event
          (find (is_active scope incident.rule_id incident.agent_id) (values s.incidents)))

  -- The two maps are written together.
  abbrev pub write : MemoryStore F → String → Incident F → Event → MemoryStore F
  write s id v event = record s {
    incidents = insert id v s.incidents;
    events =
        insert id (or_empty (lookup id s.events) ++ record event { incident_id = v.id } ∷ [])
          s.events;
  }

  abbrev pub closed : Incident F → F → String → Event → Incident F
  closed v value message event = record v {
    status = status_resolved;
    resolved_at = some event.occurred_at;
    latest_value = value;
    message = message;
  }

  abbrev pub resolved_in :
      MemoryStore F
      → F
      → String
      → Event
      → Option (String × Incident F)
      → MemoryStore F × Result Error (Option (Incident F))
  resolved_in s value message event none = (s, ok none)
  resolved_in s value message event (some entry) =
      let v = closed entry.1 value message event in (write s entry.0 v event, ok (some v))

  unfoldable pub resolve_incident :
      Scope
      → String
      → String
      → F
      → String
      → Event
      → Exec (MemoryStore F) Error (Option (Incident F))
  resolve_incident scope rule agent value message event = do
    refuse (not (scope_valid scope)) invalid_scope
    refuse
        (not (event.organization_id == scope.organization_id)
          || not (event.site_id == scope.site_id))
        invalid_scope
    (λ s.
        resolved_in s value message event
          (find (λ (entry : String × Incident F). is_active scope rule agent entry.1) s.incidents))

  abbrev pub seen_by : Incident F → String → Time → Incident F
  seen_by v actor at = record v {
    status = status_acknowledged;
    acknowledged_at = some at;
    acknowledged_by = actor;
  }

  abbrev pub acknowledged_in :
      MemoryStore F
      → Scope
      → String
      → String
      → Time
      → Event
      → Option (Incident F)
      → MemoryStore F × Result Error (Incident F)
  acknowledged_in s scope id actor at event none = (s, err not_found)
  acknowledged_in s scope id actor at event (some v) =
      if not (v.organization_id == scope.organization_id) || not (v.site_id == scope.site_id)
      then (s, err not_found)
      else if not (status_eqb v.status status_open)
      then (s, err conflict)
      else (write s id (seen_by v actor at) event, ok (seen_by v actor at))

  unfoldable pub acknowledge_incident :
      Scope → String → String → Time → Event → Exec (MemoryStore F) Error (Incident F)
  acknowledge_incident scope id actor at event = do
    refuse (not (scope_valid scope)) invalid_scope
    refuse
        (not (event.organization_id == scope.organization_id)
          || not (event.site_id == scope.site_id))
        invalid_scope
    (λ s. acknowledged_in s scope id actor at event (lookup id s.incidents))

  unfoldable pub list_alert_incidents : MemoryStore F → Scope → ℕ → Result Error (List (Incident F))
  list_alert_incidents s scope limit =
      if scope_valid scope
      then ok (
          take limit (
            sort_by (λ x y. after x.opened_at y.opened_at)
              (filter
                (λ v. v.organization_id == scope.organization_id && v.site_id == scope.site_id)
                (values s.incidents))))
      else err invalid_scope

  abbrev pub events_of : Scope → List Event → Option (Incident F) → Result Error (List Event)
  events_of scope es none = err not_found
  events_of scope es (some v) =
      if not (v.organization_id == scope.organization_id) || not (v.site_id == scope.site_id)
      then err not_found
      else ok es

  unfoldable pub list_alert_events : MemoryStore F → Scope → String → Result Error (List Event)
  list_alert_events s scope id =
      if scope_valid scope
      then events_of scope (or_empty (lookup id s.events)) (lookup id s.incidents)
      else err invalid_scope

-- An event with the agent of its incident.
pub record EventRecord : Type 0 where
  pub event : Event
  pub agent_id : String

abbrev pub records_of : {F : Type 0} → Scope → List Event → Option (Incident F) → List EventRecord
records_of scope es none = []
records_of scope es (some v) =
    if not (v.organization_id == scope.organization_id) || not (v.site_id == scope.site_id)
    then []
    else map (λ e. record { event = e; agent_id = v.agent_id }) es

module _ {F : Type 0} where
  -- The loop of AllEvents over the logs.
  unfoldable pub all_events_from :
      MemoryStore F → Scope → Map String (List Event) → List EventRecord
  all_events_from s scope [] = []
  all_events_from s scope ((id, es) ∷ logs) =
      records_of scope es (lookup id s.incidents) ++ all_events_from s scope logs

  unfoldable pub all_events : MemoryStore F → Scope → Result Error (List EventRecord)
  unfolding all_events_from
  all_events s scope =
      if scope_valid scope then ok (all_events_from s scope s.events) else err invalid_scope
