-- ===== src/Alerting/Evaluation.antt =====
-- What one evaluation of a rule for an agent comes to.
use bazusop.Base.{
  ◌∙◌, resume, pure, ◌≤◌, ◌≡◌, ◌≢◌, refl, ap, String, Bool, true, false, List, [], ◌∷◌, Option,
  none, some, Time, Result, ok, err, arith, any, find, filter, length, eq_iff, string_comparable,
  ==_refl, ==_false, truncate_micro, if◌then◌else◌,
}
use bazusop.Base.Assoc.{Map, lookup, values}
use bazusop.Base.Assoc.Unique.{IsUnique, count, weight, count-insert}
use bazusop.Tenancy.{Scope, scope_valid}
use bazusop.Alerting.{
  Error, event_opened, event_resolved, Rule, MaintenanceWindow, Incident, Event, MemoryStore,
}
use bazusop.Alerting.Store.{
  is_active, ensured, ensure_incident, closed, resolved_in, resolve_incident,
  list_maintenance_windows,
}
use bazusop.Alerting.Service.{Draw, covers, opened, evaluate}
use bazusop.Alerting.Single.{active_count, IsExclusive, find-count}

module _ {F : Type 0} where
  -- What a search of the entries finds is stored where it was found.
  find-lookup :
      (p : Incident F → Bool) (m : Map String (Incident F)) (entry : String × Incident F)
      → IsUnique m
      → find (λ (e : String × Incident F). p e.1) m ≡ some entry
      → (lookup entry.0 m ≡ some entry.1) × (p entry.1 ≡ true)
  unfolding lookup
  find-lookup p [] entry u h = cc
  find-lookup p ((k, v) ∷ m) entry u h =
      ground (arith, find-lookup p m entry, eq_iff k entry.0, eq_iff k k)

  find-count_entries :
      (p : Incident F → Bool) (m : Map String (Incident F))
      → find (λ (e : String × Incident F). p e.1) m ≡ none
      → count p m ≡ 0
  find-count_entries p [] h = refl
  find-count_entries p ((k, v) ∷ m) h = ground (arith, find-count_entries p m)

  resolved-count :
      (s : MemoryStore F) (scope : Scope) (rule agent : String) (value : F) (message : String)
      (event : Event) (o : Option (String × Incident F))
      → IsExclusive s
      → find (λ (e : String × Incident F). is_active scope rule agent e.1) s.incidents ≡ o
      → active_count scope rule agent (resolved_in s value message event o).0 ≡ 0
  resolved-count s scope rule agent value message event none h f =
      find-count_entries (is_active scope rule agent) s.incidents f
  resolved-count s scope rule agent value message event (some entry) h f =
      let (held, active) = find-lookup (is_active scope rule agent) s.incidents entry h.unique f in
      let grown =
        count-insert (is_active scope rule agent) entry.0 (closed entry.1 value message event)
          s.incidents in
      let old = h.at_most_one scope rule agent in
      let grown' = rw (held, active) at grown in ground arith

  find-count_some :
      (p : Incident F → Bool) (vs : List (Incident F)) (v : Incident F)
      → find p vs ≡ some v
      → 1 ≤ length (filter p vs)
  find-count_some p [] v h = cc
  find-count_some p (w ∷ vs) v h = ground (arith, find-count_some p vs v)

  weight-lookup :
      (p : Incident F → Bool) (k : String) (m : Map String (Incident F))
      → weight p (lookup k m) ≤ count p m
  unfolding lookup
  weight-lookup p k [] = omega arith
  weight-lookup p k ((j, v) ∷ m) = ground (arith, weight-lookup p k m)

  ensured-count :
      (s : MemoryStore F) (scope : Scope) (v : Incident F) (event : Event) (o : Option (Incident F))
      → IsExclusive s
      → is_active scope v.rule_id v.agent_id v ≡ true
      → find (is_active scope v.rule_id v.agent_id) (values s.incidents) ≡ o
      → active_count scope v.rule_id v.agent_id (ensured s v event o).0 ≡ 1
  ensured-count s scope v event (some w) h a f =
      let some_one =
        find-count_some (is_active scope v.rule_id v.agent_id) (values s.incidents) w f in
      let old = h.at_most_one scope v.rule_id v.agent_id in omega arith
  ensured-count s scope v event none h a f =
      let grown = count-insert (is_active scope v.rule_id v.agent_id) v.id v s.incidents in
      let none_yet = find-count (is_active scope v.rule_id v.agent_id) (values s.incidents) f in
      let grown' = rw a at grown in
      let overwritten = weight-lookup (is_active scope v.rule_id v.agent_id) v.id s.incidents in
      omega arith

  ignored :
      {A : Type 0} (r : Result Error A) (s : MemoryStore F)
      → (resume r (λ _. pure {E = Error} tt) s).0 ≡ s
  ignored (ok a) s = refl
  ignored (err e) s = refl

  opened-active :
      (scope : Scope) (rule : Rule F) (agent : String) (value : F) (message id : String)
      (now : Time)
      → is_active scope rule.id agent (opened scope rule agent value message id now) ≡ true
  opened-active scope rule agent value message id now =
      rw (==_refl scope.organization_id, ==_refl scope.site_id, ==_refl rule.id, ==_refl agent) refl

  -- If every rule has at most one unresolved incident for an agent, then one evaluation of a rule in a
  -- valid scope for a named agent, for which an identifier can be drawn and which no maintenance window
  -- covers, leaves it with exactly one when the rule is breached, and with none when it is not.
  pub evaluate-active_count :
      (s : MemoryStore F) (scope : Scope) (rule : Rule F) (agent : String) (breached : Bool)
      (value : F) (message : String) (draw : Draw) (id : String) (windows : List MaintenanceWindow)
      → IsExclusive s
      → scope_valid scope ≡ true
      → agent ≢ ""
      → draw.id ≡ ok id
      → list_maintenance_windows s scope ≡ ok windows
      → any (covers agent (truncate_micro draw.now)) windows ≡ false
      → active_count scope rule.id agent (evaluate scope rule agent breached value message draw s).0
        ≡ (if breached then 1 else 0)
  unfolding evaluate ensure_incident resolve_incident
  evaluate-active_count s scope rule agent true value message draw id windows h valid named drawn
        listed bare =
      rw
        (
          ==_false agent "" named,
          listed,
          bare,
          drawn,
          valid,
          ==_refl scope.organization_id,
          ==_refl scope.site_id,
        )
        (let v = opened scope rule agent value message id (truncate_micro draw.now) in
          let event : Event = record {
            organization_id = scope.organization_id;
            site_id = scope.site_id;
            id = draw.event_id;
            incident_id = id;
            type_ = event_opened;
            actor = "hub";
            message = message;
            occurred_at = truncate_micro draw.now;
          } in
          let o = find (is_active scope rule.id agent) (values s.incidents) in
          ap (active_count scope rule.id agent)
            (ignored (ensured s v event o).1 (ensured s v event o).0)
          ∙ ensured-count s scope v event o h
              (opened-active scope rule agent value message id (truncate_micro draw.now)) refl)
  evaluate-active_count s scope rule agent false value message draw id windows h valid named drawn
        listed bare =
      rw (==_false agent "" named, valid, ==_refl scope.organization_id, ==_refl scope.site_id)
        (let event : Event = record {
          organization_id = scope.organization_id;
          site_id = scope.site_id;
          id = draw.event_id;
          incident_id = "";
          type_ = event_resolved;
          actor = "hub";
          message = "Koşul normale döndü";
          occurred_at = truncate_micro draw.now;
        } in
          let o =
            find (λ (e : String × Incident F). is_active scope rule.id agent e.1) s.incidents in
          let after_call = resolved_in s value "Koşul normale döndü" event o in
          ap (active_count scope rule.id agent) (ignored after_call.1 after_call.0)
          ∙ resolved-count s scope rule.id agent value "Koşul normale döndü" event o h refl)
