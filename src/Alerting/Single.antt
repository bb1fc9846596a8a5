-- ===== src/Alerting/Single.antt =====
-- In every scope a rule has at most one unresolved incident for an agent: the store's part.
use bazusop.Base.{
  ℕ, ◌≤◌, ◌≡◌, refl, String, Bool, true, false, not, ◌||◌, List, [], ◌∷◌, Option, none, some, Time,
  arith, find, filter, length, Bool-cases, inl, inr, eq_iff, string_comparable, ◌==◌,
}
use bazusop.Base.Keeps.{Keeps, Keeps-unless, keeps_rules}
use bazusop.Base.Assoc.{lookup, values}
use bazusop.Base.Assoc.Unique.{IsUnique, insert-IsUnique, count, weight, count-insert}
use bazusop.Tenancy.{Scope}
use bazusop.Alerting.{status_open, status_eqb, Incident, Event, MemoryStore}
use bazusop.Alerting.Store.{
  is_active, ensured, ensure_incident, closed, resolved_in, resolve_incident, seen_by,
  acknowledged_in, acknowledge_incident,
}

module _ {F : Type 0} where
  abbrev pub active_count : Scope → String → String → MemoryStore F → ℕ
  active_count scope rule agent s = count (is_active scope rule agent) s.incidents

  pub record IsExclusive (s : MemoryStore F) : Type 0 where
    pub unique : IsUnique s.incidents
    pub at_most_one : (scope : Scope) (rule agent : String) → active_count scope rule agent s ≤ 1

  pub find-count :
      (p : Incident F → Bool) (vs : List (Incident F)) → find p vs ≡ none → length (filter p vs) ≡ 0
  find-count p [] h = refl
  find-count p (v ∷ vs) h = ground (arith, find-count p vs)

  -- Incidents that count for the same scope, rule and agent.
  same_place :
      (scope sc : Scope) (rule agent : String) (v : Incident F) (s : MemoryStore F)
      → v.organization_id ≡ scope.organization_id
      → v.site_id ≡ scope.site_id
      → is_active sc rule agent v ≡ true
      → active_count sc rule agent s ≡ active_count scope v.rule_id v.agent_id s
  same_place scope sc rule agent v s o t h = λ i.
      active_count (record { organization_id = (places.0) i; site_id = (places.1) i })
        ((places.2) i) ((places.3) i) s
    where
      places :
          (sc.organization_id ≡ scope.organization_id)
          × (sc.site_id ≡ scope.site_id)
          × (rule ≡ v.rule_id)
          × (agent ≡ v.agent_id)
      places = ground (
        arith,
        eq_iff v.organization_id sc.organization_id,
        eq_iff v.site_id sc.site_id,
        eq_iff v.rule_id rule,
        eq_iff v.agent_id agent,
      )

  ensured-IsExclusive :
      (s : MemoryStore F) (scope : Scope) (v : Incident F) (event : Event) (o : Option (Incident F))
      → v.organization_id ≡ scope.organization_id
      → v.site_id ≡ scope.site_id
      → (o ≡ none → active_count scope v.rule_id v.agent_id s ≡ 0)
      → IsExclusive s
      → IsExclusive (ensured s v event o).0
  ensured-IsExclusive s scope v event (some w) a b free h = h
  ensured-IsExclusive s scope v event none a b free h = record {
    unique = insert-IsUnique v.id v s.incidents h.unique;
    at_most_one = λ sc rule agent. elim (Bool-cases (is_active sc rule agent v)) [
      | inl t ↦
          let same = same_place scope sc rule agent v s a b t in
          let grown = count-insert (is_active sc rule agent) v.id v s.incidents in
          let none_yet = free refl in let one = rw t at grown in omega arith
      | inr f ↦
          let grown = count-insert (is_active sc rule agent) v.id v s.incidents in
          let old = h.at_most_one sc rule agent in let one = rw f at grown in omega arith
    ];
  }

  abbrev elsewhere : Scope → Incident F → Event → Bool
  elsewhere scope v event =
      not (v.organization_id == scope.organization_id)
      || not (v.site_id == scope.site_id)
      || not (event.organization_id == scope.organization_id)
      || not (event.site_id == scope.site_id)

  ensured-Keeps :
      (scope : Scope) (v : Incident F) (event : Event)
      → elsewhere scope v event ≡ false
      → Keeps IsExclusive (λ s.
        ensured s v event (find (is_active scope v.rule_id v.agent_id) (values s.incidents)))
  ensured-Keeps scope v event fits = record {
    at = λ s h.
        ensured-IsExclusive s scope v event
          (find (is_active scope v.rule_id v.agent_id) (values s.incidents))
          (ground (arith, eq_iff v.organization_id scope.organization_id))
          (ground (arith, eq_iff v.site_id scope.site_id))
          (find-count (is_active scope v.rule_id v.agent_id) (values s.incidents)) h;
  }

  pub ensure_incident-IsExclusive :
      (scope : Scope) (v : Incident F) (event : Event)
      → Keeps IsExclusive (ensure_incident scope v event)
  unfolding ensure_incident
  ensure_incident-IsExclusive scope v event = search (Keeps-unless, ensured-Keeps) depth 8

  resolved-IsExclusive :
      (s : MemoryStore F) (value : F) (message : String) (event : Event)
      (o : Option (String × Incident F))
      → IsExclusive s
      → IsExclusive (resolved_in s value message event o).0
  resolved-IsExclusive s value message event none h = h
  resolved-IsExclusive s value message event (some entry) h = record {
    unique = insert-IsUnique entry.0 (closed entry.1 value message event) s.incidents h.unique;
    at_most_one = λ sc rule agent.
        let grown =
          count-insert (is_active sc rule agent) entry.0 (closed entry.1 value message event)
            s.incidents in
        let old = h.at_most_one sc rule agent in ground arith;
  }

  resolved-Keeps :
      (scope : Scope) (rule agent : String) (value : F) (message : String) (event : Event)
      → Keeps IsExclusive (λ s.
        resolved_in s value message event
          (find (λ (entry : String × Incident F). is_active scope rule agent entry.1) s.incidents))
  resolved-Keeps scope rule agent value message event = record {
    at = λ s h.
        resolved-IsExclusive s value message event
          (find (λ (entry : String × Incident F). is_active scope rule agent entry.1) s.incidents)
          h;
  }

  pub resolve_incident-IsExclusive :
      (scope : Scope) (rule agent : String) (value : F) (message : String) (event : Event)
      → Keeps IsExclusive (resolve_incident scope rule agent value message event)
  unfolding resolve_incident
  resolve_incident-IsExclusive scope rule agent value message event =
      search (keeps_rules, resolved-Keeps) depth 8

  -- An open incident that is acknowledged counts as before.
  seen-weight :
      (sc : Scope) (rule agent : String) (v : Incident F) (actor : String) (at : Time)
      → status_eqb v.status status_open ≡ true
      → weight (is_active sc rule agent) (some (seen_by v actor at))
        ≡ weight (is_active sc rule agent) (some v)
  seen-weight sc rule agent v actor at h = ground arith

  acknowledged-IsExclusive :
      (s : MemoryStore F) (scope : Scope) (id actor : String) (at : Time) (event : Event)
      (o : Option (Incident F))
      → lookup id s.incidents ≡ o
      → IsExclusive s
      → IsExclusive (acknowledged_in s scope id actor at event o).0
  acknowledged-IsExclusive s scope id actor at event none found h = h
  acknowledged-IsExclusive s scope id actor at event (some v) found h =
      elim (Bool-cases
        (not (v.organization_id == scope.organization_id) || not (v.site_id == scope.site_id))) [
          | inl foreign ↦ rw foreign h
          | inr fits ↦ elim (Bool-cases (status_eqb v.status status_open)) [
            | inl waits ↦
                rw (fits, waits)
                  (record {
                    unique = insert-IsUnique id (seen_by v actor at) s.incidents h.unique;
                    at_most_one = λ sc rule agent.
                        let grown =
                          count-insert (is_active sc rule agent) id (seen_by v actor at)
                            s.incidents in
                        let grown' =
                          rw (found, seen-weight sc rule agent v actor at waits) at grown in
                        let old = h.at_most_one sc rule agent in omega arith;
                  })
            | inr done ↦ rw (fits, done) h
          ]
        ]

  acknowledged-Keeps :
      (scope : Scope) (id actor : String) (at : Time) (event : Event)
      → Keeps IsExclusive (λ s. acknowledged_in s scope id actor at event (lookup id s.incidents))
  acknowledged-Keeps scope id actor at event = record {
    at = λ s h. acknowledged-IsExclusive s scope id actor at event (lookup id s.incidents) refl h;
  }

  pub acknowledge_incident-IsExclusive :
      (scope : Scope) (id actor : String) (at : Time) (event : Event)
      → Keeps IsExclusive (acknowledge_incident scope id actor at event)
  unfolding acknowledge_incident
  acknowledge_incident-IsExclusive scope id actor at event =
      search (keeps_rules, acknowledged-Keeps) depth 8
