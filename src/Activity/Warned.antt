-- ===== src/Activity/Warned.antt =====
-- Which records the store of alerts answers the feed with.
use bazusop.Base.{
  ◌≡◌, ◌↔◌, refl, sym, subst, inl, inr, false, not, String, List, [], ◌∷◌, Option, none, some, ok,
  arith, Bool-cases, eq_iff, string_comparable, ◌==◌, ◌||◌,
}
use bazusop.Base.Assoc.{Map, lookup}
use bazusop.Tenancy.{Scope, scope_valid}
use bazusop.Alerting.{Incident, Event, MemoryStore}
use bazusop.Alerting.Store.{EventRecord, records_of, all_events_from, all_events}
use bazusop.Activity.Records.{Has, Has-left, Has-right, append-Has, Has-map, map-Has}

-- A log with the event stands among the logs, its incident is in the store and of the scope, and the record
-- names the agent of the incident.
pub record IsOfAlerts {F : Type 0} (s : MemoryStore F) (logs : Map String (List Event))
    (scope : Scope) (r : EventRecord) : Type 0 where
  pub id : String
  pub log : List Event
  pub incident : Incident F
  pub stands : Has (id, log) logs
  pub known : lookup id s.incidents ≡ some incident
  pub organization : incident.organization_id ≡ scope.organization_id
  pub site : incident.site_id ≡ scope.site_id
  pub holds : Has r.event log
  pub agent : r.agent_id ≡ incident.agent_id

module _ {F : Type 0} (s : MemoryStore F) (scope : Scope) where
  -- What one log adds.
  records_only :
      (id : String) (es : List Event) (m : Map String (List Event)) (r : EventRecord)
      (o : Option (Incident F))
      → lookup id s.incidents ≡ o
      → Has r (records_of scope es o)
      → IsOfAlerts s ((id, es) ∷ m) scope r
  records_only id es m r none l h = absurd h
  records_only id es m r (some v) l h =
      elim (Bool-cases
        (not (v.organization_id == scope.organization_id) || not (v.site_id == scope.site_id))) [
          | inl t ↦ absurd (let b = rw t at h in b)
          | inr f ↦
              let (e, there, made) =
                map-Has (λ e. record { event = e; agent_id = v.agent_id }) r es
                  (let b = rw f at h in b) in
              subst (IsOfAlerts s ((id, es) ∷ m) scope) made (record {
                id = id;
                log = es;
                incident = v;
                stands = inl refl;
                known = l;
                organization = ground (arith, eq_iff v.organization_id scope.organization_id);
                site = ground (arith, eq_iff v.site_id scope.site_id);
                holds = there;
                agent = refl;
              })
        ]

  records_each :
      (es : List Event) (e : Event) (v : Incident F)
      → v.organization_id ≡ scope.organization_id
      → v.site_id ≡ scope.site_id
      → Has e es
      → Has (record { event = e; agent_id = v.agent_id }) (records_of scope es (some v))
  records_each es e v o t there =
      let f : (not (v.organization_id == scope.organization_id) || not (v.site_id == scope.site_id))
          ≡ false =
        ground
          (arith, eq_iff v.organization_id scope.organization_id, eq_iff v.site_id scope.site_id) in
      rw f (Has-map (λ x. record { event = x; agent_id = v.agent_id }) e es there)

  only :
      (m : Map String (List Event)) (r : EventRecord)
      → Has r (all_events_from s scope m)
      → IsOfAlerts s m scope r
  unfolding all_events_from
  only [] r h = absurd h
  only ((id, es) ∷ m) r h =
      elim (append-Has r (records_of scope es (lookup id s.incidents)) (all_events_from s scope m)
        h) [
          | inl l ↦ records_only id es m r (lookup id s.incidents) refl l
          | inr x ↦
              let w = only m r x in
              record {
                id = w.id;
                log = w.log;
                incident = w.incident;
                stands = inr w.stands;
                known = w.known;
                organization = w.organization;
                site = w.site;
                holds = w.holds;
                agent = w.agent;
              }
        ]

  each :
      (m : Map String (List Event)) (id : String) (es : List Event) (e : Event) (v : Incident F)
      → Has (id, es) m
      → lookup id s.incidents ≡ some v
      → v.organization_id ≡ scope.organization_id
      → v.site_id ≡ scope.site_id
      → Has e es
      → Has (record { event = e; agent_id = v.agent_id }) (all_events_from s scope m)
  unfolding all_events_from
  each [] id es e v h l o t there = absurd h
  each ((j, ds) ∷ m) id es e v (inl p) l o t there =
      let r : EventRecord = record { event = e; agent_id = v.agent_id } in
      let here : Has r (records_of scope es (lookup id s.incidents)) =
        rw l (records_each es e v o t there) in
      let moved : Has r (records_of scope ds (lookup j s.incidents)) =
        subst (λ (x : String × List Event). Has r (records_of scope x.1 (lookup x.0 s.incidents)))
          (sym p) here in
      Has-left r (records_of scope ds (lookup j s.incidents)) (all_events_from s scope m) moved
  each ((j, ds) ∷ m) id es e v (inr h) l o t there =
      Has-right (record { event = e; agent_id = v.agent_id })
        (records_of scope ds (lookup j s.incidents)) (all_events_from s scope m)
        (each m id es e v h l o t there)

  pub all_events-IsOfAlerts :
      (rs : List EventRecord) (r : EventRecord)
      → all_events s scope ≡ ok rs
      → Has r rs ↔ IsOfAlerts s s.events scope r
  unfolding all_events
  all_events-IsOfAlerts rs r h = elim (Bool-cases (scope_valid scope)) [
    | inr f ↦ absurd (let b = rw f at h in cc)
    | inl t ↦
        let b = rw t at h in
        let same : all_events_from s scope s.events ≡ rs = cc in
        subst (λ xs. Has r xs ↔ IsOfAlerts s s.events scope r) same
          (
            only s.events r,
            λ w.
                subst
                  (λ a.
                    Has (record { event = r.event; agent_id = a })
                      (all_events_from s scope s.events))
                  (sym w.agent)
                  (each s.events w.id w.log r.event w.incident w.stands w.known w.organization
                    w.site w.holds),
          )
  ]
