-- ===== src/AuditTrail.antt =====
-- internal/audittrail: the record of requests (audittrail.go) and its memory store (memorystore.go).
pub mod Listing
mod Examples
use bazusop.Base.{
  ℕ, String, Bool, true, false, not, ◌&&◌, ◌||◌, List, [], ◌∷◌, ◌++◌, Time, Result, ok, err, Exec,
  lift, ◌>>=◌, ◌==◌, string_comparable, filter, take, before, after, ltb, is_zero_time,
  if◌then◌else◌,
}
use bazusop.Base.Sort.{sort_by}
use bazusop.Tenancy.{Scope, scope_valid}

pub data Error : Type 0 where
  invalid_query invalid_scope : Error
  other : String → Error

pub record Event : Type 0 where
  pub event_id : String
  pub occurred_at : Time
  pub correlation_id : String
  pub actor_type : String
  pub actor_id : String
  pub session_or_token_id : String
  pub organization_id : String
  pub site_id : String
  pub action : String
  pub permission : String
  pub resource_type : String
  pub resource_id : String
  pub outcome : String
  pub error_code : String
  pub source_ip : String
  pub user_agent : String
  pub change_summary : String

pub record Filter : Type 0 where
  pub actor_type : String
  pub resource_type : String
  pub outcome : String
  pub since : Time
  pub until : Time

pub record MemoryStore : Type 0 where
  pub events : List Event

abbrev pub empty_store : MemoryStore
empty_store = record { events = [] }

unfoldable pub store_event : MemoryStore → Event → MemoryStore × Result Error (Unit {0})
store_event s event = (record s { events = s.events ++ event ∷ [] }, ok tt)

-- The event with an identifier and an instant, drawn where it has none.
abbrev pub identified : Event → Result Error String → Result Error String
identified event new_id = if event.event_id == "" then new_id else ok event.event_id

abbrev pub dated : Event → Time → Time
dated event now = if is_zero_time event.occurred_at then now else event.occurred_at

-- Service.Record.
unfoldable pub record_event : Event → Result Error String → Time → Exec MemoryStore Error (Unit {0})
unfolding store_event
record_event event new_id now = do
  id ← lift (identified event new_id)
  (λ s. store_event s (record event { event_id = id; occurred_at = dated event now }))

abbrev pub is_in : Scope → Event → Bool
is_in scope event = event.organization_id == scope.organization_id && event.site_id == scope.site_id

-- An empty text and the zero time ask for nothing.
abbrev pub passes : Filter → Event → Bool
passes f event =
    (f.actor_type == "" || event.actor_type == f.actor_type)
    && (f.resource_type == "" || event.resource_type == f.resource_type)
    && (f.outcome == "" || event.outcome == f.outcome)
    && (is_zero_time f.since || not (before event.occurred_at f.since))
    && (is_zero_time f.until || not (after event.occurred_at f.until))

unfoldable pub list_audit_trail : MemoryStore → Scope → Filter → ℕ → Result Error (List Event)
list_audit_trail s scope f limit =
    if scope_valid scope
    then ok (
        take limit (
          sort_by (λ x y. after x.occurred_at y.occurred_at)
            (filter (λ event. is_in scope event && passes f event) s.events)))
    else err invalid_scope

-- Service.List.
unfoldable pub list : MemoryStore → Scope → Filter → ℕ → Result Error (List Event)
unfolding list_audit_trail
list s scope f limit =
    if not (scope_valid scope)
    then err invalid_scope
    else if ltb limit 1 || ltb 500 limit
    then err invalid_query
    else list_audit_trail s scope f limit
