-- ===== src/AuditTrail/Examples.antt =====
-- A trail with one event.
use bazusop.Base.{◌≡◌, refl, [], ◌∷◌, ok}
use bazusop.AuditTrail.{Event, Filter, MemoryStore, record_event, store_event, empty_store}

abbrev login : Event
login = record {
  event_id = "e1";
  occurred_at = 7;
  correlation_id = "c1";
  actor_type = "human";
  actor_id = "alice";
  session_or_token_id = "";
  organization_id = "org_default";
  site_id = "site_default";
  action = "login";
  permission = "";
  resource_type = "session";
  resource_id = "";
  outcome = "success";
  error_code = "";
  source_ip = "10.0.0.1";
  user_agent = "";
  change_summary = "";
}

abbrev humans : Filter
humans = record { actor_type = "human"; resource_type = ""; outcome = ""; since = 0; until = 0 }

abbrev trail : MemoryStore
trail = record { events = login ∷ [] }

record-login : (record_event login (ok "e2") 9 empty_store).0 ≡ trail
unfolding record_event store_event
record-login = refl
