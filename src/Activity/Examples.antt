-- ===== src/Activity/Examples.antt =====
-- The theorem on the feed at concrete stores, and a run of the code.
use bazusop.Base.{ℕ, List, [], ◌∷◌}
use bazusop.Tenancy.{default_scope}
use bazusop.Jobs as Jobs
use bazusop.Jobs.Store as JobStore
use bazusop.Jobs.{JobKey}
use bazusop.Alerting as Alerting
use bazusop.Alerting.Store as AlertStore
use bazusop.Activity.{Event, MemoryStore, record_event, from_job}

abbrev key : JobKey
key = record { scope = default_scope; id = "j1" }

abbrev approved : Jobs.Event
approved = record {
  job_id = "j1";
  organization_id = "org_default";
  site_id = "site_default";
  sequence = 0;
  type = "approved";
  message = "";
  actor = "root";
  occurred_at = 5;
}

abbrev jobs : Jobs.MemoryStore
jobs = record { jobs = []; events = (key, approved ∷ []) ∷ [] }

abbrev alerts : Alerting.MemoryStore ℕ
alerts = AlertStore.empty_store

abbrev invited : Event
invited = record {
  organization_id = "org_default";
  site_id = "site_default";
  source = "identity";
  reference_id = "i1";
  agent_id = "";
  type = "invited";
  actor = "root";
  message = "";
  occurred_at = 0;
}

abbrev elsewhere : Event
elsewhere = record invited { site_id = "izmir" }

abbrev store : MemoryStore
store = (record_event elsewhere 9 (record_event invited 7 (record { recorded = [] })).0).0

abbrev seen : List Event
seen =
    record invited { occurred_at = 7 } ∷ from_job (record { event = approved; agent_id = "" }) ∷ []
