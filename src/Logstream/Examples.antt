-- ===== src/Logstream/Examples.antt =====
-- The theorems on log streams at concrete stores, and runs of the code.
use bazusop.Base.{
  ℕ, ◌≡◌, refl, String, List, [], ◌∷◌, ok, trim_space, trim_left, trim_right, contains_nul,
  string_ltb,
}
use bazusop.Base.Assoc.{lookup, insert}
use bazusop.Base.Sort.{insert_by, sort_by}
use bazusop.Tenancy.{Agent, default_scope, scope_valid, agent_valid}
use bazusop.Executor.Trust.{is_hex_of}
use bazusop.Logstream.{Entry, Query, MemoryStore, collector_file, severity_warn}
use bazusop.Logstream.Store.{
  empty_store, append_logs, append_new, affected, settle, contains, search_logs,
}
use bazusop.Logstream.Service.{prepare, prepare_all, ingest, search_entries}
use bazusop.Logstream.Kept.{of, IsKept}
use bazusop.Logstream.Bounds.{Upload, ingest_all, ingest_all-IsKept}
use bazusop.Logstream.Listing.{IsAsked, IsAnswer, search_entries-IsAnswer}

abbrev agent : Agent
agent = record { id = "a1"; organization_id = "org_default"; site_id = "site_default" }

abbrev line : String → ℕ → Entry
line message at = record {
  organization_id = "";
  site_id = "";
  id = "";
  agent_id = "";
  occurred_at = at;
  collector = "file";
  source = " syslog ";
  severity = "warning";
  message = message;
  source_id = "";
}

abbrev uploads : List Upload
uploads =
    record { agent = agent; batch = line "late" 9 ∷ line "early" 5 ∷ []; drawn = λ n. ok "x" }
    ∷ record { agent = agent; batch = line "late again" 9 ∷ []; drawn = λ n. ok "x" }
    ∷ []

abbrev store : MemoryStore
store = ingest_all (λ text. text) empty_store uploads

ingest_all-IsKept_example : IsKept agent (of agent store.entries)
ingest_all-IsKept_example = ingest_all-IsKept (λ text. text) uploads agent

abbrev query : Query
query = record {
  scope = default_scope;
  agent_id = " a1 ";
  from = 1;
  to = 8;
  collector = "file";
  severity = "";
  source = "log";
  text = "";
  limit = 10;
}

abbrev early : Entry
early = record {
  organization_id = "org_default";
  site_id = "site_default";
  id = "x";
  agent_id = "a1";
  occurred_at = 5;
  collector = collector_file;
  source = "syslog";
  severity = severity_warn;
  message = "early";
  source_id = "";
}

answered : (search_entries (λ text. text) query store).1 ≡ ok (early ∷ [])
unfolding ingest_all ingest prepare_all prepare append_logs append_new affected settle insert_by
    sort_by contains search_logs search_entries lookup insert trim_space trim_left trim_right
    contains_nul string_ltb scope_valid agent_valid is_hex_of
answered = refl

search_entries-IsAnswer_example :
    (q : Query) × IsAsked (λ text. text) query q × IsAnswer (λ text. text) store q (early ∷ [])
search_entries-IsAnswer_example =
    search_entries-IsAnswer (λ text. text) store query (early ∷ []) answered
