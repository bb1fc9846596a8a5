-- ===== src/Logstream/Service.antt =====
-- The methods of logstream.Service, for a store that other hubs do not share: what Ingest stores it
-- also offers to the subscribers of its own hub. Drawn identifiers and strings.ToLower are arguments.
use bazusop.Base.{
  ℕ, suc, ◌*◌, String, Bool, not, ◌||◌, List, [], ◌∷◌, Option, none, some, Result, ok, err, Exec,
  lift, reads, refuse, ◌>>=◌, ◌>>◌, ◌==◌, string_comparable, nat_comparable, ltb, if◌then◌else◌,
  before, is_zero_time, length, len, trim_space,
}
use bazusop.Tenancy.{Agent, scope_valid, agent_valid}
use bazusop.Executor.Trust.{is_hex_of}
use bazusop.Logstream.{
  Error, invalid_logs, invalid_scope, max_batch_entries, Collector, collector_journald,
  collector_file, collector_windows_event, Severity, severity_debug, severity_info, severity_warn,
  severity_error, severity_critical, Entry, Query, MemoryStore,
}
use bazusop.Logstream.Store.{append_logs, search_logs}

-- The switches on the folded text; none for what they do not know.
abbrev pub collector_named : String → Option Collector
collector_named text =
    if text == "journald"
    then some collector_journald
    else if text == "file"
    then some collector_file
    else if text == "windows_event" || text == "windows-event" || text == "eventlog"
    then some collector_windows_event
    else none

abbrev pub severity_named : String → Option Severity
severity_named text =
    if text == "debug"
    then some severity_debug
    else if text == "info" || text == "information"
    then some severity_info
    else if text == "warn" || text == "warning"
    then some severity_warn
    else if text == "error" || text == "err"
    then some severity_error
    else if text == "critical" || text == "fatal"
    then some severity_critical
    else none

module _ (to_lower : String → String) where
  abbrev pub normalize_collector : String → Option Collector
  normalize_collector value = collector_named (to_lower (trim_space value))

  abbrev pub normalize_severity : String → Option Severity
  normalize_severity value = severity_named (to_lower (trim_space value))

-- The identifier of an entry, which is drawn if it has none.
abbrev pub identified : String → Result Error String → Result Error String
identified id drawn =
    if id == "" then drawn else if not (is_hex_of 32 id) then err invalid_logs else ok id

abbrev pub entry_with : Agent → Entry → Collector → Severity → String → Entry
entry_with agent candidate collector severity id = record {
  organization_id = agent.organization_id;
  site_id = agent.site_id;
  id = id;
  agent_id = trim_space agent.id;
  occurred_at = candidate.occurred_at;
  collector = collector;
  source = trim_space candidate.source;
  severity = severity;
  message = trim_space candidate.message;
  source_id = "";
}

abbrev pub with_id : Agent → Entry → Collector → Severity → Result Error String → Result Error Entry
with_id agent candidate collector severity (err e) = err e
with_id agent candidate collector severity (ok id) =
    ok (entry_with agent candidate collector severity id)

abbrev pub text_refused : Entry → Bool
text_refused candidate =
    trim_space candidate.source == ""
    || ltb 512 (len (trim_space candidate.source))
    || trim_space candidate.message == ""
    || ltb (64 * 1024) (len (trim_space candidate.message))

abbrev pub accepted :
    Agent → Entry → Result Error String → Option Collector → Option Severity → Result Error Entry
accepted agent candidate drawn none severity = err invalid_logs
accepted agent candidate drawn (some collector) none = err invalid_logs
accepted agent candidate drawn (some collector) (some severity) =
    if is_zero_time candidate.occurred_at || text_refused candidate
    then err invalid_logs
    else with_id agent candidate collector severity (identified (trim_space candidate.id) drawn)

-- One round of the loop of Ingest.
unfoldable pub prepare :
    (String → String) → Agent → Entry → Result Error String → Result Error Entry
prepare to_lower agent candidate drawn =
    accepted agent candidate drawn (normalize_collector to_lower candidate.collector)
      (normalize_severity to_lower candidate.severity)

abbrev pub prepared : Result Error Entry → Result Error (List Entry) → Result Error (List Entry)
prepared (err e) rest = err e
prepared (ok entry) (err e) = err e
prepared (ok entry) (ok entries) = ok (entry ∷ entries)

-- The loop, with what would be drawn for each entry.
unfoldable pub prepare_all :
    (String → String) → Agent → List Entry → (ℕ → Result Error String) → Result Error (List Entry)
unfolding prepare
prepare_all to_lower agent [] drawn = ok []
prepare_all to_lower agent (candidate ∷ candidates) drawn =
    prepared (prepare to_lower agent candidate (drawn 0))
      (prepare_all to_lower agent candidates (λ n. drawn (suc n)))

-- Ingest, with the entries that it goes on to publish.
unfoldable pub ingest :
    (String → String)
    → Agent
    → List Entry
    → (ℕ → Result Error String)
    → Exec MemoryStore Error (List Entry)
unfolding prepare_all
ingest to_lower agent batch drawn = do
  refuse (not (agent_valid agent)) invalid_scope
  refuse (trim_space agent.id == "" || length batch == 0 || ltb max_batch_entries (length batch))
      invalid_logs
  entries ← lift (prepare_all to_lower agent batch drawn)
  (λ s. append_logs s entries)

abbrev pub trimmed : Query → Query
trimmed q = record q {
  agent_id = trim_space q.agent_id;
  source = trim_space q.source;
  text = trim_space q.text;
}

-- The condition under which Search answers ErrInvalidLogs.
abbrev pub query_refused : Query → Bool
query_refused q =
    q.agent_id == ""
    || is_zero_time q.from
    || is_zero_time q.to
    || not (before q.from q.to)
    || ltb q.limit 1
    || ltb 500 q.limit
    || ltb 512 (len q.source)
    || ltb 512 (len q.text)

-- A text of the query that is given is normalized.
abbrev pub or_refused : Option String → Result Error String
or_refused none = err invalid_logs
or_refused (some text) = ok text

abbrev pub if_given : String → Option String → Result Error String
if_given text normalized = if not (text == "") then or_refused normalized else ok text

unfoldable pub search_entries : (String → String) → Query → Exec MemoryStore Error (List Entry)
search_entries to_lower query = do
  refuse (not (scope_valid query.scope)) invalid_scope
  let q = trimmed query
  refuse (query_refused q) invalid_logs
  collector ← lift (if_given q.collector (normalize_collector to_lower q.collector))
  severity ← lift (if_given q.severity (normalize_severity to_lower q.severity))
  reads (λ s. search_logs to_lower s (record q { collector = collector; severity = severity }))
