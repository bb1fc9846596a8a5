-- ===== src/Telemetry/Examples.antt =====
-- The theorems on telemetry at concrete stores, and runs of the code. Percents are whole here.
use bazusop.Base.{
  ℕ, ◌≤◌, ◌/◌, ◌+◌, ◌≡◌, refl, false, String, List, [], ◌∷◌, ok, leb, truncate_micro, trim_space,
  trim_left, trim_right, contains_nul,
}
use bazusop.Base.Assoc.{lookup, insert}
use bazusop.Base.Sort.{insert_by, sort_by}
use bazusop.Tenancy.{default_scope, scope_valid, agent_valid}
use bazusop.Telemetry.{Floats, Sample}
use bazusop.Telemetry.Store.{
  empty_store, append, report, history, shown, fleet_average, fleet, asked,
}
use bazusop.Telemetry.Series.{Report, report_all, IsShown, shown-IsShown}

abbrev whole : Floats ℕ
whole = record {
  is_nan = λ x. false;
  is_inf = λ x. false;
  at_least = λ x n. leb n x;
  at_most = leb;
  of_int = λ n. n;
  plus = λ x y. x + y;
  over = λ x y. x / y;
}

abbrev sample : String → ℕ → ℕ → Sample ℕ
sample agent at load = record {
  organization_id = "org_default";
  site_id = "site_default";
  agent_id = agent;
  recorded_at = at;
  cpu_percent = load;
  memory_percent = 20;
  disk_percent = 30;
  network_rx_bytes = 5;
  network_tx_bytes = 6;
}

abbrev sends : String → ℕ → ℕ → Report ℕ
sends agent at load = record {
  agent = record { id = agent; organization_id = "org_default"; site_id = "site_default" };
  sample = sample "" at load;
}

-- The second report of the instant 7000 replaces the first.
abbrev reports : List (Report ℕ)
reports = sends "a1" 9000 90 ∷ sends "a1" 7000 10 ∷ sends "a2" 8000 50 ∷ sends "a1" 7400 30 ∷ []

answered :
    (shown default_scope " a1 " 1 20000 5 (report_all whole empty_store reports)).1
    ≡ ok (sample "a1" 7000 30 ∷ sample "a1" 9000 90 ∷ [])
unfolding report_all report append history shown insert_by sort_by lookup insert trim_space
    trim_left trim_right contains_nul scope_valid agent_valid truncate_micro
answered = refl

averaged :
    (fleet whole default_scope 1 (report_all whole empty_store reports)).1
    ≡ ok (record { average_cpu_percent = 70; device_count = 2 })
unfolding report_all report append fleet_average fleet insert_by sort_by lookup insert trim_space
    trim_left trim_right contains_nul scope_valid agent_valid truncate_micro
averaged = refl

shown-IsShown_example :
    (5 ≤ 2000)
    × IsShown
        (asked default_scope (trim_space " a1 "))
        1
        20000
        5
        (sample "a1" 7000 30 ∷ sample "a1" 9000 90 ∷ [])
shown-IsShown_example =
    shown-IsShown whole reports default_scope " a1 " 1 20000 5
      (sample "a1" 7000 30 ∷ sample "a1" 9000 90 ∷ []) answered
