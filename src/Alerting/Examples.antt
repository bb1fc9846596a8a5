-- ===== src/Alerting/Examples.antt =====
-- A rule on the processor's load, measured in whole percents.
use bazusop.Base.{
  ℕ, ◌≡◌, ◌≢◌, refl, String, true, [], ◌∷◌, ok, ltb, leb, nat_eqb, eq_iff, string_comparable, arith,
  trim_space, trim_left, trim_right, contains_nul, ◌-◌, ◌/◌, second,
}
use bazusop.Base.Sort.{sort_by}
use bazusop.Tenancy.{scope_valid, default_scope}
use bazusop.Alerting.{RuleRequest, Rule}
use bazusop.Alerting.Store.{empty_store, list_maintenance_windows}
use bazusop.Alerting.Service.{Numbers, Draw, evaluate}
use bazusop.Alerting.Single.{active_count, IsExclusive}
use bazusop.Alerting.History.{adds_rule, measures, run, run-IsExclusive}
use bazusop.Alerting.Evaluation.{evaluate-active_count}

abbrev naturals : Numbers ℕ
naturals = record {
  greater = λ a b. ltb b a;
  at_most = leb;
  equal = nat_eqb;
  of_int = λ k. k;
  seconds_between = λ now seen. (now - seen) / second;
  metric_message = λ label value threshold. label;
  stale_message = λ value. "stale";
}

abbrev busy : RuleRequest ℕ
busy = record {
  name = "busy";
  kind = "metric";
  metric = "cpu";
  threshold = 90;
  stale_after_seconds = 0;
  severity = "warning";
  enabled = true;
}

abbrev busy_rule : Rule ℕ
busy_rule = record {
  organization_id = "org_default";
  site_id = "site_default";
  id = "r1";
  request = busy;
  created_at = 0;
}

abbrev draw : Draw
draw = record { now = 5000; id = ok "i1"; event_id = "e1" }

empty-IsExclusive : IsExclusive (empty_store {F = ℕ})
empty-IsExclusive = record { unique = tt; at_most_one = λ scope rule agent. omega arith }

run-IsExclusive_example : IsExclusive (
    run naturals empty_store (
      adds_rule default_scope busy (ok "r1") 1000
      ∷ measures default_scope "web-1"
          (record { cpu_percent = 95; memory_percent = 10; disk_percent = 10 })
          (λ i. draw)
      ∷ []))
run-IsExclusive_example =
    run-IsExclusive naturals empty_store
      (adds_rule default_scope busy (ok "r1") 1000
        ∷ measures default_scope "web-1"
            (record { cpu_percent = 95; memory_percent = 10; disk_percent = 10 }) (λ i. draw)
        ∷ [])
      empty-IsExclusive

default-valid : scope_valid default_scope ≡ true
unfolding scope_valid trim_space trim_left trim_right contains_nul
default-valid = refl

no_windows : list_maintenance_windows (empty_store {F = ℕ}) default_scope ≡ ok []
unfolding list_maintenance_windows sort_by
no_windows = rw default-valid refl

web-named : ◌≢◌ {A = String} "web-1" ""
web-named = λ e. let t = (eq_iff "web-1" "").1 e in cc

evaluate-active_count_example :
    active_count default_scope "r1" "web-1"
      (evaluate default_scope busy_rule "web-1" true 95 "CPU" draw empty_store).0
    ≡ 1
evaluate-active_count_example =
    evaluate-active_count empty_store default_scope busy_rule "web-1" true 95 "CPU" draw "i1" []
      empty-IsExclusive default-valid web-named refl no_windows refl
