-- ===== src/Examples/Charts.antt =====
-- The chart manager on three ClusterSummaries of one cluster.
use addon_controller.Common.{
  ◌≡◌, refl, ◌==◌, ◌&&◌, not, true, if◌then◌else◌, [], ◌∷◌, some, Text, text, text_eq, text_dec,
  ℕ_discrete, contains, Distinct,
}
use addon_controller.ChartManager.{
  Instance, registered, register_cluster_summary_for_charts, unregister_cluster_summary_for_chart,
  remove_stale_registrations, get_manager_for_chart, summary_cluster_key, chart_key, chart_keys,
  is_dry_run, last_of, but_last, swap_remove,
}
use addon_controller.ChartManager.Keys
use addon_controller.ChartManager.Keys.{cluster_key, release_key, release_info_from_key}
use addon_controller.ChartManager.Manager
use addon_controller.ChartManager.Manager.{may_manage}
use addon_controller.ChartManager.Cleaning
use addon_controller.ChartManager.Cleaning.{AllDistinct}
use addon_controller.ChartManager.Invariant
use addon_controller.ChartManager.Invariant.{rebuilds, registers, sets_manager, run, empty}
use addon_controller.ChartManager.Rebuild
use addon_controller.ChartManager.Rebuild.{rebuild_registrations, reported_by, any_reports}
use addon_controller.Examples.Fixtures.{kyverno, summary_a, summary_b}

abbrev ck : Text
ck = summary_cluster_key summary_a

abbrev rk : Text
rk = chart_key kyverno

-- `b` manages kyverno, `a` and `c` wait
abbrev three : Instance
three = record {
  charts = (ck, (rk, text "b" ∷ text "a" ∷ text "c" ∷ []) ∷ []) ∷ [];
  versions = (ck, (rk, text "v2") ∷ []) ∷ [];
}

three-registered : registered three ck rk ≡ text "b" ∷ text "a" ∷ text "c" ∷ []
unfolding registered release_key cluster_key text_dec ℕ_discrete
three-registered = refl

three_manager : get_manager_for_chart three ck rk ≡ some (text "b")
unfolding get_manager_for_chart registered release_key cluster_key text_dec ℕ_discrete
three_manager = refl

-- two registrations from the start
abbrev two : Instance
two = run empty (registers summary_b ∷ registers summary_a ∷ [])

two-AllDistinct : AllDistinct two
two-AllDistinct k r =
    Invariant.run_empty-AllDistinct (registers summary_b ∷ registers summary_a ∷ []) k r

register-keeps_manager_example :
    get_manager_for_chart (register_cluster_summary_for_charts three summary_a) ck rk
    ≡ some (text "b")
register-keeps_manager_example =
    Manager.register-keeps_manager three summary_a ck rk (text "b") three_manager

unregister-promotes_last_example :
    (get_manager_for_chart (unregister_cluster_summary_for_chart three summary_b kyverno) ck rk
      ≡ some (last_of (text "a") (text "c" ∷ [])))
    × (registered (unregister_cluster_summary_for_chart three summary_b kyverno) ck rk
        ≡ last_of (text "a") (text "c" ∷ []) ∷ but_last (text "a") (text "c" ∷ []))
unregister-promotes_last_example =
    Manager.unregister-promotes_last three summary_b kyverno (text "a") (text "c" ∷ [])
      three-registered

remove_stale_registrations_effect_example :
    (registered (remove_stale_registrations two summary_a) ck rk ≡ (
      if not (is_dry_run summary_a.spec.sync_mode)
        && summary_cluster_key summary_a == ck
        && not (contains (chart_keys summary_a.spec.helm_charts) rk)
      then swap_remove summary_a.name (registered two ck rk)
      else registered two ck rk))
    × ((remove_stale_registrations two summary_a).versions ≡ two.versions)
remove_stale_registrations_effect_example =
    Cleaning.remove_stale_registrations_effect two summary_a ck rk two-AllDistinct

run_empty-AllDistinct_example : Distinct (
    registered
      (run empty (
        rebuilds (summary_a ∷ summary_b ∷ [])
        ∷ registers summary_a
        ∷ sets_manager summary_b kyverno
        ∷ []))
      ck
      rk)
run_empty-AllDistinct_example =
    Invariant.run_empty-AllDistinct
      (rebuilds (summary_a ∷ summary_b ∷ [])
        ∷ registers summary_a
        ∷ sets_manager summary_b kyverno
        ∷ [])
      ck rk

b_reports : any_reports true ck rk (summary_a ∷ summary_b ∷ []) ≡ true
unfolding release_key cluster_key text_dec ℕ_discrete
b_reports = refl

rebuild-manager_example :
    (x : Text) × (get_manager_for_chart
        (rebuild_registrations (record { charts = []; versions = [] }) (summary_a ∷ summary_b ∷ []))
        ck
        rk
      ≡ some x)
    × (reported_by true ck rk (summary_a ∷ summary_b ∷ []) x ≡ true)
rebuild-manager_example = Rebuild.rebuild-manager (summary_a ∷ summary_b ∷ []) ck rk b_reports

release_info_from_key-release_key_example :
    release_info_from_key (release_key (text "web") (text "nginx"))
    ≡ some (record { namespace = text "web"; name = text "nginx" })
unfolding ℕ_discrete
release_info_from_key-release_key_example =
    Keys.release_info_from_key-release_key (text "web") (text "nginx") refl refl
