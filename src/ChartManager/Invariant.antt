-- ===== src/ChartManager/Invariant.antt =====
-- What holds of the chart manager after it is built and after any sequence of calls.
use addon_controller.Common.{
  List, [], ◌∷◌, Text, text_eq, Distinct, arith, Bool-cases, Bool, inl, inr, true, false,
  if◌then◌else◌,
}
use addon_controller.Api.{ClusterSummary, HelmChart, HelmChartSummary}
use addon_controller.ChartManager.{
  Instance, registered, add_entries, register_charts, register_cluster_summary_for_charts,
  unregister_cluster_summary_for_chart, set_manager_for_chart, remove_stale_registrations,
  remove_all_registrations, remove_cluster_summary_from_chart_registration, summary_cluster_key,
  chart_key, add_release_entry, is_dry_run,
}
use addon_controller.ChartManager.Registry.{
  registered-add_entries, registered-remove, registered-set_registered,
  registered-add_release_entry,
}
use addon_controller.ChartManager.Slices.{Distinct-added, contains-swap_remove, removed-swap_remove}
use addon_controller.ChartManager.Cleaning.{
  AllDistinct, remove-AllDistinct, clean_registrations-AllDistinct,
}
use addon_controller.ChartManager.Rebuild.{
  matches, reported_key, add_reported, add_managers, add_non_managers, each, rebuild_registrations,
}

-- A call that changes the registrations; GetChartManagerInstance makes the first one when it builds the
-- chart manager, with the ClusterSummaries that it lists.
pub data Call : Type 0 where
  rebuilds : List ClusterSummary → Call
  registers remove_stale remove_all : ClusterSummary → Call
  unregisters sets_manager : ClusterSummary → HelmChart → Call

pub step : Instance → Call → Instance
step m (rebuilds items) = rebuild_registrations m items
step m (registers cs) = register_cluster_summary_for_charts m cs
step m (remove_stale cs) = remove_stale_registrations m cs
step m (remove_all cs) = remove_all_registrations m cs
step m (unregisters cs chart) = unregister_cluster_summary_for_chart m cs chart
step m (sets_manager cs chart) = set_manager_for_chart m cs chart

pub run : Instance → List Call → Instance
run m [] = m
run m (c ∷ cs) = run (step m c) cs

pub empty : Instance
empty = record { charts = []; versions = [] }

pub add_entries-AllDistinct :
    (m : Instance) (ck rk cs : Text) → AllDistinct m → AllDistinct (add_entries m ck rk cs)
add_entries-AllDistinct m ck rk cs d ck' rk' =
    rw (registered-add_entries m ck rk cs ck' rk')
      (ground (arith, d ck' rk', Distinct-added cs (registered m ck' rk') (d ck' rk')))

register_charts-AllDistinct :
    (m : Instance) (ck cs : Text) (charts : List HelmChart)
    → AllDistinct m
    → AllDistinct (register_charts m ck cs charts)
unfolding register_charts
register_charts-AllDistinct m ck cs [] d = d
register_charts-AllDistinct m ck cs (chart ∷ rest) d =
    register_charts-AllDistinct (add_entries m ck (chart_key chart) cs) ck cs rest
      (add_entries-AllDistinct m ck (chart_key chart) cs d)

set_manager-AllDistinct :
    (m : Instance) (cs : ClusterSummary) (chart : HelmChart)
    → AllDistinct m
    → AllDistinct (set_manager_for_chart m cs chart)
unfolding set_manager_for_chart
set_manager-AllDistinct m cs chart d ck rk =
    let k = summary_cluster_key cs in
    let r = chart_key chart in
    let entry = add_release_entry m k r in
    let gone = remove_cluster_summary_from_chart_registration entry k r cs.name in
    rw (registered-set_registered gone k r ck rk (cs.name ∷ registered gone k r)) (
      ground (
        arith,
        remove-AllDistinct entry k r cs.name
            (λ ck' rk'. rw (registered-add_release_entry m k r ck' rk') (d ck' rk')) ck rk,
        registered-remove entry k r cs.name ck rk,
        registered-add_release_entry m k r ck rk,
        removed-swap_remove cs.name (registered m ck rk),
        contains-swap_remove cs.name (registered m ck rk) cs.name (d ck rk),
      ))

add_reported-AllDistinct :
    (m : Instance) (ck cs : Text) (wanted : Bool) (l : List HelmChartSummary)
    → AllDistinct m
    → AllDistinct (add_reported m ck cs wanted l)
unfolding add_reported
add_reported-AllDistinct m ck cs wanted [] d = d
add_reported-AllDistinct m ck cs wanted (s ∷ rest) d =
    let added = add_entries m ck (reported_key s) cs in
    add_reported-AllDistinct (if matches wanted s.status then added else m) ck cs wanted rest
      (elim (Bool-cases (matches wanted s.status)) [
        | inl e ↦ rw e (add_entries-AllDistinct m ck (reported_key s) cs d)
        | inr e ↦ rw e d
      ])

each-AllDistinct :
    (f : Instance → ClusterSummary → Instance)
    → ((m : Instance) (cs : ClusterSummary) → AllDistinct m → AllDistinct (f m cs))
    → (m : Instance) (items : List ClusterSummary) → AllDistinct m
    → AllDistinct (each f m items)
unfolding each
each-AllDistinct f law m [] d = d
each-AllDistinct f law m (cs ∷ rest) d = each-AllDistinct f law (f m cs) rest (law m cs d)

rebuild-AllDistinct :
    (m : Instance) (items : List ClusterSummary)
    → AllDistinct m
    → AllDistinct (rebuild_registrations m items)
unfolding rebuild_registrations add_managers add_non_managers
rebuild-AllDistinct m items d =
    each-AllDistinct add_non_managers
      (λ n cs e.
        add_reported-AllDistinct n (summary_cluster_key cs) cs.name false cs.helm_release_summaries
          e)
      (each add_managers m items) items
      (each-AllDistinct add_managers
        (λ n cs e.
          add_reported-AllDistinct n (summary_cluster_key cs) cs.name true cs.helm_release_summaries
            e)
        m items d)

step-AllDistinct : (m : Instance) (c : Call) → AllDistinct m → AllDistinct (step m c)
unfolding step register_cluster_summary_for_charts unregister_cluster_summary_for_chart
    remove_stale_registrations remove_all_registrations
step-AllDistinct m (rebuilds items) d = rebuild-AllDistinct m items d
step-AllDistinct m (registers cs) d =
    register_charts-AllDistinct m (summary_cluster_key cs) cs.name cs.spec.helm_charts d
step-AllDistinct m (remove_stale cs) d = elim (Bool-cases (is_dry_run cs.spec.sync_mode)) [
  | inl dry ↦ rw dry d
  | inr wet ↦ rw wet (clean_registrations-AllDistinct m cs false d)
]
step-AllDistinct m (remove_all cs) d = clean_registrations-AllDistinct m cs true d
step-AllDistinct m (unregisters cs chart) d =
    remove-AllDistinct m (summary_cluster_key cs) (chart_key chart) cs.name d
step-AllDistinct m (sets_manager cs chart) d = set_manager-AllDistinct m cs chart d

run-AllDistinct : (m : Instance) (cs : List Call) → AllDistinct m → AllDistinct (run m cs)
unfolding run
run-AllDistinct m [] d = d
run-AllDistinct m (c ∷ cs) d = run-AllDistinct (step m c) cs (step-AllDistinct m c d)

-- Whatever calls change the registrations of a chart manager that starts empty, in whatever order, the
-- rebuild from the statuses of listed ClusterSummaries among them, no ClusterSummary is registered twice
-- for a release.
pub run_empty-AllDistinct :
    (cs : List Call) (ck rk : Text) → Distinct (registered (run empty cs) ck rk)
unfolding empty registered
run_empty-AllDistinct cs ck rk = run-AllDistinct empty cs (λ ck' rk'. tt) ck rk
