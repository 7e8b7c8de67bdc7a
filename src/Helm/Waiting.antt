-- ===== src/Helm/Waiting.antt =====
-- When a chart may be uninstalled: nobody else is registered for it, and the other profiles that match the
-- cluster have registered their charts.
pub mod Profiles
use addon_controller.Common.{
  ◌≡◌, refl, sym, ◌∙◌, Bool, true, false, ◌&&◌, ◌||◌, if◌then◌else◌, ltb, leb, List, [], ◌∷◌, some,
  none, Option, Option-cases, not, ◌==◌, is_some, ◌⊎◌, ℕ, Text, text_eq, length, all, arith,
  Bool-cases, inl, inr,
}
use addon_controller.Api.{HelmChart, ClusterSummary, ObjectReference}
use addon_controller.ChartManager.{
  Instance, is_dry_run, registered, unregister_cluster_summary_for_chart, summary_cluster_key,
  chart_key,
}
use addon_controller.ChartManager.Queries.{get_registered_charts_count}
use addon_controller.Transition.{ProfileKind, cluster_profile, profile}
use addon_controller.Provisioned.{is_empty}
use addon_controller.RollingUpdate.{Lookup, found, not_found, failed}
use addon_controller.Helm.Ownership.{
  State, World, Answer, answer, failure, determine_chart_ownership,
  requeue_all_other_cluster_summaries,
}
use addon_controller.Helm.Uninstalling.{
  ListedProfile, Listing, Owned, is_passed_over, is_processed, is_profile_fully_processed,
  skips_dry_run, selector_matches_cluster, refs_cluster, created_after, of_summaries, among, both,
  all_processed, all_matching_profiles_processed, Uninstall, can_uninstall, of_processed,
  of_requeue, yield_or_wait, of_ownership, can_uninstall_helm_chart,
}

abbrev pub is_granted : Uninstall → Bool
is_granted can_uninstall = true
is_granted _ = false

abbrev pub is_yes : Answer → Bool
is_yes failure = false
is_yes (answer b) = b

-- nobody else is registered for the chart, and the other profiles are processed
abbrev pub Alone : Listing → ClusterSummary → HelmChart → State → Type 0
Alone l cs chart st =
    (leb (length (registered st.charts (summary_cluster_key cs) (chart_key chart))) 1 ≡ true)
    × (is_yes (all_matching_profiles_processed l st.charts cs) ≡ true)

of_requeue-granted : (r : Bool × State) → is_granted (of_requeue r).0 ≡ false
of_requeue-granted (true, st) = refl
of_requeue-granted (false, st) = refl

of_processed-granted : (a : Answer) → is_granted (of_processed a) ≡ is_yes a
of_processed-granted failure = refl
of_processed-granted (answer true) = refl
of_processed-granted (answer false) = refl

yield_or_wait-Alone :
    (w : World) (l : Listing) (cs : ClusterSummary) (chart : HelmChart) (st : State)
    → is_granted (yield_or_wait w l cs chart st).0 ≡ true
    → Alone l cs chart (yield_or_wait w l cs chart st).1
unfolding yield_or_wait
yield_or_wait-Alone w l cs chart st h =
    let others = registered st.charts (summary_cluster_key cs) (chart_key chart) in
    elim (Bool-cases (ltb 1 (length others))) [
      | inl y ↦ ground (
        arith,
        h,
        y,
        of_requeue-granted (
            requeue_all_other_cluster_summaries w others
              (record st { charts = unregister_cluster_summary_for_chart st.charts cs chart })),
      )
      | inr y ↦
          let granted : is_granted (of_processed (all_matching_profiles_processed l st.charts cs))
              ≡ true =
            ground (arith, h, y) in
          rw y (
            ground (arith, y),
            sym (of_processed-granted (all_matching_profiles_processed l st.charts cs)) ∙ granted,
          )
    ]

of_ownership-Alone :
    (w : World) (l : Listing) (cs : ClusterSummary) (chart : HelmChart) (a : Answer) (st : State)
    → is_granted (of_ownership w l cs chart (a, st)).0 ≡ true
    → Alone l cs chart (of_ownership w l cs chart (a, st)).1
of_ownership-Alone w l cs chart failure st h = ground (arith, h)
of_ownership-Alone w l cs chart (answer true) st h = yield_or_wait-Alone w l cs chart st h
of_ownership-Alone w l cs chart (answer false) st h = ground (arith, h)

-- A chart may be uninstalled only where, once its owner is determined, no second ClusterSummary is
-- registered for it, and every other profile that is waited for is processed.
pub can_uninstall_helm_chart-Alone :
    (w : World) (l : Listing) (cs : ClusterSummary) (chart : HelmChart) (st : State)
    → is_granted (can_uninstall_helm_chart w l cs chart st).0 ≡ true
    → Alone l cs chart (can_uninstall_helm_chart w l cs chart st).1
unfolding can_uninstall_helm_chart
can_uninstall_helm_chart-Alone w l cs chart st h =
    let owned = determine_chart_ownership w cs chart st in
    of_ownership-Alone w l cs chart owned.0 owned.1 h
