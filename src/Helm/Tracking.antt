-- ===== src/Helm/Tracking.antt =====
-- controllers/helm_apply_tracking.go, with the writes of the status that move its state:
-- updateValueHashOnHelmChartSummary (handlers_helm.go) and markDriftedHelmCharts
-- (resourcesummary_collection.go).
use addon_controller.Common.{
  Bool, true, false, not, ◌==◌, ◌&&◌, ◌||◌, if◌then◌else◌, List, [], ◌∷◌, map, Option, none, some,
  Text, text_eq, is_some,
}
use addon_controller.Api.{
  managing, HelmChartAction, install, uninstall, HelmChart, HelmChartSummary, ClusterSummary,
}
use addon_controller.ChartManager.{Instance, is_dry_run, can_manage_chart}
use addon_controller.Provisioned.{is_empty}
use addon_controller.Helm.{is_for, get_helm_chart_summary}

abbrev pub is_uninstall_action : HelmChartAction → Bool
is_uninstall_action uninstall = true
is_uninstall_action install = false

unfoldable pub is_apply_tracked : ClusterSummary → HelmChart → Bool → Bool
is_apply_tracked cs chart is_uninstall =
    not is_uninstall
    && not (is_uninstall_action chart.helm_chart_action)
    && not (is_some cs.deletion_timestamp)
    && not (is_dry_run cs.spec.sync_mode)

abbrev pub skips : Option HelmChartSummary → Text → Bool
skips none apply_hash = false
skips (some s) apply_hash =
    if s.needs_redeploy || not (is_empty s.staged_content_hash) || is_empty s.applied_content_hash
    then false
    else s.applied_content_hash == apply_hash

unfoldable pub should_skip_apply : ClusterSummary → HelmChart → Text → Bool
should_skip_apply cs chart apply_hash = skips (get_helm_chart_summary chart cs) apply_hash

-- releaseInfo, with the two fields that pull mode sets
pub record ReleaseInfo : Type 0 where
  pub apply_hash : Text
  pub skip_apply : Bool

-- the helm action of prepareChartForAgent is `uninstall`
abbrev pub is_uninstall_in_pull_mode : ClusterSummary → HelmChart → Bool
is_uninstall_in_pull_mode cs chart =
    is_uninstall_action chart.helm_chart_action || is_some cs.deletion_timestamp

-- what prepareChartForAgent decides for a chart whose content has this hash
unfoldable pub prepare_release : ClusterSummary → HelmChart → Bool → Text → ReleaseInfo
unfolding is_apply_tracked should_skip_apply
prepare_release cs chart allow_skip_apply hash =
    if is_apply_tracked cs chart (is_uninstall_in_pull_mode cs chart)
    then record {
      apply_hash = hash;
      skip_apply = allow_skip_apply && should_skip_apply cs chart hash;
    }
    else record { apply_hash = []; skip_apply = false }

-- `none` is a release of push mode that is gone after the deployment
abbrev pub record_helm_chart_apply : HelmChartSummary → Option ReleaseInfo → HelmChartSummary
record_helm_chart_apply s none = record s { needs_redeploy = false }
record_helm_chart_apply s (some release) =
    if release.skip_apply
    then s
    else if not (is_empty release.apply_hash)
    then record s { needs_redeploy = false; staged_content_hash = release.apply_hash }
    else record s { needs_redeploy = false }

abbrev pub correct_conflict : Bool → HelmChartSummary → HelmChartSummary
correct_conflict is_manager s =
    if is_manager then record s { status = managing; conflict_message = [] } else s

-- the body of the loop of updateValueHashOnHelmChartSummary; the identity of the resolved chart is
-- left out
abbrev pub update_value_hash_on :
    Bool
    → HelmChart
    → Option ReleaseInfo
    → Option Text
    → Option Text
    → HelmChartSummary
    → HelmChartSummary
update_value_hash_on is_manager chart release values_hash patches_hash s =
    if is_for chart s
    then correct_conflict is_manager (
        record_helm_chart_apply
          (record s { values_hash = values_hash; patches_hash = patches_hash }) release)
    else s

-- updateValueHashOnHelmChartSummary
unfoldable pub update_value_hash_on_helm_chart_summary :
    Instance
    → HelmChart
    → Option ReleaseInfo
    → Option Text
    → Option Text
    → ClusterSummary
    → ClusterSummary
update_value_hash_on_helm_chart_summary m chart release values_hash patches_hash cs =
    let is_manager = not (is_dry_run cs.spec.sync_mode) && can_manage_chart m cs chart in
    record cs {
      helm_release_summaries =
          map (update_value_hash_on is_manager chart release values_hash patches_hash)
            cs.helm_release_summaries;
    }

abbrev pub confirm_applied : HelmChartSummary → HelmChartSummary
confirm_applied s =
    if is_empty s.staged_content_hash
    then s
    else record s { applied_content_hash = s.staged_content_hash; staged_content_hash = [] }

-- confirmAppliedHelmCharts, once the update of the status succeeds
unfoldable pub confirm_applied_helm_charts : ClusterSummary → ClusterSummary
confirm_applied_helm_charts cs = record cs {
  helm_release_summaries = map confirm_applied cs.helm_release_summaries;
}

-- libsveltosv1beta1.HelmChartRef
pub record HelmChartRef : Type 0 where
  pub release_name : Text
  pub release_namespace : Text

abbrev pub is_drifted : List HelmChartRef → HelmChartSummary → Bool
is_drifted [] s = false
is_drifted (r ∷ rest) s =
    s.release_name == r.release_name && s.release_namespace == r.release_namespace
    || is_drifted rest s

abbrev pub mark : HelmChartSummary → HelmChartSummary
mark s = record s { needs_redeploy = true }

abbrev pub mark_drifted : List HelmChartRef → HelmChartSummary → HelmChartSummary
mark_drifted drifted s = if is_drifted drifted s then mark s else s

abbrev pub matched : List HelmChartRef → List HelmChartSummary → Bool
matched drifted [] = false
matched drifted (s ∷ rest) = is_drifted drifted s || matched drifted rest

-- markDriftedHelmCharts, and markAllHelmChartsForRedeploy where it falls back on all the charts
unfoldable pub mark_drifted_helm_charts : List HelmChartRef → ClusterSummary → ClusterSummary
mark_drifted_helm_charts drifted cs = record cs {
  helm_release_summaries =
      if is_empty drifted
      then map mark cs.helm_release_summaries
      else if matched drifted cs.helm_release_summaries
      then map (mark_drifted drifted) cs.helm_release_summaries
      else map mark cs.helm_release_summaries;
}
