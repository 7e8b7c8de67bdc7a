-- ===== src/Helm.antt =====
-- controllers/handlers_helm.go and controllers/helm_apply_tracking.go: the helm charts of a ClusterSummary.
-- Here, what the handlers read of the summaries of the releases in the status.
pub mod Tracking
pub mod Applying
pub mod Decisions
pub mod Settled
pub mod Ownership
pub mod Uninstalling
pub mod Waiting
pub mod Summaries
pub mod Walking
mod Examples
use addon_controller.Common.{Bool, false, ◌==◌, ◌&&◌, Option, none, some, Text, text_eq, find}
use addon_controller.Api.{HelmChart, HelmChartSummary, ClusterSummary}

-- the test of every loop that looks for the summary of a chart
abbrev pub is_for : HelmChart → HelmChartSummary → Bool
is_for chart s =
    s.release_name == chart.release_name && s.release_namespace == chart.release_namespace

abbrev pub get_helm_chart_summary : HelmChart → ClusterSummary → Option HelmChartSummary
get_helm_chart_summary chart cs = find (is_for chart) cs.helm_release_summaries

abbrev pub values_hash_in : Option HelmChartSummary → Option Text
values_hash_in none = none
values_hash_in (some s) = s.values_hash

abbrev pub get_values_hash_from_helm_chart_summary : HelmChart → ClusterSummary → Option Text
get_values_hash_from_helm_chart_summary chart cs = values_hash_in (get_helm_chart_summary chart cs)

abbrev pub patches_hash_in : Option HelmChartSummary → Option Text
patches_hash_in none = none
patches_hash_in (some s) = s.patches_hash

abbrev pub get_patches_hash_from_helm_chart_summary : HelmChart → ClusterSummary → Option Text
get_patches_hash_from_helm_chart_summary chart cs =
    patches_hash_in (get_helm_chart_summary chart cs)

abbrev failure_message_in : Option HelmChartSummary → Option Text
failure_message_in none = none
failure_message_in (some s) = s.failure_message

abbrev pub get_failure_message_from_helm_chart_summary : HelmChart → ClusterSummary → Option Text
get_failure_message_from_helm_chart_summary chart cs =
    failure_message_in (get_helm_chart_summary chart cs)

abbrev needs_redeploy_in : Option HelmChartSummary → Bool
needs_redeploy_in none = false
needs_redeploy_in (some s) = s.needs_redeploy

abbrev pub get_needs_redeploy_from_helm_chart_summary : HelmChart → ClusterSummary → Bool
get_needs_redeploy_from_helm_chart_summary chart cs =
    needs_redeploy_in (get_helm_chart_summary chart cs)
