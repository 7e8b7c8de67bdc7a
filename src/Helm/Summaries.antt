-- ===== src/Helm/Summaries.antt =====
-- controllers/handlers_helm.go: buildReferencedHelmReleaseSummaries, which builds the summaries of the
-- releases again at the start of every pass. Rendering of a chart's names is a parameter.
pub mod Carried
mod Examples
use addon_controller.Common.{
  ◌≡◌, Bool, true, false, not, ◌&&◌, ◌==◌, ◌||◌, if◌then◌else◌, List, [], ◌∷◌, ◌++◌, map, Option,
  none, some, Text, text, text_eq,
}
use addon_controller.Api.{
  HelmChart, HelmChartSummary, HelmChartStatus, managing, conflict, ClusterSummary,
}
use addon_controller.ChartManager.{get_manager_for_chart, summary_cluster_key, chart_key}
use addon_controller.Helm.{
  get_helm_chart_summary, get_values_hash_from_helm_chart_summary,
  get_patches_hash_from_helm_chart_summary, get_failure_message_from_helm_chart_summary,
  get_needs_redeploy_from_helm_chart_summary,
}
use addon_controller.Helm.Ownership
use addon_controller.Helm.Ownership.{State, Answer, failure, answer, determine_chart_ownership}

pub record World : Type 0 where
  pub ownership : Ownership.World
  pub instantiated : HelmChart → Option HelmChart

abbrev pub staged_in : Option HelmChartSummary → Text
staged_in none = []
staged_in (some s) = s.staged_content_hash

abbrev pub applied_in : Option HelmChartSummary → Text
applied_in none = []
applied_in (some s) = s.applied_content_hash

-- what is known of the release is carried forward
abbrev pub managing_summary : ClusterSummary → HelmChart → HelmChartSummary
managing_summary cs chart = record {
  release_namespace = chart.release_namespace;
  release_name = chart.release_name;
  status = managing;
  values_hash = get_values_hash_from_helm_chart_summary chart cs;
  patches_hash = get_patches_hash_from_helm_chart_summary chart cs;
  conflict_message = [];
  failure_message = get_failure_message_from_helm_chart_summary chart cs;
  needs_redeploy = get_needs_redeploy_from_helm_chart_summary chart cs;
  staged_content_hash = staged_in (get_helm_chart_summary chart cs);
  applied_content_hash = applied_in (get_helm_chart_summary chart cs);
}

abbrev pub conflict_summary : HelmChart → Text → HelmChartSummary
conflict_summary chart manager = record {
  release_namespace = chart.release_namespace;
  release_name = chart.release_name;
  status = conflict;
  values_hash = none;
  patches_hash = none;
  conflict_message = text "ClusterSummary " ++ (manager ++ text " managing it");
  failure_message = none;
  needs_redeploy = false;
  staged_content_hash = [];
  applied_content_hash = [];
}

-- a summary, and whether the ClusterSummary may manage its chart
pub record Entry : Type 0 where
  pub summary : HelmChartSummary
  pub can_manage : Bool

abbrev pub by_manager : HelmChart → Option Text → State → Option Entry × State
by_manager chart none st = (none, st)
by_manager chart (some manager) st =
    (some (record { summary = conflict_summary chart manager; can_manage = false }), st)

abbrev pub by_ownership : ClusterSummary → HelmChart → Answer × State → Option Entry × State
by_ownership cs chart (failure, st) = (none, st)
by_ownership cs chart (answer true, st) =
    (some (record { summary = managing_summary cs chart; can_manage = true }), st)
by_ownership cs chart (answer false, st) =
    by_manager chart (get_manager_for_chart st.charts (summary_cluster_key cs) (chart_key chart)) st

abbrev pub entry_of : World → ClusterSummary → Option HelmChart → State → Option Entry × State
entry_of w cs none st = (none, st)
entry_of w cs (some chart) st =
    by_ownership cs chart (determine_chart_ownership w.ownership cs chart st)

abbrev pub in_front : Entry → Option (List Entry) × State → Option (List Entry) × State
in_front e (none, st) = (none, st)
in_front e (some es, st) = (some (e ∷ es), st)

-- an error ends the loop
abbrev pub before :
    (State → Option (List Entry) × State) → Option Entry → State → Option (List Entry) × State
before others none st = (none, st)
before others (some e) st = in_front e (others st)

-- the loop over the charts of the spec
pub entries : World → ClusterSummary → List HelmChart → State → Option (List Entry) × State
entries w cs [] st = (some [], st)
entries w cs (chart ∷ rest) st =
    let r = entry_of w cs (w.instantiated chart) st in before (entries w cs rest) r.0 r.1

abbrev helm_info : HelmChartSummary → Text
helm_info s = s.release_namespace ++ (text "/" ++ s.release_name)

abbrev is_referenced : List Entry → HelmChartSummary → Bool
is_referenced [] s = false
is_referenced (e ∷ es) s =
    if e.can_manage && helm_info e.summary == helm_info s then true else is_referenced es s

abbrev is_managing : HelmChartStatus → Bool
is_managing managing = true
is_managing _ = false

-- the entries that are kept: managed before, and not among the charts that may be managed
abbrev pub preserved : List Entry → List HelmChartSummary → List HelmChartSummary
preserved es [] = []
preserved es (s ∷ rest) =
    let later = preserved es rest in
    if is_managing s.status && not (is_referenced es s) then s ∷ later else later

abbrev pub has_conflict : List Entry → Bool
has_conflict [] = false
has_conflict (e ∷ es) = not e.can_manage || has_conflict es

-- the summaries, and whether there is a conflict
abbrev pub with_preserved :
    ClusterSummary → Option (List Entry) × State → Option (List HelmChartSummary × Bool) × State
with_preserved current (none, st) = (none, st)
with_preserved current (some es, st) = (
  some (map (λ e. e.summary) es ++ preserved es current.helm_release_summaries, has_conflict es),
  st,
)

-- buildReferencedHelmReleaseSummaries, for the ClusterSummary of the pass and the one of the API server
pub build_referenced_helm_release_summaries :
    World → ClusterSummary → ClusterSummary → State → Option (List HelmChartSummary × Bool) × State
unfolding entries
build_referenced_helm_release_summaries w cs current st =
    with_preserved current (entries w cs current.spec.helm_charts st)
