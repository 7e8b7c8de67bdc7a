-- ===== src/Helm/Walking.antt =====
-- controllers/handlers_helm.go: deploySingleChart, which deploys one chart of a ClusterSummary in the loop of
-- walkChartsAndDeploy (Loop). Rendering, hashing and handleChart, which calls helm, are parameters.
pub mod Loop
pub mod Complete
pub mod Hidden
mod Examples
use addon_controller.Common.{
  ◌≡◌, Bool, true, false, not, ◌&&◌, ◌||◌, if◌then◌else◌, List, [], ◌∷◌, ◌++◌, map, Option, none,
  some, ◌⊎◌, inl, inr, Text, text, text_eq, is_some,
}
use addon_controller.Api.{HelmChart, HelmChartSummary, ClusterSummary}
use addon_controller.ChartManager.{
  is_dry_run, can_manage_chart, get_manager_for_chart, summary_cluster_key, chart_key,
}
use addon_controller.Provisioned.{is_empty}
use addon_controller.RollingUpdate.{Lookup, found, not_found, failed}
use addon_controller.Helm.{is_for}
use addon_controller.Helm.Tracking.{ReleaseInfo, update_value_hash_on}
use addon_controller.Helm.Ownership
use addon_controller.Helm.Ownership.{
  Answer, failure, answer, get, update, determine_chart_ownership, requeue_lower_tier_challengers,
}

-- an error, which may be a NonRetriableError
pub data Error : Type 0 where
  generic non_retriable : Text → Error

pub record ReleaseReport : Type 0 where
  pub release_name : Text
  pub release_namespace : Text
  pub chart_version : Text
  pub action : Text
  pub message : Text

-- what handleChart returns: the release, if there is one, whether it is deployed, and the report
pub record Handled : Type 0 where
  pub release : Option ReleaseInfo
  pub is_deployed : Bool
  pub report : Option ReleaseReport

-- The hashes are those of the values and of the patches. What handle_chart returns may depend on the
-- charts that were handled before; its flag is allowSkipApply.
-- The texts are those of errors of the API server.
pub record World : Type 0 where
  pub ownership : Ownership.World
  pub is_pull_mode : Bool
  pub instantiated : HelmChart → Error ⊎ HelmChart
  pub report_unmanaged : HelmChart → Error ⊎ ReleaseReport
  pub hashes : HelmChart → Error ⊎ (Option Text × Option Text)
  pub handle_chart : List HelmChart → HelmChart → Bool → Error ⊎ Handled
  pub ownership_error : Text
  pub status_error : Text

-- the ClusterSummary of the deployment in memory, the shared state, and the charts that were given to
-- handleChart, in this order
pub record State : Type 0 where
  pub object : ClusterSummary
  pub shared : Ownership.State
  pub handled : List HelmChart

-- chartStepResult; of the deployed chart only the chart itself is kept
pub record Step : Type 0 where
  pub report : Option ReleaseReport
  pub deployed : Option HelmChart
  pub conflict_msg : Text
  pub accum_err : Text

abbrev pub text_of : Error → Text
text_of (generic t) = t
text_of (non_retriable t) = t

-- fmt.Errorf with %w keeps what the error is
abbrev pub wrap : Text → Error → Error
wrap before (generic t) = generic (before ++ t)
wrap before (non_retriable t) = non_retriable (before ++ t)

abbrev set_failure_message : HelmChart → Option Text → List HelmChartSummary → List HelmChartSummary
set_failure_message chart message [] = []
set_failure_message chart message (s ∷ rest) =
    let later = set_failure_message chart message rest in
    if is_for chart s then record s { failure_message = message } ∷ rest else s ∷ later

-- setHelmFailureMessageOnHelmChartSummary
abbrev pub set_helm_failure_message : HelmChart → Option Text → ClusterSummary → ClusterSummary
set_helm_failure_message chart message cs = record cs {
  helm_release_summaries = set_failure_message chart message cs.helm_release_summaries;
}

abbrev conflict_with : Text → Option Text → Text
conflict_with message none = message
conflict_with message (some manager) =
    message ++ (text " ClusterSummary " ++ (manager ++ text " managing it.\n"))

-- generateConflictForHelmChart
abbrev pub generate_conflict_for_helm_chart : State → HelmChart → Text
generate_conflict_for_helm_chart st chart =
    conflict_with
      (text "cannot manage chart "
        ++ (chart.release_namespace ++ (text "/" ++ (chart.release_name ++ text "."))))
      (get_manager_for_chart st.shared.charts (summary_cluster_key st.object) (chart_key chart))

abbrev pub Outcome : Type 0
Outcome = (Error ⊎ Step) × State

-- a chart that another ClusterSummary manages
abbrev pub unmanaged : Error ⊎ ReleaseReport → HelmChart → State → Outcome
unmanaged (inl e) chart st = (inl e, st)
unmanaged (inr report) chart st =
    let message = generate_conflict_for_helm_chart st chart in
    if st.object.spec.continue_on_conflict || is_dry_run st.object.spec.sync_mode
    then (
      inr (record {
        report = some report;
        deployed = none;
        conflict_msg = message;
        accum_err = [];
      }),
      st,
    )
    else (inl (non_retriable message), st)

abbrev prefix_of : HelmChart → Text
prefix_of chart =
    text "chart="
    ++ (chart.chart_name
        ++ (text ", releaseNamespace="
            ++ (chart.release_namespace
                ++ (text ", releaseName=" ++ (chart.release_name ++ text ": ")))))

-- a chart whose hashes or whose handling failed
abbrev pub chart_failed : Error → HelmChart → State → Outcome
chart_failed e chart st =
    let told = record st { object = set_helm_failure_message chart (some (text_of e)) st.object } in
    if st.object.spec.continue_on_error
    then (
      inr (record {
        report = none;
        deployed = none;
        conflict_msg = [];
        accum_err = text_of (wrap (prefix_of chart) e) ++ text "\n";
      }),
      told,
    )
    else (inl (wrap (prefix_of chart) e), told)

-- the ClusterSummary as the API server has it, with its summaries of releases updated
abbrev pub store_in :
    World → (HelmChartSummary → HelmChartSummary) → State → Lookup ClusterSummary → Bool × State
store_in w change st failed = (false, st)
store_in w change st not_found = (false, st)
store_in w change st (found current) =
    let updated =
      update w.ownership
        (record current { helm_release_summaries = map change current.helm_release_summaries })
        st.shared in
    (updated.0, record st { shared = updated.1 })

-- updateValueHashOnHelmChartSummary
abbrev pub store_hashes :
    World → HelmChart → Option ReleaseInfo → Option Text → Option Text → State → Bool × State
store_hashes w chart release values patches st =
    let is_manager =
      not (is_dry_run st.object.spec.sync_mode)
      && can_manage_chart st.shared.charts st.object chart in
    store_in w (update_value_hash_on is_manager chart release values patches) st
      (get w.ownership st.object.name st.shared)

abbrev pub chart_stored : World → HelmChart → Handled → Bool × State → Outcome
chart_stored w chart h (false, st) = (inl (generic w.status_error), st)
chart_stored w chart h (true, st) = (
  inr (record {
    report = h.report;
    deployed = if is_some h.release && h.is_deployed then some chart else none;
    conflict_msg = [];
    accum_err = [];
  }),
  st,
)

abbrev pub chart_handled :
    World → HelmChart → Option Text → Option Text → Error ⊎ Handled → State → Outcome
chart_handled w chart values patches (inl e) st = chart_failed e chart st
chart_handled w chart values patches (inr h) st = chart_stored w chart h (
    store_hashes w chart h.release values patches
      (record st { object = set_helm_failure_message chart none st.object }))

-- from the hashes on
abbrev pub handle : World → HelmChart → Bool → Error ⊎ (Option Text × Option Text) → State → Outcome
handle w chart allow_skip_apply (inl e) st = chart_failed e chart st
handle w chart allow_skip_apply (inr (values, patches)) st =
    chart_handled w chart values patches (w.handle_chart st.handled chart allow_skip_apply)
      (record st { handled = st.handled ++ (chart ∷ []) })

abbrev yielded : HelmChart → Text
yielded chart =
    text "chart "
    ++ (chart.release_namespace
        ++ (text "/"
            ++ (chart.release_name
                ++ text
                    " yielded to lower-tier profile; will re-evaluate ownership after handover")))

-- from requeueLowerTierChallengers on
abbrev pub of_requeue : World → HelmChart → State → Answer × Ownership.State → Outcome
of_requeue w chart st (failure, shared) =
    (inl (generic w.ownership_error), record st { shared = shared })
of_requeue w chart st (answer requeued, shared) =
    let next = record st { shared = shared } in
    if requeued && not w.is_pull_mode
    then (inl (generic (yielded chart)), next)
    else handle w chart (not requeued) (w.hashes chart) next

-- canManageChart
abbrev pub can_manage : World → HelmChart → State → Answer × Ownership.State
can_manage w chart st =
    if can_manage_chart st.shared.charts st.object chart
    then (answer true, st.shared)
    else determine_chart_ownership w.ownership st.object chart st.shared

abbrev pub of_can_manage : World → HelmChart → State → Answer × Ownership.State → Outcome
of_can_manage w chart st (failure, shared) =
    (inl (generic w.ownership_error), record st { shared = shared })
of_can_manage w chart st (answer false, shared) =
    unmanaged (w.report_unmanaged chart) chart (record st { shared = shared })
of_can_manage w chart st (answer true, shared) =
    of_requeue w chart (record st { shared = shared })
      (requeue_lower_tier_challengers w.ownership st.object chart false shared)

abbrev pub of_identity : World → Error ⊎ HelmChart → State → Outcome
of_identity w (inl e) st = (inl e, st)
of_identity w (inr chart) st = of_can_manage w chart st (can_manage w chart st)

-- deploySingleChart
pub deploy_single_chart : World → HelmChart → State → Outcome
deploy_single_chart w current_chart st = of_identity w (w.instantiated current_chart) st
