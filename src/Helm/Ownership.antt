-- ===== src/Helm/Ownership.antt =====
-- controllers/handlers_helm.go and controllers/conflicts.go: which ClusterSummary owns a chart. The state is
-- the chart manager beside the ClusterSummaries of one namespace; the deployer's workers, the failures of
-- the API server and the order of the tiers (libsveltos) are parameters.
pub mod Election
pub mod Takeover
use addon_controller.Common.{
  ℕ, ◌≡◌, Bool, true, false, not, ◌==◌, ◌&&◌, ◌||◌, if◌then◌else◌, ltb, leb, List, [], ◌∷◌, Option,
  none, some, Text, text_eq, length, lookup, insert,
}
use addon_controller.Api.{helm, provisioning, HelmChart, HelmChartSummary, ClusterSummary}
use addon_controller.ChartManager.{
  Instance, is_dry_run, registered, can_manage_chart, get_manager_for_chart, set_manager_for_chart,
  unregister_cluster_summary_for_chart, summary_cluster_key, chart_key,
}
use addon_controller.Features.{set_feature_status}
use addon_controller.Transition
use addon_controller.Transition.{is_chart_transitioning_from}
use addon_controller.RollingUpdate.{Lookup, found, not_found, failed}
use addon_controller.Helm.{is_for}

-- the chart manager, and the stored ClusterSummaries by name
pub record State : Type 0 where
  pub charts : Instance
  pub stored : List (Text × ClusterSummary)

-- what the other parts answer: IsInProgress of the deployer, whether a read or an update of the status
-- fails, and HasHigherOwnershipPriority of libsveltos (the tier in charge first)
pub record World : Type 0 where
  pub in_progress : Text → Bool
  pub get_fails : Text → Bool
  pub update_fails : Text → Bool
  pub has_higher_ownership_priority : ℕ → ℕ → Bool
  pub transition : Transition.World

abbrev of_option : Option ClusterSummary → Lookup ClusterSummary
of_option none = not_found
of_option (some cs) = found cs

-- c.Get
abbrev pub get : World → Text → State → Lookup ClusterSummary
get w name st = if w.get_fails name then failed else of_option (lookup name st.stored)

-- c.Status().Update; the flag is false on an error
unfoldable pub update : World → ClusterSummary → State → Bool × State
update w cs st =
    if w.update_fails cs.name
    then (false, st)
    else (true, record st { stored = insert cs.name cs st.stored })

abbrev last_summary : HelmChartSummary → List HelmChartSummary → HelmChartSummary
last_summary s [] = s
last_summary s (t ∷ rest) = last_summary t rest

abbrev all_but_last : HelmChartSummary → List HelmChartSummary → List HelmChartSummary
all_but_last s [] = []
all_but_last s (t ∷ rest) = s ∷ all_but_last t rest

-- the last summary takes the place of the one that goes
abbrev fill : List HelmChartSummary → List HelmChartSummary
fill [] = []
fill (s ∷ rest) = last_summary s rest ∷ all_but_last s rest

-- the loop of resetHelmReleaseSummaries
pub remove_release : HelmChart → List HelmChartSummary → List HelmChartSummary
remove_release chart [] = []
remove_release chart (s ∷ rest) =
    let later = s ∷ remove_release chart rest in if is_for chart s then fill rest else later

-- resetHelmReleaseSummaries: the ClusterSummary with the entry removed
pub reset_helm_release_summaries : HelmChart → ClusterSummary → ClusterSummary
unfolding remove_release
reset_helm_release_summaries chart cs = record cs {
  helm_release_summaries = remove_release chart cs.helm_release_summaries;
}

-- what requeueClusterSummary stores: the feature is provisioned again, and its hash is forgotten
pub reset_feature : ClusterSummary → ClusterSummary
reset_feature cs = record cs {
  feature_summaries =
      set_feature_status cs.spec.sync_mode helm provisioning [] none cs.feature_summaries;
}

-- requeueClusterSummary
pub requeue_cluster_summary : World → ClusterSummary → State → Bool × State
unfolding reset_feature update
requeue_cluster_summary w cs st =
    if w.in_progress cs.name then (false, st) else update w (reset_feature cs) st

-- the answer of a function that may fail
pub data Answer : Type 0 where
  failure : Answer
  answer : Bool → Answer

abbrev pub takes_over : World → ClusterSummary → ClusterSummary → Bool
takes_over w current claiming =
    w.has_higher_ownership_priority current.spec.tier claiming.spec.tier
    || is_chart_transitioning_from w.transition current claiming

-- the steps of a takeover, each of which may fail: the status of the present manager is reset, it is
-- requeued, and the claiming ClusterSummary becomes the manager
abbrev pub requeue_and_set :
    World → ClusterSummary → ClusterSummary → HelmChart → Bool × State → Answer × State
requeue_and_set w current claiming chart (false, st) = (failure, st)
requeue_and_set w current claiming chart (true, st) =
    let (done, next) = requeue_cluster_summary w current st in
    if done
    then (answer true, record next { charts = set_manager_for_chart next.charts claiming chart })
    else (failure, next)

pub take_over : World → ClusterSummary → ClusterSummary → HelmChart → State → Answer × State
unfolding reset_helm_release_summaries requeue_cluster_summary update
take_over w current claiming chart st =
    let reset = reset_helm_release_summaries chart current in
    requeue_and_set w reset claiming chart (update w reset st)

abbrev pub decide : World → ClusterSummary → ClusterSummary → HelmChart → State → Answer × State
decide w current claiming chart st =
    if takes_over w current claiming
    then if is_dry_run claiming.spec.sync_mode
      then (answer true, st)
      else take_over w current claiming chart st
    else (answer false, st)

-- GetManagerForChart and c.Get of the manager; both may fail
abbrev pub manager_of : World → ClusterSummary → HelmChart → State → Option ClusterSummary
manager_of w claiming chart st =
    elim (get_manager_for_chart st.charts (summary_cluster_key claiming) (chart_key chart)) [
      | none ↦ none
      | some name ↦ elim (get w name st) [ found cs ↦ some cs | _ ↦ none ]
    ]

-- determineChartOwnership
unfoldable pub determine_chart_ownership :
    World → ClusterSummary → HelmChart → State → Answer × State
unfolding take_over
determine_chart_ownership w claiming chart st =
    if not (can_manage_chart st.charts claiming chart)
    then elim (manager_of w claiming chart st) [
      | none ↦ (failure, st)
      | some current ↦ decide w current claiming chart st
    ]
    else (answer true, st)

-- requeueAllOtherClusterSummaries, in the order of the names; a ClusterSummary that is gone is skipped
pub requeue_all_other_cluster_summaries : World → List Text → State → Bool × State
unfolding requeue_cluster_summary
requeue_all_other_cluster_summaries w [] st = (true, st)
requeue_all_other_cluster_summaries w (name ∷ rest) st = elim (get w name st) [
  | failed ↦ (false, st)
  | not_found ↦ requeue_all_other_cluster_summaries w rest st
  | found cs ↦
      let (done, next) = requeue_cluster_summary w cs st in
      let others = requeue_all_other_cluster_summaries w rest next in
      if done then others else (false, next)
]

-- the role of a challenger that was requeued, where the ownership is transferred
abbrev hand_over : Bool → ClusterSummary → HelmChart → State → State
hand_over transfer challenger chart st =
    if transfer then record st { charts = set_manager_for_chart st.charts challenger chart } else st

-- the loop of requeueLowerTierChallengers, whose flag says that a challenger was requeued before. A
-- challenger whose requeue fails is passed over; transferOwnership is true at the end of a deployment in
-- pull mode only.
pub requeue_challengers :
    World → ClusterSummary → HelmChart → Bool → Bool → List Text → State → Answer × State
unfolding requeue_cluster_summary
requeue_challengers w manager chart transfer requeued [] st = (answer requeued, st)
requeue_challengers w manager chart transfer requeued (name ∷ rest) st =
    let passed = requeue_challengers w manager chart transfer requeued rest st in
    if name == manager.name then passed else elim (get w name st) [
      | failed ↦ (failure, st)
      | not_found ↦ passed
      | found challenger ↦
          let (done, next) = requeue_cluster_summary w challenger st in
          let moved =
            requeue_challengers w manager chart transfer true rest
              (hand_over transfer challenger chart next) in
          let kept = requeue_challengers w manager chart transfer requeued rest next in
          let tried = if done then moved else kept in
          if w.has_higher_ownership_priority manager.spec.tier challenger.spec.tier
          then tried
          else passed
    ]

-- requeueLowerTierChallengers
unfoldable pub requeue_lower_tier_challengers :
    World → ClusterSummary → HelmChart → Bool → State → Answer × State
unfolding requeue_challengers
requeue_lower_tier_challengers w manager chart transfer st =
    requeue_challengers w manager chart transfer false
      (registered st.charts (summary_cluster_key manager) (chart_key chart)) st
