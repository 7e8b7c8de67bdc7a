-- ===== src/Deployer.antt =====
-- controllers/clustersummary_deployer.go: the handlers that deploy a feature and keep its status. What
-- other components answer during one reconciliation is a record of answers; logs, events and metrics
-- are left out.
pub mod Deploying
pub mod Frame
pub mod Counting
pub mod Failures
pub mod Settled
pub mod Undeploying
pub mod Removal
mod Examples
use addon_controller.Common.{
  ℕ, ◌≡◌, ◌==◌, ◌&&◌, ◌||◌, not, leb, Bool, true, false, if◌then◌else◌, List, [], ◌∷◌, Option, none,
  some, Text, text, text_eq, is_some, select, all,
}
use addon_controller.Api.{
  SyncMode, dry_run, FeatureId, helm, feature_eq, FeatureStatus, unset, provisioning, provisioned,
  failed, failed_non_retriable, removing, agent_removing, removed, blocked, status_eq, install,
  HelmChart, HelmChartStatus, managing, conflict, HelmChartSummary, FeatureSummary, ClusterSummary,
}
use addon_controller.ChartManager
use addon_controller.ChartManager.{can_manage_chart}
use addon_controller.Provisioned.{is_empty}
use addon_controller.Features.{
  get, set_feature_status, set_failure_message, set_last_applied_time, reset_consecutive_failures,
}

-- the error of a deployer, by the first of the types that handleDeployerError asks for
pub data DeployerError : Type 0 where
  non_retriable template_instantiation health_check other : Text → DeployerError

abbrev pub message_of : DeployerError → Text
message_of (non_retriable m) = m
message_of (template_instantiation m) = m
message_of (health_check m) = m
message_of (other m) = m

abbrev pub message_of_result : Option DeployerError → Option Text
message_of_result none = none
message_of_result (some e) = some (message_of e)

-- deployer.Result of libsveltos
pub data ResultStatus : Type 0 where
  deployed in_progress result_failed result_removed unavailable : ResultStatus

pub record Result : Type 0 where
  pub status : ResultStatus
  pub err : Option DeployerError

-- convertResultStatus
abbrev pub convert_result_status : ResultStatus → Option FeatureStatus
convert_result_status deployed = some provisioned
convert_result_status result_failed = some failed
convert_result_status in_progress = some provisioning
convert_result_status result_removed = some removed
convert_result_status unavailable = none

-- the hash of the current configuration: `soft` with an error that is not retriable or "not found"
pub data Hash : Type 0 where
  computed soft : Text → Hash
  hard : Text → Hash

-- what deployFeature and its callees return; `in_pull_mode` is what the handler of pull mode does
pub data Return : Type 0 where
  done queued still_provisioning conflict_resolved cleanup_in_progress pull_mode_unknown
        in_pull_mode :
      Return
  error : Text → Return

-- the answers of other components to one reconciliation
pub record Answers : Type 0 where
  pub now : ℕ
  pub cleanup_running : Bool
  pub current_hash : Hash
  pub pull_mode : Option Bool
  pub being_provisioned : Bool
  pub result : Result
  pub charts : Option ChartManager.Instance
  pub deploy_error : Option Text
  pub pull : ClusterSummary → ClusterSummary × Return

abbrev pub summary : ClusterSummary → FeatureId → Option FeatureSummary
summary cs id = get cs.feature_summaries id

abbrev pub has_status : FeatureStatus → Option FeatureSummary → Bool
has_status s none = false
has_status s (some fs) = fs.status == s

abbrev pub is_feature_deployed : ClusterSummary → FeatureId → Bool
is_feature_deployed cs id = has_status provisioned (summary cs id)

abbrev pub is_feature_failed_with_non_retriable_error : ClusterSummary → FeatureId → Bool
is_feature_failed_with_non_retriable_error cs id = has_status failed_non_retriable (summary cs id)

abbrev hash_in : Option FeatureSummary → Text
hash_in none = []
hash_in (some fs) = fs.hash

abbrev pub get_hash : ClusterSummary → FeatureId → Text
get_hash cs id = hash_in (summary cs id)

abbrev pub failures_in : Option FeatureSummary → ℕ
failures_in none = 0
failures_in (some fs) = fs.consecutive_failures

abbrev pub get_consecutive_failures : ClusterSummary → FeatureId → ℕ
get_consecutive_failures cs id = failures_in (summary cs id)

abbrev pub set_message_of : FeatureId → Option Text → List FeatureSummary → List FeatureSummary
set_message_of id none l = l
set_message_of id (some message) l = set_failure_message id (some message) l

-- the switch of updateFeatureStatus
abbrev pub update_summaries :
    SyncMode
    → FeatureId
    → FeatureStatus
    → Text
    → Option Text
    → ℕ
    → List FeatureSummary
    → List FeatureSummary
update_summaries mode id provisioned hash err now l =
    set_last_applied_time id (some now)
      (set_failure_message id none (set_feature_status mode id provisioned hash (some false) l))
update_summaries mode id removed hash err now l =
    set_last_applied_time id (some now)
      (set_failure_message id none (set_feature_status mode id removed hash (some false) l))
update_summaries mode id failed hash err now l =
    set_last_applied_time id (some now)
      (set_message_of id err (set_feature_status mode id failed hash (some true) l))
update_summaries mode id failed_non_retriable hash err now l =
    set_last_applied_time id (some now)
      (set_message_of id err (set_feature_status mode id failed_non_retriable hash (some true) l))
update_summaries mode id provisioning hash err now l =
    set_feature_status mode id provisioning hash none l
update_summaries mode id agent_removing hash err now l =
    set_feature_status mode id agent_removing hash none l
update_summaries mode id removing hash err now l = set_feature_status mode id removing hash none l
update_summaries mode id blocked hash err now l = set_feature_status mode id blocked hash none l
update_summaries mode id unset hash err now l = l

-- updateFeatureStatus, with a status that is not nil
unfoldable pub update_feature_status :
    FeatureId → FeatureStatus → Text → Option Text → ℕ → ClusterSummary → ClusterSummary
update_feature_status id status hash err now cs = record cs {
  feature_summaries =
      update_summaries cs.spec.sync_mode id status hash err now cs.feature_summaries;
}

abbrev pub is_dry_run_sync : ClusterSummary → Bool
is_dry_run_sync cs = ChartManager.is_dry_run cs.spec.sync_mode

pub should_redeploy : ClusterSummary → FeatureId → Bool → Bool
should_redeploy cs id is_config_same =
    let deployed = is_feature_deployed cs id in
    let non_retriable =
      if not deployed then is_feature_failed_with_non_retriable_error cs id else false in
    if is_dry_run_sync cs
    then true
    else if non_retriable && is_config_same
    then false
    else if deployed && is_config_same
    then false
    else true

abbrev is_conflict : HelmChartSummary → Bool
is_conflict s = elim s.status [ conflict ↦ true | managing ↦ false ]

-- the chart that helmConflictResolved makes of a summary
abbrev chart_of : HelmChartSummary → HelmChart
chart_of s = record {
  chart_name = [];
  chart_version = [];
  release_namespace = s.release_namespace;
  release_name = s.release_name;
  helm_chart_action = install;
}

abbrev conflicted : ClusterSummary → List HelmChartSummary
conflicted cs = select is_conflict cs.helm_release_summaries

pub helm_conflict_resolved : Option ChartManager.Instance → ClusterSummary → Bool
helm_conflict_resolved charts cs = if is_empty (conflicted cs) then false else elim charts [
  | none ↦ false
  | some m ↦ all (λ s. can_manage_chart m cs (chart_of s)) (conflicted cs)
]

abbrev reached : Option ℕ → ℕ → Bool
reached none n = false
reached (some max) n = leb max n

pub max_number_of_consecutive_failure_reached : ClusterSummary → FeatureId → Bool
max_number_of_consecutive_failure_reached cs id =
    reached cs.spec.max_consecutive_failures (get_consecutive_failures cs id)

abbrev pub max_reached_message : Text
max_reached_message = text "the maximum number of consecutive errors has been reached"

abbrev pub mark_max_consecutive_failures_reached :
    FeatureId → Text → ℕ → ClusterSummary → ClusterSummary
mark_max_consecutive_failures_reached id hash now cs =
    update_feature_status id failed_non_retriable hash (some max_reached_message) now cs

-- handleDeployerError: a result is returned (`some`), or the caller goes on
abbrev pub handle_deployer_error :
    DeployerError → FeatureId → Text → ℕ → ClusterSummary → ClusterSummary × Option Return
handle_deployer_error (non_retriable m) id hash now cs =
    (update_feature_status id failed_non_retriable hash (some m) now cs, some done)
handle_deployer_error (template_instantiation m) id hash now cs =
    (update_feature_status id failed_non_retriable hash (some m) now cs, some done)
handle_deployer_error (health_check m) id hash now cs =
    if max_number_of_consecutive_failure_reached cs id
    then (mark_max_consecutive_failures_reached id hash now cs, some done)
    else (cs, some (error m))
handle_deployer_error (other m) id hash now cs =
    if max_number_of_consecutive_failure_reached cs id
    then (mark_max_consecutive_failures_reached id hash now cs, some done)
    else (cs, none)
