-- ===== src/Deployer/Deploying.antt =====
-- deployFeature and proceedDeployingFeature. The handler of pull mode is one of the answers.
use addon_controller.Common.{
  ◌==◌, ◌&&◌, Bool, true, false, if◌then◌else◌, [], Option, none, some, Text, text_eq,
}
use addon_controller.Api.{
  FeatureId, helm, feature_eq, FeatureStatus, provisioning, provisioned, failed, status_eq,
  FeatureSummary, ClusterSummary,
}
use addon_controller.Features.{reset_consecutive_failures}
use addon_controller.Deployer.{
  DeployerError, non_retriable, template_instantiation, health_check, other, message_of_result,
  computed, soft, hard, Return, done, queued, still_provisioning, conflict_resolved,
  cleanup_in_progress, pull_mode_unknown, error, Answers, convert_result_status, summary, get_hash,
  update_feature_status, should_redeploy, helm_conflict_resolved, handle_deployer_error,
}

module _ (id : FeatureId) (a : Answers) (hash : Text) where
  -- the call of Deploy at the end
  abbrev pub queue_request : FeatureStatus → ClusterSummary → ClusterSummary × Return
  queue_request status cs = elim a.deploy_error [
    | none ↦ (cs, queued)
    | some message ↦ (update_feature_status id status hash (some message) a.now cs, error message)
  ]

  -- an error is left behind, or there was none
  abbrev pub go_on : FeatureStatus → ClusterSummary → ClusterSummary × Return
  go_on status cs =
      if status == provisioning then (cs, still_provisioning) else queue_request status cs

  abbrev pub is_non_retriable : DeployerError → Bool
  is_non_retriable (non_retriable m) = true
  is_non_retriable (template_instantiation m) = false
  is_non_retriable (health_check m) = false
  is_non_retriable (other m) = false

  abbrev pub after_handling :
      FeatureStatus → ClusterSummary × Option Return → ClusterSummary × Return
  after_handling status (cs, some r) = (cs, r)
  after_handling status (cs, none) = go_on status cs

  -- a result that is not Provisioned, whose status is set already
  abbrev pub after_result :
      FeatureStatus → Option DeployerError → ClusterSummary → ClusterSummary × Return
  after_result status none cs = go_on status cs
  after_result status (some e) cs =
      if id == helm && is_non_retriable e && helm_conflict_resolved a.charts cs
      then (update_feature_status id provisioning hash none a.now cs, conflict_resolved)
      else after_handling status (handle_deployer_error e id hash a.now cs)

  abbrev pub is_up_to_date : Option FeatureSummary → Bool
  is_up_to_date none = false
  is_up_to_date (some fs) = fs.status == provisioned && fs.hash == hash

  -- a result that is Provisioned
  abbrev pub after_success : Bool → Option DeployerError → ClusterSummary → ClusterSummary × Return
  after_success is_pull_mode err cs =
      if is_pull_mode
      then a.pull (update_feature_status id provisioning hash (message_of_result err) a.now cs)
      else if is_up_to_date (summary cs id)
      then (cs, done)
      else (update_feature_status id provisioned hash (message_of_result err) a.now cs, done)

  abbrev pub without_result : Bool → ClusterSummary → ClusterSummary × Return
  without_result is_pull_mode cs =
      if is_pull_mode && a.being_provisioned
      then a.pull cs
      else queue_request provisioning (update_feature_status id provisioning hash none a.now cs)

  abbrev pub with_result :
      Bool → Option FeatureStatus → Option DeployerError → ClusterSummary → ClusterSummary × Return
  with_result is_pull_mode none err cs = without_result is_pull_mode cs
  with_result is_pull_mode (some status) err cs =
      if status == provisioned
      then after_success is_pull_mode err cs
      else after_result status err
          (update_feature_status id status hash (message_of_result err) a.now cs)

  unfoldable pub proceed_deploying_feature : Bool → Bool → ClusterSummary → ClusterSummary × Return
  proceed_deploying_feature is_pull_mode is_config_same cs =
      if is_config_same
      then with_result is_pull_mode (convert_result_status a.result.status) a.result.err cs
      else without_result is_pull_mode cs

module _ (id : FeatureId) (a : Answers) where
  abbrev pub reset_if_changed : Bool → ClusterSummary → ClusterSummary
  reset_if_changed is_config_same cs =
      if is_config_same
      then cs
      else record cs { feature_summaries = reset_consecutive_failures id cs.feature_summaries }

  abbrev pub deploy_in_mode : Option Bool → Bool → Text → ClusterSummary → ClusterSummary × Return
  deploy_in_mode none is_config_same hash cs = (cs, pull_mode_unknown)
  deploy_in_mode (some is_pull_mode) is_config_same hash cs =
      if should_redeploy cs id is_config_same
      then proceed_deploying_feature id a hash is_pull_mode is_config_same cs
      else (cs, done)

  -- with a hash of the current configuration; none is an empty one
  abbrev pub deploy_hash : Text → ClusterSummary → ClusterSummary × Return
  deploy_hash hash cs =
      let is_config_same = get_hash cs id == hash in
      deploy_in_mode a.pull_mode is_config_same hash (reset_if_changed is_config_same cs)

  unfoldable pub deploy_feature : ClusterSummary → ClusterSummary × Return
  deploy_feature cs = if a.cleanup_running then (cs, cleanup_in_progress) else elim a.current_hash [
    | computed hash ↦ deploy_hash hash cs
    | soft hash ↦ deploy_hash hash cs
    | hard message ↦ (update_feature_status id failed [] (some message) a.now cs, error message)
  ]
