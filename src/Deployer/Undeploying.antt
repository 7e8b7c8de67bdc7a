-- ===== src/Deployer/Undeploying.antt =====
-- undeployFeature and processUndeployResult. The handler of pull mode is one of the answers; times are
-- counted in seconds, and a hash that is nil is the empty text.
use addon_controller.Common.{
  ℕ, ◌+◌, ◌==◌, ◌&&◌, Bool, true, false, if◌then◌else◌, [], Option, none, some, Text,
}
use addon_controller.Api.{
  FeatureId, FeatureStatus, provisioning, removing, agent_removing, removed, status_eq,
  ClusterSummary,
}
use addon_controller.Features.{set_failure_message}
use addon_controller.Deployer.{
  ResultStatus, convert_result_status, summary, has_status, update_feature_status,
}

-- the error of an undeploy, by the first test of processUndeployResult that it passes
pub data UndeployError : Type 0 where
  forbidden hand_over wait_for_processing not_retriable template other : Text → UndeployError

abbrev pub text_of : UndeployError → Text
text_of (forbidden m) = m
text_of (hand_over m) = m
text_of (wait_for_processing m) = m
text_of (not_retriable m) = m
text_of (template m) = m
text_of (other m) = m

abbrev pub text_of_result : Option UndeployError → Option Text
text_of_result none = none
text_of_result (some e) = some (text_of e)

pub data Return : Type 0 where
  done deploying_in_progress pull_mode_unknown still_being_removed cleanup_queued : Return
  error : Text → Return

-- the answers of other components to one call
pub record Answers : Type 0 where
  pub now : ℕ
  pub deploy_running : Bool
  pub pull_mode : Option Bool
  pub tracking_error : Option Text
  pub status : ResultStatus
  pub err : Option UndeployError
  pub being_removed : Bool
  pub deploy_error : Option Text
  pub pull : ClusterSummary → ClusterSummary × Return

-- isFeatureRemoved and isFeatureWaitingForAgentRemoval
abbrev pub is_feature_removed : ClusterSummary → FeatureId → Bool
is_feature_removed cs id = has_status removed (summary cs id)

abbrev pub is_feature_waiting_for_agent_removal : ClusterSummary → FeatureId → Bool
is_feature_waiting_for_agent_removal cs id = has_status agent_removing (summary cs id)

-- markUndeployFailureRetriable
unfoldable pub mark_undeploy_failure_retriable :
    FeatureId → Text → ℕ → ClusterSummary → ClusterSummary
mark_undeploy_failure_retriable id message now cs =
    let marked = update_feature_status id removing [] (some message) now cs in
    record marked {
      feature_summaries = set_failure_message id (some message) marked.feature_summaries;
    }

module _ (id : FeatureId) (a : Answers) where
  -- the call of Deploy at the end
  abbrev pub queue_cleanup : FeatureStatus → ClusterSummary → ClusterSummary × Return
  queue_cleanup status cs = elim a.deploy_error [
    | none ↦ (cs, cleanup_queued)
    | some message ↦ (update_feature_status id status [] (some message) a.now cs, error message)
  ]

  -- behind the tests of the error
  abbrev pub after_errors :
      Bool → FeatureStatus → Option Text → ClusterSummary → ClusterSummary × Return
  after_errors is_pull_mode status err cs =
      if status == removed
      then (if is_pull_mode
          then a.pull cs
          else (update_feature_status id removed [] none a.now cs, done))
      else queue_cleanup status (update_feature_status id status [] err a.now cs)

  -- a result whose status is not Provisioning
  abbrev pub after_undeploy :
      Bool → FeatureStatus → Option UndeployError → ClusterSummary → ClusterSummary × Return
  after_undeploy is_pull_mode status none cs = after_errors is_pull_mode status none cs
  after_undeploy is_pull_mode status (some (forbidden m)) cs =
      (mark_undeploy_failure_retriable id m a.now cs, done)
  after_undeploy is_pull_mode status (some (hand_over m)) cs =
      (record cs { next_reconcile_time = some (a.now + 60) }, error m)
  after_undeploy is_pull_mode status (some (wait_for_processing m)) cs = (cs, error m)
  after_undeploy is_pull_mode status (some (not_retriable m)) cs =
      (mark_undeploy_failure_retriable id m a.now cs, error m)
  after_undeploy is_pull_mode status (some (template m)) cs =
      (mark_undeploy_failure_retriable id m a.now cs, error m)
  after_undeploy is_pull_mode status (some (other m)) cs =
      after_errors is_pull_mode status (some m) cs

  abbrev pub by_status : Bool → Option FeatureStatus → ClusterSummary → ClusterSummary × Return
  by_status is_pull_mode none cs =
      if is_pull_mode && is_feature_waiting_for_agent_removal cs id && a.being_removed
      then a.pull cs
      else queue_cleanup removing (update_feature_status id removing [] none a.now cs)
  by_status is_pull_mode (some status) cs =
      if status == provisioning
      then (
        update_feature_status id removing [] (text_of_result a.err) a.now cs,
        still_being_removed,
      )
      else after_undeploy is_pull_mode status a.err cs

  unfoldable pub process_undeploy_result : Bool → ClusterSummary → ClusterSummary × Return
  unfolding mark_undeploy_failure_retriable
  process_undeploy_result is_pull_mode cs =
      by_status is_pull_mode (convert_result_status a.status) cs

  abbrev pub undeploy_in_mode : Option Bool → ClusterSummary → ClusterSummary × Return
  undeploy_in_mode none cs = (cs, pull_mode_unknown)
  undeploy_in_mode (some false) cs = process_undeploy_result false cs
  undeploy_in_mode (some true) cs = elim a.tracking_error [
    | some message ↦ (cs, error message)
    | none ↦ process_undeploy_result true cs
  ]

  unfoldable pub undeploy_feature : ClusterSummary → ClusterSummary × Return
  unfolding process_undeploy_result
  undeploy_feature cs =
      if a.deploy_running
      then (cs, deploying_in_progress)
      else if is_feature_removed cs id
      then (cs, done)
      else undeploy_in_mode a.pull_mode cs
