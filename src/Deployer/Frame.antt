-- ===== src/Deployer/Frame.antt =====
-- The deployment of one feature does not touch the others.
use addon_controller.Common.{
  ℕ, ◌≡◌, refl, ◌==◌, ◌&&◌, Bool, true, false, if◌then◌else◌, Option, none, some, Text, text_eq,
  Bool-cases, inl, inr, ◌≢◌, Option-cases, [], ◌∙◌, List,
}
use addon_controller.Api.{
  FeatureId, helm, feature_eq, FeatureStatus, unset, provisioning, provisioned, failed,
  failed_non_retriable, removing, agent_removing, removed, blocked, status_eq, SyncMode,
  FeatureSummary, ClusterSummary,
}
use addon_controller.Features.{get, set_feature_status, set_failure_message, set_last_applied_time}
use addon_controller.Features.Lookup.{
  other-set_feature_status, other-set_failure_message, other-set_last_applied_time,
  other-reset_consecutive_failures,
}
use addon_controller.Deployer.{
  DeployerError, non_retriable, template_instantiation, health_check, other, Hash, computed, soft,
  hard, Return, done, error, Answers, summary, get_hash, update_feature_status, update_summaries,
  set_message_of, should_redeploy, max_number_of_consecutive_failure_reached, handle_deployer_error,
  max_reached_message, helm_conflict_resolved, mark_max_consecutive_failures_reached,
  message_of_result, convert_result_status,
}
use addon_controller.Deployer.Deploying.{
  queue_request, go_on, is_non_retriable, after_handling, after_result, is_up_to_date,
  after_success, without_result, with_result, proceed_deploying_feature, reset_if_changed,
  deploy_in_mode, deploy_hash, deploy_feature,
}

module _ (id : FeatureId) (id' : FeatureId) (e : (id == id') ≡ false) where
  set_message_of-frame :
      (message : Option Text) (l : List FeatureSummary)
      → get (set_message_of id message l) id' ≡ get l id'
  set_message_of-frame none l = refl
  set_message_of-frame (some message) l = other-set_failure_message id l id' e (some message)

  -- the statuses of a failure
  failing-frame :
      (mode : SyncMode) (status : FeatureStatus) (hash : Text) (err : Option Text) (now : ℕ)
      (l : List FeatureSummary)
      → get
          (set_last_applied_time id
            (some now)
            (set_message_of id err (set_feature_status mode id status hash (some true) l)))
          id'
        ≡ get l id'
  failing-frame mode status hash err now l =
      let counted = set_feature_status mode id status hash (some true) l in
      other-set_last_applied_time id (set_message_of id err counted) id' e (some now)
      ∙ set_message_of-frame err counted
      ∙ other-set_feature_status id l id' e mode status hash (some true)

  -- the statuses of a success
  succeeding-frame :
      (mode : SyncMode) (status : FeatureStatus) (hash : Text) (now : ℕ) (l : List FeatureSummary)
      → get
          (set_last_applied_time id
            (some now)
            (set_failure_message id none (set_feature_status mode id status hash (some false) l)))
          id'
        ≡ get l id'
  succeeding-frame mode status hash now l =
      let counted = set_feature_status mode id status hash (some false) l in
      other-set_last_applied_time id (set_failure_message id none counted) id' e (some now)
      ∙ other-set_failure_message id counted id' e none
      ∙ other-set_feature_status id l id' e mode status hash (some false)

  update_summaries-frame :
      (mode : SyncMode) (status : FeatureStatus) (hash : Text) (err : Option Text) (now : ℕ)
      (l : List FeatureSummary)
      → get (update_summaries mode id status hash err now l) id' ≡ get l id'
  update_summaries-frame mode provisioned hash err now l =
      succeeding-frame mode provisioned hash now l
  update_summaries-frame mode removed hash err now l = succeeding-frame mode removed hash now l
  update_summaries-frame mode failed hash err now l = failing-frame mode failed hash err now l
  update_summaries-frame mode failed_non_retriable hash err now l =
      failing-frame mode failed_non_retriable hash err now l
  update_summaries-frame mode provisioning hash err now l =
      other-set_feature_status id l id' e mode provisioning hash none
  update_summaries-frame mode agent_removing hash err now l =
      other-set_feature_status id l id' e mode agent_removing hash none
  update_summaries-frame mode removing hash err now l =
      other-set_feature_status id l id' e mode removing hash none
  update_summaries-frame mode blocked hash err now l =
      other-set_feature_status id l id' e mode blocked hash none
  update_summaries-frame mode unset hash err now l = refl

  -- what updateFeatureStatus leaves at another feature
  update_feature_status-frame :
      (status : FeatureStatus) (hash : Text) (err : Option Text) (now : ℕ) (cs : ClusterSummary)
      → summary (update_feature_status id status hash err now cs) id' ≡ summary cs id'
  unfolding update_feature_status
  update_feature_status-frame status hash err now cs =
      update_summaries-frame cs.spec.sync_mode status hash err now cs.feature_summaries

  module _ (a : Answers) (hash : Text) where
    queue_request-frame :
        (status : FeatureStatus) (cs : ClusterSummary)
        → summary (queue_request id a hash status cs).0 id' ≡ summary cs id'
    queue_request-frame status cs = elim (Option-cases a.deploy_error) [
      | inl ok ↦ rw ok refl
      | inr (message, e) ↦ rw e (update_feature_status-frame status hash (some message) a.now cs)
    ]

    go_on-frame :
        (status : FeatureStatus) (cs : ClusterSummary)
        → summary (go_on id a hash status cs).0 id' ≡ summary cs id'
    go_on-frame status cs = elim (Bool-cases (status == provisioning)) [
      | inl waits ↦ rw waits refl
      | inr queues ↦ rw queues (queue_request-frame status cs)
    ]

    limit-frame :
        (status : FeatureStatus) (r : Option Return) (cs : ClusterSummary)
        → summary
            (after_handling id a hash status (
              if max_number_of_consecutive_failure_reached cs id
              then (mark_max_consecutive_failures_reached id hash a.now cs, some done)
              else (cs, r))).0
            id'
          ≡ summary cs id'
    limit-frame status r cs = elim (Bool-cases (max_number_of_consecutive_failure_reached cs id)) [
      | inl max ↦ rw max (
          update_feature_status-frame failed_non_retriable hash (some max_reached_message) a.now cs)
      | inr below ↦ rw below (by_return r)
    ]
      where
        by_return :
            (r : Option Return)
            → summary (after_handling id a hash status (cs, r)).0 id' ≡ summary cs id'
        by_return none = go_on-frame status cs
        by_return (some _) = refl

    handled-frame :
        (status : FeatureStatus) (err : DeployerError) (cs : ClusterSummary)
        → summary
            (after_handling id a hash status (handle_deployer_error err id hash a.now cs)).0
            id'
          ≡ summary cs id'
    handled-frame status (non_retriable m) cs =
        update_feature_status-frame failed_non_retriable hash (some m) a.now cs
    handled-frame status (template_instantiation m) cs =
        update_feature_status-frame failed_non_retriable hash (some m) a.now cs
    handled-frame status (health_check m) cs = limit-frame status (some (error m)) cs
    handled-frame status (other m) cs = limit-frame status none cs

    after_result-frame :
        (status : FeatureStatus) (err : Option DeployerError) (cs : ClusterSummary)
        → summary (after_result id a hash status err cs).0 id' ≡ summary cs id'
    after_result-frame status none cs = go_on-frame status cs
    after_result-frame status (some err) cs =
        elim (Bool-cases
          (id == helm && is_non_retriable id a hash err && helm_conflict_resolved a.charts cs)) [
            | inl resolved ↦
                rw resolved (update_feature_status-frame provisioning hash none a.now cs)
            | inr stays ↦ rw stays (handled-frame status err cs)
          ]

    after_success-frame :
        (err : Option DeployerError) (cs : ClusterSummary)
        → summary (after_success id a hash false err cs).0 id' ≡ summary cs id'
    after_success-frame err cs = elim (Bool-cases (is_up_to_date id a hash (summary cs id))) [
      | inl same ↦ rw same refl
      | inr new ↦
          rw new (update_feature_status-frame provisioned hash (message_of_result err) a.now cs)
    ]

    without_result-frame :
        (cs : ClusterSummary) → summary (without_result id a hash false cs).0 id' ≡ summary cs id'
    without_result-frame cs =
        queue_request-frame provisioning (update_feature_status id provisioning hash none a.now cs)
        ∙ update_feature_status-frame provisioning hash none a.now cs

    with_result-frame :
        (status : Option FeatureStatus) (err : Option DeployerError) (cs : ClusterSummary)
        → summary (with_result id a hash false status err cs).0 id' ≡ summary cs id'
    with_result-frame none err cs = without_result-frame cs
    with_result-frame (some status) err cs = elim (Bool-cases (status == provisioned)) [
      | inl up ↦ rw up (after_success-frame err cs)
      | inr down ↦ rw down (
          after_result-frame status err
            (update_feature_status id status hash (message_of_result err) a.now cs)
          ∙ update_feature_status-frame status hash (message_of_result err) a.now cs)
    ]

    proceed-frame :
        (is_config_same : Bool) (cs : ClusterSummary)
        → summary (proceed_deploying_feature id a hash false is_config_same cs).0 id'
          ≡ summary cs id'
    unfolding proceed_deploying_feature
    proceed-frame true cs =
        with_result-frame (convert_result_status a.result.status) a.result.err cs
    proceed-frame false cs = without_result-frame cs

    deploy_hash-frame :
        (cs : ClusterSummary)
        → a.pull_mode ≢ some true
        → summary (deploy_hash id a hash cs).0 id' ≡ summary cs id'
    deploy_hash-frame cs push = elim (Bool-cases (get_hash cs id == hash)) [
      | inl same ↦ rw same (by_mode true cs a.pull_mode push)
      | inr changed ↦ rw changed (
          by_mode false (reset_if_changed id a false cs) a.pull_mode push
          ∙ other-reset_consecutive_failures id cs.feature_summaries id' e)
    ]
      where
        by_mode :
            (same : Bool) (cs : ClusterSummary) (mode : Option Bool)
            → mode ≢ some true
            → summary (deploy_in_mode id a mode same hash cs).0 id' ≡ summary cs id'
        by_mode same cs none n = refl
        by_mode same cs (some true) n = absurd (n refl)
        by_mode same cs (some false) n = elim (Bool-cases (should_redeploy cs id same)) [
          | inl again ↦ rw again (proceed-frame same cs)
          | inr settled ↦ rw settled refl
        ]

  -- Outside pull mode, the deployment of a feature leaves the summaries of the other features as they
  -- are, on every path through deployFeature.
  pub deploy_feature-frame :
      (a : Answers) (cs : ClusterSummary)
      → a.pull_mode ≢ some true
      → summary (deploy_feature id a cs).0 id' ≡ summary cs id'
  unfolding deploy_feature
  deploy_feature-frame a cs push = elim (Bool-cases a.cleanup_running) [
    | inl wait ↦ rw wait refl
    | inr go ↦ rw go (by_hash a.current_hash)
  ]
    where
      by_hash :
          (h : Hash)
          → summary
              (elim h as (λ h'. ClusterSummary × Return) [
                | computed hash ↦ deploy_hash id a hash cs
                | soft hash ↦ deploy_hash id a hash cs
                | hard message ↦
                    (update_feature_status id failed [] (some message) a.now cs, error message)
              ]).0
              id'
            ≡ summary cs id'
      by_hash (computed hash) = deploy_hash-frame a hash cs push
      by_hash (soft hash) = deploy_hash-frame a hash cs push
      by_hash (hard message) = update_feature_status-frame failed [] (some message) a.now cs
