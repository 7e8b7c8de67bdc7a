-- ===== src/Deployer/Removal.antt =====
-- A feature is reported as removed only after the deployer has removed it.
use addon_controller.Common.{
  ℕ, ◌≡◌, refl, ◌≢◌, ◌==◌, Bool, true, false, List, [], Option, none, some, Text, arith, ap, ◌∙◌,
  Bool-cases, Option-cases, inl, inr,
}
use addon_controller.Api.{
  FeatureId, FeatureStatus, unset, provisioning, provisioned, failed, failed_non_retriable,
  removing, agent_removing, removed, blocked, status_eq, status_dec, SyncMode, FeatureSummary,
  ClusterSummary,
}
use addon_controller.Features.{
  get, with_status, new_status, or_new, set_feature_status, set_failure_message,
  set_last_applied_time, blank,
}
use addon_controller.Features.Lookup.{
  get-set_feature_status, get-set_failure_message, get-set_last_applied_time,
}
use addon_controller.Deployer.{
  ResultStatus, deployed, in_progress, result_failed, result_removed, unavailable,
  convert_result_status, summary, has_status, update_feature_status, update_summaries,
  set_message_of,
}
use addon_controller.Deployer.Undeploying.{
  UndeployError, forbidden, hand_over, wait_for_processing, not_retriable, template, other, Answers,
  text_of_result, is_feature_removed, mark_undeploy_failure_retriable, queue_cleanup, after_errors,
  after_undeploy, by_status, process_undeploy_result, undeploy_in_mode, undeploy_feature,
}

-- a setter of another field keeps the status that the search finds
or_new-status :
    (s : FeatureStatus) (f : FeatureSummary → FeatureSummary) (new : FeatureSummary)
    (o : Option FeatureSummary)
    → ((fs : FeatureSummary) → (f fs).status ≡ fs.status)
    → new.status ≡ unset
    → s ≢ unset
    → has_status s (some (or_new f new o)) ≡ has_status s o
or_new-status s f new none h k n = ground (arith, k, n)
or_new-status s f new (some fs) h k n = ap (λ t. t == s) (h fs)

module _ (id : FeatureId) (s : FeatureStatus) (n : s ≢ unset) where
  message-status :
      (message : Option Text) (l : List FeatureSummary)
      → has_status s (get (set_failure_message id message l) id) ≡ has_status s (get l id)
  message-status message l =
      ap (has_status s) (get-set_failure_message id l message)
      ∙ or_new-status s (λ fs. record fs { failure_message = message })
          (record (blank id) { failure_message = message }) (get l id) (λ fs. refl) refl n

  time-status :
      (time : Option ℕ) (l : List FeatureSummary)
      → has_status s (get (set_last_applied_time id time l) id) ≡ has_status s (get l id)
  time-status time l =
      ap (has_status s) (get-set_last_applied_time id l time)
      ∙ or_new-status s (λ fs. record fs { last_applied_time = time })
          (record (blank id) { last_applied_time = time }) (get l id) (λ fs. refl) refl n

  set_message_of-status :
      (message : Option Text) (l : List FeatureSummary)
      → has_status s (get (set_message_of id message l) id) ≡ has_status s (get l id)
  set_message_of-status none l = refl
  set_message_of-status (some message) l = message-status (some message) l

  set-status :
      (mode : SyncMode) (t : FeatureStatus) (hash : Text) (counts : Option Bool)
      (l : List FeatureSummary)
      → has_status s (get (set_feature_status mode id t hash counts l) id) ≡ (t == s)
  set-status mode t hash counts l =
      ap (has_status s) (get-set_feature_status id l mode t hash counts) ∙ of_new (get l id)
    where
      of_new :
          (o : Option FeatureSummary)
          → has_status s
              (some (or_new (with_status mode t hash counts) (new_status id t hash counts) o))
            ≡ (t == s)
      of_new none = refl
      of_new (some fs) = refl

  update_summaries-status :
      (mode : SyncMode) (t : FeatureStatus) (hash : Text) (err : Option Text) (now : ℕ)
      (l : List FeatureSummary)
      → t ≢ unset
      → has_status s (get (update_summaries mode id t hash err now l) id) ≡ (t == s)
  update_summaries-status mode provisioned hash err now l m =
      let set = set_feature_status mode id provisioned hash (some false) l in
      time-status (some now) (set_failure_message id none set)
      ∙ message-status none set
      ∙ set-status mode provisioned hash (some false) l
  update_summaries-status mode removed hash err now l m =
      let set = set_feature_status mode id removed hash (some false) l in
      time-status (some now) (set_failure_message id none set)
      ∙ message-status none set
      ∙ set-status mode removed hash (some false) l
  update_summaries-status mode failed hash err now l m =
      let set = set_feature_status mode id failed hash (some true) l in
      time-status (some now) (set_message_of id err set)
      ∙ set_message_of-status err set
      ∙ set-status mode failed hash (some true) l
  update_summaries-status mode failed_non_retriable hash err now l m =
      let set = set_feature_status mode id failed_non_retriable hash (some true) l in
      time-status (some now) (set_message_of id err set)
      ∙ set_message_of-status err set
      ∙ set-status mode failed_non_retriable hash (some true) l
  update_summaries-status mode provisioning hash err now l m =
      set-status mode provisioning hash none l
  update_summaries-status mode agent_removing hash err now l m =
      set-status mode agent_removing hash none l
  update_summaries-status mode removing hash err now l m = set-status mode removing hash none l
  update_summaries-status mode blocked hash err now l m = set-status mode blocked hash none l
  update_summaries-status mode unset hash err now l m = absurd (m refl)

  update_feature_status-status :
      (t : FeatureStatus) (hash : Text) (err : Option Text) (now : ℕ) (cs : ClusterSummary)
      → t ≢ unset
      → has_status s (summary (update_feature_status id t hash err now cs) id) ≡ (t == s)
  unfolding update_feature_status
  update_feature_status-status t hash err now cs m =
      update_summaries-status cs.spec.sync_mode t hash err now cs.feature_summaries m

no : {b : Bool} → b ≡ false → b ≡ true → ⊥
no h q = cc

module _ (id : FeatureId) (a : Answers) (cs : ClusterSummary) where
  updated-status :
      (t : FeatureStatus) (err : Option Text) (c : ClusterSummary)
      → t ≢ unset
      → (t == removed) ≡ false
      → is_feature_removed (update_feature_status id t [] err a.now c) id ≡ false
  unfolding status_dec
  updated-status t err c m e =
      update_feature_status-status id removed (λ q. cc) t [] err a.now c m ∙ e

  marked-status :
      (message : Text)
      → is_feature_removed (mark_undeploy_failure_retriable id message a.now cs) id ≡ false
  unfolding mark_undeploy_failure_retriable status_dec
  marked-status message =
      message-status id removed (λ q. cc) (some message)
        (update_feature_status id removing [] (some message) a.now cs).feature_summaries
      ∙ updated-status removing (some message) cs (λ q. cc) refl

  queue-status :
      (t : FeatureStatus) (err : Option Text)
      → t ≢ unset
      → (t == removed) ≡ false
      → is_feature_removed (queue_cleanup id a t (update_feature_status id t [] err a.now cs)).0 id
        ≡ false
  queue-status t err m e = elim (Option-cases a.deploy_error) [
    | inl ok ↦ rw ok (updated-status t err cs m e)
    | inr (message, bad) ↦
        rw bad (updated-status t (some message) (update_feature_status id t [] err a.now cs) m e)
  ]

  errors-status :
      (t : FeatureStatus) (err : Option Text)
      → t ≢ unset
      → (t == removed) ≡ false
      → is_feature_removed (after_errors id a false t err cs).0 id ≡ false
  errors-status t err m e = rw e (queue-status t err m e)

  undeploy-status :
      (t : FeatureStatus) (err : Option UndeployError)
      → is_feature_removed cs id ≡ false
      → t ≢ unset
      → (t == removed) ≡ false
      → is_feature_removed (after_undeploy id a false t err cs).0 id ≡ false
  undeploy-status t none h m e = errors-status t none m e
  undeploy-status t (some (forbidden message)) h m e = marked-status message
  undeploy-status t (some (hand_over message)) h m e = h
  undeploy-status t (some (wait_for_processing message)) h m e = h
  undeploy-status t (some (not_retriable message)) h m e = marked-status message
  undeploy-status t (some (template message)) h m e = marked-status message
  undeploy-status t (some (other message)) h m e = errors-status t (some message) m e

  by_result :
      (r : ResultStatus)
      → is_feature_removed cs id ≡ false
      → is_feature_removed (by_status id a false (convert_result_status r) cs).0 id ≡ true
      → r ≡ result_removed
  unfolding status_dec
  by_result result_removed h q = refl
  by_result unavailable h q = absurd (no (queue-status removing none (λ x. cc) refl) q)
  by_result in_progress h q =
      absurd (no (updated-status removing (text_of_result a.err) cs (λ x. cc) refl) q)
  by_result deployed h q = absurd (no (undeploy-status provisioned a.err h (λ x. cc) refl) q)
  by_result result_failed h q = absurd (no (undeploy-status failed a.err h (λ x. cc) refl) q)

  -- Outside pull mode, a feature that was not reported as removed is so after undeployFeature only if
  -- the deployer's result says Removed.
  pub undeploy_feature-removed :
      a.pull_mode ≢ some true
      → is_feature_removed cs id ≡ false
      → is_feature_removed (undeploy_feature id a cs).0 id ≡ true
      → a.status ≡ result_removed
  unfolding undeploy_feature process_undeploy_result
  undeploy_feature-removed push h q = elim (Bool-cases a.deploy_running) [
    | inl running ↦ ground (arith, running, h, q)
    | inr idle ↦ by_mode a.pull_mode push (ground (arith, idle, h, q))
  ]
    where
      by_mode :
          (mode : Option Bool)
          → mode ≢ some true
          → is_feature_removed (undeploy_in_mode id a mode cs).0 id ≡ true
          → a.status ≡ result_removed
      by_mode none n q' = ground (arith, h, q')
      by_mode (some true) n q' = absurd (n refl)
      by_mode (some false) n q' = by_result a.status h q'
