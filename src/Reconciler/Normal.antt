-- ===== src/Reconciler/Normal.antt =====
-- controllers/clustersummary_controller.go: reconcileNormal, which deploys a ClusterSummary.
pub mod Guarded
use addon_controller.Common.{
  ℕ, Bool, true, false, not, ◌==◌, ◌&&◌, ◌||◌, if◌then◌else◌, List, [], ◌∷◌, Option, none, some,
  Text, text, is_some, nat_eq,
}
use addon_controller.Api.{
  FeatureId, helm, resources, kustomize, failed, failed_non_retriable, blocked, ClusterSummary,
  ClusterType, capi, sveltos, continuous_with_drift_detection,
}
use addon_controller.Deployer.{update_feature_status}
use addon_controller.Licenses.{LicenseManager, is_cluster_in_top_x, NamespacedName}
use addon_controller.RollingUpdate.{Lookup}
use addon_controller.Transition.{ProfileKind, Owner}
use addon_controller.Reconciler.{
  State, Message, Result, requeue_after, reconcile_error, set_failure_message_of_all,
  reset_feature_status, any_feature_needs_resource_summary_removal,
  mark_resource_summary_removed_for_all_features, should_reconcile, set_next_reconcile_time,
  normal_requeue_after, delete_requeue_after, license_requeue_after,
}
use addon_controller.Reconciler.Gates.{Check, check_error, check, are_dependencies_deployed}
use addon_controller.Reconciler.Deploying
use addon_controller.Reconciler.Deploying.{proceed_deploying_cluster_summary}
use addon_controller.Helm.Decisions.{detects_drift}

-- the plan of a license; the plans that do not grant pull mode are `other_plan`
pub data Plan : Type 0 where
  enterprise enterprise_plus other_plan : Plan

-- license.LicensePayload and license.LicenseVerificationResult of libsveltos
pub record Payload : Type 0 where
  pub has_pull_mode : Bool
  pub plan : Plan
  pub max_clusters : ℕ

pub record Verification : Type 0 where
  pub is_valid : Bool
  pub is_in_grace_period : Bool
  pub payload : Option Payload

abbrev grants_plan : Plan → Bool
grants_plan other_plan = false
grants_plan _ = true

abbrev max_free_clusters : ℕ
max_free_clusters = 2

abbrev licensed : LicenseManager → NamespacedName → Option Payload → Bool
licensed m k none = false
licensed m k (some p) =
    if not p.has_pull_mode
    then false
    else if not (grants_plan p.plan)
    then false
    else if p.max_clusters == 0
    then true
    else is_cluster_in_top_x k p.max_clusters m

-- grantsPullModeEligibility
pub grants_pull_mode_eligibility : LicenseManager → NamespacedName → Verification → Bool
grants_pull_mode_eligibility m k v =
    if v.is_valid || v.is_in_grace_period
    then licensed m k v.payload
    else is_cluster_in_top_x k max_free_clusters m

-- What the others answer to one reconciliation; `none` is an error where the answer is a flag or a license,
-- and an error where it is a text.
pub record World : Type 0 where
  pub now : ℕ
  pub finalizer_added : Bool
  pub health_monitoring_done : Bool
  pub pull_mode : Option Bool
  pub license : Option Verification
  pub licenses : LicenseManager
  pub license_required : Text
  pub paused : Option Bool
  pub watchers_started : Bool
  pub owner : Option Owner
  pub dependency : ProfileKind → Text → Lookup ClusterSummary
  pub chart_map_error : Option Text
  pub resource_summary_error : Option Text
  pub deploying : Deploying.World

-- verifyPullModeEligibility
unfoldable pub verify_pull_mode_eligibility : World → ClusterSummary → Option Bool
unfolding grants_pull_mode_eligibility
verify_pull_mode_eligibility w cs = elim w.pull_mode [
  | none ↦ none
  | some false ↦ some true
  | some true ↦ elim w.license [
    | none ↦ none
    | some v ↦ some (
        grants_pull_mode_eligibility w.licenses
          (record { namespace = cs.cluster_namespace; name = cs.cluster_name }) v)
  ]
]

-- updateStatusWithMissingLicenseError
pub update_status_with_missing_license_error : World → ClusterSummary → ClusterSummary
update_status_with_missing_license_error w cs =
    let fail : FeatureId → ClusterSummary → ClusterSummary =
      λ id. update_feature_status id failed [] (some w.license_required) w.now in
    fail resources (fail kustomize (fail helm cs))

-- the state, the result, and whether deploy was called
pub record Outcome : Type 0 where
  pub state : State
  pub result : Result
  pub deploys : Bool

abbrev stop : State → Result → Outcome
stop st r = record { state = st; result = r; deploys = false }

abbrev put_off : World → ℕ → State → Outcome
put_off w d st = stop (set_next_reconcile_time w.now d st) (requeue_after d)

abbrev on_object : (ClusterSummary → ClusterSummary) → State → State
on_object f st = record st { object = f st.object }

abbrev call_deploy : World → State → Outcome
call_deploy w st =
    let (next, r) = proceed_deploying_cluster_summary w.deploying st in
    record { state = next; result = r; deploys = true }

-- behind the removal of the ResourceSummary
abbrev pub after_removal : World → Option Text → State → Outcome
after_removal w (some message) st =
    put_off w normal_requeue_after
      (on_object (reset_feature_status failed) (on_object (set_failure_message_of_all message) st))
after_removal w none st =
    call_deploy w (on_object mark_resource_summary_removed_for_all_features st)

-- behind updateChartMap
abbrev pub after_chart_map : World → Option Text → State → Outcome
after_chart_map w (some message) st = put_off w normal_requeue_after (
    on_object (reset_feature_status failed_non_retriable)
      (on_object (set_failure_message_of_all message) st))
after_chart_map w none st =
    if not (detects_drift st.object.spec.sync_mode)
      && any_feature_needs_resource_summary_removal st.object
    then after_removal w w.resource_summary_error st
    else call_deploy w st

-- behind the gate of dependsOn
abbrev pub after_gate : World → Check → State → Outcome
after_gate w check_error st = put_off w normal_requeue_after st
after_gate w (check all_deployed m) st =
    let told = record st { dependencies = some m } in
    if not all_deployed
    then put_off w normal_requeue_after (on_object (reset_feature_status blocked) told)
    else after_chart_map w w.chart_map_error told

-- prepareForDeployment, and proceedDeployingClusterSummary where it asks for no requeue
pub prepare_and_deploy : World → State → Outcome
unfolding set_next_reconcile_time
prepare_and_deploy w st =
    if not w.watchers_started
    then put_off w delete_requeue_after st
    else after_gate w (are_dependencies_deployed w.owner w.dependency st.object) st

abbrev pub by_pause : World → Option Bool → State → Outcome
by_pause w none st = stop st reconcile_error
by_pause w (some true) st = stop (record st { reconciliation_suspended = true }) (requeue_after 0)
by_pause w (some false) st = prepare_and_deploy w (record st { reconciliation_suspended = false })

abbrev pub by_eligibility : World → Option Bool → State → Outcome
by_eligibility w none st = stop st reconcile_error
by_eligibility w (some false) st =
    stop (on_object (update_status_with_missing_license_error w) st)
      (requeue_after license_requeue_after)
by_eligibility w (some true) st = by_pause w w.paused st

abbrev pub with_finalizer : World → State → Outcome
with_finalizer w st =
    if not w.health_monitoring_done
    then put_off w normal_requeue_after st
    else if not (should_reconcile st.object)
    then stop st (requeue_after 0)
    else by_eligibility w (verify_pull_mode_eligibility w st.object) st

-- reconcileNormal
unfoldable pub reconcile_normal : World → State → Outcome
unfolding prepare_and_deploy update_status_with_missing_license_error
reconcile_normal w st =
    if st.has_finalizer
    then with_finalizer w st
    else if not w.finalizer_added
    then stop st reconcile_error
    else with_finalizer w (record st { has_finalizer = true })
