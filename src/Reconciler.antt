-- ===== src/Reconciler.antt =====
-- controllers/clustersummary_controller.go: the reconciler of ClusterSummaries. What the API server, the
-- proxies of the clusters, the deployer and the watchers answer during one reconciliation are parameters;
-- logs and events are left out. Times are counted in seconds.
pub mod Cooldown
pub mod Gates
pub mod Deleting
pub mod Deploying
pub mod Normal
mod Examples
use addon_controller.Common.{
  ℕ, suc, ◌+◌, ◌-◌, Bool, true, false, not, ◌==◌, ◌&&◌, ◌||◌, if◌then◌else◌, ltb, leb, List, [],
  ◌∷◌, map, Option, none, some, Text, is_some, all,
}
use addon_controller.Api.{
  FeatureId, helm, resources, kustomize, FeatureStatus, provisioning, provisioned, removed,
  status_eq, FeatureSummary, ClusterSummary, SyncMode, one_time, continuous,
  continuous_with_drift_detection, dry_run,
}
use addon_controller.ChartManager.{is_dry_run}
use addon_controller.Provisioned.{is_empty}
use addon_controller.Features.{
  set_feature_status, set_failure_message, set_resource_summary_deployed,
  should_remove_resource_summary,
}
use addon_controller.Deployer.{is_feature_deployed}
use addon_controller.Transition.{Gate}

-- the messages about dependencies (SetDependenciesMessage)
pub data Message : Type 0 where
  no_message no_dependencies all_dependencies_deployed : Message
  dependency_not_found dependency_not_deployed still_needed_by : Text → Message
  about_transition : Gate → Message

-- reconcile.Result, where 0 asks for no requeue, or an error
pub data Result : Type 0 where
  requeue_after : ℕ → Result
  reconcile_error : Result

-- reconcileCooldown
pub record ReconcileCooldown : Type 0 where
  pub until : ℕ
  pub generation : ℕ

-- A ClusterSummary under reconciliation: the object, the fields of its metadata and status that only the
-- reconciler uses, and what the reconciler keeps for it in memory (NextReconcileTimes, DeletedInstances;
-- a missing time of deletion is 0).
pub record State : Type 0 where
  pub object : ClusterSummary
  pub generation : ℕ
  pub has_finalizer : Bool
  pub reconciliation_suspended : Bool
  pub dependencies : Option Message
  pub next_reconcile_time : Option ReconcileCooldown
  pub deleted_instance : ℕ

-- a change of the FeatureSummaries of the object
abbrev pub on_summaries :
    (List FeatureSummary → List FeatureSummary) → ClusterSummary → ClusterSummary
on_summaries f cs = record cs { feature_summaries = f cs.feature_summaries }

-- the change where the spec uses the feature; a list that is nil is empty
abbrev pub where_used :
    {A : Type 0} → List A → (ClusterSummary → ClusterSummary) → ClusterSummary → ClusterSummary
where_used l f cs = if is_empty l then cs else f cs

-- setFailureMessage
pub set_failure_message_of_all : Text → ClusterSummary → ClusterSummary
set_failure_message_of_all message cs =
    let set : FeatureId → ClusterSummary → ClusterSummary =
      λ id. on_summaries (set_failure_message id (some message)) in
    where_used cs.spec.kustomization_refs (set kustomize) (
      where_used cs.spec.policy_refs (set resources) (where_used cs.spec.helm_charts (set helm) cs))

-- resetFeatureStatus
pub reset_feature_status : FeatureStatus → ClusterSummary → ClusterSummary
reset_feature_status status cs =
    let set : FeatureId → ClusterSummary → ClusterSummary =
      λ id. on_summaries (set_feature_status cs.spec.sync_mode id status [] none) in
    where_used cs.spec.kustomization_refs (set kustomize) (
      where_used cs.spec.policy_refs (set resources) (where_used cs.spec.helm_charts (set helm) cs))

abbrev back_to_provisioning : FeatureSummary → FeatureSummary
back_to_provisioning fs =
    if fs.status == provisioned then record fs { status = provisioning } else fs

-- resetFeatureStatusToProvisioning
pub reset_feature_status_to_provisioning : ClusterSummary → ClusterSummary
reset_feature_status_to_provisioning = on_summaries (map back_to_provisioning)

-- anyFeatureNeedsResourceSummaryRemoval
pub any_feature_needs_resource_summary_removal : ClusterSummary → Bool
any_feature_needs_resource_summary_removal cs =
    should_remove_resource_summary helm cs.feature_summaries
    || should_remove_resource_summary resources cs.feature_summaries
    || should_remove_resource_summary kustomize cs.feature_summaries

-- markResourceSummaryRemovedForAllFeatures
pub mark_resource_summary_removed_for_all_features : ClusterSummary → ClusterSummary
mark_resource_summary_removed_for_all_features cs =
    on_summaries (set_resource_summary_deployed kustomize false) (
      on_summaries (set_resource_summary_deployed resources false)
        (on_summaries (set_resource_summary_deployed helm false) cs))

abbrev still_to_deploy : {A : Type 0} → List A → FeatureId → ClusterSummary → Bool
still_to_deploy l id cs = not (is_empty l) && not (is_feature_deployed cs id)

-- shouldReconcile
pub should_reconcile : ClusterSummary → Bool
should_reconcile cs = elim cs.spec.sync_mode [
  | one_time ↦
      still_to_deploy cs.spec.policy_refs resources cs
      || still_to_deploy cs.spec.helm_charts helm cs
      || still_to_deploy cs.spec.kustomization_refs kustomize cs
  | continuous ↦ true
  | continuous_with_drift_detection ↦ true
  | dry_run ↦ true
]

-- normalRequeueAfter, deleteRequeueAfter, deleteHandOverRequeueAfter, dryRunRequeueAfter and
-- licenseRequeueAfter
abbrev pub normal_requeue_after : ℕ
normal_requeue_after = 10

abbrev pub delete_requeue_after : ℕ
delete_requeue_after = 10

abbrev pub delete_hand_over_requeue_after : ℕ
delete_hand_over_requeue_after = 120

abbrev pub dry_run_requeue_after : ℕ
dry_run_requeue_after = 60

abbrev pub license_requeue_after : ℕ
license_requeue_after = 60

-- setNextReconcileTime, at the time `now`
pub set_next_reconcile_time : ℕ → ℕ → State → State
set_next_reconcile_time now d st = record st {
  object = record st.object { next_reconcile_time = some (now + d) };
  next_reconcile_time = some (record { until = now + d; generation = st.generation });
}

-- time.Until: what is left until a time, 0 when it has passed
abbrev pub remaining : ℕ → ℕ → ℕ
remaining now until = until - now

abbrev of_status : ℕ → Option ℕ → ℕ
of_status now none = normal_requeue_after
of_status now (some t) = if ltb 0 (remaining now t) then remaining now t else normal_requeue_after

abbrev of_memory : ℕ → ℕ → Option ReconcileCooldown → ℕ
of_memory now d none = d
of_memory now d (some c) = if ltb d (remaining now c.until) then remaining now c.until else d

-- remainingCooldown
pub remaining_cooldown : ℕ → State → ℕ
remaining_cooldown now st =
    of_memory now (of_status now st.object.next_reconcile_time) st.next_reconcile_time

-- the status without a time, and no entry in memory
abbrev wake : State → Bool × State
wake st = (
  false,
  record st {
    object = record st.object { next_reconcile_time = none };
    next_reconcile_time = none;
  },
)

-- behind the test of the deletion
abbrev skip_in_memory : ℕ → Option ReconcileCooldown → Option ℕ → State → Bool × State
skip_in_memory now (some c) status st =
    if ltb c.generation st.generation
    then wake st
    else if ltb now c.until
    then (true, st)
    else wake st
skip_in_memory now none (some t) st =
    if ltb now t
    then (
      true,
      record st { next_reconcile_time = some (record { until = t; generation = st.generation }) },
    )
    else wake st
skip_in_memory now none none st = wake st

-- skipReconciliation
pub skip_reconciliation : ℕ → State → Bool × State
skip_reconciliation now st =
    let cooled = skip_in_memory now st.next_reconcile_time st.object.next_reconcile_time st in
    if is_some st.object.deletion_timestamp
      && not (ltb (st.deleted_instance + delete_requeue_after) now)
    then (true, st)
    else cooled

-- updateDeletedInstancs
pub update_deleted_instances : ℕ → State → State
update_deleted_instances now st = record st { deleted_instance = now; next_reconcile_time = none }
