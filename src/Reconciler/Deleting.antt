-- ===== src/Reconciler/Deleting.antt =====
-- controllers/clustersummary_controller.go: reconcileDelete, the teardown of a ClusterSummary.
pub mod Finalizer
use addon_controller.Common.{
  ℕ, Bool, true, false, not, ◌==◌, ◌&&◌, ◌||◌, if◌then◌else◌, List, [], ◌∷◌, Option, none, some,
  Text, is_some, all,
}
use addon_controller.Api.{
  FeatureId, helm, resources, kustomize, failed, blocked, removed, status_eq, ClusterSummary,
}
use addon_controller.ChartManager.{is_dry_run}
use addon_controller.Deployer.Undeploying
use addon_controller.Deployer.Undeploying.{undeploy_feature, done}
use addon_controller.RollingUpdate
use addon_controller.RollingUpdate.{Lookup, found, not_found}
use addon_controller.Transition
use addon_controller.Transition.{Owner, Gate, gate_error, is_open, are_successors_provisioned}
use addon_controller.Reconciler.{
  State, Message, no_message, about_transition, Result, requeue_after, reconcile_error,
  set_failure_message_of_all, reset_feature_status, any_feature_needs_resource_summary_removal,
  mark_resource_summary_removed_for_all_features, update_deleted_instances, delete_requeue_after,
  delete_hand_over_requeue_after,
}
use addon_controller.Reconciler.Gates.{Check, check_error, check, are_dependents_removed}

-- the error of an undeploy, by the first type that processUndeployError finds in it
pub data ErrorType : Type 0 where
  wait_for_processing non_retriable template_instantiation health_check other_type : ErrorType

-- What the others answer to one reconciliation of a deleted ClusterSummary; `none` is an error where the
-- answer is a flag. A cluster that is found has the flag of its deletion; it is read twice.
pub record World : Type 0 where
  pub now : ℕ
  pub health_monitoring_removed : Bool
  pub ready : Option Bool
  pub cluster : Lookup Bool
  pub cluster_later : Lookup Bool
  pub paused : Option Bool
  pub resource_summary_error : Option Text
  pub owner : Option Owner
  pub of_cluster : Option (List ClusterSummary)
  pub transition : Transition.World
  pub undeploying : FeatureId → Undeploying.Answers
  pub error_type : Undeploying.Return → ErrorType
  pub profile_is_deleted : Option Bool
  pub deleted_cluster_handled : Bool
  pub finalizer_updated : Bool
  pub post_cleanup_done : Bool
  pub health_error_retry_time : ℕ

-- canRemoveFinalizer
unfoldable pub can_remove_finalizer : World → ClusterSummary → Bool
can_remove_finalizer w cs =
    if not (is_some cs.deletion_timestamp) then false else elim w.cluster_later [
      | not_found ↦ true
      | RollingUpdate.failed ↦ false
      | found _ ↦
          if is_dry_run cs.spec.sync_mode
          then elim w.profile_is_deleted [ none ↦ false | some deleted ↦ deleted ]
          else all (λ fs. fs.status == removed) cs.feature_summaries
    ]

-- processUndeployError
pub process_undeploy_error : World → ClusterSummary → Undeploying.Return → Result
process_undeploy_error w cs r = elim (w.error_type r) [
  | wait_for_processing ↦ requeue_after delete_requeue_after
  | non_retriable ↦ requeue_after (
      if not (is_dry_run cs.spec.sync_mode)
      then delete_requeue_after
      else delete_hand_over_requeue_after)
  | template_instantiation ↦ requeue_after (
      if not (is_dry_run cs.spec.sync_mode)
      then delete_requeue_after
      else delete_hand_over_requeue_after)
  | health_check ↦ requeue_after (
      if not (is_dry_run cs.spec.sync_mode)
      then delete_requeue_after
      else w.health_error_retry_time)
  | other_type ↦ requeue_after delete_requeue_after
]

abbrev pub is_done : Undeploying.Return → Bool
is_done done = true
is_done _ = false

abbrev first_error : Undeploying.Return → Undeploying.Return → Undeploying.Return
first_error r later = if is_done r then later else r

-- undeploy: the three features, each whatever came of the others; the first error is returned
unfoldable pub undeploy : World → ClusterSummary → ClusterSummary × Undeploying.Return
undeploy w cs =
    let (one, resource_error) = undeploy_feature resources (w.undeploying resources) cs in
    let (two, kustomize_error) = undeploy_feature kustomize (w.undeploying kustomize) one in
    let (three, helm_error) = undeploy_feature helm (w.undeploying helm) two in
    (three, first_error resource_error (first_error kustomize_error helm_error))

abbrev pub suspend : Bool → State → State
suspend b st = record st { reconciliation_suspended = b }

abbrev pub on_object : (ClusterSummary → ClusterSummary) → State → State
on_object f st = record st { object = f st.object }

abbrev pub with_message : Message → State → State
with_message m st = record st { dependencies = some m }

-- the end of cleanupBeforeFinalizerRemoval; `some` is the result to return, `none` lets the caller go on
abbrev pub end_of_undeploy :
    World → State → ClusterSummary × Undeploying.Return → State × Option Result
end_of_undeploy w st (cs, r) =
    let next = record st { object = cs } in
    if not (is_done r)
    then (next, some (process_undeploy_error w cs r))
    else if not (can_remove_finalizer w cs)
    then (next, some (requeue_after delete_requeue_after))
    else (next, none)

pub undeploy_and_check : World → State → State × Option Result
unfolding undeploy process_undeploy_error can_remove_finalizer
undeploy_and_check w st = end_of_undeploy w st (undeploy w st.object)

-- the gate of TransitionFrom
abbrev pub behind_gate : World → Gate → State → State × Option Result
behind_gate w gate_error st = (st, some (requeue_after delete_requeue_after))
behind_gate w gate st =
    let told = with_message (about_transition gate) st in
    if not (is_open gate)
    then (on_object (reset_feature_status blocked) told, some (requeue_after delete_requeue_after))
    else undeploy_and_check w told

-- the gate of the dependents
abbrev pub behind_dependents : World → Check → State → State × Option Result
behind_dependents w check_error st = (st, some (requeue_after delete_requeue_after))
behind_dependents w (check none_left m) st =
    let told = with_message m st in
    if not none_left
    then (on_object (reset_feature_status blocked) told, some (requeue_after delete_requeue_after))
    else behind_gate w (are_successors_provisioned w.transition told.object) told

pub pass_gates : World → State → State × Option Result
unfolding undeploy_and_check
pass_gates w st = behind_dependents w (are_dependents_removed w.owner w.of_cluster st.object) st

-- behind removeResourceSummary, by its error
abbrev pub after_removal : World → Option Text → State → State × Option Result
after_removal w (some message) st = (
  on_object (reset_feature_status failed) (on_object (set_failure_message_of_all message) st),
  some (requeue_after delete_requeue_after),
)
after_removal w none st = pass_gates w (on_object mark_resource_summary_removed_for_all_features st)

-- the removal of the ResourceSummaries, from a cluster that stays
pub remove_resource_summaries : World → Bool → State → State × Option Result
unfolding pass_gates
remove_resource_summaries w is_deleted st =
    if not is_deleted && any_feature_needs_resource_summary_removal st.object
    then after_removal w w.resource_summary_error st
    else pass_gates w st

abbrev pub by_pause : World → Bool → Option Bool → State → State × Option Result
by_pause w is_deleted none st = (st, some reconcile_error)
by_pause w is_deleted (some true) st = (suspend true st, some (requeue_after 0))
by_pause w is_deleted (some false) st = remove_resource_summaries w is_deleted (suspend false st)

-- cleanupBeforeFinalizerRemoval
pub cleanup_before_finalizer_removal : World → Bool → State → State × Option Result
unfolding remove_resource_summaries
cleanup_before_finalizer_removal w is_deleted st = by_pause w is_deleted w.paused st

-- removeFinalizer, whose error is that RemoveFinalizer of controller-runtime changed nothing, and
-- postFinalizerCleanup
abbrev pub finish : World → State → State × Result
finish w st = if st.has_finalizer && not w.finalizer_updated then (st, reconcile_error) else (
  record st { has_finalizer = false },
  if w.post_cleanup_done then requeue_after 0 else reconcile_error,
)

abbrev pub finish_deleted : World → Bool → State → State × Result
finish_deleted w gone st =
    if gone && not w.deleted_cluster_handled
    then (st, requeue_after delete_requeue_after)
    else finish w st

abbrev pub after_cleanup : World → Bool → State × Option Result → State × Result
after_cleanup w gone (st, some r) = (st, r)
after_cleanup w gone (st, none) = finish_deleted w gone st

-- the cluster is present
abbrev pub tear_down : World → Bool → Bool → State → State × Result
tear_down w is_ready is_deleted st =
    if is_ready
    then after_cleanup w is_deleted (cleanup_before_finalizer_removal w is_deleted st)
    else if not is_deleted
    then (st, requeue_after delete_requeue_after)
    else finish_deleted w true st

abbrev pub by_cluster : World → Bool → Lookup Bool → State → State × Result
by_cluster w is_ready RollingUpdate.failed st = (st, requeue_after delete_requeue_after)
by_cluster w is_ready not_found st = finish_deleted w true st
by_cluster w is_ready (found is_deleted) st = tear_down w is_ready is_deleted st

abbrev pub by_readiness : World → Option Bool → State → State × Result
by_readiness w none st = (st, requeue_after delete_requeue_after)
by_readiness w (some is_ready) st = by_cluster w is_ready w.cluster st

-- reconcileDelete
unfoldable pub reconcile_delete : World → State → State × Result
unfolding cleanup_before_finalizer_removal update_deleted_instances
reconcile_delete w st =
    let started = update_deleted_instances w.now st in
    if not w.health_monitoring_removed
    then (started, requeue_after delete_requeue_after)
    else by_readiness w w.ready started
