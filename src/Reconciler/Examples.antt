-- ===== src/Reconciler/Examples.antt =====
-- A ClusterSummary that is deployed, put off and deleted.
use addon_controller.Common.{
  ℕ, ◌≡◌, refl, true, false, not, ◌&&◌, nat_eq, ltb, all, ◌+◌, ◌<◌, ◌≤◌, [], ◌∷◌, none, some, Text,
  text, text_eq, arith,
}
use addon_controller.Api.{feature_dec, status_dec, ClusterSummary}
use addon_controller.Deployer
use addon_controller.Deployer.{update_feature_status, result_removed, computed, in_progress}
use addon_controller.Deployer.Deploying.{deploy_feature}
use addon_controller.Deployer.Undeploying
use addon_controller.Deployer.Undeploying.{undeploy_feature, process_undeploy_result}
use addon_controller.RollingUpdate.{Lookup, found, not_found}
use addon_controller.Transition.{
  are_successors_provisioned, Owner, ProfileKind, profile, cluster_profile,
}
use addon_controller.Licenses.{new_license_manager}
use addon_controller.Features.{change_or_append, should_remove_resource_summary}
use addon_controller.Provisioned.{
  get_feature_summary_for_feature_id, is_cluster_summary_provisioned,
}
use addon_controller.Reconciler.{
  State, requeue_after, should_reconcile, any_feature_needs_resource_summary_removal,
  set_next_reconcile_time, skip_reconciliation, remaining_cooldown,
}
use addon_controller.Reconciler.Cooldown
use addon_controller.Reconciler.Cooldown.{since, cooldown_end}
use addon_controller.Reconciler.Gates
use addon_controller.Reconciler.Gates.{
  is_open_check, are_dependencies_deployed, are_dependents_removed, is_deployed_dependency,
  needs_not,
}
use addon_controller.Reconciler.Deleting
use addon_controller.Reconciler.Deleting.{
  reconcile_delete, undeploy, can_remove_finalizer, other_type,
}
use addon_controller.Reconciler.Deleting.Finalizer
use addon_controller.Reconciler.Deleting.Finalizer.{SafelyRemoved}
use addon_controller.Reconciler.Deploying
use addon_controller.Reconciler.Deploying.{generic_error, deploy, proceed_deploying_cluster_summary}
use addon_controller.Reconciler.Deploying.Backoff
use addon_controller.Reconciler.Deploying.Backoff.{is_delay}
use addon_controller.Reconciler.Normal
use addon_controller.Reconciler.Normal.{reconcile_normal, verify_pull_mode_eligibility}
use addon_controller.Reconciler.Normal.Guarded
use addon_controller.Reconciler.Normal.Guarded.{Guarded}
use addon_controller.Examples.Fixtures.{summary_a, summary_b, summary_c}

abbrev state_of : ClusterSummary → State
state_of cs = record {
  object = cs;
  generation = 3;
  has_finalizer = true;
  reconciliation_suspended = false;
  dependencies = none;
  next_reconcile_time = none;
  deleted_instance = 0;
}

skip-set_next_reconcile_time_example :
    (skip_reconciliation 108 (since none 3 (set_next_reconcile_time 100 10 (state_of summary_b)))).0
    ≡ (not (ltb 3 3) && ltb 108 (100 + 10))
skip-set_next_reconcile_time_example =
    Cooldown.skip-set_next_reconcile_time (state_of summary_b) 100 10 108 3 none refl

-- put off until 110
abbrev put_off : State
put_off = record (state_of summary_b) {
  next_reconcile_time = some (record { until = 110; generation = 3 });
}

is_put_off : (skip_reconciliation 108 put_off).0 ≡ true
unfolding skip_reconciliation
is_put_off = refl

remaining_cooldown-skip_example :
    cooldown_end put_off ≤ 108 + remaining_cooldown 108 (skip_reconciliation 108 put_off).1
remaining_cooldown-skip_example = Cooldown.remaining_cooldown-skip put_off 108 is_put_off

abbrev owner : Owner
owner = record { kind = cluster_profile; name = text "app" }

-- a ClusterSummary that depends on the profile `base`
abbrev dependent : ClusterSummary
dependent = record summary_b { spec = record summary_b.spec { depends_on = text "base" ∷ [] } }

abbrev dependency : ProfileKind → Text → Lookup ClusterSummary
dependency kind name = found summary_b

are_dependencies_deployed-all_example :
    is_open_check (are_dependencies_deployed (some owner) dependency dependent)
    ≡ all (λ n. is_deployed_dependency (dependency cluster_profile n)) (text "base" ∷ [])
are_dependencies_deployed-all_example =
    Gates.are_dependencies_deployed-all owner dependency dependent

abbrev base : Owner
base = record { kind = profile; name = text "base" }

are_dependents_removed-all_example :
    is_open_check (are_dependents_removed (some base) (some (dependent ∷ [])) summary_a)
    ≡ all (needs_not (text "a") (text "base")) (dependent ∷ [])
are_dependents_removed-all_example =
    Gates.are_dependents_removed-all base (dependent ∷ []) summary_a

abbrev deployer_answers : Deployer.Answers
deployer_answers = record {
  now = 7;
  cleanup_running = false;
  current_hash = computed (text "h1");
  pull_mode = some false;
  being_provisioned = false;
  result = record { status = in_progress; err = none };
  charts = none;
  deploy_error = none;
  pull = λ cs. (cs, Deployer.done);
}

abbrev deploying : Deploying.World
deploying = record {
  now = 7;
  deploying = λ id. deployer_answers;
  error_type = λ r. generic_error;
  random = λ bound. none;
  conflict_retry_time = 60;
  health_error_retry_time = 60;
  policy_ref_interval = 0;
  kustomize_ref_interval = 0;
}

none_is_small : (bound n : ℕ) → deploying.random bound ≡ some n → n < bound
none_is_small bound n e = ground (arith, e)

-- the cleanup of another deployment is running
abbrev busy : Deploying.World
busy = record deploying { deploying = λ id. record deployer_answers { cleanup_running = true } }

busy_errors : (deploy busy summary_b).1 ≡ Deployer.cleanup_in_progress ∷ []
unfolding deploy deploy_feature feature_dec get_feature_summary_for_feature_id
busy_errors = refl

proceed-bounds_example :
    (d : ℕ) × ((proceed_deploying_cluster_summary busy (state_of summary_b)).1 ≡ requeue_after d)
    × ((proceed_deploying_cluster_summary busy (state_of summary_b)).0.object.next_reconcile_time
        ≡ some (7 + d))
    × (is_delay busy (Deployer.cleanup_in_progress ∷ []) (deploy busy summary_b).0 d ≡ true)
proceed-bounds_example =
    Backoff.proceed-bounds busy (state_of summary_b) Deployer.cleanup_in_progress [] none_is_small
      busy_errors

abbrev running : Normal.World
running = record {
  now = 7;
  finalizer_added = true;
  health_monitoring_done = true;
  pull_mode = some false;
  license = none;
  licenses = new_license_manager;
  license_required = [];
  paused = some false;
  watchers_started = true;
  owner = some owner;
  dependency = dependency;
  chart_map_error = none;
  resource_summary_error = none;
  deploying = deploying;
}

is_deployed : (reconcile_normal running (state_of dependent)).deploys ≡ true
unfolding reconcile_normal should_reconcile verify_pull_mode_eligibility are_dependencies_deployed
    is_cluster_summary_provisioned status_dec feature_dec any_feature_needs_resource_summary_removal
    should_remove_resource_summary
is_deployed = refl

reconcile_normal-Guarded_example : Guarded running dependent
reconcile_normal-Guarded_example =
    Guarded.reconcile_normal-Guarded running (state_of dependent) is_deployed

-- what is left of a ClusterSummary that is being deleted
abbrev leaving : ClusterSummary
leaving = record summary_c { feature_summaries = []; deletion_timestamp = some 5 }

abbrev undeploying : Undeploying.Answers
undeploying = record {
  now = 9;
  deploy_running = false;
  pull_mode = some false;
  tracking_error = none;
  status = result_removed;
  err = none;
  being_removed = false;
  deploy_error = none;
  pull = λ cs. (cs, Undeploying.done);
}

abbrev deleting : Deleting.World
deleting = record {
  now = 9;
  health_monitoring_removed = true;
  ready = some true;
  cluster = found false;
  cluster_later = found false;
  paused = some false;
  resource_summary_error = none;
  owner = some owner;
  of_cluster = some [];
  transition = record {
    profiles = λ n. some [];
    cluster_profiles = some [];
    owner = λ cs. some owner;
    cluster = not_found;
    matches = λ s. false;
    summary = λ s. not_found;
  };
  undeploying = λ id. undeploying;
  error_type = λ r. other_type;
  profile_is_deleted = none;
  deleted_cluster_handled = true;
  finalizer_updated = true;
  post_cleanup_done = true;
  health_error_retry_time = 60;
}

finalizer_goes : (reconcile_delete deleting (state_of leaving)).0.has_finalizer ≡ false
unfolding reconcile_delete any_feature_needs_resource_summary_removal should_remove_resource_summary
    status_dec feature_dec are_dependents_removed are_successors_provisioned undeploy_feature
    get_feature_summary_for_feature_id update_feature_status process_undeploy_result
    change_or_append undeploy can_remove_finalizer
finalizer_goes = refl

reconcile_delete-SafelyRemoved_example :
    SafelyRemoved deleting (reconcile_delete deleting (state_of leaving)).0
reconcile_delete-SafelyRemoved_example =
    Finalizer.reconcile_delete-SafelyRemoved deleting (state_of leaving) refl refl finalizer_goes
