-- ===== src/Reconciler/Deploying.antt =====
-- controllers/clustersummary_controller.go: deploy and proceedDeployingClusterSummary.
pub mod Backoff
use addon_controller.Common.{
  ℕ, suc, ◌+◌, ◌-◌, ◌*◌, Bool, true, false, not, ◌==◌, ◌&&◌, ◌||◌, if◌then◌else◌, ltb, List, [],
  ◌∷◌, ◌++◌, Option, none, some, Text, is_some, nat_eq,
}
use addon_controller.Api.{FeatureId, helm, resources, kustomize, FeatureSummary, ClusterSummary}
use addon_controller.ChartManager.{is_dry_run}
use addon_controller.Provisioned.{is_empty}
use addon_controller.Deployer
use addon_controller.Deployer.{summary, done}
use addon_controller.Deployer.Deploying.{deploy_feature}
use addon_controller.Reconciler.{
  State, Result, requeue_after, reset_feature_status_to_provisioning, set_next_reconcile_time,
  normal_requeue_after, dry_run_requeue_after,
}

-- the type of error that proceedDeployingClusterSummary asks for
pub data ErrorType : Type 0 where
  conflict_error health_check_error generic_error : ErrorType

-- What the others answer: the deployer for each feature, the types of its errors, the random number below
-- a bound (`none` is an error of the generator), and the shortest intervals of URL sources (0: none).
pub record World : Type 0 where
  pub now : ℕ
  pub deploying : FeatureId → Deployer.Answers
  pub error_type : Deployer.Return → ErrorType
  pub random : ℕ → Option ℕ
  pub conflict_retry_time : ℕ
  pub health_error_retry_time : ℕ
  pub policy_ref_interval : ℕ
  pub kustomize_ref_interval : ℕ

abbrev pub is_done : Deployer.Return → Bool
is_done done = true
is_done _ = false

-- deployResources, deployHelm and deployKustomizeRefs: a feature that is neither configured nor in the
-- status is left alone
abbrev deploy_if_used :
    {A : Type 0} → World → FeatureId → List A → ClusterSummary → ClusterSummary × Deployer.Return
deploy_if_used w id l cs =
    if is_empty l && not (is_some (summary cs id))
    then (cs, done)
    else deploy_feature id (w.deploying id) cs

abbrev error_of : Deployer.Return → List Deployer.Return
error_of r = if is_done r then [] else r ∷ []

-- deploy: the three features, each whatever came of the others, with the errors joined
unfoldable pub deploy : World → ClusterSummary → ClusterSummary × List Deployer.Return
deploy w cs =
    let (one, resource_error) = deploy_if_used w resources cs.spec.policy_refs cs in
    let (two, helm_error) = deploy_if_used w helm one.spec.helm_charts one in
    let (three, kustomize_error) = deploy_if_used w kustomize two.spec.kustomization_refs two in
    (three, error_of resource_error ++ (error_of helm_error ++ error_of kustomize_error))

abbrev pub is_conflict : ErrorType → Bool
is_conflict conflict_error = true
is_conflict _ = false

abbrev pub is_health_check : ErrorType → Bool
is_health_check health_check_error = true
is_health_check _ = false

-- errors.As on the joined errors
abbrev pub has_type : (ErrorType → Bool) → World → List Deployer.Return → Bool
has_type p w [] = false
has_type p w (r ∷ rest) = p (w.error_type r) || has_type p w rest

-- getMaxConsecutiveFailures, from the greatest number seen
pub max_failures : ℕ → List FeatureSummary → ℕ
max_failures n [] = n
max_failures n (fs ∷ rest) =
    max_failures (if ltb n fs.consecutive_failures then fs.consecutive_failures else n) rest

pub get_max_consecutive_failures : ClusterSummary → ℕ
unfolding max_failures
get_max_consecutive_failures cs = max_failures 0 cs.feature_summaries

abbrev min_multiplier : ℕ
min_multiplier = 2

abbrev max_multiplier : ℕ
max_multiplier = 6

abbrev pub or_min : Option ℕ → ℕ
or_min none = min_multiplier
or_min (some n) = n + min_multiplier

-- the multiplier for a number of failures above 1, so that the range below is not negative
abbrev pub multiplier : World → ℕ → ℕ
multiplier w failures =
    let ceiling = if ltb failures max_multiplier then failures else max_multiplier in
    or_min (w.random (suc ceiling - min_multiplier))

-- the delay after an error of no other type
pub back_off : World → ClusterSummary → ℕ
unfolding get_max_consecutive_failures
back_off w cs =
    let failures = get_max_consecutive_failures cs in
    if ltb 1 failures then multiplier w failures * normal_requeue_after else normal_requeue_after

abbrev put_off : World → ℕ → State → State × Result
put_off w d st = (set_next_reconcile_time w.now d st, requeue_after d)

abbrev interval : World → ℕ
interval w =
    if w.policy_ref_interval == 0
      || (ltb 0 w.kustomize_ref_interval && ltb w.kustomize_ref_interval w.policy_ref_interval)
    then w.kustomize_ref_interval
    else w.policy_ref_interval

abbrev after_success : World → State → State × Result
after_success w st =
    if is_dry_run st.object.spec.sync_mode
    then put_off w dry_run_requeue_after
        (record st { object = reset_feature_status_to_provisioning st.object })
    else (st, requeue_after (interval w))

abbrev pub after_deploy : World → State → List Deployer.Return → State × Result
after_deploy w st [] = after_success w st
after_deploy w st (r ∷ rest) =
    if has_type is_conflict w (r ∷ rest)
    then put_off w w.conflict_retry_time st
    else if has_type is_health_check w (r ∷ rest)
    then put_off w w.health_error_retry_time st
    else put_off w (back_off w st.object) st

-- proceedDeployingClusterSummary
pub proceed_deploying_cluster_summary : World → State → State × Result
unfolding deploy back_off reset_feature_status_to_provisioning set_next_reconcile_time
proceed_deploying_cluster_summary w st =
    let (cs, errors) = deploy w st.object in after_deploy w (record st { object = cs }) errors
