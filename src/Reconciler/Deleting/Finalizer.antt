-- ===== src/Reconciler/Deleting/Finalizer.antt =====
-- What has happened when the finalizer of a ClusterSummary goes.
use addon_controller.Common.{
  ◌≡◌, refl, sym, ap, ◌∙◌, subst, Bool, true, false, not, ◌&&◌, if◌then◌else◌, Option, none, some,
  Text, is_some, arith, Bool-cases, inl, inr,
}
use addon_controller.Api.{status_eq, ClusterSummary}
use addon_controller.Deployer.Undeploying
use addon_controller.Deployer.Undeploying.{
  done, deploying_in_progress, pull_mode_unknown, still_being_removed, cleanup_queued, error,
}
use addon_controller.RollingUpdate.{found}
use addon_controller.Transition.{
  Gate, no_transitions, cluster_not_found, all_successors_provisioned, gate_error, not_deployed_yet,
  not_fully_deployed_yet, is_open, are_successors_provisioned,
}
use addon_controller.Reconciler.{
  State, Result, requeue_after, mark_resource_summary_removed_for_all_features,
  any_feature_needs_resource_summary_removal, update_deleted_instances, delete_requeue_after,
}
use addon_controller.Reconciler.Gates.{
  Check, check_error, check, is_open_check, are_dependents_removed,
}
use addon_controller.Reconciler.Deleting.{
  World, process_undeploy_error, undeploy, can_remove_finalizer, is_done, end_of_undeploy,
  undeploy_and_check, behind_gate, behind_dependents, pass_gates, remove_resource_summaries,
  cleanup_before_finalizer_removal, after_removal, by_pause, by_readiness, after_cleanup, tear_down,
  by_cluster, reconcile_delete, on_object, suspend, with_message,
}

-- With `mid` as the object, nobody depended on the profile any more and its successors were provisioned;
-- from it the three features were undeployed without an error, which left the object from which the
-- finalizer may be removed.
abbrev pub TornDown : World → ClusterSummary → Type 0
TornDown w after =
    (mid : ClusterSummary) × (is_open_check (are_dependents_removed w.owner w.of_cluster mid)
      ≡ true)
    × (is_open (are_successors_provisioned w.transition mid) ≡ true)
    × (undeploy w mid ≡ (after, done))
    × (can_remove_finalizer w after ≡ true)

abbrev goes_on : State × Option Result → Bool
goes_on (st, r) = not (is_some r)

is_done-done : (r : Undeploying.Return) → is_done r ≡ true → r ≡ done
is_done-done done h = refl
is_done-done deploying_in_progress h = ground (arith, h)
is_done-done pull_mode_unknown h = ground (arith, h)
is_done-done still_being_removed h = ground (arith, h)
is_done-done cleanup_queued h = ground (arith, h)
is_done-done (error m) h = ground (arith, h)

-- what the end of an undeploy with no result says
abbrev Undeployed : World → ClusterSummary × Undeploying.Return → ClusterSummary → Type 0
Undeployed w r after = (r ≡ (after, done)) × (can_remove_finalizer w after ≡ true)

end_of_undeploy-goes_on :
    (w : World) (st : State) (cs : ClusterSummary) (r : Undeploying.Return)
    → goes_on (end_of_undeploy w st (cs, r)) ≡ true
    → Undeployed w (cs, r) (end_of_undeploy w st (cs, r)).0.object
end_of_undeploy-goes_on w st cs r h = elim (Bool-cases (is_done r)) [
  | inl y ↦ elim (Bool-cases (can_remove_finalizer w cs)) [
    | inl z ↦ rw (y, z) (ap (λ e. (cs, e)) (is_done-done r y), z)
    | inr z ↦ ground (arith, h, y, z)
  ]
  | inr y ↦ ground (arith, h, y)
]

undeploy_and_check-goes_on :
    (w : World) (st : State)
    → goes_on (undeploy_and_check w st) ≡ true
    → Undeployed w (undeploy w st.object) (undeploy_and_check w st).0.object
unfolding undeploy_and_check
undeploy_and_check-goes_on w st h =
    let r = undeploy w st.object in end_of_undeploy-goes_on w st r.0 r.1 h

behind_gate-goes_on :
    (w : World) (gate : Gate) (st : State)
    → goes_on (behind_gate w gate st) ≡ true
    → (is_open gate ≡ true) × Undeployed w (undeploy w st.object) (behind_gate w gate st).0.object
behind_gate-goes_on w gate_error st h = ground (arith, h)
behind_gate-goes_on w no_transitions st h = (refl, undeploy_and_check-goes_on w _ h)
behind_gate-goes_on w cluster_not_found st h = (refl, undeploy_and_check-goes_on w _ h)
behind_gate-goes_on w all_successors_provisioned st h = (refl, undeploy_and_check-goes_on w _ h)
behind_gate-goes_on w (not_deployed_yet s) st h = ground (arith, h)
behind_gate-goes_on w (not_fully_deployed_yet s) st h = ground (arith, h)

behind_dependents-goes_on :
    (w : World) (c : Check) (st : State)
    → are_dependents_removed w.owner w.of_cluster st.object ≡ c
    → goes_on (behind_dependents w c st) ≡ true
    → TornDown w (behind_dependents w c st).0.object
behind_dependents-goes_on w check_error st e h = ground (arith, h)
behind_dependents-goes_on w (check false m) st e h = ground (arith, h)
behind_dependents-goes_on w (check true m) st e h =
    let gate = are_successors_provisioned w.transition st.object in
    let last = behind_gate-goes_on w gate (with_message m st) h in
    (st.object, ap is_open_check e, last.0, last.1.0, last.1.1)

pass_gates-goes_on :
    (w : World) (st : State)
    → goes_on (pass_gates w st) ≡ true
    → TornDown w (pass_gates w st).0.object
unfolding pass_gates
pass_gates-goes_on w st h = behind_dependents-goes_on w _ st refl h

after_removal-goes_on :
    (w : World) (e : Option Text) (st : State)
    → goes_on (after_removal w e st) ≡ true
    → TornDown w (after_removal w e st).0.object
after_removal-goes_on w (some message) st h = ground (arith, h)
after_removal-goes_on w none st h =
    pass_gates-goes_on w (on_object mark_resource_summary_removed_for_all_features st) h

remove_resource_summaries-goes_on :
    (w : World) (is_deleted : Bool) (st : State)
    → goes_on (remove_resource_summaries w is_deleted st) ≡ true
    → TornDown w (remove_resource_summaries w is_deleted st).0.object
unfolding remove_resource_summaries
remove_resource_summaries-goes_on w is_deleted st =
    choose (not is_deleted && any_feature_needs_resource_summary_removal st.object)
  where
    choose :
        (b : Bool)
        → goes_on (if b then after_removal w w.resource_summary_error st else pass_gates w st)
          ≡ true
        → TornDown w
            (if b then after_removal w w.resource_summary_error st else pass_gates w st).0.object
    choose true h = after_removal-goes_on w w.resource_summary_error st h
    choose false h = pass_gates-goes_on w st h

by_pause-goes_on :
    (w : World) (is_deleted : Bool) (paused : Option Bool) (st : State)
    → goes_on (by_pause w is_deleted paused st) ≡ true
    → (paused ≡ some false) × TornDown w (by_pause w is_deleted paused st).0.object
by_pause-goes_on w is_deleted none st h = ground (arith, h)
by_pause-goes_on w is_deleted (some true) st h = ground (arith, h)
by_pause-goes_on w is_deleted (some false) st h =
    (refl, remove_resource_summaries-goes_on w is_deleted (suspend false st) h)

-- No step of the cleanup touches the finalizer.
abbrev Keeps : State × Option Result → State → Type 0
Keeps r st = r.0.has_finalizer ≡ st.has_finalizer

if-Keeps :
    (b : Bool) (r t : State × Option Result) (st : State)
    → Keeps r st
    → Keeps t st
    → Keeps (if b then r else t) st
if-Keeps true r t st h k = h
if-Keeps false r t st h k = k

undeploy_and_check-Keeps : (w : World) (st : State) → Keeps (undeploy_and_check w st) st
unfolding undeploy_and_check
undeploy_and_check-Keeps w st =
    let r = undeploy w st.object in
    let next : State = record st { object = r.0 } in
    if-Keeps (not (is_done r.1)) (next, some (process_undeploy_error w r.0 r.1))
      (if not (can_remove_finalizer w r.0)
        then (next, some (requeue_after delete_requeue_after))
        else (next, none))
      st refl
      (if-Keeps (not (can_remove_finalizer w r.0)) (next, some (requeue_after delete_requeue_after))
        (next, none) st refl refl)

behind_gate-Keeps : (w : World) (g : Gate) (st : State) → Keeps (behind_gate w g st) st
behind_gate-Keeps w gate_error st = refl
behind_gate-Keeps w no_transitions st = undeploy_and_check-Keeps w _
behind_gate-Keeps w cluster_not_found st = undeploy_and_check-Keeps w _
behind_gate-Keeps w all_successors_provisioned st = undeploy_and_check-Keeps w _
behind_gate-Keeps w (not_deployed_yet s) st = refl
behind_gate-Keeps w (not_fully_deployed_yet s) st = refl

behind_dependents-Keeps : (w : World) (c : Check) (st : State) → Keeps (behind_dependents w c st) st
behind_dependents-Keeps w check_error st = refl
behind_dependents-Keeps w (check false m) st = refl
behind_dependents-Keeps w (check true m) st =
    behind_gate-Keeps w (are_successors_provisioned w.transition st.object) (with_message m st)

pass_gates-Keeps : (w : World) (st : State) → Keeps (pass_gates w st) st
unfolding pass_gates
pass_gates-Keeps w st = behind_dependents-Keeps w _ st

after_removal-Keeps : (w : World) (e : Option Text) (st : State) → Keeps (after_removal w e st) st
after_removal-Keeps w (some message) st = refl
after_removal-Keeps w none st = pass_gates-Keeps w _

by_pause-Keeps :
    (w : World) (d : Bool) (p : Option Bool) (st : State) → Keeps (by_pause w d p st) st
unfolding remove_resource_summaries
by_pause-Keeps w d none st = refl
by_pause-Keeps w d (some true) st = refl
by_pause-Keeps w d (some false) st =
    if-Keeps (not d && any_feature_needs_resource_summary_removal st.object)
      (after_removal w w.resource_summary_error (suspend false st))
      (pass_gates w (suspend false st)) st
      (after_removal-Keeps w w.resource_summary_error (suspend false st))
      (pass_gates-Keeps w (suspend false st))

-- the object of a teardown whose finalizer went, in a cluster that stays
abbrev pub SafelyRemoved : World → State → Type 0
SafelyRemoved w after = (w.ready ≡ some true) × (w.paused ≡ some false) × TornDown w after.object

after_cleanup-removed :
    (w : World) (r : State × Option Result)
    → (after_cleanup w false r).0.has_finalizer ≡ false
    → r.0.has_finalizer ≡ true
    → (goes_on r ≡ true) × ((after_cleanup w false r).0.object ≡ r.0.object)
after_cleanup-removed w (st, some r) h k = ground (arith, h, k)
after_cleanup-removed w (st, none) h k =
    elim (Bool-cases (st.has_finalizer && not w.finalizer_updated)) [
      | inl kept ↦ ground (arith, h, k, kept)
      | inr goes ↦ (refl, rw goes refl)
    ]

tear_down-removed :
    (w : World) (is_ready : Bool) (st : State)
    → st.has_finalizer ≡ true
    → (tear_down w is_ready false st).0.has_finalizer ≡ false
    → (is_ready ≡ true)
      × (w.paused ≡ some false)
      × TornDown w (tear_down w is_ready false st).0.object
unfolding cleanup_before_finalizer_removal
tear_down-removed w false st k h = ground (arith, h, k)
tear_down-removed w true st k h =
    let r = cleanup_before_finalizer_removal w false st in
    let kept = by_pause-Keeps w false w.paused st in
    let last = after_cleanup-removed w r h (kept ∙ k) in
    let torn = by_pause-goes_on w false w.paused st last.0 in
    (refl, torn.0, subst (TornDown w) (sym last.1) torn.1)

by_readiness-removed :
    (w : World) (ready : Option Bool) (st : State)
    → w.cluster ≡ found false
    → st.has_finalizer ≡ true
    → (by_readiness w ready st).0.has_finalizer ≡ false
    → (ready ≡ some true) × (w.paused ≡ some false) × TornDown w (by_readiness w ready st).0.object
by_readiness-removed w none st c k h = ground (arith, h, k)
by_readiness-removed w (some is_ready) st c k h =
    let same = ap (λ l. by_cluster w is_ready l st) c in
    let torn = tear_down-removed w is_ready st k (ap (λ r. r.0.has_finalizer) (sym same) ∙ h) in
    (ap some torn.0, torn.1, subst (λ r. TornDown w r.0.object) (sym same) torn.2)

-- While its cluster stays, the finalizer of a deleted ClusterSummary goes only where the cluster was ready
-- and not paused, no other ClusterSummary of the cluster depended on the profile, the successors that
-- match the cluster were provisioned, and the three features were undeployed with no error, which left
-- an object from which the finalizer may be removed.
pub reconcile_delete-SafelyRemoved :
    (w : World) (st : State)
    → w.cluster ≡ found false
    → st.has_finalizer ≡ true
    → (reconcile_delete w st).0.has_finalizer ≡ false
    → SafelyRemoved w (reconcile_delete w st).0
unfolding reconcile_delete update_deleted_instances
reconcile_delete-SafelyRemoved w st c k h = choose w.health_monitoring_removed h
  where
    started : State
    started = update_deleted_instances w.now st

    choose :
        (b : Bool)
        → (if not b
            then (started, requeue_after delete_requeue_after)
            else by_readiness w w.ready started).0.has_finalizer
          ≡ false
        → SafelyRemoved w
            (if not b
              then (started, requeue_after delete_requeue_after)
              else by_readiness w w.ready started).0
    choose true e = by_readiness-removed w w.ready started c k e
    choose false e = ground (arith, e, k)
