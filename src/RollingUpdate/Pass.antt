-- ===== src/RollingUpdate/Pass.antt =====
-- updateClusterSummaries and updateClusterSummaryInstanceForCluster: one pass over the matching
-- clusters.
use addon_controller.Common.{
  ℕ, ◌==◌, ◌&&◌, not, leb, Bool, true, false, if◌then◌else◌, List, [], ◌∷◌, ◌++◌, Option, none,
  some, Text, text_eq, nat_eq, length,
}
use addon_controller.Api.{ObjectReference}
use addon_controller.RefSet.{RefSet}
use addon_controller.RollingUpdate.{
  found, not_found, failed, patched, being_deleted, patch_failed, World, Clusters, Status, Failure,
  not_all_updated, summaries_being_deleted, api_error, set_failed, clear_failed,
  revise_updated_and_updating_clusters, revise_updating_cluster_list, set_of,
}

-- updateOutcome, with the errors of updateClusterSummaryInstanceForCluster
pub data Outcome : Type 0 where
  done throttled ignored summary_deleted error : Outcome

module _ (S : RefSet) (w : World) where
  open S use {Carrier, empty, has, len, insert as put}

  -- the patch of the ClusterSummary, whose result goes to FailedClusters
  abbrev pub patch_cluster : ObjectReference → Status → Status × Outcome
  patch_cluster c st = elim (w.patch c) [
    | patched ↦ (record st { failed_clusters = clear_failed c st.failed_clusters }, done)
    | being_deleted message ↦
        (record st { failed_clusters = set_failed c message st.failed_clusters }, summary_deleted)
    | patch_failed message ↦
        (record st { failed_clusters = set_failed c message st.failed_clusters }, error)
  ]

  -- behind the reads: no more than `max` clusters are updated in parallel
  abbrev pub throttle : ℕ → Carrier → ObjectReference → Status → Status × Outcome
  throttle max updating c st =
      if not (max == 0) && not (has updating c) && leb max (len updating)
      then (st, throttled)
      else patch_cluster c st

  -- a ready cluster; it must not be paused if `max` is set
  abbrev pub unless_paused : ℕ → Carrier → ObjectReference → Status → Status × Outcome
  unless_paused max updating c st =
      if max == 0 then throttle max updating c st else elim (w.paused c) [
        | found true ↦ (st, ignored)
        | found false ↦ throttle max updating c st
        | not_found ↦ (st, error)
        | failed ↦ (st, error)
      ]

  unfoldable pub update_cluster_summary_instance_for_cluster :
      ℕ → Carrier → ObjectReference → Status → Status × Outcome
  update_cluster_summary_instance_for_cluster max updating c st = elim (w.ready c) [
    | found true ↦ unless_paused max updating c st
    | found false ↦ (st, ignored)
    | not_found ↦ (st, ignored)
    | failed ↦ (st, error)
  ]

  -- the variables of the loop of updateClusterSummaries
  pub record Progress : Type 0 where
    pub status : Status
    pub updating : Carrier
    pub deleted : Bool
    pub skipped : Bool

  -- a cluster that is being updated holds a slot, once
  abbrev pub take_slot : ObjectReference → Progress → Progress
  take_slot c g = if has g.updating c then g else record g {
    updating = put g.updating c;
    status = record (g.status) {
      updating_clusters = record (g.status.updating_clusters) {
        clusters = g.status.updating_clusters.clusters ++ c ∷ [];
      };
    };
  }

  -- what the loop does with an outcome; an error ends it
  abbrev pub after : ObjectReference → Outcome → Progress → Option Progress
  after c done g = some (take_slot c g)
  after c throttled g = some (record g { skipped = true })
  after c ignored g = some g
  after c summary_deleted g = some (record g { deleted = true })
  after c error g = none

  abbrev pub updated_status : ℕ → ObjectReference → Progress → Progress
  updated_status max c g = record g {
    status = (update_cluster_summary_instance_for_cluster max g.updating c g.status).0;
  }

  abbrev pub outcome_of : ℕ → ObjectReference → Progress → Outcome
  outcome_of max c g = (update_cluster_summary_instance_for_cluster max g.updating c g.status).1

  -- one round of the loop
  unfoldable pub visit : ℕ → Carrier → ObjectReference → Progress → Option Progress
  unfolding update_cluster_summary_instance_for_cluster
  visit max updated c g =
      if has updated c then some g else after c (outcome_of max c g) (updated_status max c g)

  -- with the state that an error leaves
  unfoldable pub visit_all :
      ℕ → Carrier → List ObjectReference → Progress → Option Progress × Progress
  unfolding visit
  visit_all max updated [] g = (some g, g)
  visit_all max updated (c ∷ rest) g = elim (visit max updated c g) [
    | none ↦ (none, if has updated c then g else updated_status max c g)
    | some next ↦ visit_all max updated rest next
  ]

  abbrev no_clusters : Clusters
  no_clusters = record { hash = []; clusters = [] }

  -- what follows the loop
  abbrev pub finish : Text → Progress → Status × Option Failure
  finish hash g =
      let st = record (g.status) {
        updating_clusters = record (g.status.updating_clusters) { hash = hash };
      } in
      if g.skipped
      then (st, some (not_all_updated (length st.updating_clusters.clusters)))
      else if g.deleted
      then (st, some summaries_being_deleted)
      else (record st { updated_clusters = no_clusters; updating_clusters = no_clusters }, none)

  abbrev pub forget_updated : Text → Status → Status
  forget_updated hash st =
      if st.updated_clusters.hash == hash
      then st
      else record st { updated_clusters = record { hash = hash; clusters = [] } }

  abbrev pub start_of : Status → Progress
  start_of st = record {
    status = st;
    updating = set_of S empty st.updating_clusters.clusters;
    deleted = false;
    skipped = false;
  }

  abbrev pub finish_loop : Text → Option Progress × Progress → Status × Option Failure
  finish_loop hash (none, g) = (g.status, some api_error)
  finish_loop hash (some g, _) = finish hash g

  -- the loop and what follows it
  unfoldable pub update_matching : ℕ → Text → Status → Status × Option Failure
  unfolding visit_all
  update_matching max hash st = finish_loop hash (
      visit_all max (set_of S empty st.updated_clusters.clusters) st.matching_cluster_refs
        (start_of st))

  abbrev after_revision : ℕ → Text → Status × Option Failure → Status × Option Failure
  after_revision max hash (st, some failure) = (st, some failure)
  after_revision max hash (st, none) = update_matching max hash st

  unfoldable pub update_cluster_summaries : ℕ → Text → Status → Status × Option Failure
  unfolding update_matching
  update_cluster_summaries max hash st = after_revision max hash (
      revise_updating_cluster_list S w max hash
        (revise_updated_and_updating_clusters S (forget_updated hash st)))
