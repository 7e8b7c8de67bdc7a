-- ===== src/RollingUpdate.antt =====
-- controllers/profile_utils.go: how a (Cluster)Profile updates its ClusterSummaries a few clusters at
-- a time (MaxUpdate), with the status fields UpdatingClusters and UpdatedClusters. What the API
-- server answers is a parameter; a loop over a slice is a recursion on the list.
pub mod MaxUpdate
pub mod Pass
pub mod Bounds
pub mod Revising
use addon_controller.Common.{
  ℕ, suc, ◌+◌, ◌==◌, ◌&&◌, ◌||◌, not, ltb, leb, Bool, true, false, if◌then◌else◌, List, [], ◌∷◌,
  ◌++◌, Option, none, some, Text, text_eq, nat_eq, length, contains, select,
}
use addon_controller.Api.{ObjectReference, ref_eq, ClusterSummary}
use addon_controller.RefSet.{RefSet}
use addon_controller.Provisioned.{is_cluster_summary_provisioned}

-- the answer to a read: a value, a "not found" error or another error
pub data Lookup (A : Type 0) : Type 0 where
  found : A → Lookup A
  not_found : Lookup A
  failed : Lookup A

-- the answer of patchClusterSummary: an error has its message, and one says that the ClusterSummary is
-- being deleted
pub data PatchResult : Type 0 where
  patched : PatchResult
  being_deleted patch_failed : Text → PatchResult

-- what the cluster and its ClusterSummary look like to one reconciliation
pub record World : Type 0 where
  pub ready : ObjectReference → Lookup Bool
  pub paused : ObjectReference → Lookup Bool
  pub summary : ObjectReference → Lookup ClusterSummary
  pub patch : ObjectReference → PatchResult

pub record Clusters : Type 0 where
  pub hash : Text
  pub clusters : List ObjectReference

pub record FailedCluster : Type 0 where
  pub cluster_ref : ObjectReference
  pub failure_message : Text

pub record Status : Type 0 where
  pub matching_cluster_refs : List ObjectReference
  pub updating_clusters : Clusters
  pub updated_clusters : Clusters
  pub failed_clusters : List FailedCluster

abbrev same_cluster : ObjectReference → ObjectReference → Bool
same_cluster a b =
    a.namespace == b.namespace
    && a.name == b.name
    && a.kind == b.kind
    && a.api_version == b.api_version

-- SetFailedClusters and ClearFailedClusters of pkg/scope; the time of the failure is left out
pub set_failed : ObjectReference → Text → List FailedCluster → List FailedCluster
set_failed c message [] = record { cluster_ref = c; failure_message = message } ∷ []
set_failed c message (fc ∷ rest) =
    let later = fc ∷ set_failed c message rest in
    if same_cluster fc.cluster_ref c then record fc { failure_message = message } ∷ rest else later

pub clear_failed : ObjectReference → List FailedCluster → List FailedCluster
clear_failed c [] = []
clear_failed c (fc ∷ rest) =
    let later = fc ∷ clear_failed c rest in if same_cluster fc.cluster_ref c then rest else later

-- the errors that a pass ends with
pub data Failure : Type 0 where
  not_all_updated : ℕ → Failure
  summaries_being_deleted : Failure
  deleted_out_of_band : Failure
  api_error : Failure

-- what the loop of reviseUpdatingClusterList has built: UpdatedClusters, the clusters that stay in
-- UpdatingClusters, and whether a ClusterSummary was deleted out of band
pub record Revision : Type 0 where
  pub updated : List ObjectReference
  pub updating : List ObjectReference
  pub out_of_band : Bool

-- a cluster whose ClusterSummary is not provisioned
abbrev pub keep_updating : World → ℕ → ObjectReference → Revision → Option Revision
keep_updating w max c rev =
    let kept = some (record rev { updating = rev.updating ++ c ∷ [] }) in
    if max == 0 then kept else elim (w.paused c) [
      | found true ↦ some rev
      | found false ↦ kept
      | not_found ↦ kept
      | failed ↦ none
    ]

module _ (S : RefSet) where
  open S use {Carrier, empty, has, insert as put}

  -- the loops that fill a set
  abbrev pub set_of : Carrier → List ObjectReference → Carrier
  set_of s [] = s
  set_of s (c ∷ cs) = set_of (put s c) cs

  -- reviseUpdatedAndUpdatingClusters
  pub revise_updated_and_updating_clusters : Status → Status
  revise_updated_and_updating_clusters st =
      let matches = has (set_of empty st.matching_cluster_refs) in
      record st {
        updated_clusters = record (st.updated_clusters) {
          clusters = select matches st.updated_clusters.clusters;
        };
        updating_clusters = record (st.updating_clusters) {
          clusters = select matches st.updating_clusters.clusters;
        };
      }

  -- `known` is the set of updated clusters that the function takes before its loop
  abbrev pub revise_cluster : World → ℕ → Carrier → ObjectReference → Revision → Option Revision
  revise_cluster w max known c rev = elim (w.summary c) [
    | not_found ↦ some (record rev { out_of_band = true })
    | failed ↦ none
    | found cs ↦
        if is_cluster_summary_provisioned cs
        then some (if has known c then rev else record rev { updated = rev.updated ++ c ∷ [] })
        else keep_updating w max c rev
  ]

  pub revise_clusters :
      World → ℕ → Carrier → List ObjectReference → Revision → Option Revision × Revision
  revise_clusters w max known [] rev = (some rev, rev)
  revise_clusters w max known (c ∷ rest) rev = elim (revise_cluster w max known c rev) [
    | none ↦ (none, rev)
    | some next ↦ revise_clusters w max known rest next
  ]

  -- reviseUpdatingClusterList; an error in the loop leaves what it has appended to UpdatedClusters
  pub revise_updating_cluster_list : World → ℕ → Text → Status → Status × Option Failure
  unfolding revise_clusters
  revise_updating_cluster_list w max hash st =
      if not (st.updating_clusters.hash == hash)
      then (st, none)
      else let updated = st.updated_clusters.clusters in
        let start : Revision = record { updated = updated; updating = []; out_of_band = false } in
        let (outcome, rev) =
          revise_clusters w max (set_of empty updated) st.updating_clusters.clusters start in
        let st' = record st {
          updated_clusters = record (st.updated_clusters) {
            clusters = elim outcome [ none ↦ rev.updated | some r ↦ r.updated ];
          };
        } in
        elim outcome [
          | none ↦ (st', some api_error)
          | some r ↦ (
            record st' {
              updating_clusters = record (st.updating_clusters) { clusters = r.updating };
            },
            if r.out_of_band then some deleted_out_of_band else none,
          )
        ]
