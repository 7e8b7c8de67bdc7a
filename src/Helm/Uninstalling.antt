-- ===== src/Helm/Uninstalling.antt =====
-- controllers/handlers_helm.go: whether a ClusterSummary may uninstall a chart (canUninstallHelmChart). The
-- profiles that the API server lists, whether the selector of one matches the cluster, and the
-- ClusterSummary of a profile for the cluster are parameters.
use addon_controller.Common.{
  ℕ, Bool, true, false, not, ◌==◌, ◌&&◌, ◌||◌, if◌then◌else◌, ltb, leb, List, [], ◌∷◌, Option, none,
  some, Text, text_eq, length, is_some,
}
use addon_controller.Api.{ObjectReference, SyncMode, HelmChart, ClusterSummary}
use addon_controller.ChartManager.{
  Instance, is_dry_run, registered, unregister_cluster_summary_for_chart, summary_cluster_key,
  chart_key,
}
use addon_controller.ChartManager.Queries.{get_registered_charts_count}
use addon_controller.Provisioned.{is_empty}
use addon_controller.RollingUpdate.{Lookup, found, not_found, failed}
use addon_controller.Transition.{ProfileKind, cluster_profile, profile}
use addon_controller.Helm.Ownership.{
  State, World, Answer, answer, failure, determine_chart_ownership,
  requeue_all_other_cluster_summaries,
}

-- a ClusterProfile or Profile of a list; `selects` is the answer of its selector on the cluster's labels
pub record ListedProfile : Type 0 where
  pub name : Text
  pub sync_mode : SyncMode
  pub helm_charts : List HelmChart
  pub cluster_refs : List ObjectReference
  pub deletion_timestamp : Option ℕ
  pub creation_timestamp : ℕ
  pub selects : Bool

-- the ClusterSummary of a profile, with the annotation that pauses it
pub record Owned : Type 0 where
  pub summary : ClusterSummary
  pub has_paused : Bool

-- what the API server answers: `none` and `failed` are errors; the flag of the cluster says that it is
-- being deleted
pub record Listing : Type 0 where
  pub cluster : Lookup Bool
  pub cluster_profiles : Option (List ListedProfile)
  pub profiles : Option (List ListedProfile)
  pub owned_by : ProfileKind → Text → Option (List Owned)
  pub cluster_profile_label : Text
  pub profile_label : Text

abbrev pub refs_cluster : ClusterSummary → List ObjectReference → Bool
refs_cluster cs [] = false
refs_cluster cs (r ∷ rest) =
    r.namespace == cs.cluster_namespace && r.name == cs.cluster_name || refs_cluster cs rest

unfoldable pub selector_matches_cluster : ClusterSummary → ListedProfile → Bool
selector_matches_cluster cs p = p.selects || refs_cluster cs p.cluster_refs

-- the first ClusterSummary of the list has registered its charts; one that is paused is not waited for
abbrev pub all_registered : Instance → ListedProfile → List Owned → Bool
all_registered m p [] = false
all_registered m p (o ∷ rest) =
    o.has_paused || leb (length p.helm_charts) (get_registered_charts_count m o.summary)

abbrev pub of_summaries : Instance → ListedProfile → Option (List Owned) → Answer
of_summaries m p none = failure
of_summaries m p (some summaries) = answer (all_registered m p summaries)

-- isProfileFullyProcessed
unfoldable pub is_profile_fully_processed :
    Listing → ProfileKind → Instance → ListedProfile → Answer
is_profile_fully_processed l kind m p = of_summaries m p (l.owned_by kind p.name)

abbrev pub created_after : Option ℕ → ℕ → Bool
created_after none created = false
created_after (some deleted) created = ltb deleted created

-- A profile is not waited for: it owns the ClusterSummary, has no chart, is being deleted, was created
-- after the deletion started, or does not match the cluster.
unfoldable pub is_passed_over : Text → ClusterSummary → ListedProfile → Bool
unfolding selector_matches_cluster
is_passed_over owner cs p =
    p.name == owner
    || is_empty p.helm_charts
    || is_some p.deletion_timestamp
    || created_after cs.deletion_timestamp p.creation_timestamp
    || not (selector_matches_cluster cs p)

-- isClusterProfileProcessed and isProfileProcessed
unfoldable pub is_processed :
    Listing → ProfileKind → Text → Instance → ClusterSummary → ListedProfile → Answer
unfolding is_passed_over is_profile_fully_processed
is_processed l kind owner m cs p =
    if is_passed_over owner cs p then answer true else is_profile_fully_processed l kind m p

-- the loops over the listed profiles: of the two, only that over ClusterProfiles passes dry runs over
abbrev pub skips_dry_run : ProfileKind → ListedProfile → Bool
skips_dry_run cluster_profile p = is_dry_run p.sync_mode
skips_dry_run profile p = false

unfoldable pub all_processed :
    Listing → ProfileKind → Text → Instance → ClusterSummary → List ListedProfile → Answer
unfolding is_processed
all_processed l kind owner m cs [] = answer true
all_processed l kind owner m cs (p ∷ rest) =
    let later = all_processed l kind owner m cs rest in
    if skips_dry_run kind p then later else elim (is_processed l kind owner m cs p) [
      | failure ↦ failure
      | answer processed ↦ if processed then later else answer false
    ]

abbrev pub among :
    Listing → ProfileKind → Text → Instance → ClusterSummary → Option (List ListedProfile) → Answer
among l kind owner m cs none = failure
among l kind owner m cs (some listed) = all_processed l kind owner m cs listed

abbrev pub both : Answer → Answer → Answer
both failure later = failure
both (answer processed) later = if processed then later else answer false

-- allMatchingProfilesProcessed
unfoldable pub all_matching_profiles_processed : Listing → Instance → ClusterSummary → Answer
unfolding all_processed
all_matching_profiles_processed l m cs = elim l.cluster [
  | not_found ↦ answer true
  | failed ↦ failure
  | found deleted ↦
      if deleted
      then answer true
      else both (among l cluster_profile l.cluster_profile_label m cs l.cluster_profiles)
          (among l profile l.profile_label m cs l.profiles)
]

-- what canUninstallHelmChart returns; the last is WaitForProfileProcessingError
pub data Uninstall : Type 0 where
  can_uninstall cannot_uninstall uninstall_failure wait_for_profiles : Uninstall

abbrev pub of_processed : Answer → Uninstall
of_processed failure = uninstall_failure
of_processed (answer processed) = if processed then can_uninstall else wait_for_profiles

abbrev pub of_requeue : Bool × State → Uninstall × State
of_requeue (done, st) = (if done then cannot_uninstall else uninstall_failure, st)

-- the part of canUninstallHelmChart behind determineChartOwnership, for the manager of the chart
unfoldable pub yield_or_wait :
    World → Listing → ClusterSummary → HelmChart → State → Uninstall × State
unfolding all_matching_profiles_processed
yield_or_wait w l cs chart st =
    let others = registered st.charts (summary_cluster_key cs) (chart_key chart) in
    if ltb 1 (length others)
    then of_requeue (
        requeue_all_other_cluster_summaries w others
          (record st { charts = unregister_cluster_summary_for_chart st.charts cs chart }))
    else (of_processed (all_matching_profiles_processed l st.charts cs), st)

abbrev pub of_ownership :
    World → Listing → ClusterSummary → HelmChart → Answer × State → Uninstall × State
of_ownership w l cs chart (failure, st) = (uninstall_failure, st)
of_ownership w l cs chart (answer manages, st) =
    if manages then yield_or_wait w l cs chart st else (cannot_uninstall, st)

unfoldable pub can_uninstall_helm_chart :
    World → Listing → ClusterSummary → HelmChart → State → Uninstall × State
unfolding yield_or_wait
can_uninstall_helm_chart w l cs chart st =
    of_ownership w l cs chart (determine_chart_ownership w cs chart st)
