-- ===== src/Helm/Waiting/Profiles.antt =====
-- allMatchingProfilesProcessed (controllers/handlers_helm.go): which profiles an uninstall waits for.
use addon_controller.Common.{
  ◌≡◌, refl, sym, ◌∙◌, Bool, true, false, ◌&&◌, ◌||◌, if◌then◌else◌, ltb, leb, List, [], ◌∷◌, some,
  none, Option, not, ◌==◌, is_some, ◌⊎◌, ℕ, Text, text_eq, length, all, arith, inl, inr,
}
use addon_controller.Api.{ClusterSummary, ObjectReference}
use addon_controller.ChartManager.{Instance, is_dry_run}
use addon_controller.ChartManager.Queries.{get_registered_charts_count}
use addon_controller.Transition.{ProfileKind, cluster_profile, profile}
use addon_controller.Provisioned.{is_empty}
use addon_controller.RollingUpdate.{Lookup, found, not_found, failed}
use addon_controller.Helm.Ownership.{Answer, answer, failure}
use addon_controller.Helm.Uninstalling.{
  ListedProfile, Listing, Owned, is_passed_over, is_processed, is_profile_fully_processed,
  skips_dry_run, selector_matches_cluster, refs_cluster, created_after, of_summaries, among, both,
  all_processed, all_matching_profiles_processed,
}
use addon_controller.Helm.Waiting.{is_yes}

abbrev any_of : List ObjectReference → (ObjectReference → Bool) → Bool
any_of [] p = false
any_of (r ∷ rest) p = p r || any_of rest p

abbrev created_later : Option ℕ → ℕ → Bool
created_later none created = false
created_later (some deleted) created = ltb deleted created

abbrev is_dry_cluster_profile : ProfileKind → ListedProfile → Bool
is_dry_cluster_profile cluster_profile p = is_dry_run p.sync_mode
is_dry_cluster_profile profile p = false

-- The charts of the profile may be deployed in the cluster: it is not the owner, has charts, stays, was
-- there when the deletion started, and matches the cluster. A ClusterProfile in DryRun mode is left out.
abbrev pub is_awaited : ProfileKind → Text → ClusterSummary → ListedProfile → Bool
is_awaited kind owner cs p =
    not (p.name == owner)
    && not (is_empty p.helm_charts)
    && not (is_some p.deletion_timestamp)
    && not (created_later cs.deletion_timestamp p.creation_timestamp)
    && (p.selects
        || any_of p.cluster_refs
            (λ r. r.namespace == cs.cluster_namespace && r.name == cs.cluster_name))
    && not (is_dry_cluster_profile kind p)

-- its ClusterSummary for the cluster is there, and is paused or has registered as many charts as it has
abbrev pub has_registered : Instance → ListedProfile → Option (List Owned) → Bool
has_registered m p none = false
has_registered m p (some []) = false
has_registered m p (some (o ∷ rest)) =
    o.has_paused || leb (length p.helm_charts) (get_registered_charts_count m o.summary)

abbrev pub none_outstanding :
    Listing → ProfileKind → Text → Instance → ClusterSummary → Option (List ListedProfile) → Bool
none_outstanding l kind owner m cs none = false
none_outstanding l kind owner m cs (some listed) =
    all (λ p. not (is_awaited kind owner cs p) || has_registered m p (l.owned_by kind p.name))
      listed

-- the cluster is gone or going, or no profile of either kind is outstanding
abbrev pub is_wait_over : Listing → Instance → ClusterSummary → Lookup Bool → Bool
is_wait_over l m cs not_found = true
is_wait_over l m cs failed = false
is_wait_over l m cs (found true) = true
is_wait_over l m cs (found false) =
    none_outstanding l cluster_profile l.cluster_profile_label m cs l.cluster_profiles
    && none_outstanding l profile l.profile_label m cs l.profiles

refs_cluster_lem :
    (cs : ClusterSummary) (refs : List ObjectReference)
    → refs_cluster cs refs
      ≡ any_of refs (λ r. r.namespace == cs.cluster_namespace && r.name == cs.cluster_name)
refs_cluster_lem cs [] = refl
refs_cluster_lem cs (r ∷ rest) = ground (arith, refs_cluster_lem cs rest)

created_after_lem : (d : Option ℕ) (c : ℕ) → created_after d c ≡ created_later d c
created_after_lem none c = refl
created_after_lem (some d) c = refl

skips_dry_run_lem :
    (kind : ProfileKind) (p : ListedProfile) → skips_dry_run kind p ≡ is_dry_cluster_profile kind p
skips_dry_run_lem cluster_profile p = refl
skips_dry_run_lem profile p = refl

of_summaries_lem :
    (m : Instance) (p : ListedProfile) (o : Option (List Owned))
    → is_yes (of_summaries m p o) ≡ has_registered m p o
of_summaries_lem m p none = refl
of_summaries_lem m p (some []) = refl
of_summaries_lem m p (some (o ∷ rest)) = refl

one_processed :
    (skipped : Bool) (a later : Answer) (b : Bool)
    → is_yes later ≡ b
    → is_yes (
        if skipped then later else elim a [
          | failure ↦ failure
          | answer processed ↦ if processed then later else answer false
        ])
      ≡ ((skipped || is_yes a) && b)
one_processed true a later b h = h
one_processed false failure later b h = refl
one_processed false (answer true) later b h = h
one_processed false (answer false) later b h = refl

is_processed_lem :
    (l : Listing) (kind : ProfileKind) (owner : Text) (m : Instance) (cs : ClusterSummary)
    (p : ListedProfile)
    → (skips_dry_run kind p || is_yes (is_processed l kind owner m cs p))
      ≡ (not (is_awaited kind owner cs p) || has_registered m p (l.owned_by kind p.name))
unfolding is_processed is_profile_fully_processed is_passed_over selector_matches_cluster
is_processed_lem l kind owner m cs p = ground (
  arith,
  skips_dry_run_lem kind p,
  refs_cluster_lem cs p.cluster_refs,
  created_after_lem cs.deletion_timestamp p.creation_timestamp,
  of_summaries_lem m p (l.owned_by kind p.name),
)

all_processed_lem :
    (l : Listing) (kind : ProfileKind) (owner : Text) (m : Instance) (cs : ClusterSummary)
    (listed : List ListedProfile)
    → is_yes (all_processed l kind owner m cs listed)
      ≡ none_outstanding l kind owner m cs (some listed)
unfolding all_processed
all_processed_lem l kind owner m cs [] = refl
all_processed_lem l kind owner m cs (p ∷ rest) = rw (sym (is_processed_lem l kind owner m cs p)) (
    one_processed (skips_dry_run kind p) (is_processed l kind owner m cs p)
      (all_processed l kind owner m cs rest) (none_outstanding l kind owner m cs (some rest))
      (all_processed_lem l kind owner m cs rest))

among_lem :
    (l : Listing) (kind : ProfileKind) (owner : Text) (m : Instance) (cs : ClusterSummary)
    (listed : Option (List ListedProfile))
    → is_yes (among l kind owner m cs listed) ≡ none_outstanding l kind owner m cs listed
among_lem l kind owner m cs none = refl
among_lem l kind owner m cs (some listed) = all_processed_lem l kind owner m cs listed

both_lem : (a b : Answer) → is_yes (both a b) ≡ (is_yes a && is_yes b)
both_lem failure b = refl
both_lem (answer true) b = refl
both_lem (answer false) b = refl

Lookup-cases :
    (o : Lookup Bool) → ((o ≡ not_found) ⊎ (o ≡ failed)) ⊎ ((o ≡ found true) ⊎ (o ≡ found false))
Lookup-cases not_found = inl (inl refl)
Lookup-cases failed = inl (inr refl)
Lookup-cases (found true) = inr (inl refl)
Lookup-cases (found false) = inr (inr refl)

-- An uninstall need not wait for other profiles exactly where the cluster is gone or going, or both kinds of
-- profiles can be listed and each listed profile that is awaited has a ClusterSummary for the cluster that
-- is paused or has registered at least as many charts as the profile has. A profile is awaited if it is not
-- the owner, has charts, is not being deleted, was not created after the deletion started, and matches the
-- cluster, and is not a ClusterProfile in DryRun mode; a Profile in DryRun mode is awaited.
pub all_matching_profiles_processed_lem :
    (l : Listing) (m : Instance) (cs : ClusterSummary)
    → is_yes (all_matching_profiles_processed l m cs) ≡ is_wait_over l m cs l.cluster
unfolding all_matching_profiles_processed
all_matching_profiles_processed_lem l m cs = elim (Lookup-cases l.cluster) [
  | inl (inl e) ↦ rw e refl
  | inl (inr e) ↦ rw e refl
  | inr (inl e) ↦ rw e refl
  | inr (inr e) ↦ rw e (
      both_lem (among l cluster_profile l.cluster_profile_label m cs l.cluster_profiles)
        (among l profile l.profile_label m cs l.profiles)
      ∙ rw
          (
            among_lem l cluster_profile l.cluster_profile_label m cs l.cluster_profiles,
            among_lem l profile l.profile_label m cs l.profiles,
          )
          refl)
]
