-- ===== src/Reconciler/Gates.antt =====
-- controllers/clustersummary_controller.go: the gates of dependsOn, on the way up
-- (areDependenciesDeployed) and on the way down (areDependentsRemoved).
use addon_controller.Common.{
  ◌≡◌, refl, Bool, true, false, not, ◌==◌, ◌||◌, if◌then◌else◌, List, [], ◌∷◌, Option, none, some,
  Text, text_eq, contains, all, arith,
}
use addon_controller.Api.{ClusterSummary}
use addon_controller.Provisioned.{is_empty, is_cluster_summary_provisioned}
use addon_controller.RollingUpdate.{Lookup, found, not_found, failed}
use addon_controller.Transition.{ProfileKind, Owner}
use addon_controller.Reconciler.{
  Message, no_message, no_dependencies, all_dependencies_deployed, dependency_not_found,
  dependency_not_deployed, still_needed_by,
}

-- what a gate answers: an error, or whether it is open, with its message
pub data Check : Type 0 where
  check_error : Check
  check : Bool → Message → Check

abbrev pub is_open_check : Check → Bool
is_open_check check_error = false
is_open_check (check b m) = b

-- the loop over DependsOn; `lookup` finds the ClusterSummary of a profile for the cluster
pub check_dependencies : (Text → Lookup ClusterSummary) → Message → List Text → Check
check_dependencies lookup last [] = check true last
check_dependencies lookup last (name ∷ rest) =
    let later = check_dependencies lookup last rest in
    elim (lookup name) [
      | not_found ↦ check false (dependency_not_found name)
      | failed ↦ check_error
      | found cs ↦
          if not (is_cluster_summary_provisioned cs)
          then check false (dependency_not_deployed name)
          else later
    ]

-- areDependenciesDeployed; `none` is the error about the owner
unfoldable pub are_dependencies_deployed :
    Option Owner → (ProfileKind → Text → Lookup ClusterSummary) → ClusterSummary → Check
unfolding check_dependencies
are_dependencies_deployed none lookup cs = check_error
are_dependencies_deployed (some owner) lookup cs =
    check_dependencies (lookup owner.kind)
      (if is_empty cs.spec.depends_on then no_dependencies else all_dependencies_deployed)
      cs.spec.depends_on

-- the loop over the ClusterSummaries of the cluster
pub check_dependents : Text → Text → List ClusterSummary → Check
check_dependents own profile [] = check true no_message
check_dependents own profile (other ∷ rest) =
    let later = check_dependents own profile rest in
    if other.name == own
    then later
    else if contains other.spec.depends_on profile
    then check false (still_needed_by other.name)
    else later

-- areDependentsRemoved; the second `none` is an error of the list
unfoldable pub are_dependents_removed :
    Option Owner → Option (List ClusterSummary) → ClusterSummary → Check
unfolding check_dependents
are_dependents_removed none listed cs = check_error
are_dependents_removed (some owner) none cs = check_error
are_dependents_removed (some owner) (some listed) cs = check_dependents cs.name owner.name listed

-- the dependency is there and provisioned
abbrev pub is_deployed_dependency : Lookup ClusterSummary → Bool
is_deployed_dependency (found cs) = is_cluster_summary_provisioned cs
is_deployed_dependency not_found = false
is_deployed_dependency failed = false

check_dependencies-all :
    (lookup : Text → Lookup ClusterSummary) (last : Message) (names : List Text)
    → is_open_check (check_dependencies lookup last names)
      ≡ all (λ n. is_deployed_dependency (lookup n)) names
unfolding check_dependencies
check_dependencies-all lookup last [] = refl
check_dependencies-all lookup last (name ∷ rest) =
    ground (arith, check_dependencies-all lookup last rest)

-- A ClusterSummary owned by a profile passes the gate exactly where each profile that it depends on has,
-- in its cluster, a ClusterSummary that is provisioned.
pub are_dependencies_deployed-all :
    (owner : Owner) (lookup : ProfileKind → Text → Lookup ClusterSummary) (cs : ClusterSummary)
    → is_open_check (are_dependencies_deployed (some owner) lookup cs)
      ≡ all (λ n. is_deployed_dependency (lookup owner.kind n)) cs.spec.depends_on
unfolding are_dependencies_deployed
are_dependencies_deployed-all owner lookup cs =
    check_dependencies-all (lookup owner.kind)
      (if is_empty cs.spec.depends_on then no_dependencies else all_dependencies_deployed)
      cs.spec.depends_on

-- nobody but the ClusterSummary itself names the profile
abbrev pub needs_not : Text → Text → ClusterSummary → Bool
needs_not own profile other = other.name == own || not (contains other.spec.depends_on profile)

check_dependents-all :
    (own profile : Text) (listed : List ClusterSummary)
    → is_open_check (check_dependents own profile listed) ≡ all (needs_not own profile) listed
unfolding check_dependents
check_dependents-all own profile [] = refl
check_dependents-all own profile (other ∷ rest) =
    ground (arith, check_dependents-all own profile rest)

-- Teardown passes the gate exactly where no other ClusterSummary of the cluster depends on a profile of
-- that name, whatever the kinds of the two profiles are.
pub are_dependents_removed-all :
    (owner : Owner) (listed : List ClusterSummary) (cs : ClusterSummary)
    → is_open_check (are_dependents_removed (some owner) (some listed) cs)
      ≡ all (needs_not cs.name owner.name) listed
unfolding are_dependents_removed
are_dependents_removed-all owner listed cs = check_dependents-all cs.name owner.name listed
