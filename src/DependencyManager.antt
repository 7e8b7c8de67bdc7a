-- ===== src/DependencyManager.antt =====
-- controllers/dependencymanager/manager.go: which profiles must be deployed to which clusters because
-- profiles that depend on them are. A nil map reads and ranges as an empty one. The code keeps a
-- `ClusterDeployments` by value around a shared map and always stores it back, so an update in
-- place is an update of the record here. The mutex makes UpdateDependencies one step.
pub mod Registering
pub mod Removing
pub mod Updating
pub mod Refinement
pub mod Occupied
pub mod History
pub mod Marks
pub mod Hash
mod Examples
use addon_controller.Common.{
  Bool, true, false, ◌&&◌, ◌||◌, not, if◌then◌else◌, List, [], ◌∷◌, Option, none, some, Text,
  contains, keys, is_some, lookup, insert, erase,
}
use addon_controller.Api.{ObjectReference, ref_eq}
use addon_controller.RefSet.{RefSet}

-- RequestingProfiles: map[corev1.ObjectReference]bool
abbrev pub RequestingProfiles : Type 0
RequestingProfiles = List (ObjectReference × Bool)

-- ClusterDeployments: by cluster, the profiles that request the deployment
abbrev pub ClusterDeployments : Type 0
ClusterDeployments = List (ObjectReference × RequestingProfiles)

-- ProfileDeployments: by profile, its cluster deployments
abbrev pub ProfileDeployments : Type 0
ProfileDeployments = List (ObjectReference × ClusterDeployments)

abbrev pub or_nil {ℓ} : {A : Type ℓ} → Option (List A) → List A
or_nil none = []
or_nil (some l) = l

-- addDependent and removeDependent of RequestingProfiles
abbrev pub add_dependent : RequestingProfiles → ObjectReference → RequestingProfiles
add_dependent rp dependent = insert dependent true rp

abbrev pub drop_dependent : RequestingProfiles → ObjectReference → RequestingProfiles
drop_dependent rp dependent = erase dependent rp

-- addCluster, hasCluster, getRequestingProfiles and setRequestingProfiles of ClusterDeployments
abbrev pub has_cluster : ClusterDeployments → ObjectReference → Bool
has_cluster cd cluster = is_some (lookup cluster cd)

abbrev pub add_cluster : ClusterDeployments → ObjectReference → ClusterDeployments
add_cluster cd cluster = if has_cluster cd cluster then cd else insert cluster [] cd

abbrev pub requesting_profiles : ClusterDeployments → ObjectReference → RequestingProfiles
requesting_profiles cd cluster = or_nil (lookup cluster cd)

abbrev pub set_requesting_profiles :
    ClusterDeployments → ObjectReference → RequestingProfiles → ClusterDeployments
set_requesting_profiles cd cluster rp = insert cluster rp cd

-- hasProfile and getClusterDeployments of ProfileDeployments; addProfile and removeProfile are
-- `insert` and `erase`
abbrev pub has_profile : ProfileDeployments → ObjectReference → Bool
has_profile pd profile = is_some (lookup profile pd)

abbrev pub cluster_deployments : ProfileDeployments → ObjectReference → ClusterDeployments
cluster_deployments pd profile = or_nil (lookup profile pd)

-- getPrerequesites; `version` is the text of configv1beta1.GroupVersion
pub get_prerequesites : Text → Text → Text → List Text → List ObjectReference
get_prerequesites version kind namespace [] = []
get_prerequesites version kind namespace (name ∷ rest) =
    record {
      kind = kind;
      namespace = namespace;
      name = name;
      uid = [];
      api_version = version;
      resource_version = [];
      field_path = [];
    }
    ∷ get_prerequesites version kind namespace rest

abbrev pub is_nil {ℓ} : {A : Type ℓ} → List A → Bool
is_nil [] = true
is_nil (x ∷ xs) = false

-- the range of removeDependent over the clusters of a prerequisite: the dependent is taken out of
-- each cluster that is not excluded, and a cluster that nobody requests is deleted
pub clean_clusters :
    ObjectReference → List ObjectReference → ClusterDeployments → ClusterDeployments
clean_clusters dependent excluded [] = []
clean_clusters dependent excluded ((cluster, rp) ∷ rest) =
    let others = clean_clusters dependent excluded rest in
    let left = drop_dependent rp dependent in
    if contains excluded cluster
    then (cluster, rp) ∷ others
    else if is_nil left
    then others
    else (cluster, left) ∷ others

-- whether that range deletes a cluster, and so marks the prerequisite
pub drops_cluster : ObjectReference → List ObjectReference → ClusterDeployments → Bool
drops_cluster dependent excluded [] = false
drops_cluster dependent excluded ((cluster, rp) ∷ rest) =
    (not (contains excluded cluster) && is_nil (drop_dependent rp dependent))
    || drops_cluster dependent excluded rest

module _ (S : RefSet) where
  open S use {Carrier, empty, insert as put, items, difference}

  -- profileClusterRequests, profilePrerequisites, profileToBeUpdated and enabled
  pub record Instance : Type 0 where
    pub requests : ProfileDeployments
    pub prerequisites : List (ObjectReference × Carrier)
    pub to_be_updated : List (ObjectReference × Bool)
    pub enabled : Bool

  -- profileToBeUpdated[profile] = true
  abbrev pub mark : Instance → ObjectReference → Instance
  mark m profile = record m { to_be_updated = insert profile true m.to_be_updated }

  abbrev pub mark_if : Bool → Instance → ObjectReference → Instance
  mark_if b m profile = if b then mark m profile else m

  -- registerProfileClusterDependency
  pub register_profile_cluster_dependency :
      Instance → ObjectReference → ObjectReference → ObjectReference → Instance
  register_profile_cluster_dependency m prerequisite cluster dependent =
      let deployments = cluster_deployments m.requests prerequisite in
      let noted = mark_if (not (has_cluster deployments cluster)) m prerequisite in
      let with_cluster = add_cluster deployments cluster in
      let requesting = add_dependent (requesting_profiles with_cluster cluster) dependent in
      let updated = set_requesting_profiles with_cluster cluster requesting in
      let marked = mark_if (has_profile noted.requests prerequisite) noted prerequisite in
      record marked { requests = insert prerequisite updated marked.requests }

  -- scheduleProfileDeploymentToClusters
  pub schedule_profile_deployment_to_clusters :
      Instance → ObjectReference → ObjectReference → List ObjectReference → Instance
  unfolding register_profile_cluster_dependency
  schedule_profile_deployment_to_clusters m prerequisite dependent [] = m
  schedule_profile_deployment_to_clusters m prerequisite dependent (cluster ∷ rest) =
      schedule_profile_deployment_to_clusters
        (register_profile_cluster_dependency m prerequisite cluster dependent) prerequisite
        dependent rest

  -- removeDependent; a nil map of profiles is the empty one, which the early return leaves alone
  pub remove_dependent :
      Instance → ObjectReference → ObjectReference → List ObjectReference → Instance
  unfolding clean_clusters drops_cluster
  remove_dependent m prerequisite dependent excluded =
      let deployments = cluster_deployments m.requests prerequisite in
      let left = clean_clusters dependent excluded deployments in
      let marked = mark_if (drops_cluster dependent excluded deployments) m prerequisite in
      record marked {
        requests =
            if is_nil left
            then erase prerequisite marked.requests
            else insert prerequisite left marked.requests;
      }

  -- a call of removeDependent for each of the prerequisites
  pub remove_dependents :
      Instance → List ObjectReference → ObjectReference → List ObjectReference → Instance
  unfolding remove_dependent
  remove_dependents m [] dependent excluded = m
  remove_dependents m (prerequisite ∷ rest) dependent excluded =
      remove_dependents (remove_dependent m prerequisite dependent excluded) rest dependent excluded

  -- cleanStaleDependencies
  pub clean_stale_dependencies :
      Instance → ObjectReference → Carrier → List ObjectReference → Instance
  unfolding remove_dependents
  clean_stale_dependencies m dependent current clusters =
      let cleaned = remove_dependents m (items current) dependent clusters in
      elim (lookup dependent cleaned.prerequisites) [
        | none ↦ cleaned
        | some previous ↦ remove_dependents cleaned (difference previous current) dependent []
      ]

  -- the loop of UpdateDependencies over the prerequisites, with the set that it builds
  pub schedule_all :
      Instance
      → Carrier
      → List ObjectReference
      → ObjectReference
      → List ObjectReference
      → Instance × Carrier
  unfolding schedule_profile_deployment_to_clusters
  schedule_all m current [] dependent clusters = (m, current)
  schedule_all m current (prerequisite ∷ rest) dependent clusters =
      schedule_all (schedule_profile_deployment_to_clusters m prerequisite dependent clusters)
        (put current prerequisite) rest dependent clusters

  abbrev pub put_all : Carrier → List ObjectReference → Carrier
  put_all s [] = s
  put_all s (r ∷ rest) = put_all (put s r) rest

  abbrev pub or_empty : Option Carrier → Carrier
  or_empty none = empty
  or_empty (some s) = s

  -- the body of UpdateDependencies behind its first test
  pub update_enabled :
      Instance → ObjectReference → List ObjectReference → List ObjectReference → Instance
  unfolding schedule_all clean_stale_dependencies
  update_enabled m dependent clusters prerequisites =
      let (scheduled, current) = schedule_all m empty prerequisites dependent clusters in
      let cleaned = clean_stale_dependencies scheduled dependent current clusters in
      record cleaned {
        prerequisites =
            insert dependent
              (put_all (or_empty (lookup dependent cleaned.prerequisites)) prerequisites)
              cleaned.prerequisites;
      }

  -- UpdateDependencies
  unfoldable pub update_dependencies :
      Instance → ObjectReference → List ObjectReference → List ObjectReference → Instance
  unfolding update_enabled
  update_dependencies m dependent clusters prerequisites =
      if not m.enabled then m else update_enabled m dependent clusters prerequisites

  -- GetClusterDeployments: the keys of the profile's map
  pub get_cluster_deployments : Instance → ObjectReference → List ObjectReference
  get_cluster_deployments m profile =
      if not m.enabled then [] else keys (cluster_deployments m.requests profile)
