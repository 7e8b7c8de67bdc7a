-- ===== src/DependencyManager/Registering.antt =====
-- Who requests what, and what registering a dependency adds to it.
use addon_controller.Common.{
  ◌≡◌, ◌==◌, ◌&&◌, ◌||◌, Bool, true, List, [], ◌∷◌, contains, keys, is_some, lookup, insert,
  lookup-insert, Distinct, Distinct-keys-insert, arith,
}
use addon_controller.Api.{ObjectReference, ref_eq}
use addon_controller.RefSet.{RefSet}
use addon_controller.DependencyManager.{
  ProfileDeployments, ClusterDeployments, cluster_deployments, requesting_profiles, add_cluster,
  add_dependent, set_requesting_profiles, Instance, register_profile_cluster_dependency,
  schedule_profile_deployment_to_clusters,
}

-- the dependent requests the cluster
abbrev pub asks_in : ClusterDeployments → ObjectReference → ObjectReference → Bool
asks_in cd cluster dependent = is_some (lookup dependent (requesting_profiles cd cluster))

-- the dependent requests that the profile be deployed to the cluster
abbrev pub asks : ProfileDeployments → ObjectReference → ObjectReference → ObjectReference → Bool
asks pd profile cluster dependent = asks_in (cluster_deployments pd profile) cluster dependent

-- the clusters of a profile are kept under distinct keys, as in a Go map
abbrev pub UniqueClusters : ProfileDeployments → Type 0
UniqueClusters pd = (profile : ObjectReference) → Distinct (keys (cluster_deployments pd profile))

-- the deployments of a prerequisite with one request more
abbrev pub with_request :
    ClusterDeployments → ObjectReference → ObjectReference → ClusterDeployments
with_request cd cluster dependent =
    set_requesting_profiles (add_cluster cd cluster) cluster
      (add_dependent (requesting_profiles (add_cluster cd cluster) cluster) dependent)

asks_in-with_request :
    (cd : ClusterDeployments) (c d c' d' : ObjectReference)
    → asks_in (with_request cd c d) c' d' ≡ ((c == c' && d == d') || asks_in cd c' d')
asks_in-with_request cd c d c' d' = ground (
  arith,
  lookup-insert c c' (add_dependent (requesting_profiles (add_cluster cd c) c) d)
      (add_cluster cd c),
  lookup-insert c c' [] cd,
  lookup-insert d d' true (requesting_profiles cd c),
)

with_request-Distinct :
    (cd : ClusterDeployments) (c d : ObjectReference)
    → Distinct (keys cd)
    → Distinct (keys (with_request cd c d))
with_request-Distinct cd c d h =
    Distinct-keys-insert c (add_dependent (requesting_profiles (add_cluster cd c) c) d)
      (add_cluster cd c) (ground (arith, Distinct-keys-insert c [] cd h))

module _ (S : RefSet) where
  pub requests-register :
      (m : Instance S) (p c d : ObjectReference)
      → (register_profile_cluster_dependency S m p c d).requests
        ≡ insert p (with_request (cluster_deployments m.requests p) c d) m.requests
  unfolding register_profile_cluster_dependency
  requests-register m p c d = ground arith

  asks-register :
      (m : Instance S) (p c d p' c' d' : ObjectReference)
      → asks (register_profile_cluster_dependency S m p c d).requests p' c' d'
        ≡ ((p == p' && c == c' && d == d') || asks m.requests p' c' d')
  asks-register m p c d p' c' d' =
      let cd = cluster_deployments m.requests p in
      rw (requests-register m p c d) (
        ground (
          arith,
          lookup-insert p p' (with_request cd c d) m.requests,
          asks_in-with_request cd c d c' d',
        ))

  register-UniqueClusters :
      (m : Instance S) (p c d : ObjectReference)
      → UniqueClusters m.requests
      → UniqueClusters (register_profile_cluster_dependency S m p c d).requests
  register-UniqueClusters m p c d u p' =
      let cd = cluster_deployments m.requests p in
      rw (requests-register m p c d) (
        ground (
          arith,
          u p',
          with_request-Distinct cd c d (u p),
          lookup-insert p p' (with_request cd c d) m.requests,
        ))

  -- Scheduling a prerequisite records the request for every matching cluster and no other.
  pub asks-schedule :
      (m : Instance S) (p d : ObjectReference) (cs : List ObjectReference)
      (p' c' d' : ObjectReference)
      → asks (schedule_profile_deployment_to_clusters S m p d cs).requests p' c' d'
        ≡ ((p == p' && contains cs c' && d == d') || asks m.requests p' c' d')
  unfolding schedule_profile_deployment_to_clusters
  asks-schedule m p d [] p' c' d' = ground arith
  asks-schedule m p d (c ∷ cs) p' c' d' = ground (
    arith,
    asks-schedule (register_profile_cluster_dependency S m p c d) p d cs p' c' d',
    asks-register m p c d p' c' d',
  )

  pub schedule-UniqueClusters :
      (m : Instance S) (p d : ObjectReference) (cs : List ObjectReference)
      → UniqueClusters m.requests
      → UniqueClusters (schedule_profile_deployment_to_clusters S m p d cs).requests
  unfolding schedule_profile_deployment_to_clusters
  schedule-UniqueClusters m p d [] u = u
  schedule-UniqueClusters m p d (c ∷ cs) u =
      schedule-UniqueClusters (register_profile_cluster_dependency S m p c d) p d cs
        (register-UniqueClusters m p c d u)
