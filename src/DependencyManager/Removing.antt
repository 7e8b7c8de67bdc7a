-- ===== src/DependencyManager/Removing.antt =====
-- What removeDependent takes away.
use addon_controller.Common.{
  ◌≡◌, refl, ◌==◌, ◌&&◌, not, false, if◌then◌else◌, List, [], ◌∷◌, contains, keys, lookup-insert,
  lookup-erase, contains-keys, Distinct, arith,
}
use addon_controller.Api.{ObjectReference, ref_eq}
use addon_controller.RefSet.{RefSet}
use addon_controller.DependencyManager.{
  ClusterDeployments, cluster_deployments, clean_clusters, Instance, remove_dependent,
  remove_dependents,
}
use addon_controller.DependencyManager.Registering.{asks_in, asks, UniqueClusters}

contains-keys-clean :
    (d : ObjectReference) (ex : List ObjectReference) (cd : ClusterDeployments)
    (c : ObjectReference)
    → contains (keys cd) c ≡ false
    → contains (keys (clean_clusters d ex cd)) c ≡ false
unfolding clean_clusters
contains-keys-clean d ex [] c h = refl
contains-keys-clean d ex ((k, rp) ∷ cd) c h = ground (arith, contains-keys-clean d ex cd c)

clean-Distinct :
    (d : ObjectReference) (ex : List ObjectReference) (cd : ClusterDeployments)
    → Distinct (keys cd)
    → Distinct (keys (clean_clusters d ex cd))
unfolding clean_clusters
clean-Distinct d ex [] h = tt
clean-Distinct d ex ((k, rp) ∷ cd) h =
    ground (arith, clean-Distinct d ex cd h.1, contains-keys-clean d ex cd k h.0)

asks_in-clean :
    (d : ObjectReference) (ex : List ObjectReference) (cd : ClusterDeployments)
    (c' d' : ObjectReference)
    → Distinct (keys cd)
    → asks_in (clean_clusters d ex cd) c' d'
      ≡ (asks_in cd c' d' && not (d == d' && not (contains ex c')))
unfolding clean_clusters
asks_in-clean d ex [] c' d' h = refl
asks_in-clean d ex ((k, rp) ∷ cd) c' d' h = ground (
  arith,
  asks_in-clean d ex cd c' d' h.1,
  contains-keys k cd,
  contains-keys k (clean_clusters d ex cd),
  contains-keys-clean d ex cd k h.0,
  lookup-erase d d' rp,
)

module _ (S : RefSet) where
  -- the deployments left to the prerequisite
  abbrev pub cleaned :
      Instance S → ObjectReference → ObjectReference → List ObjectReference → ClusterDeployments
  cleaned m p d ex = clean_clusters d ex (cluster_deployments m.requests p)

  pub cluster_deployments-remove :
      (m : Instance S) (p d : ObjectReference) (ex : List ObjectReference) (p' : ObjectReference)
      → cluster_deployments (remove_dependent S m p d ex).requests p'
        ≡ (if p == p' then cleaned m p d ex else cluster_deployments m.requests p')
  unfolding remove_dependent
  cluster_deployments-remove m p d ex p' =
      ground (arith, lookup-erase p p' m.requests, lookup-insert p p' (cleaned m p d ex) m.requests)

  asks-remove :
      (m : Instance S) (p d : ObjectReference) (ex : List ObjectReference)
      (p' c' d' : ObjectReference)
      → UniqueClusters m.requests
      → asks (remove_dependent S m p d ex).requests p' c' d'
        ≡ (asks m.requests p' c' d' && not (p == p' && d == d' && not (contains ex c')))
  asks-remove m p d ex p' c' d' u = ground (
    arith,
    cluster_deployments-remove m p d ex p',
    asks_in-clean d ex (cluster_deployments m.requests p) c' d' (u p),
  )

  remove-UniqueClusters :
      (m : Instance S) (p d : ObjectReference) (ex : List ObjectReference)
      → UniqueClusters m.requests
      → UniqueClusters (remove_dependent S m p d ex).requests
  remove-UniqueClusters m p d ex u p' =
      rw (cluster_deployments-remove m p d ex p')
        (ground (arith, u p', clean-Distinct d ex (cluster_deployments m.requests p) (u p)))

  -- Removing a dependent from some prerequisites takes away its requests for them on the clusters
  -- that are not excluded, and no other request.
  pub asks-remove_dependents :
      (m : Instance S) (ps : List ObjectReference) (d : ObjectReference) (ex : List ObjectReference)
      (p' c' d' : ObjectReference)
      → UniqueClusters m.requests
      → asks (remove_dependents S m ps d ex).requests p' c' d'
        ≡ (asks m.requests p' c' d' && not (contains ps p' && d == d' && not (contains ex c')))
  unfolding remove_dependents
  asks-remove_dependents m [] d ex p' c' d' u = ground arith
  asks-remove_dependents m (p ∷ ps) d ex p' c' d' u = ground (
    arith,
    asks-remove_dependents (remove_dependent S m p d ex) ps d ex p' c' d'
        (remove-UniqueClusters m p d ex u),
    asks-remove m p d ex p' c' d' u,
  )

  pub remove_dependents-UniqueClusters :
      (m : Instance S) (ps : List ObjectReference) (d : ObjectReference) (ex : List ObjectReference)
      → UniqueClusters m.requests
      → UniqueClusters (remove_dependents S m ps d ex).requests
  unfolding remove_dependents
  remove_dependents-UniqueClusters m [] d ex u = u
  remove_dependents-UniqueClusters m (p ∷ ps) d ex u =
      remove_dependents-UniqueClusters (remove_dependent S m p d ex) ps d ex
        (remove-UniqueClusters m p d ex u)
