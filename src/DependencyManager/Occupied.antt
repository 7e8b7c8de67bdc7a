-- ===== src/DependencyManager/Occupied.antt =====
-- No cluster is kept for a profile once nobody requests it there.
use addon_controller.Common.{
  ◌≡◌, refl, ◌==◌, true, false, List, [], ◌∷◌, Option, none, some, contains, keys, is_some, lookup,
  insert, lookup-insert, insert-insert, arith, Bool-cases, inl, inr,
}
use addon_controller.Api.{ObjectReference, ref_eq}
use addon_controller.RefSet.{RefSet}
use addon_controller.DependencyManager.{
  ProfileDeployments, ClusterDeployments, RequestingProfiles, cluster_deployments, is_nil,
  clean_clusters, add_dependent, requesting_profiles, add_cluster, Instance,
  register_profile_cluster_dependency, schedule_profile_deployment_to_clusters, schedule_all,
  remove_dependent, remove_dependents, clean_stale_dependencies, update_enabled,
}
use addon_controller.DependencyManager.Registering.{asks_in, with_request, requests-register}
use addon_controller.DependencyManager.Removing.{cluster_deployments-remove}

-- every cluster has a request
abbrev pub Requested : ClusterDeployments → Type 0
Requested [] = Unit {0}
Requested ((c, rp) ∷ cd) = (is_nil rp ≡ false) × Requested cd

abbrev pub AllRequested : ProfileDeployments → Type 0
AllRequested pd = (p : ObjectReference) → Requested (cluster_deployments pd p)

insert-Requested :
    (c : ObjectReference) (rp : RequestingProfiles) (cd : ClusterDeployments)
    → is_nil rp ≡ false
    → Requested cd
    → Requested (insert c rp cd)
insert-Requested c rp [] h q = (h, tt)
insert-Requested c rp ((k, v) ∷ cd) h q = ground (arith, insert-Requested c rp cd h q.1)

is_nil-insert : (d : ObjectReference) (rp : RequestingProfiles) → is_nil (insert d true rp) ≡ false
is_nil-insert d [] = refl
is_nil-insert d ((k, v) ∷ rp) = ground arith

with_request-Requested :
    (cd : ClusterDeployments) (c d : ObjectReference)
    → Requested cd
    → Requested (with_request cd c d)
with_request-Requested cd c d q =
    let rp = add_dependent (requesting_profiles (add_cluster cd c) c) d in
    let full = is_nil-insert d (requesting_profiles (add_cluster cd c) c) in
    ground (arith, insert-insert c rp [] cd, insert-Requested c rp cd full q)

clean-Requested :
    (d : ObjectReference) (ex : List ObjectReference) (cd : ClusterDeployments)
    → Requested cd
    → Requested (clean_clusters d ex cd)
unfolding clean_clusters
clean-Requested d ex [] q = tt
clean-Requested d ex ((c, rp) ∷ cd) q = ground (arith, clean-Requested d ex cd q.1)

first_dependent :
    (rp : RequestingProfiles)
    → is_nil rp ≡ false
    → (d : ObjectReference) × (is_some (lookup d rp) ≡ true)
first_dependent [] h = cc
first_dependent ((d, b) ∷ rp) h = (d, ground arith)

-- A cluster that is kept is one that some dependent requests.
pub Requested-asks :
    (cd : ClusterDeployments) (c : ObjectReference)
    → Requested cd
    → contains (keys cd) c ≡ true
    → (d : ObjectReference) × (asks_in cd c d ≡ true)
Requested-asks [] c q h = cc
Requested-asks ((k, rp) ∷ cd) c q h = elim (Bool-cases (k == c)) [
  | inl here ↦ let (d, e) = first_dependent rp q.0 in (d, ground arith)
  | inr there ↦ let (d, e) = Requested-asks cd c q.1 (ground arith) in (d, ground arith)
]

module _ (S : RefSet) where
  open S use {Carrier, empty, items, difference, insert as put}

  register-AllRequested :
      (m : Instance S) (p c d : ObjectReference)
      → AllRequested m.requests
      → AllRequested (register_profile_cluster_dependency S m p c d).requests
  register-AllRequested m p c d q p' =
      let cd = cluster_deployments m.requests p in
      rw (requests-register S m p c d) (
        ground (
          arith,
          q p',
          with_request-Requested cd c d (q p),
          lookup-insert p p' (with_request cd c d) m.requests,
        ))

  schedule-AllRequested :
      (m : Instance S) (p d : ObjectReference) (cs : List ObjectReference)
      → AllRequested m.requests
      → AllRequested (schedule_profile_deployment_to_clusters S m p d cs).requests
  unfolding schedule_profile_deployment_to_clusters
  schedule-AllRequested m p d [] q = q
  schedule-AllRequested m p d (c ∷ cs) q =
      schedule-AllRequested (register_profile_cluster_dependency S m p c d) p d cs
        (register-AllRequested m p c d q)

  schedule_all-AllRequested :
      (m : Instance S) (s : Carrier) (ps : List ObjectReference) (d : ObjectReference)
      (cs : List ObjectReference)
      → AllRequested m.requests
      → AllRequested (schedule_all S m s ps d cs).0.requests
  unfolding schedule_all
  schedule_all-AllRequested m s [] d cs q = q
  schedule_all-AllRequested m s (p ∷ ps) d cs q =
      schedule_all-AllRequested (schedule_profile_deployment_to_clusters S m p d cs) (put s p) ps d
        cs (schedule-AllRequested m p d cs q)

  remove-AllRequested :
      (m : Instance S) (p d : ObjectReference) (ex : List ObjectReference)
      → AllRequested m.requests
      → AllRequested (remove_dependent S m p d ex).requests
  remove-AllRequested m p d ex q p' =
      rw (cluster_deployments-remove S m p d ex p')
        (ground (arith, q p', clean-Requested d ex (cluster_deployments m.requests p) (q p)))

  remove_dependents-AllRequested :
      (m : Instance S) (ps : List ObjectReference) (d : ObjectReference) (ex : List ObjectReference)
      → AllRequested m.requests
      → AllRequested (remove_dependents S m ps d ex).requests
  unfolding remove_dependents
  remove_dependents-AllRequested m [] d ex q = q
  remove_dependents-AllRequested m (p ∷ ps) d ex q =
      remove_dependents-AllRequested (remove_dependent S m p d ex) ps d ex
        (remove-AllRequested m p d ex q)

  clean-AllRequested :
      (m : Instance S) (d : ObjectReference) (cur : Carrier) (cs : List ObjectReference)
      → AllRequested m.requests
      → AllRequested (clean_stale_dependencies S m d cur cs).requests
  unfolding clean_stale_dependencies
  clean-AllRequested m d cur cs q =
      let first = remove_dependents S m (items cur) d cs in
      let left = remove_dependents-AllRequested m (items cur) d cs q in
      by_previous (lookup d first.prerequisites) first left
    where
      by_previous :
          (o : Option Carrier) (first : Instance S)
          → AllRequested first.requests
          → AllRequested
              (elim o as (λ o'. Instance S) [
                | none ↦ first
                | some previous ↦ remove_dependents S first (difference previous cur) d []
              ]).requests
      by_previous none first left = left
      by_previous (some previous) first left =
          remove_dependents-AllRequested first (difference previous cur) d [] left

  pub update-AllRequested :
      (m : Instance S) (d : ObjectReference) (cs ps : List ObjectReference)
      → AllRequested m.requests
      → AllRequested (update_enabled S m d cs ps).requests
  unfolding update_enabled
  update-AllRequested m d cs ps q =
      clean-AllRequested (schedule_all S m empty ps d cs).0 d (schedule_all S m empty ps d cs).1 cs
        (schedule_all-AllRequested m empty ps d cs q)
