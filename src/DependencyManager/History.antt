-- ===== src/DependencyManager/History.antt =====
-- The dependency manager after any history of updates.
use addon_controller.Common.{
  ◌≡◌, refl, ◌↔◌, ◌==◌, ◌&&◌, Bool, true, false, if◌then◌else◌, List, [], ◌∷◌, Option, none, some,
  contains, contains-keys, lookup, arith, sym, ◌∙◌, Option-cases, inl, inr,
}
use addon_controller.Api.{ObjectReference, ref_eq}
use addon_controller.RefSet.{RefSet}
use addon_controller.DependencyManager.{
  Instance, cluster_deployments, get_cluster_deployments, update_enabled, update_dependencies,
  register_profile_cluster_dependency, schedule_profile_deployment_to_clusters, schedule_all,
  remove_dependent, remove_dependents, clean_stale_dependencies,
}
use addon_controller.DependencyManager.Registering.{asks}
use addon_controller.DependencyManager.Updating.{Inv}
use addon_controller.DependencyManager.Refinement.{asks-update, update-Inv}
use addon_controller.DependencyManager.Occupied.{AllRequested, Requested-asks, update-AllRequested}

-- A call of UpdateDependencies.
pub record Update : Type 0 where
  pub dependent : ObjectReference
  pub clusters : List ObjectReference
  pub prerequisites : List ObjectReference

-- the last update of a dependent, `acc` if there is none
abbrev pub latest : Option Update → List Update → ObjectReference → Option Update
latest acc [] d = acc
latest acc (u ∷ us) d = latest (if u.dependent == d then some u else acc) us d

-- the update requests the profile on the cluster
abbrev pub wants : Option Update → ObjectReference → ObjectReference → Bool
wants none p c = false
wants (some u) p c = contains u.prerequisites p && contains u.clusters c

module _ (S : RefSet) where
  open S use {Carrier, empty, items, difference, insert as put}

  -- the instance that InitializeManagerInstance creates when it is enabled
  abbrev pub new : Instance S
  new = record { requests = []; prerequisites = []; to_be_updated = []; enabled = true }

  pub run : Instance S → List Update → Instance S
  run m [] = m
  run m (u ∷ us) = run (update_dependencies S m u.dependent u.clusters u.prerequisites) us

  -- What holds between two updates of an enabled manager.
  pub record Sound (m : Instance S) : Type 0 where
    pub inv : Inv S m
    pub requested : AllRequested m.requests
    pub is_enabled : m.enabled ≡ true

  enabled-schedule :
      (m : Instance S) (p d : ObjectReference) (cs : List ObjectReference)
      → (schedule_profile_deployment_to_clusters S m p d cs).enabled ≡ m.enabled
  unfolding schedule_profile_deployment_to_clusters
  enabled-schedule m p d [] = refl
  enabled-schedule m p d (c ∷ cs) =
      enabled-schedule (register_profile_cluster_dependency S m p c d) p d cs
      ∙ unfold register_profile_cluster_dependency in ground arith

  enabled-schedule_all :
      (m : Instance S) (s : Carrier) (ps : List ObjectReference) (d : ObjectReference)
      (cs : List ObjectReference)
      → (schedule_all S m s ps d cs).0.enabled ≡ m.enabled
  unfolding schedule_all
  enabled-schedule_all m s [] d cs = refl
  enabled-schedule_all m s (p ∷ ps) d cs =
      enabled-schedule_all (schedule_profile_deployment_to_clusters S m p d cs) (put s p) ps d cs
      ∙ enabled-schedule m p d cs

  enabled-remove_dependents :
      (m : Instance S) (ps : List ObjectReference) (d : ObjectReference) (ex : List ObjectReference)
      → (remove_dependents S m ps d ex).enabled ≡ m.enabled
  unfolding remove_dependents
  enabled-remove_dependents m [] d ex = refl
  enabled-remove_dependents m (p ∷ ps) d ex =
      enabled-remove_dependents (remove_dependent S m p d ex) ps d ex
      ∙ unfold remove_dependent in ground arith

  enabled-clean :
      (m : Instance S) (d : ObjectReference) (cur : Carrier) (cs : List ObjectReference)
      → (clean_stale_dependencies S m d cur cs).enabled ≡ m.enabled
  unfolding clean_stale_dependencies
  enabled-clean m d cur cs =
      let first = remove_dependents S m (items cur) d cs in
      let keeps = enabled-remove_dependents m (items cur) d cs in
      elim (Option-cases (lookup d first.prerequisites)) [
        | inl e ↦ rw (e, clean_stale_dependencies) keeps
        | inr (previous, e) ↦
            rw (e, clean_stale_dependencies)
              (enabled-remove_dependents first (difference previous cur) d [] ∙ keeps)
      ]

  enabled-update :
      (m : Instance S) (d : ObjectReference) (cs ps : List ObjectReference)
      → (update_enabled S m d cs ps).enabled ≡ m.enabled
  unfolding update_enabled
  enabled-update m d cs ps =
      enabled-clean (schedule_all S m empty ps d cs).0 d (schedule_all S m empty ps d cs).1 cs
      ∙ enabled-schedule_all m empty ps d cs

  update_dependencies_lem :
      (m : Instance S) (d : ObjectReference) (cs ps : List ObjectReference)
      → m.enabled ≡ true
      → update_dependencies S m d cs ps ≡ update_enabled S m d cs ps
  unfolding update_dependencies
  update_dependencies_lem m d cs ps h = rw h

  update-Sound :
      (m : Instance S) (d : ObjectReference) (cs ps : List ObjectReference)
      → Sound m
      → Sound (update_dependencies S m d cs ps)
  update-Sound m d cs ps v = rw (update_dependencies_lem m d cs ps v.is_enabled) (record {
    inv = update-Inv S m d cs ps v.inv;
    requested = update-AllRequested S m d cs ps v.requested;
    is_enabled = enabled-update m d cs ps ∙ v.is_enabled;
  })

  run-Sound : (m : Instance S) (us : List Update) → Sound m → Sound (run m us)
  unfolding run
  run-Sound m [] v = v
  run-Sound m (u ∷ us) v =
      run-Sound (update_dependencies S m u.dependent u.clusters u.prerequisites) us
        (update-Sound m u.dependent u.clusters u.prerequisites v)

  new-Sound : Sound new
  new-Sound = record {
    inv = record { unique = λ p. tt; covered = λ p c d h. cc };
    requested = λ p. tt;
    is_enabled = refl;
  }

  asks-run :
      (m : Instance S) (acc : Option Update) (us : List Update) (p c d : ObjectReference)
      → Sound m
      → asks m.requests p c d ≡ wants acc p c
      → asks (run m us).requests p c d ≡ wants (latest acc us d) p c
  unfolding run
  asks-run m acc [] p c d v h = h
  asks-run m acc (u ∷ us) p c d v h =
      asks-run (update_dependencies S m u.dependent u.clusters u.prerequisites)
        (if u.dependent == d then some u else acc) us p c d
        (update-Sound m u.dependent u.clusters u.prerequisites v)
        (rw (update_dependencies_lem m u.dependent u.clusters u.prerequisites v.is_enabled)
          (ground (arith, asks-update S m u.dependent u.clusters u.prerequisites p c d v.inv)))

  -- After any history of updates, a dependent requests a profile on a cluster just where its last
  -- update named that prerequisite and that cluster.
  pub asks-run-new :
      (us : List Update) (p c d : ObjectReference)
      → asks (run new us).requests p c d ≡ wants (latest none us d) p c
  asks-run-new us p c d = asks-run new none us p c d new-Sound refl

  -- After any history of updates, GetClusterDeployments lists a cluster for a profile just where the
  -- last update of some dependent named that prerequisite and that cluster.
  pub get_cluster_deployments-run-new :
      (us : List Update) (p c : ObjectReference)
      → (contains (get_cluster_deployments S (run new us) p) c ≡ true)
        ↔ ((d : ObjectReference) × (wants (latest none us d) p c ≡ true))
  unfolding get_cluster_deployments
  get_cluster_deployments-run-new us p c =
      let m = run new us in
      let v = run-Sound new us new-Sound in
      let cd = cluster_deployments m.requests p in
      (
        λ h.
            let (d, e) = Requested-asks cd c (v.requested p) (ground (arith, v.is_enabled)) in
            (d, sym (asks-run-new us p c d) ∙ e),
        λ (d, e). ground (arith, v.is_enabled, asks-run-new us p c d, contains-keys c cd),
      )
