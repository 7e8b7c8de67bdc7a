-- ===== src/DependencyManager/Marks.antt =====
-- profileToBeUpdated: a profile whose set of clusters changes is marked for the worker that publishes
-- it.
use addon_controller.Common.{
  ◌≡◌, refl, ◌∙◌, Bool, true, false, if◌then◌else◌, List, [], ◌∷◌, Option, none, some, keys,
  contains-keys, is_some, lookup, insert, lookup-insert, arith, Bool-cases, inl, inr,
}
use addon_controller.Api.{ObjectReference, ref_eq}
use addon_controller.RefSet.{RefSet}
use addon_controller.DependencyManager.{
  ClusterDeployments, cluster_deployments, has_cluster, add_cluster, clean_clusters, drops_cluster,
  add_dependent, requesting_profiles, Instance, register_profile_cluster_dependency,
  schedule_profile_deployment_to_clusters, schedule_all, remove_dependent, remove_dependents,
  clean_stale_dependencies, update_enabled,
}
use addon_controller.DependencyManager.Registering.{with_request}
use addon_controller.DependencyManager.Removing.{cluster_deployments-remove}

keys-clean :
    (d : ObjectReference) (ex : List ObjectReference) (cd : ClusterDeployments)
    → drops_cluster d ex cd ≡ false
    → keys (clean_clusters d ex cd) ≡ keys cd
unfolding clean_clusters drops_cluster
keys-clean d ex [] h = refl
keys-clean d ex ((c, rp) ∷ cd) h = ground (arith, keys-clean d ex cd)

module _ (S : RefSet) where
  open S use {Carrier, empty, items, difference, insert as put}

  abbrev pub is_marked : Instance S → ObjectReference → Bool
  is_marked m p = is_some (lookup p m.to_be_updated)

  -- the profile must be deployed to the cluster
  abbrev pub deploys : Instance S → ObjectReference → ObjectReference → Bool
  deploys m p c = has_cluster (cluster_deployments m.requests p) c

  -- Marks stay, and where the profile is not marked its clusters are those from before.
  pub record Tracks (m m' : Instance S) (p c : ObjectReference) : Type 0 where
    pub kept : is_marked m p ≡ true → is_marked m' p ≡ true
    pub noted : is_marked m' p ≡ false → deploys m' p c ≡ deploys m p c

  Tracks-refl : (m : Instance S) (p c : ObjectReference) → Tracks m m p c
  Tracks-refl m p c = record { kept = λ h. h; noted = λ h. refl }

  Tracks-trans :
      (m m' m'' : Instance S) (p c : ObjectReference)
      → Tracks m m' p c
      → Tracks m' m'' p c
      → Tracks m m'' p c
  Tracks-trans m m' m'' p c t t' = record {
    kept = λ h. t'.kept (t.kept h);
    noted = λ h. elim (Bool-cases (is_marked m' p)) [
      | inl marked ↦ ground (arith, t'.kept marked)
      | inr clear ↦ t'.noted h ∙ t.noted clear
    ];
  }

  register-Tracks :
      (m : Instance S) (q c d p c' : ObjectReference)
      → Tracks m (register_profile_cluster_dependency S m q c d) p c'
  unfolding register_profile_cluster_dependency
  register-Tracks m q c d p c' =
      let cd = cluster_deployments m.requests q in
      let noted = insert q true m.to_be_updated in
      record {
        kept = λ h.
            ground (arith, lookup-insert q p true m.to_be_updated, lookup-insert q p true noted);
        noted = λ h. ground (
          arith,
          lookup-insert q p true m.to_be_updated,
          lookup-insert q p true noted,
          lookup-insert q p (with_request cd c d) m.requests,
          lookup-insert c c' (add_dependent (requesting_profiles (add_cluster cd c) c) d)
              (add_cluster cd c),
        );
      }

  schedule-Tracks :
      (m : Instance S) (q d : ObjectReference) (cs : List ObjectReference) (p c : ObjectReference)
      → Tracks m (schedule_profile_deployment_to_clusters S m q d cs) p c
  unfolding schedule_profile_deployment_to_clusters
  schedule-Tracks m q d [] p c = Tracks-refl m p c
  schedule-Tracks m q d (k ∷ cs) p c =
      let next = register_profile_cluster_dependency S m q k d in
      Tracks-trans m next (schedule_profile_deployment_to_clusters S next q d cs) p c
        (register-Tracks m q k d p c) (schedule-Tracks next q d cs p c)

  schedule_all-Tracks :
      (m : Instance S) (s : Carrier) (ps : List ObjectReference) (d : ObjectReference)
      (cs : List ObjectReference) (p c : ObjectReference)
      → Tracks m (schedule_all S m s ps d cs).0 p c
  unfolding schedule_all
  schedule_all-Tracks m s [] d cs p c = Tracks-refl m p c
  schedule_all-Tracks m s (q ∷ ps) d cs p c =
      let next = schedule_profile_deployment_to_clusters S m q d cs in
      Tracks-trans m next (schedule_all S next (put s q) ps d cs).0 p c
        (schedule-Tracks m q d cs p c) (schedule_all-Tracks next (put s q) ps d cs p c)

  to_be_updated-remove :
      (m : Instance S) (q d : ObjectReference) (ex : List ObjectReference)
      → (remove_dependent S m q d ex).to_be_updated ≡ (
          if drops_cluster d ex (cluster_deployments m.requests q)
          then insert q true m.to_be_updated
          else m.to_be_updated)
  unfolding remove_dependent
  to_be_updated-remove m q d ex = ground arith

  remove-Tracks :
      (m : Instance S) (q d : ObjectReference) (ex : List ObjectReference) (p c : ObjectReference)
      → Tracks m (remove_dependent S m q d ex) p c
  remove-Tracks m q d ex p c =
      let cd = cluster_deployments m.requests q in
      record {
        kept = λ h.
            ground (arith, to_be_updated-remove m q d ex, lookup-insert q p true m.to_be_updated);
        noted = λ h. ground (
          arith,
          to_be_updated-remove m q d ex,
          lookup-insert q p true m.to_be_updated,
          cluster_deployments-remove S m q d ex p,
          keys-clean d ex cd,
          contains-keys c cd,
          contains-keys c (clean_clusters d ex cd),
        );
      }

  remove_dependents-Tracks :
      (m : Instance S) (ps : List ObjectReference) (d : ObjectReference) (ex : List ObjectReference)
      (p c : ObjectReference)
      → Tracks m (remove_dependents S m ps d ex) p c
  unfolding remove_dependents
  remove_dependents-Tracks m [] d ex p c = Tracks-refl m p c
  remove_dependents-Tracks m (q ∷ ps) d ex p c =
      let next = remove_dependent S m q d ex in
      Tracks-trans m next (remove_dependents S next ps d ex) p c (remove-Tracks m q d ex p c)
        (remove_dependents-Tracks next ps d ex p c)

  clean-Tracks :
      (m : Instance S) (d : ObjectReference) (cur : Carrier) (cs : List ObjectReference)
      (p c : ObjectReference)
      → Tracks m (clean_stale_dependencies S m d cur cs) p c
  unfolding clean_stale_dependencies
  clean-Tracks m d cur cs p c =
      let first = remove_dependents S m (items cur) d cs in
      by_previous (lookup d first.prerequisites) first
        (remove_dependents-Tracks m (items cur) d cs p c)
    where
      by_previous :
          (o : Option Carrier) (first : Instance S)
          → Tracks m first p c
          → Tracks m
              (elim o as (λ o'. Instance S) [
                | none ↦ first
                | some previous ↦ remove_dependents S first (difference previous cur) d []
              ])
              p
              c
      by_previous none first t = t
      by_previous (some previous) first t =
          Tracks-trans m first (remove_dependents S first (difference previous cur) d []) p c t
            (remove_dependents-Tracks first (difference previous cur) d [] p c)

  update-Tracks :
      (m : Instance S) (d : ObjectReference) (cs ps : List ObjectReference) (p c : ObjectReference)
      → Tracks m (update_enabled S m d cs ps) p c
  unfolding update_enabled
  update-Tracks m d cs ps p c =
      let before = (schedule_all S m empty ps d cs).0 in
      let cur = (schedule_all S m empty ps d cs).1 in
      let t =
        Tracks-trans m before (clean_stale_dependencies S before d cur cs) p c
          (schedule_all-Tracks m empty ps d cs p c) (clean-Tracks before d cur cs p c) in
      record { kept = t.kept; noted = t.noted }

  -- Where a profile is not marked after an update, it was not marked before, and the update has left
  -- its set of clusters as it was.
  pub update-unmarked :
      (m : Instance S) (d : ObjectReference) (cs ps : List ObjectReference) (p c : ObjectReference)
      → is_marked (update_enabled S m d cs ps) p ≡ false
      → (is_marked m p ≡ false) × (deploys (update_enabled S m d cs ps) p c ≡ deploys m p c)
  update-unmarked m d cs ps p c h =
      let t = update-Tracks m d cs ps p c in
      (
        elim (Bool-cases (is_marked m p)) [
          | inl marked ↦ ground (arith, t.kept marked)
          | inr clear ↦ clear
        ],
        t.noted h,
      )
