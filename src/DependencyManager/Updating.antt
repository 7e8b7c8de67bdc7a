-- ===== src/DependencyManager/Updating.antt =====
-- UpdateDependencies against its specification: after an update the requests of the dependent are
-- its prerequisites on its matching clusters.
use addon_controller.Common.{
  ◌≡◌, refl, ◌∙◌, ◌==◌, ◌&&◌, ◌||◌, true, List, [], ◌∷◌, contains, lookup, arith,
}
use addon_controller.Api.{ObjectReference, ref_eq}
use addon_controller.RefSet.{RefSet}
use addon_controller.DependencyManager.{
  Instance, register_profile_cluster_dependency, schedule_profile_deployment_to_clusters,
  schedule_all, remove_dependent, remove_dependents, put_all, or_empty,
}
use addon_controller.DependencyManager.Registering.{
  asks, UniqueClusters, asks-schedule, schedule-UniqueClusters,
}

module _ (S : RefSet) where
  open S use {Carrier, empty, has, items, difference, insert as put}
  open S use {has-empty, has-insert, contains-items, contains-difference}

  -- what profilePrerequisites holds for a dependent
  abbrev pub recorded : Instance S → ObjectReference → Carrier
  recorded m d = or_empty S (lookup d m.prerequisites)

  -- Every request is for a prerequisite that is recorded, and clusters stand under distinct keys.
  pub record Inv (m : Instance S) : Type 0 where
    pub unique : UniqueClusters m.requests
    pub covered :
        (p c d : ObjectReference) → asks m.requests p c d ≡ true → has (recorded m d) p ≡ true

  prerequisites-schedule :
      (m : Instance S) (p d : ObjectReference) (cs : List ObjectReference)
      → (schedule_profile_deployment_to_clusters S m p d cs).prerequisites ≡ m.prerequisites
  unfolding schedule_profile_deployment_to_clusters
  prerequisites-schedule m p d [] = refl
  prerequisites-schedule m p d (c ∷ cs) =
      prerequisites-schedule (register_profile_cluster_dependency S m p c d) p d cs
      ∙ unfold register_profile_cluster_dependency in ground arith

  pub prerequisites-remove_dependents :
      (m : Instance S) (ps : List ObjectReference) (d : ObjectReference) (ex : List ObjectReference)
      → (remove_dependents S m ps d ex).prerequisites ≡ m.prerequisites
  unfolding remove_dependents
  prerequisites-remove_dependents m [] d ex = refl
  prerequisites-remove_dependents m (p ∷ ps) d ex =
      prerequisites-remove_dependents (remove_dependent S m p d ex) ps d ex
      ∙ unfold remove_dependent in ground arith

  -- the loop of UpdateDependencies
  abbrev pub scheduled :
      Instance S
      → Carrier
      → List ObjectReference
      → ObjectReference
      → List ObjectReference
      → Instance S
  scheduled m s ps d cs = (schedule_all S m s ps d cs).0

  abbrev pub current :
      Instance S → Carrier → List ObjectReference → ObjectReference → List ObjectReference → Carrier
  current m s ps d cs = (schedule_all S m s ps d cs).1

  pub asks-schedule_all :
      (m : Instance S) (s : Carrier) (ps : List ObjectReference) (d : ObjectReference)
      (cs : List ObjectReference) (p' c' d' : ObjectReference)
      → asks (scheduled m s ps d cs).requests p' c' d'
        ≡ ((contains ps p' && contains cs c' && d == d') || asks m.requests p' c' d')
  unfolding schedule_all
  asks-schedule_all m s [] d cs p' c' d' = refl
  asks-schedule_all m s (p ∷ ps) d cs p' c' d' = ground (
    arith,
    asks-schedule_all (schedule_profile_deployment_to_clusters S m p d cs) (put s p) ps d cs p' c'
        d',
    asks-schedule S m p d cs p' c' d',
  )

  pub has-current :
      (m : Instance S) (s : Carrier) (ps : List ObjectReference) (d : ObjectReference)
      (cs : List ObjectReference) (x : ObjectReference)
      → has (current m s ps d cs) x ≡ (contains ps x || has s x)
  unfolding schedule_all
  has-current m s [] d cs x = refl
  has-current m s (p ∷ ps) d cs x = ground (
    arith,
    has-current (schedule_profile_deployment_to_clusters S m p d cs) (put s p) ps d cs x,
    has-insert s p x,
  )

  pub schedule_all-UniqueClusters :
      (m : Instance S) (s : Carrier) (ps : List ObjectReference) (d : ObjectReference)
      (cs : List ObjectReference)
      → UniqueClusters m.requests
      → UniqueClusters (scheduled m s ps d cs).requests
  unfolding schedule_all
  schedule_all-UniqueClusters m s [] d cs u = u
  schedule_all-UniqueClusters m s (p ∷ ps) d cs u =
      schedule_all-UniqueClusters (schedule_profile_deployment_to_clusters S m p d cs) (put s p) ps
        d cs (schedule-UniqueClusters S m p d cs u)

  pub prerequisites-schedule_all :
      (m : Instance S) (s : Carrier) (ps : List ObjectReference) (d : ObjectReference)
      (cs : List ObjectReference)
      → (scheduled m s ps d cs).prerequisites ≡ m.prerequisites
  unfolding schedule_all
  prerequisites-schedule_all m s [] d cs = refl
  prerequisites-schedule_all m s (p ∷ ps) d cs =
      prerequisites-schedule_all (schedule_profile_deployment_to_clusters S m p d cs) (put s p) ps d
        cs
      ∙ prerequisites-schedule m p d cs

  pub has-put_all :
      (s : Carrier) (ps : List ObjectReference) (x : ObjectReference)
      → has (put_all S s ps) x ≡ (contains ps x || has s x)
  has-put_all s [] x = refl
  has-put_all s (p ∷ ps) x = ground (arith, has-put_all (put s p) ps x, has-insert s p x)
