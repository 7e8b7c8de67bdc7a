-- ===== src/DependencyManager/Refinement.antt =====
-- The dependency manager refines a table that keeps, for each dependent, its last update.
use addon_controller.Common.{
  ◌≡◌, ◌∙◌, ◌==◌, ◌&&◌, ◌||◌, not, if◌then◌else◌, List, [], contains, lookup, lookup-insert, arith,
  Option-cases, inl, inr,
}
use addon_controller.Api.{ObjectReference, ref_eq}
use addon_controller.RefSet.{RefSet}
use addon_controller.DependencyManager.{
  Instance, remove_dependents, clean_stale_dependencies, put_all, or_empty, update_enabled,
}
use addon_controller.DependencyManager.Registering.{asks, UniqueClusters}
use addon_controller.DependencyManager.Removing.{
  asks-remove_dependents, remove_dependents-UniqueClusters,
}
use addon_controller.DependencyManager.Updating.{
  Inv, recorded, scheduled, current, prerequisites-schedule_all, prerequisites-remove_dependents,
  asks-schedule_all, has-current, schedule_all-UniqueClusters, has-put_all,
}

module _ (S : RefSet) where
  open S use {Carrier, empty, has, items, difference}
  open S use {has-empty, contains-items, contains-difference}

  asks-clean :
      (m : Instance S) (d : ObjectReference) (cur : Carrier) (cs : List ObjectReference)
      (p' c' d' : ObjectReference)
      → UniqueClusters m.requests
      → asks (clean_stale_dependencies S m d cur cs).requests p' c' d' ≡ (
          asks m.requests p' c' d'
          && not (
              d == d'
              && ((has cur p' && not (contains cs c'))
                  || (has (recorded S m d) p' && not (has cur p')))))
  unfolding clean_stale_dependencies
  asks-clean m d cur cs p' c' d' u =
      let first = remove_dependents S m (items cur) d cs in
      let step = asks-remove_dependents S m (items cur) d cs p' c' d' u in
      let keeps = prerequisites-remove_dependents S m (items cur) d cs in
      elim (Option-cases (lookup d m.prerequisites)) [
        | inl e ↦
            rw (keeps, e, clean_stale_dependencies)
              (ground (arith, step, contains-items cur p', has-empty p'))
        | inr (previous, e) ↦
            rw (keeps, e, clean_stale_dependencies)
              (ground (
                arith,
                step,
                contains-items cur p',
                contains-difference previous cur p',
                asks-remove_dependents S first (difference previous cur) d [] p' c' d'
                    (remove_dependents-UniqueClusters S m (items cur) d cs u),
              ))
      ]

  clean-UniqueClusters :
      (m : Instance S) (d : ObjectReference) (cur : Carrier) (cs : List ObjectReference)
      → UniqueClusters m.requests
      → UniqueClusters (clean_stale_dependencies S m d cur cs).requests
  unfolding clean_stale_dependencies
  clean-UniqueClusters m d cur cs u =
      let first = remove_dependents S m (items cur) d cs in
      let unique = remove_dependents-UniqueClusters S m (items cur) d cs u in
      elim (Option-cases (lookup d first.prerequisites)) [
        | inl e ↦ rw (e, clean_stale_dependencies) unique
        | inr (previous, e) ↦
            rw (e, clean_stale_dependencies)
              (remove_dependents-UniqueClusters S first (difference previous cur) d [] unique)
      ]

  prerequisites-clean :
      (m : Instance S) (d : ObjectReference) (cur : Carrier) (cs : List ObjectReference)
      → (clean_stale_dependencies S m d cur cs).prerequisites ≡ m.prerequisites
  unfolding clean_stale_dependencies
  prerequisites-clean m d cur cs =
      let first = remove_dependents S m (items cur) d cs in
      let keeps = prerequisites-remove_dependents S m (items cur) d cs in
      elim (Option-cases (lookup d first.prerequisites)) [
        | inl e ↦ rw (e, clean_stale_dependencies) keeps
        | inr (previous, e) ↦
            rw (e, clean_stale_dependencies)
              (prerequisites-remove_dependents S first (difference previous cur) d [] ∙ keeps)
      ]

  -- An enabled update replaces the requests of the dependent by those for its prerequisites on its
  -- matching clusters, whatever it had requested before, and leaves every other dependent's alone.
  pub asks-update :
      (m : Instance S) (d : ObjectReference) (cs ps : List ObjectReference)
      (p c d' : ObjectReference)
      → Inv S m
      → asks (update_enabled S m d cs ps).requests p c d'
        ≡ (if d == d' then contains ps p && contains cs c else asks m.requests p c d')
  unfolding update_enabled
  asks-update m d cs ps p c d' v =
      let before = scheduled S m empty ps d cs in
      ground (
        arith,
        asks-clean before d (current S m empty ps d cs) cs p c d'
            (schedule_all-UniqueClusters S m empty ps d cs v.unique),
        prerequisites-schedule_all S m empty ps d cs,
        asks-schedule_all S m empty ps d cs p c d',
        has-current S m empty ps d cs p,
        has-empty p,
        v.covered p c d,
      )

  recorded-update :
      (m : Instance S) (d : ObjectReference) (cs ps : List ObjectReference) (d' p : ObjectReference)
      → has (recorded S (update_enabled S m d cs ps) d') p
        ≡ ((d == d' && contains ps p) || has (recorded S m d') p)
  unfolding update_enabled
  recorded-update m d cs ps d' p =
      let before = scheduled S m empty ps d cs in
      let cur = current S m empty ps d cs in
      rw (prerequisites-clean before d cur cs, prerequisites-schedule_all S m empty ps d cs)
        (ground (
          arith,
          lookup-insert d d' (put_all S (or_empty S (lookup d m.prerequisites)) ps) m.prerequisites,
          has-put_all S (or_empty S (lookup d m.prerequisites)) ps p,
        ))

  pub update-Inv :
      (m : Instance S) (d : ObjectReference) (cs ps : List ObjectReference)
      → Inv S m
      → Inv S (update_enabled S m d cs ps)
  update-Inv m d cs ps v = record {
    unique =
        unfold update_enabled in
        clean-UniqueClusters (scheduled S m empty ps d cs) d (current S m empty ps d cs) cs
          (schedule_all-UniqueClusters S m empty ps d cs v.unique);
    covered = λ p c d' h.
        ground
          (arith, asks-update m d cs ps p c d' v, recorded-update m d cs ps d' p, v.covered p c d');
  }
