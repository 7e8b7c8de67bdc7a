-- ===== src/ChartManager/Cleaning.antt =====
-- cleanRegistrations and its two callers.
use addon_controller.Common.{
  ◌≡◌, ◌||◌, ◌&&◌, not, ◌==◌, if◌then◌else◌, Bool, true, false, List, [], ◌∷◌, Text, text_eq,
  ==_refl, ◌∙◌, refl, contains, Distinct, arith, keys, contains-keys, Bool-cases, inl, inr,
}
use addon_controller.Api.{ClusterSummary}
use addon_controller.ChartManager.{
  Instance, registered, releases, summary_cluster_key, chart_keys, is_dry_run, clean_releases,
  clean_registrations, remove_stale_registrations, remove_all_registrations,
  remove_cluster_summary_from_chart_registration, swap_remove, set_registered,
}
use addon_controller.ChartManager.Registry.{registered-remove}
use addon_controller.ChartManager.Slices.{
  contains-swap_remove, Distinct-swap_remove, removed-swap_remove, swap_remove_absent,
}

-- No list of registered ClusterSummaries names one twice.
abbrev pub AllDistinct : Instance → Type 0
AllDistinct m = (ck rk : Text) → Distinct (registered m ck rk)

pub remove-AllDistinct :
    (m : Instance) (ck rk cs : Text)
    → AllDistinct m
    → AllDistinct (remove_cluster_summary_from_chart_registration m ck rk cs)
remove-AllDistinct m ck rk cs d ck' rk' = rw (registered-remove m ck rk cs ck' rk') (
    ground (
      arith,
      d ck' rk',
      removed-swap_remove cs (registered m ck' rk'),
      Distinct-swap_remove cs (registered m ck' rk') (d ck' rk'),
    ))

-- one round of the loop
abbrev clean_one : Instance → Text → Text → List Text → Text → Instance
clean_one m ck cs referenced rk =
    if contains referenced rk then m else remove_cluster_summary_from_chart_registration m ck rk cs

clean_one-AllDistinct :
    (m : Instance) (ck cs : Text) (referenced : List Text) (rk : Text)
    → AllDistinct m
    → AllDistinct (clean_one m ck cs referenced rk)
clean_one-AllDistinct m ck cs referenced rk d = elim (Bool-cases (contains referenced rk)) [
  | inl kept ↦ rw kept d
  | inr stale ↦ rw stale (remove-AllDistinct m ck rk cs d)
]

clean_releases-AllDistinct :
    (m : Instance) (ck cs : Text) (referenced ks : List Text)
    → AllDistinct m
    → AllDistinct (clean_releases m ck cs referenced ks)
unfolding clean_releases
clean_releases-AllDistinct m ck cs referenced [] d = d
clean_releases-AllDistinct m ck cs referenced (rk ∷ ks) d =
    clean_releases-AllDistinct (clean_one m ck cs referenced rk) ck cs referenced ks
      (clean_one-AllDistinct m ck cs referenced rk d)

contains-clean_releases :
    (m : Instance) (ck cs : Text) (referenced ks : List Text) (ck' rk' a : Text)
    → AllDistinct m
    → contains (registered (clean_releases m ck cs referenced ks) ck' rk') a ≡ (
        contains (registered m ck' rk') a
        && not (ck == ck' && contains ks rk' && not (contains referenced rk') && cs == a))
unfolding clean_releases
contains-clean_releases m ck cs referenced [] ck' rk' a d = ground arith
contains-clean_releases m ck cs referenced (rk ∷ ks) ck' rk' a d = ground (
  arith,
  contains-clean_releases (clean_one m ck cs referenced rk) ck cs referenced ks ck' rk' a
      (clean_one-AllDistinct m ck cs referenced rk d),
  registered-remove m ck rk cs ck' rk',
  removed-swap_remove cs (registered m ck' rk'),
  contains-swap_remove cs (registered m ck' rk') a (d ck' rk'),
)

-- a release with a registration is among those that the loop visits
contains-registered :
    (m : Instance) (ck rk a : Text)
    → contains (keys (releases m ck)) rk ≡ false
    → contains (registered m ck rk) a ≡ false
unfolding registered
contains-registered m ck rk a h = ground (arith, contains-keys rk (releases m ck))

clean_registrations_effect :
    (m : Instance) (cs : ClusterSummary) (remove_all : Bool) (ck rk a : Text)
    → AllDistinct m
    → contains (registered (clean_registrations m cs remove_all) ck rk) a ≡ (
        contains (registered m ck rk) a
        && not (
            summary_cluster_key cs == ck
            && (remove_all || not (contains (chart_keys cs.spec.helm_charts) rk))
            && cs.name == a))
unfolding clean_registrations
clean_registrations_effect m cs true ck rk a d = ground (
  arith,
  contains-clean_releases m (summary_cluster_key cs) cs.name []
      (keys (releases m (summary_cluster_key cs))) ck rk a d,
  contains-registered m ck rk a,
)
clean_registrations_effect m cs false ck rk a d = ground (
  arith,
  contains-clean_releases m (summary_cluster_key cs) cs.name (chart_keys cs.spec.helm_charts)
      (keys (releases m (summary_cluster_key cs))) ck rk a d,
  contains-registered m ck rk a,
)

-- RemoveAllRegistrations takes the ClusterSummary out of every list of its own cluster and changes
-- nothing else, where no list has a duplicate.
pub remove_all_registrations_effect :
    (m : Instance) (cs : ClusterSummary) (ck rk a : Text)
    → AllDistinct m
    → contains (registered (remove_all_registrations m cs) ck rk) a
      ≡ (contains (registered m ck rk) a && not (summary_cluster_key cs == ck && cs.name == a))
unfolding remove_all_registrations
remove_all_registrations_effect m cs ck rk a d =
    ground (arith, clean_registrations_effect m cs true ck rk a d)

remove-versions :
    (m : Instance) (ck rk cs : Text)
    → (remove_cluster_summary_from_chart_registration m ck rk cs).versions ≡ m.versions
unfolding set_registered remove_cluster_summary_from_chart_registration
remove-versions m ck rk cs = elim (Bool-cases (contains (registered m ck rk) cs)) [
  | inl e ↦ rw e refl
  | inr e ↦ rw e refl
]

clean_releases-versions :
    (m : Instance) (ck cs : Text) (referenced ks : List Text)
    → (clean_releases m ck cs referenced ks).versions ≡ m.versions
unfolding clean_releases
clean_releases-versions m ck cs referenced [] = refl
clean_releases-versions m ck cs referenced (rk ∷ ks) =
    clean_releases-versions (clean_one m ck cs referenced rk) ck cs referenced ks
    ∙ elim (Bool-cases (contains referenced rk)) [
      | inl e ↦ rw e refl
      | inr e ↦ rw e (remove-versions m ck rk cs)
    ]

-- What is taken out once is gone.
swap_remove_again :
    (cs : Text) (l : List Text) → Distinct l → swap_remove cs (swap_remove cs l) ≡ swap_remove cs l
swap_remove_again cs l d =
    swap_remove_absent cs (swap_remove cs l)
      (contains-swap_remove cs l cs d ∙ ground (arith, ==_refl cs))

registered-clean_releases :
    (m : Instance) (ck cs : Text) (referenced ks : List Text) (ck' rk' : Text)
    → AllDistinct m
    → registered (clean_releases m ck cs referenced ks) ck' rk' ≡ (
        if ck == ck' && contains ks rk' && not (contains referenced rk')
        then swap_remove cs (registered m ck' rk')
        else registered m ck' rk')
unfolding clean_releases
registered-clean_releases m ck cs referenced [] ck' rk' d = ground arith
registered-clean_releases m ck cs referenced (rk ∷ ks) ck' rk' d = ground (
  arith,
  registered-clean_releases (clean_one m ck cs referenced rk) ck cs referenced ks ck' rk'
      (clean_one-AllDistinct m ck cs referenced rk d),
  registered-remove m ck rk cs ck' rk',
  removed-swap_remove cs (registered m ck' rk'),
  swap_remove_again cs (registered m ck' rk') (d ck' rk'),
)

pub clean_registrations-AllDistinct :
    (m : Instance) (cs : ClusterSummary) (remove_all : Bool)
    → AllDistinct m
    → AllDistinct (clean_registrations m cs remove_all)
unfolding clean_registrations
clean_registrations-AllDistinct m cs remove_all d =
    clean_releases-AllDistinct m (summary_cluster_key cs) cs.name
      (if remove_all then [] else chart_keys cs.spec.helm_charts)
      (keys (releases m (summary_cluster_key cs))) d

registered_none :
    (m : Instance) (ck rk : Text)
    → contains (keys (releases m ck)) rk ≡ false
    → registered m ck rk ≡ []
unfolding registered
registered_none m ck rk h = ground (arith, contains-keys rk (releases m ck))

-- RemoveStaleRegistrations, where no list has a duplicate: from the list of a release of its cluster that
-- the ClusterSummary does not reference any more it is taken out, the last element moving into its place;
-- every other list stays as it is, in DryRun mode every list does, and no version changes.
pub remove_stale_registrations_effect :
    (m : Instance) (cs : ClusterSummary) (ck rk : Text)
    → AllDistinct m
    → (registered (remove_stale_registrations m cs) ck rk ≡ (
        if not (is_dry_run cs.spec.sync_mode)
          && summary_cluster_key cs == ck
          && not (contains (chart_keys cs.spec.helm_charts) rk)
        then swap_remove cs.name (registered m ck rk)
        else registered m ck rk))
      × ((remove_stale_registrations m cs).versions ≡ m.versions)
unfolding remove_stale_registrations clean_registrations
remove_stale_registrations_effect m cs ck rk d = elim (Bool-cases (is_dry_run cs.spec.sync_mode)) [
  | inl dry ↦ rw dry (refl, refl)
  | inr wet ↦
      let k = summary_cluster_key cs in
      let referenced = chart_keys cs.spec.helm_charts in
      let visited = keys (releases m k) in
      rw wet (
        ground (
          arith,
          registered-clean_releases m k cs.name referenced visited ck rk d,
          registered_none m ck rk,
          swap_remove_absent cs.name [] refl,
        ),
        clean_releases-versions m k cs.name referenced visited,
      )
]
