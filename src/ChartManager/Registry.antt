-- ===== src/ChartManager/Registry.antt =====
-- The chart manager seen as a function from a cluster and a release to the list of registered
-- ClusterSummaries: what each step of chartmanager.go does to that list, and to the others.
use addon_controller.Common.{
  ◌≡◌, refl, ite, same, if◌then◌else◌, List, [], ◌∷◌, ◌++◌, Text, text_eq, contains, insert, arith,
  lookup-insert,
}
use addon_controller.ChartManager.{
  Instance, registered, set_registered, releases, add_cluster_entry, add_missing_release,
  add_release_entry, append_cluster_summary, add_cluster_summary_entry, add_entries, swap_remove,
  remove_cluster_summary_from_chart_registration,
}

-- `x` at the release (ck, rk) of the cluster, `y` at any other
abbrev pub at {ℓ} : {A : Type ℓ} → Text → Text → Text → Text → A → A → A
at ck rk ck' rk' x y = ite (same ck ck') (ite (same rk rk') x y) y

-- A release that was not there reads as an empty list, so creating the entry shows nowhere.
pub registered-set_registered :
    (m : Instance) (ck rk ck' rk' : Text) (l : List Text)
    → registered (set_registered m ck rk l) ck' rk' ≡ at ck rk ck' rk' l (registered m ck' rk')
unfolding registered set_registered
registered-set_registered m ck rk ck' rk' l = ground (
  arith,
  lookup-insert ck ck' (insert rk l (releases m ck)) m.charts,
  lookup-insert rk rk' l (releases m ck),
)

registered-add_cluster_entry :
    (m : Instance) (ck ck' rk' : Text)
    → registered (add_cluster_entry m ck) ck' rk' ≡ registered m ck' rk'
unfolding registered
registered-add_cluster_entry m ck ck' rk' = ground (arith, lookup-insert ck ck' [] m.charts)

registered-add_missing_release :
    (m : Instance) (ck rk ck' rk' : Text)
    → registered (add_missing_release m ck rk) ck' rk' ≡ registered m ck' rk'
unfolding registered
registered-add_missing_release m ck rk ck' rk' = ground (
  arith,
  lookup-insert ck ck' (insert rk [] (releases m ck)) m.charts,
  lookup-insert rk rk' [] (releases m ck),
)

pub registered-add_release_entry :
    (m : Instance) (ck rk ck' rk' : Text)
    → registered (add_release_entry m ck rk) ck' rk' ≡ registered m ck' rk'
registered-add_release_entry m ck rk ck' rk' =
    rw (registered-add_missing_release (add_cluster_entry m ck) ck rk ck' rk')
      (registered-add_cluster_entry m ck ck' rk')

-- a slice with a ClusterSummary registered at its end, unless it is there
abbrev pub added : Text → List Text → List Text
added cs l = if contains l cs then l else l ++ cs ∷ []

pub registered-append_cluster_summary :
    (m : Instance) (ck rk cs ck' rk' : Text)
    → registered (append_cluster_summary m ck rk cs) ck' rk'
      ≡ at ck rk ck' rk' (added cs (registered m ck' rk')) (registered m ck' rk')
registered-append_cluster_summary m ck rk cs ck' rk' =
    ground (arith, registered-set_registered m ck rk ck' rk' (registered m ck rk ++ cs ∷ []))

registered-add_cluster_summary_entry :
    (m : Instance) (ck rk cs ck' rk' : Text)
    → registered (add_cluster_summary_entry m ck rk cs) ck' rk'
      ≡ at ck rk ck' rk' (added cs (registered m ck' rk')) (registered m ck' rk')
unfolding add_cluster_summary_entry
registered-add_cluster_summary_entry m ck rk cs ck' rk' =
    rw
      (
        registered-append_cluster_summary (add_release_entry m ck rk) ck rk cs ck' rk',
        registered-add_release_entry m ck rk ck' rk',
      )
      refl

-- Registering one release appends to its list and to no other.
pub registered-add_entries :
    (m : Instance) (ck rk cs ck' rk' : Text)
    → registered (add_entries m ck rk cs) ck' rk'
      ≡ at ck rk ck' rk' (added cs (registered m ck' rk')) (registered m ck' rk')
unfolding add_entries
registered-add_entries m ck rk cs ck' rk' =
    rw
      (
        registered-add_cluster_summary_entry (add_release_entry (add_cluster_entry m ck) ck rk) ck
            rk cs ck' rk',
        registered-add_release_entry (add_cluster_entry m ck) ck rk ck' rk',
        registered-add_cluster_entry m ck ck' rk',
      )
      refl

-- a slice with the first occurrence of a ClusterSummary taken out
abbrev pub removed : Text → List Text → List Text
removed cs l = if contains l cs then swap_remove cs l else l

pub registered-remove :
    (m : Instance) (ck rk cs ck' rk' : Text)
    → registered (remove_cluster_summary_from_chart_registration m ck rk cs) ck' rk'
      ≡ at ck rk ck' rk' (removed cs (registered m ck' rk')) (registered m ck' rk')
unfolding remove_cluster_summary_from_chart_registration
registered-remove m ck rk cs ck' rk' =
    ground (arith, registered-set_registered m ck rk ck' rk' (swap_remove cs (registered m ck rk)))
