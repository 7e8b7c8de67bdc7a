-- ===== src/ChartManager.antt =====
-- controllers/chartmanager/chartmanager.go: which ClusterSummary manages which helm release in which
-- cluster. A method that mutates `*instance` returns the new record; the mutex makes each method one
-- step. The set of tracked clusters and the logger are left out: no method reads them.
pub mod Keys
pub mod Registry
pub mod Slices
pub mod Manager
pub mod Cleaning
pub mod Invariant
pub mod Rebuild
pub mod Queries
pub mod Versions
use addon_controller.Common.{
  ℕ, suc, ◌+◌, Bool, true, false, ◌&&◌, not, if◌then◌else◌, ◌==◌, same, ite, List, [], ◌∷◌, ◌++◌,
  Option, none, some, Text, text_eq, length, contains, keys, lookup, insert, erase,
}
use addon_controller.Api.{SyncMode, dry_run, HelmChart, ClusterSummary}
use Keys.{cluster_key, release_key, cluster_summary_key}

-- perClusterChartMap and perClusterChartVersionMap
pub record Instance : Type 0 where
  pub charts : List (Text × List (Text × List Text))
  pub versions : List (Text × List (Text × Text))

-- `m[k]` where a missing key reads as the zero value
abbrev pub or_nil {ℓ} : {A : Type ℓ} → Option (List A) → List A
or_nil none = []
or_nil (some l) = l

abbrev pub releases : Instance → Text → List (Text × List Text)
releases m ck = or_nil (lookup ck m.charts)

-- m.perClusterChartMap[clusterKey][releaseKey]
unfoldable pub registered : Instance → Text → Text → List Text
registered m ck rk = or_nil (lookup rk (releases m ck))

-- m.perClusterChartMap[clusterKey][releaseKey] = l
unfoldable pub set_registered : Instance → Text → Text → List Text → Instance
set_registered m ck rk l = record m { charts = insert ck (insert rk l (releases m ck)) m.charts }

abbrev add_cluster_entry : Instance → Text → Instance
add_cluster_entry m ck = elim (lookup ck m.charts) [
  | none ↦ record m { charts = insert ck [] m.charts }
  | some _ ↦ m
]

abbrev add_missing_release : Instance → Text → Text → Instance
add_missing_release m ck rk = elim (lookup rk (releases m ck)) [
  | none ↦ record m { charts = insert ck (insert rk [] (releases m ck)) m.charts }
  | some _ ↦ m
]

abbrev add_release_entry : Instance → Text → Text → Instance
add_release_entry m ck rk = add_missing_release (add_cluster_entry m ck) ck rk

abbrev pub is_cluster_summary_already_registered : List Text → Text → Bool
is_cluster_summary_already_registered = contains

abbrev append_cluster_summary : Instance → Text → Text → Text → Instance
append_cluster_summary m ck rk cs =
    if is_cluster_summary_already_registered (registered m ck rk) cs
    then m
    else set_registered m ck rk (registered m ck rk ++ cs ∷ [])

pub add_cluster_summary_entry : Instance → Text → Text → Text → Instance
add_cluster_summary_entry m ck rk cs = append_cluster_summary (add_release_entry m ck rk) ck rk cs

-- the three calls that the registering loops make for one release
pub add_entries : Instance → Text → Text → Text → Instance
unfolding add_cluster_summary_entry
add_entries m ck rk cs =
    add_cluster_summary_entry (add_release_entry (add_cluster_entry m ck) ck rk) ck rk cs

abbrev pub chart_key : HelmChart → Text
chart_key chart = release_key chart.release_namespace chart.release_name

abbrev pub summary_cluster_key : ClusterSummary → Text
summary_cluster_key cs = cluster_key cs.cluster_namespace cs.cluster_name cs.cluster_type

pub register_charts : Instance → Text → Text → List HelmChart → Instance
register_charts m ck cs [] = m
register_charts m ck cs (chart ∷ rest) =
    register_charts (add_entries m ck (chart_key chart) cs) ck cs rest

-- RegisterClusterSummaryForCharts: with no chart the loop does nothing, as the early return does
pub register_cluster_summary_for_charts : Instance → ClusterSummary → Instance
unfolding register_charts
register_cluster_summary_for_charts m cs =
    register_charts m (summary_cluster_key cs) (cluster_summary_key cs.name) cs.spec.helm_charts

-- the last element of `x ∷ xs`, and the others
abbrev pub last_of : Text → List Text → Text
last_of x [] = x
last_of x (y ∷ ys) = last_of y ys

abbrev pub but_last : Text → List Text → List Text
but_last x [] = []
but_last x (y ∷ ys) = x ∷ but_last y ys

-- what stands where an element was, given what stood after it: the last element moves up
abbrev pub move_last : List Text → List Text
move_last [] = []
move_last (y ∷ ys) = last_of y ys ∷ but_last y ys

-- the loop of removeClusterSummaryFromChartRegistration over one slice
pub swap_remove : Text → List Text → List Text
swap_remove x [] = []
swap_remove x (y ∷ ys) = let rest = y ∷ swap_remove x ys in ite (same y x) (move_last ys) rest

-- removeClusterSummaryFromChartRegistration; UnregisterClusterSummaryForChart has the same loop
pub remove_cluster_summary_from_chart_registration : Instance → Text → Text → Text → Instance
remove_cluster_summary_from_chart_registration m ck rk cs =
    if contains (registered m ck rk) cs
    then set_registered m ck rk (swap_remove cs (registered m ck rk))
    else m

pub unregister_cluster_summary_for_chart : Instance → ClusterSummary → HelmChart → Instance
unfolding remove_cluster_summary_from_chart_registration
unregister_cluster_summary_for_chart m cs chart =
    remove_cluster_summary_from_chart_registration m (summary_cluster_key cs) (chart_key chart)
      (cluster_summary_key cs.name)

-- SetManagerForChart
unfoldable pub set_manager_for_chart : Instance → ClusterSummary → HelmChart → Instance
unfolding remove_cluster_summary_from_chart_registration
set_manager_for_chart m cs chart =
    let ck = summary_cluster_key cs in
    let rk = chart_key chart in
    let key = cluster_summary_key cs.name in
    let removed =
      remove_cluster_summary_from_chart_registration (add_release_entry m ck rk) ck rk key in
    set_registered removed ck rk (key ∷ registered removed ck rk)

-- the loop of cleanRegistrations over the releases of the cluster
pub clean_releases : Instance → Text → Text → List Text → List Text → Instance
unfolding remove_cluster_summary_from_chart_registration
clean_releases m ck cs referenced [] = m
clean_releases m ck cs referenced (rk ∷ rest) =
    clean_releases
      (if contains referenced rk
        then m
        else remove_cluster_summary_from_chart_registration m ck rk cs)
      ck cs referenced rest

abbrev pub chart_keys : List HelmChart → List Text
chart_keys [] = []
chart_keys (chart ∷ rest) = chart_key chart ∷ chart_keys rest

pub clean_registrations : Instance → ClusterSummary → Bool → Instance
unfolding clean_releases
clean_registrations m cs remove_all =
    let ck = summary_cluster_key cs in
    clean_releases m ck (cluster_summary_key cs.name)
      (if remove_all then [] else chart_keys cs.spec.helm_charts) (keys (releases m ck))

abbrev pub is_dry_run : SyncMode → Bool
is_dry_run dry_run = true
is_dry_run _ = false

pub remove_stale_registrations : Instance → ClusterSummary → Instance
unfolding clean_registrations
remove_stale_registrations m cs =
    if is_dry_run cs.spec.sync_mode then m else clean_registrations m cs false

pub remove_all_registrations : Instance → ClusterSummary → Instance
unfolding clean_registrations
remove_all_registrations m cs = clean_registrations m cs true

-- GetManagerForChart: `none` stands for the error
abbrev pub head_of : List Text → Option Text
head_of [] = none
head_of (x ∷ xs) = some x

unfoldable pub get_manager_for_chart : Instance → Text → Text → Option Text
get_manager_for_chart m ck rk = head_of (registered m ck rk)

pub is_chart_managed : Instance → Text → Text → Bool
is_chart_managed m ck rk = elim (registered m ck rk) [ [] ↦ false | _ ∷ _ ↦ true ]

abbrev pub is_first : List Text → Text → Bool
is_first [] cs = false
is_first (x ∷ xs) cs = x == cs

pub is_currently_manager : Instance → Text → Text → Text → Bool
is_currently_manager m ck rk cs = is_first (registered m ck rk) cs

-- CanManageChart
unfoldable pub can_manage_chart : Instance → ClusterSummary → HelmChart → Bool
unfolding is_chart_managed is_currently_manager
can_manage_chart m cs chart =
    let ck = summary_cluster_key cs in
    let rk = chart_key chart in
    if not (is_chart_managed m ck rk)
    then true
    else is_currently_manager m ck rk (cluster_summary_key cs.name)
