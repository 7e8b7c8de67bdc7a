-- ===== src/ChartManager/Queries.antt =====
-- The queries of chartmanager.go over all the releases of a cluster.
use addon_controller.Common.{
  ℕ, suc, ◌≡◌, refl, ◌==◌, ◌&&◌, ◌||◌, if◌then◌else◌, Bool, true, false, List, [], ◌∷◌, ◌++◌, Text,
  text_eq, contains, keys, arith, Option, select, map, Distinct, Bool-cases, inl, inr,
  contains-append,
}
use addon_controller.Api.{ClusterSummary}
use addon_controller.ChartManager.Keys.{HelmReleaseInfo, release_info_from_key, cluster_summary_key}
use addon_controller.ChartManager.{
  Instance, registered, releases, summary_cluster_key, is_currently_manager, is_first,
}
use addon_controller.ChartManager.Slices.{Distinct-added}
use addon_controller.ChartManager.Cleaning.{AllDistinct}

abbrev count_registered : List (Text × List Text) → Text → ℕ
count_registered [] cs = 0
count_registered ((rk, l) ∷ rest) cs =
    let n = count_registered rest cs in if contains l cs then suc n else n

-- GetRegisteredChartsCount
pub get_registered_charts_count : Instance → ClusterSummary → ℕ
get_registered_charts_count m cs =
    count_registered (releases m (summary_cluster_key cs)) (cluster_summary_key cs.name)

-- what GetManagedHelmReleases appends for one release: the key, once for each place in the list that
-- names the ClusterSummary, if it is first
abbrev managed_in_list : Text → Text → Bool → List Text → List (Option HelmReleaseInfo)
managed_in_list rk cs manager [] = []
managed_in_list rk cs manager (x ∷ xs) =
    let rest = managed_in_list rk cs manager xs in
    if x == cs && manager then release_info_from_key rk ∷ rest else rest

pub managed_releases : Instance → Text → Text → List Text → List (Option HelmReleaseInfo)
unfolding is_currently_manager
managed_releases m ck cs [] = []
managed_releases m ck cs (rk ∷ rest) =
    managed_in_list rk cs (is_currently_manager m ck rk cs) (registered m ck rk)
    ++ managed_releases m ck cs rest

-- GetManagedHelmReleases; an element `none` is the panic of getReleaseInfoFromKey
pub get_managed_helm_releases : Instance → ClusterSummary → List (Option HelmReleaseInfo)
unfolding managed_releases
get_managed_helm_releases m cs =
    let ck = summary_cluster_key cs in
    managed_releases m ck (cluster_summary_key cs.name) (keys (releases m ck))

-- the set that GetRegisteredClusterSummaries collects, as a list with no duplicate
abbrev collect : List Text → List Text → List Text
collect seen [] = seen
collect seen (x ∷ xs) = collect (if contains seen x then seen else seen ++ x ∷ []) xs

abbrev collect_all : List Text → List (Text × List Text) → List Text
collect_all seen [] = seen
collect_all seen ((rk, l) ∷ rest) = collect_all (collect seen l) rest

pub get_registered_cluster_summaries : Instance → Text → List Text
get_registered_cluster_summaries m ck = collect_all [] (releases m ck)

-- the releases among those given that the ClusterSummary manages
abbrev pub managed_keys : Instance → Text → Text → List Text → List Text
managed_keys m ck cs = select (λ rk. is_currently_manager m ck rk cs)

managed_in_list_none :
    (rk cs : Text) (manager : Bool) (l : List Text)
    → contains l cs ≡ false
    → managed_in_list rk cs manager l ≡ []
managed_in_list_none rk cs manager [] h = refl
managed_in_list_none rk cs manager (x ∷ l) h = ground (arith, managed_in_list_none rk cs manager l)

managed_in_list_once :
    (rk cs : Text) (l : List Text)
    → Distinct l
    → managed_in_list rk cs (is_first l cs) l
      ≡ (if is_first l cs then release_info_from_key rk ∷ [] else [])
managed_in_list_once rk cs [] d = refl
managed_in_list_once rk cs (x ∷ l) d = elim (Bool-cases (x == cs)) [
  | inl first ↦ ground (arith, managed_in_list_none rk cs true l)
  | inr later ↦ ground (arith, not_manager l)
]
  where
    not_manager : (l : List Text) → managed_in_list rk cs false l ≡ []
    not_manager [] = refl
    not_manager (y ∷ l) = ground (arith, not_manager l)

managed_releases_lem :
    (m : Instance) (ck cs : Text) (ks : List Text)
    → AllDistinct m
    → managed_releases m ck cs ks ≡ map release_info_from_key (managed_keys m ck cs ks)
unfolding managed_releases is_currently_manager
managed_releases_lem m ck cs [] d = refl
managed_releases_lem m ck cs (rk ∷ ks) d = ground (
  arith,
  managed_releases_lem m ck cs ks d,
  managed_in_list_once rk cs (registered m ck rk) (d ck rk),
)

-- GetManagedHelmReleases reports each release of the cluster that the ClusterSummary manages, once,
-- and no other, where no list has a duplicate.
pub get_managed_helm_releases_lem :
    (m : Instance) (cs : ClusterSummary)
    → AllDistinct m
    → get_managed_helm_releases m cs
      ≡ map release_info_from_key (
          managed_keys m
            (summary_cluster_key cs)
            cs.name
            (keys (releases m (summary_cluster_key cs))))
unfolding get_managed_helm_releases
get_managed_helm_releases_lem m cs d =
    managed_releases_lem m (summary_cluster_key cs) cs.name
      (keys (releases m (summary_cluster_key cs))) d

-- some release of the cluster lists the name
abbrev pub listed : List (Text × List Text) → Text → Bool
listed [] a = false
listed ((rk, l) ∷ rest) a = contains l a || listed rest a

contains-collect :
    (seen l : List Text) (a : Text)
    → contains (collect seen l) a ≡ (contains seen a || contains l a)
contains-collect seen [] a = ground arith
contains-collect seen (x ∷ l) a = ground (
  arith,
  contains-collect (if contains seen x then seen else seen ++ x ∷ []) l a,
  contains-append seen (x ∷ []) a,
)

Distinct-collect : (seen l : List Text) → Distinct seen → Distinct (collect seen l)
Distinct-collect seen [] d = d
Distinct-collect seen (x ∷ l) d =
    Distinct-collect (if contains seen x then seen else seen ++ x ∷ []) l (Distinct-added x seen d)

contains-collect_all :
    (seen : List Text) (l : List (Text × List Text)) (a : Text)
    → contains (collect_all seen l) a ≡ (contains seen a || listed l a)
contains-collect_all seen [] a = ground arith
contains-collect_all seen ((rk, l) ∷ rest) a =
    ground (arith, contains-collect_all (collect seen l) rest a, contains-collect seen l a)

Distinct-collect_all :
    (seen : List Text) (l : List (Text × List Text)) → Distinct seen → Distinct (collect_all seen l)
Distinct-collect_all seen [] d = d
Distinct-collect_all seen ((rk, l) ∷ rest) d =
    Distinct-collect_all (collect seen l) rest (Distinct-collect seen l d)

-- GetRegisteredClusterSummaries names every ClusterSummary registered for a release of the cluster,
-- no other, and none twice.
pub get_registered_cluster_summaries_lem :
    (m : Instance) (ck a : Text)
    → Distinct (get_registered_cluster_summaries m ck)
      × (contains (get_registered_cluster_summaries m ck) a ≡ listed (releases m ck) a)
unfolding get_registered_cluster_summaries
get_registered_cluster_summaries_lem m ck a =
    (Distinct-collect_all [] (releases m ck) tt, contains-collect_all [] (releases m ck) a)
