-- ===== src/ChartManager/Versions.antt =====
-- The versions of the charts deployed in clusters in pull mode: RegisterVersionForChart,
-- GetVersionForChart and UnregisterVersionForChart.
use addon_controller.Common.{
  ◌≡◌, ◌==◌, List, [], ◌∷◌, Text, text_eq, lookup, insert, erase, lookup-insert, lookup-erase,
  arith, Option, none, some, if◌then◌else◌, ◌&&◌, Bool,
}
use addon_controller.Api.{sveltos, HelmChart}
use addon_controller.ChartManager.Keys.{
  cluster_key, release_key, Plain, cluster_key_injective, release_key_injective,
}
use addon_controller.ChartManager.{Instance, or_nil, chart_key}

-- setChartVersion
pub set_chart_version : Instance → Text → Text → Text → Instance
set_chart_version m ck rk version = record m {
  versions = insert ck (insert rk version (or_nil (lookup ck m.versions))) m.versions;
}

-- getChartVersion
pub get_chart_version : Instance → Text → Text → Option Text
get_chart_version m ck rk = lookup rk (or_nil (lookup ck m.versions))

-- RegisterVersionForChart; only a SveltosCluster is in pull mode
pub register_version_for_chart : Instance → Text → Text → HelmChart → Instance
unfolding set_chart_version
register_version_for_chart m namespace name chart =
    set_chart_version m (cluster_key namespace name sveltos) (chart_key chart) chart.chart_version

abbrev pub or_empty : Option Text → Text
or_empty none = []
or_empty (some version) = version

-- GetVersionForChart: the empty text where no version is known
pub get_version_for_chart : Instance → Text → Text → HelmChart → Text
unfolding get_chart_version
get_version_for_chart m namespace name chart =
    or_empty (get_chart_version m (cluster_key namespace name sveltos) (chart_key chart))

-- the cluster's entry goes when its last release does
abbrev drop_if_empty :
    Text → List (Text × Text) → List (Text × List (Text × Text)) → List (Text × List (Text × Text))
drop_if_empty ck [] versions = erase ck versions
drop_if_empty ck (v ∷ vs) versions = insert ck (v ∷ vs) versions

-- UnregisterVersionForChart
pub unregister_version_for_chart : Instance → Text → Text → Text → Text → Instance
unregister_version_for_chart m namespace name release_namespace release_name =
    let ck = cluster_key namespace name sveltos in
    elim (lookup ck m.versions) [
      | none ↦ m
      | some known ↦ record m {
        versions =
            drop_if_empty ck (erase (release_key release_namespace release_name) known) m.versions;
      }
    ]

get-set_chart_version :
    (m : Instance) (ck rk v ck' rk' : Text)
    → get_chart_version (set_chart_version m ck rk v) ck' rk'
      ≡ (if ck == ck' && rk == rk' then some v else get_chart_version m ck' rk')
unfolding get_chart_version set_chart_version
get-set_chart_version m ck rk v ck' rk' = ground (
  arith,
  lookup-insert ck ck' (insert rk v (or_nil (lookup ck m.versions))) m.versions,
  lookup-insert rk rk' v (or_nil (lookup ck m.versions)),
)

-- whether two releases of two clusters are the same
abbrev pub same_chart : Text → Text → HelmChart → Text → Text → HelmChart → Bool
same_chart ns name chart ns' name' chart' =
    ns == ns'
    && name == name'
    && chart.release_namespace == chart'.release_namespace
    && chart.release_name == chart'.release_name

same_chart-keys :
    (ns name : Text) (chart : HelmChart) (ns' name' : Text) (chart' : HelmChart)
    → Plain ns
    → Plain ns'
    → Plain chart.release_namespace
    → Plain chart'.release_namespace
    → (cluster_key ns name sveltos == cluster_key ns' name' sveltos
        && chart_key chart == chart_key chart')
      ≡ same_chart ns name chart ns' name' chart'
same_chart-keys ns name chart ns' name' chart' h h' k k' = ground (
  arith,
  cluster_key_injective ns name ns' name' sveltos sveltos h h',
  release_key_injective chart.release_namespace chart.release_name chart'.release_namespace
      chart'.release_name k k',
)

-- A registered version is read back for that release of that cluster, and every other release of
-- every cluster reads as before, where no namespace has a '/'.
pub get_version-register_version :
    (m : Instance) (ns name : Text) (chart : HelmChart) (ns' name' : Text) (chart' : HelmChart)
    → Plain ns
    → Plain ns'
    → Plain chart.release_namespace
    → Plain chart'.release_namespace
    → get_version_for_chart (register_version_for_chart m ns name chart) ns' name' chart' ≡ (
        if same_chart ns name chart ns' name' chart'
        then chart.chart_version
        else get_version_for_chart m ns' name' chart')
unfolding get_version_for_chart register_version_for_chart
get_version-register_version m ns name chart ns' name' chart' h h' k k' =
    rw
      (
        get-set_chart_version m (cluster_key ns name sveltos) (chart_key chart) chart.chart_version
            (cluster_key ns' name' sveltos) (chart_key chart'),
        same_chart-keys ns name chart ns' name' chart' h h' k k',
      )
      (ground arith)

get-unregister :
    (m : Instance) (ns name rns rname ck' rk' : Text)
    → get_chart_version (unregister_version_for_chart m ns name rns rname) ck' rk' ≡ (
        if cluster_key ns name sveltos == ck' && release_key rns rname == rk'
        then none
        else get_chart_version m ck' rk')
unfolding get_chart_version unregister_version_for_chart
get-unregister m ns name rns rname ck' rk' =
    let ck = cluster_key ns name sveltos in
    let known = or_nil (lookup ck m.versions) in
    let rk = release_key rns rname in
    ground (
      arith,
      lookup-erase rk rk' known,
      lookup-erase ck ck' m.versions,
      lookup-insert ck ck' (erase rk known) m.versions,
    )

-- An unregistered version is gone, and every other release of every cluster reads as before, where
-- no namespace has a '/'.
pub get_version-unregister_version :
    (m : Instance) (ns name : Text) (chart : HelmChart) (ns' name' : Text) (chart' : HelmChart)
    → Plain ns
    → Plain ns'
    → Plain chart.release_namespace
    → Plain chart'.release_namespace
    → get_version_for_chart
        (unregister_version_for_chart m ns name chart.release_namespace chart.release_name)
        ns'
        name'
        chart'
      ≡ (if same_chart ns name chart ns' name' chart'
          then []
          else get_version_for_chart m ns' name' chart')
unfolding get_version_for_chart
get_version-unregister_version m ns name chart ns' name' chart' h h' k k' =
    rw
      (
        get-unregister m ns name chart.release_namespace chart.release_name
            (cluster_key ns' name' sveltos) (chart_key chart'),
        same_chart-keys ns name chart ns' name' chart' h h' k k',
      )
      (ground arith)
