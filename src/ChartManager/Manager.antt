-- ===== src/ChartManager/Manager.antt =====
-- Registration and the manager role: RegisterClusterSummaryForCharts, SetManagerForChart,
-- UnregisterClusterSummaryForChart and CanManageChart.
use addon_controller.Common.{
  ◌≡◌, ◌||◌, ◌&&◌, ◌==◌, Bool, true, List, [], ◌∷◌, none, some, Text, text_eq, contains, Distinct,
  arith, Option,
}
use addon_controller.Api.{ClusterSummary, HelmChart}
use addon_controller.ChartManager.{
  Instance, registered, add_entries, register_charts, register_cluster_summary_for_charts,
  summary_cluster_key, chart_key, chart_keys, get_manager_for_chart, can_manage_chart,
  set_manager_for_chart, unregister_cluster_summary_for_chart, last_of, but_last, add_release_entry,
  remove_cluster_summary_from_chart_registration,
}
use addon_controller.ChartManager.Registry.{
  registered-add_entries, registered-remove, registered-set_registered,
  registered-add_release_entry,
}
use addon_controller.ChartManager.Slices.{
  contains-added, head_of-added, contains-swap_remove, swap_remove_self, removed-swap_remove,
}

contains-register_charts :
    (m : Instance) (ck cs : Text) (charts : List HelmChart) (ck' rk' a : Text)
    → contains (registered (register_charts m ck cs charts) ck' rk') a ≡ (
        contains (registered m ck' rk') a
        || (ck == ck' && contains (chart_keys charts) rk' && cs == a))
unfolding register_charts
contains-register_charts m ck cs [] ck' rk' a = ground arith
contains-register_charts m ck cs (chart ∷ rest) ck' rk' a = ground (
  arith,
  contains-register_charts (add_entries m ck (chart_key chart) cs) ck cs rest ck' rk' a,
  registered-add_entries m ck (chart_key chart) cs ck' rk',
  contains-added cs (registered m ck' rk') a,
)

-- Registering a ClusterSummary adds its name to the lists of the releases that it references in its
-- own cluster, if it is not there, and changes the membership of no other list.
pub contains-register :
    (m : Instance) (cs : ClusterSummary) (ck rk a : Text)
    → contains (registered (register_cluster_summary_for_charts m cs) ck rk) a ≡ (
        contains (registered m ck rk) a
        || (summary_cluster_key cs == ck
            && contains (chart_keys cs.spec.helm_charts) rk
            && cs.name == a))
unfolding register_cluster_summary_for_charts
contains-register m cs ck rk a =
    contains-register_charts m (summary_cluster_key cs) cs.name cs.spec.helm_charts ck rk a

register_charts-manager :
    (m : Instance) (ck cs : Text) (charts : List HelmChart) (ck' rk' x : Text)
    → get_manager_for_chart m ck' rk' ≡ some x
    → get_manager_for_chart (register_charts m ck cs charts) ck' rk' ≡ some x
unfolding register_charts get_manager_for_chart
register_charts-manager m ck cs [] ck' rk' x h = h
register_charts-manager m ck cs (chart ∷ rest) ck' rk' x h =
    register_charts-manager (add_entries m ck (chart_key chart) cs) ck cs rest ck' rk' x (
      ground (
        arith,
        registered-add_entries m ck (chart_key chart) cs ck' rk',
        head_of-added cs x (registered m ck' rk'),
      ))

-- The manager of a release keeps its role whoever registers after it.
pub register-keeps_manager :
    (m : Instance) (cs : ClusterSummary) (ck rk x : Text)
    → get_manager_for_chart m ck rk ≡ some x
    → get_manager_for_chart (register_cluster_summary_for_charts m cs) ck rk ≡ some x
unfolding register_cluster_summary_for_charts
register-keeps_manager m cs ck rk x h =
    register_charts-manager m (summary_cluster_key cs) cs.name cs.spec.helm_charts ck rk x h

-- whether a ClusterSummary may manage a release, given the release's manager
abbrev pub may_manage : Option Text → Text → Bool
may_manage none cs = true
may_manage (some x) cs = x == cs

-- CanManageChart agrees with GetManagerForChart: while a release has a manager, exactly the
-- ClusterSummary of that name may manage it, and while it has none, every one may.
pub can_manage_chart-manager :
    (m : Instance) (cs : ClusterSummary) (chart : HelmChart)
    → can_manage_chart m cs chart
      ≡ may_manage (get_manager_for_chart m (summary_cluster_key cs) (chart_key chart)) cs.name
unfolding can_manage_chart get_manager_for_chart
can_manage_chart-manager m cs chart = ground arith

pub manager-set_manager :
    (m : Instance) (cs : ClusterSummary) (chart : HelmChart)
    → get_manager_for_chart
        (set_manager_for_chart m cs chart)
        (summary_cluster_key cs)
        (chart_key chart)
      ≡ some cs.name
unfolding set_manager_for_chart get_manager_for_chart
manager-set_manager m cs chart =
    let k = summary_cluster_key cs in
    let r = chart_key chart in
    let gone =
      remove_cluster_summary_from_chart_registration (add_release_entry m k r) k r cs.name in
    rw (registered-set_registered gone k r k r (cs.name ∷ registered gone k r)) (ground arith)

-- SetManagerForChart makes the ClusterSummary the manager. Where the list had no duplicate, the
-- members are those from before and the new manager, and no other release changes.
pub set_manager_for_chart_effect :
    (m : Instance) (cs : ClusterSummary) (chart : HelmChart) (ck rk a : Text)
    → Distinct (registered m ck rk)
    → (get_manager_for_chart
          (set_manager_for_chart m cs chart)
          (summary_cluster_key cs)
          (chart_key chart)
        ≡ some cs.name)
      × (contains (registered (set_manager_for_chart m cs chart) ck rk) a ≡ (
          contains (registered m ck rk) a
          || (summary_cluster_key cs == ck && chart_key chart == rk && cs.name == a)))
unfolding set_manager_for_chart get_manager_for_chart
set_manager_for_chart_effect m cs chart ck rk a d =
    let k = summary_cluster_key cs in
    let r = chart_key chart in
    let entry = add_release_entry m k r in
    let gone = remove_cluster_summary_from_chart_registration entry k r cs.name in
    (
      manager-set_manager m cs chart,
      ground (
        arith,
        registered-set_registered gone k r ck rk (cs.name ∷ registered gone k r),
        registered-remove entry k r cs.name ck rk,
        registered-add_release_entry m k r ck rk,
        removed-swap_remove cs.name (registered m ck rk),
        contains-swap_remove cs.name (registered m ck rk) a d,
      ),
    )

-- When the manager of a release unregisters and others are registered, the last element of the list
-- moves to the front and becomes the manager, not the next in line; the others keep their places.
pub unregister-promotes_last :
    (m : Instance) (cs : ClusterSummary) (chart : HelmChart) (y : Text) (ys : List Text)
    → registered m (summary_cluster_key cs) (chart_key chart) ≡ cs.name ∷ y ∷ ys
    → (get_manager_for_chart
          (unregister_cluster_summary_for_chart m cs chart)
          (summary_cluster_key cs)
          (chart_key chart)
        ≡ some (last_of y ys))
      × (registered
            (unregister_cluster_summary_for_chart m cs chart)
            (summary_cluster_key cs)
            (chart_key chart)
          ≡ last_of y ys ∷ but_last y ys)
unfolding unregister_cluster_summary_for_chart get_manager_for_chart
unregister-promotes_last m cs chart y ys h =
    let k = summary_cluster_key cs in
    let r = chart_key chart in
    rw (registered-remove m k r cs.name k r, h)
      (ground (arith, swap_remove_self cs.name y ys), ground (arith, swap_remove_self cs.name y ys))
