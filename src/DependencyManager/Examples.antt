-- ===== src/DependencyManager/Examples.antt =====
-- The dependency manager with sets kept as lists: `app` needs `base` on some clusters.
use addon_controller.Common.{
  ◌≡◌, refl, ◌==◌, ◌&&◌, true, false, if◌then◌else◌, List, [], ◌∷◌, none, Text, ◌↔◌, contains, ℕ,
  text_dec, ℕ_discrete,
}
use addon_controller.Api.{ObjectReference, ref_eq, ref_dec}
use addon_controller.RefSet.{list_set}
use addon_controller.DependencyManager.{
  update_enabled, get_cluster_deployments, ClusterDeployments, schedule_all,
  schedule_profile_deployment_to_clusters, register_profile_cluster_dependency,
  clean_stale_dependencies, remove_dependents, remove_dependent,
}
use addon_controller.DependencyManager.Registering.{asks}
use addon_controller.DependencyManager.Updating.{Inv}
use addon_controller.DependencyManager.Refinement
use addon_controller.DependencyManager.History
use addon_controller.DependencyManager.History.{Update, run, new, latest, wants}
use addon_controller.DependencyManager.Marks
use addon_controller.DependencyManager.Marks.{is_marked, deploys}
use addon_controller.DependencyManager.Hash
use addon_controller.DependencyManager.Hash.{calculate_hash}
use addon_controller.Examples.Fixtures.{cluster_1, cluster_2, base_profile, app_profile}

-- `app` moves from one cluster to another
abbrev moves : List Update
moves =
    record { dependent = app_profile; clusters = cluster_1 ∷ []; prerequisites = base_profile ∷ [] }
    ∷ record {
      dependent = app_profile;
      clusters = cluster_2 ∷ [];
      prerequisites = base_profile ∷ [];
    }
    ∷ []

get_cluster_deployments-run-new_example :
    (contains
        (get_cluster_deployments list_set (run list_set (new list_set) moves) base_profile)
        cluster_2
      ≡ true)
    ↔ ((d : ObjectReference) × (wants (latest none moves d) base_profile cluster_2 ≡ true))
get_cluster_deployments-run-new_example =
    History.get_cluster_deployments-run-new list_set moves base_profile cluster_2

new-Inv : Inv list_set (new list_set)
new-Inv = record { unique = λ p. tt; covered = λ p c d h. cc }

asks-update_example :
    asks
      (update_enabled list_set
        (new list_set)
        app_profile
        (cluster_1 ∷ [])
        (base_profile ∷ [])).requests
      base_profile
      cluster_1
      app_profile
    ≡ (if app_profile == app_profile
        then contains (base_profile ∷ []) base_profile && contains (cluster_1 ∷ []) cluster_1
        else asks (new list_set).requests base_profile cluster_1 app_profile)
asks-update_example =
    Refinement.asks-update list_set (new list_set) app_profile (cluster_1 ∷ []) (base_profile ∷ [])
      base_profile cluster_1 app_profile new-Inv

unmarked :
    is_marked list_set
      (update_enabled list_set (new list_set) app_profile (cluster_1 ∷ []) (base_profile ∷ []))
      app_profile
    ≡ false
unfolding update_enabled schedule_all schedule_profile_deployment_to_clusters
    register_profile_cluster_dependency clean_stale_dependencies remove_dependents remove_dependent
    ref_dec text_dec ℕ_discrete
unmarked = refl

update-unmarked_example :
    (is_marked list_set (new list_set) app_profile ≡ false)
    × (deploys list_set
          (update_enabled list_set (new list_set) app_profile (cluster_1 ∷ []) (base_profile ∷ []))
          app_profile
          cluster_1
        ≡ deploys list_set (new list_set) app_profile cluster_1)
update-unmarked_example =
    Marks.update-unmarked list_set (new list_set) app_profile (cluster_1 ∷ []) (base_profile ∷ [])
      app_profile cluster_1 unmarked

-- a hash that keeps what it is given
abbrev render : ℕ → Text
render i = i ∷ []

abbrev plain_hash : Text → Text
plain_hash s = s

abbrev on_first : ClusterDeployments
on_first = (cluster_1, []) ∷ []

abbrev on_second : ClusterDeployments
on_second = (cluster_2, []) ∷ []

calculate_hash-length_example :
    calculate_hash render plain_hash on_first ≡ calculate_hash render plain_hash on_second
calculate_hash-length_example = Hash.calculate_hash-length render plain_hash on_first on_second refl
