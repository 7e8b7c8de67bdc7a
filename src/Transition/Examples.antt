-- ===== src/Transition/Examples.antt =====
-- A ClusterProfile `v1` that `v2` replaces.
use addon_controller.Common.{◌≡◌, refl, true, List, [], ◌∷◌, some, text}
use addon_controller.RollingUpdate.{found}
use addon_controller.Transition.{
  ProfileKind, cluster_profile, Profile, World, is_open, are_successors_provisioned,
}
use addon_controller.Transition.Waiting
use addon_controller.Transition.Waiting.{all_ready}
use addon_controller.Examples.Fixtures.{summary_a, summary_b}

abbrev replacements : List Profile
replacements =
    record { name = text "v2"; transition_from = text "v1" ∷ [] }
    ∷ record { name = text "other"; transition_from = [] }
    ∷ []

abbrev world : ProfileKind → World
world kind = record {
  profiles = λ namespace. some replacements;
  cluster_profiles = some replacements;
  owner = λ cs. some (record { kind = kind; name = text "v1" });
  cluster = found tt;
  matches = λ s. true;
  summary = λ s. found summary_b;
}

are_successors_provisioned-cluster_profile_example :
    is_open (are_successors_provisioned (world cluster_profile) summary_a)
    ≡ all_ready (world cluster_profile) cluster_profile (text "v1") replacements
are_successors_provisioned-cluster_profile_example =
    Waiting.are_successors_provisioned-cluster_profile (world cluster_profile) summary_a (text "v1")
      replacements refl refl refl
