-- ===== src/Transition/Waiting.antt =====
-- When the teardown of a replaced profile may go on.
use addon_controller.Common.{
  ◌≡◌, refl, ◌&&◌, ◌||◌, not, Bool, true, false, List, [], ◌∷◌, some, Text, text_eq, all, arith,
  contains, ◌∙◌,
}
use addon_controller.Api.{ClusterSummary}
use addon_controller.Provisioned.{is_cluster_summary_provisioned}
use addon_controller.RollingUpdate.{Lookup, found, not_found, failed}
use addon_controller.Transition.{
  ProfileKind, profile, cluster_profile, Profile, TransitionSuccessor, World, successors_among,
  get_transition_successors, is_open, check_successors, are_successors_provisioned,
  check_on_cluster,
}

-- the successor has a ClusterSummary for the cluster that is provisioned
abbrev pub has_taken_over : Lookup ClusterSummary → Bool
has_taken_over not_found = false
has_taken_over failed = false
has_taken_over (found cs) = is_cluster_summary_provisioned cs

-- a successor that matches the cluster has taken over
abbrev pub ready : World → TransitionSuccessor → Bool
ready w s = not (w.matches s) || has_taken_over (w.summary s)

-- every profile of a list is ready that names the predecessor
abbrev pub all_ready : World → ProfileKind → Text → List Profile → Bool
all_ready w kind predecessor [] = true
all_ready w kind predecessor (p ∷ rest) =
    (not (contains p.transition_from predecessor)
      || ready w (record { kind = kind; name = p.name }))
    && all_ready w kind predecessor rest

check_successors-ready :
    (w : World) (l : List TransitionSuccessor) → is_open (check_successors w l) ≡ all (ready w) l
unfolding check_successors
check_successors-ready w [] = refl
check_successors-ready w (s ∷ rest) = ground (arith, check_successors-ready w rest)

successors_among-ready :
    (w : World) (kind : ProfileKind) (predecessor : Text) (l : List Profile)
    → all (ready w) (successors_among kind predecessor l) ≡ all_ready w kind predecessor l
unfolding successors_among
successors_among-ready w kind predecessor [] = refl
successors_among-ready w kind predecessor (p ∷ rest) =
    ground (arith, successors_among-ready w kind predecessor rest)

check_on_cluster-ready :
    (w : World) (l : List TransitionSuccessor)
    → w.cluster ≡ found tt
    → is_open (check_on_cluster w l) ≡ all (ready w) l
check_on_cluster-ready w [] h = refl
check_on_cluster-ready w (s ∷ rest) h = ground (arith, check_successors-ready w (s ∷ rest))

-- While the cluster is there, the teardown of a ClusterSummary of a ClusterProfile goes on just where
-- each listed ClusterProfile that names the owner in TransitionFrom and matches the cluster has a
-- provisioned ClusterSummary there.
pub are_successors_provisioned-cluster_profile :
    (w : World) (cs : ClusterSummary) (name : Text) (l : List Profile)
    → w.owner cs ≡ some (record { kind = cluster_profile; name = name })
    → w.cluster_profiles ≡ some l
    → w.cluster ≡ found tt
    → is_open (are_successors_provisioned w cs) ≡ all_ready w cluster_profile name l
unfolding are_successors_provisioned get_transition_successors
are_successors_provisioned-cluster_profile w cs name l h k c =
    rw (h, are_successors_provisioned, k, get_transition_successors)
      (check_on_cluster-ready w (successors_among cluster_profile name l) c
        ∙ successors_among-ready w cluster_profile name l)

-- While the cluster is there, the teardown of a ClusterSummary of a Profile goes on just where each
-- Profile of its namespace that names the owner in TransitionFrom and matches the cluster has a
-- provisioned ClusterSummary there.
pub are_successors_provisioned-profile :
    (w : World) (cs : ClusterSummary) (name : Text) (l : List Profile)
    → w.owner cs ≡ some (record { kind = profile; name = name })
    → w.profiles cs.namespace ≡ some l
    → w.cluster ≡ found tt
    → is_open (are_successors_provisioned w cs) ≡ all_ready w profile name l
unfolding are_successors_provisioned get_transition_successors
are_successors_provisioned-profile w cs name l h k c =
    rw (h, are_successors_provisioned, k, get_transition_successors)
      (check_on_cluster-ready w (successors_among profile name l) c
        ∙ successors_among-ready w profile name l)
