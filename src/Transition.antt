-- ===== src/Transition.antt =====
-- controllers/clustersummary_transition.go: a profile that replaces another one (TransitionFrom) and the
-- teardown of the replaced one, which waits for it. What the API server answers, and whether the
-- selector of a profile matches the cluster, are parameters.
pub mod Waiting
mod Examples
use addon_controller.Common.{
  ◌==◌, Bool, true, false, not, if◌then◌else◌, List, [], ◌∷◌, Option, none, some, Text, text_eq, Eq,
  contains,
}
use addon_controller.Api.{ClusterSummary}
use addon_controller.Provisioned.{is_empty, is_cluster_summary_provisioned}
use addon_controller.RollingUpdate.{Lookup, found, not_found, failed}

pub data ProfileKind : Type 0 where
  cluster_profile profile : ProfileKind

pub kind_dec : Discrete ProfileKind
kind_dec = hlevel

instance abbrev pub kind_eq : Eq ProfileKind
kind_eq = record { dec = kind_dec }

-- an owner reference to a profile
pub record Owner : Type 0 where
  pub kind : ProfileKind
  pub name : Text

-- a profile of a list, with its TransitionFrom
pub record Profile : Type 0 where
  pub name : Text
  pub transition_from : List Text

-- transitionSuccessor, without the selector
pub record TransitionSuccessor : Type 0 where
  pub kind : ProfileKind
  pub name : Text

-- `profiles` lists the Profiles of a namespace
pub record World : Type 0 where
  pub profiles : Text → Option (List Profile)
  pub cluster_profiles : Option (List Profile)
  pub owner : ClusterSummary → Option Owner
  pub cluster : Lookup (Unit {0})
  pub matches : TransitionSuccessor → Bool
  pub summary : TransitionSuccessor → Lookup ClusterSummary

-- containsName
abbrev pub contains_name : List Text → Text → Bool
contains_name = contains

-- the loop over the listed profiles of one kind
pub successors_among : ProfileKind → Text → List Profile → List TransitionSuccessor
successors_among kind predecessor [] = []
successors_among kind predecessor (p ∷ rest) =
    let later = successors_among kind predecessor rest in
    if contains_name p.transition_from predecessor
    then record { kind = kind; name = p.name } ∷ later
    else later

abbrev among_listed : ProfileKind → Text → Option (List Profile) → Option (List TransitionSuccessor)
among_listed kind predecessor none = none
among_listed kind predecessor (some l) = some (successors_among kind predecessor l)

-- getTransitionSuccessors
pub get_transition_successors :
    World → ProfileKind → Text → Text → Option (List TransitionSuccessor)
unfolding successors_among
get_transition_successors w profile name namespace =
    among_listed profile name (w.profiles namespace)
get_transition_successors w cluster_profile name namespace =
    among_listed cluster_profile name w.cluster_profiles

-- isChartTransitioningFrom, on the owners of the two ClusterSummaries
unfoldable pub is_chart_transitioning_from : World → ClusterSummary → ClusterSummary → Bool
is_chart_transitioning_from w current claiming =
    let transition_from = claiming.spec.transition_from in
    if is_empty transition_from then false else elim (w.owner current) [
      | none ↦ false
      | some current_owner ↦ elim (w.owner claiming) [
        | none ↦ false
        | some claiming_owner ↦
            if not (current_owner.kind == claiming_owner.kind)
            then false
            else contains_name transition_from current_owner.name
      ]
    ]

-- what areSuccessorsProvisioned returns: its message, or an error
pub data Gate : Type 0 where
  no_transitions cluster_not_found all_successors_provisioned gate_error : Gate
  not_deployed_yet not_fully_deployed_yet : TransitionSuccessor → Gate

-- the Boolean that it returns with the message
abbrev pub is_open : Gate → Bool
is_open no_transitions = true
is_open cluster_not_found = true
is_open all_successors_provisioned = true
is_open gate_error = false
is_open (not_deployed_yet s) = false
is_open (not_fully_deployed_yet s) = false

-- the loop, which returns at the first successor that is not ready
pub check_successors : World → List TransitionSuccessor → Gate
check_successors w [] = all_successors_provisioned
check_successors w (s ∷ rest) =
    let later = check_successors w rest in
    if not (w.matches s) then later else elim (w.summary s) [
      | not_found ↦ not_deployed_yet s
      | failed ↦ gate_error
      | found cs ↦
          if not (is_cluster_summary_provisioned cs) then not_fully_deployed_yet s else later
    ]

abbrev pub check_on_cluster : World → List TransitionSuccessor → Gate
check_on_cluster w [] = no_transitions
check_on_cluster w (s ∷ rest) = elim w.cluster [
  | not_found ↦ cluster_not_found
  | failed ↦ gate_error
  | found _ ↦ check_successors w (s ∷ rest)
]

abbrev pub check_listed : World → Option (List TransitionSuccessor) → Gate
check_listed w none = gate_error
check_listed w (some successors) = check_on_cluster w successors

-- areSuccessorsProvisioned
unfoldable pub are_successors_provisioned : World → ClusterSummary → Gate
unfolding get_transition_successors check_successors
are_successors_provisioned w cs = elim (w.owner cs) [
  | none ↦ gate_error
  | some o ↦ check_listed w (get_transition_successors w o.kind o.name cs.namespace)
]
