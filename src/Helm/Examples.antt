-- ===== src/Helm/Examples.antt =====
-- A release that is staged, confirmed and uninstalled, and two ClusterSummaries that claim it.
use addon_controller.Common.{
  ℕ, ◌≡◌, refl, sym, true, false, List, [], ◌∷◌, Option, none, some, Text, text, text_dec, text_eq,
  lookup, ◌≤◌, arith, is_some, ap,
}
use addon_controller.Api.{managing, dry_run, ClusterSummary}
use addon_controller.ChartManager.{
  Instance, registered, set_registered, get_manager_for_chart, chart_key, summary_cluster_key,
  set_manager_for_chart, can_manage_chart,
}
use addon_controller.ChartManager.Keys.{cluster_key, release_key}
use addon_controller.ChartManager.Manager
use addon_controller.RollingUpdate.{found}
use addon_controller.Helm.{get_helm_chart_summary}
use addon_controller.Helm.Tracking.{should_skip_apply, update_value_hash_on_helm_chart_summary}
use addon_controller.Helm.Applying.{Event, staged, confirmed, run, nothing, permitted, follow_all}
use addon_controller.Helm.Applying.Refinement
use addon_controller.Helm.Applying.Forgetting
use addon_controller.Helm.Applying.Forgetting.{uninstalling}
use addon_controller.Helm.Decisions.{
  Semver, equal, Release, deployed, Desired, choose, same_version,
}
use addon_controller.Helm.Settled
use addon_controller.Helm.Settled.{is_installed, is_uninstall, untracked}
use addon_controller.Helm.Ownership.{State, determine_chart_ownership}
use addon_controller.Helm.Ownership.Election
use addon_controller.Helm.Ownership.Election.{Quiet, Known, Claims, AllClaim, Lowest, claim_all}
use addon_controller.Helm.Ownership.Takeover
use addon_controller.Helm.Ownership.Takeover.{Settles}
use addon_controller.Helm.Uninstalling.{
  ListedProfile, Owned, Listing, all_matching_profiles_processed, can_uninstall_helm_chart,
}
use addon_controller.Helm.Waiting
use addon_controller.Helm.Waiting.Profiles
use addon_controller.Helm.Waiting.Profiles.{is_wait_over}
use addon_controller.Helm.Waiting.{is_yes, is_granted, Alone}
use addon_controller.Examples.Fixtures.{
  answers, kyverno, nginx, spec_of, summary_of, kyverno_is, summary_b,
}

abbrev nobody : Instance
nobody = record { charts = []; versions = [] }

abbrev applied_once : List Event
applied_once = staged kyverno true (text "h1") none none ∷ confirmed ∷ []

has_kyverno : get_helm_chart_summary kyverno summary_b ≡ some (kyverno_is managing)
unfolding text_dec
has_kyverno = refl

should_skip_apply-permitted-run_example :
    should_skip_apply (run nobody applied_once summary_b) kyverno (text "h1")
    ≡ permitted
        (follow_all summary_b.helm_release_summaries kyverno applied_once nothing)
        (text "h1")
should_skip_apply-permitted-run_example =
    Refinement.should_skip_apply-permitted-run nobody applied_once summary_b kyverno
      (kyverno_is managing) (text "h1") has_kyverno refl refl refl refl refl refl

-- a release whose content `h1` is confirmed
abbrev summary_applied : ClusterSummary
summary_applied =
    summary_of (text "b") (kyverno ∷ [])
      (record (kyverno_is managing) { applied_content_hash = text "h1" } ∷ [])

is_skipped : should_skip_apply summary_applied kyverno (text "h1") ≡ true
unfolding should_skip_apply text_dec
is_skipped = refl

should_skip_apply-uninstalling_example :
    should_skip_apply
      (run nobody
        (staged (uninstalling kyverno) true (text "h2") none none ∷ confirmed ∷ [])
        summary_applied)
      kyverno
      (text "h1")
    ≡ true
should_skip_apply-uninstalling_example =
    Forgetting.should_skip_apply-uninstalling nobody summary_applied kyverno true (text "h1")
      (text "h2") none none is_skipped

-- versions that are compared as texts: any two are equal
abbrev versions : Semver
versions = record { Version = Text; new_version = some; compare = λ a b. equal }

abbrev desired : Desired
desired = record {
  values_hash = some (text "v1");
  patches_hash = some [];
  values_are_subset = false;
}

abbrev release_3 : Release
release_3 = record { status = deployed; chart_version = text "v3" }

-- the ClusterSummary in a dry run
abbrev summary_dry : ClusterSummary
summary_dry = record summary_b { spec = record (spec_of (kyverno ∷ [])) { sync_mode = dry_run } }

choose-update_value_hash_example :
    choose versions
      (some release_3)
      kyverno
      (record (update_value_hash_on_helm_chart_summary nobody kyverno
        (some untracked)
        (some (text "v1"))
        (some [])
        summary_dry) { spec = spec_of (kyverno ∷ []) })
      desired
    ≡ same_version
choose-update_value_hash_example =
    Settled.choose-update_value_hash nobody versions release_3 kyverno summary_dry
      (spec_of (kyverno ∷ [])) desired (kyverno_is managing) (text "v1") [] has_kyverno refl refl
      refl refl refl

-- `b`, of tier 100, manages the chart; `low` has tier 50
abbrev low : ClusterSummary
low = record (summary_of (text "low") (kyverno ∷ []) []) {
  spec = record (spec_of (kyverno ∷ [])) { tier = 50 };
}

abbrev owned : State
owned = record {
  charts = set_manager_for_chart nobody summary_b kyverno;
  stored = (text "b", summary_b) ∷ (text "low", low) ∷ [];
}

determine_chart_ownership-Settles_example :
    Settles (determine_chart_ownership answers low kyverno owned) low kyverno owned
determine_chart_ownership-Settles_example =
    Takeover.determine_chart_ownership-Settles answers low kyverno owned

abbrev tier_in : Option ClusterSummary → ℕ
tier_in none = 0
tier_in (some s) = s.spec.tier

abbrev tiers : Text → ℕ
tiers n = tier_in (lookup n owned.stored)

quiet : Quiet answers
quiet = record {
  idle = λ n. refl;
  reads = λ n. refl;
  writes = λ n. refl;
  lower_first = λ a b. refl;
}

Known-owned : Known tiers owned
unfolding text_dec
Known-owned n s e = (ground (arith, e), ap tier_in (sym e))

low-Claims : Claims tiers (summary_cluster_key low) low
unfolding text_dec
low-Claims = record { tier = refl; deploys = refl; replaces_none = refl; cluster = refl }

low_is_stored : is_some (lookup (text "low") owned.stored) ≡ true
unfolding text_dec
low_is_stored = refl

b_is_stored : is_some (lookup (text "b") owned.stored) ≡ true
unfolding text_dec
b_is_stored = refl

claim_all-elects_example :
    (y : Text) × (get_manager_for_chart
        (claim_all answers kyverno (low ∷ []) owned).charts
        (summary_cluster_key low)
        (chart_key kyverno)
      ≡ some y)
    × (tiers y ≤ tiers (text "b"))
    × Lowest tiers (tiers y) (low ∷ [])
claim_all-elects_example =
    Election.claim_all-elects answers tiers (summary_cluster_key low) kyverno (low ∷ []) owned
      (text "b") quiet Known-owned (low-Claims, low_is_stored, tt)
      (Manager.manager-set_manager nobody summary_b kyverno) b_is_stored

-- a profile in a dry run, whose ClusterSummary has registered nothing
abbrev trial : ListedProfile
trial = record {
  name = text "trial";
  sync_mode = dry_run;
  helm_charts = nginx ∷ [];
  cluster_refs = [];
  deletion_timestamp = none;
  creation_timestamp = 1;
  selects = true;
}

abbrev trial_summary : Owned
trial_summary = record { summary = summary_dry; has_paused = false }

abbrev listing : Listing
listing = record {
  cluster = found false;
  cluster_profiles = some [];
  profiles = some (trial ∷ []);
  owned_by = λ kind name. some (trial_summary ∷ []);
  cluster_profile_label = text "base";
  profile_label = [];
}

all_matching_profiles_processed_lem_example :
    is_yes (all_matching_profiles_processed listing nobody summary_b)
    ≡ is_wait_over listing nobody summary_b (found false)
all_matching_profiles_processed_lem_example =
    Profiles.all_matching_profiles_processed_lem listing nobody summary_b

-- no profile but the owner's
abbrev quiet_listing : Listing
quiet_listing = record listing { profiles = some [] }

granted :
    is_granted (can_uninstall_helm_chart answers quiet_listing summary_b kyverno owned).0 ≡ true
unfolding can_uninstall_helm_chart determine_chart_ownership text_dec set_manager_for_chart
    can_manage_chart registered set_registered cluster_key release_key
granted = refl

can_uninstall_helm_chart-Alone_example :
    Alone quiet_listing summary_b kyverno
      (can_uninstall_helm_chart answers quiet_listing summary_b kyverno owned).1
can_uninstall_helm_chart-Alone_example =
    Waiting.can_uninstall_helm_chart-Alone answers quiet_listing summary_b kyverno owned granted
