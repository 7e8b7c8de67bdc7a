-- ===== src/Provisioned.antt =====
-- controllers/utils.go: isCluterSummaryProvisioned and getFeatureSummaryForFeatureID.
use addon_controller.Common.{
  ◌≡◌, refl, ◌==◌, ◌&&◌, ◌||◌, not, Bool, true, false, if◌then◌else◌, List, [], ◌∷◌, Option, all,
  find, arith, Bool-cases, inl, inr, ◌∙◌, ap,
}
use addon_controller.Api.{
  FeatureId, resources, helm, kustomize, feature_eq, provisioned, status_eq, FeatureSummary,
  ClusterSummary,
}

unfoldable pub get_feature_summary_for_feature_id :
    List FeatureSummary → FeatureId → Option FeatureSummary
get_feature_summary_for_feature_id summaries id = find (λ fs. fs.feature_id == id) summaries

abbrev pub is_empty {ℓ} : {A : Type ℓ} → List A → Bool
is_empty [] = true
is_empty (x ∷ xs) = false

-- the tests behind the loop over the feature summaries, on the three flags of what is deployed
pub check_flags : Bool → Bool → Bool → ClusterSummary → Bool
check_flags charts yamls kustomizations cs =
    if not (is_empty cs.spec.helm_charts) && not charts
    then false
    else if not (is_empty cs.spec.policy_refs) && not yamls
    then false
    else if not (is_empty cs.spec.kustomization_refs) && not kustomizations
    then false
    else true

-- the loop, which returns at the first summary that is not provisioned
pub check_summaries : Bool → Bool → Bool → ClusterSummary → List FeatureSummary → Bool
check_summaries charts yamls kustomizations cs [] = check_flags charts yamls kustomizations cs
check_summaries charts yamls kustomizations cs (fs ∷ rest) =
    let more =
      check_summaries (charts || fs.feature_id == helm) (yamls || fs.feature_id == resources)
        (kustomizations || fs.feature_id == kustomize) cs rest in
    if not (fs.status == provisioned) then false else more

unfoldable pub is_cluster_summary_provisioned : ClusterSummary → Bool
unfolding check_summaries check_flags
is_cluster_summary_provisioned cs = check_summaries false false false cs cs.feature_summaries

-- some summary is that of the feature
abbrev pub mentions : List FeatureSummary → FeatureId → Bool
mentions [] id = false
mentions (fs ∷ rest) id = fs.feature_id == id || mentions rest id

-- every summary is provisioned
abbrev pub all_provisioned : List FeatureSummary → Bool
all_provisioned = all (λ fs. fs.status == provisioned)

or_assoc : (a b c : Bool) → ((a || b) || c) ≡ (a || (b || c))
or_assoc true b c = refl
or_assoc false b c = refl

or_false : (a : Bool) → (a || false) ≡ a
or_false true = refl
or_false false = refl

check_flags_lem :
    (charts yamls kustomizations : Bool) (cs : ClusterSummary)
    → check_flags charts yamls kustomizations cs ≡ (
        (is_empty cs.spec.helm_charts || charts)
        && (is_empty cs.spec.policy_refs || yamls)
        && (is_empty cs.spec.kustomization_refs || kustomizations))
unfolding check_flags
check_flags_lem charts yamls kustomizations cs = ground arith

check_summaries_lem :
    (charts yamls kustomizations : Bool) (cs : ClusterSummary) (l : List FeatureSummary)
    → check_summaries charts yamls kustomizations cs l ≡ (
        all_provisioned l
        && check_flags
            (charts || mentions l helm)
            (yamls || mentions l resources)
            (kustomizations || mentions l kustomize)
            cs)
unfolding check_summaries
check_summaries_lem charts yamls kustomizations cs [] =
    rw (or_false charts, or_false yamls, or_false kustomizations) refl
check_summaries_lem charts yamls kustomizations cs (fs ∷ rest) =
    elim (Bool-cases (fs.status == provisioned)) [
      | inl up ↦
          rw
            (
              up,
              check_summaries_lem (charts || fs.feature_id == helm)
                  (yamls || fs.feature_id == resources)
                  (kustomizations || fs.feature_id == kustomize) cs rest,
              or_assoc charts (fs.feature_id == helm) (mentions rest helm),
              or_assoc yamls (fs.feature_id == resources) (mentions rest resources),
              or_assoc kustomizations (fs.feature_id == kustomize) (mentions rest kustomize),
            )
            refl
      | inr down ↦ rw down
    ]

-- A ClusterSummary is provisioned just where every feature summary that it has is, and each kind of
-- content that its spec lists (charts, policies, kustomizations) has a feature summary.
pub is_cluster_summary_provisioned_lem :
    (cs : ClusterSummary)
    → is_cluster_summary_provisioned cs ≡ (
        all_provisioned cs.feature_summaries
        && ((is_empty cs.spec.helm_charts || mentions cs.feature_summaries helm)
            && (is_empty cs.spec.policy_refs || mentions cs.feature_summaries resources)
            && (is_empty cs.spec.kustomization_refs || mentions cs.feature_summaries kustomize)))
unfolding is_cluster_summary_provisioned
is_cluster_summary_provisioned_lem cs =
    check_summaries_lem false false false cs cs.feature_summaries
    ∙ ap (λ b. all_provisioned cs.feature_summaries && b)
        (check_flags_lem (mentions cs.feature_summaries helm)
          (mentions cs.feature_summaries resources) (mentions cs.feature_summaries kustomize) cs)
