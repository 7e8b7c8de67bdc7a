-- ===== src/Features/Lookup.antt =====
-- What the search for the summary of a feature finds after each setter.
use addon_controller.Common.{
  ℕ, ◌≡◌, refl, ◌==◌, Bool, false, if◌then◌else◌, List, [], ◌∷◌, Option, some, Text, arith, ◌∙◌, ap,
  ==_refl,
}
use addon_controller.Api.{SyncMode, FeatureId, feature_eq, FeatureStatus, FeatureSummary}
use addon_controller.Provisioned.{get_feature_summary_for_feature_id}
use addon_controller.Features.{
  blank, change, change_or_append, with_status, new_status, set_feature_status,
  reset_consecutive_failures, set_failure_message, set_last_applied_time, get, or_new, mapped,
}

-- A change that keeps the identifier shows at that feature only.
pub get-change_or_append :
    (id : FeatureId) (f : FeatureSummary → FeatureSummary) (new : FeatureSummary)
    (l : List FeatureSummary) (id' : FeatureId)
    → ((fs : FeatureSummary) → (f fs).feature_id ≡ fs.feature_id)
    → new.feature_id ≡ id
    → get (change_or_append id f new l) id'
      ≡ (if id == id' then some (or_new f new (get l id)) else get l id')
unfolding change_or_append get_feature_summary_for_feature_id
get-change_or_append id f new [] id' h k = ground (arith, k)
get-change_or_append id f new (fs ∷ l) id' h k =
    ground (arith, h fs, get-change_or_append id f new l id' h k)

pub get-change :
    (id : FeatureId) (f : FeatureSummary → FeatureSummary) (l : List FeatureSummary)
    (id' : FeatureId)
    → ((fs : FeatureSummary) → (f fs).feature_id ≡ fs.feature_id)
    → get (change id f l) id' ≡ (if id == id' then mapped f (get l id) else get l id')
unfolding change get_feature_summary_for_feature_id
get-change id f [] id' h = ground arith
get-change id f (fs ∷ l) id' h = ground (arith, h fs, get-change id f l id' h)

pub get-change_or_append_other :
    (id : FeatureId) (f : FeatureSummary → FeatureSummary) (new : FeatureSummary)
    (l : List FeatureSummary) (id' : FeatureId)
    → ((fs : FeatureSummary) → (f fs).feature_id ≡ fs.feature_id)
    → new.feature_id ≡ id
    → (id == id') ≡ false
    → get (change_or_append id f new l) id' ≡ get l id'
get-change_or_append_other id f new l id' h k e =
    get-change_or_append id f new l id' h k
    ∙ ap (λ b. if b then some (or_new f new (get l id)) else get l id') e

pub get-change_or_append_self :
    (id : FeatureId) (f : FeatureSummary → FeatureSummary) (new : FeatureSummary)
    (l : List FeatureSummary)
    → ((fs : FeatureSummary) → (f fs).feature_id ≡ fs.feature_id)
    → new.feature_id ≡ id
    → get (change_or_append id f new l) id ≡ some (or_new f new (get l id))
get-change_or_append_self id f new l h k =
    get-change_or_append id f new l id h k
    ∙ ap (λ b. if b then some (or_new f new (get l id)) else get l id) (==_refl id)

module _ (id : FeatureId) (l : List FeatureSummary) where
  pub get-set_feature_status :
      (mode : SyncMode) (status : FeatureStatus) (hash : Text) (failed : Option Bool)
      → get (set_feature_status mode id status hash failed l) id
        ≡ some (
            or_new
              (with_status mode status hash failed)
              (new_status id status hash failed)
              (get l id))
  get-set_feature_status mode status hash failed =
      get-change_or_append_self id (with_status mode status hash failed)
        (new_status id status hash failed) l (λ fs. refl) refl

  pub get-set_failure_message :
      (message : Option Text)
      → get (set_failure_message id message l) id
        ≡ some (
            or_new
              (λ fs. record fs { failure_message = message })
              (record (blank id) { failure_message = message })
              (get l id))
  get-set_failure_message message =
      get-change_or_append_self id (λ fs. record fs { failure_message = message })
        (record (blank id) { failure_message = message }) l (λ fs. refl) refl

  pub get-set_last_applied_time :
      (time : Option ℕ)
      → get (set_last_applied_time id time l) id
        ≡ some (
            or_new
              (λ fs. record fs { last_applied_time = time })
              (record (blank id) { last_applied_time = time })
              (get l id))
  get-set_last_applied_time time =
      get-change_or_append_self id (λ fs. record fs { last_applied_time = time })
        (record (blank id) { last_applied_time = time }) l (λ fs. refl) refl

-- The setters at another feature.
module _ (id : FeatureId) (l : List FeatureSummary) (id' : FeatureId)
    (e : (id == id') ≡ false) where
  pub other-set_feature_status :
      (mode : SyncMode) (status : FeatureStatus) (hash : Text) (failed : Option Bool)
      → get (set_feature_status mode id status hash failed l) id' ≡ get l id'
  other-set_feature_status mode status hash failed =
      get-change_or_append_other id (with_status mode status hash failed)
        (new_status id status hash failed) l id' (λ fs. refl) refl e

  pub other-set_failure_message :
      (message : Option Text) → get (set_failure_message id message l) id' ≡ get l id'
  other-set_failure_message message =
      get-change_or_append_other id (λ fs. record fs { failure_message = message })
        (record (blank id) { failure_message = message }) l id' (λ fs. refl) refl e

  pub other-set_last_applied_time :
      (time : Option ℕ) → get (set_last_applied_time id time l) id' ≡ get l id'
  other-set_last_applied_time time =
      get-change_or_append_other id (λ fs. record fs { last_applied_time = time })
        (record (blank id) { last_applied_time = time }) l id' (λ fs. refl) refl e

  pub other-reset_consecutive_failures : get (reset_consecutive_failures id l) id' ≡ get l id'
  other-reset_consecutive_failures =
      get-change id (λ fs. record fs { consecutive_failures = 0 }) l id' (λ fs. refl)
      ∙ ap
          (λ b.
            if b
            then mapped (λ fs. record fs { consecutive_failures = 0 }) (get l id)
            else get l id')
          e
