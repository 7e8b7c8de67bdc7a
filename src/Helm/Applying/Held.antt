-- ===== src/Helm/Applying/Held.antt =====
-- When the summary of a release holds what the history of its chart says, and how each event keeps it so.
use addon_controller.Common.{
  ◌≡◌, refl, ◌∙◌, Bool, true, false, not, ◌==◌, ◌&&◌, if◌then◌else◌, [], ◌∷◌, Option, some, Text,
  text_eq, text_dec, arith,
}
use addon_controller.Api.{HelmChart, HelmChartSummary}
use addon_controller.Provisioned.{is_empty}
use addon_controller.Helm.{is_for}
use addon_controller.Helm.Tracking.{skips, update_value_hash_on, confirm_applied, ReleaseInfo, mark}
use addon_controller.Helm.Applying.{History, permitted, is_same_release}

-- the hashes of a summary are those of a history
abbrev pub Held : Text → Bool → HelmChartSummary → Type 0
Held [] c s = (s.staged_content_hash ≡ []) × (s.applied_content_hash ≡ [])
Held (x ∷ xs) true s = (s.staged_content_hash ≡ []) × (s.applied_content_hash ≡ x ∷ xs)
Held (x ∷ xs) false s = s.staged_content_hash ≡ x ∷ xs

abbrev pub Describes : History → HelmChartSummary → Type 0
Describes t s = (s.needs_redeploy ≡ t.has_drifted) × Held t.requested t.is_confirmed s

pub skips-Held :
    (requested : Text) (c b : Bool) (s : HelmChartSummary) (hash : Text)
    → s.needs_redeploy ≡ b
    → Held requested c s
    → skips (some s) hash ≡ (not b && c && not (is_empty requested) && requested == hash)
unfolding text_dec
skips-Held [] c b s hash e d = ground (arith, e, d.0, d.1)
skips-Held (x ∷ xs) true b s hash e d = ground (arith, e, d.0, d.1)
skips-Held (x ∷ xs) false b s hash e d = ground (arith, e, d)

pub skips-permitted :
    (t : History) (s : HelmChartSummary) (hash : Text)
    → Describes t s
    → skips (some s) hash ≡ permitted t hash
unfolding permitted
skips-permitted t s hash d = skips-Held t.requested t.is_confirmed t.has_drifted s hash d.0 d.1

-- The two hashes that apply tracking reads.
abbrev pub SameHashes : HelmChartSummary → HelmChartSummary → Type 0
SameHashes s u =
    (s.staged_content_hash ≡ u.staged_content_hash)
    × (s.applied_content_hash ≡ u.applied_content_hash)

pub Held-same :
    (requested : Text) (c : Bool) (s u : HelmChartSummary)
    → SameHashes s u
    → Held requested c u
    → Held requested c s
Held-same [] c s u e h = (e.0 ∙ h.0, e.1 ∙ h.1)
Held-same (x ∷ xs) true s u e h = (e.0 ∙ h.0, e.1 ∙ h.1)
Held-same (x ∷ xs) false s u e h = e.0 ∙ h

pub Held-confirmed :
    (requested : Text) (c : Bool) (s : HelmChartSummary)
    → Held requested c s
    → Held requested true (confirm_applied s)
Held-confirmed [] c s h = ground (arith, h.0, h.1)
Held-confirmed (x ∷ xs) true s h = ground (arith, h.0, h.1)
Held-confirmed (x ∷ xs) false s h = ground (arith, h)

pub needs_redeploy-confirm :
    (s : HelmChartSummary) → (confirm_applied s).needs_redeploy ≡ s.needs_redeploy
needs_redeploy-confirm s = ground arith

pub Describes-confirmed :
    (t : History) (s : HelmChartSummary)
    → Describes t s
    → Describes (record t { is_confirmed = true }) (confirm_applied s)
Describes-confirmed t s d =
    (needs_redeploy-confirm s ∙ d.0, Held-confirmed t.requested t.is_confirmed s d.1)

pub Describes-drifted :
    (b : Bool) (t : History) (s : HelmChartSummary)
    → Describes t s
    → Describes (if b then record t { has_drifted = true } else t) (if b then mark s else s)
Describes-drifted true t s d =
    (refl, Held-same t.requested t.is_confirmed (mark s) s (refl, refl) d.1)
Describes-drifted false t s d = d

-- the summary of the chart that is staged
pub Describes-staged :
    (b skip : Bool) (chart : HelmChart) (hash : Text) (v p : Option Text) (t : History)
    (s : HelmChartSummary)
    → is_for chart s ≡ true
    → is_empty hash ≡ false
    → Describes t s
    → Describes
        (if skip then t else record { requested = hash; is_confirmed = false; has_drifted = false })
        (update_value_hash_on b chart
          (some (record { apply_hash = hash; skip_apply = skip }))
          v
          p
          s)
Describes-staged b skip chart [] v p t s f n d = ground arith
Describes-staged b true chart (x ∷ xs) v p t s f n d =
    let u : HelmChartSummary =
      update_value_hash_on b chart (some (record { apply_hash = x ∷ xs; skip_apply = true })) v p
        s in
    let flag : u.needs_redeploy ≡ s.needs_redeploy = ground (arith, f) in
    let st : u.staged_content_hash ≡ s.staged_content_hash = ground (arith, f) in
    let ap : u.applied_content_hash ≡ s.applied_content_hash = ground (arith, f) in
    (flag ∙ d.0, Held-same t.requested t.is_confirmed u s (st, ap) d.1)
Describes-staged b false chart (x ∷ xs) v p t s f n d = (ground (arith, f), ground (arith, f))

pub is_for-same :
    (chart other : HelmChart) (s : HelmChartSummary)
    → is_for chart s ≡ true
    → is_for other s ≡ is_same_release chart other
unfolding text_dec
is_for-same chart other s f = ground (arith, f)

pub update_value_hash_on-other :
    (b : Bool) (chart : HelmChart) (r : ReleaseInfo) (v p : Option Text) (s : HelmChartSummary)
    → is_for chart s ≡ false
    → update_value_hash_on b chart (some r) v p s ≡ s
update_value_hash_on-other b chart r v p s f = rw f refl
