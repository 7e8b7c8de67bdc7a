-- ===== src/ChartManager/Keys.antt =====
-- The keys of chartmanager.go: texts joined by '/', and the parsing of a release key.
use mathlib.Core.List.{tail-eq_of_cons-eq}
use addon_controller.Common.{
  ℕ, ◌≡◌, refl, false, Text, text, List, [], ◌∷◌, ◌++◌, Option, none, some, arith, ite, same,
  contains, nat_eq,
}
use addon_controller.Api.{ClusterType, capi, sveltos}

pub record HelmReleaseInfo : Type 0 where
  pub namespace : Text
  pub name : Text

-- keySeparator
abbrev pub separator : ℕ
separator = b'/'

abbrev pub prefix_of : ClusterType → Text
prefix_of capi = text "capi"
prefix_of sveltos = text "sveltos"

unfoldable pub cluster_key : Text → Text → ClusterType → Text
cluster_key namespace name kind = prefix_of kind ++ (separator ∷ (namespace ++ (separator ∷ name)))

unfoldable pub release_key : Text → Text → Text
release_key namespace name = namespace ++ (separator ∷ name)

abbrev pub cluster_summary_key : Text → Text
cluster_summary_key name = name

abbrev push_char : ℕ → List Text → List Text
push_char c [] = (c ∷ []) ∷ []
push_char c (s ∷ rest) = (c ∷ s) ∷ rest

-- strings.Split by a separator of one byte
pub split : ℕ → Text → List Text
split sep [] = [] ∷ []
split sep (c ∷ s) = let rest = split sep s in ite (same c sep) ([] ∷ rest) (push_char c rest)

abbrev info_of : List Text → Option HelmReleaseInfo
info_of (namespace ∷ name ∷ rest) = some (record { namespace = namespace; name = name })
info_of (namespace ∷ []) = none
info_of [] = none

-- getReleaseInfoFromKey; `none` stands for the panic of an index out of range
pub release_info_from_key : Text → Option HelmReleaseInfo
unfolding split
release_info_from_key key = info_of (split separator key)

-- no byte of the text is the separator, as in a Kubernetes name
abbrev pub Plain : Text → Type 0
Plain s = contains s separator ≡ false

split-Plain : (s : Text) → Plain s → split separator s ≡ s ∷ []
unfolding split
split-Plain [] h = refl
split-Plain (c ∷ s) h = ground (arith, split-Plain s)

split_joined :
    (s t : Text) → Plain s → split separator (s ++ (separator ∷ t)) ≡ s ∷ split separator t
unfolding split
split_joined [] t h = ground arith
split_joined (c ∷ s) t h = ground (arith, split_joined s t)

-- A release key whose namespace and name have no '/' parses back to both.
pub release_info_from_key-release_key :
    (namespace name : Text)
    → Plain namespace
    → Plain name
    → release_info_from_key (release_key namespace name)
      ≡ some (record { namespace = namespace; name = name })
unfolding release_info_from_key release_key
release_info_from_key-release_key namespace name h k =
    ground (arith, split_joined namespace name h, split-Plain name k)

-- A text up to its first separator is determined.
joined_injective :
    (s t s' t' : Text)
    → Plain s
    → Plain s'
    → s ++ (separator ∷ t) ≡ s' ++ (separator ∷ t')
    → (s ≡ s') × (t ≡ t')
joined_injective [] t [] t' h k e = (refl, tail-eq_of_cons-eq e)
joined_injective [] t (c ∷ s') t' h k e = ground arith
joined_injective (c ∷ s) t [] t' h k e = ground arith
joined_injective (c ∷ s) t (c' ∷ s') t' h k e = ground (arith, joined_injective s t s' t')

-- Two clusters share a key only if they are the same cluster, where no namespace has a '/'.
pub cluster_key_injective :
    (ns name ns' name' : Text) (kind kind' : ClusterType)
    → Plain ns
    → Plain ns'
    → cluster_key ns name kind ≡ cluster_key ns' name' kind'
    → (kind ≡ kind') × (ns ≡ ns') × (name ≡ name')
unfolding cluster_key
cluster_key_injective ns name ns' name' capi capi h k e =
    ground (arith, joined_injective ns name ns' name' h k)
cluster_key_injective ns name ns' name' sveltos sveltos h k e =
    ground (arith, joined_injective ns name ns' name' h k)
cluster_key_injective ns name ns' name' capi sveltos h k e = ground arith
cluster_key_injective ns name ns' name' sveltos capi h k e = ground arith

-- Two releases share a key only if they are the same release, where no namespace has a '/'.
pub release_key_injective :
    (ns name ns' name' : Text)
    → Plain ns
    → Plain ns'
    → release_key ns name ≡ release_key ns' name'
    → (ns ≡ ns') × (name ≡ name')
unfolding release_key
release_key_injective ns name ns' name' h k e = joined_injective ns name ns' name' h k e
