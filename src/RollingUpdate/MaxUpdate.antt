-- ===== src/RollingUpdate/MaxUpdate.antt =====
-- getMaxUpdate. The package that computes a percentage is a parameter, together with math.Ceil of
-- its result.
use addon_controller.Common.{
  ℕ, ◌+◌, ◌-◌, ◌*◌, ◌==◌, ◌&&◌, nat_eq, leb, Bool, if◌then◌else◌, List, [], ◌∷◌, Option, none, some,
  Text, length,
}
use addon_controller.Api.{ObjectReference}

-- intstr.IntOrString; an amount is a count that is not negative
pub data IntOrString : Type 0 where
  int : ℕ → IntOrString
  string : Text → IntOrString

-- strings.ReplaceAll(s, "%s", "")
pub remove_verbs : Text → Text
remove_verbs [] = []
remove_verbs (c ∷ []) = c ∷ []
remove_verbs (c ∷ d ∷ s) =
    let later = c ∷ remove_verbs (d ∷ s) in
    let cut = remove_verbs s in if c == b'%' && d == b's' then cut else later

abbrev pub is_digit : ℕ → Bool
is_digit c = leb b'0' c && leb c b'9'

-- the number that the leading digits spell, given what stands before them
pub scan_digits : ℕ → Text → ℕ
scan_digits n [] = n
scan_digits n (c ∷ s) =
    let more = scan_digits (n * 10 + (c - b'0')) s in if is_digit c then more else n

-- fmt.Sscanf(s, "%d") on a text with no sign and no leading space, as the resource's validation asks
pub scan_decimal : Text → Option ℕ
unfolding scan_digits
scan_decimal [] = none
scan_decimal (c ∷ s) = if is_digit c then some (scan_digits 0 (c ∷ s)) else none

module _ (percent_ceil : ℕ → ℕ → ℕ) where
  abbrev share_of : Option ℕ → ℕ → ℕ
  share_of none total = 0
  share_of (some n) total = percent_ceil n total

  pub get_max_update : Option IntOrString → List ObjectReference → ℕ
  unfolding scan_decimal remove_verbs
  get_max_update none matching = 0
  get_max_update (some (int n)) matching = n
  get_max_update (some (string s)) matching =
      share_of (scan_decimal (remove_verbs s)) (length matching)
