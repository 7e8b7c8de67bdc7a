-- ===== src/Common/Texts.antt =====
-- Go strings as lists of bytes.
use Prim.Native.Nat.{ℕ}
use Prim.Native.Char.{code}
use Prim.Native.String.{String}
use mathlib.Core.Path.{◌≡◌, refl}
use mathlib.Core.List.{List, [], ◌∷◌, head-eq_of_cons-eq, tail-eq_of_cons-eq}
use native.Mathlib.Decide.{ℕ_discrete}
use addon_controller.Common.Tests.{Eq}

abbrev pub Text : Type 0
Text = List ℕ

-- A literal.
abbrev pub text : String → Text
text String.[] = []
text (String.◌∷◌ c s) = code c ∷ text s

cons_dec : {x y : ℕ} {xs ys : Text} → Dec (x ≡ y) → Dec (xs ≡ ys) → Dec (x ∷ xs ≡ y ∷ ys)
cons_dec (yes p) (yes q) = yes (cc)
cons_dec (yes p) (no q) = no (λ e. q (tail-eq_of_cons-eq e))
cons_dec (no p) q = no (λ e. p (head-eq_of_cons-eq e))

unfoldable pub text_dec : Discrete Text
unfolding cons_dec ℕ_discrete
text_dec [] [] = yes refl
text_dec [] (y ∷ ys) = no (λ e. cc)
text_dec (x ∷ xs) [] = no (λ e. cc)
text_dec (x ∷ xs) (y ∷ ys) = cons_dec (ℕ_discrete x y) (text_dec xs ys)

instance abbrev pub text_eq : Eq Text
text_eq = record { dec = text_dec }
