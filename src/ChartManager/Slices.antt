-- ===== src/ChartManager/Slices.antt =====
-- The slices of registered ClusterSummaries: appending to one, and taking one out by moving the last
-- element into its place.
use addon_controller.Common.{
  ◌≡◌, refl, ◌||◌, ◌&&◌, not, ◌==◌, false, List, [], ◌∷◌, some, Text, text_eq, contains,
  contains-append, Distinct, Distinct-snoc, arith, Bool-cases, inl, inr,
}
use addon_controller.ChartManager.{swap_remove, last_of, but_last, head_of}
use addon_controller.ChartManager.Registry.{added, removed}

pub contains-added :
    (cs : Text) (l : List Text) (a : Text) → contains (added cs l) a ≡ (contains l a || cs == a)
contains-added cs l a = ground (arith, contains-append l (cs ∷ []) a)

pub Distinct-added : (cs : Text) (l : List Text) → Distinct l → Distinct (added cs l)
Distinct-added cs l d = elim (Bool-cases (contains l cs)) [
  | inl old ↦ rw old d
  | inr new ↦ rw new (Distinct-snoc l cs d new)
]

-- The first element stays the first.
pub head_of-added :
    (cs x : Text) (l : List Text) → head_of l ≡ some x → head_of (added cs l) ≡ some x
head_of-added cs x [] h = cc
head_of-added cs x (y ∷ l) h = ground arith

contains-move_last :
    (y : Text) (ys : List Text) (a : Text)
    → (last_of y ys == a || contains (but_last y ys) a) ≡ (y == a || contains ys a)
contains-move_last y [] a = refl
contains-move_last y (z ∷ zs) a = ground (arith, contains-move_last z zs a)

Distinct-move_last :
    (y : Text) (ys : List Text)
    → (contains ys y ≡ false) × Distinct ys
    → (contains (but_last y ys) (last_of y ys) ≡ false) × Distinct (but_last y ys)
Distinct-move_last y [] d = (refl, tt)
Distinct-move_last y (z ∷ zs) d = ground (
  arith,
  Distinct-move_last z zs d.1,
  contains-move_last z zs y,
  contains-move_last z zs (last_of z zs),
)

-- Where a slice has no duplicate, exactly the given element is taken out.
pub contains-swap_remove :
    (cs : Text) (l : List Text) (a : Text)
    → Distinct l
    → contains (swap_remove cs l) a ≡ (contains l a && not (cs == a))
unfolding swap_remove
contains-swap_remove cs [] a d = refl
contains-swap_remove cs (y ∷ []) a d = ground (arith)
contains-swap_remove cs (y ∷ z ∷ zs) a d =
    ground (arith, contains-swap_remove cs (z ∷ zs) a d.1, contains-move_last z zs a)

pub Distinct-swap_remove : (cs : Text) (l : List Text) → Distinct l → Distinct (swap_remove cs l)
unfolding swap_remove
Distinct-swap_remove cs [] d = tt
Distinct-swap_remove cs (y ∷ []) d = ground arith
Distinct-swap_remove cs (y ∷ z ∷ zs) d = ground (
  arith,
  Distinct-swap_remove cs (z ∷ zs) d.1,
  Distinct-move_last z zs d.1,
  contains-swap_remove cs (z ∷ zs) y d.1,
)

pub swap_remove_absent : (cs : Text) (l : List Text) → contains l cs ≡ false → swap_remove cs l ≡ l
unfolding swap_remove
swap_remove_absent cs [] h = refl
swap_remove_absent cs (y ∷ l) h = ground (arith, swap_remove_absent cs l)

pub removed-swap_remove : (cs : Text) (l : List Text) → removed cs l ≡ swap_remove cs l
removed-swap_remove cs l = elim (Bool-cases (contains l cs)) [
  | inl there ↦ rw there
  | inr gone ↦ rw (gone, swap_remove_absent cs l gone)
]

-- When the first element goes, the last one takes its place.
pub swap_remove_self :
    (x y : Text) (ys : List Text) → swap_remove x (x ∷ y ∷ ys) ≡ last_of y ys ∷ but_last y ys
unfolding swap_remove
swap_remove_self x y ys = ground arith
