-- ===== src/Selection/Dropping.antt =====
-- selectClusters (set_utils.go) with more healthy clusters than MaxReplicas: what one pass and the next one
-- select.
use addon_controller.Common.{
  ℕ, suc, ◌-◌, ◌≤◌, ◌<◌, ◌≡◌, refl, ◌≢◌, nat_eq, not, true, false, List, [], ◌∷◌, ◌++◌, length,
  take, contains, contains-select, length-append, arith, Bool-cases, inl, inr, zero, ap, Distinct,
  Distinct-select, ==_refl, ◌∙◌,
}
use addon_controller.Api.{ObjectReference, ref_eq}
use addon_controller.Selection.{select_clusters}
use addon_controller.Selection.Bounds.{
  kept, fresh, length-take, select_clusters-room, select_clusters-over,
}

dropped :
    (n : ℕ) (xs : List ObjectReference)
    → Distinct xs
    → n < length xs
    → (c : ObjectReference) × (contains xs c ≡ true) × (contains (take n xs) c ≡ false)
dropped n [] d h = absurd (omega (arith, h))
dropped zero (x ∷ xs) d h = (x, ground (arith, ==_refl x), refl)
dropped (suc n) (x ∷ xs) d h =
    let (c, there, gone) = dropped n xs d.1 (omega (arith, h)) in
    (c, ground (arith, there), ground (arith, gone, d.0, there))

not_empty : (xs : List ObjectReference) (c : ObjectReference) → contains xs c ≡ true → 1 ≤ length xs
not_empty [] c h = cc
not_empty (x ∷ xs) c h = omega arith

-- what was kept is kept again
kept-take :
    (n : ℕ) (healthy selected : List ObjectReference)
    → kept healthy (take n (kept healthy selected)) ≡ take n (kept healthy selected)
kept-take zero healthy selected = refl
kept-take (suc n) healthy [] = refl
kept-take (suc n) healthy (x ∷ xs) = elim (Bool-cases (contains healthy x)) [
  | inl e ↦ rw (e, e) (ap (λ l. x ∷ l) (kept-take n healthy xs))
  | inr e ↦ rw e (kept-take (suc n) healthy xs)
]

-- Where MaxReplicas is not 0, no cluster is selected twice, and more of the selected clusters than
-- MaxReplicas are still healthy, one fewer than MaxReplicas is kept; the next pass, with the same healthy
-- clusters, selects one more, so that there are MaxReplicas.
pub select_clusters-drops_one_more :
    (max : ℕ) (healthy selected : List ObjectReference)
    → max ≢ 0
    → Distinct selected
    → max < length (kept healthy selected)
    → (suc (length (select_clusters max healthy selected)) ≡ max)
      × (length (select_clusters max healthy (select_clusters max healthy selected)) ≡ max)
select_clusters-drops_one_more max healthy selected h d e =
    let k = kept healthy selected in
    let first = take (max - 1) k in
    let size : suc (length first) ≡ max =
      omega (arith, h, length-take (max - 1) k (omega (arith, e))) in
    let (c, there, gone) =
      dropped (max - 1) k (Distinct-select (contains healthy) selected d) (omega (arith, e)) in
    let same = kept-take (max - 1) healthy selected in
    let spare = not_empty (fresh first healthy) c (
      ground (
        arith,
        contains-select (λ x. not (contains first x)) healthy c,
        contains-select (contains healthy) selected c,
        there,
        gone,
      )) in
    let second : select_clusters max healthy first ≡ first ++ take 1 (fresh first healthy) =
      select_clusters-room max 0 healthy first (rw same (omega (arith, size)))
      ∙ ap (λ l. l ++ take 1 (fresh l healthy)) same in
    rw (select_clusters-over max healthy selected e) (
      size,
      rw second (
          omega (
            arith,
            size,
            length-append first (take 1 (fresh first healthy)),
            length-take 1 (fresh first healthy) spare,
          )),
    )
