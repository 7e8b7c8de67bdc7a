-- ===== src/Selection/Bounds.antt =====
-- selectClusters (set_utils.go): how many clusters it leaves, and which ones.
use addon_controller.Common.{
  ℕ, suc, ◌+◌, ◌-◌, ◌≤◌, ◌<◌, ◌≡◌, refl, ◌==◌, nat_eq, not, leb, ltb, leb_le, ltb_lt, ==_eq, true,
  false, List, [], ◌∷◌, ◌++◌, length, take, contains, select, contains-select, contains-append,
  length-append, length-take_le, arith, Bool-cases, inl, inr, ◌⊎◌, sym, zero, ap,
}
use addon_controller.Api.{ObjectReference, ref_eq}
use addon_controller.Selection.{select_more_loop, select_more_clusters, select_clusters}

-- the healthy clusters that are not selected yet
abbrev pub fresh : List ObjectReference → List ObjectReference → List ObjectReference
fresh known healthy = select (λ c. not (contains known c)) healthy

append_nil : (xs : List ObjectReference) → xs ++ [] ≡ xs
append_nil [] = refl
append_nil (x ∷ xs) = ap (λ l. x ∷ l) (append_nil xs)

snoc_append :
    (xs : List ObjectReference) (c : ObjectReference) (zs : List ObjectReference)
    → (xs ++ c ∷ []) ++ zs ≡ xs ++ c ∷ zs
snoc_append [] c zs = refl
snoc_append (x ∷ xs) c zs = ap (λ l. x ∷ l) (snoc_append xs c zs)

-- The loop appends as many of the new clusters as there is room for, `n` being the room but one.
select_more_loop_lem :
    (max n : ℕ) (known healthy selected : List ObjectReference)
    → max ≡ suc n + length selected
    → select_more_loop max known healthy selected ≡ selected ++ take (suc n) (fresh known healthy)
unfolding select_more_loop
select_more_loop_lem max n known [] selected h = sym (append_nil selected)
select_more_loop_lem max zero known (c ∷ rest) selected h =
    ground
      (arith, select_more_loop_lem max zero known rest selected h, length-append selected (c ∷ []))
select_more_loop_lem max (suc n) known (c ∷ rest) selected h =
    elim (Bool-cases (contains known c)) [
      | inl old ↦ rw old (select_more_loop_lem max (suc n) known rest selected h)
      | inr new ↦
          rw (new, more_room, select_more_loop_lem max n known rest (selected ++ c ∷ []) next)
            (snoc_append selected c (take (suc n) (fresh known rest)))
    ]
  where
    next : max ≡ suc n + length (selected ++ c ∷ [])
    next = omega (arith, length-append selected (c ∷ []), h)

    more_room : (length (selected ++ c ∷ []) == max) ≡ false
    more_room = ground (arith, next)

contains-take :
    (n : ℕ) (xs : List ObjectReference) (a : ObjectReference)
    → contains (take n xs) a ≡ true
    → contains xs a ≡ true
contains-take zero xs a h = cc
contains-take (suc n) [] a h = cc
contains-take (suc n) (x ∷ xs) a h = ground (arith, contains-take n xs a)

take_all : (n : ℕ) (xs : List ObjectReference) → length xs ≤ n → take n xs ≡ xs
take_all zero [] h = refl
take_all zero (x ∷ xs) h = ground arith
take_all (suc n) [] h = refl
take_all (suc n) (x ∷ xs) h = ap (λ l. x ∷ l) (take_all n xs (omega arith))

pub length-take : (n : ℕ) (xs : List ObjectReference) → n ≤ length xs → length (take n xs) ≡ n
length-take zero xs h = refl
length-take (suc n) [] h = omega arith
length-take (suc n) (x ∷ xs) h = omega (arith, length-take n xs)

-- what was selected and is still healthy
abbrev pub kept : List ObjectReference → List ObjectReference → List ObjectReference
kept healthy selected = select (contains healthy) selected

-- Where there is room, the kept clusters come first, then as many new ones as fit.
pub select_clusters-room :
    (max n : ℕ) (healthy selected : List ObjectReference)
    → max ≡ suc n + length (kept healthy selected)
    → select_clusters max healthy selected
      ≡ kept healthy selected ++ take (suc n) (fresh (kept healthy selected) healthy)
unfolding select_clusters select_more_clusters
select_clusters-room max n healthy selected h =
    ground
      (arith, select_more_loop_lem max n (kept healthy selected) healthy (kept healthy selected) h)

select_clusters-full :
    (max : ℕ) (healthy selected : List ObjectReference)
    → length (kept healthy selected) ≡ max
    → select_clusters max healthy selected ≡ kept healthy selected
unfolding select_clusters
select_clusters-full max healthy selected h = ground arith

pub select_clusters-over :
    (max : ℕ) (healthy selected : List ObjectReference)
    → max < length (kept healthy selected)
    → select_clusters max healthy selected ≡ take (max - 1) (kept healthy selected)
unfolding select_clusters
select_clusters-over max healthy selected h = ground arith

-- the three cases: no room, just enough of them, or too many
data Cases (max : ℕ) (healthy selected : List ObjectReference) : Type 0 where
  room : (n : ℕ) → max ≡ suc n + length (kept healthy selected) → Cases max healthy selected
  full : length (kept healthy selected) ≡ max → Cases max healthy selected
  over : max < length (kept healthy selected) → Cases max healthy selected

cases : (max : ℕ) (healthy selected : List ObjectReference) → Cases max healthy selected
cases max healthy selected = elim (Bool-cases (ltb max len)) [
  | inl more ↦ over (ltb_lt max len more)
  | inr no_more ↦ elim (Bool-cases (len == max)) [
    | inl even ↦ full (==_eq len max even)
    | inr less ↦ room (max - suc len) (ground (arith))
  ]
]
  where
    len : ℕ
    len = length (kept healthy selected)

within_and_healthy :
    (max : ℕ) (healthy selected : List ObjectReference)
    → (length (select_clusters max healthy selected) ≤ max)
      × ((c : ObjectReference)
          → contains (select_clusters max healthy selected) c ≡ true
          → contains healthy c ≡ true)
within_and_healthy max healthy selected = elim (cases max healthy selected) [
  | room n e ↦ rw (select_clusters-room max n healthy selected e) (
    omega (
      arith,
      e,
      length-append (kept healthy selected) (take (suc n) new),
      length-take_le (suc n) new,
    ),
    λ c. ground (
      arith,
      contains-append (kept healthy selected) (take (suc n) new) c,
      contains-select (contains healthy) selected c,
      contains-take (suc n) new c,
      contains-select (λ x. not (contains (kept healthy selected) x)) healthy c,
    ),
  )
  | full e ↦
      rw (select_clusters-full max healthy selected e)
        (omega (arith, e), λ c. ground (arith, contains-select (contains healthy) selected c))
  | over e ↦ rw (select_clusters-over max healthy selected e) (
    omega (arith, length-take_le (max - 1) (kept healthy selected)),
    λ c. ground (
      arith,
      contains-take (max - 1) (kept healthy selected) c,
      contains-select (contains healthy) selected c,
    ),
  )
]
  where
    new : List ObjectReference
    new = fresh (kept healthy selected) healthy

keeps_and_fills :
    (max : ℕ) (healthy selected : List ObjectReference)
    → length (kept healthy selected) ≤ max
    → ((c : ObjectReference)
        → contains selected c ≡ true
        → contains healthy c ≡ true
        → contains (select_clusters max healthy selected) c ≡ true)
      × ((length (select_clusters max healthy selected) ≡ max)
          ⊎ ((c : ObjectReference)
              → contains healthy c ≡ true
              → contains (select_clusters max healthy selected) c ≡ true))
keeps_and_fills max healthy selected h = elim (cases max healthy selected) [
  | room n e ↦ rw (select_clusters-room max n healthy selected e) (
    λ c. ground (
      arith,
      contains-append (kept healthy selected) (take (suc n) new) c,
      contains-select (contains healthy) selected c,
    ),
    elim (Bool-cases (leb (length new) (suc n))) [
      | inl all_fit ↦ inr (λ c. ground (
        arith,
        take_all (suc n) new (leb_le (length new) (suc n) all_fit),
        contains-append (kept healthy selected) (take (suc n) new) c,
        contains-select (λ x. not (contains (kept healthy selected) x)) healthy c,
      ))
      | inr too_many ↦ inl (
          omega (
            arith,
            e,
            length-append (kept healthy selected) (take (suc n) new),
            length-take (suc n) new (ground arith),
          ))
    ],
  )
  | full e ↦
      rw (select_clusters-full max healthy selected e)
        (λ c. ground (arith, contains-select (contains healthy) selected c), inl e)
  | over e ↦ ground (arith, h, e)
]
  where
    new : List ObjectReference
    new = fresh (kept healthy selected) healthy

-- selectClusters never leaves more than MaxReplicas clusters.
pub length-select_clusters_le :
    (max : ℕ) (healthy selected : List ObjectReference)
    → length (select_clusters max healthy selected) ≤ max
length-select_clusters_le max healthy selected = (within_and_healthy max healthy selected).0

-- selectClusters leaves healthy clusters only.
pub select_clusters-healthy :
    (max : ℕ) (healthy selected : List ObjectReference) (c : ObjectReference)
    → contains (select_clusters max healthy selected) c ≡ true
    → contains healthy c ≡ true
select_clusters-healthy max healthy selected = (within_and_healthy max healthy selected).1

-- As long as the clusters that were selected and are still healthy are at most MaxReplicas, they all
-- stay selected.
pub select_clusters-keeps :
    (max : ℕ) (healthy selected : List ObjectReference) (c : ObjectReference)
    → length (kept healthy selected) ≤ max
    → contains selected c ≡ true
    → contains healthy c ≡ true
    → contains (select_clusters max healthy selected) c ≡ true
select_clusters-keeps max healthy selected c h = (keeps_and_fills max healthy selected h).0 c

-- As long as the clusters that were selected and are still healthy are at most MaxReplicas, a healthy
-- cluster is left out only if MaxReplicas clusters are selected.
pub select_clusters-fills :
    (max : ℕ) (healthy selected : List ObjectReference) (c : ObjectReference)
    → length (kept healthy selected) ≤ max
    → contains healthy c ≡ true
    → (length (select_clusters max healthy selected) ≡ max)
      ⊎ (contains (select_clusters max healthy selected) c ≡ true)
select_clusters-fills max healthy selected c h k = elim (keeps_and_fills max healthy selected h).1 [
  | inl e ↦ inl e
  | inr f ↦ inr (f c k)
]
