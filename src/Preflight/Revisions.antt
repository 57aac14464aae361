-- ===== src/Preflight/Revisions.antt =====
-- core/preflight/checks.py, _revision_gte: the order of the migration chain.
use mathlib.Core.Bool.{true≢false}
use sport_crawl.Prelude.{
  ℕ, zero, suc, ◌≤◌, String, Bool, true, false, Option, none, some, List, [], ◌∷◌, ◌≡◌, ◌↔◌, refl,
  sym, ap, ◌∙◌, ◌&&◌, not, inl, inr, Bool-cases, arith, str_eq, eq_iff, if◌then◌else◌, eq_of_some,
}
use sport_crawl.Preflight.Checks.{index, revision_order, revision_gte}

abbrev pub nth : ℕ → List String → Option String
nth n [] = none
nth zero (x ∷ rest) = some x
nth (suc n) (x ∷ rest) = nth n rest

abbrev has_item : String → List String → Bool
has_item item [] = false
has_item item (x ∷ rest) = let later = has_item item rest in if str_eq x item then true else later

abbrev is_distinct : List String → Bool
is_distinct [] = true
is_distinct (x ∷ rest) = let later = is_distinct rest in not (has_item x rest) && later

has_item-nth :
    (n : ℕ) (l : List String) (item : String) → nth n l ≡ some item → has_item item l ≡ true
has_item-nth n [] item h = absurd (cc)
has_item-nth zero (x ∷ rest) item h = rw ((eq_iff x item).1 (eq_of_some h)) refl
has_item-nth (suc n) (x ∷ rest) item h = elim (Bool-cases (str_eq x item)) [
  | inl same ↦ rw same refl
  | inr other ↦ rw other (has_item-nth n rest item h)
]

index-nth :
    (n : ℕ) (l : List String) (item : String)
    → is_distinct l ≡ true
    → nth n l ≡ some item
    → index item l ≡ some n
unfolding index
index-nth n [] item d h = absurd (cc)
index-nth zero (x ∷ rest) item d h = rw ((eq_iff x item).1 (eq_of_some h), index) refl
index-nth (suc n) (x ∷ rest) item d h = elim (Bool-cases (has_item x rest)) [
  | inl twice ↦ absurd (true≢false (sym (rw twice at d)))
  | inr once ↦ elim (Bool-cases (str_eq x item)) [
    | inl same ↦ absurd (
        true≢false (
          sym (has_item-nth n rest item h)
          ∙ ap (λ y. has_item y rest) (sym ((eq_iff x item).0 same))
          ∙ once))
    | inr other ↦ rw (other, index-nth n rest item (rw once at d) h, index) refl
  ]
]

-- Of two revisions of the chain, the first passes as at least the second exactly when it does not
-- stand before it.
pub revision_gte_iff :
    (i j : ℕ) (current minimum : String)
    → nth i revision_order ≡ some current
    → nth j revision_order ≡ some minimum
    → (revision_gte (some current) minimum ≡ true) ↔ (j ≤ i)
unfolding revision_gte
revision_gte_iff i j current minimum at_i at_j =
    let first = index-nth i revision_order current refl at_i in
    let second = index-nth j revision_order minimum refl at_j in
    (λ h. ground (arith, rw (first, second) at h), λ h. rw (first, second) (ground (arith, h)))
