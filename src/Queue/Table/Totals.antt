-- ===== src/Queue/Table/Totals.antt =====
-- Weights of a table's rows added up, and what one write does to the total.
use mathlib.Core.List.{Memᴰ}
use mathlib.Core.Path.{subst}
use sport_crawl.Prelude.{
  ℕ, ◌+◌, ◌≤◌, some, [], ◌∷◌, ◌≡◌, ◌≢◌, refl, sym, ap, ◌∙◌, inl, inr, Bool-cases, arith, ◌==◌,
  ==_iff, count, eq_of_some,
}
use sport_crawl.Queue.Table.{ScrapeQueue, Table, find, save, ids}
use sport_crawl.Queue.Table.Writes.{ids-save, find-save}

abbrev pub total : (ScrapeQueue → ℕ) → Table → ℕ
total weight [] = 0
total weight (r ∷ rest) = weight r + total weight rest

-- No two rows have the same id.
abbrev pub IsUnique : Table → Type 0
IsUnique table = (j : ℕ) → count j (ids table) ≤ 1

pub IsUnique-tail : (r : ScrapeQueue) (rest : Table) → IsUnique (r ∷ rest) → IsUnique rest
IsUnique-tail r rest u j = let h = u j in ground arith

pub save-IsUnique : (row : ScrapeQueue) (t : Table) → IsUnique t → IsUnique (save row t)
save-IsUnique row t u j = subst (λ l. count j l ≤ 1) (sym (ids-save row t)) (u j)

pub save_absent : (row : ScrapeQueue) (t : Table) → count row.id (ids t) ≡ 0 → save row t ≡ t
unfolding save
save_absent row [] h = refl
save_absent row (r ∷ rest) h = elim (Bool-cases (r.id == row.id)) [
  | inl same ↦ absurd (ground arith)
  | inr other ↦ simp other (ap (λ t. r ∷ t) (save_absent row rest (simp other at h)))
]

pub save_twice : (a b : ScrapeQueue) (t : Table) → a.id ≡ b.id → save a (save b t) ≡ save a t
unfolding save
save_twice a b [] e = refl
save_twice a b (r ∷ rest) e = ground (arith, save_twice a b rest e)

pub find-count : (j : ℕ) (t : Table) (q : ScrapeQueue) → find j t ≡ some q → 1 ≤ count j (ids t)
unfolding find
find-count j [] q h = absurd (cc)
find-count j (r ∷ rest) q h = ground (arith, find-count j rest q)

pub find-id : (j : ℕ) (t : Table) (q : ScrapeQueue) → find j t ≡ some q → q.id ≡ j
unfolding find
find-id j [] q h = absurd (cc)
find-id j (r ∷ rest) q h = ground (arith, find-id j rest q)

pub find-save_other :
    (j : ℕ) (row : ScrapeQueue) (t : Table) → j ≢ row.id → find j (save row t) ≡ find j t
find-save_other j row t other = elim (Bool-cases (row.id == j)) [
  | inl same ↦ absurd (other (sym ((==_iff row.id j).0 same)))
  | inr differs ↦ find-save j row t ∙ simp differs refl
]

pub find-save_same :
    (row q : ScrapeQueue) (t : Table) → find row.id t ≡ some q → find row.id (save row t) ≡ some row
find-save_same row q t found =
    find-save row.id row t ∙ simp ((==_iff row.id row.id).1 refl, found) refl

-- The row that a list holds is the one that its id finds.
pub find-of_Mem : (q : ScrapeQueue) (t : Table) → IsUnique t → Memᴰ q t → find q.id t ≡ some q
unfolding find
find-of_Mem q [] u m = elim m [ ]
find-of_Mem q (r ∷ rest) u (Memᴰ.head e) =
    subst (λ (x : ScrapeQueue). find q.id (x ∷ rest) ≡ some q) e
      (simp ((==_iff q.id q.id).1 refl) refl)
find-of_Mem q (r ∷ rest) u (Memᴰ.tail m) =
    let later = find-of_Mem q rest (IsUnique-tail r rest u) m in
    elim (Bool-cases (r.id == q.id)) [
      | inl same ↦
          let one = find-count q.id rest q later in
          let most = u q.id in absurd (ground (arith, one, most, same))
      | inr other ↦ simp other later
    ]

-- A write to the row of an id exchanges its weight alone.
pub total-save :
    (weight : ScrapeQueue → ℕ) (row q : ScrapeQueue) (t : Table)
    → IsUnique t
    → find row.id t ≡ some q
    → total weight (save row t) + weight q ≡ total weight t + weight row
unfolding find save
total-save weight row q [] u h = absurd (cc)
total-save weight row q (r ∷ rest) u h = elim (Bool-cases (r.id == row.id)) [
  | inl same ↦
      let here : r ≡ q = eq_of_some (rw same at h) in
      let once : count row.id (ids rest) ≡ 0 = let c = u row.id in ground (arith, same, c) in
      let w = ap weight here in simp (same, save_absent row rest once) (omega (arith, w))
  | inr other ↦
      let ih = total-save weight row q rest (IsUnique-tail r rest u) (rw other at h) in
      simp other (omega (arith, ih))
]
