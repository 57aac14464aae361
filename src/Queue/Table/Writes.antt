-- ===== src/Queue/Table/Writes.antt =====
-- What a write to the table changes, and what it leaves.
use sport_crawl.Prelude.{
  eq_of_some, ℕ, Bool, true, some, none, [], ◌∷◌, ◌≡◌, refl, arith, ◌==◌, if◌then◌else◌, All,
  is_some, inl, inr, Bool-cases,
}
use mathlib.Core.Path.{subst}
use sport_crawl.Queue.Table.{
  ScrapeStatus, pending, in_progress, done, failed, is_status, ScrapeQueue, Table, find, save,
  update_where, ids,
}

module _ (P : ScrapeQueue → Type 0) where
  pub All-save : (row : ScrapeQueue) (table : Table) → P row → All P table → All P (save row table)
  unfolding save
  All-save row [] p h = h
  All-save row (r ∷ rest) p h = (ground arith, All-save row rest p h.1)

  pub All-update_where :
      (test : ScrapeQueue → Bool) (change : ScrapeQueue → ScrapeQueue) (table : Table)
      → ((r : ScrapeQueue) → test r ≡ true → P r → P (change r))
      → All P table
      → All P (update_where test change table)
  unfolding update_where
  All-update_where test change [] keep h = h
  All-update_where test change (r ∷ rest) keep h =
      (ground (arith, keep r), All-update_where test change rest keep h.1)

  pub All-find :
      (i : ℕ) (table : Table) (r : ScrapeQueue) → All P table → find i table ≡ some r → P r
  unfolding find
  All-find i [] r h e = cc
  All-find i (q ∷ rest) r h e = elim (Bool-cases (q.id == i)) [
    | inl same ↦ subst P (eq_of_some (rw same at e)) h.0
    | inr other ↦ All-find i rest r h.1 (rw other at e)
  ]

pub ids-save : (row : ScrapeQueue) (table : Table) → ids (save row table) ≡ ids table
unfolding save
ids-save row [] = refl
ids-save row (r ∷ rest) = ground (arith, ids-save row rest)

pub find-save :
    (i : ℕ) (row : ScrapeQueue) (table : Table)
    → find i (save row table)
      ≡ (if row.id == i then (if is_some (find i table) then some row else none) else find i table)
unfolding find save
find-save i row [] = ground arith
find-save i row (r ∷ rest) = ground (arith, find-save i row rest)

pub is_status-eq : (a b : ScrapeStatus) → is_status a b ≡ true → a ≡ b
is_status-eq pending pending h = refl
is_status-eq in_progress in_progress h = refl
is_status-eq done done h = refl
is_status-eq failed failed h = refl
is_status-eq pending in_progress h = absurd (cc)
is_status-eq pending done h = absurd (cc)
is_status-eq pending failed h = absurd (cc)
is_status-eq in_progress pending h = absurd (cc)
is_status-eq in_progress done h = absurd (cc)
is_status-eq in_progress failed h = absurd (cc)
is_status-eq done pending h = absurd (cc)
is_status-eq done in_progress h = absurd (cc)
is_status-eq done failed h = absurd (cc)
is_status-eq failed pending h = absurd (cc)
is_status-eq failed in_progress h = absurd (cc)
is_status-eq failed done h = absurd (cc)
