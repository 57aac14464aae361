-- ===== src/Queue/Lifecycle.antt =====
-- The life of a job, as the model of its status promises it (ScrapeStatus of
-- infrastructure/persistence/models/scrape_queue.py), and the queue's operations as steps of it.
use mathlib.Core.Path.{subst}
use sport_crawl.Prelude.{
  ℕ, Bool, true, Option, none, some, [], ◌∷◌, ◌≡◌, ◌⊎◌, refl, sym, inl, inr, Bool-cases,
  Option-cases, arith, ◌==◌, ==_iff, if◌then◌else◌,
}
use sport_crawl.Queue.Table.{
  ScrapeStatus, pending, in_progress, done, failed, ScrapeQueue, Table, find, save, update_where,
}
use sport_crawl.Queue.Table.Totals.{find-id, find-save_other, find-save_same}
use sport_crawl.Queue.Operations.{
  Operation, claim_next, claim_by_id, mark_done, mark_failed, recover_all_stale, recover_failed,
  recover_stale, job_recover_stale, job_mark_in_progress, job_mark_done, job_mark_failed,
  info_mark_failed, info_release_to_pending,
}

-- PENDING → IN_PROGRESS → DONE | FAILED, FAILED → PENDING, and a job that is given back.
pub data Transition : ScrapeStatus → ScrapeStatus → Type 0 where
  starts : Transition pending in_progress
  finishes : Transition in_progress done
  fails : Transition in_progress failed
  gives_back : Transition in_progress pending
  revives : Transition failed pending

-- All that the specification knows of a job: its status, once it has a row.
abbrev pub row_status : Option ScrapeQueue → Option ScrapeStatus
row_status none = none
row_status (some r) = some r.status

abbrev pub status_of : ℕ → Table → Option ScrapeStatus
status_of i t = row_status (find i t)

-- Whether an operation may make the transition, and of which job.
abbrev pub Makes : Operation → ℕ → {a b : ScrapeStatus} → Transition a b → Type 0
Makes (claim_next _) i starts = Unit
Makes (claim_by_id _ j) i starts = i ≡ j
Makes (job_mark_in_progress j) i starts = i ≡ j
Makes (mark_done j) i finishes = i ≡ j
Makes (job_mark_done j) i finishes = i ≡ j
Makes (job_mark_failed j _ _) i fails = i ≡ j
Makes (info_mark_failed j _ _) i fails = i ≡ j
Makes (mark_failed j _) i gives_back = i ≡ j
Makes (job_mark_failed j _ _) i gives_back = i ≡ j
Makes (info_mark_failed j _ _) i gives_back = i ≡ j
Makes (info_release_to_pending j) i gives_back = i ≡ j
Makes (recover_all_stale _) i gives_back = Unit
Makes (recover_stale _ _) i gives_back = Unit
Makes (job_recover_stale _ _) i gives_back = Unit
Makes (recover_failed _) i revives = Unit
Makes _ i _ = ⊥

-- A step of the specification for one job.
pub data Step (op : Operation) (i : ℕ) : Option ScrapeStatus → Option ScrapeStatus → Type 0 where
  stays : {a : Option ScrapeStatus} → Step op i a a
  moves : {a b : ScrapeStatus} → (t : Transition a b) → Makes op i t → Step op i (some a) (some b)

-- What the callers of a method keep: a job that is marked is IN_PROGRESS, if it is there at all, and a
-- job that is marked as started is PENDING.
abbrev pub IsGuarded : Operation → Table → Type 0
IsGuarded (mark_done j) t = (status_of j t ≡ none) ⊎ (status_of j t ≡ some in_progress)
IsGuarded (mark_failed j _) t = (status_of j t ≡ none) ⊎ (status_of j t ≡ some in_progress)
IsGuarded (job_mark_in_progress j) t = (status_of j t ≡ none) ⊎ (status_of j t ≡ some pending)
IsGuarded (job_mark_done j) t = (status_of j t ≡ none) ⊎ (status_of j t ≡ some in_progress)
IsGuarded (job_mark_failed j _ _) t = (status_of j t ≡ none) ⊎ (status_of j t ≡ some in_progress)
IsGuarded (info_mark_failed j _ _) t = (status_of j t ≡ none) ⊎ (status_of j t ≡ some in_progress)
IsGuarded _ t = Unit

abbrev map_row : (ScrapeQueue → ScrapeQueue) → Option ScrapeQueue → Option ScrapeQueue
map_row change none = none
map_row change (some r) = some (change r)

find-update_where :
    (test : ScrapeQueue → Bool) (change : ScrapeQueue → ScrapeQueue)
    → ((r : ScrapeQueue) → (change r).id ≡ r.id)
    → (i : ℕ) (t : Table)
    → find i (update_where test change t) ≡ map_row (λ r. if test r then change r else r) (find i t)
unfolding find update_where
find-update_where test change keeps i [] = refl
find-update_where test change keeps i (r ∷ rest) =
    let same = keeps r in ground (arith, find-update_where test change keeps i rest)

module _ (op : Operation) (t : Table) where
  -- Every job takes a step of the specification.
  abbrev pub IsStep : Table → Type 0
  IsStep u = (i : ℕ) → Step op i (status_of i t) (status_of i u)

  pub IsStep-refl : IsStep t
  IsStep-refl i = stays

  pub save-IsStep :
      (row q : ScrapeQueue) (m : Transition q.status row.status)
      → find row.id t ≡ some q
      → Makes op row.id m
      → IsStep (save row t)
  save-IsStep row q m found makes i = elim (Bool-cases (row.id == i)) [
    | inl same ↦
        subst (λ j. Step op j (status_of j t) (status_of j (save row t))) ((==_iff row.id i).0 same)
          (rw (found, find-save_same row q t found) (moves m makes))
    | inr other ↦
        rw (find-save_other i row t (λ e. let n = (==_iff row.id i).1 (sym e) in absurd (cc))) stays
  ]

  pub update_where-IsStep :
      (test : ScrapeQueue → Bool) (change : ScrapeQueue → ScrapeQueue)
      → ((r : ScrapeQueue) → (change r).id ≡ r.id)
      → ((r : ScrapeQueue)
          → test r ≡ true
          → (m : Transition r.status (change r).status) × Makes op r.id m)
      → IsStep (update_where test change t)
  update_where-IsStep test change keeps may i = elim (Option-cases (find i t)) [
    | inl absent ↦ rw (find-update_where test change keeps i t, absent) stays
    | inr (r, found) ↦ elim (Bool-cases (test r)) [
      | inl met ↦
          rw (find-update_where test change keeps i t, found, met)
            (moves (may r met).0
              (subst (λ j. Makes op j (may r met).0) (find-id i t r found) (may r met).1))
      | inr passed ↦ rw (find-update_where test change keeps i t, found, passed) stays
    ]
  ]
