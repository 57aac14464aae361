-- ===== src/Queue/Head.antt =====
-- infrastructure/persistence/repositories/scrape_queue.py: the job that every claim returns, as long as
-- it waits with the smallest id.
use sport_crawl.Prelude.{
  ℕ, String, select, ◌==◌, not, ◌≤◌, Bool, true, false, some, [], ◌∷◌, ◌≡◌, ◌⊎◌, refl, sym, ap, ◌∙◌,
  inl, inr, Option-cases, arith, ◌&&◌, All, str_eq,
}
use mathlib.Core.Path.{subst}
use sport_crawl.Queue.Table.{
  pending, is_status, ScrapeQueue, Table, ok, Session, find, save, first_row,
}
use sport_crawl.Queue.Table.Order.{first_row-some, first_row-none}
use sport_crawl.Queue.Table.Writes.{All-find, All-save}
use sport_crawl.Queue.Table.Totals.{
  IsUnique, find-of_Mem, save-IsUnique, find-save_same, save_twice,
}
use sport_crawl.Queue.Repository.{
  claim_next, is_claimable, claimed, requeued, mark_failed, get_job_or_raise,
}

-- The only row that can be first.
first_row-least :
    (test : ScrapeQueue → Bool) (q : ScrapeQueue) (t : Table)
    → IsUnique t
    → find q.id t ≡ some q
    → test q ≡ true
    → All (λ r. (test r ≡ false) ⊎ (q.id ≤ r.id)) t
    → first_row test t ≡ some q
first_row-least test q t u found passes least = elim (Option-cases (first_row test t)) [
  | inl empty ↦
      absurd (All-find (λ r. test r ≡ true → ⊥) q.id t q (first_row-none test t empty) found passes)
  | inr (x, first) ↦
      let (x_passes, member, x_least) = first_row-some test t x first in
      let x_found = find-of_Mem x t u member in
      let below = All-find (λ r. test r ≡ true → x.id ≤ r.id) q.id t q x_least found passes in
      let above = All-find (λ r. (test r ≡ false) ⊎ (q.id ≤ r.id)) x.id t x least x_found in
      let same : x.id ≡ q.id = ground (arith, x_passes, below, above) in
      first ∙ (sym x_found ∙ ap (λ i. find i t) same ∙ found)
]

-- Waiting for the workers of a job_type, locked or not.
abbrev pub waits : String → ScrapeQueue → Bool
waits job_type r = is_status r.status pending && str_eq r.job_type job_type

-- At the head of the waiting jobs of a queue with unique ids.
pub record IsHead (job_type : String) (q : ScrapeQueue) (t : Table) : Type 0 where
  pub unique : IsUnique t
  pub found : find q.id t ≡ some q
  pub waiting : waits job_type q ≡ true
  pub least : All (λ r. (waits job_type r ≡ false) ⊎ (q.id ≤ r.id)) t

All-weaken :
    (P Q : ScrapeQueue → Type 0) → ((r : ScrapeQueue) → P r → Q r) → (t : Table) → All P t → All Q t
All-weaken P Q f [] h = tt
All-weaken P Q f (r ∷ rest) h = (f r h.0, All-weaken P Q f rest h.1)

-- A WHERE clause that waiting jobs alone pass, the head among them.
pub first_row-IsHead :
    (job_type : String) (test : ScrapeQueue → Bool) (q : ScrapeQueue) (t : Table)
    → IsHead job_type q t
    → ((r : ScrapeQueue) → test r ≡ true → waits job_type r ≡ true)
    → test q ≡ true
    → first_row test t ≡ some q
first_row-IsHead job_type test q t h narrows passes =
    first_row-least test q t h.unique h.found passes (
      All-weaken (λ r. (waits job_type r ≡ false) ⊎ (q.id ≤ r.id))
        (λ r. (test r ≡ false) ⊎ (q.id ≤ r.id)) (λ r c. let n = narrows r in ground (arith, n, c)) t
        h.least)

pub claim_next-IsHead :
    (job_type : String) (s : Session) (q : ScrapeQueue) (t : Table)
    → IsHead job_type q t
    → s.reachable ≡ true
    → s.locked q.id ≡ false
    → claim_next job_type s t ≡ (ok (some (claimed s q)), save (claimed s q) t)
unfolding claim_next
claim_next-IsHead job_type s q t h up free =
    let w = h.waiting in
    rw up (
      rw
        (first_row-IsHead job_type (is_claimable job_type s) q t h (λ r e. ground arith)
          (ground arith))
        refl)

-- A write of the row that leaves it waiting leaves it at the head.
pub save-IsHead :
    (job_type : String) (row q : ScrapeQueue) (t : Table)
    → IsHead job_type q t
    → row.id ≡ q.id
    → waits job_type row ≡ true
    → IsHead job_type row (save row t)
save-IsHead job_type row q t h same w = record {
  unique = save-IsUnique row t h.unique;
  found = find-save_same row q t (subst (λ i. find i t ≡ some q) (sym same) h.found);
  waiting = w;
  least =
      All-save (λ r. (waits job_type r ≡ false) ⊎ (row.id ≤ r.id)) row t (inr (omega arith))
        (All-weaken (λ r. (waits job_type r ≡ false) ⊎ (q.id ≤ r.id))
          (λ r. (waits job_type r ≡ false) ⊎ (row.id ≤ r.id)) (λ r k. ground (arith, same)) t
          h.least);
}

-- The rows of all other jobs.
abbrev pub others : ℕ → Table → Table
others i t = select (λ r. not (r.id == i)) t

pub others-save :
    (row : ScrapeQueue) (i : ℕ) (t : Table) → row.id ≡ i → others i (save row t) ≡ others i t
unfolding save
others-save row i [] e = refl
others-save row i (r ∷ rest) e = ground (arith, e, others-save row i rest e)

-- A claimed job that is requeued.
pub mark_failed-claimed :
    (error : String) (s s' : Session) (q : ScrapeQueue) (t : Table)
    → find q.id t ≡ some q
    → s'.reachable ≡ true
    → mark_failed q.id error s' (save (claimed s q) t)
      ≡ (ok tt, save (requeued error (claimed s q)) t)
unfolding mark_failed
mark_failed-claimed error s s' q t found up =
    let held = find-save_same (claimed s q) q t found in
    let once = save_twice (requeued error (claimed s q)) (claimed s q) t refl in
    rw up (rw (held, get_job_or_raise) (ap (λ x. (ok tt, x)) once))
