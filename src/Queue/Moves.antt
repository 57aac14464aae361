-- ===== src/Queue/Moves.antt =====
-- The writes of the queue's repositories as moves of one job.
use mathlib.Core.Path.{subst}
use sport_crawl.Prelude.{
  ℕ, ◌+◌, ◌-◌, String, Bool, true, Option, none, some, ◌≡◌, ◌⊎◌, refl, sym, ◌∙◌, inl, inr,
  Bool-cases, Option-cases, leb, eq_of_some,
}
use sport_crawl.Queue.Table.{
  ScrapeStatus, pending, in_progress, is_status, ScrapeQueue, Table, Outcome, Session, find, save,
  update_where, repo_error_context,
}
use sport_crawl.Queue.Table.Writes.{is_status-eq}
use sport_crawl.Queue.Table.Totals.{find-id}
use sport_crawl.Queue.Repository
use sport_crawl.Queue.JobRepository
use sport_crawl.Queue.PlayerInfo
use sport_crawl.Queue.PlayerInfo.{is_terminal}
use sport_crawl.Queue.Operations.{Operation, job_mark_failed, info_mark_failed, on_row}
use sport_crawl.Queue.Lifecycle.{
  Transition, starts, fails, gives_back, status_of, Makes, IsStep, IsStep-refl, save-IsStep,
  update_where-IsStep,
}

-- A move out of the status that a row was found in.
pub move_from :
    (op : Operation) (i : ℕ) (a b c : ScrapeStatus)
    → a ≡ b
    → (m : Transition b c) → Makes op i m
    → (n : Transition a c) × Makes op i n
move_from op i a b c e m makes = subst (λ x. (n : Transition x c) × Makes op i n) (sym e) (m, makes)

module _ (op : Operation) (s : Session) (t : Table) where
  pub claim_row-IsStep :
      (o : Option ScrapeQueue)
      → ((q : ScrapeQueue)
          → o ≡ some q
          → (find q.id t ≡ some q) × (is_status q.status pending ≡ true) × Makes op q.id starts)
      → IsStep op t (Repository.claim_row s t o).1
  claim_row-IsStep none rows = IsStep-refl op t
  claim_row-IsStep (some q) rows =
      let (found, waits, makes) = rows q refl in
      let m =
        move_from op q.id q.status pending in_progress (is_status-eq q.status pending waits) starts
          makes in
      save-IsStep op t (Repository.claimed s q) q m.0 found m.1

  -- An operation on the row of an id, which is in the status a.
  found-IsStep :
      (j : ℕ) (a : ScrapeStatus) (change : ScrapeQueue → Table)
      → (status_of j t ≡ none) ⊎ (status_of j t ≡ some a)
      → ((q : ScrapeQueue)
          → q.id ≡ j
          → find q.id t ≡ some q
          → q.status ≡ a
          → IsStep op t (change q))
      → (o : Option ScrapeQueue) → find j t ≡ o
      → IsStep op t (on_row o t change)
  found-IsStep j a change guard steps none e = IsStep-refl op t
  found-IsStep j a change (inl absent) steps (some q) e = absurd (cc (rw e at absent))
  found-IsStep j a change (inr at_a) steps (some q) e =
      let same = find-id j t q e in
      steps q same (subst (λ i. find i t ≡ some q) (sym same) e) (eq_of_some (rw e at at_a))

  pub with_row-on_row :
      (j : ℕ) (operation : String) (change : ScrapeQueue → ScrapeQueue)
      → (Repository.with_row (Repository.get_job_or_raise j operation t) t change).1
        ≡ on_row (find j t) t (λ q. save (change q) t)
  with_row-on_row j operation change = elim (Option-cases (find j t)) [
    | inl absent ↦ rw (absent, Repository.get_job_or_raise) refl
    | inr (q, found) ↦ rw (found, Repository.get_job_or_raise) refl
  ]

  pub marked-IsStep :
      (j : ℕ) (a : ScrapeStatus) (change : ScrapeQueue → ScrapeQueue)
      → (status_of j t ≡ none) ⊎ (status_of j t ≡ some a)
      → ((q : ScrapeQueue) → (change q).id ≡ q.id)
      → ((q : ScrapeQueue) → (m : Transition a (change q).status) × Makes op j m)
      → IsStep op t (on_row (find j t) t (λ q. save (change q) t))
  marked-IsStep j a change guard keeps may =
      found-IsStep j a (λ q. save (change q) t) guard
        (λ q same found at_a.
          let m = move_from op j q.status a (change q).status at_a (may q).0 (may q).1 in
          save-IsStep op t (change q) q m.0 (subst (λ i. find i t ≡ some q) (sym (keeps q)) found)
            (subst (λ i. Makes op i m.0) (sym (keeps q ∙ same)) m.1))
        (find j t) refl

  pub job_marked-IsStep {ℓ} :
      {A : Type ℓ} (operation : String) (value : ScrapeQueue → Outcome A) (j : ℕ) (a : ScrapeStatus)
      (change : ScrapeQueue → ScrapeQueue)
      → (status_of j t ≡ none) ⊎ (status_of j t ≡ some a)
      → ((q : ScrapeQueue) → (change q).id ≡ q.id)
      → ((q : ScrapeQueue) → (m : Transition a (change q).status) × Makes op j m)
      → IsStep op t (
          on_row
            (find j t)
            t
            (λ q. (repo_error_context operation s t (value q, save (change q) t)).1))
  job_marked-IsStep operation value j a change guard keeps may = elim (Bool-cases s.reachable) [
    | inl up ↦ rw up (marked-IsStep j a change guard keeps may)
    | inr down ↦
        rw down
          (found-IsStep j a (λ q. t) guard (λ q same found at_a. IsStep-refl op t) (find j t) refl)
  ]

  pub released-IsStep :
      (test : ScrapeQueue → Bool)
      → ((r : ScrapeQueue)
          → test r ≡ true
          → (is_status r.status in_progress ≡ true) × Makes op r.id gives_back)
      → IsStep op t (update_where test Repository.released t)
  released-IsStep test may =
      update_where-IsStep op t test Repository.released (λ r. refl)
        (λ r e.
          let (running, makes) = may r e in
          move_from op r.id r.status in_progress pending (is_status-eq r.status in_progress running)
            gives_back makes)

pub failed_row-fails :
    (j : ℕ) (error : String) (ceiling : ℕ) (s : Session) (q : ScrapeQueue)
    → (m : Transition in_progress (JobRepository.failed_row error ceiling s q).status) × Makes
        (job_mark_failed j error ceiling)
        j
        m
failed_row-fails j error ceiling s q = elim (Bool-cases (leb ceiling (q.retry_count + 1))) [
  | inl last ↦ rw last (fails, refl)
  | inr more ↦ rw more (gives_back, refl)
]

pub retried_row-fails :
    (j : ℕ) (error : String) (ceiling : ℕ) (s : Session) (q : ScrapeQueue)
    → (m : Transition in_progress (PlayerInfo.retried_row error ceiling s q).status) × Makes
        (info_mark_failed j error ceiling)
        j
        m
unfolding is_terminal
retried_row-fails j error ceiling s q =
    elim (Bool-cases (leb ceiling (q.retry_count + 1 - 1 + 1))) [
      | inl last ↦ rw last (fails, refl)
      | inr more ↦ rw more (gives_back, refl)
    ]
