-- ===== src/Queue/Claims.antt =====
-- What claiming promises: the oldest claimable job, taken by one claimer only.
use mathlib.Core.Path.{subst}
use mathlib.Core.List.{Memᴰ}
use sport_crawl.Prelude.{
  ◌≤◌, String, Bool, true, false, Option, none, some, [], ◌∷◌, ◌≡◌, ◌≢◌, ◌↔◌, refl, sym, arith,
  ◌==◌, ◌&&◌, All, Bool-cases, inl, inr, select,
}
use sport_crawl.Queue.Table.{
  pending, in_progress, is_status, ScrapeQueue, Table, Outcome, ok, Session, save, first_row,
  order_by_id, repo_error_context,
}
use sport_crawl.Queue.Table.Order.{first_row-some, first_row-none}
use sport_crawl.Queue.Repository.{is_claimable, claimed, claim_row, claim_next, claim_by_id}

abbrev pub IsClaimable : String → Session → ScrapeQueue → Type 0
IsClaimable job_type s q = is_claimable job_type s q ≡ true

context-inv {ℓ} :
    {A : Type ℓ} (operation : String) (s : Session) (t : Table) (body : Outcome A × Table) (a : A)
    (u : Table)
    → repo_error_context operation s t body ≡ (ok a, u)
    → body ≡ (ok a, u)
context-inv operation s t body a u h = elim (Bool-cases s.reachable) [
  | inl up ↦ rw up at h
  | inr down ↦ absurd (cc (rw down at h))
]

-- A claim that found a row: the row, what is returned and what is written.
record Granted (s : Session) (t : Table) (o : Option ScrapeQueue) (r : ScrapeQueue) (u : Table)
    : Type 0 where
  row : ScrapeQueue
  found : o ≡ some row
  returned : claimed s row ≡ r
  written : save (claimed s row) t ≡ u

claim_row-inv :
    (s : Session) (t : Table) (o : Option ScrapeQueue) (r : ScrapeQueue) (u : Table)
    → claim_row s t o ≡ (ok (some r), u)
    → Granted s t o r u
claim_row-inv s t none r u h = absurd (cc)
claim_row-inv s t (some row) r u h = record { row = row; found = refl; returned = cc; written = cc }

saved-not-pending :
    (row : ScrapeQueue)
    → is_status row.status pending ≡ false
    → (t : Table) → All (λ x. x.id ≡ row.id → is_status x.status pending ≡ false) (save row t)
unfolding save
saved-not-pending row p [] = tt
saved-not-pending row p (q ∷ rest) = (ground arith, saved-not-pending row p rest)

module _ (job_type : String) (s : Session) (t : Table) (r : ScrapeQueue) (u : Table)
    (h : claim_next job_type s t ≡ (ok (some r), u)) where
  claim_next-Granted : Granted s t (first_row (is_claimable job_type s) t) r u
  unfolding claim_next
  claim_next-Granted = claim_row-inv s t _ r u (context-inv "claim_next" s t _ (some r) u h)

  -- The job that claim_next returns was claimable and is the one with the smallest id among the
  -- claimable ones; it is returned IN_PROGRESS with the current time as its lock, and only it is
  -- written to the table.
  pub claim_next_oldest :
      (q : ScrapeQueue) × Memᴰ q t
      × IsClaimable job_type s q
      × All (λ x. IsClaimable job_type s x → q.id ≤ x.id) t
      × (r ≡ record q { status = in_progress; locked_at = some s.now })
      × (u ≡ save r t)
  claim_next_oldest =
      let c = claim_next-Granted in
      let first = first_row-some (is_claimable job_type s) t c.row c.found in
      (c.row, first.1, first.0, first.2, sym c.returned, rw (← c.returned) (sym c.written))

  -- After a claim no row with the claimed id is PENDING.
  not-pending : All (λ x. x.id ≡ r.id → is_status x.status pending ≡ false) u
  unfolding save
  not-pending =
      let c = claim_next-Granted in
      subst (λ v. All (λ x. x.id ≡ r.id → is_status x.status pending ≡ false) v) c.written
        (subst
          (λ v.
            All (λ x. x.id ≡ v.id → is_status x.status pending ≡ false) (save (claimed s c.row) t))
          c.returned (saved-not-pending (claimed s c.row) refl t))

All-at : (P : ScrapeQueue → Type 0) (q : ScrapeQueue) (t : Table) → All P t → Memᴰ q t → P q
All-at P q [] h m = elim m [ ]
All-at P q (r ∷ rest) h (Memᴰ.head e) = subst P (sym e) h.0
All-at P q (r ∷ rest) h (Memᴰ.tail m) = All-at P q rest h.1 m

select-none :
    (test : ScrapeQueue → Bool) (t : Table) → All (λ x. test x ≡ false) t → select test t ≡ []
select-none test [] h = refl
select-none test (r ∷ rest) h = ground (arith, select-none test rest h.1)

All-implies :
    (P Q : ScrapeQueue → Type 0) → ((x : ScrapeQueue) → P x → Q x) → (t : Table) → All P t → All Q t
All-implies P Q f [] h = tt
All-implies P Q f (r ∷ rest) h = (f r h.0, All-implies P Q f rest h.1)

-- Two claims that succeed one after the other, by any two workers, of any job types, whatever each
-- of them finds locked, are claims of different jobs.
pub claim_next_exclusive :
    (job_type job_type' : String) (s s' : Session) (t u v : Table) (r r' : ScrapeQueue)
    → claim_next job_type s t ≡ (ok (some r), u)
    → claim_next job_type' s' u ≡ (ok (some r'), v)
    → r.id ≢ r'.id
claim_next_exclusive job_type job_type' s s' t u v r r' h h' same =
    let (q, member, claimable, _, e, _) = claim_next_oldest job_type' s' u r' v h' in
    let id : q.id ≡ r.id = cc in
    let closed : is_status q.status pending ≡ false =
      All-at (λ x. x.id ≡ r.id → is_status x.status pending ≡ false) q u
        (not-pending job_type s t r u h) member id in
    ground arith

-- A worker that was handed the id of a job that claim_next has claimed since is refused: its
-- claim_by_id returns None and changes nothing.
pub claim_by_id-claim_next :
    (job_type job_type' : String) (s s' : Session) (t u : Table) (r : ScrapeQueue)
    → claim_next job_type s t ≡ (ok (some r), u)
    → s'.reachable ≡ true
    → claim_by_id job_type' r.id s' u ≡ (ok none, u)
unfolding claim_by_id
claim_by_id-claim_next job_type job_type' s s' t u r h up = rw up (
    rw (
      select-none (λ x. x.id == r.id && is_claimable job_type' s' x) u
        (All-implies _ _ (λ x k. ground (arith)) u (not-pending job_type s t r u h))))

no_row :
    (s : Session) (t : Table) (o : Option ScrapeQueue) → claim_row s t o ≡ (ok none, t) → o ≡ none
no_row s t none h = refl
no_row s t (some r) h = absurd (cc)

-- claim_next returns None exactly when no row of the table is claimable, and then changes nothing.
pub claim_next-none :
    (job_type : String) (s : Session) (t : Table)
    → s.reachable ≡ true
    → (claim_next job_type s t ≡ (ok none, t)) ↔ All (λ x. is_claimable job_type s x ≡ false) t
unfolding claim_next
claim_next-none job_type s t up = (
  (λ h.
      All-implies _ _ (λ x k. ground arith) t
        (first_row-none (is_claimable job_type s) t
          (no_row s t (first_row (is_claimable job_type s) t) (rw up at h)))),
  λ h. rw up (rw (select-none (is_claimable job_type s) t h) (unfold order_by_id in refl)),
)
