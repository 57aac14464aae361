-- ===== src/Crawl/Running.antt =====
-- scripts/scrape_player_info.py: how a claim, the handling of the claimed job and its release change
-- the number of rows in each status.
use mathlib.Core.List.{Memᴰ}
use mathlib.Core.Path.{subst}
use sport_crawl.Prelude.{
  ℕ, ◌+◌, Bool, true, false, Option, none, some, [], ◌∷◌, ◌≡◌, refl, sym, ap, ◌∙◌, inl, inr,
  Bool-cases, arith, ◌==◌, ◌&&◌, ==_iff, if◌then◌else◌, eq_of_some, select, head?, count, eq_iff,
}
use sport_crawl.Queue.Table.{
  ScrapeStatus, pending, in_progress, is_status, ScrapeQueue, Table, Outcome, ok, err, Session,
  find, save, update_where, ids, first_row,
}
use sport_crawl.Queue.Table.Totals.{
  total, IsUnique, IsUnique-tail, save-IsUnique, save_absent, find-save_same, find-of_Mem,
  total-save,
}
use sport_crawl.Queue.Table.Order.{first_row-some, head?-select}
use sport_crawl.Queue.Table.Writes.{is_status-eq}
use sport_crawl.Queue.Repository
use sport_crawl.Queue.Repository.{is_claimable, claimed, claim_row, released, claim_by_id}
use sport_crawl.Queue.PlayerInfo.{is_held, claim_next}

abbrev pub unit : ScrapeStatus → ScrapeStatus → ℕ
unit x y = if is_status y x then 1 else 0

-- The number of rows in a status.
abbrev pub count_status : ScrapeStatus → Table → ℕ
count_status x t = total (λ r. unit x r.status) t

-- What a claim leaves: a player_info row in hand, IN_PROGRESS, or the table as it was.
abbrev pub IsClaim : Table → Outcome (Option ScrapeQueue) × Table → Type 0
IsClaim t (err e, u) = u ≡ t
IsClaim t (ok none, u) = u ≡ t
IsClaim t (ok (some r), u) =
    (find r.id u ≡ some r)
    × (r.job_type ≡ "player_info")
    × (r.status ≡ in_progress)
    × IsUnique u
    × ((x : ScrapeStatus)
        → count_status x u + unit x pending ≡ count_status x t + unit x in_progress)

-- A write of a row in another status.
pub count_status-save :
    (x : ScrapeStatus) (row q : ScrapeQueue) (t : Table)
    → IsUnique t
    → find row.id t ≡ some q
    → count_status x (save row t) + unit x q.status ≡ count_status x t + unit x row.status
count_status-save x row q t u found = total-save (λ r. unit x r.status) row q t u found

claim_row-some :
    (s : Session) (t : Table) (q : ScrapeQueue)
    → IsUnique t
    → find q.id t ≡ some q
    → is_claimable "player_info" s q ≡ true
    → IsClaim t (claim_row s t (some q))
claim_row-some s t q u found claimable =
    let waits : q.status ≡ pending = is_status-eq q.status pending (ground arith) in
    (
      find-save_same (claimed s q) q t found,
      (eq_iff q.job_type "player_info").0 (ground arith),
      refl,
      save-IsUnique (claimed s q) t u,
      λ x.
          subst
            (λ y.
              count_status x (save (claimed s q) t) + unit x y
              ≡ count_status x t + unit x in_progress)
            waits (count_status-save x (claimed s q) q t u found),
    )

claim_row-IsClaim :
    (s : Session) (t : Table) (o : Option ScrapeQueue)
    → IsUnique t
    → ((q : ScrapeQueue) → o ≡ some q → Memᴰ q t × (is_claimable "player_info" s q ≡ true))
    → IsClaim t (claim_row s t o)
claim_row-IsClaim s t none u rows = refl
claim_row-IsClaim s t (some q) u rows =
    let (member, claimable) = rows q refl in
    claim_row-some s t q u (find-of_Mem q t u member) claimable

pub claim_next-IsClaim : (s : Session) (t : Table) → IsUnique t → IsClaim t (claim_next s t)
unfolding claim_next Repository.claim_next
claim_next-IsClaim s t u = elim (Bool-cases s.reachable) [
  | inl up ↦ rw up (
      claim_row-IsClaim s t (first_row (is_claimable "player_info" s) t) u (λ q e.
        let first = first_row-some (is_claimable "player_info" s) t q e in (first.1, first.0)))
  | inr down ↦ rw down refl
]

pub claim_by_id-IsClaim :
    (i : ℕ) (s : Session) (t : Table) → IsUnique t → IsClaim t (claim_by_id "player_info" i s t)
unfolding claim_by_id
claim_by_id-IsClaim i s t u =
    let test = λ (r : ScrapeQueue). r.id == i && is_claimable "player_info" s r in
    elim (Bool-cases s.reachable) [
      | inl up ↦ rw up (
          claim_row-IsClaim s t (head? (select test t)) u
            (λ q e. let h = head?-select test t q e in (h.0, ground arith)))
      | inr down ↦ rw down refl
    ]

-- A change of the one row that an UPDATE meets is its flush.
update_where-save :
    (test : ScrapeQueue → Bool) (change : ScrapeQueue → ScrapeQueue) (q : ScrapeQueue) (t : Table)
    → IsUnique t
    → ((r : ScrapeQueue) → test r ≡ true → r.id ≡ q.id)
    → test q ≡ true
    → (change q).id ≡ q.id
    → find q.id t ≡ some q
    → update_where test change t ≡ save (change q) t
unfolding update_where save find
update_where-save test change q [] u only meets same found = absurd (cc)
update_where-save test change q (r ∷ rest) u only meets same found =
    elim (Bool-cases (r.id == q.id)) [
      | inl here ↦
          let e : r ≡ q = eq_of_some (rw here at found) in
          let once : count q.id (ids rest) ≡ 0 = let c = u q.id in ground (arith, here, c) in
          simp (e, meets, same, (==_iff q.id q.id).1 refl)
            (ap (λ v. change q ∷ v)
              (unmet test change q rest only once
                ∙ sym (save_absent (change q) rest (simp same once))))
      | inr other ↦
          let not_met : test r ≡ false = elim (Bool-cases (test r)) [
            | inl met ↦ absurd (let i = only r met in ground arith)
            | inr n ↦ n
          ] in
          let rest_eq =
            update_where-save test change q rest (IsUnique-tail r rest u) only meets same
              (rw other at found) in
          simp (not_met, same, other) (ap (λ v. r ∷ v) rest_eq)
    ]
  where
    unmet :
        (test : ScrapeQueue → Bool) (change : ScrapeQueue → ScrapeQueue) (q : ScrapeQueue)
        (t : Table)
        → ((r : ScrapeQueue) → test r ≡ true → r.id ≡ q.id)
        → count q.id (ids t) ≡ 0
        → update_where test change t ≡ t
    unmet test change q [] only absent = refl
    unmet test change q (r ∷ rest) only absent = elim (Bool-cases (test r)) [
      | inl met ↦ absurd (let i = only r met in ground arith)
      | inr n ↦ simp n (ap (λ v. r ∷ v) (unmet test change q rest only (ground arith)))
    ]

-- What a database holds in a status once the job in hand has been let go: one row less IN_PROGRESS,
-- one row more in the status that the job went to.
abbrev pub IsLetGo : ScrapeStatus → Table → Table → Type 0
IsLetGo y t v =
    IsUnique v
    × ((x : ScrapeStatus) → count_status x v + unit x in_progress ≡ count_status x t + unit x y)

module _ (q : ScrapeQueue) (t : Table) (u : IsUnique t) (found : find q.id t ≡ some q)
    (held : q.status ≡ in_progress) where
  pub save-IsLetGo :
      (row : ScrapeQueue) (y : ScrapeStatus) (v : Table)
      → row.id ≡ q.id
      → row.status ≡ y
      → v ≡ save row t
      → IsLetGo y t v
  save-IsLetGo row y v same at_y written =
      subst (λ w. IsLetGo y t w) (sym written)
        (
          save-IsUnique row t u,
          λ x.
              subst (λ a. count_status x (save row t) + unit x a ≡ count_status x t + unit x y) held
                (subst
                  (λ b. count_status x (save row t) + unit x q.status ≡ count_status x t + unit x b)
                  at_y
                  (count_status-save x row q t u
                    (subst (λ i. find i t ≡ some q) (sym same) found))),
        )

  pub release_to_pending-IsLetGo :
      q.job_type ≡ "player_info" → IsLetGo pending t (update_where (is_held q.id) released t)
  release_to_pending-IsLetGo kind = save-IsLetGo (released q) pending _ refl refl (
      update_where-save (is_held q.id) released q t u (λ r h. (==_iff r.id q.id).0 (ground arith))
        (simp ((==_iff q.id q.id).1 refl, held, (eq_iff q.job_type "player_info").1 kind) refl) refl
        found)
