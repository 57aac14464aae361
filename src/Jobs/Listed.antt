-- ===== src/Jobs/Listed.antt =====
-- infrastructure/persistence/repositories/scrape_queue.py, list_pending: the rows of a batch are
-- pending rows of the table, each once.
use sport_crawl.Prelude.{
  ℕ, zero, suc, ◌≤◌, Bool, true, some, [], ◌∷◌, ◌≡◌, refl, inl, inr, Bool-cases, arith, ◌==◌,
  ==_iff, count, select, take, All,
}
use sport_crawl.Queue.Table.{
  pending, ScrapeQueue, Table, Session, find, insert_by_id, order_by_id, ids,
}
use sport_crawl.Queue.Table.Order.{All-order_by_id}
use sport_crawl.Queue.JobRepository.{is_free}
use sport_crawl.Queue.Table.Totals.{IsUnique, IsUnique-tail, find-count}

count-select :
    (test : ScrapeQueue → Bool) (j : ℕ) (t : Table)
    → count j (ids (select test t)) ≤ count j (ids t)
count-select test j [] = omega arith
count-select test j (r ∷ rest) = ground (arith, count-select test j rest)

count-take : (n j : ℕ) (t : Table) → count j (ids (take n t)) ≤ count j (ids t)
count-take zero j t = omega arith
count-take (suc n) j [] = omega arith
count-take (suc n) j (r ∷ rest) = ground (arith, count-take n j rest)

count-insert_by_id :
    (j : ℕ) (x : ScrapeQueue) (t : Table) → count j (ids (insert_by_id x t)) ≡ count j (ids (x ∷ t))
unfolding insert_by_id
count-insert_by_id j x [] = refl
count-insert_by_id j x (r ∷ rest) = ground (arith, count-insert_by_id j x rest)

count-order_by_id : (j : ℕ) (t : Table) → count j (ids (order_by_id t)) ≡ count j (ids t)
unfolding order_by_id
count-order_by_id j [] = refl
count-order_by_id j (r ∷ rest) =
    let ih = count-order_by_id j rest in
    let step = count-insert_by_id j r (order_by_id rest) in ground (arith, step, ih)

All-take : (P : ScrapeQueue → Type 0) (n : ℕ) (t : Table) → All P t → All P (take n t)
All-take P zero t h = tt
All-take P (suc n) [] h = tt
All-take P (suc n) (r ∷ rest) h = (h.0, All-take P n rest h.1)

All-under :
    (P Q : ScrapeQueue → Type 0) (t : Table) → ((r : ScrapeQueue) → P r → Q r) → All P t → All Q t
All-under P Q [] f h = tt
All-under P Q (r ∷ rest) f h = (f r h.0, All-under P Q rest f h.1)

All-found : (t : Table) → IsUnique t → All (λ r. find r.id t ≡ some r) t
unfolding find
All-found [] u = tt
All-found (r ∷ rest) u = (
  simp ((==_iff r.id r.id).1 refl) refl,
  All-under (λ x. find x.id rest ≡ some x) (λ x. find x.id (r ∷ rest) ≡ some x) rest
      (λ x found. elim (Bool-cases (r.id == x.id)) [
        | inl same ↦
            let one = find-count x.id rest x found in
            let most = u x.id in absurd (ground (arith, one, most, same))
        | inr other ↦ simp other found
      ])
      (All-found rest (IsUnique-tail r rest u)),
)

-- A row of a batch: the table's pending row of its id.
abbrev pub IsListed : Table → ScrapeQueue → Type 0
IsListed t r = (find r.id t ≡ some r) × (r.status ≡ pending)

free_pending : (session : Session) (r : ScrapeQueue) → is_free session r ≡ true → r.status ≡ pending
free_pending session r h = ground arith

All-select_found :
    (session : Session) (t rows : Table)
    → All (λ r. find r.id t ≡ some r) rows
    → All (IsListed t) (select (is_free session) rows)
All-select_found session t [] h = tt
All-select_found session t (r ∷ rest) h = elim (Bool-cases (is_free session r)) [
  | inl free ↦ simp free ((h.0, free_pending session r free), All-select_found session t rest h.1)
  | inr other ↦ simp other (All-select_found session t rest h.1)
]

module _ (limit : ℕ) (session : Session) (t : Table) (u : IsUnique t) where
  pub All-IsListed : All (IsListed t) (take limit (order_by_id (select (is_free session) t)))
  All-IsListed = All-take (IsListed t) limit (order_by_id (select (is_free session) t)) (
      All-order_by_id (IsListed t) (select (is_free session) t)
        (All-select_found session t t (All-found t u)))

  pub take-IsUnique : IsUnique (take limit (order_by_id (select (is_free session) t)))
  take-IsUnique j =
      let a = count-take limit j (order_by_id (select (is_free session) t)) in
      let b = count-order_by_id j (select (is_free session) t) in
      let c = count-select (is_free session) j t in let d = u j in omega (arith, a, b, c, d)
