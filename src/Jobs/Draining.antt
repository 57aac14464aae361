-- ===== src/Jobs/Draining.antt =====
-- infrastructure/jobs/job_loop.py, drain: it comes to an end.
use mathlib.Core.Path.{subst}
use sport_crawl.Prelude.{
  ℕ, zero, suc, ◌+◌, ◌<◌, ◌≤◌, true, some, List, [], ◌∷◌, ◌≡◌, ◌≢◌, refl, sym, ap, ◌∙◌, inl, inr,
  Bool-cases, arith, ◌==◌, ==_iff, count, All, length, select, take,
}
use sport_crawl.Queue.Table.{ScrapeQueue, Table, Outcome, ok, err, find, order_by_id, ids}
use sport_crawl.Queue.JobRepository.{is_free, list_pending}
use sport_crawl.Jobs.Loop.{
  Store, Meets, Batch, process, gather, run_batch, Drained, total, raises, out_of_fuel, after_batch,
  drain_loop, drain,
}
use sport_crawl.Queue.Table.Totals.{
  IsUnique, IsUnique-tail, save-IsUnique, find-save_other, total-save,
}
use sport_crawl.Jobs.Saved.{row_work, work}
use sport_crawl.Jobs.Listed.{IsListed, All-IsListed, take-IsUnique}
use sport_crawl.Jobs.Progress.{process-IsProcessed, IsLeft-row_work}

module _ (run_id ceiling : ℕ) where
  process_step :
      (r : ScrapeQueue) (meets : Meets) (store : Store)
      → meets.first.reachable ≡ true
      → IsUnique store.rows
      → IsListed store.rows r
      → let rows = (process r.id r.url run_id ceiling meets store).1.rows in
        IsUnique rows
        × (work ceiling rows < work ceiling store.rows)
        × ((j : ℕ) → j ≢ r.id → find j rows ≡ find j store.rows)
  process_step r meets store up u (found, is_pending) =
      let (row, same_id, rows, left) =
        process-IsProcessed r.id r.url run_id ceiling meets store r up found in
      let less =
        IsLeft-row_work r row r.url run_id ceiling store.provenance
          (process r.id r.url run_id ceiling meets store).1.provenance
          (process r.id r.url run_id ceiling meets store).0 is_pending left in
      let here : find row.id store.rows ≡ some r =
        subst (λ k. find k store.rows ≡ some r) (sym same_id) found in
      let sum = total-save (row_work ceiling) row r store.rows u here in
      (
        subst IsUnique (sym rows) (save-IsUnique row store.rows u),
        subst (λ t. work ceiling t < work ceiling store.rows) (sym rows) (omega (arith, less, sum)),
        λ j other. ap (find j) rows ∙ find-save_other j row store.rows (λ e. other (e ∙ same_id)),
      )

  still-IsListed :
      (before after : Table) (i : ℕ) (rest : List ScrapeQueue)
      → count i (ids rest) ≡ 0
      → ((j : ℕ) → j ≢ i → find j after ≡ find j before)
      → All (IsListed before) rest
      → All (IsListed after) rest
  still-IsListed before after i [] absent same h = tt
  still-IsListed before after i (r ∷ rest) absent same h = elim (Bool-cases (r.id == i)) [
    | inl here ↦ absurd (ground (arith, absent, here))
    | inr other ↦
        let differs : r.id ≢ i = λ e. absurd (ground (arith, other, e)) in
        let later : count i (ids rest) ≡ 0 = ground (arith, absent, other) in
        ((same r.id differs ∙ h.0.0, h.0.1), still-IsListed before after i rest later same h.1)
  ]

  gather-work :
      (rows : List ScrapeQueue) (meets : ℕ → Meets) (store : Store)
      → ((i : ℕ) → (meets i).first.reachable ≡ true)
      → IsUnique store.rows
      → IsUnique rows
      → All (IsListed store.rows) rows
      → let store' = gather rows run_id ceiling meets store in
        IsUnique store'.rows × (work ceiling store'.rows + length rows ≤ work ceiling store.rows)
  unfolding gather
  gather-work [] meets store up u distinct h = (u, omega arith)
  gather-work (r ∷ rest) meets store up u distinct h =
      let (u', less, same) = process_step r (meets r.id) store (up r.id) u h.0 in
      let absent : count r.id (ids rest) ≡ 0 =
        let most = distinct r.id in
        let here = (==_iff r.id r.id).1 refl in ground (arith, most, here) in
      let (u'', more) =
        gather-work rest meets (process r.id r.url run_id ceiling (meets r.id) store).1 up u'
          (IsUnique-tail r rest distinct)
          (still-IsListed store.rows (process r.id r.url run_id ceiling (meets r.id) store).1.rows
            r.id rest absent same h.1) in
      (u'', omega (arith, less, more))

-- What a batch leaves of the work, when it has run.
abbrev IsWorked : ℕ → Store → Outcome ℕ → Store → Type 0
IsWorked ceiling before (ok n) after =
    IsUnique after.rows × (work ceiling after.rows + n ≤ work ceiling before.rows)
IsWorked ceiling before (err e) after = after ≡ before

-- What drain leaves: its total is covered by the work that is gone, and it has an end.
abbrev pub IsDrained : ℕ → ℕ → Store → Drained → Store → Type 0
IsDrained ceiling sum before (total n) after =
    n + work ceiling after.rows ≤ sum + work ceiling before.rows
IsDrained ceiling sum before (raises e) after = Unit
IsDrained ceiling sum before out_of_fuel after = ⊥

IsDrained-more :
    (ceiling : ℕ) (before store : Store) (sum n : ℕ) (result : Drained) (after : Store)
    → work ceiling store.rows + suc n ≤ work ceiling before.rows
    → IsDrained ceiling (sum + suc n) store result after
    → IsDrained ceiling sum before result after
IsDrained-more ceiling before store sum n (total m) after less h = omega (arith, less, h)
IsDrained-more ceiling before store sum n (raises e) after less h = tt
IsDrained-more ceiling before store sum n out_of_fuel after less h = h

run_batch-IsWorked :
    (batch_size ceiling : ℕ) (batch : Batch) (store : Store)
    → ((i : ℕ) → (batch.meets i).first.reachable ≡ true)
    → IsUnique store.rows
    → let (answer, store') = run_batch batch_size ceiling batch store in
      IsWorked ceiling store answer store'
unfolding run_batch list_pending
run_batch-IsWorked batch_size ceiling batch store up u = elim (Bool-cases batch.listing.reachable) [
  | inl listed ↦ simp listed (
      gather-work batch.run_id ceiling
        (take batch_size (order_by_id (select (is_free batch.listing) store.rows))) batch.meets
        store up u (take-IsUnique batch_size batch.listing store.rows u)
        (All-IsListed batch_size batch.listing store.rows u))
  | inr down ↦ simp down refl
]

module _ (batch_size ceiling : ℕ) (batches : ℕ → Batch)
    (up : (n i : ℕ) → ((batches n).meets i).first.reachable ≡ true) where
  after_batch-IsDrained :
      (fuel i sum : ℕ) (before : Store) (answer : Outcome ℕ) (store : Store)
      → ((i sum : ℕ) (store : Store)
          → IsUnique store.rows
          → work ceiling store.rows < fuel
          → let (result, store') = drain_loop fuel batch_size ceiling batches i sum store in
            IsDrained ceiling sum store result store')
      → work ceiling before.rows < suc fuel
      → IsWorked ceiling before answer store
      → let (result, store') =
          after_batch answer store sum
            (λ sum'. drain_loop fuel batch_size ceiling batches i sum' store) in
        IsDrained ceiling sum before result store'
  after_batch-IsDrained fuel i sum before (err e) store loop enough h = tt
  after_batch-IsDrained fuel i sum before (ok zero) store loop enough h = omega (arith, h.1)
  after_batch-IsDrained fuel i sum before (ok (suc n)) store loop enough h =
      IsDrained-more ceiling before store sum n
        (drain_loop fuel batch_size ceiling batches i (sum + suc n) store).0
        (drain_loop fuel batch_size ceiling batches i (sum + suc n) store).1 h.1
        (loop i (sum + suc n) store h.0 (omega (arith, enough, h.1)))

  drain_loop-IsDrained :
      (fuel i sum : ℕ) (store : Store)
      → IsUnique store.rows
      → work ceiling store.rows < fuel
      → let (result, store') = drain_loop fuel batch_size ceiling batches i sum store in
        IsDrained ceiling sum store result store'
  unfolding drain_loop
  drain_loop-IsDrained zero i sum store u enough = absurd (omega (arith, enough))
  drain_loop-IsDrained (suc fuel) i sum store u enough = elim (Bool-cases (batches i).stopped) [
    | inl stop ↦ simp stop (omega arith)
    | inr go ↦ simp go (
        after_batch-IsDrained fuel (i + 1) sum store
          (run_batch batch_size ceiling (batches i) store).0
          (run_batch batch_size ceiling (batches i) store).1 (drain_loop-IsDrained fuel) enough
          (run_batch-IsWorked batch_size ceiling (batches i) store (up i) u))
  ]

  -- Fuel for one more batch than there is work is enough: when the first transaction of every job
  -- reaches the database, drain ends with its total or with the error of a listing, and the jobs it
  -- counts are covered by the work that is gone.
  pub drain-IsDrained :
      (fuel : ℕ) (store : Store)
      → IsUnique store.rows
      → work ceiling store.rows < fuel
      → let (result, store') = drain fuel batch_size ceiling batches store in
        IsDrained ceiling 0 store result store'
  unfolding drain
  drain-IsDrained fuel store u enough = drain_loop-IsDrained fuel 0 0 store u enough
