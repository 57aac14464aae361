-- ===== src/Crawl/Drained.antt =====
-- scripts/scrape_player_info.py, _startup_drain: it ends, and how many jobs it can schedule.
use mathlib.Core.List.{Memᴰ}
use sport_crawl.Prelude.{
  ℕ, zero, suc, ◌+◌, ◌≤◌, ◌<◌, true, false, Option, none, some, [], ◌∷◌, ◌++◌, ◌≡◌, refl, arith,
  All, length, Bool-cases, inl, inr, ◌==◌, eq_iff, ==_iff,
}
use sport_crawl.Queue.Table.{Session, update_where, count_where}
use sport_crawl.Queue.UrlTable.{BackendUrlRow, UrlTable}
use sport_crawl.Server.Adapter.{Database}
use sport_crawl.Teams.Claim.{member}
use sport_crawl.Crawl.Startup.{
  due_candidates, Statement, is_key, is_finished, rescheduled, player_job, wrote, insert_candidate,
  and_then, insert_candidates, Drained, drained, raised, running, after_batch, run_batch,
  startup_drain,
}
use sport_crawl.Crawl.Candidates.{due_candidates-Mem}
use sport_crawl.Crawl.Schedulable.{
  is_done_info, schedulable, count_where-append, missing-update_where, done-update_where,
  missing-append_of_Mem,
}

module _ (urls : UrlTable) where
  -- What a statement has written is gone from what can be scheduled.
  abbrev spent : Statement → ℕ
  spent s = length s.written + schedulable urls s.database.rows

  abbrev IsPaid : Statement → Option Statement → Type 0
  IsPaid s none = Unit
  IsPaid s (some s') = spent s' ≤ spent s

  wrote_new-IsPaid :
      (b : BackendUrlRow) (s : Statement)
      → Memᴰ b urls
      → count_where (is_key b) s.database.rows ≡ 0
      → spent (wrote b (s.database.rows ++ player_job b s.database.next_id ∷ []) s) ≤ spent s
  wrote_new-IsPaid b s m absent =
      let rows = s.database.rows in
      let row = player_job b s.database.next_id in
      let key : is_key b row ≡ true = let u = (eq_iff b.url b.url).1 refl in ground (arith, u) in
      let gone = missing-append_of_Mem row rows b urls m absent key in
      let same = count_where-append is_done_info rows (row ∷ []) in omega (arith, gone, same)

  wrote_done-IsPaid :
      (b : BackendUrlRow) (s : Statement)
      → (count_where (is_finished b) s.database.rows == 0) ≡ false
      → spent (wrote b (update_where (is_finished b) (rescheduled b) s.database.rows) s) ≤ spent s
  wrote_done-IsPaid b s some_there =
      let rows = s.database.rows in
      let same = missing-update_where b urls rows in
      let gone = done-update_where b rows in
      let one : 1 ≤ count_where (is_finished b) rows = ground (arith, some_there) in
      omega (arith, same, gone, one)

  insert_candidate-IsPaid :
      (b : BackendUrlRow) (s : Statement) → Memᴰ b urls → IsPaid s (insert_candidate b s)
  unfolding insert_candidate
  insert_candidate-IsPaid b s m =
      let rows = s.database.rows in
      elim (Bool-cases (member b.url s.written)) [
        | inl twice ↦ simp twice tt
        | inr once ↦ elim (Bool-cases (count_where (is_key b) rows == 0)) [
          | inl absent ↦
              simp (once, absent)
                (wrote_new-IsPaid b s m ((==_iff (count_where (is_key b) rows) 0).0 absent))
          | inr there ↦ elim (Bool-cases (count_where (is_finished b) rows == 0)) [
            | inl busy ↦ simp (once, there, busy) (omega arith)
            | inr finished ↦ simp (once, there, finished) (wrote_done-IsPaid b s finished)
          ]
        ]
      ]

  insert_candidates-IsPaid :
      (candidates : UrlTable) (s : Statement)
      → All (λ b. Memᴰ b urls) candidates
      → IsPaid s (insert_candidates candidates s)
  unfolding insert_candidates
  insert_candidates-IsPaid [] s h = omega arith
  insert_candidates-IsPaid (b ∷ rest) s h =
      go (insert_candidate b s) (insert_candidate-IsPaid b s h.0)
        (λ s'. insert_candidates-IsPaid rest s' h.1)
    where
      go :
          (o : Option Statement)
          → IsPaid s o
          → ((s' : Statement) → IsPaid s' (insert_candidates rest s'))
          → IsPaid s (and_then o (λ s'. insert_candidates rest s'))
      go none h later = tt
      go (some s') h later = weaken s' (insert_candidates rest s') h (later s')
        where
          weaken :
              (s' : Statement) (o : Option Statement)
              → spent s' ≤ spent s
              → IsPaid s' o
              → IsPaid s o
          weaken s' none h k = tt
          weaken s' (some t) h k = omega (arith, h, k)

-- How a drain that starts with the total n and m jobs to schedule ends: with a total that, with what
-- is left, is within n + m; or in an exception, with no more left than before. It does not go on.
abbrev pub IsDrained : UrlTable → ℕ → ℕ → Drained × Database → Type 0
IsDrained urls n m (drained total, db) = total + schedulable urls db.rows ≤ n + m
IsDrained urls n m (raised, db) = schedulable urls db.rows ≤ m
IsDrained urls n m (running, db) = ⊥

IsDrained-weaken :
    (urls : UrlTable) (n m n' m' : ℕ) (r : Drained × Database)
    → n' + m' ≤ n + m
    → m' ≤ m
    → IsDrained urls n' m' r
    → IsDrained urls n m r
IsDrained-weaken urls n m n' m' (drained total, db) sum most h = omega (arith, sum, h)
IsDrained-weaken urls n m n' m' (raised, db) sum most h = omega (arith, most, h)
IsDrained-weaken urls n m n' m' (running, db) sum most h = absurd h

module _ (batch_size : ℕ) (urls : UrlTable) (sessions : ℕ → Session) where
  run_batch-IsPaid :
      (s : Session) (db : Database)
      → IsPaid urls (record { database = db; written = [] }) (run_batch batch_size urls s db)
  run_batch-IsPaid s db = elim (Bool-cases s.reachable) [
    | inl up ↦ rw up (
        insert_candidates-IsPaid urls (due_candidates s.now batch_size urls db.rows)
          (record { database = db; written = [] })
          (due_candidates-Mem s.now batch_size urls db.rows))
    | inr down ↦ rw down tt
  ]

  after_batch-IsDrained :
      (o : Option Statement) (total : ℕ) (db : Database) (next : ℕ → Database → Drained × Database)
      → IsPaid urls (record { database = db; written = [] }) o
      → ((s : Statement)
          → 1 ≤ length s.written
          → length s.written + schedulable urls s.database.rows ≤ schedulable urls db.rows
          → IsDrained urls
              (total + length s.written)
              (schedulable urls s.database.rows)
              (next (total + length s.written) s.database))
      → IsDrained urls total (schedulable urls db.rows) (after_batch o total db next)
  after_batch-IsDrained none total db next paid later = omega arith
  after_batch-IsDrained (some s) total db next paid later =
      elim (Bool-cases (length s.written == 0)) [
        | inl over ↦ rw over (omega (arith, paid))
        | inr more ↦
            let n : 1 ≤ length s.written = ground (arith, more) in
            rw more (
              IsDrained-weaken urls total (schedulable urls db.rows) (total + length s.written)
                (schedulable urls s.database.rows) (next (total + length s.written) s.database)
                (omega (arith, paid)) (omega (arith, paid)) (later s n (omega (arith, paid))))
      ]

  -- The drain ends, by itself or in an exception, within one batch more than it can schedule jobs:
  -- the finished player_info jobs and the URLs that have none. Its total and what is left to schedule
  -- are together no more than that, whatever the times, and however often a statement fails.
  pub startup_drain-IsDrained :
      (fuel batch total : ℕ) (db : Database)
      → schedulable urls db.rows < fuel
      → IsDrained urls total
          (schedulable urls db.rows)
          (startup_drain fuel batch_size urls sessions batch total db)
  unfolding startup_drain
  startup_drain-IsDrained zero batch total db enough = absurd (omega (arith, enough))
  startup_drain-IsDrained (suc fuel) batch total db enough =
      after_batch-IsDrained (run_batch batch_size urls (sessions batch) db) total db
        (λ n db'. startup_drain fuel batch_size urls sessions (batch + 1) n db')
        (run_batch-IsPaid (sessions batch) db)
        (λ s some_written paid.
          startup_drain-IsDrained fuel (batch + 1) (total + length s.written) s.database
            (omega (arith, some_written, paid, enough)))
