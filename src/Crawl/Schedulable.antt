-- ===== src/Crawl/Schedulable.antt =====
-- scripts/scrape_player_info.py, _startup_drain: the jobs that it can still schedule.
use mathlib.Core.List.{Memᴰ}
use mathlib.Core.Path.{subst}
use sport_crawl.Prelude.{
  ℕ, ◌+◌, ◌≤◌, Bool, true, [], ◌∷◌, ◌++◌, ◌≡◌, refl, arith, Bool-cases, inl, inr, ◌==◌,
  if◌then◌else◌, ◌&&◌, str_eq,
}
use sport_crawl.Queue.Table.{done, is_status, ScrapeQueue, Table, update_where, count_where}
use sport_crawl.Queue.UrlTable.{BackendUrlRow, UrlTable}
use sport_crawl.Crawl.Startup.{is_key, is_finished, rescheduled}

-- A finished player_info job.
abbrev pub is_done_info : ScrapeQueue → Bool
is_done_info r = str_eq r.job_type "player_info" && is_status r.status done

-- The URLs that have no player_info job.
abbrev pub missing : UrlTable → Table → ℕ
missing [] rows = 0
missing (b ∷ rest) rows = (if count_where (is_key b) rows == 0 then 1 else 0) + missing rest rows

-- The jobs that a drain can still schedule: the finished ones, and one for every URL without a job.
abbrev pub schedulable : UrlTable → Table → ℕ
schedulable urls rows = count_where is_done_info rows + missing urls rows

pub count_where-append :
    (test : ScrapeQueue → Bool) (xs ys : Table)
    → count_where test (xs ++ ys) ≡ count_where test xs + count_where test ys
count_where-append test [] ys = omega arith
count_where-append test (r ∷ rest) ys = elim (Bool-cases (test r)) [
  | inl met ↦ rw met (omega (arith, count_where-append test rest ys))
  | inr not_met ↦ rw not_met (count_where-append test rest ys)
]

-- The update of a finished row keeps every key and takes the row from the finished ones.
module _ (b : BackendUrlRow) where
  keys-update_where :
      (c : BackendUrlRow) (rows : Table)
      → count_where (is_key c) (update_where (is_finished b) (rescheduled b) rows)
        ≡ count_where (is_key c) rows
  unfolding update_where
  keys-update_where c [] = refl
  keys-update_where c (r ∷ rest) = ground (arith, keys-update_where c rest)

  pub done-update_where :
      (rows : Table)
      → count_where is_done_info (update_where (is_finished b) (rescheduled b) rows)
          + count_where (is_finished b) rows
        ≡ count_where is_done_info rows
  unfolding update_where
  done-update_where [] = refl
  done-update_where (r ∷ rest) = ground (arith, done-update_where rest)

  pub missing-update_where :
      (urls : UrlTable) (rows : Table)
      → missing urls (update_where (is_finished b) (rescheduled b) rows) ≡ missing urls rows
  missing-update_where [] rows = refl
  missing-update_where (c ∷ rest) rows =
      let here = keys-update_where c rows in
      let later = missing-update_where rest rows in rw (here, later) refl

-- A row at the end takes the URLs of its key from the missing ones.
module _ (row : ScrapeQueue) (rows : Table) where
  missing-append : (urls : UrlTable) → missing urls (rows ++ row ∷ []) ≤ missing urls rows
  missing-append [] = omega arith
  missing-append (c ∷ rest) =
      let keys = count_where-append (is_key c) rows (row ∷ []) in
      let later = missing-append rest in
      elim (Bool-cases (count_where (is_key c) rows == 0)) [
        | inl none_yet ↦ ground (arith, keys, later)
        | inr some_there ↦ ground (arith, keys, later)
      ]

  pub missing-append_of_Mem :
      (b : BackendUrlRow) (urls : UrlTable)
      → Memᴰ b urls
      → count_where (is_key b) rows ≡ 0
      → is_key b row ≡ true
      → missing urls (rows ++ row ∷ []) + 1 ≤ missing urls rows
  missing-append_of_Mem b [] m absent key = elim m [ ]
  missing-append_of_Mem b (c ∷ rest) (Memᴰ.head e) absent key =
      let keys = count_where-append (is_key b) rows (row ∷ []) in
      let later = missing-append rest in
      subst (λ x. missing (x ∷ rest) (rows ++ row ∷ []) + 1 ≤ missing (x ∷ rest) rows) e
        (ground (arith, keys, later, absent, key))
  missing-append_of_Mem b (c ∷ rest) (Memᴰ.tail m) absent key =
      let keys = count_where-append (is_key c) rows (row ∷ []) in
      let later = missing-append_of_Mem b rest m absent key in
      elim (Bool-cases (count_where (is_key c) rows == 0)) [
        | inl none_yet ↦ ground (arith, keys, later)
        | inr some_there ↦ ground (arith, keys, later)
      ]
