-- ===== src/Players/Seeded.antt =====
-- scripts/scrape_players.py, _seed_queue: what seeding leaves, and seeding again.
use mathlib.Core.Path.{subst}
use sport_crawl.Prelude.{
  ℕ, zero, suc, ◌+◌, ◌≤◌, String, true, false, Option, some, List, [], ◌∷◌, ◌++◌, ◌≡◌, refl, sym,
  ap, ◌∙◌, arith, All, take, length, length-append, Bool-cases, inl, inr, str_eq, eq_iff, ◌&&◌,
}
use sport_crawl.Queue.Table.{ScrapeQueue, Table, Session}
use sport_crawl.Server.Adapter.{Database, has_job}
use sport_crawl.Players.Seeding.{
  list_row, insert_missing, skip, chunks, add_chunk, insert_chunks, seed_queue,
}

-- Whether a URL has its job.
abbrev pub IsSeeded : Table → String → Type 0
IsSeeded rows url = has_job url "player_list" rows ≡ true

has_job-append_of_has :
    (url job_type : String) (rows more : Table)
    → has_job url job_type rows ≡ true
    → has_job url job_type (rows ++ more) ≡ true
unfolding has_job
has_job-append_of_has url job_type [] more h = absurd (cc)
has_job-append_of_has url job_type (r ∷ rest) more h =
    elim (Bool-cases (str_eq r.url url && str_eq r.job_type job_type)) [
      | inl same ↦ rw same refl
      | inr other ↦ rw other (has_job-append_of_has url job_type rest more (rw other at h))
    ]

has_job-append_last :
    (row : ScrapeQueue) (rows : Table) → has_job row.url row.job_type (rows ++ row ∷ []) ≡ true
unfolding has_job
has_job-append_last row [] =
    let u = (eq_iff row.url row.url).1 refl in
    let t = (eq_iff row.job_type row.job_type).1 refl in rw (u, t) refl
has_job-append_last row (r ∷ rest) =
    elim (Bool-cases (str_eq r.url row.url && str_eq r.job_type row.job_type)) [
      | inl same ↦ rw same refl
      | inr other ↦ rw other (has_job-append_last row rest)
    ]

-- A URL that has its job keeps it.
insert_missing-keeps :
    (url : String) (urls : List String) (db : Database)
    → IsSeeded db.rows url
    → IsSeeded (insert_missing urls db).1.rows url
unfolding insert_missing
insert_missing-keeps url [] db h = h
insert_missing-keeps url (u ∷ rest) db h = elim (Bool-cases (has_job u "player_list" db.rows)) [
  | inl there ↦ rw there (insert_missing-keeps url rest (record db { next_id = db.next_id + 1 }) h)
  | inr absent ↦ rw absent (
      insert_missing-keeps url rest
        (record { rows = db.rows ++ list_row u db.next_id ∷ []; next_id = db.next_id + 1 })
        (has_job-append_of_has url "player_list" db.rows (list_row u db.next_id ∷ []) h))
]

abbrev used : Database → Database
used db = record db { next_id = db.next_id + 1 }

abbrev added : String → Database → Database
added u db = record { rows = db.rows ++ list_row u db.next_id ∷ []; next_id = db.next_id + 1 }

insert_missing_there :
    (u : String) (rest : List String) (db : Database)
    → has_job u "player_list" db.rows ≡ true
    → insert_missing (u ∷ rest) db ≡ insert_missing rest (used db)
unfolding insert_missing
insert_missing_there u rest db there = rw there refl

insert_missing_absent :
    (u : String) (rest : List String) (db : Database)
    → has_job u "player_list" db.rows ≡ false
    → insert_missing (u ∷ rest) db
      ≡ ((insert_missing rest (added u db)).0 + 1, (insert_missing rest (added u db)).1)
unfolding insert_missing
insert_missing_absent u rest db absent = rw absent refl

insert_missing-IsSeeded :
    (urls : List String) (db : Database) → All (IsSeeded (insert_missing urls db).1.rows) urls
insert_missing-IsSeeded [] db = tt
insert_missing-IsSeeded (u ∷ rest) db = elim (Bool-cases (has_job u "player_list" db.rows)) [
  | inl there ↦
      subst (λ (r : ℕ × Database). All (IsSeeded r.1.rows) (u ∷ rest))
        (sym (insert_missing_there u rest db there))
        (insert_missing-keeps u rest (used db) there, insert_missing-IsSeeded rest (used db))
  | inr absent ↦
      subst (λ (r : ℕ × Database). All (IsSeeded r.1.rows) (u ∷ rest))
        (sym (insert_missing_absent u rest db absent))
        (
          insert_missing-keeps u rest (added u db)
              (has_job-append_last (list_row u db.next_id) db.rows),
          insert_missing-IsSeeded rest (added u db),
        )
]

insert_missing-length :
    (urls : List String) (db : Database)
    → length (insert_missing urls db).1.rows ≡ length db.rows + (insert_missing urls db).0
unfolding insert_missing
insert_missing-length [] db = omega arith
insert_missing-length (u ∷ rest) db = elim (Bool-cases (has_job u "player_list" db.rows)) [
  | inl there ↦ rw there (insert_missing-length rest (record db { next_id = db.next_id + 1 }))
  | inr absent ↦
      let row = list_row u db.next_id in
      let one = length-append db.rows (row ∷ []) in
      let later =
        insert_missing-length rest
          (record { rows = db.rows ++ row ∷ []; next_id = db.next_id + 1 }) in
      rw absent (omega (arith, one, later))
]

-- With every job there nothing is inserted.
insert_missing-again :
    (urls : List String) (db : Database)
    → All (IsSeeded db.rows) urls
    → ((insert_missing urls db).0 ≡ 0) × ((insert_missing urls db).1.rows ≡ db.rows)
unfolding insert_missing
insert_missing-again [] db h = (refl, refl)
insert_missing-again (u ∷ rest) db h =
    let there = h.0 in
    rw there (insert_missing-again rest (record db { next_id = db.next_id + 1 }) h.1)

insert_missing-append :
    (xs ys : List String) (db : Database)
    → let (n, db') = insert_missing xs db in
      let (m, db'') = insert_missing ys db' in insert_missing (xs ++ ys) db ≡ (n + m, db'')
insert_missing-append [] ys db =
    unfold insert_missing in ap (λ n. (n, (insert_missing ys db).1)) (omega arith)
insert_missing-append (u ∷ xs) ys db = elim (Bool-cases (has_job u "player_list" db.rows)) [
  | inl there ↦
      let later = insert_missing-append xs ys (used db) in
      let whole = insert_missing_there u (xs ++ ys) db there in
      let front = insert_missing_there u xs db there in
      subst
        (λ (r : ℕ × Database).
          insert_missing (u ∷ (xs ++ ys)) db
          ≡ (r.0 + (insert_missing ys r.1).0, (insert_missing ys r.1).1))
        (sym front) (whole ∙ later)
  | inr absent ↦
      let later = insert_missing-append xs ys (added u db) in
      let whole = insert_missing_absent u (xs ++ ys) db absent in
      let front = insert_missing_absent u xs db absent in
      let (n, db') = insert_missing xs (added u db) in
      subst
        (λ (r : ℕ × Database).
          insert_missing (u ∷ (xs ++ ys)) db
          ≡ (r.0 + (insert_missing ys r.1).0, (insert_missing ys r.1).1))
        (sym front)
        (whole
          ∙ ap (λ (r : ℕ × Database). (r.0 + 1, r.1)) later
          ∙ ap (λ k. (k, (insert_missing ys db').1)) (omega arith))
]

take-skip : (n : ℕ) (xs : List String) → take n xs ++ skip n xs ≡ xs
take-skip zero xs = refl
take-skip (suc n) [] = refl
take-skip (suc n) (x ∷ xs) = ap (λ l. x ∷ l) (take-skip n xs)

length-skip : (n : ℕ) (xs : List String) → length (skip n xs) ≤ length xs
length-skip zero xs = omega arith
length-skip (suc n) [] = omega arith
length-skip (suc n) (x ∷ xs) = omega (arith, length-skip n xs)

-- All chunks together are one statement, when their sessions reach the database.
chunks-eq :
    (fuel size : ℕ) (urls : List String) (sessions : ℕ → Session) (i : ℕ) (db : Database)
    → ((k : ℕ) → (sessions k).reachable ≡ true)
    → length urls ≤ fuel
    → insert_chunks (chunks fuel (suc size) urls) sessions i db
      ≡ (some (insert_missing urls db).0, (insert_missing urls db).1)
unfolding insert_chunks chunks
chunks-eq zero size [] sessions i db up enough = unfold insert_missing in refl
chunks-eq zero size (u ∷ rest) sessions i db up enough = absurd (omega (arith, enough))
chunks-eq (suc fuel) size [] sessions i db up enough = unfold insert_missing in refl
chunks-eq (suc fuel) size (u ∷ rest) sessions i db up enough =
    let reached = up i in
    let first = take (suc size) (u ∷ rest) in
    let after = (insert_missing first db).1 in
    let n = (insert_missing first db).0 in
    let fewer = length-skip size rest in
    let later =
      chunks-eq fuel size (skip size rest) sessions (i + 1) after up
        (omega (arith, fewer, enough)) in
    let split = insert_missing-append first (skip size rest) db in
    let whole = ap (λ l. u ∷ l) (take-skip size rest) in
    rw reached (
      ap (add_chunk n) later
      ∙ ap (λ (r : ℕ × Database). (some r.0, r.1))
          (sym split ∙ ap (λ l. insert_missing l db) whole))

seed_queue-insert_missing :
    (urls : List String) (sessions : ℕ → Session) (db : Database)
    → ((k : ℕ) → (sessions k).reachable ≡ true)
    → seed_queue urls sessions db ≡ (some (insert_missing urls db).0, (insert_missing urls db).1)
unfolding seed_queue
seed_queue-insert_missing urls sessions db up =
    chunks-eq (length urls) 8190 urls sessions 0 db up (omega arith)

-- When its sessions reach the database, _seed_queue returns the number of rows that it adds, every
-- URL has its player_list job afterwards, and seeding again returns 0 and leaves the rows.
pub seed_queue-IsSeeded :
    (urls : List String) (sessions again : ℕ → Session) (db : Database)
    → ((k : ℕ) → (sessions k).reachable ≡ true)
    → ((k : ℕ) → (again k).reachable ≡ true)
    → let (n, after) = seed_queue urls sessions db in
      let (m, later) = seed_queue urls again after in
      ((k : ℕ) × (n ≡ some k) × (length after.rows ≡ length db.rows + k))
      × All (IsSeeded after.rows) urls
      × (m ≡ some 0)
      × (later.rows ≡ after.rows)
seed_queue-IsSeeded urls sessions again db up up' =
    let first = insert_missing urls db in
    let e = seed_queue-insert_missing urls sessions db up in
    let e' = seed_queue-insert_missing urls again first.1 up' in
    let seeded = insert_missing-IsSeeded urls db in
    let nothing = insert_missing-again urls first.1 seeded in
    subst
      (λ (r : Option ℕ × Database).
        ((k : ℕ) × (r.0 ≡ some k) × (length r.1.rows ≡ length db.rows + k))
        × All (IsSeeded r.1.rows) urls
        × ((seed_queue urls again r.1).0 ≡ some 0)
        × ((seed_queue urls again r.1).1.rows ≡ r.1.rows))
      (sym e)
      (
        (first.0, refl, insert_missing-length urls db),
        seeded,
        ap (λ (r : Option ℕ × Database). r.0) e' ∙ ap (λ n. some n) nothing.0,
        ap (λ (r : Option ℕ × Database). r.1.rows) e' ∙ nothing.1,
      )
