-- ===== src/Server/Insertion.antt =====
-- Server/Adapter.antt: what a submission does to the table.
use mathlib.Core.List.{append-nil, append_assoc}
use mathlib.Core.Bool.{true≢false}
use sport_crawl.Prelude.{
  ℕ, ◌+◌, ◌<◌, String, Bool, false, List, [], ◌∷◌, ◌++◌, ◌&&◌, ◌≡◌, ◌≢◌, refl, sym, ◌∙◌,
  str_eq_comm, ap, map, str_eq, All, All-append, inl, inr, Bool-cases, arith,
}
use sport_crawl.Queue.Table.{ScrapeQueue, Table}
use sport_crawl.Server.Urls.{validate_scrape_url, Validation, valid, ssrf, value_error}
use sport_crawl.Server.Adapter.{
  Database, JobRecord, row_to_record, Config, Enqueued, enqueued, refused, from_url, has_job, fits,
  insert, enqueue_valid, enqueue,
}

-- No two rows of the table have the url and the job_type in common.
abbrev pub Distinct : Table → Type 0
Distinct [] = Unit
Distinct (r ∷ rest) = (has_job r.url r.job_type rest ≡ false) × Distinct rest

-- The sequence is past every id.
abbrev pub IsFresh : ℕ → Table → Type 0
IsFresh n = All (λ r. r.id < n)

-- No two rows have an id in common.
abbrev pub UniqueIds : Table → Type 0
UniqueIds [] = Unit
UniqueIds (r ∷ rest) = All (λ s. s.id ≢ r.id) rest × UniqueIds rest

abbrev pub IsConsistent : Database → Type 0
IsConsistent db = Distinct db.rows × IsFresh db.next_id db.rows × UniqueIds db.rows

abbrev pub job_list : Enqueued → List JobRecord
job_list (enqueued r) = r ∷ []
job_list (refused _) = []

pub map-append :
    (xs ys : Table) → map row_to_record (xs ++ ys) ≡ map row_to_record xs ++ map row_to_record ys
map-append [] ys = refl
map-append (x ∷ xs) ys = ap (λ t. row_to_record x ∷ t) (map-append xs ys)

pub IsFresh-weaken : (n : ℕ) (table : Table) → IsFresh n table → IsFresh (n + 1) table
IsFresh-weaken n [] h = h
IsFresh-weaken n (r ∷ rest) h = (omega (arith, h.0), IsFresh-weaken n rest h.1)

-- A row with the next id goes at the end.
pub UniqueIds-append :
    (n : ℕ) (table : Table) (row : ScrapeQueue)
    → IsFresh n table
    → row.id ≡ n
    → UniqueIds table
    → UniqueIds (table ++ (row ∷ []))
UniqueIds-append n [] row fresh e u = (tt, tt)
UniqueIds-append n (r ∷ rest) row fresh e u = (
  All-append (λ s. s.id ≢ r.id) rest (row ∷ []) u.0 (omega (arith, e, fresh.0), tt),
  UniqueIds-append n rest row fresh.1 e u.1,
)

has_job-append :
    (url job_type : String) (table : Table) (row : ScrapeQueue)
    → has_job url job_type table ≡ false
    → (str_eq row.url url && str_eq row.job_type job_type) ≡ false
    → has_job url job_type (table ++ (row ∷ [])) ≡ false
unfolding has_job
has_job-append url job_type [] row h e = rw e refl
has_job-append url job_type (r ∷ rest) row h e =
    elim (Bool-cases (str_eq r.url url && str_eq r.job_type job_type)) [
      | inl same ↦ absurd (true≢false (rw same at h))
      | inr other ↦ rw other (has_job-append url job_type rest row (rw other at h) e)
    ]

-- A row that no row of the table has its key in common with goes at the end.
pub Distinct-append :
    (table : Table) (row : ScrapeQueue)
    → Distinct table
    → has_job row.url row.job_type table ≡ false
    → Distinct (table ++ (row ∷ []))
unfolding has_job
Distinct-append [] row d h = (refl, tt)
Distinct-append (r ∷ rest) row d h =
    elim (Bool-cases (str_eq r.url row.url && str_eq r.job_type row.job_type)) [
      | inl same ↦ absurd (true≢false (rw same at h))
      | inr other ↦ (
        has_job-append r.url r.job_type rest row d.0 (
            ap (λ b. b && str_eq row.job_type r.job_type) (str_eq_comm row.url r.url)
            ∙ ap (λ b. str_eq r.url row.url && b) (str_eq_comm row.job_type r.job_type)
            ∙ other),
        Distinct-append rest row d.1 (rw other at h),
      )
    ]

module _ (reachable : Bool) (domain url : String) (db : Database) where
  insert-IsConsistent :
      IsConsistent db → IsConsistent (insert reachable (from_url domain url db.next_id) db).1
  insert-IsConsistent h = elim (Bool-cases reachable) [
    | inl up ↦ elim (Bool-cases (fits (from_url domain url db.next_id))) [
      | inl small ↦ elim (Bool-cases (has_job url "default" db.rows)) [
        | inl twice ↦ simp (up, small, twice) (h.0, IsFresh-weaken db.next_id db.rows h.1, h.2)
        | inr once ↦
            simp (up, small, once)
              (
                Distinct-append db.rows (from_url domain url db.next_id) h.0 once,
                All-append (λ r. r.id < db.next_id + 1) db.rows
                    (from_url domain url db.next_id ∷ []) (IsFresh-weaken db.next_id db.rows h.1)
                    (omega arith, tt),
                UniqueIds-append db.next_id db.rows (from_url domain url db.next_id) h.1 refl h.2,
              )
      ]
      | inr large ↦ simp (up, large) (h.0, IsFresh-weaken db.next_id db.rows h.1, h.2)
    ]
    | inr down ↦ simp down h
  ]

-- The domain of each row is the validated host of its URL.
abbrev pub IsSafe : Config → Database → Type 0
IsSafe config db =
    All (λ r. validate_scrape_url config.library r.url config.allowed_hosts ≡ valid r.domain)
      db.rows

-- The jobs, and no others, are the new rows, in their order; the two invariants go on.
abbrev pub Adds : Config → Database → List JobRecord → Database → Type 0
Adds config db jobs db' =
    (IsConsistent db → IsConsistent db')
    × (IsSafe config db → IsSafe config db')
    × (map row_to_record db'.rows ≡ map row_to_record db.rows ++ jobs)

pub Adds-nothing : (config : Config) (db : Database) → Adds config db [] db
Adds-nothing config db = (λ h. h, λ h. h, sym (append-nil (map row_to_record db.rows)))

pub Adds-trans :
    (config : Config) (a b c : Database) (xs ys : List JobRecord)
    → Adds config a xs b
    → Adds config b ys c
    → Adds config a (xs ++ ys) c
Adds-trans config a b c xs ys f g = (
  λ h. g.0 (f.0 h),
  λ h. g.1 (f.1 h),
  g.2 ∙ ap (λ t. t ++ ys) f.2 ∙ append_assoc (map row_to_record a.rows) xs ys,
)

module _ (config : Config) (reachable : Bool) (domain url : String) (db : Database) where
  insert_lists :
      validate_scrape_url config.library url config.allowed_hosts ≡ valid domain
      → let (answer, db') = insert reachable (from_url domain url db.next_id) db in
        (IsSafe config db → IsSafe config db')
        × (map row_to_record db'.rows ≡ map row_to_record db.rows ++ job_list answer)
  insert_lists safe = elim (Bool-cases reachable) [
    | inl up ↦ elim (Bool-cases (fits (from_url domain url db.next_id))) [
      | inl small ↦ elim (Bool-cases (has_job url "default" db.rows)) [
        | inl twice ↦ simp (up, small, twice) (λ h. h, sym (append-nil (map row_to_record db.rows)))
        | inr once ↦
            simp (up, small, once)
              (
                λ h.
                    All-append
                      (λ r.
                        validate_scrape_url config.library r.url config.allowed_hosts
                        ≡ valid r.domain)
                      db.rows (from_url domain url db.next_id ∷ []) h (safe, tt),
                map-append db.rows (from_url domain url db.next_id ∷ []),
              )
      ]
      | inr large ↦ simp (up, large) (λ h. h, sym (append-nil (map row_to_record db.rows)))
    ]
    | inr down ↦ simp down (λ h. h, sym (append-nil (map row_to_record db.rows)))
  ]

enqueue_valid-Adds :
    (config : Config) (reachable : Bool) (url : String) (db : Database) (v : Validation)
    → validate_scrape_url config.library url config.allowed_hosts ≡ v
    → let (answer, db') = enqueue_valid v url reachable db in Adds config db (job_list answer) db'
enqueue_valid-Adds config reachable url db (valid domain) safe =
    let (safety, jobs) = insert_lists config reachable domain url db safe in
    (insert-IsConsistent reachable domain url db, safety, jobs)
enqueue_valid-Adds config reachable url db (ssrf reason) safe = Adds-nothing config db
enqueue_valid-Adds config reachable url db value_error safe = Adds-nothing config db

pub enqueue-Adds :
    (config : Config) (reachable : Bool) (url : String) (db : Database)
    → let (answer, db') = enqueue config reachable url db in Adds config db (job_list answer) db'
unfolding enqueue
enqueue-Adds config reachable url db =
    enqueue_valid-Adds config reachable url db
      (validate_scrape_url config.library url config.allowed_hosts) refl

-- The jobs are the new rows, and the table is consistent and safe.
abbrev pub Added : Config → Database → List JobRecord → Database → Type 0
Added config db jobs db' =
    IsConsistent db'
    × IsSafe config db'
    × (map row_to_record db'.rows ≡ map row_to_record db.rows ++ jobs)

pub Added-Adds :
    (config : Config) (db db' : Database) (jobs : List JobRecord)
    → IsConsistent db
    → IsSafe config db
    → Adds config db jobs db'
    → Added config db jobs db'
Added-Adds config db db' jobs consistent safe adds = (adds.0 consistent, adds.1 safe, adds.2)

-- On a table with unique keys and ids, in which the domain of every row is the validated host of its
-- URL, a submission adds the job that it answers with and no other row, a refused one adds none, and
-- the table stays so.
pub enqueue-Added :
    (config : Config) (reachable : Bool) (url : String) (db : Database)
    → IsConsistent db
    → IsSafe config db
    → let (answer, db') = enqueue config reachable url db in Added config db (job_list answer) db'
enqueue-Added config reachable url db consistent safe =
    Added-Adds config db (enqueue config reachable url db).1
      (job_list (enqueue config reachable url db).0) consistent safe
      (enqueue-Adds config reachable url db)
