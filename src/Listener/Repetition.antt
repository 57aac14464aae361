-- ===== src/Listener/Repetition.antt =====
-- infrastructure/scheduler/notify_listener.py, _enqueue_row: what repeated deliveries do.
use sport_crawl.Prelude.{
  ℕ, ◌+◌, String, Bool, Option, none, some, List, [], ◌∷◌, ◌≡◌, refl, if◌then◌else◌, inl, inr,
  Bool-cases,
}
use sport_crawl.Server.Urls.{Validation, valid, ssrf, value_error, validate_scrape_url}
use sport_crawl.Server.Adapter.{Database, Config}
use sport_crawl.Server.Insertion.{IsConsistent}
use sport_crawl.Listener.Upsert.{
  Payload, job_type_of, queue_row, upsert, fits_columns, execute, enqueue_checked, enqueue_row,
  and_then, committed, enqueue_rows, payload_of, rows_of, poll_tables, poll_limit, backend_tables,
  poll_fallback,
}
use sport_crawl.Queue.UrlTable.{UrlTable, Backend, fetch_due_rows}
use sport_crawl.Listener.Conflicts.{upsert-IsConsistent, upsert_twice}

-- A delivery that raises has no database after it.
abbrev pub IsKept : Option Database → Type 0
IsKept none = Unit
IsKept (some db) = IsConsistent db

-- The second of two deliveries of one payload, whatever comes of it, leaves the rows as they were.
abbrev pub IsRepeated : Config → Payload → Option Database → Type 0
IsRepeated config p none = Unit
IsRepeated config p (some db) =
    (db' : Database) × (enqueue_row config p db ≡ some db') × (db'.rows ≡ db.rows)

module _ (config : Config) (p : Payload) (db : Database) where
  execute-IsKept :
      (domain job_type : String)
      → IsConsistent db
      → IsKept (execute (queue_row domain p job_type db.next_id) db)
  execute-IsKept domain job_type h =
      elim (Bool-cases (fits_columns (queue_row domain p job_type db.next_id))) [
        | inl small ↦ simp small (upsert-IsConsistent domain job_type p db h)
        | inr large ↦ simp large tt
      ]

  enqueue_checked-IsKept :
      (v : Validation) (o : Option String)
      → job_type_of p.url_type ≡ o
      → IsConsistent db
      → IsKept (enqueue_checked v p db)
  enqueue_checked-IsKept (ssrf reason) o e h = h
  enqueue_checked-IsKept value_error o e h = tt
  enqueue_checked-IsKept (valid domain) none e h = simp e h
  enqueue_checked-IsKept (valid domain) (some job_type) e h =
      simp e (execute-IsKept domain job_type h)

  -- A delivery keeps (url, job_type) and the ids unique, whether it adds a row, links one, or is
  -- passed over.
  pub enqueue_row-IsKept : IsConsistent db → IsKept (enqueue_row config p db)
  unfolding enqueue_row
  enqueue_row-IsKept =
      enqueue_checked-IsKept (validate_scrape_url config.library p.url config.allowed_hosts)
        (job_type_of p.url_type) refl

  abbrev IsRepeatedBy : Validation → Option Database → Type 0
  IsRepeatedBy v none = Unit
  IsRepeatedBy v (some after) =
      (db' : Database) × (enqueue_checked v p after ≡ some db') × (db'.rows ≡ after.rows)

  execute_twice :
      (domain job_type : String)
      → job_type_of p.url_type ≡ some job_type
      → IsRepeatedBy (valid domain) (execute (queue_row domain p job_type db.next_id) db)
  execute_twice domain job_type e =
      elim (Bool-cases (fits_columns (queue_row domain p job_type db.next_id))) [
        | inl small ↦ simp small (
          record {
            rows =
                upsert (queue_row domain p job_type (db.next_id + 1))
                  (upsert (queue_row domain p job_type db.next_id) db.rows);
            next_id = db.next_id + 1 + 1;
          },
          simp (e, small) refl,
          upsert_twice domain job_type p db.next_id (db.next_id + 1) db.rows,
        )
        | inr large ↦ simp large tt
      ]

  enqueue_checked_twice :
      (v : Validation) (o : Option String)
      → job_type_of p.url_type ≡ o
      → IsRepeatedBy v (enqueue_checked v p db)
  enqueue_checked_twice (ssrf reason) o e = (db, refl, refl)
  enqueue_checked_twice value_error o e = tt
  enqueue_checked_twice (valid domain) none e = simp e (db, refl, refl)
  enqueue_checked_twice (valid domain) (some job_type) e = simp e (execute_twice domain job_type e)

  IsRepeated-of :
      (o : Option Database)
      → IsRepeatedBy (validate_scrape_url config.library p.url config.allowed_hosts) o
      → IsRepeated config p o
  unfolding enqueue_row
  IsRepeated-of none h = tt
  IsRepeated-of (some after) h = h

  -- A payload that is delivered twice, by a NOTIFY and by the poll, leaves the rows of its first
  -- delivery; the second one does not raise when the first did not.
  pub enqueue_row-IsRepeated : IsRepeated config p (enqueue_row config p db)
  unfolding enqueue_row
  enqueue_row-IsRepeated = IsRepeated-of (enqueue_row config p db) (
      enqueue_checked_twice (validate_scrape_url config.library p.url config.allowed_hosts)
        (job_type_of p.url_type) refl)

and_then-IsKept :
    (o : Option Database) (next : Database → Option Database)
    → IsKept o
    → ((db : Database) → IsConsistent db → IsKept (next db))
    → IsKept (and_then o next)
and_then-IsKept none next h step = tt
and_then-IsKept (some db) next h step = step db h

committed-IsConsistent :
    (o : Option Database) (db : Database)
    → IsKept o
    → IsConsistent db
    → IsConsistent (committed o db)
committed-IsConsistent none db h before = before
committed-IsConsistent (some after) db h before = h

module _ (config : Config) where
  enqueue_rows-IsKept :
      (rows : UrlTable) (db : Database) → IsConsistent db → IsKept (enqueue_rows config rows db)
  unfolding enqueue_rows
  enqueue_rows-IsKept [] db h = h
  enqueue_rows-IsKept (r ∷ rest) db h =
      and_then-IsKept (enqueue_row config (payload_of r) db) (λ db'. enqueue_rows config rest db')
        (enqueue_row-IsKept config (payload_of r) db h) (enqueue_rows-IsKept rest)

  poll_tables-IsKept :
      (fetch : String → Option UrlTable) (tables : List String) (db : Database)
      → IsConsistent db
      → IsKept (poll_tables config fetch tables db)
  unfolding poll_tables
  poll_tables-IsKept fetch [] db h = h
  poll_tables-IsKept fetch (t ∷ rest) db h =
      and_then-IsKept (enqueue_rows config (rows_of (fetch t)) db)
        (λ db'. poll_tables config fetch rest db') (enqueue_rows-IsKept (rows_of (fetch t)) db h)
        (poll_tables-IsKept fetch rest)

  -- The poll of the five tables keeps (url, job_type) and the ids of the queue unique, whichever of
  -- its queries fail and whether it raises or not.
  pub poll_fallback-IsConsistent :
      (now : ℕ) (reachable : String → Bool) (backend : Backend) (db : Database)
      → IsConsistent db
      → IsConsistent (poll_fallback config now reachable backend db).1
  unfolding poll_fallback
  poll_fallback-IsConsistent now reachable backend db h =
      committed-IsConsistent
        (poll_tables config
          (λ t. if reachable t then fetch_due_rows t poll_limit now backend else none)
          backend_tables db)
        db
        (poll_tables-IsKept
          (λ t. if reachable t then fetch_due_rows t poll_limit now backend else none)
          backend_tables db h)
        h
