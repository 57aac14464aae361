-- ===== src/Listener/Conflicts.antt =====
-- infrastructure/scheduler/notify_listener.py, the upsert of _enqueue_row: a conflict on the key.
use mathlib.Core.Bool.{true≢false}
use sport_crawl.Prelude.{
  ℕ, ◌+◌, ◌<◌, String, true, false, [], ◌∷◌, ◌++◌, ◌≡◌, ◌≢◌, refl, ◌∙◌, ◌&&◌, str_eq, eq_iff, inl,
  inr, Bool-cases, All-append, arith,
}
use sport_crawl.Queue.Table.{ScrapeQueue, Table, update_where}
use sport_crawl.Queue.Table.Writes.{All-update_where}
use sport_crawl.Server.Adapter.{Database, has_job}
use sport_crawl.Server.Insertion.{
  Distinct, IsFresh, UniqueIds, IsConsistent, Distinct-append, IsFresh-weaken, UniqueIds-append,
}
use sport_crawl.Listener.Upsert.{Payload, queue_row, is_unlinked, linked, upsert}

module _ (row : ScrapeQueue) where
  has_job-update_where :
      (url job_type : String) (t : Table)
      → has_job url job_type (update_where (is_unlinked row) (linked row) t)
        ≡ has_job url job_type t
  unfolding has_job update_where
  has_job-update_where url job_type [] = refl
  has_job-update_where url job_type (r ∷ rest) = elim (Bool-cases (is_unlinked row r)) [
    | inl meets ↦ simp (meets, has_job-update_where url job_type rest) refl
    | inr other ↦ simp (other, has_job-update_where url job_type rest) refl
  ]

  Distinct-update_where :
      (t : Table) → Distinct t → Distinct (update_where (is_unlinked row) (linked row) t)
  unfolding update_where
  Distinct-update_where [] d = tt
  Distinct-update_where (r ∷ rest) d = elim (Bool-cases (is_unlinked row r)) [
    | inl meets ↦
        simp meets
          (has_job-update_where r.url r.job_type rest ∙ d.0, Distinct-update_where rest d.1)
    | inr other ↦
        simp other
          (has_job-update_where r.url r.job_type rest ∙ d.0, Distinct-update_where rest d.1)
  ]

  UniqueIds-update_where :
      (t : Table) → UniqueIds t → UniqueIds (update_where (is_unlinked row) (linked row) t)
  unfolding update_where
  UniqueIds-update_where [] u = tt
  UniqueIds-update_where (r ∷ rest) u =
      let others =
        All-update_where (λ s. s.id ≢ r.id) (is_unlinked row) (linked row) rest (λ s _ other. other)
          u.0 in
      elim (Bool-cases (is_unlinked row r)) [
        | inl meets ↦ simp meets (others, UniqueIds-update_where rest u.1)
        | inr other ↦ simp other (others, UniqueIds-update_where rest u.1)
      ]

  update_where_twice :
      (t : Table)
      → update_where (is_unlinked row) (linked row) (update_where (is_unlinked row) (linked row) t)
        ≡ update_where (is_unlinked row) (linked row) t
  unfolding update_where
  update_where_twice [] = refl
  update_where_twice (r ∷ rest) = elim (Bool-cases (is_unlinked row r)) [
    | inl meets ↦ elim (Bool-cases (is_unlinked row (linked row r))) [
      | inl again ↦ simp (meets, again, update_where_twice rest) refl
      | inr once ↦ simp (meets, once, update_where_twice rest) refl
    ]
    | inr other ↦ simp (other, other, update_where_twice rest) refl
  ]

  has_job_of_append : (t : Table) → has_job row.url row.job_type (t ++ (row ∷ [])) ≡ true
  unfolding has_job
  has_job_of_append [] =
      simp ((eq_iff row.url row.url).1 refl, (eq_iff row.job_type row.job_type).1 refl) refl
  has_job_of_append (r ∷ rest) =
      elim (Bool-cases (str_eq r.url row.url && str_eq r.job_type row.job_type)) [
        | inl same ↦ simp same refl
        | inr other ↦ simp other (has_job_of_append rest)
      ]

  is_unlinked_differs :
      (r : ScrapeQueue)
      → (str_eq r.url row.url && str_eq r.job_type row.job_type) ≡ false
      → is_unlinked row r ≡ false
  is_unlinked_differs r other = ground (arith, other)

  update_where_absent :
      (t : Table)
      → has_job row.url row.job_type t ≡ false
      → update_where (is_unlinked row) (linked row) (t ++ (row ∷ [])) ≡ t ++ (row ∷ [])
  unfolding has_job update_where
  update_where_absent [] h = elim (Bool-cases (is_unlinked row row)) [
    | inl meets ↦ simp meets refl
    | inr other ↦ simp other refl
  ]
  update_where_absent (r ∷ rest) h =
      elim (Bool-cases (str_eq r.url row.url && str_eq r.job_type row.job_type)) [
        | inl same ↦ absurd (true≢false (simp same at h))
        | inr other ↦
            let ih = update_where_absent rest (simp other at h) in
            simp (is_unlinked_differs r other, ih) refl
      ]

module _ (domain job_type : String) (p : Payload) (i j : ℕ) where
  pub upsert_twice :
      (t : Table)
      → upsert (queue_row domain p job_type j) (upsert (queue_row domain p job_type i) t)
        ≡ upsert (queue_row domain p job_type i) t
  unfolding upsert
  upsert_twice t = elim (Bool-cases (has_job p.url job_type t)) [
    | inl there ↦
        simp (there, has_job-update_where (queue_row domain p job_type i) p.url job_type t ∙ there)
          (update_where_twice (queue_row domain p job_type i) t)
    | inr absent ↦
        simp (absent, has_job_of_append (queue_row domain p job_type i) t)
          (update_where_absent (queue_row domain p job_type i) t absent)
  ]

pub upsert-IsConsistent :
    (domain job_type : String) (p : Payload) (db : Database)
    → IsConsistent db
    → Distinct (upsert (queue_row domain p job_type db.next_id) db.rows)
      × IsFresh (db.next_id + 1) (upsert (queue_row domain p job_type db.next_id) db.rows)
      × UniqueIds (upsert (queue_row domain p job_type db.next_id) db.rows)
unfolding upsert
upsert-IsConsistent domain job_type p db h =
    let row = queue_row domain p job_type db.next_id in
    let fresh = IsFresh-weaken db.next_id db.rows h.1 in
    elim (Bool-cases (has_job p.url job_type db.rows)) [
      | inl there ↦ simp there (
        Distinct-update_where row db.rows h.0,
        All-update_where (λ r. r.id < db.next_id + 1) (is_unlinked row) (linked row) db.rows
            (λ r _ less. less) fresh,
        UniqueIds-update_where row db.rows h.2,
      )
      | inr absent ↦ simp absent (
        Distinct-append db.rows row h.0 absent,
        All-append (λ r. r.id < db.next_id + 1) db.rows (row ∷ []) fresh (omega arith, tt),
        UniqueIds-append db.next_id db.rows row h.1 refl h.2,
      )
    ]
