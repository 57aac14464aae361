-- ===== src/Preflight/Order.antt =====
-- core/preflight/__init__.py: what has been checked when the migrations run, and when the run is clean.
use mathlib.Core.Bool.{true≢false}
use mathlib.Core.List.{cons≢nil}
use sport_crawl.Prelude.{
  ℕ, ◌≤◌, String, Bool, true, false, Option, none, some, List, [], ◌∷◌, ◌++◌, ◌≡◌, ◌↔◌, refl, sym,
  inl, inr, Bool-cases, Option-cases, All, arith, eq_of_some,
}
use sport_crawl.Preflight.Checks.{
  CheckResult, Phase, phase_tables, find_missing, check_db_reachable, check_alembic_initialized,
  check_schemas_exist, check_tables_exist, tables_result,
}
use sport_crawl.Preflight.Run.{
  World, Report, is_blocking, run_fatal, fatal_checks, after_fatal, run_checks,
}

-- A check that has an answer and does not end the run.
abbrev pub IsPassed : Option CheckResult → Type 0
IsPassed none = ⊥
IsPassed (some result) = is_blocking result ≡ false

module _ (next : List CheckResult → Report)
    (starts : (results : List CheckResult) → (next results).migrated ≡ true) where
  IsPassed-of_migrated :
      (checks : List (Option CheckResult)) (results : List CheckResult)
      → (run_fatal checks results next).migrated ≡ true
      → All IsPassed checks
  unfolding run_fatal
  IsPassed-of_migrated [] results h = tt
  IsPassed-of_migrated (none ∷ rest) results h = absurd (true≢false (sym h))
  IsPassed-of_migrated (some result ∷ rest) results h = elim (Bool-cases (is_blocking result)) [
    | inl stop ↦ absurd (true≢false (sym (simp stop at h)))
    | inr pass ↦ (pass, IsPassed-of_migrated rest (results ++ (result ∷ [])) (simp pass at h))
  ]

  pub migrated_of_IsPassed :
      (checks : List (Option CheckResult)) (results : List CheckResult)
      → All IsPassed checks
      → (run_fatal checks results next).migrated ≡ true
  unfolding run_fatal
  migrated_of_IsPassed [] results h = starts results
  migrated_of_IsPassed (none ∷ rest) results h = absurd h.0
  migrated_of_IsPassed (some result ∷ rest) results h =
      simp h.0 (migrated_of_IsPassed rest (results ++ (result ∷ [])) h.1)

-- The database answers, has been migrated before, and has the two schemas and the phase's tables.
abbrev pub IsReady : Phase → World → Type 0
IsReady phase world =
    (world.connects ≡ true)
    × (world.initialized ≡ some true)
    × ((schemas : ℕ) × (world.schemas ≡ some schemas) × (2 ≤ schemas))
    × All (λ table. world.table_exists table ≡ some true) (phase_tables phase)

IsPassed-db : (b : Bool) → IsPassed (check_db_reachable b) ↔ (b ≡ true)
unfolding check_db_reachable
IsPassed-db true = (λ h. refl, λ h. refl)
IsPassed-db false = (λ h. absurd (true≢false h), λ h. absurd (true≢false (sym h)))

IsPassed-alembic : (o : Option Bool) → IsPassed (check_alembic_initialized o) ↔ (o ≡ some true)
unfolding check_alembic_initialized
IsPassed-alembic none = (λ h. absurd h, λ h. absurd (cc))
IsPassed-alembic (some true) = (λ h. refl, λ h. refl)
IsPassed-alembic (some false) =
    (λ h. absurd (true≢false h), λ h. absurd (true≢false (sym (eq_of_some h))))

IsPassed-schemas :
    (o : Option ℕ) → IsPassed (check_schemas_exist o) ↔ ((n : ℕ) × (o ≡ some n) × (2 ≤ n))
unfolding check_schemas_exist
IsPassed-schemas none = (λ h. absurd h, λ h. absurd (cc))
IsPassed-schemas (some n) =
    (λ h. (n, refl, ground arith), λ h. let (m, e, le) = h in ground (arith, eq_of_some e, le))

IsPassed-tables : (o : Option (List String)) → IsPassed (tables_result o) ↔ (o ≡ some [])
IsPassed-tables none = (λ h. absurd h, λ h. absurd (cc))
IsPassed-tables (some []) = (λ h. refl, λ h. refl)
IsPassed-tables (some (x ∷ xs)) =
    (λ h. absurd (true≢false h), λ h. absurd (cons≢nil (eq_of_some h)))

module _ (exists : String → Option Bool) where
  All-of_find_missing :
      (tables : List String)
      → find_missing exists tables ≡ some []
      → All (λ t. exists t ≡ some true) tables
  unfolding find_missing
  All-of_find_missing [] h = tt
  All-of_find_missing (t ∷ rest) h = elim (Option-cases (exists t)) [
    | inl silent ↦ absurd (cc (rw (silent, find_missing) at h))
    | inr (true, there) ↦ (there, All-of_find_missing rest (rw (there, find_missing) at h))
    | inr (false, gone) ↦ elim (Option-cases (find_missing exists rest)) [
      | inl silent ↦ absurd (cc (rw (gone, silent, find_missing) at h))
      | inr (missing, later) ↦ absurd (cons≢nil (eq_of_some (rw (gone, later, find_missing) at h)))
    ]
  ]

  find_missing-All :
      (tables : List String)
      → All (λ t. exists t ≡ some true) tables
      → find_missing exists tables ≡ some []
  unfolding find_missing
  find_missing-All [] h = refl
  find_missing-All (t ∷ rest) h = rw (h.0, find_missing) (find_missing-All rest h.1)

module _ (phase : Phase) (world : World) where
  -- The migrations run exactly when the database answers, was migrated before, and has both schemas
  -- and every table of the phase.
  pub run_checks-IsReady :
      (with_seed_checks : Bool)
      → ((run_checks phase with_seed_checks world).migrated ≡ true) ↔ IsReady phase world
  unfolding run_checks after_fatal check_tables_exist
  run_checks-IsReady with_seed_checks = (
    λ h.
        let (db, (alembic, (schemas, (tables, _)))) =
          IsPassed-of_migrated (after_fatal phase with_seed_checks world) (λ results. refl)
            (fatal_checks phase world) [] h in
        (
          (IsPassed-db world.connects).0 db,
          (IsPassed-alembic world.initialized).0 alembic,
          (IsPassed-schemas world.schemas).0 schemas,
          All-of_find_missing world.table_exists (phase_tables phase)
              ((IsPassed-tables (find_missing world.table_exists (phase_tables phase))).0 tables),
        ),
    λ (db, alembic, schemas, tables).
        migrated_of_IsPassed (after_fatal phase with_seed_checks world) (λ results. refl)
          (fatal_checks phase world) []
          (
            (IsPassed-db world.connects).1 db,
            (
              (IsPassed-alembic world.initialized).1 alembic,
              (
                (IsPassed-schemas world.schemas).1 schemas,
                (
                  (IsPassed-tables (find_missing world.table_exists (phase_tables phase))).1
                      (find_missing-All world.table_exists (phase_tables phase) tables),
                  tt,
                ),
              ),
            ),
          ),
  )
