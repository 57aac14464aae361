-- ===== src/Preflight/Clean.antt =====
-- core/preflight/__init__.py: what a run without a blocking result has established.
use mathlib.Core.Bool.{true≢false}
use sport_crawl.Prelude.{
  ℕ, ◌≤◌, Bool, true, false, Option, none, some, List, [], ◌∷◌, ◌++◌, ◌≡◌, ◌⊎◌, refl, sym, ap, ◌∙◌,
  ◌&&◌, inl, inr, Bool-cases, All, arith, eq_of_some,
}
use sport_crawl.Preflight.Checks.{CheckResult, Phase, check_seed_data, check_country_squads_data}
use sport_crawl.Preflight.Run.{
  World, returns, Report, is_blocking, any_blocking, run_fatal, run_all, fatal_checks, seed_checks,
  has_seed, after_seed, after_fatal, run_checks,
}
use sport_crawl.Preflight.Order.{IsPassed, IsReady, run_checks-IsReady, migrated_of_IsPassed}

returns_inj : (a b : List CheckResult) → returns a ≡ returns b → a ≡ b
returns_inj a b h = cc

any_blocking-append :
    (xs : List CheckResult) (r : CheckResult)
    → any_blocking (xs ++ (r ∷ [])) ≡ false
    → (any_blocking xs ≡ false) × (is_blocking r ≡ false)
any_blocking-append [] r h = (refl, ground arith)
any_blocking-append (x ∷ xs) r h = elim (Bool-cases (is_blocking x)) [
  | inl stop ↦ absurd (true≢false (rw stop at h))
  | inr pass ↦ let (rest, last) = any_blocking-append xs r (rw pass at h) in (rw pass rest, last)
]

run_all-clean :
    (checks : List (Option CheckResult)) (results rs : List CheckResult)
    → run_all checks results ≡ some rs
    → any_blocking rs ≡ false
    → (any_blocking results ≡ false) × All IsPassed checks
unfolding run_all
run_all-clean [] results rs h clean = (ap any_blocking (eq_of_some h) ∙ clean, tt)
run_all-clean (none ∷ rest) results rs h clean = absurd (cc)
run_all-clean (some r ∷ rest) results rs h clean =
    let (before, later) = run_all-clean rest (results ++ (r ∷ [])) rs h clean in
    let (so_far, pass) = any_blocking-append results r before in (so_far, (pass, later))

run_fatal-clean :
    (next : List CheckResult → Report) (checks : List (Option CheckResult))
    (results rs : List CheckResult)
    → (run_fatal checks results next).ending ≡ returns rs
    → any_blocking rs ≡ false
    → All IsPassed checks × ((so_far : List CheckResult) × ((next so_far).ending ≡ returns rs))
unfolding run_fatal
run_fatal-clean next [] results rs h clean = (tt, (results, h))
run_fatal-clean next (none ∷ rest) results rs h clean = absurd (cc)
run_fatal-clean next (some r ∷ rest) results rs h clean = elim (Bool-cases (is_blocking r)) [
  | inl stop ↦
      let same : results ++ (r ∷ []) ≡ rs = returns_inj (results ++ (r ∷ [])) rs (simp stop at h) in
      let (_, pass) = any_blocking-append results r (ap any_blocking same ∙ clean) in
      absurd (true≢false (sym stop ∙ pass))
  | inr pass ↦
      let (later, ending) =
        run_fatal-clean next rest (results ++ (r ∷ [])) rs (simp pass at h) clean in
      ((pass, later), ending)
]

-- What the seed checks ask for.
abbrev pub IsSeeded : World → Type 0
IsSeeded world =
    ((n : ℕ) × (world.seed ≡ some n) × (1 ≤ n))
    × ((n : ℕ) × (world.squads ≡ some (some n)) × (1 ≤ n))

IsPassed-seed :
    (phase : Phase) (o : Option ℕ)
    → IsPassed (check_seed_data phase o)
    → (n : ℕ) × (o ≡ some n) × (1 ≤ n)
unfolding check_seed_data
IsPassed-seed phase none h = absurd h
IsPassed-seed phase (some n) h = (n, refl, ground arith)

IsPassed-squads :
    (o : Option (Option ℕ))
    → IsPassed (check_country_squads_data o)
    → (n : ℕ) × (o ≡ some (some n)) × (1 ≤ n)
unfolding check_country_squads_data
IsPassed-squads none h = absurd h
IsPassed-squads (some none) h = absurd (true≢false h)
IsPassed-squads (some (some n)) h = (n, refl, ground arith)

after_seed-clean :
    (phase : Phase) (world : World) (o : Option (List CheckResult)) (results rs : List CheckResult)
    → run_all (seed_checks phase world) results ≡ o
    → after_seed world o ≡ returns rs
    → any_blocking rs ≡ false
    → IsSeeded world
after_seed-clean phase world none results rs ran h clean = absurd (cc)
after_seed-clean phase world (some so_far) results rs ran h clean =
    elim (Bool-cases (any_blocking so_far)) [
      | inl stop ↦
          absurd
            (true≢false (sym stop ∙ ap any_blocking (returns_inj so_far rs (rw stop at h)) ∙ clean))
      | inr pass ↦
          let (_, (seed, (squads, _))) =
            run_all-clean (seed_checks phase world) results so_far ran pass in
          (IsPassed-seed phase world.seed seed, IsPassed-squads world.squads squads)
    ]

module _ (phase : Phase) (world : World) where
  after_fatal-clean :
      (with_seed_checks : Bool) (so_far rs : List CheckResult)
      → (after_fatal phase with_seed_checks world so_far).ending ≡ returns rs
      → any_blocking rs ≡ false
      → (world.migrates ≡ true) × ((with_seed_checks && has_seed phase ≡ false) ⊎ IsSeeded world)
  unfolding after_fatal
  after_fatal-clean with_seed_checks so_far rs h clean = elim (Bool-cases world.migrates) [
    | inl up ↦ elim (Bool-cases (with_seed_checks && has_seed phase)) [
      | inl seeded ↦ (
        up,
        inr (
            after_seed-clean phase world (run_all (seed_checks phase world) so_far) so_far rs refl
              (simp (up, seeded) at h) clean),
      )
      | inr bare ↦ (up, inl bare)
    ]
    | inr down ↦ absurd (cc (simp down at h))
  ]

  -- When run_checks returns results none of which is a fatal failure, the database was ready, the
  -- migrations succeeded, and, if the phase has seed checks, its seed rows and squads are there.
  pub run_checks-clean :
      (with_seed_checks : Bool) (results : List CheckResult)
      → (run_checks phase with_seed_checks world).ending ≡ returns results
      → any_blocking results ≡ false
      → IsReady phase world
        × (world.migrates ≡ true)
        × ((with_seed_checks && has_seed phase ≡ false) ⊎ IsSeeded world)
  unfolding run_checks after_fatal
  run_checks-clean with_seed_checks results h clean =
      let (passed, (so_far, ending)) =
        run_fatal-clean (after_fatal phase with_seed_checks world) (fatal_checks phase world) []
          results h clean in
      let (migrated, seeded) = after_fatal-clean with_seed_checks so_far results ending clean in
      (
        (run_checks-IsReady phase world with_seed_checks).0 (
            migrated_of_IsPassed (after_fatal phase with_seed_checks world) (λ rs. refl)
              (fatal_checks phase world) [] passed),
        migrated,
        seeded,
      )
