-- ===== src/Processor/References.antt =====
-- core/application/scrape_job_processor.py: what is stored, and when the job is marked done.
use sport_crawl.Prelude.{
  ℕ, String, true, Option, none, some, List, [], ◌∷◌, ◌++◌, ◌≡◌, refl, ap, All, inl, inr,
  Bool-cases, Option-cases, is_some, ◌⊎◌, str_eq,
}
use sport_crawl.Processor.Player.{
  RawPlayer, Call, upsert_position, upsert_city, upsert_team_stub, upsert_player_info, upsert_photo,
  upsert_citizenship, mark_done, Result, processed, raised, empty_page, Caches, PositionCache, Run,
  validated, truthy, resolve, resolve_citizenship, resolve_countries, call, cached,
  resolve_position, resolve_positions, finish, store_citizenship, store_player, store_team,
  store_city, process,
}

-- The citizenship that a page gives without its name, which is the one that is not looked up.
abbrev pub unnamed : Option String → Option String → Option String
unnamed none fk = fk
unnamed (some name) fk = none

abbrev pub unnamed_citizenship : List RawPlayer → Option String
unnamed_citizenship [] = none
unnamed_citizenship (first ∷ _) = unnamed first.citizenship_name first.fk_citizenship

module _ (caches : Caches) where
  abbrev pub IsReference : Option String → Type 0
  IsReference none = Unit
  IsReference (some fk) = caches.is_valid_country fk ≡ true

  validated-IsReference : (o : Option String) → IsReference (validated caches o)
  validated-IsReference none = tt
  validated-IsReference (some fk) = elim (Bool-cases (caches.is_valid_country fk)) [
    | inl known ↦ simp known refl
    | inr unknown ↦ simp unknown tt
  ]

module _ (caches : Caches) (given : Option String) where
  -- A citizenship is a known country, or what the page gave without a name.
  abbrev pub IsCitizenship : Option String → Type 0
  IsCitizenship none = Unit
  IsCitizenship (some fk) = (caches.is_valid_country fk ≡ true) ⊎ (given ≡ some fk)

  abbrev pub HasReferences : RawPlayer → Type 0
  HasReferences raw =
      IsReference caches raw.fk_country_birth
      × IsReference caches raw.fk_nat_team
      × IsReference caches raw.fk_youth_nat_team
      × IsCitizenship raw.fk_citizenship

  -- What a call stores of countries, if anything.
  abbrev pub IsStorable : Call → Type 0
  IsStorable (upsert_player_info raw ids) = HasReferences raw
  IsStorable (upsert_citizenship player_id fk) = IsCitizenship (some fk)
  IsStorable _ = Unit

  truthy-IsCitizenship : (o : Option String) → IsReference caches o → IsCitizenship (truthy o)
  truthy-IsCitizenship none known = tt
  truthy-IsCitizenship (some fk) known = elim (Bool-cases (str_eq fk "")) [
    | inl blank ↦ simp blank tt
    | inr other ↦ simp other (inl known)
  ]

module _ (caches : Caches) where
  given-IsCitizenship : (fk : Option String) → IsCitizenship caches fk fk
  given-IsCitizenship none = tt
  given-IsCitizenship (some fk) = inr refl

  resolve_citizenship-IsCitizenship :
      (name fk : Option String)
      → IsCitizenship caches (unnamed name fk) (resolve_citizenship caches name fk)
  resolve_citizenship-IsCitizenship none fk = given-IsCitizenship fk
  resolve_citizenship-IsCitizenship (some name) fk =
      truthy-IsCitizenship caches none (validated caches (caches.country_name name))
        (validated-IsReference caches (caches.country_name name))

  resolve_countries-HasReferences :
      (raw : RawPlayer)
      → HasReferences caches
          (unnamed raw.citizenship_name raw.fk_citizenship)
          (resolve_countries caches raw)
  unfolding resolve_countries
  resolve_countries-HasReferences raw = (
    validated-IsReference caches (resolve caches raw.country_birth_name raw.fk_country_birth),
    validated-IsReference caches (resolve caches raw.national_team_name raw.fk_nat_team),
    validated-IsReference caches (resolve caches raw.youth_nat_team_name raw.fk_youth_nat_team),
    resolve_citizenship-IsCitizenship raw.citizenship_name raw.fk_citizenship,
  )

module _ (answer : Call → Option ℕ) (caches : Caches) (job_id : ℕ) (given : Option String) where
  abbrev pub IsAnswered : Call → Type 0
  IsAnswered c = is_some (answer c) ≡ true

  -- How the calls end: with mark_done when the job is processed, with the one that raises otherwise.
  abbrev pub IsEnd : List Call → Result → Type 0
  IsEnd calls (processed name country) =
      (before : List Call) × (calls ≡ before ++ (mark_done job_id ∷ [])) × All IsAnswered calls
  IsEnd calls raised =
      (before : List Call) × (c : Call) × (calls ≡ before ++ (c ∷ []))
      × All IsAnswered before
      × (answer c ≡ none)
  IsEnd calls empty_page = calls ≡ []

  abbrev pub IsRun : Run → Type 0
  IsRun (calls, result, positions) = All (IsStorable caches given) calls × IsEnd calls result

  -- A run that goes on after a call is not over an empty page.
  abbrev IsLater : Run → Type 0
  IsLater (calls, empty_page, positions) = ⊥
  IsLater (calls, result, positions) = All (IsStorable caches given) calls × IsEnd calls result

  IsLater-cons :
      (c : Call) (run : Run)
      → IsStorable caches given c
      → IsAnswered c
      → IsLater run
      → IsLater (c ∷ run.0, run.1, run.2)
  IsLater-cons c (calls, processed name country, positions) s a (h, (before, e, all)) =
      ((s, h), (c ∷ before, ap (λ l. c ∷ l) e, (a, all)))
  IsLater-cons c (calls, raised, positions) s a (h, (before, d, e, all, last)) =
      ((s, h), (c ∷ before, d, ap (λ l. c ∷ l) e, (a, all), last))
  IsLater-cons c (calls, empty_page, positions) s a h = h

  call-IsLater :
      (c : Call) (positions : PositionCache) (next : ℕ → Run)
      → IsStorable caches given c
      → ((n : ℕ) → IsLater (next n))
      → IsLater (call answer c positions next)
  call-IsLater c positions next s later = elim (Option-cases (answer c)) [
    | inl raises ↦ simp raises ((s, tt), ([], c, refl, tt, raises))
    | inr (n, returns) ↦ simp returns (IsLater-cons c (next n) s (ap is_some returns) (later n))
  ]

  finish-IsLater :
      (raw : RawPlayer) (positions : PositionCache) → IsLater (finish answer job_id raw positions)
  finish-IsLater raw positions = elim (Option-cases (answer (mark_done job_id))) [
    | inl raises ↦ simp raises ((tt, tt), ([], mark_done job_id, refl, tt, raises))
    | inr (n, returns) ↦ simp returns ((tt, tt), ([], refl, (refl, tt)))
  ]

  store_citizenship-IsLater :
      (o : Option String) (raw : RawPlayer) (positions : PositionCache)
      → IsCitizenship caches given o
      → IsLater (store_citizenship answer o job_id raw positions)
  store_citizenship-IsLater none raw positions known = finish-IsLater raw positions
  store_citizenship-IsLater (some fk) raw positions known =
      call-IsLater (upsert_citizenship raw.player_id fk) positions
        (λ _. finish answer job_id raw positions) known (λ _. finish-IsLater raw positions)

  module _ (ids : List (Option ℕ)) (positions : PositionCache) where
    store_player-IsLater :
        (raw : RawPlayer)
        → HasReferences caches given raw
        → IsLater (store_player answer job_id raw ids positions)
    store_player-IsLater raw known =
        call-IsLater (upsert_player_info raw ids) positions
          (λ _.
            call answer (upsert_photo raw.player_id raw.photo_url) positions
              (λ _. store_citizenship answer raw.fk_citizenship job_id raw positions))
          known
          (λ _.
            call-IsLater (upsert_photo raw.player_id raw.photo_url) positions
              (λ _. store_citizenship answer raw.fk_citizenship job_id raw positions) tt
              (λ _. store_citizenship-IsLater raw.fk_citizenship raw positions known.3))

    store_team-IsLater :
        (o : Option String) (raw : RawPlayer)
        → HasReferences caches given raw
        → IsLater (store_team answer o job_id raw ids positions)
    store_team-IsLater none raw known = store_player-IsLater raw known
    store_team-IsLater (some team) raw known =
        call-IsLater (upsert_team_stub team raw.club_url) positions
          (λ _. store_player answer job_id raw ids positions) tt
          (λ _. store_player-IsLater raw known)

    store_city-IsLater :
        (o : Option String) (raw : RawPlayer)
        → HasReferences caches given raw
        → IsLater (store_city answer o job_id raw ids positions)
    store_city-IsLater none raw known = store_team-IsLater raw.fk_team raw known
    store_city-IsLater (some city) raw known =
        call-IsLater (upsert_city city) positions
          (λ id.
            store_team answer raw.fk_team job_id (record raw { fk_city = some id }) ids positions)
          tt (λ id. store_team-IsLater raw.fk_team (record raw { fk_city = some id }) known)

  resolve_position-IsLater :
      (o : Option ℕ) (code : String) (positions : PositionCache) (next : ℕ → PositionCache → Run)
      → ((n : ℕ) (cache : PositionCache) → IsLater (next n cache))
      → IsLater (resolve_position answer o code positions next)
  resolve_position-IsLater (some id) code positions next later = later id positions
  resolve_position-IsLater none code positions next later =
      call-IsLater (upsert_position code) positions (λ id. next id ((code, id) ∷ positions)) tt
        (λ id. later id ((code, id) ∷ positions))

  resolve_positions-IsLater :
      (codes : List (Option String)) (ids : List (Option ℕ)) (positions : PositionCache)
      (next : List (Option ℕ) → PositionCache → Run)
      → ((l : List (Option ℕ)) (cache : PositionCache) → IsLater (next l cache))
      → IsLater (resolve_positions answer codes ids positions next)
  unfolding resolve_positions
  resolve_positions-IsLater [] ids positions next later = later ids positions
  resolve_positions-IsLater (none ∷ rest) ids positions next later =
      resolve_positions-IsLater rest (ids ++ (none ∷ [])) positions next later
  resolve_positions-IsLater (some code ∷ rest) ids positions next later =
      resolve_position-IsLater (cached code positions) code positions
        (λ id cache. resolve_positions answer rest (ids ++ (some id ∷ [])) cache next)
        (λ id cache. resolve_positions-IsLater rest (ids ++ (some id ∷ [])) cache next later)

  IsRun-of_IsLater : (run : Run) → IsLater run → IsRun run
  IsRun-of_IsLater (calls, processed name country, positions) h = h
  IsRun-of_IsLater (calls, raised, positions) h = h
  IsRun-of_IsLater (calls, empty_page, positions) h = absurd h

-- A player is stored with countries of birth and of its teams that are known, and with a citizenship
-- that is known or that its page gave without a name, which nobody checks; a citizenship is stored
-- for a player under the same condition. A job is processed when every call has succeeded and its
-- mark_done was the last of them; otherwise the processing ends at the first call that raises, or, on
-- an empty page, before any call.
pub process-IsRun :
    (answer : Call → Option ℕ) (caches : Caches) (job_id : ℕ) (players : List RawPlayer)
    (positions : PositionCache)
    → IsRun answer caches job_id
        (unnamed_citizenship players)
        (process answer caches job_id players positions)
unfolding process
process-IsRun answer caches job_id [] positions = (tt, refl)
process-IsRun answer caches job_id (first ∷ rest) positions =
    let raw = resolve_countries caches first in
    let given = unnamed_citizenship (first ∷ rest) in
    IsRun-of_IsLater answer caches job_id given
      (process answer caches job_id (first ∷ rest) positions)
      (resolve_positions-IsLater answer caches job_id given
        (raw.position_1 ∷ raw.position_2 ∷ raw.position_3 ∷ []) [] positions
        (λ ids cache. store_city answer raw.city_name job_id raw ids cache)
        (λ ids cache.
          store_city-IsLater answer caches job_id given ids cache raw.city_name raw
            (resolve_countries-HasReferences caches first)))
