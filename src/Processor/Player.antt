-- ===== src/Processor/Player.antt =====
-- core/application/scrape_job_processor.py: the first player of a parsed page is resolved and stored,
-- call by call. `answer` says what each repository call returns, or that it raises.
use sport_crawl.Prelude.{
  ℕ, String, Bool, Option, none, some, List, [], ◌∷◌, ◌++◌, str_eq, if◌then◌else◌,
}

-- The fields of PlayerInfoRawData that the processor reads or sets.
pub record RawPlayer : Type 0 where
  pub player_id : String
  pub full_name : Option String
  pub photo_url : Option String
  pub country_birth_name : Option String
  pub fk_country_birth : Option String
  pub national_team_name : Option String
  pub fk_nat_team : Option String
  pub youth_nat_team_name : Option String
  pub fk_youth_nat_team : Option String
  pub citizenship_name : Option String
  pub fk_citizenship : Option String
  pub position_1 : Option String
  pub position_2 : Option String
  pub position_3 : Option String
  pub city_name : Option String
  pub fk_city : Option ℕ
  pub fk_team : Option String
  pub club_url : Option String

pub data Call : Type 0 where
  upsert_position : String → Call
  upsert_city : String → Call
  upsert_team_stub : String → Option String → Call
  upsert_player_info : RawPlayer → List (Option ℕ) → Call
  upsert_photo : String → Option String → Call
  upsert_citizenship : String → String → Call
  mark_done : ℕ → Call

pub data Result : Type 0 where
  processed : String → Option String → Result
  raised empty_page : Result

-- What the processor is built on; the position cache lives on from job to job.
pub record Caches : Type 0 where
  pub country_name : String → Option String
  pub is_valid_country : String → Bool

abbrev pub PositionCache : Type 0
PositionCache = List (String × ℕ)

abbrev pub Run : Type 0
Run = List Call × Result × PositionCache

-- `if name is not None: fk = cache.get(name)`
abbrev pub resolve : Caches → Option String → Option String → Option String
resolve caches none fk = fk
resolve caches (some name) fk = caches.country_name name

-- `if fk not in valid: fk = None`
abbrev pub validated : Caches → Option String → Option String
validated caches none = none
validated caches (some fk) = if caches.is_valid_country fk then some fk else none

-- An empty text counts as none.
abbrev pub truthy : Option String → Option String
truthy none = none
truthy (some fk) = if str_eq fk "" then none else some fk

-- Citizenship is checked where it is resolved, and stays as it is without a name.
abbrev pub resolve_citizenship : Caches → Option String → Option String → Option String
resolve_citizenship caches none fk = fk
resolve_citizenship caches (some name) fk = truthy (validated caches (caches.country_name name))

unfoldable pub resolve_countries : Caches → RawPlayer → RawPlayer
resolve_countries caches raw = record raw {
  fk_country_birth = validated caches (resolve caches raw.country_birth_name raw.fk_country_birth);
  fk_nat_team = validated caches (resolve caches raw.national_team_name raw.fk_nat_team);
  fk_youth_nat_team =
      validated caches (resolve caches raw.youth_nat_team_name raw.fk_youth_nat_team);
  fk_citizenship = resolve_citizenship caches raw.citizenship_name raw.fk_citizenship;
}

-- A call and what follows it with its result.
abbrev pub call_answered : Option ℕ → Call → PositionCache → (ℕ → Run) → Run
call_answered none c positions next = (c ∷ [], raised, positions)
call_answered (some n) c positions next =
    let (calls, result, cache) = next n in (c ∷ calls, result, cache)

abbrev pub call : (Call → Option ℕ) → Call → PositionCache → (ℕ → Run) → Run
call answer c positions next = call_answered (answer c) c positions next

abbrev pub cached : String → PositionCache → Option ℕ
cached code [] = none
cached code ((k, id) ∷ rest) =
    let later = cached code rest in if str_eq k code then some id else later

abbrev pub or_text : String → String → String
or_text text other = if str_eq text "" then other else text

-- `raw.full_name or raw.player_id or "unknown"`
abbrev pub name_or : Option String → String → String
name_or (some name) player_id = or_text name (or_text player_id "unknown")
name_or none player_id = or_text player_id "unknown"

abbrev pub or_country : Option String → Option String → Option String
or_country none other = other
or_country (some c) other = if str_eq c "" then other else some c

module _ (answer : Call → Option ℕ) where
  abbrev pub resolve_position : Option ℕ → String → PositionCache → (ℕ → PositionCache → Run) → Run
  resolve_position (some id) code positions next = next id positions
  resolve_position none code positions next =
      call answer (upsert_position code) positions (λ id. next id ((code, id) ∷ positions))

  -- The codes in their order; the identifiers so far.
  unfoldable pub resolve_positions :
      List (Option String)
      → List (Option ℕ)
      → PositionCache
      → (List (Option ℕ) → PositionCache → Run)
      → Run
  resolve_positions [] ids positions next = next ids positions
  resolve_positions (none ∷ rest) ids positions next =
      resolve_positions rest (ids ++ (none ∷ [])) positions next
  resolve_positions (some code ∷ rest) ids positions next =
      resolve_position (cached code positions) code positions
        (λ id cache. resolve_positions rest (ids ++ (some id ∷ [])) cache next)

  abbrev pub finish : ℕ → RawPlayer → PositionCache → Run
  finish job_id raw positions = call answer (mark_done job_id) positions (λ _. (
    [],
    processed (name_or raw.full_name raw.player_id)
        (or_country raw.fk_nat_team raw.fk_country_birth),
    positions,
  ))

  abbrev pub store_citizenship : Option String → ℕ → RawPlayer → PositionCache → Run
  store_citizenship none job_id raw positions = finish job_id raw positions
  store_citizenship (some fk) job_id raw positions =
      call answer (upsert_citizenship raw.player_id fk) positions (λ _. finish job_id raw positions)

  abbrev pub store_player : ℕ → RawPlayer → List (Option ℕ) → PositionCache → Run
  store_player job_id raw ids positions = call answer (upsert_player_info raw ids) positions (λ _.
      call answer (upsert_photo raw.player_id raw.photo_url) positions
        (λ _. store_citizenship raw.fk_citizenship job_id raw positions))

  abbrev pub store_team : Option String → ℕ → RawPlayer → List (Option ℕ) → PositionCache → Run
  store_team none job_id raw ids positions = store_player job_id raw ids positions
  store_team (some team) job_id raw ids positions =
      call answer (upsert_team_stub team raw.club_url) positions
        (λ _. store_player job_id raw ids positions)

  abbrev pub store_city : Option String → ℕ → RawPlayer → List (Option ℕ) → PositionCache → Run
  store_city none job_id raw ids positions = store_team raw.fk_team job_id raw ids positions
  store_city (some city) job_id raw ids positions =
      call answer (upsert_city city) positions
        (λ id. store_team raw.fk_team job_id (record raw { fk_city = some id }) ids positions)

  -- process, on the players that the scraper parsed.
  unfoldable pub process : Caches → ℕ → List RawPlayer → PositionCache → Run
  process caches job_id [] positions = ([], empty_page, positions)
  process caches job_id (first ∷ _) positions =
      let raw = resolve_countries caches first in
      resolve_positions (raw.position_1 ∷ raw.position_2 ∷ raw.position_3 ∷ []) [] positions
        (λ ids cache. store_city raw.city_name job_id raw ids cache)
