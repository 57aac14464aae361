-- ===== src/Processor/Tests.antt =====
-- The processor on one player with a position that is not cached.
use sport_crawl.Prelude.{ℕ, Option, none, some, [], ◌∷◌, str_eq, if◌then◌else◌}
use sport_crawl.Processor.Player.{RawPlayer, Call, Caches, process}
use sport_crawl.Processor.References.{IsRun, unnamed_citizenship, process-IsRun}

abbrev caches : Caches
caches = record {
  country_name = λ name. if str_eq name "Spain" then some "ESP" else none;
  is_valid_country = λ fk. str_eq fk "ESP";
}

abbrev player : RawPlayer
player = record {
  player_id = "a1";
  full_name = some "A";
  photo_url = none;
  country_birth_name = some "Spain";
  fk_country_birth = none;
  national_team_name = some "Nowhere";
  fk_nat_team = none;
  youth_nat_team_name = none;
  fk_youth_nat_team = some "XXX";
  citizenship_name = none;
  fk_citizenship = some "XXX";
  position_1 = some "MF";
  position_2 = none;
  position_3 = none;
  city_name = some "Madrid";
  fk_city = none;
  fk_team = none;
  club_url = none;
}

abbrev answer : Call → Option ℕ
answer c = some 1

process-IsRun_example :
    IsRun answer caches 7
      (unnamed_citizenship (player ∷ []))
      (process answer caches 7 (player ∷ []) [])
process-IsRun_example = process-IsRun answer caches 7 (player ∷ []) []
