-- ===== src/Listener/Tests.antt =====
-- The listener's theorems on a small table.
use sport_crawl.Prelude.{
  String, Option, none, some, List, [], ◌∷◌, ◌≡◌, ◌≢◌, str_eq, if◌then◌else◌, length,
}
use sport_crawl.Queue.UrlTable.{BackendUrlRow, pending, Backend, player_urls}
use sport_crawl.Server.Urls.{Parsed, UrlLibrary}
use sport_crawl.Server.Adapter.{Database, Config}
use sport_crawl.Listener.Upsert.{Payload, enqueue_row}
use sport_crawl.Listener.Sessions.{
  Round, fails, stops, slept, index_error, start, schedule, start-schedule,
}
use sport_crawl.Listener.Repetition.{IsKept, IsRepeated, enqueue_row-IsKept, enqueue_row-IsRepeated}

abbrev parse : String → Option Parsed
parse url =
    if str_eq url "https://fbref.com/en/players/1"
    then some (record { scheme = "https"; hostname = some "fbref.com" })
    else none

abbrev library : UrlLibrary
library = record { urlparse = parse; ip_address = λ host. none }

abbrev config : Config
config = record { library = library; allowed_hosts = "fbref.com" ∷ [] }

abbrev payload : Payload
payload = record {
  url = "https://fbref.com/en/players/1";
  url_type = "profile";
  id = some 9;
  fk_country = none;
}

abbrev database : Database
database = record { rows = []; next_id = 1 }

enqueue_row-IsKept_example : IsKept (enqueue_row config payload database)
enqueue_row-IsKept_example = enqueue_row-IsKept config payload database (tt, tt, tt)

enqueue_row-IsRepeated_example : IsRepeated config payload (enqueue_row config payload database)
enqueue_row-IsRepeated_example = enqueue_row-IsRepeated config payload database

abbrev rounds : List Round
rounds = fails slept ∷ fails slept ∷ stops ∷ []

start-schedule_example :
    let (delays, end) = start 0 rounds in
    (delays ≡ schedule 0 (length delays)) × (end ≢ index_error)
start-schedule_example = start-schedule 0 rounds

abbrev due_url : BackendUrlRow
due_url = record {
  id = 9;
  url = "https://fbref.com/en/players/1";
  url_type = "profile";
  priority = 1;
  next_scrape_at = 10;
  fk_country = none;
  cadence_hours = none;
  status = pending;
  retry_count = 0;
  last_error = none;
  last_scrape_status = none;
  last_scraped_at = none;
}

abbrev backend : Backend
backend player_urls = due_url ∷ []
backend _ = []
