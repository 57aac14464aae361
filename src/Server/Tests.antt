-- ===== src/Server/Tests.antt =====
-- The work server's theorems on a small table, with a parser that knows four URLs.
use Prim.Native.String as Text
use sport_crawl.Prelude.{
  ℕ, String, Bool, true, false, Option, none, some, [], ◌∷◌, ◌≡◌, ◌≢◌, ◌⊎◌, ◌↔◌, refl, sym, str_eq,
  if◌then◌else◌, eq_iff,
}
use mathlib.Core.Bool.{true≢false}
use sport_crawl.Server.Urls.{Parsed, IpAddress, UrlLibrary, validate_scrape_url, valid}
use sport_crawl.Server.Adapter.{Database, Config, enqueue}
use sport_crawl.Server.Json.{Json, number, text, object, JsonList, nil, cons, empty, entry}
use sport_crawl.Server.Requests.{
  Timestamp, naive, aware, WebLibrary, Application, Setup, post_clearance, Request, server_error,
}
use sport_crawl.Server.Clearances.{handle_post_clearance}
use sport_crawl.Server.Routes.{header, unauthorized, serve}
use sport_crawl.Server.Insertion.{job_list, Added, enqueue-Added}
use sport_crawl.Server.Access.{serve-unauthorized}
use sport_crawl.Server.Vetting.{handle_post_clearance_stores, IsStored, body_payload}
use sport_crawl.Server.Allowlist.{IsScrapable, validate_scrape_url_iff}

abbrev https : String → Parsed
https host = record { scheme = "https"; hostname = some host }

abbrev parse : String → Option Parsed
parse url =
    if str_eq url "https://fbref.com/en/countries/"
    then some (https "fbref.com")
    else if str_eq url "https://widgets.fbref.com/x"
    then some (https "widgets.fbref.com")
    else if str_eq url "https://127.0.0.1/"
    then some (https "127.0.0.1")
    else if str_eq url "https://["
    then none
    else some (record { scheme = ""; hostname = none })

abbrev address : String → Option IpAddress
address host =
    if str_eq host "127.0.0.1"
    then some (record { is_private = true; is_loopback = true; is_link_local = false })
    else none

abbrev library : UrlLibrary
library = record { urlparse = parse; ip_address = address }

abbrev config : Config
config = record { library = library; allowed_hosts = "fbref.com" ∷ [] }

abbrev database : Database
database = record { rows = []; next_id = 1 }

abbrev up : ℕ → Bool
up _ = true

abbrev urls : JsonList
urls =
    cons (text "https://fbref.com/en/countries/")
      (cons (text "https://fbref.com/en/countries/") (cons (number 7) (cons (text "ftp") nil)))

validate_scrape_url_iff_example :
    (validate_scrape_url library "https://widgets.fbref.com/x" ("fbref.com" ∷ [])
      ≡ valid "widgets.fbref.com")
    ↔ IsScrapable library
        ("fbref.com" ∷ [])
        (parse "https://widgets.fbref.com/x")
        "widgets.fbref.com"
validate_scrape_url_iff_example =
    validate_scrape_url_iff library ("fbref.com" ∷ []) "https://widgets.fbref.com/x"
      "widgets.fbref.com"

enqueue-Added_example :
    let (answer, db') = enqueue config true "https://fbref.com/en/countries/" database in
    Added config database (job_list answer) db'
enqueue-Added_example =
    enqueue-Added config true "https://fbref.com/en/countries/" database (tt, tt, tt) tt

abbrev timestamp : String → Option Timestamp
timestamp value =
    if str_eq value "2026-01-01T00:00:00+00:00"
    then some (aware 1000)
    else if str_eq value "2026-01-02T00:00:00+00:00"
    then some (aware 87400)
    else some naive

abbrev web : WebLibrary
web = record { fromisoformat = timestamp; strip_lower = λ s. s }

abbrev report : Json
report = object (
    entry "domain" (text "fbref.com") (
      entry "profile_id" (text "p") (
        entry "worker_id" (text "w") (
          entry "observed_at" (text "2026-01-01T00:00:00Z") (
            entry "expires_at" (text "2026-01-02T00:00:00Z")
              (entry "clearance" (text "secret") empty))))))

handle_post_clearance_stores_example :
    let (answer, store') = handle_post_clearance web 2000 "application/json" (some report) none in
    IsStored web 2000 (body_payload (some report)) none answer store'
handle_post_clearance_stores_example =
    handle_post_clearance_stores web 2000 none "application/json" (some report)

abbrev setup : Setup
setup = record { config = config; token = "t0ken"; web = web }

abbrev app : Application
app = record { database = database; clearance_store = none }

abbrev request : Option String → Request
request authorization = record {
  path = "/api/clearance";
  route = post_clearance;
  authorization = authorization;
  content_type = "application/json";
  body = some report;
  now = 2000;
  reachable = up;
}

wrong_header : header (some "Bearer guess") ≢ Text.◌++◌ "Bearer " "t0ken"
wrong_header e = true≢false (sym ((eq_iff "Bearer guess" "Bearer t0ken").1 e))

serve-unauthorized_example :
    let (answer, app') = serve setup (request (some "Bearer guess")) app in
    ((answer ≡ unauthorized) ⊎ (answer ≡ server_error)) × (app' ≡ app)
serve-unauthorized_example =
    serve-unauthorized setup (request (some "Bearer guess")) app refl wrong_header
