-- ===== src/Server/Requests.antt =====
-- infrastructure/work_server/server.py: the bearer-token middleware, the handlers and the routes.
-- aiohttp's routing and body reading and the text functions of Python's library come as arguments.
use sport_crawl.Prelude.{
  ℕ, ◌+◌, String, Bool, Option, none, some, List, [], ◌∷◌, ◌||◌, str_eq, ends_with, if◌then◌else◌,
}
use sport_crawl.Server.Urls.{Parsed, host_of}
use sport_crawl.Server.Adapter.{
  Database, JobRecord, Config, Enqueued, enqueued, refused, duplicate_error, enqueue, get_job,
}
use sport_crawl.Server.Json.{Json, text, array, object, JsonList, nil, cons, lookup}

-- What datetime.fromisoformat makes of a text: its instant in UTC, unless it has no offset or the
-- instant leaves the range of datetime.
pub data Timestamp : Type 0 where
  naive out_of_range : Timestamp
  aware : ℕ → Timestamp

pub record WebLibrary : Type 0 where
  pub fromisoformat : String → Option Timestamp
  pub strip_lower : String → String

pub record Clearance : Type 0 where
  pub domain : String
  pub expires_at : String
  pub observed_at : String

-- The application: its keys, and the state behind them.
pub record Application : Type 0 where
  pub database : Database
  pub clearance_store : Option Clearance

pub record Setup : Type 0 where
  pub config : Config
  pub token : String
  pub web : WebLibrary

-- What int() makes of the {id} of a path.
pub data JobId : Type 0 where
  not_int negative : JobId
  job_id : ℕ → JobId

pub data Route : Type 0 where
  health post_jobs post_clearance get_clearance_latest no_route : Route
  get_job_route : JobId → Route

-- The route is the router's answer; the body is none where request.json() raises. `reachable` says
-- of each statement in its order whether the database takes it.
pub record Request : Type 0 where
  pub path : String
  pub route : Route
  pub authorization : Option String
  pub content_type : String
  pub body : Option Json
  pub now : ℕ
  pub reachable : ℕ → Bool

pub record Rejection : Type 0 where
  pub url : Json
  pub reason : String

pub data Response : Type 0 where
  error : ℕ → String → Response
  server_error not_found healthy no_content : Response
  created : List JobRecord → List Rejection → Response
  job : JobRecord → Response
  latest : Clearance → Response

-- What POST /jobs makes of one URL; `raised` is the ValueError of urlparse.
pub data Posted : Type 0 where
  accepted : JobRecord → Posted
  rejected : Rejection → Posted
  raised : Posted

abbrev pub is_fbref : String → Bool
is_fbref hostname = str_eq hostname "fbref.com" || ends_with hostname ".fbref.com"

abbrev pub reject : Json → String → Posted
reject url reason = rejected (record { url = url; reason = reason })

abbrev pub posted : String → Enqueued → Posted
posted url (enqueued r) = accepted r
posted url (refused duplicate_error) = reject (text url) "duplicate"
posted url (refused _) = reject (text url) "invalid"

abbrev pub post_parsed : Config → Bool → String → Option Parsed → Database → Posted × Database
post_parsed config reachable url none db = (raised, db)
post_parsed config reachable url (some parsed) db =
    let (answer, db') = enqueue config reachable url db in
    if str_eq parsed.scheme "https"
    then if is_fbref (host_of parsed.hostname)
      then (posted url answer, db')
      else (reject (text url) "host not allowed", db)
    else (reject (text url) "invalid scheme", db)

unfoldable pub post_url : Config → Bool → Json → Database → Posted × Database
post_url config reachable (text url) db =
    post_parsed config reachable url (config.library.urlparse url) db
post_url config reachable url db = (reject url "invalid scheme", db)

abbrev pub Answers : Type 0
Answers = Option (List JobRecord × List Rejection)

abbrev pub add_answer : Posted → Answers → Answers
add_answer (accepted r) (some (jobs, out)) = some (r ∷ jobs, out)
add_answer (rejected r) (some (jobs, out)) = some (jobs, r ∷ out)
add_answer _ _ = none

-- The answer to one URL with those to the rest, which an exception does not reach.
abbrev pub collect : Posted → Database → Answers × Database → Answers × Database
collect raised db rest = (none, db)
collect answer db (later, db') = (add_answer answer later, db')

-- `for url in urls`, from the given position; an exception ends the loop.
unfoldable pub post_urls : Config → (ℕ → Bool) → ℕ → JsonList → Database → Answers × Database
post_urls config reachable i nil db = (some ([], []), db)
post_urls config reachable i (cons url rest) db =
    let (answer, db') = post_url config (reachable i) url db in
    collect answer db' (post_urls config reachable (i + 1) rest db')

abbrev pub created_response : Answers → Response
created_response none = server_error
created_response (some (jobs, out)) = created jobs out

abbrev pub post_jobs_body : Config → (ℕ → Bool) → Option Json → Database → Response × Database
post_jobs_body config reachable (some (array urls)) db =
    let (answers, db') = post_urls config reachable 0 urls db in (created_response answers, db')
post_jobs_body config reachable none db = (error 422 "missing required field: urls", db)
post_jobs_body config reachable (some _) db = (error 422 "urls must be a list", db)

unfoldable pub handle_post_jobs : Config → (ℕ → Bool) → Option Json → Database → Response × Database
handle_post_jobs config reachable none db = (error 400 "invalid JSON body", db)
handle_post_jobs config reachable (some (object fields)) db =
    post_jobs_body config reachable (lookup "urls" fields) db
handle_post_jobs config reachable (some _) db = (error 422 "missing required field: urls", db)

abbrev pub job_response : Option JobRecord → Response
job_response none = error 404 "job not found"
job_response (some r) = job r

unfoldable pub handle_get_job : JobId → Bool → Database → Response
handle_get_job not_int reachable db = error 400 "invalid job id"
handle_get_job negative reachable db = if reachable then error 404 "job not found" else server_error
handle_get_job (job_id i) reachable db =
    if reachable then job_response (get_job i db) else server_error
