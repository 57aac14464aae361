-- ===== src/Server/Routes.antt =====
-- infrastructure/work_server/server.py: bearer_auth_middleware in front of the routes of create_app.
use sport_crawl.Prelude.{
  String, Bool, true, false, Option, none, some, ◌&&◌, str_eq, is_ascii, starts_with, drop_prefix,
  if◌then◌else◌,
}
use sport_crawl.Server.Requests.{
  Application, Setup, Route, health, post_jobs, post_clearance, get_clearance_latest, no_route,
  get_job_route, Request, Response, error, server_error, not_found, healthy, handle_post_jobs,
  handle_get_job,
}
use sport_crawl.Server.Clearances.{handle_post_clearance, handle_get_clearance_latest}

-- add_get and add_post; the router's own answer is a 404.
abbrev pub dispatch : Setup → Request → Route → Application → Response × Application
dispatch setup request health app = (healthy, app)
dispatch setup request post_jobs app =
    let (answer, db) = handle_post_jobs setup.config request.reachable request.body app.database in
    (answer, record app { database = db })
dispatch setup request (get_job_route i) app =
    (handle_get_job i (request.reachable 0) app.database, app)
dispatch setup request post_clearance app =
    let (answer, store) =
      handle_post_clearance setup.web request.now request.content_type request.body
        app.clearance_store in
    (answer, record app { clearance_store = store })
dispatch setup request get_clearance_latest app =
    (handle_get_clearance_latest app.clearance_store, app)
dispatch setup request no_route app = (not_found, app)

abbrev pub has_resource : Route → Bool
has_resource no_route = false
has_resource _ = true

-- hmac.compare_digest raises TypeError on a text that is not ASCII.
pub data Digest : Type 0 where
  same different type_error : Digest

abbrev pub compare_digest : String → String → Digest
compare_digest a b =
    if is_ascii a && is_ascii b then if str_eq a b then same else different else type_error

abbrev pub header : Option String → String
header none = ""
header (some value) = value

abbrev pub unauthorized : Response
unauthorized = error 401 "unauthorized"

-- `auth_header[len("Bearer ") :]`
abbrev pub provided : String → String
provided = drop_prefix "Bearer "

abbrev pub with_digest : Digest → Response × Application → Application → Response × Application
with_digest same handled app = handled
with_digest different handled app = (unauthorized, app)
with_digest type_error handled app = (server_error, app)

abbrev pub is_exempt : Request → Bool
is_exempt request = has_resource request.route && str_eq request.path "/health"

unfoldable pub bearer_auth_middleware :
    Setup → Request → Application → Response × Application → Response × Application
bearer_auth_middleware setup request app handled =
    if is_exempt request
    then handled
    else if starts_with (header request.authorization) "Bearer "
    then with_digest (compare_digest (provided (header request.authorization)) setup.token) handled
        app
    else (unauthorized, app)

-- One request to the application of create_app.
unfoldable pub serve : Setup → Request → Application → Response × Application
serve setup request app =
    bearer_auth_middleware setup request app (dispatch setup request request.route app)
