-- ===== src/Server/Clearances.antt =====
-- infrastructure/work_server/server.py: POST /api/clearance and GET /api/clearance/latest, the
-- middleware and the routes.
use Prim.Native.String as Text
use sport_crawl.Prelude.{
  ℕ, ◌*◌, String, Bool, true, false, Option, none, some, List, [], ◌∷◌, ◌&&◌, ◌||◌, leb, not,
  str_eq, replace, any_char, if◌then◌else◌,
}
use sport_crawl.Server.Json.{Json, object, JsonObject, empty, entry, lookup, as_text}
use sport_crawl.Server.Requests.{
  Timestamp, naive, out_of_range, aware, WebLibrary, Clearance, Response, error, server_error,
  no_content, latest,
}

-- `overflow` is the OverflowError of astimezone.
pub data Utc : Type 0 where
  malformed overflow : Utc
  utc : ℕ → Utc

abbrev pub as_utc : Option Timestamp → Utc
as_utc none = malformed
as_utc (some naive) = malformed
as_utc (some out_of_range) = overflow
as_utc (some (aware t)) = utc t

unfoldable pub parse_utc : WebLibrary → String → Utc
parse_utc web value = as_utc (web.fromisoformat (replace "Z" "+00:00" value))

abbrev pub required_keys : List String
required_keys =
    "domain" ∷ "profile_id" ∷ "worker_id" ∷ "observed_at" ∷ "expires_at" ∷ "clearance" ∷ []

abbrev pub is_required_key : String → List String → Bool
is_required_key key [] = false
is_required_key key (k ∷ rest) =
    let later = is_required_key key rest in if str_eq k key then true else later

-- `set(body.keys()) - _CLEARANCE_REQUIRED_KEYS` is not empty.
unfoldable pub has_extra_keys : JsonObject → Bool
has_extra_keys empty = false
has_extra_keys (entry key _ rest) =
    let later = has_extra_keys rest in if is_required_key key required_keys then later else true

-- The six values, when every required key is there with a text.
pub record Payload : Type 0 where
  pub domain : String
  pub observed_at : String
  pub expires_at : String
  pub clearance : String

abbrev pub payload_of :
    Option String
    → Option String
    → Option String
    → Option String
    → Option String
    → Option String
    → Option Payload
payload_of (some domain) (some _) (some _) (some observed_at) (some expires_at) (some clearance) =
    some (record {
      domain = domain;
      observed_at = observed_at;
      expires_at = expires_at;
      clearance = clearance;
    })
payload_of _ _ _ _ _ _ = none

abbrev pub text_field : String → JsonObject → Option String
text_field key body = as_text (lookup key body)

unfoldable pub read_payload : JsonObject → Option Payload
read_payload body =
    payload_of (text_field "domain" body) (text_field "profile_id" body)
      (text_field "worker_id" body) (text_field "observed_at" body) (text_field "expires_at" body)
      (text_field "clearance" body)

-- `_invalid`, from the fourth check on.
abbrev pub invalid : Response
invalid = error 422 "invalid_request"

abbrev pub clearance_max_bytes : ℕ
clearance_max_bytes = 64 * 1024

abbrev pub is_allowed_domain : String → Bool
is_allowed_domain domain =
    not (any_char "/\\:@?#[]" domain) && (str_eq domain "fbref.com" || str_eq domain ".fbref.com")

-- The end of the handler: the order of the timestamps, the expiry, the size, and the store.
abbrev pub accept : ℕ → String → Payload → ℕ → ℕ → Option Clearance → Response × Option Clearance
accept now domain payload observed expires store =
    if leb expires observed
    then (invalid, store)
    else if leb expires now
    then (invalid, store)
    else if leb (Text.len payload.clearance) clearance_max_bytes
    then (
      no_content,
      some (record {
        domain = domain;
        expires_at = payload.expires_at;
        observed_at = payload.observed_at;
      }),
    )
    else (invalid, store)

abbrev pub check_expiry :
    ℕ → String → Payload → ℕ → Utc → Option Clearance → Response × Option Clearance
check_expiry now domain payload observed malformed store = (invalid, store)
check_expiry now domain payload observed overflow store = (server_error, store)
check_expiry now domain payload observed (utc expires) store =
    accept now domain payload observed expires store

abbrev pub check_times :
    ℕ → String → Payload → Utc → Utc → Option Clearance → Response × Option Clearance
check_times now domain payload malformed expires store = (invalid, store)
check_times now domain payload overflow expires store = (server_error, store)
check_times now domain payload (utc observed) expires store =
    check_expiry now domain payload observed expires store

abbrev pub check_payload :
    WebLibrary → ℕ → Option Payload → Option Clearance → Response × Option Clearance
check_payload web now none store = (invalid, store)
check_payload web now (some payload) store =
    let domain = web.strip_lower payload.domain in
    if is_allowed_domain domain
    then check_times now domain payload (parse_utc web payload.observed_at)
        (parse_utc web payload.expires_at) store
    else (invalid, store)

abbrev pub check_body :
    WebLibrary → ℕ → Option Json → Option Clearance → Response × Option Clearance
check_body web now (some (object body)) store =
    if has_extra_keys body
    then (invalid, store)
    else check_payload web now (read_payload body) store
check_body web now _ store = (error 400 "invalid_request", store)

unfoldable pub handle_post_clearance :
    WebLibrary → ℕ → String → Option Json → Option Clearance → Response × Option Clearance
handle_post_clearance web now content_type body store =
    if str_eq content_type "application/json"
    then check_body web now body store
    else (error 415 "unsupported_media_type", store)

unfoldable pub handle_get_clearance_latest : Option Clearance → Response
handle_get_clearance_latest none = no_content
handle_get_clearance_latest (some clearance) = latest clearance
