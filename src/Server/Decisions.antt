-- ===== src/Server/Decisions.antt =====
-- infrastructure/work_server/server.py, POST /jobs: which answer each submitted value gets.
use sport_crawl.Prelude.{
  String, Bool, true, false, Option, none, some, List, [], ◌∷◌, ◌≡◌, refl, sym, ap, ◌∙◌, str_eq,
  inl, inr, Bool-cases,
}
use sport_crawl.Server.Urls.{
  Parsed, host_of, Validation, valid, ssrf, value_error, validate_scrape_url,
}
use sport_crawl.Server.Adapter.{
  Database, JobRecord, Config, Enqueued, enqueued, refused, duplicate_error, database_error,
  bad_url, ssrf_error, from_url, has_job, fits, enqueue_valid, enqueue,
}
use sport_crawl.Server.Json.{Json, null, boolean, number, text, array, object, JsonList, nil, cons}
use sport_crawl.Server.Requests.{
  Rejection, Posted, accepted, rejected, raised, is_fbref, posted, post_parsed, post_url,
}

-- A text that urlparse takes, with the scheme https.
abbrev https_parsed : Option Parsed → Bool
https_parsed none = false
https_parsed (some p) = str_eq p.scheme "https"

abbrev pub is_https : Config → Json → Bool
is_https config (text url) = https_parsed (config.library.urlparse url)
is_https config _ = false

abbrev fbref_parsed : Option Parsed → Bool
fbref_parsed none = false
fbref_parsed (some p) = is_fbref (host_of p.hostname)

abbrev pub is_on_fbref : Config → Json → Bool
is_on_fbref config (text url) = fbref_parsed (config.library.urlparse url)
is_on_fbref config _ = false

abbrev unparsable_parsed : Option Parsed → Bool
unparsable_parsed none = true
unparsable_parsed (some _) = false

-- A text that urlparse refuses.
abbrev pub is_unparsable : Config → Json → Bool
is_unparsable config (text url) = unparsable_parsed (config.library.urlparse url)
is_unparsable config _ = false

-- The reasons for which a URL is rejected, and which URLs each is given to.
pub data IsReason (config : Config) (url : Json) : String → Type 0 where
  no_https : is_https config url ≡ false → IsReason config url "invalid scheme"
  not_fbref :
      is_https config url ≡ true
      → is_on_fbref config url ≡ false
      → IsReason config url "host not allowed"
  repeated :
      is_https config url ≡ true → is_on_fbref config url ≡ true → IsReason config url "duplicate"
  not_taken :
      is_https config url ≡ true → is_on_fbref config url ≡ true → IsReason config url "invalid"

-- Each URL in its order is that of the next job, or that of the next rejection.
pub data IsCovered (config : Config) : JsonList → List JobRecord → List Rejection → Type 0 where
  no_url : IsCovered config nil [] []
  as_job :
      (url : Json) (job : JobRecord) (rest : JsonList) (jobs : List JobRecord)
      (out : List Rejection)
      → url ≡ text job.url
      → is_https config url ≡ true
      → is_on_fbref config url ≡ true
      → IsCovered config rest jobs out
      → IsCovered config (cons url rest) (job ∷ jobs) out
  as_rejection :
      (url : Json) (r : Rejection) (rest : JsonList) (jobs : List JobRecord) (out : List Rejection)
      → r.url ≡ url
      → IsReason config url r.reason
      → IsCovered config rest jobs out
      → IsCovered config (cons url rest) jobs (r ∷ out)

-- The jobs are those of URLs before one that urlparse refuses, in their order.
pub data IsCutShort (config : Config) : JsonList → List JobRecord → Type 0 where
  cut :
      (url : Json) (rest : JsonList)
      → is_unparsable config url ≡ true
      → IsCutShort config (cons url rest) []
  cut_after_job :
      (url : Json) (job : JobRecord) (rest : JsonList) (jobs : List JobRecord)
      → url ≡ text job.url
      → is_https config url ≡ true
      → is_on_fbref config url ≡ true
      → IsCutShort config rest jobs
      → IsCutShort config (cons url rest) (job ∷ jobs)
  cut_after_rejection :
      (url : Json) (reason : String) (rest : JsonList) (jobs : List JobRecord)
      → IsReason config url reason
      → IsCutShort config rest jobs
      → IsCutShort config (cons url rest) jobs

abbrev pub IsPosted : Config → Json → Posted → Type 0
IsPosted config url (accepted job) =
    (url ≡ text job.url) × (is_https config url ≡ true) × (is_on_fbref config url ≡ true)
IsPosted config url (rejected r) = (r.url ≡ url) × IsReason config url r.reason
IsPosted config url raised = is_unparsable config url ≡ true

abbrev HasUrl : String → Enqueued → Type 0
HasUrl url (enqueued job) = job.url ≡ url
HasUrl url (refused _) = Unit

module _ (config : Config) (reachable : Bool) (url : String) (db : Database) where
  enqueue_valid-HasUrl : (v : Validation) → HasUrl url (enqueue_valid v url reachable db).0
  enqueue_valid-HasUrl (valid domain) = elim (Bool-cases reachable) [
    | inl up ↦ elim (Bool-cases (fits (from_url domain url db.next_id))) [
      | inl small ↦ elim (Bool-cases (has_job url "default" db.rows)) [
        | inl twice ↦ simp (up, small, twice) tt
        | inr once ↦ simp (up, small, once) refl
      ]
      | inr large ↦ simp (up, large) tt
    ]
    | inr down ↦ simp down tt
  ]
  enqueue_valid-HasUrl (ssrf reason) = tt
  enqueue_valid-HasUrl value_error = tt

  enqueue-HasUrl : HasUrl url (enqueue config reachable url db).0
  unfolding enqueue
  enqueue-HasUrl =
      enqueue_valid-HasUrl (validate_scrape_url config.library url config.allowed_hosts)

  posted-IsPosted :
      (answer : Enqueued)
      → HasUrl url answer
      → is_https config (text url) ≡ true
      → is_on_fbref config (text url) ≡ true
      → IsPosted config (text url) (posted url answer)
  posted-IsPosted (enqueued job) e https fbref = (ap text (sym e), https, fbref)
  posted-IsPosted (refused duplicate_error) e https fbref = (refl, repeated https fbref)
  posted-IsPosted (refused database_error) e https fbref = (refl, not_taken https fbref)
  posted-IsPosted (refused bad_url) e https fbref = (refl, not_taken https fbref)
  posted-IsPosted (refused (ssrf_error _)) e https fbref = (refl, not_taken https fbref)

  post_parsed-IsPosted :
      (o : Option Parsed)
      → config.library.urlparse url ≡ o
      → IsPosted config (text url) (post_parsed config reachable url o db).0
  post_parsed-IsPosted none e = ap unparsable_parsed e
  post_parsed-IsPosted (some p) e =
      let scheme = ap https_parsed e in
      let host = ap fbref_parsed e in
      elim (Bool-cases (str_eq p.scheme "https")) [
        | inl https ↦ elim (Bool-cases (is_fbref (host_of p.hostname))) [
          | inl fbref ↦
              simp (https, fbref)
                (posted-IsPosted (enqueue config reachable url db).0 enqueue-HasUrl (scheme ∙ https)
                  (host ∙ fbref))
          | inr other ↦ simp (https, other) (refl, not_fbref (scheme ∙ https) (host ∙ other))
        ]
        | inr other ↦ simp other (refl, no_https (scheme ∙ other))
      ]

pub post_url-IsPosted :
    (config : Config) (reachable : Bool) (url : Json) (db : Database)
    → IsPosted config url (post_url config reachable url db).0
unfolding post_url
post_url-IsPosted config reachable (text url) db =
    post_parsed-IsPosted config reachable url db (config.library.urlparse url) refl
post_url-IsPosted config reachable null db = (refl, no_https refl)
post_url-IsPosted config reachable (boolean _) db = (refl, no_https refl)
post_url-IsPosted config reachable (number _) db = (refl, no_https refl)
post_url-IsPosted config reachable (array _) db = (refl, no_https refl)
post_url-IsPosted config reachable (object _) db = (refl, no_https refl)
