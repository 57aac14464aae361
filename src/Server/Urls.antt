-- ===== src/Server/Urls.antt =====
-- core/security/url_validator.py. urlparse and ip_address of Python's library come as arguments.
use sport_crawl.Prelude.{
  String, Bool, true, false, Option, none, some, List, [], ◌∷◌, ◌||◌, if◌then◌else◌, str_eq,
  ends_with, dotted,
}

-- The parts of a parsed URL that the code reads.
pub record Parsed : Type 0 where
  pub scheme : String
  pub hostname : Option String

pub record IpAddress : Type 0 where
  pub is_private : Bool
  pub is_loopback : Bool
  pub is_link_local : Bool

-- urlparse gives nothing where it raises ValueError, ip_address where its argument is no literal.
pub record UrlLibrary : Type 0 where
  pub urlparse : String → Option Parsed
  pub ip_address : String → Option IpAddress

pub data SsrfReason : Type 0 where
  scheme_must_be_https missing_host private_ip host_not_allowed : SsrfReason

pub data Validation : Type 0 where
  valid : String → Validation
  ssrf : SsrfReason → Validation
  value_error : Validation

-- `parsed.hostname or ""`
abbrev pub host_of : Option String → String
host_of none = ""
host_of (some host) = host

abbrev pub is_blocked : Option IpAddress → Bool
is_blocked none = false
is_blocked (some a) = a.is_private || a.is_loopback || a.is_link_local

abbrev pub is_host_of : String → String → Bool
is_host_of host allowed = str_eq host allowed || ends_with host (dotted allowed)

unfoldable pub is_allowed : String → List String → Bool
is_allowed host [] = false
is_allowed host (allowed ∷ rest) =
    let later = is_allowed host rest in if is_host_of host allowed then true else later

abbrev pub check_host : UrlLibrary → String → List String → Validation
check_host library host allowed_hosts =
    if str_eq host ""
    then ssrf missing_host
    else if is_blocked (library.ip_address host)
    then ssrf private_ip
    else if is_allowed host allowed_hosts
    then valid host
    else ssrf host_not_allowed

abbrev pub check_parsed : UrlLibrary → Option Parsed → List String → Validation
check_parsed library none allowed_hosts = value_error
check_parsed library (some parsed) allowed_hosts =
    if str_eq parsed.scheme "https"
    then check_host library (host_of parsed.hostname) allowed_hosts
    else ssrf scheme_must_be_https

unfoldable pub validate_scrape_url : UrlLibrary → String → List String → Validation
validate_scrape_url library url allowed_hosts =
    check_parsed library (library.urlparse url) allowed_hosts
