-- ===== src/Server/Allowlist.antt =====
-- core/security/url_validator.py: which URLs the validator lets through.
use Prim.Native.String as Text
use mathlib.Core.Path.{subst}
use mathlib.Core.Bool.{true≢false}
use sport_crawl.Prelude.{
  String, true, false, Option, none, some, List, [], ◌∷◌, ◌≡◌, ◌≢◌, ◌⊎◌, ◌↔◌, inl, inr, refl, sym,
  ◌∙◌, str_eq, eq_iff, ends_with, ends_with-append, append_of_ends_with, dotted, Bool-cases,
}
use sport_crawl.Server.Urls.{
  Parsed, UrlLibrary, valid, host_of, is_blocked, is_host_of, is_allowed, check_host, check_parsed,
  validate_scrape_url,
}

-- The host is one of the names, or a name below one of them.
abbrev pub IsBelow : String → List String → Type 0
IsBelow host [] = ⊥
IsBelow host (allowed ∷ rest) =
    ((host ≡ allowed) ⊎ ((sub : String) × (Text.◌++◌ sub (dotted allowed) ≡ host)))
    ⊎ IsBelow host rest

IsBelow-of_is_allowed :
    (host : String) (hosts : List String) → is_allowed host hosts ≡ true → IsBelow host hosts
unfolding is_allowed
IsBelow-of_is_allowed host [] h = true≢false (sym h)
IsBelow-of_is_allowed host (allowed ∷ rest) h = elim (Bool-cases (str_eq host allowed)) [
  | inl same ↦ inl (inl ((eq_iff host allowed).0 same))
  | inr other ↦ elim (Bool-cases (ends_with host (dotted allowed))) [
    | inl below ↦ inl (inr (append_of_ends_with host (dotted allowed) below))
    | inr neither ↦ inr (IsBelow-of_is_allowed host rest (rw (other, neither) at h))
  ]
]

is_allowed_below :
    (host allowed : String) (rest : List String)
    → (str_eq host allowed ≡ true) ⊎ (str_eq host allowed ≡ false)
    → ends_with host (dotted allowed) ≡ true
    → is_allowed host (allowed ∷ rest) ≡ true
unfolding is_allowed
is_allowed_below host allowed rest (inl same) below = rw same refl
is_allowed_below host allowed rest (inr other) below = rw (other, below) refl

is_allowed-of_IsBelow :
    (host : String) (hosts : List String) → IsBelow host hosts → is_allowed host hosts ≡ true
unfolding is_allowed
is_allowed-of_IsBelow host [] h = absurd h
is_allowed-of_IsBelow host (allowed ∷ rest) (inl (inl same)) =
    rw ((eq_iff host allowed).1 same) refl
is_allowed-of_IsBelow host (allowed ∷ rest) (inl (inr (sub, e))) =
    is_allowed_below host allowed rest (Bool-cases (str_eq host allowed))
      (subst (λ h. ends_with h (dotted allowed) ≡ true) e (ends_with-append sub (dotted allowed)))
is_allowed-of_IsBelow host (allowed ∷ rest) (inr later) =
    elim (Bool-cases (is_host_of host allowed)) [
      | inl here ↦ rw here refl
      | inr other ↦ rw other (is_allowed-of_IsBelow host rest later)
    ]

-- What the validator asks of a URL before it answers with the host.
abbrev pub IsScrapable : UrlLibrary → List String → Option Parsed → String → Type 0
IsScrapable library allowed_hosts none host = ⊥
IsScrapable library allowed_hosts (some parsed) host =
    (parsed.scheme ≡ "https")
    × (host_of parsed.hostname ≡ host)
    × (host ≢ "")
    × (is_blocked (library.ip_address host) ≡ false)
    × IsBelow host allowed_hosts

valid_inj : (a b : String) → valid a ≡ valid b → a ≡ b
valid_inj a b h = cc

module _ (library : UrlLibrary) (allowed_hosts : List String) where
  check_host_valid :
      (name host : String)
      → check_host library name allowed_hosts ≡ valid host
      → (name ≡ host)
        × (host ≢ "")
        × (is_blocked (library.ip_address host) ≡ false)
        × IsBelow host allowed_hosts
  check_host_valid name host h = elim (Bool-cases (str_eq name "")) [
    | inl no_host ↦ absurd (cc (rw no_host at h))
    | inr named ↦ elim (Bool-cases (is_blocked (library.ip_address name))) [
      | inl private ↦ absurd (cc (rw (named, private) at h))
      | inr public ↦ elim (Bool-cases (is_allowed name allowed_hosts)) [
        | inl allowed ↦
            let same : name ≡ host = valid_inj name host (rw (named, public, allowed) at h) in
            (
              same,
              λ e. true≢false (sym ((eq_iff name "").1 (same ∙ e)) ∙ named),
              subst (λ x. is_blocked (library.ip_address x) ≡ false) same public,
              subst (λ x. IsBelow x allowed_hosts) same
                  (IsBelow-of_is_allowed name allowed_hosts allowed),
            )
        | inr other ↦ absurd (cc (rw (named, public, other) at h))
      ]
    ]
  ]

  check_parsed_valid :
      (parsed : Option Parsed) (host : String)
      → check_parsed library parsed allowed_hosts ≡ valid host
      → IsScrapable library allowed_hosts parsed host
  check_parsed_valid none host h = absurd (cc)
  check_parsed_valid (some parsed) host h = elim (Bool-cases (str_eq parsed.scheme "https")) [
    | inl https ↦
        let (same, named, public, below) =
          check_host_valid (host_of parsed.hostname) host (simp https at h) in
        ((eq_iff parsed.scheme "https").0 https, same, named, public, below)
    | inr other ↦ absurd (cc (simp other at h))
  ]

  check_host-IsScrapable :
      (host : String)
      → host ≢ ""
      → is_blocked (library.ip_address host) ≡ false
      → IsBelow host allowed_hosts
      → check_host library host allowed_hosts ≡ valid host
  check_host-IsScrapable host named public below = elim (Bool-cases (str_eq host "")) [
    | inl no_host ↦ absurd (named ((eq_iff host "").0 no_host))
    | inr some_host ↦ rw (some_host, public, is_allowed-of_IsBelow host allowed_hosts below) refl
  ]

  check_parsed-IsScrapable :
      (parsed : Option Parsed) (host : String)
      → IsScrapable library allowed_hosts parsed host
      → check_parsed library parsed allowed_hosts ≡ valid host
  check_parsed-IsScrapable none host h = absurd h
  check_parsed-IsScrapable (some parsed) host (https, same, named, public, below) =
      simp ((eq_iff parsed.scheme "https").1 https, same)
        (check_host-IsScrapable host named public below)

  -- The validator answers with a host exactly when the URL parses, is https, and its host is a name
  -- of the allowlist or one below it and no address of a private, loopback or link-local network.
  pub validate_scrape_url_iff :
      (url host : String)
      → (validate_scrape_url library url allowed_hosts ≡ valid host)
        ↔ IsScrapable library allowed_hosts (library.urlparse url) host
  unfolding validate_scrape_url
  validate_scrape_url_iff url host = (
    check_parsed_valid (library.urlparse url) host,
    check_parsed-IsScrapable (library.urlparse url) host,
  )
