-- ===== src/Server/Vetting.antt =====
-- infrastructure/work_server/server.py, POST /api/clearance: what the store holds.
use Prim.Native.String as Text
use mathlib.Core.Bool.{true≢false}
use sport_crawl.Prelude.{
  ℕ, ◌<◌, ◌≤◌, String, true, Option, none, some, ◌≡◌, ◌≢◌, ◌⊎◌, inl, inr, refl, sym, any_char,
  str_eq, eq_iff, if◌then◌else◌, Bool-cases, arith, leb,
}
use sport_crawl.Server.Json.{Json, null, boolean, number, text, array, object}
use sport_crawl.Server.Requests.{WebLibrary, Clearance, Response, no_content}
use sport_crawl.Server.Clearances.{
  Utc, malformed, overflow, utc, parse_utc, has_extra_keys, Payload, read_payload,
  is_allowed_domain, clearance_max_bytes, accept, check_times, check_payload, check_body,
  handle_post_clearance,
}

-- A stored entry: its domain is fbref's, and its two timestamps are in order.
abbrev pub IsVetted : WebLibrary → Clearance → Type 0
IsVetted web c =
    ((c.domain ≡ "fbref.com") ⊎ (c.domain ≡ ".fbref.com"))
    × ((observed : ℕ) × (expires : ℕ) × (parse_utc web c.observed_at ≡ utc observed)
        × (parse_utc web c.expires_at ≡ utc expires)
        × (observed < expires))

-- What the entry has of the payload, which is unexpired and within the size limit.
abbrev pub IsTakenFrom : WebLibrary → ℕ → Payload → Clearance → Type 0
IsTakenFrom web now p c =
    (c.domain ≡ web.strip_lower p.domain)
    × (c.observed_at ≡ p.observed_at)
    × (c.expires_at ≡ p.expires_at)
    × (Text.len p.clearance ≤ clearance_max_bytes)
    × ((expires : ℕ) × (parse_utc web c.expires_at ≡ utc expires) × (now < expires))

-- Either an entry is stored, vetted and taken from the payload, or the store is as it was.
abbrev pub IsStored :
    WebLibrary → ℕ → Option Payload → Option Clearance → Response → Option Clearance → Type 0
IsStored web now payload store answer store' =
    ((answer ≡ no_content)
      × ((p : Payload) × (c : Clearance) × (payload ≡ some p)
          × (store' ≡ some c)
          × IsVetted web c
          × IsTakenFrom web now p c))
    ⊎ ((answer ≢ no_content) × (store' ≡ store))

abbrev pub body_payload : Option Json → Option Payload
body_payload (some (object body)) = if has_extra_keys body then none else read_payload body
body_payload _ = none

is_allowed_domain_lem :
    (domain : String)
    → is_allowed_domain domain ≡ true
    → (domain ≡ "fbref.com") ⊎ (domain ≡ ".fbref.com")
is_allowed_domain_lem domain h = elim (Bool-cases (str_eq domain "fbref.com")) [
  | inl same ↦ inl ((eq_iff domain "fbref.com").0 same)
  | inr other ↦ elim (Bool-cases (str_eq domain ".fbref.com")) [
    | inl same ↦ inr ((eq_iff domain ".fbref.com").0 same)
    | inr neither ↦ elim (Bool-cases (any_char "/\\:@?#[]" domain)) [
      | inl bad ↦ absurd (true≢false (sym (rw bad at h)))
      | inr good ↦ absurd (true≢false (sym (rw (good, other, neither) at h)))
    ]
  ]
]

module _ (web : WebLibrary) (now : ℕ) (payload : Payload) (store : Option Clearance) where
  accept-IsStored :
      (observed expires : ℕ)
      → is_allowed_domain (web.strip_lower payload.domain) ≡ true
      → parse_utc web payload.observed_at ≡ utc observed
      → parse_utc web payload.expires_at ≡ utc expires
      → let (answer, store') =
          accept now (web.strip_lower payload.domain) payload observed expires store in
        IsStored web now (some payload) store answer store'
  accept-IsStored observed expires allowed is_observed is_expires =
      elim (Bool-cases (leb expires observed)) [
        | inl early ↦ simp early (inr (λ e. absurd (cc), refl))
        | inr after ↦ elim (Bool-cases (leb expires now)) [
          | inl expired ↦ simp (after, expired) (inr (λ e. absurd (cc), refl))
          | inr valid ↦ elim (Bool-cases (leb (Text.len payload.clearance) clearance_max_bytes)) [
            | inl small ↦
                simp (after, valid, small)
                  (inl (
                    refl,
                    (
                      payload,
                      record {
                        domain = web.strip_lower payload.domain;
                        expires_at = payload.expires_at;
                        observed_at = payload.observed_at;
                      },
                      refl,
                      refl,
                      (
                        is_allowed_domain_lem (web.strip_lower payload.domain) allowed,
                        (observed, expires, is_observed, is_expires, ground arith),
                      ),
                      (refl, refl, refl, ground arith, (expires, is_expires, ground arith)),
                    ),
                  ))
            | inr large ↦ simp (after, valid, large) (inr (λ e. absurd (cc), refl))
          ]
        ]
      ]

  check_times-IsStored :
      (observed expires : Utc)
      → is_allowed_domain (web.strip_lower payload.domain) ≡ true
      → parse_utc web payload.observed_at ≡ observed
      → parse_utc web payload.expires_at ≡ expires
      → let (answer, store') =
          check_times now (web.strip_lower payload.domain) payload observed expires store in
        IsStored web now (some payload) store answer store'
  check_times-IsStored malformed expires allowed a b = inr (λ e. absurd (cc), refl)
  check_times-IsStored overflow expires allowed a b = inr (λ e. absurd (cc), refl)
  check_times-IsStored (utc o) malformed allowed a b = inr (λ e. absurd (cc), refl)
  check_times-IsStored (utc o) overflow allowed a b = inr (λ e. absurd (cc), refl)
  check_times-IsStored (utc o) (utc x) allowed a b = accept-IsStored o x allowed a b

module _ (web : WebLibrary) (now : ℕ) (store : Option Clearance) where
  check_payload-IsStored :
      (payload : Option Payload)
      → let (answer, store') = check_payload web now payload store in
        IsStored web now payload store answer store'
  check_payload-IsStored none = inr (λ e. absurd (cc), refl)
  check_payload-IsStored (some p) =
      elim (Bool-cases (is_allowed_domain (web.strip_lower p.domain))) [
        | inl allowed ↦ simp allowed (
            check_times-IsStored web now p store (parse_utc web p.observed_at)
              (parse_utc web p.expires_at) allowed refl refl)
        | inr other ↦ simp other (inr (λ e. absurd (cc), refl))
      ]

  check_body-IsStored :
      (body : Option Json)
      → let (answer, store') = check_body web now body store in
        IsStored web now (body_payload body) store answer store'
  check_body-IsStored (some (object body)) = elim (Bool-cases (has_extra_keys body)) [
    | inl extra ↦ simp extra (inr (λ e. absurd (cc), refl))
    | inr exact ↦ simp exact (check_payload-IsStored (read_payload body))
  ]
  check_body-IsStored none = inr (λ e. absurd (cc), refl)
  check_body-IsStored (some null) = inr (λ e. absurd (cc), refl)
  check_body-IsStored (some (boolean _)) = inr (λ e. absurd (cc), refl)
  check_body-IsStored (some (number _)) = inr (λ e. absurd (cc), refl)
  check_body-IsStored (some (text _)) = inr (λ e. absurd (cc), refl)
  check_body-IsStored (some (array _)) = inr (λ e. absurd (cc), refl)

  -- A report is answered 204 exactly when it is stored, and then its domain is fbref's, its
  -- timestamps are in order, it has not expired, and the cookie, which is not stored, fits in 64 KB;
  -- every other answer leaves the store as it was.
  pub handle_post_clearance_stores :
      (content_type : String) (body : Option Json)
      → let (answer, store') = handle_post_clearance web now content_type body store in
        IsStored web now (body_payload body) store answer store'
  unfolding handle_post_clearance
  handle_post_clearance_stores content_type body =
      elim (Bool-cases (str_eq content_type "application/json")) [
        | inl is_json ↦ simp is_json (check_body-IsStored body)
        | inr other ↦ simp other (inr (λ e. absurd (cc), refl))
      ]
