-- ===== src/Server/Access.antt =====
-- infrastructure/work_server/server.py: who reaches the handlers, and what they keep.
use Prim.Native.String as Text
use sport_crawl.Prelude.{
  String, true, false, some, ◌≡◌, ◌≢◌, ◌⊎◌, inl, inr, refl, sym, ap, ◌∙◌, ◌&&◌, str_eq, is_ascii,
  starts_with, append-drop_prefix, starts_with-append, drop_prefix-append, eq_iff, Bool-cases,
}
use sport_crawl.Server.Requests.{Application, Setup, Request, Response, server_error}
use sport_crawl.Server.Routes.{
  dispatch, header, is_exempt, unauthorized, provided, compare_digest, with_digest,
  bearer_auth_middleware, serve,
}

-- A digest that is not the token's lets nothing through.
with_digest_refuses :
    (a b : String) (handled : Response × Application) (app : Application)
    → a ≢ b
    → let answer = with_digest (compare_digest a b) handled app in
      ((answer.0 ≡ unauthorized) ⊎ (answer.0 ≡ server_error)) × (answer.1 ≡ app)
with_digest_refuses a b handled app other = elim (Bool-cases (is_ascii a && is_ascii b)) [
  | inl ascii ↦ elim (Bool-cases (str_eq a b)) [
    | inl yes_ab ↦ absurd (other ((eq_iff a b).0 yes_ab))
    | inr no_ab ↦ simp (ascii, no_ab) (inl refl, refl)
  ]
  | inr not_ascii ↦ simp not_ascii (inr refl, refl)
]

-- A request to another path than /health, without the header "Bearer <token>", is answered 401, or
-- 500 when the texts are not ASCII, and changes nothing.
pub serve-unauthorized :
    (setup : Setup) (request : Request) (app : Application)
    → is_exempt request ≡ false
    → header request.authorization ≢ Text.◌++◌ "Bearer " setup.token
    → let (answer, app') = serve setup request app in
      ((answer ≡ unauthorized) ⊎ (answer ≡ server_error)) × (app' ≡ app)
unfolding serve bearer_auth_middleware
serve-unauthorized setup request app guarded other =
    elim (Bool-cases (starts_with (header request.authorization) "Bearer ")) [
      | inl bearer ↦
          simp (guarded, bearer)
            (with_digest_refuses (provided (header request.authorization)) setup.token
              (dispatch setup request request.route app) app
              (λ e. other (
                sym (append-drop_prefix "Bearer " (header request.authorization) bearer)
                ∙ ap (λ x. Text.◌++◌ "Bearer " x) e)))
      | inr bare ↦ simp (guarded, bare) (inl refl, refl)
    ]

-- With the header "Bearer <token>" and an ASCII token, the handler of the route answers.
pub serve_authorized :
    (setup : Setup) (request : Request) (app : Application)
    → is_ascii setup.token ≡ true
    → request.authorization ≡ some (Text.◌++◌ "Bearer " setup.token)
    → serve setup request app ≡ dispatch setup request request.route app
unfolding serve bearer_auth_middleware
serve_authorized setup request app ascii bearer = elim (Bool-cases (is_exempt request)) [
  | inl exempt ↦ simp exempt refl
  | inr guarded ↦
      simp
        (
          guarded,
          bearer,
          starts_with-append "Bearer " setup.token,
          drop_prefix-append "Bearer " setup.token,
          ascii,
          (eq_iff setup.token setup.token).1 refl,
        )
        refl
]
