-- ===== src/Mockoidc/Authorize.antt =====
-- cmd/mockoidc/server.go: the authorization endpoint, which asks nobody for credentials.
use tenant_deck.Base.{◌+◌, ◌*◌, ◌||◌, not, String, List, [], ◌∷◌, some, str_eq, if◌then◌else◌}
use tenant_deck.Std.Http.{Request, http_error, redirect}
use tenant_deck.Std.Handler.{Handler, emit, require, check, read, ◌>>=◌, ◌>>◌}
use tenant_deck.Std.Time.{second}
use tenant_deck.Mockoidc.{ServerConfig, State, Library, now, random_token, update}

abbrev pub default_subject : String
default_subject = "test-user@example.com"

abbrev pub subject_of : Request → String
subject_of r = if str_eq (r.query "login_hint") "" then default_subject else r.query "login_hint"

-- The query of the redirect.
abbrev pub answer_query : Request → String → List (String × String)
answer_query r code =
    ("code", code)
    ∷ (if not (str_eq (r.query "state") "") then ("state", r.query "state") ∷ [] else [])

module _ {W U : Type 0} (cfg : ServerConfig) (lib : Library W U Request) where
  -- The locked section that stores a code. The clock is read in it.
  unfoldable pub store_code : Request → String → State W → Unit {0} × State W
  unfolding now
  store_code r code s =
      let (t, s') = now lib s in
      (
        tt,
        record s' {
          codes = update s'.codes code (
              some (record {
                subject = subject_of r;
                redirect_uri = r.query "redirect_uri";
                nonce = r.query "nonce";
                code_challenge = r.query "code_challenge";
                expires_at = t + 60 * second;
              }));
        },
      )

  -- The part of the handler that is after the checks.
  unfoldable pub grant_code : Request → Handler (State W) (Unit {0})
  unfolding random_token store_code
  grant_code r = do
    code ← read (random_token lib)
    read (store_code r code)
    dest ←
        check (lib.parse_url (r.query "redirect_uri"))
          (λ _. http_error "invalid_request: malformed redirect_uri" 400)
    emit (redirect (lib.with_query dest (answer_query r code)) 302)

  unfoldable pub handle_authorize : Request → Handler (State W) (Unit {0})
  handle_authorize r = do
    require (str_eq (r.query "response_type") "code") (http_error "unsupported_response_type" 400)
    require (str_eq (r.query "client_id") cfg.client_id) (http_error "unauthorized_client" 400)
    require (not (str_eq (r.query "redirect_uri") ""))
        (http_error "invalid_request: redirect_uri required" 400)
    require
        (not (
          not (str_eq (r.query "code_challenge_method") "S256")
          || str_eq (r.query "code_challenge") ""))
        (http_error "invalid_request: PKCE (S256) is required" 400)
    grant_code r
