-- ===== src/Mockoidc/Token.antt =====
-- cmd/mockoidc/server.go: the token endpoint, with its two grants.
pub mod Claims
pub mod Issue
pub mod OneUse
use tenant_deck.Base.{
  ℕ, ◌+◌, ◌*◌, ◌/◌, Bool, false, ◌&&◌, not, String, List, [], ◌∷◌, ◌++◌, Option, none, some, Result,
  ok, err, pos, str_eq, if◌then◌else◌,
}
use tenant_deck.Std.Base64.{raw_url_encode}
use tenant_deck.Std.Json.{Json, num, str, obj, fields}
use tenant_deck.Std.Strconv.{format_int, format_nat}
use tenant_deck.Std.Http.{Request, http_error}
use tenant_deck.Std.Handler.{Handler, emit, answer, require, need, check, read, ◌>>=◌, ◌>>◌}
use tenant_deck.Std.Time.{second}
use tenant_deck.Mockoidc.{
  signing_alg, signing_key_id, ServerConfig, AuthCode, RefreshToken, State, Library, now,
  random_token, update, is_after, write_json, write_token_error, unix,
}

-- The keys of a map are printed in order.
unfoldable pub claims : ServerConfig → String → String → ℕ → Json
unfolding unix format_int
claims cfg subject nonce t = obj (
    fields (
      ("aud", str cfg.client_id)
      ∷ ("exp", num (format_int (unix (t + cfg.id_token_ttl))))
      ∷ ("iat", num (format_int (unix t)))
      ∷ ("iss", str cfg.issuer_url)
      ∷ ((if not (str_eq nonce "") then ("nonce", str nonce) ∷ [] else [])
          ++ ("sub", str subject) ∷ [])))

module _ {W U : Type 0} (cfg : ServerConfig) (lib : Library W U Request) where
  unfoldable pub authenticate_client : Request → Bool
  authenticate_client r = elim (lib.basic_auth r) [
    | some (id, secret) ↦ str_eq id cfg.client_id && str_eq secret cfg.client_secret
    | none ↦
        str_eq (r.post_form "client_id") cfg.client_id
        && str_eq (r.post_form "client_secret") cfg.client_secret
  ]

  unfoldable pub verify_pkce : String → String → Bool
  unfolding raw_url_encode
  verify_pkce challenge verifier =
      if str_eq verifier "" then false else str_eq (raw_url_encode (lib.sum256 verifier)) challenge

  unfoldable pub sign_id_token : String → String → State W → Result String × State W
  unfolding now
  sign_id_token subject nonce s = elim (lib.new_signer signing_alg signing_key_id) [
    | err e ↦ (err e, s)
    | ok sign ↦ let (t, s') = now lib s in (sign (claims cfg subject nonce t), s')
  ]

  -- The locked section that stores a refresh token.
  unfoldable pub store_refresh : String → String → State W → Unit {0} × State W
  unfolding now
  store_refresh subject refresh s =
      let (t, s') = now lib s in
      (
        tt,
        record s' {
          tokens =
              update s'.tokens refresh
                (some (record { subject = subject; expires_at = t + 3600 * second }));
        },
      )

  abbrev pub token_response : String → String → String → Json
  token_response access_token id_token refresh = obj (
      fields (
        ("access_token", str access_token)
        ∷ ("expires_in", num (format_nat (cfg.id_token_ttl / second)))
        ∷ ("id_token", str id_token)
        ∷ ("refresh_token", str refresh)
        ∷ ("token_type", str "Bearer")
        ∷ []))

  unfoldable pub issue_tokens : String → String → Handler (State W) (Unit {0})
  unfolding sign_id_token random_token store_refresh
  issue_tokens subject nonce = do
    signed ← read (sign_id_token subject nonce)
    id_token ← check signed (λ _. http_error "server_error" 500)
    refresh ← read (random_token lib)
    read (store_refresh subject refresh)
    access_token ← read (random_token lib)
    emit (write_json 200 (token_response access_token id_token refresh))

  -- The locked section that looks a code up and deletes it.
  unfoldable pub take_code : String → State W → Option AuthCode × State W
  take_code code s = elim (s.codes code) [
    | none ↦ (none, s)
    | some ac ↦ (some ac, record s { codes = update s.codes code none })
  ]

  -- The part of the grant that is after the code has been taken.
  unfoldable pub exchange_code : Request → AuthCode → Handler (State W) (Unit {0})
  unfolding now
  exchange_code r ac = do
    t ← read (now lib)
    require (not (is_after t ac.expires_at)) (write_token_error "invalid_grant")
    require (str_eq (r.post_form "redirect_uri") ac.redirect_uri)
        (write_token_error "invalid_grant")
    require (verify_pkce ac.code_challenge (r.post_form "code_verifier"))
        (write_token_error "invalid_grant")
    issue_tokens ac.subject ac.nonce

  unfoldable pub handle_authorization_code_grant : Request → Handler (State W) (Unit {0})
  handle_authorization_code_grant r = do
    found ← read (take_code (r.post_form "code"))
    ac ← need found (write_token_error "invalid_grant")
    exchange_code r ac

  -- The locked section that looks a refresh token up.
  abbrev pub find_token : String → State W → Option RefreshToken × State W
  find_token token s = (s.tokens token, s)

  unfoldable pub handle_refresh_token_grant : Request → Handler (State W) (Unit {0})
  unfolding now
  handle_refresh_token_grant r = do
    found ← read (find_token (r.post_form "refresh_token"))
    rt ← need found (write_token_error "invalid_grant")
    t ← read (now lib)
    require (not (is_after t rt.expires_at)) (write_token_error "invalid_grant")
    issue_tokens rt.subject ""

  -- The switch on the grant type.
  unfoldable pub handle_grant : Request → Handler (State W) (Unit {0})
  handle_grant r =
      if str_eq (r.post_form "grant_type") "authorization_code"
      then handle_authorization_code_grant r
      else if str_eq (r.post_form "grant_type") "refresh_token"
      then handle_refresh_token_grant r
      else answer (write_token_error "unsupported_grant_type")

  unfoldable pub handle_token : Request → Handler (State W) (Unit {0})
  handle_token r = do
    check (lib.parse_form r) (λ _. write_token_error "invalid_request")
    require (authenticate_client r) (write_token_error "invalid_client")
    handle_grant r
