-- ===== src/Mockoidc/Token/Issue.antt =====
-- What the provider has checked when it issues tokens.
use tenant_deck.Base.{
  ◌≤◌, true, String, ◌≡◌, ◌≢◌, ◌↔◌, ◌⊎◌, inl, inr, none, some, refl, ok, Result, str_eq, eq_iff,
  arith, Bool-cases, Option-cases, Result-cases, [], ◌∷◌, ltb,
}
use tenant_deck.Std.Base64.{raw_url_encode}
use tenant_deck.Std.Json.{Json, str}
use tenant_deck.Std.Http.{Request, fresh, json, http_error}
use tenant_deck.Std.Handler.{Conn, serve}
use tenant_deck.Mockoidc.{
  signing_alg, signing_key_id, ServerConfig, AuthCode, RefreshToken, State, Library, now,
  random_token, update, write_json, write_token_error,
}
use tenant_deck.Mockoidc.Token.{
  authenticate_client, verify_pkce, claims, issue_tokens, store_refresh, token_response, take_code,
  exchange_code, handle_authorization_code_grant, handle_refresh_token_grant, handle_grant,
  handle_token,
}
use tenant_deck.Mockoidc.Token.Claims.{
  member, IsClaims, claims-IsClaims, IsClient, authenticate_client-IsClient,
}

module _ {W U : Type 0} (cfg : ServerConfig) (lib : Library W U Request) where
  abbrev pub at : State W → Conn (State W)
  at s = record { writer = fresh; world = s }

  -- The answer holds an ID token that is signed over the claims for the subject and the nonce, with the
  -- time that the clock shows at `s`.
  pub record IsIssued (subject nonce : String) (s : State W) (c : Conn (State W)) : Type 0 where
    pub id_token : String
    pub payload : Json
    pub answer : Json
    pub sign : Json → Result String
    pub signer : lib.new_signer signing_alg signing_key_id ≡ ok sign
    pub content : IsClaims cfg subject nonce (now lib s).0 payload
    pub signed : sign payload ≡ ok id_token
    pub body : c.writer.body ≡ json answer ∷ []
    pub held : member "id_token" answer ≡ some (str id_token)

  issue_tokens-IsIssued :
      (subject nonce : String) (s : State W)
      → (issue_tokens cfg lib subject nonce (at s)).1.writer.status ≡ some 200
      → IsIssued subject nonce s (issue_tokens cfg lib subject nonce (at s)).1
  unfolding issue_tokens write_json http_error
  issue_tokens-IsIssued subject nonce s e =
      elim (Result-cases (lib.new_signer signing_alg signing_key_id)) [
        | inr (x, unsignable) ↦ ground arith
        | inl (sign, signer) ↦ elim (Result-cases (sign (claims cfg subject nonce (now lib s).0))) [
          | inl (id_token, signed) ↦ record {
            sign = sign;
            signer = signer;
            id_token = id_token;
            payload = claims cfg subject nonce (now lib s).0;
            content = claims-IsClaims cfg subject nonce (now lib s).0;
            signed = signed;
            answer =
                token_response cfg lib
                  (random_token lib
                    (store_refresh cfg lib subject (random_token lib (now lib s).1).0
                      (random_token lib (now lib s).1).1).1).0
                  id_token (random_token lib (now lib s).1).0;
            body = ground arith;
            held = refl;
          }
          | inr (x, failed) ↦ ground arith
        ]
      ]

  -- A code was presented in time, with the redirect URI that it was asked for and with a verifier
  -- whose challenge it carries; the token is for the subject and the nonce of its authorization.
  pub record IsProved (r : Request) (ac : AuthCode) (s : State W) (c : Conn (State W))
      : Type 0 where
    pub alive : (now lib s).0 ≤ ac.expires_at
    pub destination : r.post_form "redirect_uri" ≡ ac.redirect_uri
    pub verifier : r.post_form "code_verifier" ≢ ""
    pub challenge : raw_url_encode (lib.sum256 (r.post_form "code_verifier")) ≡ ac.code_challenge
    pub issued : IsIssued ac.subject ac.nonce (now lib s).1 c

  -- A refresh token was there and had not expired; the token is for its subject, with no nonce.
  pub record IsRefreshed (r : Request) (s : State W) (c : Conn (State W)) : Type 0 where
    pub rt : RefreshToken
    pub stored : s.tokens (r.post_form "refresh_token") ≡ some rt
    pub alive : (now lib s).0 ≤ rt.expires_at
    pub issued : IsIssued rt.subject "" (now lib s).1 c

  pub verify_pkce_iff :
      (challenge verifier : String)
      → (verify_pkce cfg lib challenge verifier ≡ true)
        ↔ ((verifier ≢ "") × (raw_url_encode (lib.sum256 verifier) ≡ challenge))
  unfolding verify_pkce
  verify_pkce_iff challenge verifier = (
    ground (arith, eq_iff verifier "", eq_iff (raw_url_encode (lib.sum256 verifier)) challenge),
    ground (arith, eq_iff verifier "", eq_iff (raw_url_encode (lib.sum256 verifier)) challenge),
  )

  exchange_code-IsProved :
      (r : Request) (ac : AuthCode) (s : State W)
      → (exchange_code cfg lib r ac (at s)).1.writer.status ≡ some 200
      → IsProved r ac s (exchange_code cfg lib r ac (at s)).1
  unfolding exchange_code write_token_error write_json
  exchange_code-IsProved r ac s e = elim (Bool-cases (ltb ac.expires_at (now lib s).0)) [
    | inl late ↦ ground arith
    | inr alive ↦ elim (Bool-cases (str_eq (r.post_form "redirect_uri") ac.redirect_uri)) [
      | inr elsewhere ↦ ground arith
      | inl same ↦
          elim (Bool-cases (verify_pkce cfg lib ac.code_challenge (r.post_form "code_verifier"))) [
            | inr unproved ↦ ground arith
            | inl proved ↦
                let (verifier, challenge) = (verify_pkce_iff _ _).0 proved in
                record {
                  alive = ground arith;
                  destination = (eq_iff _ _).0 same;
                  verifier = verifier;
                  challenge = challenge;
                  issued =
                      rw (alive, same, proved)
                        (issue_tokens-IsIssued ac.subject ac.nonce _
                          (rw (alive, same, proved) at e));
                }
          ]
    ]
  ]

  -- What a 200 of the token endpoint says: the credentials of the configured client, and a code that
  -- was stored until this request, or a refresh token that was.
  pub record IsTokenAnswer (r : Request) (s : State W) (c : Conn (State W)) : Type 0 where
    pub form : lib.parse_form r ≡ ok tt
    pub client : IsClient cfg lib r
    pub grant :
        ((ac : AuthCode) × (r.post_form "grant_type" ≡ "authorization_code")
          × (s.codes (r.post_form "code") ≡ some ac)
          × IsProved r ac (record s { codes = update s.codes (r.post_form "code") none }) c)
        ⊎ ((r.post_form "grant_type" ≡ "refresh_token") × IsRefreshed r s c)

  refresh-IsRefreshed :
      (r : Request) (s : State W)
      → (handle_refresh_token_grant cfg lib r (at s)).1.writer.status ≡ some 200
      → IsRefreshed r s (handle_refresh_token_grant cfg lib r (at s)).1
  unfolding handle_refresh_token_grant write_token_error write_json
  refresh-IsRefreshed r s e = elim (Option-cases (s.tokens (r.post_form "refresh_token"))) [
    | inl missing ↦ ground arith
    | inr (rt, stored) ↦ elim (Bool-cases (ltb rt.expires_at (now lib s).0)) [
      | inl late ↦ ground arith
      | inr alive ↦ record {
        rt = rt;
        stored = stored;
        alive = ground arith;
        issued =
            rw (stored, alive) (issue_tokens-IsIssued rt.subject "" _ (rw (stored, alive) at e));
      }
    ]
  ]

  grant-IsTokenAnswer :
      (r : Request) (s : State W)
      → lib.parse_form r ≡ ok tt
      → authenticate_client cfg lib r ≡ true
      → (handle_grant cfg lib r (at s)).1.writer.status ≡ some 200
      → IsTokenAnswer r s (handle_grant cfg lib r (at s)).1
  unfolding handle_grant handle_authorization_code_grant take_code write_token_error write_json
  grant-IsTokenAnswer r s form client e =
      elim (Bool-cases (str_eq (r.post_form "grant_type") "authorization_code")) [
        | inl by_code ↦ elim (Option-cases (s.codes (r.post_form "code"))) [
          | inl missing ↦ ground arith
          | inr (ac, stored) ↦ record {
            form = form;
            client = authenticate_client-IsClient cfg lib r client;
            grant = inl (
              ac,
              (eq_iff _ _).0 by_code,
              stored,
              rw (by_code, stored, take_code)
                  (exchange_code-IsProved r ac _ (rw (by_code, stored, take_code) at e)),
            );
          }
        ]
        | inr otherwise ↦ elim (Bool-cases (str_eq (r.post_form "grant_type") "refresh_token")) [
          | inl by_refresh ↦ record {
            form = form;
            client = authenticate_client-IsClient cfg lib r client;
            grant = inr (
              (eq_iff _ _).0 by_refresh,
              rw (otherwise, by_refresh)
                  (refresh-IsRefreshed r s (rw (otherwise, by_refresh) at e)),
            );
          }
          | inr unknown ↦ ground arith
        ]
      ]

  -- A 200 of the token endpoint is given only to a request with the id and the secret of the
  -- configured client, in its Basic credentials or, without any, in its form; and only for a code that
  -- was stored until this request and is presented in time, with the redirect URI it was asked for and
  -- the verifier of its challenge, or for a stored refresh token in time. The ID token in the body is
  -- what the signer gives for claims whose "sub" is the subject of that code or token, whose "aud" and
  -- "iss" are the configured client and issuer, whose "iat" and "exp" are the clock and the clock plus
  -- the configured lifetime, and whose "nonce" is that of the code, if it has one.
  pub handle_token-IsTokenAnswer :
      (r : Request) (s : State W)
      → (serve (handle_token cfg lib r) s).writer.status ≡ some 200
      → IsTokenAnswer r s (serve (handle_token cfg lib r) s)
  unfolding handle_token write_token_error write_json
  handle_token-IsTokenAnswer r s e = elim (Result-cases (lib.parse_form r)) [
    | inr (x, malformed) ↦ ground arith
    | inl (tt, form) ↦ elim (Bool-cases (authenticate_client cfg lib r)) [
      | inr stranger ↦ ground arith
      | inl client ↦
          rw (form, client) (grant-IsTokenAnswer r s form client (rw (form, client) at e))
    ]
  ]
