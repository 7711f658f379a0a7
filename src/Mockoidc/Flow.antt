-- ===== src/Mockoidc/Flow.antt =====
-- The whole flow: from an authorization request to the tokens.
use tenant_deck.Base.{
  ℕ, ◌+◌, ◌*◌, ◌≤◌, true, false, String, ◌≡◌, ◌≢◌, refl, ◌∙◌, Result-cases, inl, inr, none, some,
  ok, Result, str_eq, eq_refl, eq_iff, arith, ltb,
}
use tenant_deck.Std.Base64.{raw_url_encode}
use tenant_deck.Std.Time.{second}
use tenant_deck.Std.Json.{Json}
use tenant_deck.Std.Http.{Request}
use tenant_deck.Std.Handler.{serve}
use tenant_deck.Mockoidc.{
  signing_alg, signing_key_id, ServerConfig, AuthCode, State, Library, now, random_token, update,
  write_json,
}
use tenant_deck.Mockoidc.Authorize.{store_code, grant_code, handle_authorize, subject_of}
use tenant_deck.Mockoidc.Token.{
  authenticate_client, verify_pkce, claims, sign_id_token, issue_tokens, take_code, exchange_code,
  handle_authorization_code_grant, handle_grant, handle_token,
}
use tenant_deck.Mockoidc.Token.Issue.{verify_pkce_iff, at}

nonempty : (t : String) → t ≢ "" → str_eq t "" ≡ false
nonempty t given = ground (arith, eq_iff t "")

module _ {W U : Type 0} (cfg : ServerConfig) (lib : Library W U Request) where
  -- An authorization request as the relying party sends it, for which the code drawn at `s` is
  -- granted.
  pub record IsAsked (r : Request) : Type 0 where
    pub response_type : r.query "response_type" ≡ "code"
    pub client_id : r.query "client_id" ≡ cfg.client_id
    pub redirect_uri : r.query "redirect_uri" ≢ ""
    pub method : r.query "code_challenge_method" ≡ "S256"
    pub challenge : r.query "code_challenge" ≢ ""

  -- The code that a request gets is kept for a minute with the subject, the redirect URI, the nonce
  -- and the challenge of the request.
  abbrev pub code_of : Request → State W → AuthCode
  code_of r s = record {
    subject = subject_of r;
    redirect_uri = r.query "redirect_uri";
    nonce = r.query "nonce";
    code_challenge = r.query "code_challenge";
    expires_at = (now lib (random_token lib s).1).0 + 60 * second;
  }

  handle_authorize_granted :
      (r : Request) (s : State W)
      → IsAsked r
      → serve (handle_authorize cfg lib r) s ≡ (grant_code cfg lib r (at cfg lib s)).1
  unfolding handle_authorize
  handle_authorize_granted r s asked =
      let code = (eq_iff _ _).1 asked.response_type in
      let client = (eq_iff _ _).1 asked.client_id in
      let somewhere = nonempty _ asked.redirect_uri in
      let s256 = (eq_iff _ _).1 asked.method in
      let challenged = nonempty _ asked.challenge in
      rw (code, client, somewhere, s256, challenged) refl

  grant_code_stores :
      (r : Request) (s : State W)
      → (grant_code cfg lib r (at cfg lib s)).1.world.codes (random_token lib s).0
        ≡ some (code_of r s)
  unfolding grant_code store_code
  grant_code_stores r s = elim (Result-cases (lib.parse_url (r.query "redirect_uri"))) [
    | inl (dest, parsed) ↦ rw parsed (rw (eq_refl (random_token lib s).0))
    | inr (e, malformed) ↦ rw malformed (rw (eq_refl (random_token lib s).0))
  ]

  -- The state once the code of the token request `t` has been taken.
  abbrev pub taken : Request → State W → State W
  taken t u = record u { codes = update u.codes (t.post_form "code") none }

  -- What a token request for the code `code`, granted to `a`, has to be at `u`.
  pub record IsPresented (a t : Request) (code : String) (deadline : ℕ) (u : State W) : Type 0 where
    pub form : lib.parse_form t ≡ ok tt
    pub client : authenticate_client cfg lib t ≡ true
    pub grant_type : t.post_form "grant_type" ≡ "authorization_code"
    pub code_sent : t.post_form "code" ≡ code
    pub destination : t.post_form "redirect_uri" ≡ a.query "redirect_uri"
    pub verifier : t.post_form "code_verifier" ≢ ""
    pub challenge :
        raw_url_encode (lib.sum256 (t.post_form "code_verifier")) ≡ a.query "code_challenge"
    pub in_time : (now lib (taken t u)).0 ≤ deadline
    pub sign : Json → Result String
    pub signer : lib.new_signer signing_alg signing_key_id ≡ ok sign
    pub id_token : String
    pub signed :
        sign (claims cfg (subject_of a) (a.query "nonce") (now lib (now lib (taken t u)).1).0)
        ≡ ok id_token

  exchange_code_answers :
      (a t : Request) (ac : AuthCode) (sign : Json → Result String) (id_token : String)
      (v : State W)
      → ltb ac.expires_at (now lib v).0 ≡ false
      → str_eq (t.post_form "redirect_uri") ac.redirect_uri ≡ true
      → verify_pkce cfg lib ac.code_challenge (t.post_form "code_verifier") ≡ true
      → lib.new_signer signing_alg signing_key_id ≡ ok sign
      → sign (claims cfg ac.subject ac.nonce (now lib (now lib v).1).0) ≡ ok id_token
      → (exchange_code cfg lib t ac (at cfg lib v)).1.writer.status ≡ some 200
  unfolding exchange_code issue_tokens sign_id_token write_json
  exchange_code_answers a t ac sign id_token v alive same proved signer signed =
      rw (alive, same, proved, sign_id_token, signer, signed)

  -- A code that was granted to an authorization request, and that no request has taken since, is
  -- exchanged for tokens: any token request of the configured client within the minute that has the
  -- code, the redirect URI and the verifier of the challenge is answered 200, if the token can be
  -- signed.
  pub granted_code_is_exchanged :
      (a t : Request) (s u : State W)
      → IsAsked a
      → u.codes (random_token lib s).0
        ≡ (serve (handle_authorize cfg lib a) s).world.codes (random_token lib s).0
      → IsPresented a t (random_token lib s).0 (code_of a s).expires_at u
      → (serve (handle_token cfg lib t) u).writer.status ≡ some 200
  unfolding handle_token handle_grant handle_authorization_code_grant take_code
  granted_code_is_exchanged a t s u asked kept p =
      let stored : u.codes (t.post_form "code") ≡ some (code_of a s) =
        rw p.code_sent (kept ∙ rw (handle_authorize_granted a s asked) (grant_code_stores a s)) in
      let granted = (eq_iff _ _).1 p.grant_type in
      let alive : ltb (code_of a s).expires_at (now lib (taken t u)).0 ≡ false = ground arith in
      let proved =
        (verify_pkce_iff cfg lib (a.query "code_challenge") (t.post_form "code_verifier")).1
          (p.verifier, p.challenge) in
      rw (p.form, p.client, granted, stored, take_code)
        (exchange_code_answers a t (code_of a s) p.sign p.id_token (taken t u) alive
          ((eq_iff _ _).1 p.destination) proved p.signer p.signed)
