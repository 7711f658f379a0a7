-- ===== src/Mockoidc/Token/OneUse.antt =====
-- A code is worth one exchange, in any order of the locked sections of concurrent requests.
use tenant_deck.Base.{
  String, true, false, ◌≡◌, refl, ap, ok, none, some, inl, inr, str_eq, eq_refl, eq_iff, arith,
  Bool-cases, ltb, Option-cases, Result-cases, ◌∙◌,
}
use tenant_deck.Std.Http.{Request}
use tenant_deck.Std.Handler.{Conn, serve}
use tenant_deck.Mockoidc.{
  ServerConfig, AuthCode, State, Library, now, random_token, signing_alg, signing_key_id,
  write_json, write_token_error,
}
use tenant_deck.Mockoidc.Authorize.{store_code}
use tenant_deck.Mockoidc.Token.{
  authenticate_client, verify_pkce, claims, sign_id_token, issue_tokens, exchange_code,
  handle_refresh_token_grant, take_code, store_refresh, handle_authorization_code_grant,
  handle_grant, handle_token,
}

module _ {W U : Type 0} (cfg : ServerConfig) (lib : Library W U Request) where
  -- One locked section of some request, in which `code` is not stored anew, or anything that leaves
  -- the codes alone: a lookup, the clock, the random source.
  pub data Step (code : String) : State W → State W → Type 0 where
    stored :
        (r : Request) (drawn : String) (s : State W)
        → str_eq drawn code ≡ false
        → Step code s (store_code cfg lib r drawn s).1
    taken : (c : String) (s : State W) → Step code s (take_code cfg lib c s).1
    refresh_stored :
        (subject refresh : String) (s : State W)
        → Step code s (store_refresh cfg lib subject refresh s).1
    elsewhere : (s t : State W) → t.codes ≡ s.codes → Step code s t

  pub data Run (code : String) (s : State W) : State W → Type 0 where
    here : Run code s s
    next : {t u : State W} → Run code s t → Step code t u → Run code s u

  take-absent : (code : String) (s : State W) → (take_code cfg lib code s).1.codes code ≡ none
  unfolding take_code
  take-absent code s = elim (Option-cases (s.codes code)) [
    | inl missing ↦ rw (missing, take_code) missing
    | inr (ac, there) ↦ rw (there, take_code) (rw (eq_refl code))
  ]

  Step-absent :
      {code : String} {s t : State W} → Step code s t → s.codes code ≡ none → t.codes code ≡ none
  unfolding store_code take_code store_refresh now
  Step-absent (stored r drawn s other) gone = ground arith
  Step-absent {code} (taken c s) gone = elim (Option-cases (s.codes c)) [
    | inl missing ↦ rw (missing, take_code) gone
    | inr (ac, there) ↦ ground arith
  ]
  Step-absent (refresh_stored subject refresh s) gone = gone
  Step-absent {code} (elsewhere s t same) gone = ap (λ (m : String → _). m code) same ∙ gone

  Run-absent :
      {code : String} {s t : State W} → Run code s t → s.codes code ≡ none → t.codes code ≡ none
  Run-absent here gone = gone
  Run-absent (next r st) gone = Step-absent st (Run-absent r gone)

  absent_refused :
      (r : Request) (s : State W)
      → s.codes (r.post_form "code") ≡ none
      → r.post_form "grant_type" ≡ "authorization_code"
      → (serve (handle_token cfg lib r) s).writer.status ≡ some 400
  unfolding handle_token handle_grant handle_authorization_code_grant take_code write_token_error
      write_json
  absent_refused r s gone by_code = elim (Result-cases (lib.parse_form r)) [
    | inr (x, malformed) ↦ ground arith
    | inl (tt, form) ↦ elim (Bool-cases (authenticate_client cfg lib r)) [
      | inr stranger ↦ ground arith
      | inl client ↦
          let granted : str_eq (r.post_form "grant_type") "authorization_code" ≡ true =
            (eq_iff _ _).1 by_code in
          rw (form, client, granted, gone, take_code) (ground arith)
    ]
  ]

  -- Issuing tokens leaves the codes alone.
  issue_tokens_keeps :
      (subject nonce : String) (c : Conn (State W))
      → (issue_tokens cfg lib subject nonce c).1.world.codes ≡ c.world.codes
  unfolding issue_tokens sign_id_token store_refresh random_token now
  issue_tokens_keeps subject nonce c =
      elim (Result-cases (lib.new_signer signing_alg signing_key_id)) [
        | inr (e, unsignable) ↦ rw (sign_id_token, unsignable) refl
        | inl (sign, signer) ↦
            elim (Result-cases
              (sign (claims cfg subject nonce (lib.clock.now c.world.outside).0))) [
                | inr (e, unsigned) ↦ rw (sign_id_token, signer, unsigned) refl
                | inl (id_token, signed) ↦ rw (sign_id_token, signer, signed) refl
              ]
      ]

  exchange_code_keeps :
      (r : Request) (ac : AuthCode) (c : Conn (State W))
      → (exchange_code cfg lib r ac c).1.world.codes ≡ c.world.codes
  unfolding exchange_code now
  exchange_code_keeps r ac c =
      elim (Bool-cases (ltb ac.expires_at (lib.clock.now c.world.outside).0)) [
        | inl late ↦ rw late refl
        | inr alive ↦ elim (Bool-cases (str_eq (r.post_form "redirect_uri") ac.redirect_uri)) [
          | inr other ↦ rw (alive, other) refl
          | inl same ↦
              elim (Bool-cases
                (verify_pkce cfg lib ac.code_challenge (r.post_form "code_verifier"))) [
                  | inr unproved ↦ rw (alive, same, unproved) refl
                  | inl proved ↦ rw (alive, same, proved) (issue_tokens_keeps ac.subject ac.nonce _)
                ]
        ]
      ]

  refresh_keeps :
      (r : Request) (c : Conn (State W))
      → (handle_refresh_token_grant cfg lib r c).1.world.codes ≡ c.world.codes
  unfolding handle_refresh_token_grant now
  refresh_keeps r c = elim (Option-cases (c.world.tokens (r.post_form "refresh_token"))) [
    | inl missing ↦ rw missing refl
    | inr (rt, found) ↦ elim (Bool-cases (ltb rt.expires_at (lib.clock.now c.world.outside).0)) [
      | inl late ↦ rw (found, late) refl
      | inr alive ↦ rw (found, alive) (issue_tokens_keeps rt.subject "" _)
    ]
  ]

  -- What a request with an authorization code leaves of the codes, is what taking its code leaves.
  code_grant_codes :
      (r : Request) (c : Conn (State W))
      → (handle_authorization_code_grant cfg lib r c).1.world.codes
        ≡ (take_code cfg lib (r.post_form "code") c.world).1.codes
  unfolding handle_authorization_code_grant take_code
  code_grant_codes r c = elim (Option-cases (c.world.codes (r.post_form "code"))) [
    | inl missing ↦ rw (missing, take_code) refl
    | inr (ac, stored') ↦ rw (stored', take_code) (exchange_code_keeps r ac _)
  ]

  -- A whole request at the token endpoint is such a run.
  pub handle_token-Run :
      (code : String) (r : Request) (s : State W)
      → Run code s (serve (handle_token cfg lib r) s).world
  unfolding handle_token handle_grant
  handle_token-Run code r s = elim (Result-cases (lib.parse_form r)) [
    | inr (x, malformed) ↦ rw malformed here
    | inl (tt, form) ↦ elim (Bool-cases (authenticate_client cfg lib r)) [
      | inr stranger ↦ rw (form, stranger) here
      | inl client ↦ elim (Bool-cases (str_eq (r.post_form "grant_type") "authorization_code")) [
        | inl by_code ↦
            rw (form, client, by_code)
              (next (next here (taken (r.post_form "code") s))
                (elsewhere _ _ (code_grant_codes r _)))
        | inr otherwise ↦ elim (Bool-cases (str_eq (r.post_form "grant_type") "refresh_token")) [
          | inl by_refresh ↦
              rw (form, client, otherwise, by_refresh)
                (next here (elsewhere _ _ (refresh_keeps r _)))
          | inr unknown ↦ rw (form, client, otherwise, unknown) here
        ]
      ]
    ]
  ]

  used_up :
      (r : Request) (s : State W)
      → lib.parse_form r ≡ ok tt
      → authenticate_client cfg lib r ≡ true
      → r.post_form "grant_type" ≡ "authorization_code"
      → (serve (handle_token cfg lib r) s).world.codes (r.post_form "code") ≡ none
  unfolding handle_token handle_grant
  used_up r s form client by_code =
      let granted : str_eq (r.post_form "grant_type") "authorization_code" ≡ true =
        (eq_iff _ _).1 by_code in
      rw (form, client, granted)
        (ap (λ (m : String → _). m (r.post_form "code")) (code_grant_codes r _)
          ∙ take-absent (r.post_form "code") s)

  -- Once the configured client has made a token request with a code, whatever became of it, every
  -- later token request with that code is answered 400: after any locked sections of other requests,
  -- in any order, in which the code is not drawn anew.
  pub code_once :
      (first later : Request) (s t : State W)
      → lib.parse_form first ≡ ok tt
      → authenticate_client cfg lib first ≡ true
      → first.post_form "grant_type" ≡ "authorization_code"
      → Run (first.post_form "code") (serve (handle_token cfg lib first) s).world t
      → later.post_form "code" ≡ first.post_form "code"
      → later.post_form "grant_type" ≡ "authorization_code"
      → (serve (handle_token cfg lib later) t).writer.status ≡ some 400
  code_once first later s t form client first_grant run same by_code =
      absent_refused later t (rw same (Run-absent run (used_up first s form client first_grant)))
        by_code
