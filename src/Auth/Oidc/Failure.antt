-- ===== src/Auth/Oidc/Failure.antt =====
-- What a login that fails answers.
use tenant_deck.Base.{
  none, ℕ, ◌≤◌, String, str_eq, ◌≡◌, ◌⊎◌, refl, some, List, [], ◌∷◌, arith, is_positive,
  Result-cases, Bool-cases, Option-cases, inl, inr,
}
use tenant_deck.Std.Http.{Request, Cookie, http_error, redirect}
use tenant_deck.Std.Handler.{Conn, serve}
use tenant_deck.Std.Time.{until}
use tenant_deck.Session.Records.{LoginTransaction}
use tenant_deck.Session.Store.{create_session, take_login_transaction}
use tenant_deck.Auth.Cookies.{
  login_state_cookie_name, cleared_login_state_cookie, clear_login_state_cookie, set_session_cookie,
}
use tenant_deck.Auth.Oidc.{
  AuthHandler, Tokens, random_token, constant_time_equal, callback_handler, redeem, open_session,
  match_state,
}
use tenant_deck.Auth.Oidc.Callback.{conn_with, record_of}

-- A client or server error, with the cookies `cs` and no other.
pub record IsFailure {W : Type 0} (cs : List Cookie) (c : Conn W) : Type 0 where
  pub code : ℕ
  pub status : c.writer.status ≡ some code
  pub failed : 400 ≤ code
  pub cookies : c.writer.cookies ≡ cs

abbrev Ends : {W : Type 0} → List Cookie → Conn W → Type 0
Ends cs c = (c.writer.status ≡ some 302) ⊎ IsFailure cs c

fails :
    {W : Type 0} {cs : List Cookie} {c : Conn W} (code : ℕ)
    → 400 ≤ code
    → c.writer.status ≡ some code
    → c.writer.cookies ≡ cs
    → Ends cs c
fails code failed status cookies =
    inr (record { code = code; status = status; failed = failed; cookies = cookies })

module _ {W : Type 0} (h : AuthHandler W) where
  open_session-Ends :
      (tokens : Tokens) (cs : List Cookie) (w : W)
      → Ends cs (open_session h tokens (conn_with h cs w)).1
  unfolding open_session redirect http_error set_session_cookie
  open_session-Ends tokens cs w =
      let w1 = (h.clock.now w).1 in
      let w2 = (random_token h.rand w1).1 in
      let ttl = until tokens.expiration (h.clock.now w).0 in
      elim (Bool-cases (is_positive ttl)) [
        | inr late ↦ fails 401 (omega arith) (rw late refl) (rw late refl)
        | inl alive ↦ elim (Result-cases (random_token h.rand w1).0) [
          | inr (e, undrawn) ↦
              fails 500 (omega arith) (rw (alive, undrawn) refl) (rw (alive, undrawn) refl)
          | inl (csrf, drawn) ↦
              elim (Result-cases
                (create_session h.store (record_of h tokens csrf (h.clock.now w2).0) ttl
                  (h.clock.now w2).1).0) [
                    | inl (id, stored) ↦ inl (rw (alive, drawn, stored) refl)
                    | inr (e, unstored) ↦
                        fails 500 (omega arith) (rw (alive, drawn, unstored) refl)
                          (rw (alive, drawn, unstored) refl)
                  ]
        ]
      ]

  redeem-Ends :
      (r : Request) (txn : LoginTransaction) (cs : List Cookie) (w : W)
      → Ends cs (redeem h r txn (conn_with h cs w)).1
  unfolding redeem http_error
  redeem-Ends r txn cs w = elim (Bool-cases (str_eq (r.query "error") "")) [
    | inr refused ↦ fails 400 (omega arith) (rw refused refl) (rw refused refl)
    | inl quiet ↦ elim (Bool-cases (str_eq (r.query "code") "")) [
      | inl missing ↦ fails 400 (omega arith) (rw (quiet, missing) refl) (rw (quiet, missing) refl)
      | inr given ↦
          elim (Result-cases
            (h.party.code_exchange (r.query "code") txn.nonce txn.pkce_verifier w).0) [
              | inr (e, unexchanged) ↦
                  fails 401 (omega arith) (rw (quiet, given, unexchanged) refl)
                    (rw (quiet, given, unexchanged) refl)
              | inl (tokens, exchanged) ↦
                  rw (quiet, given, exchanged) (open_session-Ends tokens cs _)
            ]
    ]
  ]

  match_state-Ends :
      (r : Request) (state : String) (w : W)
      → Ends
          (cleared_login_state_cookie h.insecure ∷ [])
          (match_state h r state (conn_with h [] w)).1
  unfolding match_state http_error clear_login_state_cookie
  match_state-Ends r state w = elim (Bool-cases (str_eq (r.query "state") "")) [
    | inl empty ↦ fails 400 (omega arith) (rw empty refl) (rw empty refl)
    | inr given ↦ elim (Bool-cases (constant_time_equal (r.query "state") state)) [
      | inr other ↦ fails 400 (omega arith) (rw (given, other) refl) (rw (given, other) refl)
      | inl same ↦ elim (Result-cases (take_login_transaction h.store (r.query "state") w).0) [
        | inr (e, untaken) ↦
            fails 400 (omega arith) (rw (given, same, untaken) refl)
              (rw (given, same, untaken) refl)
        | inl (txn, taken) ↦
            rw (given, same, taken)
              (redeem-Ends r txn (cleared_login_state_cookie h.insecure ∷ []) _)
      ]
    ]
  ]

  -- Every callback is answered: with a redirect, or with a status of 400 or more, and then no
  -- session cookie is set: the only cookie of the answer, if the request carried a login state
  -- cookie, is the one that clears it, and there is none if it carried none.
  pub callback-Ends :
      (r : Request) (w : W)
      → ((serve (callback_handler h r) w).writer.status ≡ some 302)
        ⊎ IsFailure
            (elim (r.cookie (login_state_cookie_name h.insecure)) [
              | none ↦ []
              | some _ ↦ cleared_login_state_cookie h.insecure ∷ []
            ])
            (serve (callback_handler h r) w)
  unfolding callback_handler http_error
  callback-Ends r w = elim (Option-cases (r.cookie (login_state_cookie_name h.insecure))) [
    | inl missing ↦ fails 400 (omega arith) (rw missing refl) (rw missing refl)
    | inr (state, carried) ↦ rw carried (match_state-Ends r state w)
  ]
