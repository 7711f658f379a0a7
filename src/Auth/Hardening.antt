-- ===== src/Auth/Hardening.antt =====
-- Every cookie that a handler of this package sets, on every branch.
use tenant_deck.Base.{
  String, Bool, true, not, ◌≡◌, ◌⊎◌, inl, inr, Result-cases, Option-cases, arith, All, [], ◌∷◌,
  if◌then◌else◌,
}
use tenant_deck.Std.Http.{
  Request, Cookie, lax, strict, http_error, redirect, write_json, write_header,
}
use tenant_deck.Std.Handler.{serve, Conn}
use tenant_deck.Auth.Cookies.{
  cleared_login_state_cookie, login_state_cookie_name, session_cookie_name, set_login_state_cookie,
  clear_login_state_cookie, set_session_cookie, clear_session_cookie,
}
use tenant_deck.Auth.Oidc.{
  AuthHandler, login_handler, callback_handler, match_state, redeem, open_session, Tokens,
}
use tenant_deck.Auth.Oidc.Callback.{conn_with}
use tenant_deck.Session.Records.{LoginTransaction}
use tenant_deck.Session.Store.{take_login_transaction}
use tenant_deck.Auth.Sessions.{session_handler, logout_handler}

-- HttpOnly, for the whole site, Secure with a `__Host-` name unless in insecure mode; Strict for the
-- session and Lax for the login state.
pub record IsHardened (insecure : Bool) (c : Cookie) : Type 0 where
  pub http_only : c.http_only ≡ true
  pub path : c.path ≡ "/"
  pub secure : c.secure ≡ not insecure
  pub kind :
      ((c.name ≡ (if insecure then "td-session" else "__Host-td-session")) × (c.same_site ≡ strict))
      ⊎ ((c.name ≡ (if insecure then "td-login-state" else "__Host-td-login-state"))
          × (c.same_site ≡ lax))

module _ {W : Type 0} (h : AuthHandler W) (r : Request) (w : W) where
  -- The connection once the login state's cookie has been cleared.
  abbrev cleared : W → Conn W
  cleared = conn_with h (cleared_login_state_cookie h.insecure ∷ [])

  login-IsHardened : All (IsHardened h.insecure) (serve (login_handler h r) w).writer.cookies
  unfolding login_handler http_error redirect set_login_state_cookie login_state_cookie_name
  login-IsHardened = ground arith

  open_session-IsHardened :
      (tokens : Tokens) (w' : W)
      → All (IsHardened h.insecure) (open_session h tokens (cleared w')).1.writer.cookies
  unfolding open_session http_error redirect set_session_cookie login_state_cookie_name
      session_cookie_name
  open_session-IsHardened tokens w' = ground arith

  redeem-IsHardened :
      (txn : LoginTransaction) (w' : W)
      → All (IsHardened h.insecure) (redeem h r txn (cleared w')).1.writer.cookies
  unfolding redeem http_error login_state_cookie_name
  redeem-IsHardened txn w' =
      elim (Result-cases
        (h.party.code_exchange (r.query "code") txn.nonce txn.pkce_verifier w').0) [
          | inl (tokens, e) ↦ ground (
            arith,
            open_session-IsHardened tokens
                (h.party.code_exchange (r.query "code") txn.nonce txn.pkce_verifier w').1,
          )
          | inr (x, e) ↦ ground arith
        ]

  match_state-IsHardened :
      (state : String)
      → All (IsHardened h.insecure) (match_state h r state (conn_with h [] w)).1.writer.cookies
  unfolding match_state http_error clear_login_state_cookie login_state_cookie_name
  match_state-IsHardened state =
      elim (Result-cases (take_login_transaction h.store (r.query "state") w).0) [
        | inl (txn, e) ↦
            ground
              (arith, redeem-IsHardened txn (take_login_transaction h.store (r.query "state") w).1)
        | inr (x, e) ↦ ground arith
      ]

  callback-IsHardened : All (IsHardened h.insecure) (serve (callback_handler h r) w).writer.cookies
  unfolding callback_handler http_error
  callback-IsHardened = elim (Option-cases (r.cookie (login_state_cookie_name h.insecure))) [
    | inl missing ↦ rw missing tt
    | inr (state, e) ↦ rw e (match_state-IsHardened state)
  ]

  session-IsHardened : All (IsHardened h.insecure) (serve (session_handler h r) w).writer.cookies
  unfolding session_handler http_error write_json
  session-IsHardened = ground arith

  logout-IsHardened : All (IsHardened h.insecure) (serve (logout_handler h r) w).writer.cookies
  unfolding logout_handler http_error write_header clear_session_cookie session_cookie_name
  logout-IsHardened = ground arith

-- Every cookie that login, callback, session status and logout set, on every branch, is HttpOnly, for
-- the path "/", Secure with a `__Host-` name unless in insecure mode, and SameSite Strict for the
-- session cookie or Lax for the login state.
pub cookies-IsHardened :
    {W : Type 0} (h : AuthHandler W) (r : Request) (w : W)
    → All (IsHardened h.insecure) (serve (login_handler h r) w).writer.cookies
      × All (IsHardened h.insecure) (serve (callback_handler h r) w).writer.cookies
      × All (IsHardened h.insecure) (serve (session_handler h r) w).writer.cookies
      × All (IsHardened h.insecure) (serve (logout_handler h r) w).writer.cookies
cookies-IsHardened h r w = (
  login-IsHardened h r w,
  callback-IsHardened h r w,
  session-IsHardened h r w,
  logout-IsHardened h r w,
)
