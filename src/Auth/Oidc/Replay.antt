-- ===== src/Auth/Oidc/Replay.antt =====
-- A login state is worth one callback: what becomes of a second one.
use tenant_deck.Base.{
  String, ◌+++◌, false, str_eq, ◌≡◌, ◌≢◌, ◌∙◌, refl, none, some, ok, inl, inr, [], arith,
  is_positive, Result-cases, Bool-cases, Option-cases, eq_iff,
}
use tenant_deck.Std.Http.{Request, http_error}
use tenant_deck.Std.Handler.{Conn, serve}
use tenant_deck.Std.Time.{until}
use tenant_deck.Session.Records.{LoginTransaction}
use tenant_deck.Session.Contract.{IsKeyValue, IsApart}
use tenant_deck.Session.Keys.{str_eq-session-login}
use tenant_deck.Session.OneUse.{Run, Run-absent, take-absent, take_of_absent, create_session_frame}
use tenant_deck.Session.Store.{create_session, take_login_transaction, login_key_prefix}
use tenant_deck.Auth.Cookies.{login_state_cookie_name, clear_login_state_cookie}
use tenant_deck.Auth.Oidc.{
  AuthHandler, Tokens, random_token, callback_handler, redeem, open_session, match_state,
}
use tenant_deck.Auth.Oidc.Callback.{constant_time_equal_iff, conn_with, record_of}

-- The clock, the random source and the identity provider leave the store's keys alone.
pub record IsOutside {W : Type 0} (h : AuthHandler W) (kv : IsKeyValue h.store.backend)
    : Type 0 where
  pub now_keeps : (k : String) (w : W) → kv.view (h.clock.now w).1 k ≡ kv.view w k
  pub token_keeps : (k : String) (w : W) → kv.view (random_token h.rand w).1 k ≡ kv.view w k
  pub exchange_keeps :
      (code nonce verifier k : String) (w : W)
      → kv.view (h.party.code_exchange code nonce verifier w).1 k ≡ kv.view w k

module _ {W : Type 0} (h : AuthHandler W) (kv : IsKeyValue h.store.backend)
    (apart : IsApart h.store.backend h.store.rand kv) (outside : IsOutside h kv)
    (state : String) where
  abbrev key : String
  key = login_key_prefix +++ state

  open_session_keeps :
      (tokens : Tokens) (c : Conn W)
      → kv.view (open_session h tokens c).1.world key ≡ kv.view c.world key
  unfolding open_session
  open_session_keeps tokens c =
      let w1 = (h.clock.now c.world).1 in
      let w2 = (random_token h.rand w1).1 in
      let now = (h.clock.now w2).0 in
      let w3 = (h.clock.now w2).1 in
      let ttl = until tokens.expiration (h.clock.now c.world).0 in
      let k1 = outside.now_keeps key c.world in
      let k2 = outside.token_keeps key w1 in
      let k3 = outside.now_keeps key w2 in
      elim (Bool-cases (is_positive ttl)) [
        | inr late ↦ rw late k1
        | inl lives ↦ elim (Result-cases (random_token h.rand w1).0) [
          | inr (x, failed) ↦ rw (lives, failed) (k2 ∙ k1)
          | inl (csrf, drawn) ↦
              let k4 =
                create_session_frame h.store kv apart key (record_of h tokens csrf now) ttl w3
                  (λ id _. str_eq-session-login id state) in
              elim (Result-cases (create_session h.store (record_of h tokens csrf now) ttl w3).0) [
                | inr (x, failed) ↦ ground arith
                | inl (id, stored) ↦ ground arith
              ]
        ]
      ]

  redeem_keeps :
      (r : Request) (txn : LoginTransaction) (c : Conn W)
      → kv.view (redeem h r txn c).1.world key ≡ kv.view c.world key
  unfolding redeem
  redeem_keeps r txn c =
      let exchange = h.party.code_exchange (r.query "code") txn.nonce txn.pkce_verifier c.world in
      let k1 = outside.exchange_keeps (r.query "code") txn.nonce txn.pkce_verifier key c.world in
      elim (Bool-cases (str_eq (r.query "error") "")) [
        | inr refused ↦ rw refused
        | inl quiet ↦ elim (Bool-cases (str_eq (r.query "code") "")) [
          | inl missing ↦ rw (quiet, missing)
          | inr given ↦ elim (Result-cases exchange.0) [
            | inl (tokens, e) ↦ rw (quiet, given, e) (open_session_keeps tokens _ ∙ k1)
            | inr (x, e) ↦ rw (quiet, given, e) k1
          ]
        ]
      ]

  match_state_absent :
      (r : Request) (w : W) (txn : LoginTransaction)
      → r.query "state" ≡ state
      → state ≢ ""
      → (take_login_transaction h.store state w).0 ≡ ok txn
      → kv.view (match_state h r state (conn_with h [] w)).1.world key ≡ none
  unfolding match_state clear_login_state_cookie
  match_state_absent r w txn same given taken =
      let other : str_eq state "" ≡ false = ground (arith, eq_iff state "") in
      rw (same, other, (constant_time_equal_iff state state).1 refl, taken)
        (redeem_keeps r txn _ ∙ take-absent h.store kv apart state w txn taken)

  match_state_refused :
      (r : Request) (carried : String) (w : W)
      → r.query "state" ≡ state
      → kv.view w key ≡ none
      → (match_state h r carried (conn_with h [] w)).1.writer.status ≡ some 400
  unfolding match_state clear_login_state_cookie http_error
  match_state_refused r carried w same gone =
      let (e, refused) = take_of_absent h.store kv apart state w gone in rw same (ground arith)

  callback_absent :
      (r : Request) (w : W) (txn : LoginTransaction)
      → r.query "state" ≡ state
      → r.cookie (login_state_cookie_name h.insecure) ≡ some state
      → state ≢ ""
      → (take_login_transaction h.store state w).0 ≡ ok txn
      → kv.view (serve (callback_handler h r) w).world key ≡ none
  unfolding callback_handler
  callback_absent r w txn same carried given taken =
      rw carried (match_state_absent r w txn same given taken)

  callback_refused :
      (r : Request) (w : W)
      → r.query "state" ≡ state
      → kv.view w key ≡ none
      → (serve (callback_handler h r) w).writer.status ≡ some 400
  unfolding callback_handler http_error
  callback_refused r w same gone =
      elim (Option-cases (r.cookie (login_state_cookie_name h.insecure))) [
        | inl missing ↦ rw missing
        | inr (carried, e) ↦ rw e (match_state_refused r carried w same gone)
      ]

-- A callback that redeemed the state of its request, whatever came of it, is the last one for that
-- state: after any calls of the store and any expiry in which the state is not drawn anew, a request
-- with the same state is answered 400, whatever else it carries.
pub callback_once :
    {W : Type 0} (h : AuthHandler W) (kv : IsKeyValue h.store.backend)
    → IsApart h.store.backend h.store.rand kv
    → IsOutside h kv
    → (first second : Request) (w w' : W) (txn : LoginTransaction)
    → first.cookie (login_state_cookie_name h.insecure) ≡ some (first.query "state")
    → first.query "state" ≢ ""
    → (take_login_transaction h.store (first.query "state") w).0 ≡ ok txn
    → Run h.store kv
        (login_key_prefix +++ first.query "state")
        (serve (callback_handler h first) w).world
        w'
    → second.query "state" ≡ first.query "state"
    → (serve (callback_handler h second) w').writer.status ≡ some 400
callback_once h kv apart outside first second w w' txn carried given taken run same =
    callback_refused h kv apart outside (first.query "state") second w' same (
      Run-absent h.store kv apart run (
        callback_absent h kv apart outside (first.query "state") first w txn refl carried given
          taken))
