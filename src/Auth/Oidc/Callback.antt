-- ===== src/Auth/Oidc/Callback.antt =====
-- What the callback has established when it logs a browser in, and what it leaves on every branch.

use tenant_deck.Base.{
  ℕ, String, true, str_eq, ◌≡◌, ◌≢◌, ◌↔◌, refl, some, ok, List, [], ◌∷◌, ◌++◌, arith, is_positive,
  eq_iff, eq_refl, Result-cases, Bool-cases, Option-cases, inl, inr,
}
use tenant_deck.Std.Http.{Request, fresh, Cookie, http_error, redirect}
use tenant_deck.Std.Handler.{Conn, serve}
use tenant_deck.Std.Time.{until}
use tenant_deck.Session.Records.{Record, LoginTransaction}
use tenant_deck.Session.Store.{create_session, take_login_transaction}
use tenant_deck.Auth.Cookies.{
  login_state_cookie_name, cleared_login_state_cookie, session_cookie, clear_login_state_cookie,
  set_session_cookie,
}
use tenant_deck.Auth.Oidc.{
  AuthHandler, Tokens, random_token, constant_time_equal, callback_handler, redeem, open_session,
  match_state,
}

pub constant_time_equal_iff : (a b : String) → (constant_time_equal a b ≡ true) ↔ (a ≡ b)
unfolding constant_time_equal
constant_time_equal_iff a b =
    (λ e. (eq_iff a b).0 (ground arith), λ e. rw (← e) (rw (eq_refl a) (ground arith)))

module _ {W : Type 0} (h : AuthHandler W) where
  -- A connection whose response has cookies and nothing else.
  abbrev pub conn_with : List Cookie → W → Conn W
  conn_with cs w = record { writer = record fresh { cookies = cs }; world = w }

  -- The record that is stored for verified tokens.
  abbrev pub record_of : Tokens → String → ℕ → Record
  record_of tokens csrf now = record {
    subject = tokens.subject;
    id_token = tokens.id_token;
    expires_at = tokens.expiration;
    created_at = now;
    csrf_token = csrf;
  }

  -- `c` is what remains after a session has been opened for `tokens` at `w`: the token had not
  -- expired, the session was created with the time that the token has left, and its identifier is
  -- the value of the session cookie.
  pub record IsOpened (tokens : Tokens) (cs : List Cookie) (w : W) (c : Conn W) : Type 0 where
    pub csrf : String
    pub id : String
    pub now : ℕ
    pub stored_at : W
    pub dated : now ≡ (h.clock.now (random_token h.rand (h.clock.now w).1).1).0
    pub after : stored_at ≡ (h.clock.now (random_token h.rand (h.clock.now w).1).1).1
    pub lives : is_positive (until tokens.expiration (h.clock.now w).0) ≡ true
    pub drawn : (random_token h.rand (h.clock.now w).1).0 ≡ ok csrf
    pub stored :
        (create_session h.store
          (record_of tokens csrf now)
          (until tokens.expiration (h.clock.now w).0)
          stored_at).0
        ≡ ok id
    pub world :
        c.world
        ≡ (create_session h.store
            (record_of tokens csrf now)
            (until tokens.expiration (h.clock.now w).0)
            stored_at).1
    pub cookies :
        c.writer.cookies
        ≡ cs ++ session_cookie h.insecure id (until tokens.expiration (h.clock.now w).0) ∷ []

  open_session-IsOpened :
      (tokens : Tokens) (cs : List Cookie) (w : W)
      → (open_session h tokens (conn_with cs w)).1.writer.status ≡ some 302
      → IsOpened tokens cs w (open_session h tokens (conn_with cs w)).1
  unfolding open_session redirect http_error set_session_cookie
  open_session-IsOpened tokens cs w e =
      let w1 = (h.clock.now w).1 in
      let w2 = (random_token h.rand w1).1 in
      let now = (h.clock.now w2).0 in
      let w3 = (h.clock.now w2).1 in
      let ttl = until tokens.expiration (h.clock.now w).0 in
      elim (Result-cases (random_token h.rand w1).0) [
        | inl (csrf, drawn) ↦
            elim (Result-cases (create_session h.store (record_of tokens csrf now) ttl w3).0) [
              | inl (id, stored) ↦ record {
                csrf = csrf;
                id = id;
                now = now;
                stored_at = w3;
                dated = refl;
                after = refl;
                lives = ground arith;
                drawn = drawn;
                stored = stored;
                world = ground arith;
                cookies = ground arith;
              }
              | inr (x, failed) ↦ ground arith
            ]
        | inr (x, failed) ↦ ground arith
      ]

  -- `c` is what remains after a login: the request carried the state cookie and the same state, the
  -- state named a login transaction, the identity provider gave a code and no error, and the code
  -- was exchanged under the nonce and the verifier of that transaction.
  pub record IsLogin (r : Request) (w : W) (c : Conn W) : Type 0 where
    pub txn : LoginTransaction
    pub tokens : Tokens
    pub carried : r.cookie (login_state_cookie_name h.insecure) ≡ some (r.query "state")
    pub nonempty : r.query "state" ≢ ""
    pub taken : (take_login_transaction h.store (r.query "state") w).0 ≡ ok txn
    pub no_error : r.query "error" ≡ ""
    pub code : r.query "code" ≢ ""
    pub exchanged :
        (h.party.code_exchange
          (r.query "code")
          txn.nonce
          txn.pkce_verifier
          (take_login_transaction h.store (r.query "state") w).1).0
        ≡ ok tokens
    pub opened :
        IsOpened tokens
          (cleared_login_state_cookie h.insecure ∷ [])
          (h.party.code_exchange
            (r.query "code")
            txn.nonce
            txn.pkce_verifier
            (take_login_transaction h.store (r.query "state") w).1).1
          c

  record IsRedeemed (r : Request) (txn : LoginTransaction) (cs : List Cookie) (w : W) (c : Conn W)
      : Type 0 where
    tokens : Tokens
    no_error : r.query "error" ≡ ""
    code : r.query "code" ≢ ""
    exchanged : (h.party.code_exchange (r.query "code") txn.nonce txn.pkce_verifier w).0 ≡ ok tokens
    opened :
        IsOpened tokens cs
          (h.party.code_exchange (r.query "code") txn.nonce txn.pkce_verifier w).1
          c

  redeem-IsRedeemed :
      (r : Request) (txn : LoginTransaction) (cs : List Cookie) (w : W)
      → (redeem h r txn (conn_with cs w)).1.writer.status ≡ some 302
      → IsRedeemed r txn cs w (redeem h r txn (conn_with cs w)).1
  unfolding redeem http_error
  redeem-IsRedeemed r txn cs w e = elim (Bool-cases (str_eq (r.query "error") "")) [
    | inl quiet ↦ elim (Bool-cases (str_eq (r.query "code") "")) [
      | inl missing ↦ ground arith
      | inr given ↦
          elim (Result-cases
            (h.party.code_exchange (r.query "code") txn.nonce txn.pkce_verifier w).0) [
              | inl (tokens, exchanged) ↦ record {
                tokens = tokens;
                no_error = (eq_iff _ _).0 quiet;
                code = λ same. cc ((eq_iff (r.query "code") "").1 same);
                exchanged = exchanged;
                opened =
                    rw (quiet, given, exchanged)
                      (open_session-IsOpened tokens cs _ (rw (quiet, given, exchanged) at e));
              }
              | inr (x, failed) ↦ ground arith
            ]
    ]
    | inr failed ↦ ground arith
  ]

  match_state-IsLogin :
      (r : Request) (state : String) (w : W)
      → r.cookie (login_state_cookie_name h.insecure) ≡ some state
      → (match_state h r state (conn_with [] w)).1.writer.status ≡ some 302
      → IsLogin r w (match_state h r state (conn_with [] w)).1
  unfolding match_state http_error clear_login_state_cookie
  match_state-IsLogin r state w carried e = elim (Bool-cases (str_eq (r.query "state") "")) [
    | inl empty ↦ ground arith
    | inr given ↦ elim (Bool-cases (constant_time_equal (r.query "state") state)) [
      | inl same ↦ elim (Result-cases (take_login_transaction h.store (r.query "state") w).0) [
        | inl (txn, taken) ↦
            let d =
              redeem-IsRedeemed r txn (cleared_login_state_cookie h.insecure ∷ []) _
                (rw (given, same, taken) at e) in
            record {
              txn = txn;
              tokens = d.tokens;
              carried = rw ((constant_time_equal_iff _ _).0 same) carried;
              nonempty = λ empty. cc (given, (eq_iff (r.query "state") "").1 empty);
              taken = taken;
              no_error = d.no_error;
              code = d.code;
              exchanged = d.exchanged;
              opened = rw (given, same, taken) d.opened;
            }
        | inr (x, failed) ↦ ground arith
      ]
      | inr other ↦ ground arith
    ]
  ]

  -- A callback that answers with a redirect carried the login state cookie and the same state in
  -- its query, redeemed the login transaction of that state, exchanged its code under the nonce
  -- and the verifier of that transaction for a token that had not expired, and stored the session
  -- that its cookie names.
  pub callback-IsLogin :
      (r : Request) (w : W)
      → (serve (callback_handler h r) w).writer.status ≡ some 302
      → IsLogin r w (serve (callback_handler h r) w)
  unfolding callback_handler http_error
  callback-IsLogin r w e = elim (Option-cases (r.cookie (login_state_cookie_name h.insecure))) [
    | inl missing ↦ ground arith
    | inr (state, carried) ↦ rw carried (match_state-IsLogin r state w carried (rw carried at e))
  ]
