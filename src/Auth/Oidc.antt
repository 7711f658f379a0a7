-- ===== src/Auth/Oidc.antt =====
-- internal/auth/oidc.go and random.go: the authorization code flow with PKCE.

pub mod Callback
pub mod Replay
pub mod Failure
use Prim.Native.String.{len}
use tenant_deck.Base.{
  ℕ, ℤ, pos, String, ◌+++◌, Bool, not, ◌&&◌, ◌||◌, ◌==◌, str_eq, is_positive, is_positive,
}
use tenant_deck.Base.Io.{Io, pure, continue}
use tenant_deck.Base.Io
use tenant_deck.Std.Base64.{raw_url_encode}
use tenant_deck.Std.Http.{Request, http_error, redirect}
use tenant_deck.Std.Handler.{Handler, Respond, emit, require, need, call, read, ◌>>=◌, ◌>>◌}
use tenant_deck.Std.Time.{Clock, until}
use tenant_deck.Session.Records.{LoginTransaction}
use tenant_deck.Session.Crypto.{Random}
use tenant_deck.Session.Store.{
  Store, create_session, create_login_transaction, take_login_transaction,
}
use tenant_deck.Auth.Cookies.{
  login_state_cookie_name, set_login_state_cookie, clear_login_state_cookie, set_session_cookie,
}

-- The verified token of an exchange.
pub record Tokens : Type 0 where
  pub subject : String
  pub id_token : String
  pub expiration : ℕ

-- The library's relying party. `auth_url` takes the state, the code challenge and the nonce;
-- `code_exchange` the code, the nonce that the verifier expects (from the context) and the code
-- verifier.
pub record RelyingParty (W : Type 0) : Type 0 where
  pub code_challenge : String → String
  pub auth_url : String → String → String → String
  pub code_exchange : String → String → String → Io W Tokens

pub record AuthHandler (W : Type 0) : Type 0 where
  pub party : RelyingParty W
  pub store : Store W
  pub insecure : Bool
  pub external_origin : String
  pub rand : Random W
  pub clock : Clock W

-- 5 * time.Minute
abbrev pub login_transaction_ttl : ℤ
login_transaction_ttl = pos 300000000000

abbrev pub post_login_redirect : String
post_login_redirect = "/"

unfoldable pub random_token : {W : Type 0} → Random W → Io W String
random_token rand = Io.◌>>=◌ (rand.read_full 32) λ raw. pure (raw_url_encode raw)

unfoldable pub constant_time_equal : String → String → Bool
constant_time_equal a b = len a == len b && str_eq a b

abbrev pub internal_error : Respond
internal_error = http_error "internal error" 500

module _ {W : Type 0} (h : AuthHandler W) where
  unfoldable pub login_handler : Request → Handler W (Unit {0})
  login_handler r = do
    nonce ← call (random_token h.rand) (λ _. internal_error)
    verifier ← call (random_token h.rand) (λ _. internal_error)
    let challenge = h.party.code_challenge verifier
    created ← read h.clock.now
    state ←
        call
          (create_login_transaction h.store
            (record { nonce = nonce; pkce_verifier = verifier; created_at = created })
            login_transaction_ttl)
          (λ _. internal_error)
    emit (set_login_state_cookie h.insecure state login_transaction_ttl)
    emit (redirect (h.party.auth_url state challenge nonce) 302)

  -- The part of the callback that is after the code exchange.
  unfoldable pub open_session : Tokens → Handler W (Unit {0})
  open_session tokens = do
    now ← read h.clock.now
    let ttl = until tokens.expiration now
    require (is_positive ttl) (http_error "token already expired" 401)
    csrf_token ← call (random_token h.rand) (λ _. internal_error)
    created ← read h.clock.now
    session_id ←
        call
          (create_session h.store
            (record {
              subject = tokens.subject;
              id_token = tokens.id_token;
              expires_at = tokens.expiration;
              created_at = created;
              csrf_token = csrf_token;
            })
            ttl)
          (λ _. internal_error)
    emit (set_session_cookie h.insecure session_id ttl)
    emit (redirect post_login_redirect 302)

  -- The part of the callback that is after the redemption of the login transaction.
  unfoldable pub redeem : Request → LoginTransaction → Handler W (Unit {0})
  redeem r txn = do
    require (str_eq (r.query "error") "") (http_error ("login failed: " +++ r.query "error") 400)
    require (not (str_eq (r.query "code") "")) (http_error "missing authorization code" 400)
    tokens ←
        call (h.party.code_exchange (r.query "code") txn.nonce txn.pkce_verifier)
          (λ _. http_error "token exchange failed" 401)
    open_session tokens

  -- The part of the callback that is after the state cookie has been read.
  unfoldable pub match_state : Request → String → Handler W (Unit {0})
  match_state r state = do
    emit (clear_login_state_cookie h.insecure)
    require (not (str_eq (r.query "state") "" || not (constant_time_equal (r.query "state") state)))
        (http_error "login state mismatch" 400)
    txn ←
        call (take_login_transaction h.store (r.query "state"))
          (λ _. http_error "login expired or already used" 400)
    redeem r txn

  unfoldable pub callback_handler : Request → Handler W (Unit {0})
  callback_handler r = do
    state ←
        need (r.cookie (login_state_cookie_name h.insecure))
          (http_error "missing or expired login" 400)
    match_state r state
