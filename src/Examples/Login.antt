-- ===== src/Examples/Login.antt =====
-- Login, logout and the session check at concrete inputs.
use tenant_deck.Base.{
  none, [], ◌∷◌, String, ◌≡◌, ◌⊎◌, refl, err, Error, some, false, inl, if◌then◌else◌, arith, ◌≢◌,
  All, str_eq, eq_iff,
}
use tenant_deck.Std.Http.{Request, http_error, redirect, write_header, write_json}
use tenant_deck.Std.Handler.{serve, Handler, emit}
use tenant_deck.Std.Time.{until, whole_seconds}
use tenant_deck.Session.OneUse.{here}
use tenant_deck.Session.Store.{get_session}
use tenant_deck.Auth.Cookies.{
  session_cookie, cleared_login_state_cookie, login_state_cookie_name, session_cookie_name,
  set_session_cookie, clear_session_cookie, clear_login_state_cookie,
}
use tenant_deck.Auth.Oidc.{
  callback_handler, login_handler, match_state, redeem, open_session, random_token,
  constant_time_equal,
}
use tenant_deck.Auth.Oidc.Callback.{IsLogin, callback-IsLogin}
use tenant_deck.Auth.Oidc.Failure.{IsFailure, callback-Ends}
use tenant_deck.Auth.Oidc.Replay.{IsOutside, callback_once}
use tenant_deck.Auth.Sessions.{logout_handler, session_handler}
use tenant_deck.Auth.Sessions.Logout.{IsLogout, logout-IsLogout, logout_refused, logout_is_final}
use tenant_deck.Auth.Hardening.{IsHardened, cookies-IsHardened}
use tenant_deck.Httpapi.Middleware.{require_session}
use tenant_deck.Httpapi.Middleware.Session.{IsAdmitted, IsRefused, require_session_closed}
use tenant_deck.Examples.Memory.{empty, Memory, memory-IsKeyValue, memory-IsApart}
use tenant_deck.Examples.Sessions.{store_runs, taken}
use tenant_deck.Httpapi.Middleware.SignedIn.{Meets, callback_lets_in}
use tenant_deck.Examples.Text.{time_now, time_limit}
use tenant_deck.Examples.Samples.{
  bare, store-IsSound, handler, store, returning, leaving, pending, active, login,
}

handlers_run : Unit {0}
unfolding store_runs callback_handler login_handler match_state redeem open_session random_token
    constant_time_equal logout_handler session_handler http_error redirect write_header write_json
    until whole_seconds login_state_cookie_name session_cookie_name set_session_cookie
    clear_session_cookie clear_login_state_cookie
handlers_run = tt

redirected : (serve (callback_handler handler returning) pending).writer.status ≡ some 302
unfolding handlers_run
redirected = refl

callback-IsLogin_example :
    IsLogin handler returning pending (serve (callback_handler handler returning) pending)
callback-IsLogin_example = callback-IsLogin handler returning pending redirected

outside : IsOutside handler memory-IsKeyValue
unfolding handlers_run memory-IsKeyValue
outside = record {
  now_keeps = λ k w. refl;
  token_keeps = λ k w. refl;
  exchange_keeps = λ code nonce verifier k w. ground arith;
}

carried : returning.cookie (login_state_cookie_name false) ≡ some "s1"
unfolding handlers_run
carried = refl

nonempty : ◌≢◌ {A = String} "s1" ""
nonempty = ground (arith, eq_iff "s1" "")

callback_once_example :
    (serve
      (callback_handler handler returning)
      (serve (callback_handler handler returning) pending).world).writer.status
    ≡ some 400
callback_once_example =
    callback_once handler memory-IsKeyValue memory-IsApart outside returning returning pending _
      login carried nonempty taken here refl

gone : (serve (logout_handler handler leaving) active).writer.status ≡ some 204
unfolding handlers_run
gone = refl

logout-IsLogout_example : IsLogout handler leaving active
logout-IsLogout_example = logout-IsLogout handler leaving active gone

cookie_named : leaving.cookie (session_cookie_name false) ≡ some "id1"
unfolding handlers_run
cookie_named = refl

logout_is_final_example :
    (e : Error) × ((get_session store "id1" (serve (logout_handler handler leaving) active).world).0
      ≡ err e)
logout_is_final_example =
    logout_is_final handler memory-IsKeyValue memory-IsApart leaving active _ "id1" cookie_named
      gone here

abbrev forged : Request
forged = record leaving { header = λ k. if str_eq k "Origin" then "https://evil.example" else "" }

foreign : forged.header "Origin" ≢ handler.external_origin
foreign = ground (arith, eq_iff "https://evil.example" "https://deck.example")

logout_refused_example :
    (((serve (logout_handler handler forged) active).world ≡ active)
      ⊎ ((id : String) × ((serve (logout_handler handler forged) active).world
            ≡ (get_session store id active).1)))
    × (((serve (logout_handler handler forged) active).writer.status ≡ some 401)
        ⊎ ((serve (logout_handler handler forged) active).writer.status ≡ some 403))
logout_refused_example = logout_refused handler forged active (inl foreign)

cookies-IsHardened_example :
    All (IsHardened false) (serve (login_handler handler returning) pending).writer.cookies
    × All (IsHardened false) (serve (callback_handler handler returning) pending).writer.cookies
    × All (IsHardened false) (serve (session_handler handler returning) pending).writer.cookies
    × All (IsHardened false) (serve (logout_handler handler returning) pending).writer.cookies
cookies-IsHardened_example = cookies-IsHardened handler returning pending

abbrev teapot : Request → Handler Memory (Unit {0})
teapot r = emit (write_header 418)

require_session_closed_example :
    IsAdmitted store false teapot leaving active
      (serve (require_session store false teapot leaving) active)
    ⊎ IsRefused store false teapot leaving active
        (serve (require_session store false teapot leaving) active)
require_session_closed_example = require_session_closed store false teapot leaving active

abbrev second_token : String
second_token = "AgICAgICAgICAgICAgICAgICAgICAgICAgICAgICAgI"

abbrev calling : Request
calling = record bare {
  cookie = λ k. if str_eq k "__Host-td-session" then some second_token else none;
}

session_set :
    (serve (callback_handler handler returning) pending).writer.cookies
    ≡ cleared_login_state_cookie false
      ∷ session_cookie false second_token (until time_limit time_now)
      ∷ []
unfolding handlers_run
session_set = refl

session_carried : calling.cookie (session_cookie_name false) ≡ some second_token
unfolding handlers_run
session_carried = refl

callback_lets_in_example :
    (login' : IsLogin handler returning pending
      (serve (callback_handler handler returning) pending))
    × Meets handler store-IsSound returning pending login' teapot calling
callback_lets_in_example =
    callback_lets_in handler store-IsSound returning pending teapot calling second_token
      (until time_limit time_now) redirected session_set session_carried

callback-Ends_example :
    ((serve (callback_handler handler returning) empty).writer.status ≡ some 302)
    ⊎ IsFailure
        (elim (returning.cookie (login_state_cookie_name false)) [
          | none ↦ []
          | some _ ↦ cleared_login_state_cookie false ∷ []
        ])
        (serve (callback_handler handler returning) empty)
callback-Ends_example = callback-Ends handler returning empty
