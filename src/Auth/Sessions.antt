-- ===== src/Auth/Sessions.antt =====
-- internal/auth/session_handlers.go: the session's status, and logout.
pub mod Logout
use tenant_deck.Base.{
  String, Bool, true, false, ◌||◌, str_eq, Option, none, some, Result, ok, err, List, [], ◌∷◌, ◌++◌,
  if◌then◌else◌,
}
use tenant_deck.Std.Json.{Json, str, bool, obj, fields}
use tenant_deck.Std.Http.{Request, http_error, write_json, write_header}
use tenant_deck.Std.Handler.{finish, Handler, emit, require, need, call, attempt, ◌>>=◌, ◌>>◌}
use tenant_deck.Session.Records.{Record}
use tenant_deck.Session.Store.{get_session, delete_session}
use tenant_deck.Auth.Cookies.{session_cookie_name, clear_session_cookie}
use tenant_deck.Auth.Oidc.{AuthHandler, constant_time_equal, internal_error}

pub record SessionStatus : Type 0 where
  pub authenticated : Bool
  pub subject : String
  pub csrf_token : String

-- A field with `omitempty`.
abbrev pub unless_empty : String → String → List (String × Json)
unless_empty key s = if str_eq s "" then [] else (key, str s) ∷ []

unfoldable pub encode_status : SessionStatus → Json
encode_status s = obj (
    fields (
      ("authenticated", bool s.authenticated)
      ∷ (unless_empty "subject" s.subject ++ unless_empty "csrfToken" s.csrf_token)))

abbrev pub logged_out : SessionStatus
logged_out = record { authenticated = false; subject = ""; csrf_token = "" }

abbrev pub logged_in : Record → SessionStatus
logged_in rec = record { authenticated = true; subject = rec.subject; csrf_token = rec.csrf_token }

abbrev pub status_of : Result Record → SessionStatus
status_of (ok rec) = logged_in rec
status_of (err e) = logged_out

module _ {W : Type 0} (h : AuthHandler W) where
  abbrev pub look_up : Option String → Handler W SessionStatus
  look_up none = finish logged_out
  look_up (some id) = do found ← attempt (get_session h.store id); finish (status_of found)

  unfoldable pub session_handler : Request → Handler W (Unit {0})
  session_handler r = do
    require (str_eq (r.header "Origin") "" || str_eq (r.header "Origin") h.external_origin)
        (http_error "forbidden" 403)
    status ← look_up (r.cookie (session_cookie_name h.insecure))
    emit (write_json (encode_status status))

  unfoldable pub logout_handler : Request → Handler W (Unit {0})
  logout_handler r = do
    require (str_eq (r.header "Origin") h.external_origin) (http_error "forbidden" 403)
    id ← need (r.cookie (session_cookie_name h.insecure)) (http_error "not logged in" 401)
    rec ←
        call (get_session h.store id)
          (λ _ w. http_error "not logged in" 401 (clear_session_cookie h.insecure w))
    require (constant_time_equal (r.header "X-CSRF-Token") rec.csrf_token)
        (http_error "forbidden" 403)
    call (delete_session h.store id) (λ _. internal_error)
    emit (clear_session_cookie h.insecure)
    emit (write_header 204)
