-- ===== src/Auth/Cookies.antt =====
-- internal/auth/cookies.go: the two cookies, their names and attributes.
use tenant_deck.Base.{String, ◌+++◌, Bool, true, not, ℤ, negsuc, if◌then◌else◌}
use tenant_deck.Std.Http.{Cookie, SameSite, lax, strict, set_cookie}
use tenant_deck.Std.Handler.{Respond}
use tenant_deck.Std.Time.{whole_seconds}

abbrev pub login_state_cookie_base : String
login_state_cookie_base = "td-login-state"

abbrev pub session_cookie_base : String
session_cookie_base = "td-session"

unfoldable pub cookie_name : String → Bool → String
cookie_name base insecure = if insecure then base else "__Host-" +++ base

unfoldable pub login_state_cookie_name : Bool → String
unfolding cookie_name
login_state_cookie_name insecure = cookie_name login_state_cookie_base insecure

unfoldable pub session_cookie_name : Bool → String
unfolding cookie_name
session_cookie_name insecure = cookie_name session_cookie_base insecure

abbrev pub cookie_with : String → String → Bool → SameSite → ℤ → Cookie
cookie_with name value insecure same_site max_age = record {
  name = name;
  value = value;
  path = "/";
  http_only = true;
  secure = not insecure;
  same_site = same_site;
  max_age = max_age;
}

abbrev pub login_state_cookie : Bool → String → ℤ → Cookie
login_state_cookie insecure state ttl =
    cookie_with (login_state_cookie_name insecure) state insecure lax (whole_seconds ttl)

abbrev pub cleared_login_state_cookie : Bool → Cookie
cleared_login_state_cookie insecure =
    cookie_with (login_state_cookie_name insecure) "" insecure lax (negsuc 0)

abbrev pub session_cookie : Bool → String → ℤ → Cookie
session_cookie insecure session_id ttl =
    cookie_with (session_cookie_name insecure) session_id insecure strict (whole_seconds ttl)

abbrev pub cleared_session_cookie : Bool → Cookie
cleared_session_cookie insecure =
    cookie_with (session_cookie_name insecure) "" insecure strict (negsuc 0)

unfoldable pub set_login_state_cookie : Bool → String → ℤ → Respond
unfolding set_cookie
set_login_state_cookie insecure state ttl = set_cookie (login_state_cookie insecure state ttl)

unfoldable pub clear_login_state_cookie : Bool → Respond
unfolding set_cookie
clear_login_state_cookie insecure = set_cookie (cleared_login_state_cookie insecure)

unfoldable pub set_session_cookie : Bool → String → ℤ → Respond
unfolding set_cookie
set_session_cookie insecure session_id ttl = set_cookie (session_cookie insecure session_id ttl)

unfoldable pub clear_session_cookie : Bool → Respond
unfolding set_cookie
clear_session_cookie insecure = set_cookie (cleared_session_cookie insecure)
