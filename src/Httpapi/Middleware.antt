-- ===== src/Httpapi/Middleware.antt =====
-- internal/httpapi/middleware.go: security headers, and the session that every API route requires.
pub mod Session
pub mod SignedIn
use tenant_deck.Base.{String, Bool, true, false, some, if◌then◌else◌}
use tenant_deck.Std.Http.{Request, http_error, set_header}
use tenant_deck.Std.Handler.{Handler, Respond, emit, need, call, ◌>>=◌, ◌>>◌}
use tenant_deck.Session.Store.{Store, get_session}
use tenant_deck.Auth.Cookies.{session_cookie_name}

abbrev pub content_security_policy : String
content_security_policy =
    "default-src 'self'; object-src 'none'; base-uri 'none'; frame-ancestors 'none'"

abbrev pub strict_transport : Bool → Respond
strict_transport insecure w =
    if insecure
    then w
    else set_header "Strict-Transport-Security" "max-age=63072000; includeSubDomains" w

unfoldable pub set_security_headers : Bool → Respond
unfolding set_header
set_security_headers insecure w = strict_transport insecure (
    set_header "Cache-Control" "no-store" (
      set_header "Referrer-Policy" "no-referrer" (
        set_header "X-Content-Type-Options" "nosniff"
          (set_header "Content-Security-Policy" content_security_policy w))))

module _ {W : Type 0} where
  unfoldable pub security_headers :
      Bool → (Request → Handler W (Unit {0})) → Request → Handler W (Unit {0})
  unfolding set_security_headers
  security_headers insecure next_handler r = do emit (set_security_headers insecure); next_handler r

  unfoldable pub require_session :
      Store W → Bool → (Request → Handler W (Unit {0})) → Request → Handler W (Unit {0})
  require_session store insecure next_handler r = do
    id ← need (r.cookie (session_cookie_name insecure)) (http_error "unauthorized" 401)
    rec ← call (get_session store id) (λ _. http_error "unauthorized" 401)
    next_handler (record r { session = some rec })
