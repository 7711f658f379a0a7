-- ===== src/Httpapi/Router/Outbound.antt =====
-- What the whole program sends to the Capsule Proxy.
use tenant_deck.Base.{ok, Bool, String, ◌≡◌, List, some}
use tenant_deck.Std.Json.{Json}
use tenant_deck.Std.Http.{Request}
use tenant_deck.Std.Handler.{Handler}
use tenant_deck.Std.Mux.{HandlerFunc, path_value_in}
use tenant_deck.Session.Store.{Store, get_session}
use tenant_deck.Auth.Cookies.{session_cookie_name}
use tenant_deck.Capsule.Client.{Client}
use tenant_deck.Httpapi.Middleware.{require_session, security_headers}
use tenant_deck.Session.Records.{Record}
use tenant_deck.Capsule.Client.{Outgoing}
use tenant_deck.Httpapi.Upstream.{IsOutbound}
use tenant_deck.Httpapi.Paths.{IsAllowedPath}
use tenant_deck.Httpapi.Logs.Outbound.{IsLogRequest}

module _ {W : Type 0} (store : Store W) (client : Client W) (insecure : Bool) (r : Request) (w : W)
    (P : W → Type 0)
    (lookup_keeps : (id : String)
      → r.cookie (session_cookie_name insecure) ≡ some id
      → P (get_session store id w).1)
    (send_keeps : (id : String) (rec : Record) (req : Outgoing)
      → r.cookie (session_cookie_name insecure) ≡ some id
      → (get_session store id w).0 ≡ ok rec
      → IsOutbound IsAllowedPath client.base_url rec.id_token req
      → (v : W) → P v
      → P (client.http_client.send req v).1)
    (stream_keeps : (id : String) (rec : Record) (req : Outgoing)
      → r.cookie (session_cookie_name insecure) ≡ some id
      → (get_session store id w).0 ≡ ok rec
      → IsLogRequest client.base_url rec.id_token req
      → (v : W) → P v
      → P (client.stream_client.send req v).1) where
  -- The handler of a route, behind the session check and the headers.
  abbrev guarded : HandlerFunc W → List (String × String) → Handler W (Unit {0})
  guarded h vs =
      security_headers insecure
        (λ q. require_session store insecure h (record q { path_value = path_value_in vs })) r
