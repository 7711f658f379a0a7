-- ===== src/Httpapi/Router/Gate.antt =====
-- Every API route is behind the session check.
use tenant_deck.Base.{
  ℕ, Bool, String, ◌≡◌, ◌⊎◌, inl, inr, refl, sym, subst, List, ◌∷◌, Option, some, Result, err,
  Error, arith, Option-cases,
}
use tenant_deck.Std.Json.{Json}
use tenant_deck.Std.Http.{Request, http_error}
use tenant_deck.Std.Handler.{Conn, serve}
use tenant_deck.Std.Mux.{HandlerFunc, find_route, path_value_in}
use tenant_deck.Session.Crypto.{Bytes}
use tenant_deck.Session.Store.{Store, get_session}
use tenant_deck.Auth.Cookies.{session_cookie_name}
use tenant_deck.Auth.Oidc.{AuthHandler}
use tenant_deck.Capsule.Client.{Client}
use tenant_deck.Httpapi.Middleware.{require_session, security_headers, set_security_headers}
use tenant_deck.Httpapi.Router.{all_routes, new_router}
use tenant_deck.Httpapi.Router.Table.{api_route-IsQuiet, served}

module _ {W : Type 0} (store : Store W) (insecure : Bool) (r : Request) (w : W) where
  -- The store gives no session for the cookie, if there is one.
  abbrev pub NoSession : Type 0
  NoSession =
      (id : String)
      → r.cookie (session_cookie_name insecure) ≡ some id
      → (e : Error) × ((get_session store id w).0 ≡ err e)

  -- A 401, after nothing but a lookup of the session.
  pub record IsShut (c : Conn W) : Type 0 where
    pub status : c.writer.status ≡ some 401
    pub world :
        (c.world ≡ w)
        ⊎ ((id : String) × (r.cookie (session_cookie_name insecure) ≡ some id)
            × (c.world ≡ (get_session store id w).1))

  session_required :
      (next_handler : HandlerFunc W) (values : String → String)
      → NoSession
      → IsShut (
          serve
            (security_headers insecure
              (λ q. require_session store insecure next_handler (record q { path_value = values }))
              r)
            w)
  unfolding security_headers set_security_headers require_session http_error
  session_required next_handler values without =
      elim (Option-cases (r.cookie (session_cookie_name insecure))) [
        | inl missing ↦ record { status = ground arith; world = inl (rw missing refl) }
        | inr (id, carried) ↦
            let (e, failed) = without id carried in
            record { status = ground arith; world = inr (id, carried, ground arith) }
      ]

module _ {W : Type 0} (auth : AuthHandler W) (store : Store W) (client : Client W) (insecure : Bool)
    (split : Bytes → List Bytes) (writes : ℕ) (sprint : Json → Result String) where
  -- A request for an API path that some route serves, without a session cookie or with one for
  -- which the store gives no session, is answered 401, whatever the frontend is; the world is left
  -- as it was, or as the failed lookup of the session leaves it.
  pub router_closed :
      (segments : Request → List String) (frontend : Option (HandlerFunc W)) (r : Request) (w : W)
      (rest : List String) (h : HandlerFunc W) (vs : List (String × String))
      → segments r ≡ "api" ∷ rest
      → find_route (all_routes auth store client insecure split writes sprint) r.method (segments r)
        ≡ some (h, vs)
      → NoSession store insecure r w
      → IsShut store insecure r w
          (serve (new_router auth store client insecure split writes sprint segments frontend r) w)
  router_closed segments frontend r w rest h vs at_api found without =
      let (next_handler, behind, quiet) =
        api_route-IsQuiet auth store client insecure split writes sprint r.method rest h vs (
          subst
            (λ path.
              find_route (all_routes auth store client insecure split writes sprint) r.method path
              ≡ some (h, vs))
            at_api found) in
      let shut = session_required store insecure r w next_handler (path_value_in vs) without in
      subst (λ answer. IsShut store insecure r w (serve answer w))
        (sym (served auth store client insecure split writes sprint segments frontend r h vs found))
        (subst
          (λ handler. IsShut store insecure r w (
            serve
              (security_headers insecure (λ q. handler (record q { path_value = path_value_in vs }))
                r)
              w))
          (sym behind) shut)
