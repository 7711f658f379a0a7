-- ===== src/Httpapi/Router/Table.antt =====
-- The table of routes: every API route is behind the session check, and its handler sends nothing but
-- requests for the allowed paths with the session's token.
use tenant_deck.Base.{
  ℕ, Bool, false, String, ◌≡◌, ◌⊎◌, inl, inr, refl, sym, subst, ◌∙◌, List, [], ◌∷◌, Option, none,
  some, Result, arith, All, All-append, str_eq, Bool-cases, Option-cases,
}
use tenant_deck.Std.Json.{Json}
use tenant_deck.Std.Http.{Request}
use tenant_deck.Std.Handler.{Conn}
use tenant_deck.Std.Mux.{
  Segment, lit, HandlerFunc, Route, match_path, find_route, serves, path_value_in, dispatch,
  serve_mux,
}
use tenant_deck.Session.Crypto.{Bytes}
use tenant_deck.Session.Store.{Store}
use tenant_deck.Auth.Oidc.{AuthHandler}
use tenant_deck.Capsule.Client.{Client}
use tenant_deck.Httpapi.Middleware.{require_session, security_headers}
use tenant_deck.Httpapi.Router.{open_routes, api_routes, all_routes, new_router}
use tenant_deck.Httpapi.Router.{api}
use tenant_deck.Capsule.Client.{GroupVersionResource}
use tenant_deck.Httpapi.Resources.{SummarizeFunc, list_resource_handler, get_resource_handler}
use tenant_deck.Httpapi.Upstream.{
  Permits, Permits_mono, namespaces_handler_outbound, list_resource_handler_outbound,
  get_resource_handler_outbound,
}
use tenant_deck.Httpapi.Upstream.Pages.{
  IsOverviewPath, resource_quotas, limit_ranges, overview_handler_outbound, events_handler_outbound,
}
use tenant_deck.Httpapi.Namespaces.{namespaces_handler}
use tenant_deck.Httpapi.Overview.{overview_handler}
use tenant_deck.Httpapi.Events.{events_handler}
use tenant_deck.Httpapi.Paths.{
  IsKind, IsAllowedPath, deployments, stateful_sets, daemon_sets, pods, jobs, cron_jobs, services,
  ingresses, persistent_volume_claims, events, namespaces, listed, fetched, extra, resource_quotas,
  limit_ranges,
}
use tenant_deck.Httpapi.Logs.Outbound.{PermitsLog, pod_logs_handler_outbound}

-- A route that is found is one of the table, and its pattern matches the path.
find_route_among {κ} :
    {W : Type 0} (P : Route W → Type κ) (routes : List (Route W)) (asked : String)
    (path : List String) (h : HandlerFunc W) (vs : List (String × String))
    → All P routes
    → find_route routes asked path ≡ some (h, vs)
    → (route : Route W) × P route × (route.handler ≡ h) × (match_path route.pattern path ≡ some vs)
unfolding find_route
find_route_among P [] asked path h vs known found = ground arith
find_route_among P (route ∷ routes) asked path h vs (holds, known) found =
    elim (Option-cases (match_path route.pattern path)) [
      | inl other ↦ find_route_among P routes asked path h vs known (ground arith)
      | inr (us, matched) ↦ elim (Bool-cases (serves route.method asked)) [
        | inl served ↦ (route, holds, ground arith, ground arith)
        | inr refused ↦ find_route_among P routes asked path h vs known (ground arith)
      ]
    ]

-- A handler that sends nothing but GETs of the allowed paths with the token of the request's session.
abbrev pub IsQuiet : {W : Type 0} → Client W → HandlerFunc W → Type 1
IsQuiet {W} client h =
    (r : Request) (P : W → Type 0)
    → Permits IsAllowedPath client r P
    → PermitsLog client r P
    → (conn : Conn W) → P conn.world
    → P (h r conn).1.world

module _ {W : Type 0} (auth : AuthHandler W) (store : Store W) (client : Client W) (insecure : Bool)
    (split : Bytes → List Bytes) (writes : ℕ) (sprint : Json → Result String) where
  -- A quiet handler behind the session check.
  abbrev IsChecked : Route W → Type 1
  IsChecked route =
      (next_handler : HandlerFunc W) × (route.handler ≡ require_session store insecure next_handler)
      × IsQuiet client next_handler

  -- Such a route, or one whose first segment is not "api".
  IsGuarded : Route W → Type 1
  IsGuarded route =
      IsChecked route
      ⊎ ((s : String) × (pattern : List Segment) × (route.pattern ≡ lit s ∷ pattern)
          × (str_eq s "api" ≡ false))

  infixr 5 ◌then◌
  -- A table of such routes, first to last.
  data AreGuarded : List (Route W) → Type 1 where
    end : AreGuarded []
    ◌then◌ :
        {route : Route W} {routes : List (Route W)}
        → IsGuarded route
        → AreGuarded routes
        → AreGuarded (route ∷ routes)

  AreGuarded-All : (routes : List (Route W)) → AreGuarded routes → All IsGuarded routes
  AreGuarded-All _ end = tt
  AreGuarded-All _ (guarded then rest) = (guarded, AreGuarded-All _ rest)

  open_routes-AreGuarded : AreGuarded (open_routes auth store)
  unfolding open_routes IsGuarded
  open_routes-AreGuarded =
      inr (_, _, refl, refl)
      then inr (_, _, refl, refl)
      then inr (_, _, refl, refl)
      then inr (_, _, refl, refl)
      then inr (_, _, refl, refl)
      then inr (_, _, refl, refl)
      then end

  api-IsGuarded :
      (pattern : List Segment) (h : HandlerFunc W)
      → IsQuiet client h
      → IsGuarded (api store client insecure pattern h)
  unfolding IsGuarded
  api-IsGuarded pattern h quiet = inl (h, refl, quiet)

  list-IsGuarded :
      (pattern : List Segment) (gvr : GroupVersionResource) (summarize : SummarizeFunc)
      → IsKind gvr.api_prefix gvr.resource
      → IsGuarded (api store client insecure pattern (list_resource_handler client gvr summarize))
  list-IsGuarded pattern gvr summarize kind = api-IsGuarded pattern _ λ r P permits _.
      list_resource_handler_outbound client gvr summarize r P (
        Permits_mono _ IsAllowedPath client r P
          (λ path allowed. listed gvr.api_prefix gvr.resource (r.path_value "ns") path kind allowed)
          permits)

  detail-IsGuarded :
      (pattern : List Segment) (gvr : GroupVersionResource) (summarize : SummarizeFunc)
      → IsKind gvr.api_prefix gvr.resource
      → IsGuarded (api store client insecure pattern (get_resource_handler client gvr summarize))
  detail-IsGuarded pattern gvr summarize kind = api-IsGuarded pattern _ λ r P permits _.
      get_resource_handler_outbound client gvr summarize r P (
        Permits_mono _ IsAllowedPath client r P
          (λ path allowed.
            fetched gvr.api_prefix gvr.resource (r.path_value "ns") (r.path_value "name") path kind
              allowed)
          permits)

  namespaces-IsQuiet : IsQuiet client (namespaces_handler client)
  namespaces-IsQuiet r P permits _ = namespaces_handler_outbound client r P (
      Permits_mono _ IsAllowedPath client r P
        (λ path same. subst IsAllowedPath (sym same) namespaces) permits)

  overview_path-IsAllowedPath : (ns path : String) → IsOverviewPath ns path → IsAllowedPath path
  overview_path-IsAllowedPath ns path (resource_quotas allowed) =
      extra "resourcequotas" ns path resource_quotas allowed
  overview_path-IsAllowedPath ns path (limit_ranges allowed) =
      extra "limitranges" ns path limit_ranges allowed

  overview-IsQuiet : IsQuiet client (overview_handler client)
  overview-IsQuiet r P permits _ = overview_handler_outbound client r P (
      Permits_mono _ IsAllowedPath client r P (overview_path-IsAllowedPath (r.path_value "ns"))
        permits)

  events-IsQuiet : IsQuiet client (events_handler client)
  events-IsQuiet r P permits _ = events_handler_outbound client r P (
      Permits_mono _ IsAllowedPath client r P
        (λ path allowed. extra "events?limit=200" (r.path_value "ns") path events allowed) permits)

  api_routes-AreGuarded : AreGuarded (api_routes store client insecure split writes sprint)
  unfolding api_routes
  api_routes-AreGuarded =
      api-IsGuarded _ _ namespaces-IsQuiet
      then api-IsGuarded _ _ overview-IsQuiet
      then list-IsGuarded _ _ _ deployments
      then detail-IsGuarded _ _ _ deployments
      then list-IsGuarded _ _ _ stateful_sets
      then detail-IsGuarded _ _ _ stateful_sets
      then list-IsGuarded _ _ _ daemon_sets
      then detail-IsGuarded _ _ _ daemon_sets
      then list-IsGuarded _ _ _ pods
      then detail-IsGuarded _ _ _ pods
      then api-IsGuarded _ _
          (λ r P _ permits. pod_logs_handler_outbound split writes client r P permits)
      then list-IsGuarded _ _ _ jobs
      then detail-IsGuarded _ _ _ jobs
      then list-IsGuarded _ _ _ cron_jobs
      then detail-IsGuarded _ _ _ cron_jobs
      then list-IsGuarded _ _ _ services
      then detail-IsGuarded _ _ _ services
      then list-IsGuarded _ _ _ ingresses
      then detail-IsGuarded _ _ _ ingresses
      then list-IsGuarded _ _ _ persistent_volume_claims
      then detail-IsGuarded _ _ _ persistent_volume_claims
      then api-IsGuarded _ _ events-IsQuiet
      then end

  all_routes-IsGuarded : All IsGuarded (all_routes auth store client insecure split writes sprint)
  unfolding all_routes
  all_routes-IsGuarded =
      All-append IsGuarded (open_routes auth store)
        (api_routes store client insecure split writes sprint)
        (AreGuarded-All _ open_routes-AreGuarded) (AreGuarded-All _ api_routes-AreGuarded)

  pub api_route-IsQuiet :
      (asked : String) (rest : List String) (h : HandlerFunc W) (vs : List (String × String))
      → find_route (all_routes auth store client insecure split writes sprint) asked ("api" ∷ rest)
        ≡ some (h, vs)
      → (next_handler : HandlerFunc W) × (h ≡ require_session store insecure next_handler)
        × IsQuiet client next_handler
  unfolding match_path IsGuarded
  api_route-IsQuiet asked rest h vs found =
      let (route, guarded, same, matched) =
        find_route_among IsGuarded (all_routes auth store client insecure split writes sprint) asked
          ("api" ∷ rest) h vs all_routes-IsGuarded found in
      elim guarded [
        | inl (next_handler, behind, quiet) ↦ (next_handler, sym same ∙ behind, quiet)
        | inr (s, pattern, first, other) ↦
            let none_matched : match_path route.pattern ("api" ∷ rest) ≡ none =
              rw first (rw other) in
            ground arith
      ]

  pub served :
      (segments : Request → List String) (frontend : Option (HandlerFunc W)) (r : Request)
      (h : HandlerFunc W) (vs : List (String × String))
      → find_route (all_routes auth store client insecure split writes sprint) r.method (segments r)
        ≡ some (h, vs)
      → new_router auth store client insecure split writes sprint segments frontend r
        ≡ security_headers insecure (λ q. h (record q { path_value = path_value_in vs })) r
  unfolding new_router serve_mux dispatch security_headers
  served segments frontend r h vs found = rw found refl
