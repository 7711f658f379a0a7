-- ===== src/Httpapi/Router.antt =====
-- internal/httpapi/router.go: the route table, behind the security headers.
pub mod Table
pub mod Gate
pub mod Outbound
use tenant_deck.Base.{
  ℕ, Bool, true, ◌&&◌, ◌||◌, false, String, List, [], ◌∷◌, ◌++◌, Option, none, some, Result, str_eq,
  if◌then◌else◌,
}
use tenant_deck.Std.Json.{Json}
use tenant_deck.Std.Http.{Request, http_error}
use tenant_deck.Std.Mux.{Segment, lit, wild, HandlerFunc, Route, serve_mux}
use tenant_deck.Std.Handler.{Handler, emit}
use tenant_deck.Session.Crypto.{Bytes}
use tenant_deck.Session.Store.{Store}
use tenant_deck.Auth.Oidc.{AuthHandler, login_handler, callback_handler}
use tenant_deck.Auth.Sessions.{session_handler, logout_handler}
use tenant_deck.Capsule.Client.{Client, GroupVersionResource}
use tenant_deck.Httpapi.Middleware.{security_headers, require_session}
use tenant_deck.Httpapi.Namespaces.{namespaces_handler}
use tenant_deck.Httpapi.Resources.{SummarizeFunc, list_resource_handler, get_resource_handler}
use tenant_deck.Httpapi.Overview.{overview_handler}
use tenant_deck.Httpapi.Events.{events_handler}
use tenant_deck.Httpapi.Health.{livez_handler, readyz_handler}
use tenant_deck.Httpapi.Logs.{pod_logs_handler}
use tenant_deck.Httpapi.Workloads.{
  deployments_gvr, summarize_deployment, stateful_sets_gvr, summarize_stateful_set, daemon_sets_gvr,
  summarize_daemon_set,
}
use tenant_deck.Httpapi.Workloads.Batch.{jobs_gvr, summarize_job, cron_jobs_gvr, summarize_cron_job}
use tenant_deck.Httpapi.Workloads.Pods.{pods_gvr, summarize_pod}
use tenant_deck.Httpapi.Network.{services_gvr, summarize_service, ingresses_gvr, summarize_ingress}
use tenant_deck.Httpapi.Storage.{pvc_gvr, summarize_persistent_volume_claim}

-- /api/namespaces/{ns}, and what follows.
abbrev pub in_namespace : List Segment → List Segment
in_namespace rest = lit "api" ∷ lit "namespaces" ∷ wild "ns" ∷ rest

module _ {W : Type 0} (store : Store W) (client : Client W) (insecure : Bool) where
  -- A GET route behind the session check.
  abbrev pub api : List Segment → HandlerFunc W → Route W
  api pattern handler = record {
    method = "GET";
    pattern = pattern;
    handler = require_session store insecure handler;
  }

  -- The list and the detail route of a resource, before the routes that follow.
  abbrev pub resource :
      String → GroupVersionResource → SummarizeFunc → List (Route W) → List (Route W)
  resource name gvr summarize routes =
      api (in_namespace (lit name ∷ [])) (list_resource_handler client gvr summarize)
      ∷ api (in_namespace (lit name ∷ wild "name" ∷ [])) (get_resource_handler client gvr summarize)
      ∷ routes

  -- The API routes. `split` and `writes` are those of the log route, `sprint` that of the services.
  unfoldable pub api_routes : (Bytes → List Bytes) → ℕ → (Json → Result String) → List (Route W)
  api_routes split writes sprint =
      api (lit "api" ∷ lit "namespaces" ∷ []) (namespaces_handler client)
      ∷ api (in_namespace (lit "overview" ∷ [])) (overview_handler client)
      ∷ resource "deployments" deployments_gvr summarize_deployment (
          resource "statefulsets" stateful_sets_gvr summarize_stateful_set (
            resource "daemonsets" daemon_sets_gvr summarize_daemon_set (
              resource "pods" pods_gvr summarize_pod (
                api (in_namespace (lit "pods" ∷ wild "name" ∷ lit "logs" ∷ []))
                  (pod_logs_handler split writes client)
                ∷ resource "jobs" jobs_gvr summarize_job (
                    resource "cronjobs" cron_jobs_gvr summarize_cron_job (
                      resource "services" services_gvr (summarize_service sprint) (
                        resource "ingresses" ingresses_gvr summarize_ingress (
                          resource "persistentvolumeclaims" pvc_gvr
                            summarize_persistent_volume_claim
                            (api (in_namespace (lit "events" ∷ [])) (events_handler client)
                              ∷ [])))))))))

-- The probes and the login flow.
unfoldable pub open_routes : {W : Type 0} → AuthHandler W → Store W → List (Route W)
open_routes auth store =
    (record { method = "GET"; pattern = lit "healthz" ∷ []; handler = livez_handler })
    ∷ (record { method = "GET"; pattern = lit "readyz" ∷ []; handler = readyz_handler store })
    ∷ (record {
      method = "GET";
      pattern = lit "auth" ∷ lit "login" ∷ [];
      handler = login_handler auth;
    })
    ∷ (record {
      method = "GET";
      pattern = lit "auth" ∷ lit "callback" ∷ [];
      handler = callback_handler auth;
    })
    ∷ (record {
      method = "GET";
      pattern = lit "auth" ∷ lit "session" ∷ [];
      handler = session_handler auth;
    })
    ∷ (record {
      method = "POST";
      pattern = lit "auth" ∷ lit "logout" ∷ [];
      handler = logout_handler auth;
    })
    ∷ []

module _ {W : Type 0} (auth : AuthHandler W) (store : Store W) (client : Client W) (insecure : Bool)
    (split : Bytes → List Bytes) (writes : ℕ) (sprint : Json → Result String) where
  unfoldable pub all_routes : List (Route W)
  unfolding open_routes api_routes
  all_routes = open_routes auth store ++ api_routes store client insecure split writes sprint

  -- The frontend is an argument, as in the source.
  unfoldable pub new_router : (Request → List String) → Option (HandlerFunc W) → HandlerFunc W
  unfolding all_routes
  new_router segments frontend = security_headers insecure (serve_mux all_routes segments frontend)
