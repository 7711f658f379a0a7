-- ===== src/Examples/Router.antt =====
-- The route table and the summaries at concrete inputs.
use tenant_deck.Base.{
  str_eq, some, if◌then◌else◌, ℕ, String, ◌≡◌, ◌≢◌, refl, true, false, List, [], ◌∷◌, none, some,
  Result, err, message, all, map, pos, arith,
}
use tenant_deck.Std.Json.{Json}
use tenant_deck.Std.Http.{Request}
use tenant_deck.Std.Handler.{serve}
use tenant_deck.Std.Mux.{find_route, match_path, HandlerFunc}
use tenant_deck.Httpapi.Middleware.{require_session}
use tenant_deck.Httpapi.Namespaces.{namespaces_handler}
use tenant_deck.Httpapi.Router.{all_routes, open_routes, api_routes, new_router}
use tenant_deck.Httpapi.Router.Gate.{NoSession, IsShut, router_closed}
use tenant_deck.Httpapi.Workloads.Pods.{ContainerSummary, Pod, summary_of}
use tenant_deck.Httpapi.Workloads.Readiness.{summary_of-reported, summary_of-unreported, unreported}
use tenant_deck.Examples.Memory.{Memory, empty}
use tenant_deck.Examples.Samples.{store, handler, bare}
use tenant_deck.Examples.Upstream.{client}

abbrev pub anonymous : Request
anonymous = record bare { method = "GET"; cookie = λ _. none }

abbrev pub segments : Request → List String
segments r = "api" ∷ "namespaces" ∷ []

abbrev pub sprint : Json → Result String
sprint v = err (message "unused")

abbrev pub one_read : List ℕ → List (List ℕ)
one_read d = d ∷ []

abbrev guarded : HandlerFunc Memory
guarded = require_session store false (namespaces_handler (client 200))

found_now :
    find_route
      (all_routes handler store (client 200) false one_read 1 sprint)
      "GET"
      (segments anonymous)
    ≡ some (guarded, [])
unfolding find_route match_path all_routes open_routes api_routes
found_now = refl

no_session : NoSession store false anonymous empty
no_session id carried = ground arith

router_closed_example : IsShut store false anonymous empty (
    serve
      (new_router handler store (client 200) false one_read 1 sprint segments none anonymous)
      empty)
router_closed_example =
    router_closed handler store (client 200) false one_read 1 sprint segments none anonymous empty
      ("namespaces" ∷ []) guarded [] refl found_now no_session

abbrev signed_in : Request
signed_in = record bare {
  method = "GET";
  cookie = λ k. if str_eq k "__Host-td-session" then some "id1" else none;
}

abbrev container : ContainerSummary
container = record { name = "web"; image = "web:1"; ready = true; restart_count = pos 2 }

abbrev running : Pod
running = record {
  name = "web-1";
  containers = [];
  phase = "Running";
  container_statuses = container ∷ [];
}

abbrev waiting : Pod
waiting = record {
  name = "web-1";
  containers = (record { name = "web"; image = "web:1" }) ∷ [];
  phase = "Pending";
  container_statuses = [];
}

reported : running.container_statuses ≢ []
reported = ground arith

summary_of-reported_example :
    ((summary_of running).containers ≡ container ∷ [])
    × ((summary_of running).ready ≡ all (λ cs. cs.ready) (container ∷ []))
summary_of-reported_example = summary_of-reported running reported

summary_of-unreported_example :
    ((summary_of waiting).containers ≡ map unreported waiting.containers)
    × ((summary_of waiting).ready ≡ false)
summary_of-unreported_example = summary_of-unreported waiting refl
