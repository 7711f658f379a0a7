-- ===== src/Examples/Process.antt =====
-- The whole program over the database in memory: it serves one request and is then closed.
use tenant_deck.Base.{
  String, ◌≡◌, refl, true, false, some, none, List, [], ◌∷◌, ok, str_eq, if◌then◌else◌,
}
use tenant_deck.Std.Http.{Request, write_header}
use tenant_deck.Std.Handler.{serve, emit}
use tenant_deck.Std.Mux.{find_route, match_path, serve_mux, dispatch, unmatched}
use tenant_deck.Session.Store.{Store}
use tenant_deck.Session.Crypto.{Bytes}
use tenant_deck.Capsule.Client.{Client}
use tenant_deck.Config.{Config}
use tenant_deck.Config.RedisTls.{
  IsPinned, custom_ca, build_redis_tls_config, build_redis_tls_config-IsPinned,
}
use tenant_deck.Httpapi.Middleware.{security_headers}
use tenant_deck.Httpapi.Router.{all_routes, open_routes, api_routes, new_router}
use tenant_deck.Webassets.{Files, file_name, file_exists, handler_from_fs}
use tenant_deck.Process.{Platform, server_closed}
use tenant_deck.Examples.Memory.{Memory, empty, memory_client, counter, tagging}
use tenant_deck.Examples.Samples.{store, handler, bare, provider, fixed_clock}
use tenant_deck.Examples.Router.{anonymous, segments, sprint, one_read}
use tenant_deck.Examples.Startup.{environment, fields_of, decode_base64}
use tenant_deck.Examples.Upstream.{answering, one_item, client}

abbrev page : Files Memory
page = record {
  stat = λ name. if str_eq name "index.html" then some false else none;
  file_server = λ r. emit (write_header 200);
}

abbrev platform : Platform Memory Bytes (Unit {0})
platform = record {
  env = environment;
  fields_of = fields_of;
  decode_base64 = decode_base64;
  read_file = λ name w. (ok (1 ∷ []), w);
  append_certs = λ pem. some pem;
  redis = λ opts. memory_client;
  ciphers = record { new_cipher = λ key. ok tt; new_gcm = λ block. ok tagging };
  rand = counter;
  clock = fixed_clock;
  text = one_item;
  parse_url = λ url. ok (record { scheme = "https"; host = "deck.example" });
  new_relying_party = λ q w. (ok provider, w);
  upstream = answering 200;
  stream_of = λ c. c;
  clean = λ path. path;
  dist = ok page;
  segments = segments;
  split = one_read;
  writes = 1;
  sprint = sprint;
  listen = λ addr router w. (server_closed, (serve (router anonymous) w).world);
  shutdown = λ w. (ok tt, w);
}

abbrev pinning : Config
pinning = record {
  listen_addr = ":8080";
  external_url = "https://deck.example";
  insecure = false;
  issuer_url = "https://idp.example";
  client_id = "deck";
  client_secret = "hush";
  scopes = [];
  redis_addr = "valkey:6379";
  redis_username = "";
  redis_password = "";
  redis_tls = true;
  redis_ca_file = "/etc/ca.pem";
  encryption_key = [];
  capsule_proxy_url = "https://capsule";
}

pinned_now :
    (build_redis_tls_config platform.read_file platform.append_certs pinning empty).0
    ≡ ok (some (record { root_cas = some (1 ∷ []) }))
unfolding build_redis_tls_config custom_ca
pinned_now = refl

build_redis_tls_config-IsPinned_example :
    IsPinned platform.read_file platform.append_certs pinning
      (some (record { root_cas = some (1 ∷ []) }))
      empty
build_redis_tls_config-IsPinned_example =
    build_redis_tls_config-IsPinned platform.read_file platform.append_certs pinning empty
      (some (record { root_cas = some (1 ∷ []) })) refl refl pinned_now

abbrev deep_link : Request
deep_link = record bare { path = "/namespaces/team-a" }

abbrev nowhere : Request → List String
nowhere r = if str_eq r.path "/" then "" ∷ [] else "namespaces" ∷ "team-a" ∷ []

-- A POST to a path that only a GET route serves gets the page.
abbrev posted : Request
posted = record anonymous { method = "POST" }

posted_to_frontend :
    (serve
      (new_router handler store
        (client 200)
        false
        one_read
        1
        sprint
        segments
        (some (handler_from_fs (λ path. path) page))
        posted)
      empty).writer.status
    ≡ some 200
unfolding new_router serve_mux dispatch unmatched find_route match_path all_routes open_routes
    api_routes security_headers handler_from_fs file_exists file_name write_header
posted_to_frontend = refl
