-- ===== src/Process.antt =====
-- cmd/tenantdeck/main.go: the program, from its configuration to the end of its service.
pub mod Ready
use tenant_deck.Base.{ℕ, String, List, Option, some, Result, ok, err, Error, message}
use tenant_deck.Base.Io.{Io, pure, fail, lift, ◌>>=◌}
use tenant_deck.Std.Json.{Json}
use tenant_deck.Std.Http.{Request}
use tenant_deck.Std.Mux.{HandlerFunc}
use tenant_deck.Std.Time.{Clock}
use tenant_deck.Session.Crypto.{Bytes, Random, Ciphers}
use tenant_deck.Session.Codec.{JsonText}
use tenant_deck.Session.Backend.{
  Backend, RedisClient, TlsConfig, RedisOptions, new_redis_backend, redis_close,
}
use tenant_deck.Session.Store.{new_store}
use tenant_deck.Config.{Config, Loaded, config, invalid, load}
use tenant_deck.Config.RedisTls.{build_redis_tls_config}
use tenant_deck.Capsule.Client.{HttpClient, new_client}
use tenant_deck.Auth.Oidc.{RelyingParty}
use tenant_deck.Auth.Setup.{Url, PartyRequest, new_handler}
use tenant_deck.Webassets.{Files, frontend_handler}
use tenant_deck.Httpapi.Router.{new_router}

-- What the wait for the server and for a signal ends with: http.ErrServerClosed, another error of
-- ListenAndServe, or a signal.
pub data Ending : Type 0 where
  server_closed : Ending
  failed : Error → Ending
  interrupted : Ending

-- All that the parts of the program take as parameters. `listen` is ListenAndServe on an address
-- until that event, `shutdown` is Shutdown with its deadline of 15 seconds; `upstream` is the HTTP
-- client with the default timeout.
pub record Platform (W P Block : Type 0) : Type 0 where
  pub env : String → String
  pub fields_of : String → List String
  pub decode_base64 : String → Result Bytes
  pub read_file : String → Io W Bytes
  pub append_certs : Bytes → Option P
  pub redis : RedisOptions P → RedisClient W
  pub ciphers : Ciphers Block
  pub rand : Random W
  pub clock : Clock W
  pub text : JsonText
  pub parse_url : String → Result Url
  pub new_relying_party : PartyRequest → Io W (RelyingParty W)
  pub upstream : HttpClient W
  pub stream_of : HttpClient W → HttpClient W
  pub clean : String → String
  pub dist : Result (Files W)
  pub segments : Request → List String
  pub split : Bytes → List Bytes
  pub writes : ℕ
  pub sprint : Json → Result String
  pub listen : String → HandlerFunc W → W → Ending × W
  pub shutdown : Io W (Unit {0})

abbrev loaded : Loaded → Result Config
loaded (config cfg) = ok cfg
loaded (invalid problems) = err (message "invalid configuration")

module _ {W P Block : Type 0} (p : Platform W P Block) where
  abbrev pub options_of : Config → Option (TlsConfig P) → RedisOptions P
  options_of cfg tls = record {
    addr = cfg.redis_addr;
    username = cfg.redis_username;
    password = cfg.redis_password;
    tls_config = tls;
  }

  -- What is built between the backend and the server.
  unfoldable pub build_router : Config → Backend W → Io W (HandlerFunc W)
  unfolding new_store new_handler new_client frontend_handler new_router
  build_router cfg backend = do
    store ← lift (new_store p.ciphers p.rand p.text backend cfg.encryption_key)
    auth ← new_handler p.parse_url p.new_relying_party p.rand p.clock cfg store
    frontend ← lift (frontend_handler p.clean p.dist)
    pure (
        new_router auth store (new_client cfg.capsule_proxy_url p.upstream p.stream_of p.text)
          cfg.insecure p.split p.writes p.sprint p.segments (some frontend))

  abbrev pub outcome : Ending → Io W (Unit {0})
  outcome server_closed = pure tt
  outcome (failed e) = fail e
  outcome interrupted = p.shutdown

  unfoldable pub serve_until_done : Config → HandlerFunc W → Io W (Unit {0})
  serve_until_done cfg router w =
      outcome (p.listen cfg.listen_addr router w).0 (p.listen cfg.listen_addr router w).1

  unfoldable pub start : Config → Backend W → Io W (Unit {0})
  unfolding build_router serve_until_done
  start cfg backend = do router ← build_router cfg backend; serve_until_done cfg router

  -- The deferred Close, whose error is dropped.
  unfoldable pub with_backend : Config → RedisClient W → Backend W → Io W (Unit {0})
  unfolding start
  with_backend cfg client backend w =
      ((start cfg backend w).0, (redis_close client (start cfg backend w).1).1)

  unfoldable pub run : Io W (Unit {0})
  unfolding load build_redis_tls_config with_backend
  run = do
    cfg ← lift (loaded (load p.env p.fields_of p.decode_base64))
    tls ← build_redis_tls_config p.read_file p.append_certs cfg
    with_backend cfg (p.redis (options_of cfg tls)) (new_redis_backend p.redis (options_of cfg tls))
