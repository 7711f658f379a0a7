-- ===== src/Process/Ready.antt =====
-- What has been checked before the program listens.
use tenant_deck.Base.{true, false, String, Option, some, ok, ◌≡◌, str_eq}
use tenant_deck.Std.Mux.{HandlerFunc}
use tenant_deck.Session.Crypto.{Encryptor, new_encryptor}
use tenant_deck.Session.Backend.{TlsConfig, Backend, new_redis_backend}
use tenant_deck.Session.Store.{Store}
use tenant_deck.Config.{Config, config, load}
use tenant_deck.Config.Startup.{IsConfigured}
use tenant_deck.Config.RedisTls.{IsPinned}
use tenant_deck.Auth.Oidc.{AuthHandler, RelyingParty}
use tenant_deck.Auth.Setup.{origin_of}
use tenant_deck.Webassets.{frontend_handler}
use tenant_deck.Capsule.Client.{new_client}
use tenant_deck.Httpapi.Router.{new_router}
use tenant_deck.Process.{Platform, options_of}

module _ {W P Block : Type 0} (p : Platform W P Block) where
  -- The router of a configuration over a backend: all of its parts share one store, which seals with
  -- the configured key, and the login flow has the configured mode and origin.
  pub record IsRouter (cfg : Config) (backend : Backend W) (router : HandlerFunc W) : Type 0 where
    pub enc : Encryptor
    pub key : new_encryptor p.ciphers cfg.encryption_key ≡ ok enc
    pub party : RelyingParty W
    pub external_origin : String
    pub origin : origin_of p.parse_url cfg.external_url ≡ ok external_origin
    pub frontend : HandlerFunc W
    pub page : frontend_handler p.clean p.dist ≡ ok frontend
    pub table :
        let store : Store W = record {
          backend = backend;
          enc = enc;
          rand = p.rand;
          text = p.text;
        } in
        let auth : AuthHandler W = record {
          party = party;
          store = store;
          insecure = cfg.insecure;
          external_origin = external_origin;
          rand = p.rand;
          clock = p.clock;
        } in
        router
        ≡ new_router auth store
            (new_client cfg.capsule_proxy_url p.upstream p.stream_of p.text)
            cfg.insecure
            p.split
            p.writes
            p.sprint
            p.segments
            (some frontend)

  -- The configuration is that of the environment and a valid one, the connection to Redis is made
  -- with the CA file that it names, and the router is built from both.
  pub record IsReady (cfg : Config) (router : HandlerFunc W) : Type 0 where
    pub environment : load p.env p.fields_of p.decode_base64 ≡ config cfg
    pub configured : IsConfigured cfg
    pub tls : Option (TlsConfig P)
    pub at_read : W
    pub pinned :
        cfg.redis_tls ≡ true
        → str_eq cfg.redis_ca_file "" ≡ false
        → IsPinned p.read_file p.append_certs cfg tls at_read
    pub router_built : IsRouter cfg (new_redis_backend p.redis (options_of p cfg tls)) router
