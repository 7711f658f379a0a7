-- ===== src/Mockoidc/Routes.antt =====
-- cmd/mockoidc/server.go: discovery, the key set and the route table.
use tenant_deck.Base.{String, ◌+++◌, List, [], ◌∷◌, none}
use tenant_deck.Base.Io.{Io, pure, lift, ◌>>=◌}
use tenant_deck.Std.Json.{Json, str, arr, obj, fields, items}
use tenant_deck.Std.Http.{Request}
use tenant_deck.Std.Handler.{Handler, emit}
use tenant_deck.Std.Mux.{lit, Route, HandlerFunc, serve_mux}
use tenant_deck.Mockoidc.{
  ServerConfig, load_config, State, Library, write_json, signing_alg, signing_key_id,
}
use tenant_deck.Mockoidc.Authorize.{handle_authorize}
use tenant_deck.Mockoidc.Token.{handle_token}

-- The keys of a map are printed in order.
unfoldable pub discovery_document : ServerConfig → Json
discovery_document cfg = obj (
    fields (
      ("authorization_endpoint", str (cfg.issuer_url +++ "/authorize"))
      ∷ ("code_challenge_methods_supported", arr (items (str "S256" ∷ [])))
      ∷ ("grant_types_supported", arr (items (str "authorization_code" ∷ str "refresh_token" ∷ [])))
      ∷ ("id_token_signing_alg_values_supported", arr (items (str "RS256" ∷ [])))
      ∷ ("issuer", str cfg.issuer_url)
      ∷ ("jwks_uri", str (cfg.issuer_url +++ "/jwks"))
      ∷ ("response_types_supported", arr (items (str "code" ∷ [])))
      ∷ ("scopes_supported", arr (items (str "openid" ∷ str "profile" ∷ [])))
      ∷ ("subject_types_supported", arr (items (str "public" ∷ [])))
      ∷ ("token_endpoint", str (cfg.issuer_url +++ "/token"))
      ∷ (
        "token_endpoint_auth_methods_supported",
        arr (items (str "client_secret_basic" ∷ str "client_secret_post" ∷ [])),
      )
      ∷ []))

abbrev pub key_set : {W U : Type 0} → Library W U Request → Json
key_set lib =
    obj (fields (("keys", arr (items (lib.jwk signing_key_id signing_alg "sig" ∷ []))) ∷ []))

module _ {W U : Type 0} (cfg : ServerConfig) (lib : Library W U Request) where
  unfoldable pub handle_discovery : Request → Handler (State W) (Unit {0})
  unfolding discovery_document write_json
  handle_discovery r = emit (write_json 200 (discovery_document cfg))

  unfoldable pub handle_jwks : Request → Handler (State W) (Unit {0})
  unfolding write_json
  handle_jwks r = emit (write_json 200 (key_set lib))

  unfoldable pub server_routes : List (Route (State W))
  server_routes =
      (record {
        method = "GET";
        pattern = lit ".well-known" ∷ lit "openid-configuration" ∷ [];
        handler = handle_discovery;
      })
      ∷ (record { method = "GET"; pattern = lit "jwks" ∷ []; handler = handle_jwks })
      ∷ (record {
        method = "GET";
        pattern = lit "authorize" ∷ [];
        handler = handle_authorize cfg lib;
      })
      ∷ (record { method = "POST"; pattern = lit "token" ∷ []; handler = handle_token cfg lib })
      ∷ []

  -- `segments` splits the path of a request.
  unfoldable pub serve_http : (Request → List String) → HandlerFunc (State W)
  unfolding server_routes
  serve_http segments = serve_mux server_routes segments none

abbrev opened : {W U : Type 0} → Library W U Request → Io W (Library W U Request × State W)
opened lib w = pure (lib, record { codes = λ _. none; tokens = λ _. none; outside = w }) w

-- The maps of a new server are empty. `generate_key` is rsa.GenerateKey, `library_of` what is built
-- on the key.
unfoldable pub new_server :
    {W U K : Type 0} → Io W K → (K → Library W U Request) → Io W (Library W U Request × State W)
new_server generate_key library_of = do key ← generate_key; opened (library_of key)

-- `listen` is ListenAndServe, which returns only with an error.
unfoldable pub main :
    {W U K : Type 0}
    → (String → String)
    → Io W K
    → (K → Library W U Request)
    → (Request → List String)
    → (String → HandlerFunc (State W) → State W → Io W (Unit {0}))
    → Io W (Unit {0})
unfolding load_config new_server serve_http
main env generate_key library_of segments listen = do
  cfg ← lift (load_config env)
  (lib, s) ← new_server generate_key library_of
  listen cfg.listen_addr (serve_http cfg lib segments) s
