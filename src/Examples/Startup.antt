-- ===== src/Examples/Startup.antt =====
-- A configuration at a concrete environment.
use tenant_deck.Base.{
  ℕ, suc, zero, String, ◌≡◌, refl, false, List, [], ◌∷◌, Result, ok, str_eq, if◌then◌else◌,
}
use tenant_deck.Session.Crypto.{Bytes}
use tenant_deck.Std.Strconv.{parse_bool}
use tenant_deck.Config.{
  Config, config, load, problems, settings, missing, flag, get_env_default, key_of,
  encryption_key_of, insecure_url, has_prefix,
}
use tenant_deck.Config.Startup.{IsConfigured, load-IsConfigured}

-- Every required variable is set, and nothing else.
abbrev pub environment : String → String
environment name =
    if str_eq name "TENANTDECK_EXTERNAL_URL"
    then "https://deck.example"
    else if str_eq name "TENANTDECK_INSECURE"
    then ""
    else if str_eq name "TENANTDECK_REDIS_TLS"
    then ""
    else "x"

abbrev zeros : ℕ → Bytes
zeros zero = []
zeros (suc n) = 0 ∷ zeros n

abbrev pub decode_base64 : String → Result Bytes
decode_base64 s = ok (zeros 32)

abbrev pub fields_of : String → List String
fields_of s = s ∷ []

abbrev loaded : Config
loaded = record {
  listen_addr = "x";
  external_url = "https://deck.example";
  insecure = false;
  issuer_url = "x";
  client_id = "x";
  client_secret = "x";
  scopes = "x" ∷ [];
  redis_addr = "x";
  redis_username = "x";
  redis_password = "x";
  redis_tls = false;
  redis_ca_file = "x";
  encryption_key = zeros 32;
  capsule_proxy_url = "x";
}

loads_now : load environment fields_of decode_base64 ≡ config loaded
unfolding load problems settings missing flag parse_bool get_env_default key_of encryption_key_of
    insecure_url has_prefix
loads_now = refl

load-IsConfigured_example : IsConfigured loaded
load-IsConfigured_example = load-IsConfigured environment fields_of decode_base64 loaded loads_now

-- Another scheme than https is accepted, if it is not http.
other_scheme : insecure_url environment fields_of decode_base64 false "ftp://deck.example" ≡ []
unfolding insecure_url has_prefix
other_scheme = refl
