-- ===== src/Config.antt =====
-- internal/config/config.go: the configuration that is read from the environment.
pub mod Startup
pub mod RedisTls
use tenant_deck.Base.{
  ℕ, Bool, true, false, not, ◌&&◌, ◌==◌, String, codes, List, [], ◌∷◌, ◌++◌, length, Result, ok,
  err, Error, str_eq, if◌then◌else◌,
}
use tenant_deck.Std.Strconv.{parse_bool}
use tenant_deck.Session.Crypto.{Bytes, session_key_size}

-- The sub-structs of the Go type, OIDCConfig, SessionConfig and UpstreamConfig, are spelled out.
pub record Config : Type 0 where
  pub listen_addr : String
  pub external_url : String
  pub insecure : Bool
  pub issuer_url : String
  pub client_id : String
  pub client_secret : String
  pub scopes : List String
  pub redis_addr : String
  pub redis_username : String
  pub redis_password : String
  pub redis_tls : Bool
  pub redis_ca_file : String
  pub encryption_key : Bytes
  pub capsule_proxy_url : String

-- The lines of the error text, in the order in which they are found.
pub data Problem : Type 0 where
  required : String → Problem
  not_bool : String → Error → Problem
  not_base64 : Error → Problem
  wrong_key_size : ℕ → Problem
  not_https : Problem

pub data Loaded : Type 0 where
  config : Config → Loaded
  invalid : List Problem → Loaded

unfoldable pub prefix_codes : List ℕ → List ℕ → Bool
prefix_codes [] s = true
prefix_codes (p ∷ ps) [] = false
prefix_codes (p ∷ ps) (c ∷ s) = p == c && prefix_codes ps s

-- strings.HasPrefix
unfoldable pub has_prefix : String → String → Bool
unfolding prefix_codes
has_prefix s prefix = prefix_codes (codes prefix) (codes s)

-- `env` is os.Getenv, `fields_of` strings.Fields, `decode_base64` base64.StdEncoding.DecodeString.
module _ (env : String → String) (fields_of : String → List String)
    (decode_base64 : String → Result Bytes) where
  unfoldable pub missing : String → List Problem
  missing name = if str_eq (env name) "" then required name ∷ [] else []

  unfoldable pub get_env_default : String → String → String
  get_env_default name default_value =
      if not (str_eq (env name) "") then env name else default_value

  abbrev flag_of : String → Result Bool → Bool × List Problem
  flag_of name (ok b) = (b, [])
  flag_of name (err e) = (false, not_bool name e ∷ [])

  -- An optional bool, false when it is absent or does not parse.
  unfoldable pub flag : String → Bool × List Problem
  unfolding parse_bool
  flag name = if str_eq (env name) "" then (false, []) else flag_of name (parse_bool (env name))

  unfoldable pub key_of : Result Bytes → Bytes × List Problem
  key_of (err e) = ([], not_base64 e ∷ [])
  key_of (ok key) =
      if not (length key == session_key_size)
      then ([], wrong_key_size (length key) ∷ [])
      else (key, [])

  unfoldable pub encryption_key_of : String → Bytes × List Problem
  unfolding key_of
  encryption_key_of key_b64 = if str_eq key_b64 "" then ([], []) else key_of (decode_base64 key_b64)

  unfoldable pub insecure_url : Bool → String → List Problem
  unfolding has_prefix
  insecure_url insecure external_url =
      if not insecure && has_prefix external_url "http://" then not_https ∷ [] else []

  unfoldable pub problems : List Problem
  unfolding missing flag encryption_key_of insecure_url
  problems =
      missing "TENANTDECK_EXTERNAL_URL"
      ++ (missing "TENANTDECK_OIDC_ISSUER_URL"
          ++ (missing "TENANTDECK_OIDC_CLIENT_ID"
              ++ (missing "TENANTDECK_OIDC_CLIENT_SECRET"
                  ++ (missing "TENANTDECK_REDIS_ADDR"
                      ++ (missing "TENANTDECK_CAPSULE_PROXY_URL"
                          ++ ((flag "TENANTDECK_INSECURE").1
                              ++ ((flag "TENANTDECK_REDIS_TLS").1
                                  ++ (missing "TENANTDECK_SESSION_ENCRYPTION_KEY"
                                      ++ ((encryption_key_of
                                            (env "TENANTDECK_SESSION_ENCRYPTION_KEY")).1
                                          ++ insecure_url (flag "TENANTDECK_INSECURE").0
                                              (env "TENANTDECK_EXTERNAL_URL"))))))))))

  unfoldable pub settings : Config
  unfolding get_env_default flag encryption_key_of
  settings = record {
    listen_addr = get_env_default "TENANTDECK_LISTEN_ADDR" ":8080";
    external_url = env "TENANTDECK_EXTERNAL_URL";
    insecure = (flag "TENANTDECK_INSECURE").0;
    issuer_url = env "TENANTDECK_OIDC_ISSUER_URL";
    client_id = env "TENANTDECK_OIDC_CLIENT_ID";
    client_secret = env "TENANTDECK_OIDC_CLIENT_SECRET";
    scopes = fields_of (get_env_default "TENANTDECK_OIDC_SCOPES" "openid profile");
    redis_addr = env "TENANTDECK_REDIS_ADDR";
    redis_username = env "TENANTDECK_REDIS_USERNAME";
    redis_password = env "TENANTDECK_REDIS_PASSWORD";
    redis_tls = (flag "TENANTDECK_REDIS_TLS").0;
    redis_ca_file = env "TENANTDECK_REDIS_CA_FILE";
    encryption_key = (encryption_key_of (env "TENANTDECK_SESSION_ENCRYPTION_KEY")).0;
    capsule_proxy_url = env "TENANTDECK_CAPSULE_PROXY_URL";
  }

  abbrev refuse : List Problem → Config → Loaded
  refuse [] cfg = config cfg
  refuse (p ∷ ps) cfg = invalid (p ∷ ps)

  unfoldable pub load : Loaded
  unfolding problems settings
  load = refuse problems settings
