-- ===== src/Mockoidc.antt =====
-- cmd/mockoidc: the identity provider of the end-to-end tests, which is no part of the product. Its
-- configuration, its state and what its handlers share.
pub mod Authorize
pub mod Token
pub mod Routes
pub mod Flow
use tenant_deck.Base.{
  ℕ, ◌+◌, ◌*◌, ◌/◌, Bool, ◌||◌, String, List, [], ◌∷◌, ◌++◌, Option, none, some, Result, ok, err,
  message, str_eq, ltb, not, ℤ, sub_ℕ, if◌then◌else◌,
}
use tenant_deck.Base.Io.{Io}
use tenant_deck.Std.Base64.{raw_url_encode}
use tenant_deck.Std.Json.{Json, num, str, obj, fields}
use tenant_deck.Std.Http.{Writer, json, set_header, write_header, write}
use tenant_deck.Std.Handler.{Respond}
use tenant_deck.Std.Strconv.{format_int}
use tenant_deck.Std.Time.{Clock, second}
use tenant_deck.Session.Crypto.{Bytes}

-- A lifetime is in nanoseconds.
pub record ServerConfig : Type 0 where
  pub listen_addr : String
  pub issuer_url : String
  pub client_id : String
  pub client_secret : String
  pub id_token_ttl : ℕ

unfoldable pub get_env_default : (String → String) → String → String → String
get_env_default env name default_value =
    if not (str_eq (env name) "") then env name else default_value

-- `env` is os.Getenv.
unfoldable pub load_config : (String → String) → Result ServerConfig
unfolding get_env_default
load_config env =
    if str_eq (env "MOCKOIDC_ISSUER_URL") ""
      || (str_eq (env "MOCKOIDC_CLIENT_ID") "" || str_eq (env "MOCKOIDC_CLIENT_SECRET") "")
    then err (
        message
          "MOCKOIDC_ISSUER_URL, MOCKOIDC_CLIENT_ID and MOCKOIDC_CLIENT_SECRET are all required")
    else ok (record {
      listen_addr = get_env_default env "MOCKOIDC_LISTEN_ADDR" ":9999";
      issuer_url = env "MOCKOIDC_ISSUER_URL";
      client_id = env "MOCKOIDC_CLIENT_ID";
      client_secret = env "MOCKOIDC_CLIENT_SECRET";
      id_token_ttl = 300 * second;
    })

abbrev pub signing_key_id : String
signing_key_id = "mockoidc-key"

abbrev pub signing_alg : String
signing_alg = "RS256"

pub record AuthCode : Type 0 where
  pub subject : String
  pub redirect_uri : String
  pub nonce : String
  pub code_challenge : String
  pub expires_at : ℕ

pub record RefreshToken : Type 0 where
  pub subject : String
  pub expires_at : ℕ

-- The two maps of the server, and the world outside it.
pub record State (W : Type 0) : Type 0 where
  pub codes : String → Option AuthCode
  pub tokens : String → Option RefreshToken
  pub outside : W

-- What the server calls: `fill` is the content of a buffer after rand.Read, `sum256` sha256.Sum256 of
-- a text, `new_signer` jose.NewSigner with the key, for an algorithm and an identifier, which gives
-- what jwt.Signed makes of claims, `jwk` the JSON of the public half of the key with an identifier,
-- an algorithm and a use, `parse_url` url.Parse, `with_query` the text of such a URL once the pairs
-- are set in its query. `basic_auth` and `parse_form` are the methods of a request.
pub record Library (W U R : Type 0) : Type 0 where
  pub fill : ℕ → W → Bytes × W
  pub clock : Clock W
  pub sum256 : String → Bytes
  pub new_signer : String → String → Result (Json → Result String)
  pub jwk : String → String → String → Json
  pub parse_url : String → Result U
  pub with_query : U → List (String × String) → String
  pub basic_auth : R → Option (String × String)
  pub parse_form : R → Result (Unit {0})

module _ {W U R : Type 0} (lib : Library W U R) where
  unfoldable pub now : State W → ℕ × State W
  now s = ((lib.clock.now s.outside).0, record s { outside = (lib.clock.now s.outside).1 })

  unfoldable pub random_token : State W → String × State W
  unfolding raw_url_encode
  random_token s =
      (raw_url_encode (lib.fill 32 s.outside).0, record s { outside = (lib.fill 32 s.outside).1 })

-- m[key] = value, and delete(m, key).
abbrev pub update : {A : Type 0} → (String → Option A) → String → Option A → String → Option A
update m key value k = if str_eq key k then value else m k

-- time.Now().After(t)
abbrev pub is_after : ℕ → ℕ → Bool
is_after now t = ltb t now

unfoldable pub write_json : ℕ → Json → Respond
unfolding set_header write_header write
write_json status v w =
    write (json v) (write_header status (set_header "Content-Type" "application/json" w))

unfoldable pub write_token_error : String → Respond
unfolding write_json
write_token_error code = write_json 400 (obj (fields (("error", str code) ∷ [])))

-- Seconds since 1970 of a time in nanoseconds since year 1.
unfoldable pub unix : ℕ → ℤ
unix t = sub_ℕ (t / second) 62135596800
