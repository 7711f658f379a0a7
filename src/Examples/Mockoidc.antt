-- ===== src/Examples/Mockoidc.antt =====
-- The mock provider at concrete requests, over a world that counts the random draws.
use tenant_deck.Base.{
  ℕ, ◌+◌, String, ◌≡◌, ◌≢◌, refl, true, none, some, [], ◌∷◌, ok, str_eq, eq_iff, arith,
  if◌then◌else◌,
}
use tenant_deck.Std.Base64.{raw_url_encode}
use tenant_deck.Std.Json.{str}
use tenant_deck.Std.Strconv.{format_int}
use tenant_deck.Std.Http.{Request, http_error, redirect, set_header, write_header, write}
use tenant_deck.Std.Handler.{serve}
use tenant_deck.Mockoidc.{
  ServerConfig, State, Library, now, random_token, write_json, write_token_error, unix,
}
use tenant_deck.Mockoidc.Authorize.{handle_authorize, grant_code, store_code}
use tenant_deck.Mockoidc.Token.{
  authenticate_client, verify_pkce, claims, sign_id_token, store_refresh, issue_tokens, take_code,
  exchange_code, handle_authorization_code_grant, handle_grant, handle_token,
}
use tenant_deck.Mockoidc.Token.Issue.{IsTokenAnswer, handle_token-IsTokenAnswer}
use tenant_deck.Mockoidc.Token.OneUse.{here, code_once}
use tenant_deck.Mockoidc.Flow.{IsAsked, IsPresented, code_of, granted_code_is_exchanged}
use tenant_deck.Examples.Memory.{repeat}
use tenant_deck.Examples.Samples.{bare, first_token}

abbrev cfg : ServerConfig
cfg = record {
  listen_addr = ":9999";
  issuer_url = "http://idp.example";
  client_id = "deck";
  client_secret = "hush";
  id_token_ttl = 300000000000;
}

abbrev library : Library ℕ String Request
library = record {
  fill = λ n w. (repeat n w, w + 1);
  clock = record { now = λ w. (63000000000000000000, w) };
  sum256 = λ s. 1 ∷ [];
  new_signer = λ alg key_id. ok (λ v. ok "jwt");
  jwk = λ key_id alg use_as. str key_id;
  parse_url = λ s. ok s;
  with_query = λ u pairs. u;
  basic_auth = λ r. none;
  parse_form = λ r. ok tt;
}

abbrev ask : Request
ask = record bare {
  path = "/authorize";
  query = λ k.
      if str_eq k "response_type"
      then "code"
      else if str_eq k "client_id"
      then "deck"
      else if str_eq k "redirect_uri"
      then "https://deck.example/auth/callback"
      else if str_eq k "code_challenge_method"
      then "S256"
      else if str_eq k "code_challenge"
      then "AQ"
      else "";
}

abbrev exchange : Request
exchange = record bare {
  method = "POST";
  path = "/token";
  post_form = λ k.
      if str_eq k "grant_type"
      then "authorization_code"
      else if str_eq k "client_id"
      then "deck"
      else if str_eq k "client_secret"
      then "hush"
      else if str_eq k "code"
      then first_token
      else if str_eq k "redirect_uri"
      then "https://deck.example/auth/callback"
      else if str_eq k "code_verifier"
      then "v1"
      else "";
}

abbrev new : State ℕ
new = record { codes = λ _. none; tokens = λ _. none; outside = 1 }

abbrev granted : State ℕ
granted = record new {
  codes = λ k. if str_eq first_token k then some (code_of cfg library ask new) else none;
  outside = 2;
}

provider_runs : Unit {0}
unfolding now random_token write_json write_token_error unix handle_authorize grant_code store_code
    authenticate_client verify_pkce claims sign_id_token store_refresh issue_tokens take_code
    exchange_code handle_authorization_code_grant handle_grant handle_token http_error redirect
    set_header write_header write raw_url_encode format_int
provider_runs = tt

exchanged : (serve (handle_token cfg library exchange) granted).writer.status ≡ some 200
unfolding provider_runs
exchanged = refl

client_known : authenticate_client cfg library exchange ≡ true
unfolding provider_runs
client_known = refl

handle_token-IsTokenAnswer_example :
    IsTokenAnswer cfg library exchange granted (serve (handle_token cfg library exchange) granted)
handle_token-IsTokenAnswer_example =
    handle_token-IsTokenAnswer cfg library exchange granted exchanged

code_once_example :
    (serve
      (handle_token cfg library exchange)
      (serve (handle_token cfg library exchange) granted).world).writer.status
    ≡ some 400
code_once_example =
    code_once cfg library exchange exchange granted _ refl client_known refl here refl refl

somewhere : ◌≢◌ {A = String} "https://deck.example/auth/callback" ""
somewhere = ground (arith, eq_iff "https://deck.example/auth/callback" "")

challenged : ◌≢◌ {A = String} "AQ" ""
challenged = ground (arith, eq_iff "AQ" "")

verified : ◌≢◌ {A = String} "v1" ""
verified = ground (arith, eq_iff "v1" "")

asked : IsAsked cfg library ask
asked = record {
  response_type = refl;
  client_id = refl;
  redirect_uri = somewhere;
  method = refl;
  challenge = challenged;
}

kept :
    granted.codes (random_token library new).0
    ≡ (serve (handle_authorize cfg library ask) new).world.codes (random_token library new).0
unfolding provider_runs
kept = refl

presented :
    IsPresented cfg library ask exchange
      (random_token library new).0
      (code_of cfg library ask new).expires_at
      granted
unfolding provider_runs
presented = record {
  form = refl;
  client = refl;
  grant_type = refl;
  code_sent = refl;
  destination = refl;
  verifier = verified;
  challenge = refl;
  in_time = omega arith;
  sign = λ v. ok "jwt";
  signer = refl;
  id_token = "jwt";
  signed = refl;
}

granted_code_is_exchanged_example :
    (serve (handle_token cfg library exchange) granted).writer.status ≡ some 200
granted_code_is_exchanged_example =
    granted_code_is_exchanged cfg library ask exchange new granted asked kept presented
