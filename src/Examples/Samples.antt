-- ===== src/Examples/Samples.antt =====
-- The store, the handlers and the requests of the examples.
use tenant_deck.Base.{
  ℕ, String, false, ◌&&◌, none, some, [], ◌∷◌, ok, err, message, str_eq, if◌then◌else◌,
}
use tenant_deck.Std.Json.{Json, str, obj, fields}
use tenant_deck.Std.Time.{Clock}
use tenant_deck.Std.Http.{Request}
use tenant_deck.Session.Records.{Record, LoginTransaction}
use tenant_deck.Session.Crypto.{Bytes}
use tenant_deck.Session.Store.{Store}
use tenant_deck.Session.RoundTrip.{IsSound}
use tenant_deck.Auth.Oidc.{AuthHandler, RelyingParty, Tokens}
use tenant_deck.Examples.Memory.{
  Memory, memory, counter, tagging, memory-IsKeyValue, memory-IsApart, tagging-IsAead,
  counter-IsRandom,
}
use tenant_deck.Examples.Text.{text_of, text_of-IsJsonText, time_now, time_limit}

-- What the counter's first 32 bytes become.
abbrev pub first_token : String
first_token = "AQEBAQEBAQEBAQEBAQEBAQEBAQEBAQEBAQEBAQEBAQE"

abbrev pub alice : Record
alice = record {
  subject = "alice";
  id_token = "jwt";
  expires_at = time_limit;
  created_at = time_now;
  csrf_token = first_token;
}

abbrev pub alice_value : Json
alice_value = obj (
    fields (
      ("subject", str "alice")
      ∷ ("id_token", str "jwt")
      ∷ ("expires_at", str "limit")
      ∷ ("created_at", str "now")
      ∷ ("csrf_token", str first_token)
      ∷ []))

abbrev pub login : LoginTransaction
login = record { nonce = "n1"; pkce_verifier = "v1"; created_at = time_now }

abbrev pub login_value : Json
login_value =
    obj
      (fields (("nonce", str "n1") ∷ ("pkce_verifier", str "v1") ∷ ("created_at", str "now") ∷ []))

abbrev pub store : Store Memory
store = record {
  backend = memory;
  enc = record { gcm = tagging };
  rand = counter;
  text = text_of alice_value login_value;
}

abbrev pub store-IsSound : IsSound store
store-IsSound = record {
  kv = memory-IsKeyValue;
  apart = memory-IsApart;
  aead = tagging-IsAead;
  random = counter-IsRandom;
  text = text_of-IsJsonText alice_value login_value;
}

-- Twelve bytes of nonce, the tag and the printed value's number.
abbrev sealed_as : ℕ → Bytes
sealed_as n = 0 ∷ 0 ∷ 0 ∷ 0 ∷ 0 ∷ 0 ∷ 0 ∷ 0 ∷ 0 ∷ 0 ∷ 0 ∷ 0 ∷ 7 ∷ n ∷ []

-- A world with a login in progress under "s1", and one with a session under "id1".
abbrev pub pending : Memory
pending = record {
  table = λ k. if str_eq k "login:s1" then some (sealed_as 1) else none;
  entropy = 1;
  sent = [];
}

abbrev pub active : Memory
active = record {
  table = λ k. if str_eq k "session:id1" then some (sealed_as 0) else none;
  entropy = 1;
  sent = [];
}

abbrev pub fixed_clock : Clock Memory
fixed_clock = record { now = λ w. (time_now, w) }

abbrev tokens : Tokens
tokens = record { subject = "alice"; id_token = "jwt"; expiration = time_limit }

abbrev pub provider : RelyingParty Memory
provider = record {
  code_challenge = λ v. v;
  auth_url = λ state challenge nonce. "https://idp.example/authorize";
  code_exchange = λ code nonce verifier w.
      if str_eq code "c1" && (str_eq nonce "n1" && str_eq verifier "v1")
      then (ok tokens, w)
      else (err (message "invalid_grant"), w);
}

abbrev pub handler : AuthHandler Memory
handler = record {
  party = provider;
  store = store;
  insecure = false;
  external_origin = "https://deck.example";
  rand = counter;
  clock = fixed_clock;
}

abbrev pub bare : Request
bare = record {
  method = "GET";
  path = "/";
  header = λ _. "";
  cookie = λ _. none;
  query = λ _. "";
  post_form = λ _. "";
  path_value = λ _. "";
  session = none;
}

abbrev pub returning : Request
returning = record bare {
  path = "/auth/callback";
  cookie = λ k. if str_eq k "__Host-td-login-state" then some "s1" else none;
  query = λ k. if str_eq k "state" then "s1" else if str_eq k "code" then "c1" else "";
}

abbrev pub leaving : Request
leaving = record bare {
  method = "POST";
  path = "/auth/logout";
  cookie = λ k. if str_eq k "__Host-td-session" then some "id1" else none;
  header = λ k.
      if str_eq k "Origin"
      then "https://deck.example"
      else if str_eq k "X-CSRF-Token"
      then first_token
      else "";
}
