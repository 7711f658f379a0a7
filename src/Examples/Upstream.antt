-- ===== src/Examples/Upstream.antt =====
-- Names, the upstream client and the resource routes at concrete inputs.
use tenant_deck.Base.{
  ℕ, String, ◌≡◌, ◌≢◌, ◌↔◌, ◌≤◌, refl, Result, ok, err, Error, Option, some, none, true, false,
  arith, List, [], ◌∷◌, All, codes, ap, message,
}
use tenant_deck.Base.Errors.{is_error, unauthorized, forbidden}
use tenant_deck.Std.Http.{Request, fresh, http_error, write_json}
use tenant_deck.Std.Handler.{Conn, serve}
use tenant_deck.Std.Json.{Json, str, obj, fields, arr, items}
use tenant_deck.Std.Json.Decode.{decode_struct}
use tenant_deck.Session.Codec.{JsonText}
use tenant_deck.Capsule.Client.{
  Client, HttpClient, Outgoing, Incoming, GroupVersionResource, RawMessage, convert_all,
  status_error, do_get, read_bounded, decode_list, decode_items, list_namespaced_resource,
  get_namespaced_resource,
}
use tenant_deck.Capsule.Client.Bounded.{
  read_bounded_iff, IsFetched, do_get-IsFetched, do_get_status,
}
use tenant_deck.Httpapi.Validate.{is_alnum, valid_k8s_name}
use tenant_deck.Httpapi.Validate.Labels.{IsLabel, valid_k8s_name_iff}
use tenant_deck.Httpapi.Resources.{list_resource_handler, get_resource_handler, write_json_items}
use tenant_deck.Httpapi.Resources.Replies.{IsDenied, list_denied, get_denied}
use tenant_deck.Httpapi.Upstream.{
  Permits, list_resource_handler_outbound, get_resource_handler_outbound,
}
use tenant_deck.Examples.Memory.{Memory, empty}
use tenant_deck.Examples.Samples.{alice, bare}

valid_k8s_name_iff_example : (valid_k8s_name "team-a" ≡ true) ↔ IsLabel (codes "team-a")
valid_k8s_name_iff_example = valid_k8s_name_iff "team-a"

read_bounded_iff_example :
    (read_bounded 2 (record { bytes = 1 ∷ 2 ∷ []; failure = none }) ≡ ok (1 ∷ 2 ∷ []))
    ↔ ((◌≡◌ {A = List ℕ} (1 ∷ 2 ∷ []) (1 ∷ 2 ∷ [])) × (◌≡◌ {A = Option Error} none none) × (2 ≤ 2))
read_bounded_iff_example =
    read_bounded_iff 2 (record { bytes = 1 ∷ 2 ∷ []; failure = none }) (1 ∷ 2 ∷ [])

-- An upstream that records each request and answers with a status and the byte 9.
abbrev pub answering : ℕ → HttpClient Memory
answering status = record {
  new_request = λ url. ok tt;
  send = λ req w. (
    ok (record { status = status; body = record { bytes = 9 ∷ []; failure = none } }),
    record w { sent = req ∷ w.sent },
  );
}

-- Every text parses to a list of one item.
abbrev pub one_item : JsonText
one_item = record {
  print = λ v. err (message "unused");
  parse = λ b. ok (obj (fields (("items", arr (items (str "web" ∷ []))) ∷ [])));
  format_time = λ t. err (message "unused");
  parse_time = λ s. err (message "unused");
}

abbrev pub client : ℕ → Client Memory
client status = record {
  base_url = "https://capsule";
  http_client = answering status;
  stream_client = answering status;
  text = one_item;
}

abbrev pub pods : GroupVersionResource
pods = record { api_prefix = "api/v1"; resource = "pods" }

abbrev pub asking : Request
asking = record bare { session = some alice; path_value = λ _. "team-a" }

abbrev pub keep : RawMessage → Result Json
keep raw = raw

-- Only GET requests have been sent.
abbrev pub OnlyGets : Memory → Type 0
OnlyGets w = All (λ req. req.method ≡ "GET") w.sent

abbrev pub idle : Conn Memory
idle = record { writer = fresh; world = empty }

pub permits : (Allowed : String → Type 0) → Permits Allowed (client 200) asking OnlyGets
permits Allowed rec req there out w p = (ap (λ (o : Outgoing). o.method) out.sent, p)

list_resource_handler_outbound_example :
    OnlyGets (serve (list_resource_handler (client 200) pods keep asking) empty).world
list_resource_handler_outbound_example =
    list_resource_handler_outbound (client 200) pods keep asking OnlyGets (permits _) idle tt

get_resource_handler_outbound_example :
    OnlyGets (serve (get_resource_handler (client 200) pods keep asking) empty).world
get_resource_handler_outbound_example =
    get_resource_handler_outbound (client 200) pods keep asking OnlyGets (permits _) idle tt

routes_run : Unit {0}
unfolding valid_k8s_name is_alnum status_error do_get read_bounded decode_list decode_struct
    decode_items list_namespaced_resource get_namespaced_resource convert_all list_resource_handler
    get_resource_handler write_json_items write_json http_error
routes_run = tt

named : valid_k8s_name "team-a" ≡ true
unfolding routes_run
named = refl

abbrev refusal : ℕ → Incoming
refusal status = record { status = status; body = record { bytes = 9 ∷ []; failure = none } }

IsDenied-at :
    (path : String) → IsDenied (client 403) pods keep asking alice (refusal 403) empty path
IsDenied-at path = record { accepted = refl; answered = refl; other = omega arith }

list_denied_example :
    (serve (list_resource_handler (client 403) pods keep asking) empty).writer.status ≡ some 403
list_denied_example =
    list_denied (client 403) pods keep asking alice (refusal 403) empty refl named (IsDenied-at _)

get_denied_example :
    (serve (get_resource_handler (client 403) pods keep asking) empty).writer.status ≡ some 403
get_denied_example =
    get_denied (client 403) pods keep asking alice (refusal 403) empty refl (rw named)
      (IsDenied-at _)

fetched_now : (do_get (client 200) "jwt" "/api/v1/namespaces" empty).0 ≡ ok (9 ∷ [])
unfolding routes_run
fetched_now = refl

do_get-IsFetched_example : IsFetched (client 200) "jwt" "/api/v1/namespaces" empty (9 ∷ [])
do_get-IsFetched_example =
    do_get-IsFetched (client 200) "jwt" "/api/v1/namespaces" empty (9 ∷ []) fetched_now

not_ok : ◌≢◌ {A = ℕ} 403 200
not_ok = omega arith

do_get_status_example :
    (e : Error) × ((do_get (client 403) "jwt" "/api/v1/namespaces" empty).0 ≡ err e)
    × (is_error e unauthorized ≡ false)
    × (is_error e forbidden ≡ true)
do_get_status_example =
    do_get_status (client 403) "jwt" "/api/v1/namespaces" empty (refusal 403) refl refl not_ok
