-- ===== src/Httpapi/Events.antt =====
-- internal/httpapi/events.go: a bounded page of a namespace's events.
use tenant_deck.Base.{ℕ, String, ◌+++◌, [], ◌∷◌, ℤ, pos}
use tenant_deck.Std.Json.{Json, str, obj, fields}
use tenant_deck.Std.Json.Decode.{Decoder, decode_struct, decode_string, decode_int32, at}
use tenant_deck.Std.Http.{Request, http_error}
use tenant_deck.Std.Handler.{Handler, emit, require, need, call, check, ◌>>=◌, ◌>>◌}
use tenant_deck.Capsule.Client.{Client, GroupVersionResource, convert_all, list_namespaced_resource}
use tenant_deck.Httpapi.Validate.{valid_k8s_name}
use tenant_deck.Httpapi.Namespaces.{write_upstream_error}
use tenant_deck.Httpapi.Resources.{SummarizeFunc, write_json_items, unexpected_shape}
use tenant_deck.Httpapi.Summaries.{nested, encode_int32, summarize_with}

abbrev pub events_gvr : GroupVersionResource
events_gvr = record { api_prefix = "api/v1"; resource = "events" }

abbrev pub max_events_listed : ℕ
max_events_listed = 200

-- The decoded object.
pub record Event : Type 0 where
  pub text : String
  pub reason : String
  pub type : String
  pub count : ℤ
  pub last_timestamp : String
  pub kind : String
  pub name : String

unfoldable pub decode_event : Decoder Event
unfolding decode_struct
decode_event = decode_struct (
    ("message", at (λ (a : Event). a.text) (λ a x. record a { text = x }) decode_string)
    ∷ ("reason", at (λ a. a.reason) (λ a x. record a { reason = x }) decode_string)
    ∷ ("type", at (λ a. a.type) (λ a x. record a { type = x }) decode_string)
    ∷ ("count", at (λ a. a.count) (λ a x. record a { count = x }) decode_int32)
    ∷ (
      "lastTimestamp",
      at (λ a. a.last_timestamp) (λ a x. record a { last_timestamp = x }) decode_string,
    )
    ∷ nested "involvedObject" (
        ("kind", at (λ a. a.kind) (λ a x. record a { kind = x }) decode_string)
        ∷ ("name", at (λ a. a.name) (λ a x. record a { name = x }) decode_string)
        ∷ [])
    ∷ [])

-- An eventSummary made of the object.
unfoldable pub encode_event : Event → Json
unfolding encode_int32
encode_event a = obj (
    fields (
      ("message", str a.text)
      ∷ ("reason", str a.reason)
      ∷ ("type", str a.type)
      ∷ ("count", encode_int32 a.count)
      ∷ ("lastTimestamp", str a.last_timestamp)
      ∷ ("involvedObject", str (a.kind +++ ("/" +++ a.name)))
      ∷ []))

unfoldable pub summarize_event : SummarizeFunc
unfolding decode_event encode_event
summarize_event =
    summarize_with "decoding event" decode_event
      (record {
        text = "";
        reason = "";
        type = "";
        count = pos 0;
        last_timestamp = "";
        kind = "";
        name = "";
      })
      encode_event

unfoldable pub events_handler : {W : Type 0} → Client W → Request → Handler W (Unit {0})
unfolding summarize_event
events_handler client r = do
  rec ← need r.session (http_error "unauthorized" 401)
  require (valid_k8s_name (r.path_value "ns")) (http_error "invalid namespace" 400)
  items ←
      call
        (list_namespaced_resource client rec.id_token (r.path_value "ns") events_gvr
          max_events_listed)
        write_upstream_error
  summaries ← check (convert_all summarize_event items) (λ _. unexpected_shape)
  emit (write_json_items summaries)
