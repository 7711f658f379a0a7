-- ===== src/Httpapi/Network.antt =====
-- internal/httpapi/network.go: services and ingresses.
use tenant_deck.Base.{
  String, List, [], ◌∷◌, ◌++◌, Option, none, Result, ok, ℤ, pos, str_eq, not, if◌then◌else◌,
}
use tenant_deck.Std.Json.{Json, null, str, arr, obj, fields, items}
use tenant_deck.Std.Json.Decode.{Decoder, decode_struct, decode_string, decode_int32, at}
use tenant_deck.Capsule.Client.{GroupVersionResource}
use tenant_deck.Httpapi.Resources.{SummarizeFunc}
use tenant_deck.Httpapi.Summaries.{
  nested, decode_pointer, decode_slice, encode_int32, member_if_set, member_if_text, summarize_with,
}
use tenant_deck.Httpapi.Storage.{encode_texts}

abbrev pub services_gvr : GroupVersionResource
services_gvr = record { api_prefix = "api/v1"; resource = "services" }

abbrev pub ingresses_gvr : GroupVersionResource
ingresses_gvr = record { api_prefix = "apis/networking.k8s.io/v1"; resource = "ingresses" }

-- Also the decoded port, whose TargetPort is an `any` and is kept as fmt.Sprint prints it.
pub record ServicePortSummary : Type 0 where
  pub name : String
  pub port : ℤ
  pub target_port : String
  pub protocol : String

pub record ServiceSummary : Type 0 where
  pub name : String
  pub type : String
  pub cluster_ip : String
  pub ports : List ServicePortSummary

-- fmt.Sprint of a nil `any`.
abbrev pub printed_nil : String
printed_nil = "<nil>"

-- Decoding into an `any` and fmt.Sprint of it: `sprint` is what they give for a value that is neither
-- null nor a text.
unfoldable pub decode_any : (Json → Result String) → Decoder String
decode_any sprint null a = ok printed_nil
decode_any sprint (str s) a = ok s
decode_any sprint v a = sprint v

unfoldable pub decode_port : (Json → Result String) → Decoder ServicePortSummary
unfolding decode_struct decode_any
decode_port sprint = decode_struct (
    ("name", at (λ (a : ServicePortSummary). a.name) (λ a x. record a { name = x }) decode_string)
    ∷ ("port", at (λ a. a.port) (λ a x. record a { port = x }) decode_int32)
    ∷ (
      "targetPort",
      at (λ a. a.target_port) (λ a x. record a { target_port = x }) (decode_any sprint),
    )
    ∷ ("protocol", at (λ a. a.protocol) (λ a x. record a { protocol = x }) decode_string)
    ∷ [])

abbrev pub zero_port : ServicePortSummary
zero_port = record { name = ""; port = pos 0; target_port = printed_nil; protocol = "" }

unfoldable pub decode_service : (Json → Result String) → Decoder ServiceSummary
unfolding decode_struct decode_slice decode_port
decode_service sprint = decode_struct (
    nested "metadata" (
      ("name", at (λ (a : ServiceSummary). a.name) (λ a x. record a { name = x }) decode_string)
      ∷ [])
    ∷ nested "spec" (
        ("type", at (λ a. a.type) (λ a x. record a { type = x }) decode_string)
        ∷ ("clusterIP", at (λ a. a.cluster_ip) (λ a x. record a { cluster_ip = x }) decode_string)
        ∷ (
          "ports",
          at (λ a. a.ports) (λ a x. record a { ports = x })
              (decode_slice (decode_port sprint) zero_port),
        )
        ∷ [])
    ∷ [])

unfoldable pub encode_ports : List ServicePortSummary → List Json
unfolding encode_int32
encode_ports [] = []
encode_ports (p ∷ ps) =
    obj (
      fields (
        member_if_text "name" p.name
        ++ ("port", encode_int32 p.port)
          ∷ (member_if_text "targetPort" p.target_port ++ ("protocol", str p.protocol) ∷ [])))
    ∷ encode_ports ps

unfoldable pub encode_service : ServiceSummary → Json
unfolding encode_ports
encode_service a = obj (
    fields (
      ("name", str a.name)
      ∷ ("type", str a.type)
      ∷ ("clusterIP", str a.cluster_ip)
      ∷ ("ports", arr (items (encode_ports a.ports)))
      ∷ []))

unfoldable pub summarize_service : (Json → Result String) → SummarizeFunc
unfolding decode_service encode_service
summarize_service sprint =
    summarize_with "decoding service" (decode_service sprint)
      (record { name = ""; type = ""; cluster_ip = ""; ports = [] }) encode_service

-- The decoded object; `hosts` holds the host of each rule, the empty ones too.
pub record IngressSummary : Type 0 where
  pub name : String
  pub ingress_class_name : Option String
  pub hosts : List String

unfoldable pub decode_rule : Decoder String
unfolding decode_struct
decode_rule = decode_struct (("host", at (λ h. h) (λ h x. x) decode_string) ∷ [])

unfoldable pub decode_ingress : Decoder IngressSummary
unfolding decode_struct decode_slice decode_rule
decode_ingress = decode_struct (
    nested "metadata" (
      ("name", at (λ (a : IngressSummary). a.name) (λ a x. record a { name = x }) decode_string)
      ∷ [])
    ∷ nested "spec" (
        (
          "ingressClassName",
          at (λ a. a.ingress_class_name) (λ a x. record a { ingress_class_name = x })
              decode_pointer,
        )
        ∷ ("rules", at (λ a. a.hosts) (λ a x. record a { hosts = x }) (decode_slice decode_rule ""))
        ∷ [])
    ∷ [])

-- The loop over the rules, which keeps the hosts that are set.
unfoldable pub rule_hosts : List String → List String
rule_hosts [] = []
rule_hosts (h ∷ hs) = let rest = rule_hosts hs in if not (str_eq h "") then h ∷ rest else rest

unfoldable pub encode_ingress : IngressSummary → Json
unfolding encode_texts rule_hosts
encode_ingress a = obj (
    fields (
      ("name", str a.name)
      ∷ (member_if_set "ingressClassName" a.ingress_class_name
          ++ ("hosts", arr (items (encode_texts (rule_hosts a.hosts)))) ∷ [])))

unfoldable pub summarize_ingress : SummarizeFunc
unfolding decode_ingress encode_ingress
summarize_ingress =
    summarize_with "decoding ingress" decode_ingress
      (record { name = ""; ingress_class_name = none; hosts = [] }) encode_ingress
