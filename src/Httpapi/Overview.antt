-- ===== src/Httpapi/Overview.antt =====
-- internal/httpapi/overview.go: the quotas and limit ranges of a namespace.
use tenant_deck.Base.{
  ℕ, Bool, true, false, String, codes, List, [], ◌∷◌, ◌++◌, Option, none, some, Result, ok, err,
  message, map_error, wrapped, str_eq, ltb, ◌==◌, if◌then◌else◌,
}
use tenant_deck.Base.Results
use tenant_deck.Std.Json.{Json, null, str, arr, obj, fields, field_list, items}
use tenant_deck.Std.Json.Decode.{Decoder, decode_struct, decode_string, at}
use tenant_deck.Std.Http.{Request, http_error, write_json}
use tenant_deck.Std.Handler.{Handler, emit, require, need, call, check, ◌>>=◌, ◌>>◌}
use tenant_deck.Capsule.Client.{
  Client, GroupVersionResource, RawMessage, unmarshal, convert_all, list_namespaced_resource,
}
use tenant_deck.Httpapi.Validate.{valid_k8s_name}
use tenant_deck.Httpapi.Namespaces.{write_upstream_error}
use tenant_deck.Httpapi.Resources.{unexpected_shape}
use tenant_deck.Httpapi.Summaries.{nested, decode_slice}

abbrev pub resource_quotas_gvr : GroupVersionResource
resource_quotas_gvr = record { api_prefix = "api/v1"; resource = "resourcequotas" }

abbrev pub limit_ranges_gvr : GroupVersionResource
limit_ranges_gvr = record { api_prefix = "api/v1"; resource = "limitranges" }

-- A map[string]string, in the order of its keys, as json.Marshal prints it.
abbrev pub Quantities : Type 0
Quantities = List (String × String)

-- Lexicographic order.
before : List ℕ → List ℕ → Bool
before s [] = false
before [] (d ∷ t) = true
before (c ∷ s) (d ∷ t) =
    let rest = before s t in if ltb c d then true else if c == d then rest else false

unfoldable pub insert : String → String → Quantities → Quantities
unfolding before
insert k v [] = (k, v) ∷ []
insert k v ((j, x) ∷ m) =
    let rest = insert k v m in
    if str_eq k j
    then (k, v) ∷ m
    else if before (codes k) (codes j)
    then (k, v) ∷ (j, x) ∷ m
    else (j, x) ∷ rest

unfoldable pub decode_entries : List (String × Json) → Quantities → Result Quantities
unfolding insert
decode_entries [] m = ok m
decode_entries ((k, v) ∷ kvs) m =
    Results.◌>>=◌ (decode_string v "") λ s. decode_entries kvs (insert k s m)

abbrev entries_of : Option Quantities → Quantities
entries_of none = []
entries_of (some m) = m

-- null makes the map nil; an object adds to the map that is there.
unfoldable pub decode_map : Decoder (Option Quantities)
unfolding decode_entries
decode_map null a = ok none
decode_map (obj fs) a =
    Results.◌>>=◌ (decode_entries (field_list fs) (entries_of a)) λ m. ok (some m)
decode_map _ a = err (message "json: cannot unmarshal into Go value")

unfoldable pub encode_entries : Quantities → List (String × Json)
encode_entries [] = []
encode_entries ((k, v) ∷ m) = (k, str v) ∷ encode_entries m

abbrev pub encode_map : Option Quantities → Json
encode_map none = null
encode_map (some m) = obj (fields (encode_entries m))

-- A map with omitempty.
abbrev pub member_if_entries : String → Option Quantities → List (String × Json)
member_if_entries k none = []
member_if_entries k (some []) = []
member_if_entries k (some (e ∷ m)) = (k, obj (fields (encode_entries (e ∷ m)))) ∷ []

pub record ResourceQuotaSummary : Type 0 where
  pub name : String
  pub hard : Option Quantities
  pub used : Option Quantities

unfoldable pub decode_resource_quota : Decoder ResourceQuotaSummary
unfolding decode_struct decode_map
decode_resource_quota = decode_struct (
    nested "metadata" (
      (
        "name",
        at (λ (a : ResourceQuotaSummary). a.name) (λ a x. record a { name = x }) decode_string,
      )
      ∷ [])
    ∷ nested "status" (
        ("hard", at (λ a. a.hard) (λ a x. record a { hard = x }) decode_map)
        ∷ ("used", at (λ a. a.used) (λ a x. record a { used = x }) decode_map)
        ∷ [])
    ∷ [])

unfoldable pub summarize_resource_quota : RawMessage → Result ResourceQuotaSummary
unfolding decode_resource_quota
summarize_resource_quota raw =
    map_error (wrapped "decoding resourcequota")
      (unmarshal decode_resource_quota (record { name = ""; hard = none; used = none }) raw)

pub record LimitRangeItemSummary : Type 0 where
  pub type : String
  pub default_limit : Option Quantities
  pub default_request : Option Quantities
  pub max : Option Quantities
  pub min : Option Quantities

pub record LimitRangeSummary : Type 0 where
  pub name : String
  pub limits : List LimitRangeItemSummary

unfoldable pub decode_limit : Decoder LimitRangeItemSummary
unfolding decode_struct decode_map
decode_limit = decode_struct (
    (
      "type",
      at (λ (a : LimitRangeItemSummary). a.type) (λ a x. record a { type = x }) decode_string,
    )
    ∷ ("default", at (λ a. a.default_limit) (λ a x. record a { default_limit = x }) decode_map)
    ∷ (
      "defaultRequest",
      at (λ a. a.default_request) (λ a x. record a { default_request = x }) decode_map,
    )
    ∷ ("max", at (λ a. a.max) (λ a x. record a { max = x }) decode_map)
    ∷ ("min", at (λ a. a.min) (λ a x. record a { min = x }) decode_map)
    ∷ [])

abbrev pub zero_limit : LimitRangeItemSummary
zero_limit = record {
  type = "";
  default_limit = none;
  default_request = none;
  max = none;
  min = none;
}

unfoldable pub decode_limit_range : Decoder LimitRangeSummary
unfolding decode_struct decode_slice decode_limit
decode_limit_range = decode_struct (
    nested "metadata" (
      ("name", at (λ (a : LimitRangeSummary). a.name) (λ a x. record a { name = x }) decode_string)
      ∷ [])
    ∷ nested "spec" (
        (
          "limits",
          at (λ a. a.limits) (λ a x. record a { limits = x })
              (decode_slice decode_limit zero_limit),
        )
        ∷ [])
    ∷ [])

unfoldable pub summarize_limit_range : RawMessage → Result LimitRangeSummary
unfolding decode_limit_range
summarize_limit_range raw =
    map_error (wrapped "decoding limitrange")
      (unmarshal decode_limit_range (record { name = ""; limits = [] }) raw)

unfoldable pub encode_quotas : List ResourceQuotaSummary → List Json
unfolding encode_entries
encode_quotas [] = []
encode_quotas (a ∷ quotas) =
    obj (
      fields
        (("name", str a.name) ∷ ("hard", encode_map a.hard) ∷ ("used", encode_map a.used) ∷ []))
    ∷ encode_quotas quotas

unfoldable pub encode_limits : List LimitRangeItemSummary → List Json
unfolding encode_entries
encode_limits [] = []
encode_limits (l ∷ ls) =
    obj (
      fields (
        ("type", str l.type)
        ∷ (member_if_entries "default" l.default_limit
            ++ (member_if_entries "defaultRequest" l.default_request
                ++ (member_if_entries "max" l.max ++ member_if_entries "min" l.min)))))
    ∷ encode_limits ls

unfoldable pub encode_limit_ranges : List LimitRangeSummary → List Json
unfolding encode_limits
encode_limit_ranges [] = []
encode_limit_ranges (a ∷ ranges) =
    obj (fields (("name", str a.name) ∷ ("limits", arr (items (encode_limits a.limits))) ∷ []))
    ∷ encode_limit_ranges ranges

unfoldable pub encode_overview : List ResourceQuotaSummary → List LimitRangeSummary → Json
unfolding encode_quotas encode_limit_ranges
encode_overview quotas ranges = obj (
    fields (
      ("resourceQuotas", arr (items (encode_quotas quotas)))
      ∷ ("limitRanges", arr (items (encode_limit_ranges ranges)))
      ∷ []))

unfoldable pub overview_handler : {W : Type 0} → Client W → Request → Handler W (Unit {0})
overview_handler client r = do
  rec ← need r.session (http_error "unauthorized" 401)
  require (valid_k8s_name (r.path_value "ns")) (http_error "invalid namespace" 400)
  quota_items ←
      call (list_namespaced_resource client rec.id_token (r.path_value "ns") resource_quotas_gvr 0)
        write_upstream_error
  limit_items ←
      call (list_namespaced_resource client rec.id_token (r.path_value "ns") limit_ranges_gvr 0)
        write_upstream_error
  quotas ← check (convert_all summarize_resource_quota quota_items) (λ _. unexpected_shape)
  ranges ← check (convert_all summarize_limit_range limit_items) (λ _. unexpected_shape)
  emit (write_json (encode_overview quotas ranges))
