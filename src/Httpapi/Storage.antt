-- ===== src/Httpapi/Storage.antt =====
-- internal/httpapi/storage.go: persistent volume claims.
use tenant_deck.Base.{String, List, [], ◌∷◌, ◌++◌, Option, none, some, ok, err, message}
use tenant_deck.Base.Results.{◌>>=◌}
use tenant_deck.Std.Json.{Json, null, str, arr, obj, fields, items, item_list}
use tenant_deck.Std.Json.Decode.{Decoder, decode_struct, decode_string, at}
use tenant_deck.Capsule.Client.{GroupVersionResource}
use tenant_deck.Httpapi.Resources.{SummarizeFunc}
use tenant_deck.Httpapi.Summaries.{
  nested, decode_pointer, decode_all, member_if_set, member_if_text, summarize_with,
}

abbrev pub pvc_gvr : GroupVersionResource
pvc_gvr = record { api_prefix = "api/v1"; resource = "persistentvolumeclaims" }

-- Also the decoded object, which has the same fields. A slice is none when it is nil.
pub record PersistentVolumeClaimSummary : Type 0 where
  pub name : String
  pub phase : String
  pub capacity : String
  pub access_modes : Option (List String)
  pub storage_class : Option String

-- A []string that may stay nil.
unfoldable pub decode_strings : Decoder (Option (List String))
unfolding decode_all
decode_strings null a = ok none
decode_strings (arr vs) a = do ss ← decode_all decode_string "" (item_list vs); ok (some ss)
decode_strings _ a = err (message "json: cannot unmarshal into Go value")

unfoldable pub encode_texts : List String → List Json
encode_texts [] = []
encode_texts (s ∷ ss) = str s ∷ encode_texts ss

abbrev pub encode_strings : Option (List String) → Json
encode_strings none = null
encode_strings (some ss) = arr (items (encode_texts ss))

unfoldable pub decode_pvc : Decoder PersistentVolumeClaimSummary
unfolding decode_struct decode_strings
decode_pvc = decode_struct (
    nested "metadata" (
      (
        "name",
        at (λ (a : PersistentVolumeClaimSummary). a.name) (λ a x. record a { name = x })
            decode_string,
      )
      ∷ [])
    ∷ nested "spec" (
        (
          "accessModes",
          at (λ a. a.access_modes) (λ a x. record a { access_modes = x }) decode_strings,
        )
        ∷ (
          "storageClassName",
          at (λ a. a.storage_class) (λ a x. record a { storage_class = x }) decode_pointer,
        )
        ∷ [])
    ∷ nested "status" (
        ("phase", at (λ a. a.phase) (λ a x. record a { phase = x }) decode_string)
        ∷ nested "capacity" (
            ("storage", at (λ a. a.capacity) (λ a x. record a { capacity = x }) decode_string) ∷ [])
        ∷ [])
    ∷ [])

unfoldable pub encode_pvc : PersistentVolumeClaimSummary → Json
unfolding encode_texts
encode_pvc a = obj (
    fields (
      ("name", str a.name)
      ∷ ("phase", str a.phase)
      ∷ (member_if_text "capacity" a.capacity
          ++ ("accessModes", encode_strings a.access_modes)
            ∷ member_if_set "storageClassName" a.storage_class)))

unfoldable pub summarize_persistent_volume_claim : SummarizeFunc
unfolding decode_pvc encode_pvc
summarize_persistent_volume_claim =
    summarize_with "decoding persistentvolumeclaim" decode_pvc
      (record { name = ""; phase = ""; capacity = ""; access_modes = none; storage_class = none })
      encode_pvc
