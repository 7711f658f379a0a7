-- ===== src/Httpapi/Resources.antt =====
-- internal/httpapi/resources.go: the list and the detail route of a namespaced resource.
pub mod Replies
use tenant_deck.Base.{◌&&◌, List, [], ◌∷◌, Result}
use tenant_deck.Std.Json.{Json, arr, obj, fields, items}
use tenant_deck.Std.Http.{Request, http_error, write_json}
use tenant_deck.Std.Handler.{Handler, Respond, emit, require, need, call, check, ◌>>=◌, ◌>>◌}
use tenant_deck.Capsule.Client.{
  Client, GroupVersionResource, RawMessage, convert_all, list_namespaced_resource,
  get_namespaced_resource,
}
use tenant_deck.Httpapi.Validate.{valid_k8s_name}
use tenant_deck.Httpapi.Namespaces.{write_upstream_error}

-- From raw upstream JSON to the encoded DTO.
abbrev pub SummarizeFunc : Type 0
SummarizeFunc = RawMessage → Result Json

unfoldable pub write_json_items : List Json → Respond
write_json_items vs = write_json (obj (fields (("items", arr (items vs)) ∷ [])))

abbrev pub unexpected_shape : Respond
unexpected_shape = http_error "upstream returned an unexpected shape" 502

module _ {W : Type 0} (client : Client W) (gvr : GroupVersionResource)
    (summarize : SummarizeFunc) where
  unfoldable pub list_resource_handler : Request → Handler W (Unit {0})
  list_resource_handler r = do
    rec ← need r.session (http_error "unauthorized" 401)
    require (valid_k8s_name (r.path_value "ns")) (http_error "invalid namespace" 400)
    items ←
        call (list_namespaced_resource client rec.id_token (r.path_value "ns") gvr 0)
          write_upstream_error
    summaries ← check (convert_all summarize items) (λ _. unexpected_shape)
    emit (write_json_items summaries)

  unfoldable pub get_resource_handler : Request → Handler W (Unit {0})
  get_resource_handler r = do
    rec ← need r.session (http_error "unauthorized" 401)
    require (valid_k8s_name (r.path_value "ns") && valid_k8s_name (r.path_value "name"))
        (http_error "invalid namespace or name" 400)
    raw ←
        call
          (get_namespaced_resource client rec.id_token (r.path_value "ns") (r.path_value "name")
            gvr)
          write_upstream_error
    summary ← check (summarize raw) (λ _. unexpected_shape)
    emit (write_json summary)
