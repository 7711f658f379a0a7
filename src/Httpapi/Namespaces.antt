-- ===== src/Httpapi/Namespaces.antt =====
-- internal/httpapi/namespaces.go: the caller's namespaces, and the answer to an upstream failure.
use tenant_deck.Base.{
  String, List, [], ◌∷◌, Error, is_error, unauthorized, forbidden, if◌then◌else◌,
}
use tenant_deck.Std.Json.{Json, str, arr, obj, fields, items}
use tenant_deck.Std.Http.{Request, http_error, write_json}
use tenant_deck.Std.Handler.{Handler, Respond, emit, need, call, ◌>>=◌}
use tenant_deck.Capsule.Client.{Client, list_namespaces}

unfoldable pub write_upstream_error : Error → Respond
write_upstream_error e =
    if is_error e unauthorized
    then http_error "unauthorized" 401
    else if is_error e forbidden
    then http_error "forbidden" 403
    else http_error "upstream unavailable" 502

-- A namespaceDTO for each namespace.
unfoldable pub encode_namespaces : List String → List Json
encode_namespaces [] = []
encode_namespaces (name ∷ names) = obj (fields (("name", str name) ∷ [])) ∷ encode_namespaces names

unfoldable pub namespaces_handler : {W : Type 0} → Client W → Request → Handler W (Unit {0})
namespaces_handler client r = do
  rec ← need r.session (http_error "unauthorized" 401)
  namespaces ← call (list_namespaces client rec.id_token) write_upstream_error
  emit (write_json (obj (fields (("namespaces", arr (items (encode_namespaces namespaces))) ∷ []))))
