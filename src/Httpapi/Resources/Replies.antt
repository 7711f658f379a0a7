-- ===== src/Httpapi/Resources/Replies.antt =====
-- What a list route answers, and how the routes pass an upstream refusal on.
use mathlib.Core.List.{Forall₂}
use tenant_deck.Base.{
  ℕ, String, ◌+++◌, ◌≡◌, ◌≢◌, true, ◌&&◌, some, List, [], ◌∷◌, ok, arith, length, ◌==◌,
  if◌then◌else◌,
}
use tenant_deck.Std.Json.{Json, arr, obj, fields, items}
use tenant_deck.Std.Http.{Request, http_error, json}
use tenant_deck.Std.Handler.{serve}
use tenant_deck.Session.Records.{Record}
use tenant_deck.Capsule.Client.{
  Client, Incoming, GroupVersionResource, RawMessage, list_namespaced_resource,
  get_namespaced_resource, list_path, get_path, request_for,
}
use tenant_deck.Capsule.Client.Bounded.{do_get_status}
use tenant_deck.Httpapi.Validate.{valid_k8s_name}
use tenant_deck.Httpapi.Namespaces.{write_upstream_error}
use tenant_deck.Httpapi.Resources.{SummarizeFunc, list_resource_handler, get_resource_handler}

module _ {W : Type 0} (c : Client W) (gvr : GroupVersionResource) (summarize : SummarizeFunc)
    (r : Request) (w : W) where
  -- A list answer: a session, a valid namespace, the items of the upstream list, and as the body one
  -- summary for each of them, each at the place of its item.
  pub record IsListing : Type 0 where
    pub rec : Record
    pub raws : List RawMessage
    pub summaries : List Json
    pub session : r.session ≡ some rec
    pub valid : valid_k8s_name (r.path_value "ns") ≡ true
    pub fetched : (list_namespaced_resource c rec.id_token (r.path_value "ns") gvr 0 w).0 ≡ ok raws
    pub each : Forall₂ (λ raw summary. summarize raw ≡ ok summary) raws summaries
    pub complete : length summaries ≡ length raws
    pub body :
        (serve (list_resource_handler c gvr summarize r) w).writer.body
        ≡ json (obj (fields (("items", arr (items summaries)) ∷ []))) ∷ []

-- The status for a caller when the upstream answers `s`, which is not 200.
abbrev pub passed_on : ℕ → ℕ
passed_on s = if s == 401 then 401 else if s == 403 then 403 else 502

module _ {W : Type 0} (c : Client W) (gvr : GroupVersionResource) (summarize : SummarizeFunc)
    (r : Request) (rec : Record) (resp : Incoming) (w : W) where
  -- The upstream answered a request for this path, and not with 200.
  pub record IsDenied (path : String) : Type 0 where
    pub accepted : c.http_client.new_request (c.base_url +++ path) ≡ ok tt
    pub answered :
        (c.http_client.send (request_for (c.base_url +++ path) rec.id_token "application/json") w).0
        ≡ ok resp
    pub other : resp.status ≢ 200

  -- An upstream refusal reaches the caller of a list route as itself: 401 stays 401, 403 stays 403,
  -- and any other status but 200 becomes 502.
  pub list_denied :
      r.session ≡ some rec
      → valid_k8s_name (r.path_value "ns") ≡ true
      → IsDenied (list_path (r.path_value "ns") gvr 0)
      → (serve (list_resource_handler c gvr summarize r) w).writer.status
        ≡ some (passed_on resp.status)
  unfolding list_resource_handler list_namespaced_resource write_upstream_error http_error
  list_denied there valid d =
      let path = list_path (r.path_value "ns") gvr 0 in
      let (e, failed, is401, is403) =
        do_get_status c rec.id_token path w resp d.accepted d.answered d.other in
      ground arith

  -- An upstream refusal reaches the caller of a detail route as itself: 401 stays 401, 403 stays
  -- 403, and any other status but 200 becomes 502.
  pub get_denied :
      r.session ≡ some rec
      → valid_k8s_name (r.path_value "ns") && valid_k8s_name (r.path_value "name") ≡ true
      → IsDenied (get_path (r.path_value "ns") (r.path_value "name") gvr)
      → (serve (get_resource_handler c gvr summarize r) w).writer.status
        ≡ some (passed_on resp.status)
  unfolding get_resource_handler get_namespaced_resource write_upstream_error http_error
  get_denied there valid d =
      let path = get_path (r.path_value "ns") (r.path_value "name") gvr in
      let (e, failed, is401, is403) =
        do_get_status c rec.id_token path w resp d.accepted d.answered d.other in
      ground arith
