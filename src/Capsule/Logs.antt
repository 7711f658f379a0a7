-- ===== src/Capsule/Logs.antt =====
-- internal/capsule/logs.go: opening a stream of a pod's logs.
use tenant_deck.Base.{
  ℕ, String, ◌+++◌, Bool, List, [], ◌∷◌, ◌++◌, wrapped, map_error, str_eq, ltb, if◌then◌else◌, not,
}
use tenant_deck.Base.Io.{Io, pure, lift, ◌>>=◌, ◌>>◌}
use tenant_deck.Std.Strconv.{format_nat}
use tenant_deck.Std.Strings.{join, query_escape}
use tenant_deck.Capsule.Client.{Client, Outgoing, Incoming, Body, request_for, status_error}

-- A number that is 0 is not sent.
pub record LogOptions : Type 0 where
  pub container : String
  pub tail_lines : ℕ
  pub limit_bytes : ℕ
  pub since_seconds : ℕ
  pub follow : Bool

abbrev pub param_if : Bool → String → String → List String
param_if b key v = if b then (query_escape key +++ ("=" +++ query_escape v)) ∷ [] else []

-- q.Encode(): the parameters that were set, sorted by key.
unfoldable pub encode_options : LogOptions → String
unfolding query_escape join
encode_options o = join "&" (
    param_if (not (str_eq o.container "")) "container" o.container
    ++ (param_if o.follow "follow" "true"
        ++ (param_if (ltb 0 o.limit_bytes) "limitBytes" (format_nat o.limit_bytes)
            ++ (param_if (ltb 0 o.since_seconds) "sinceSeconds" (format_nat o.since_seconds)
                ++ param_if (ltb 0 o.tail_lines) "tailLines" (format_nat o.tail_lines)))))

abbrev pub log_path : String → String → LogOptions → String
log_path namespace pod_name opts =
    "/api/v1/namespaces/"
    +++ (namespace +++ ("/pods/" +++ (pod_name +++ ("/log?" +++ encode_options opts))))

module _ {W : Type 0} (c : Client W) where
  abbrev streamed : Outgoing → Io W Incoming
  streamed req w = (
    map_error (wrapped "capsule: requesting pod logs") (c.stream_client.send req w).0,
    (c.stream_client.send req w).1,
  )

  unfoldable pub stream_pod_logs : String → String → String → LogOptions → Io W Body
  stream_pod_logs id_token namespace pod_name opts = do
    lift (c.stream_client.new_request (c.base_url +++ log_path namespace pod_name opts))
    resp ←
        streamed
          (request_for (c.base_url +++ log_path namespace pod_name opts) id_token "text/plain, */*")
    lift (status_error resp.status)
    pure resp.body
