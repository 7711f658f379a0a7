-- ===== src/Httpapi/Upstream.antt =====
-- What the routes send to the Capsule Proxy: the shape of every outgoing request.
pub mod Pages
use tenant_deck.Base.{
  ℕ, String, ◌+++◌, ◌≡◌, inl, inr, refl, true, ◌&&◌, some, arith, Result-cases, Bool-cases,
  Option-cases, and-eq-true, List, [], ◌∷◌,
}
use tenant_deck.Std.Http.{Request}
use tenant_deck.Std.Handler.{Conn}
use tenant_deck.Session.Records.{Record}
use tenant_deck.Capsule.Client.{
  Client, Outgoing, GroupVersionResource, request_for, do_get, status_error, decode_items,
  list_path, get_path, list_namespaces, list_namespaced_resource, get_namespaced_resource,
}
use tenant_deck.Httpapi.Validate.{valid_k8s_name}
use tenant_deck.Httpapi.Validate.Labels.{valid_k8s_name_iff}
use tenant_deck.Httpapi.Namespaces.{namespaces_handler}
use tenant_deck.Httpapi.Paths.{
  IsListPath, IsDetailPath, list_path-IsListPath, get_path-IsDetailPath,
}
use tenant_deck.Httpapi.Resources.{SummarizeFunc, list_resource_handler, get_resource_handler}

-- A GET of an allowed path at the configured origin, with the bearer token and an Accept header and no
-- other header.
pub record IsOutbound (Allowed : String → Type 0) (base_url id_token : String) (req : Outgoing)
    : Type 0 where
  pub path : String
  pub route : Allowed path
  pub sent : req ≡ record {
    method = "GET";
    url = base_url +++ path;
    headers = ("Authorization", "Bearer " +++ id_token) ∷ ("Accept", "application/json") ∷ [];
  }

-- An invariant of the world that such requests keep.
module _ {W : Type 0} (Allowed : String → Type 0) (c : Client W) (id_token : String)
    (P : W → Type 0)
    (send_keeps : (req : Outgoing)
      → IsOutbound Allowed c.base_url id_token req
      → (w : W) → P w
      → P (c.http_client.send req w).1) where
  do_get_keeps : (path : String) → Allowed path → (w : W) → P w → P (do_get c id_token path w).1
  unfolding do_get
  do_get_keeps path route w p =
      let req = request_for (c.base_url +++ path) id_token "application/json" in
      let kept = send_keeps req (record { path = path; route = route; sent = refl }) w p in
      elim (Result-cases (c.http_client.new_request (c.base_url +++ path))) [
        | inr (e, refused) ↦ rw refused p
        | inl (tt, accepted) ↦ elim (Result-cases (c.http_client.send req w).0) [
          | inr (e, failed) ↦ rw (accepted, failed) kept
          | inl (resp, answered) ↦ elim (Result-cases (status_error resp.status)) [
            | inr (e, other) ↦ rw (accepted, answered, other) kept
            | inl (tt, fine) ↦ rw (accepted, answered, fine) kept
          ]
        ]
      ]

  list_namespaces_keeps :
      Allowed "/api/v1/namespaces" → (w : W) → P w → P (list_namespaces c id_token w).1
  unfolding list_namespaces
  list_namespaces_keeps allowed w p =
      let kept = do_get_keeps "/api/v1/namespaces" allowed w p in
      elim (Result-cases (do_get c id_token "/api/v1/namespaces" w).0) [
        | inr (e, failed) ↦ rw failed kept
        | inl (d, fetched') ↦ elim (Result-cases (decode_items c d)) [
          | inr (e, bad) ↦ rw (fetched', bad) kept
          | inl (vs, good) ↦ rw (fetched', good) kept
        ]
      ]

  pub list_namespaced_resource_keeps :
      (ns : String) (gvr : GroupVersionResource) (limit : ℕ) (w : W)
      → Allowed (list_path ns gvr limit)
      → P w
      → P (list_namespaced_resource c id_token ns gvr limit w).1
  unfolding list_namespaced_resource
  list_namespaced_resource_keeps ns gvr limit w allowed p =
      let path = list_path ns gvr limit in
      let kept = do_get_keeps path allowed w p in
      elim (Result-cases (do_get c id_token path w).0) [
        | inr (e, failed) ↦ rw failed kept
        | inl (d, fetched') ↦ elim (Result-cases (decode_items c d)) [
          | inr (e, bad) ↦ rw (fetched', bad) kept
          | inl (vs, good) ↦ rw (fetched', good) kept
        ]
      ]

  get_namespaced_resource_keeps :
      (ns name : String) (gvr : GroupVersionResource) (w : W)
      → Allowed (get_path ns name gvr)
      → P w
      → P (get_namespaced_resource c id_token ns name gvr w).1
  unfolding get_namespaced_resource
  get_namespaced_resource_keeps ns name gvr w allowed p =
      let path = get_path ns name gvr in
      let kept = do_get_keeps path allowed w p in
      elim (Result-cases (do_get c id_token path w).0) [
        | inr (e, failed) ↦ rw failed kept
        | inl (d, fetched') ↦ rw fetched' kept
      ]

-- An invariant of the world that every GET of an allowed path made with the session's token keeps.
abbrev pub Permits : {W : Type 0} → (String → Type 0) → Client W → Request → (W → Type 0) → Type 0
Permits {W} Allowed c r P =
    (rec : Record) (req : Outgoing)
    → r.session ≡ some rec
    → IsOutbound Allowed c.base_url rec.id_token req
    → (w : W) → P w
    → P (c.http_client.send req w).1

-- Fewer allowed paths ask less of an invariant.
pub Permits_mono :
    {W : Type 0} (A B : String → Type 0) (c : Client W) (r : Request) (P : W → Type 0)
    → ((path : String) → A path → B path)
    → Permits B c r P
    → Permits A c r P
Permits_mono A B c r P wider permits rec req there out w p =
    permits rec req there
      (record { path = out.path; route = wider out.path out.route; sent = out.sent }) w p

-- The namespaces route sends nothing to the Capsule Proxy but a GET of /api/v1/namespaces at the
-- configured origin, with the ID token of the session: whatever the sending of that request keeps, the
-- route keeps.
pub namespaces_handler_outbound :
    {W : Type 0} (c : Client W) (r : Request) (P : W → Type 0)
    → Permits (λ path. path ≡ "/api/v1/namespaces") c r P
    → (conn : Conn W) → P conn.world
    → P (namespaces_handler c r conn).1.world
unfolding namespaces_handler
namespaces_handler_outbound c r P permits conn p = elim (Option-cases r.session) [
  | inl missing ↦ rw missing p
  | inr (rec, there) ↦
      let kept =
        list_namespaces_keeps (λ path. path ≡ "/api/v1/namespaces") c rec.id_token P
          (λ req out w' p'. permits rec req there out w' p') refl conn.world p in
      let same : (namespaces_handler c r conn).1.world
          ≡ (list_namespaces c rec.id_token conn.world).1 =
        ground arith in
      rw same kept
]

-- A list route sends nothing to the Capsule Proxy but a GET at the configured origin of the list of
-- its own resource in the namespace that the request names, which is an RFC 1123 label, with nothing
-- after the resource, and with the ID token of the session: whatever the sending of that request
-- keeps, the route keeps.
pub list_resource_handler_outbound :
    {W : Type 0} (c : Client W) (gvr : GroupVersionResource) (summarize : SummarizeFunc)
    (r : Request) (P : W → Type 0)
    → Permits (IsListPath gvr.api_prefix gvr.resource (r.path_value "ns")) c r P
    → (conn : Conn W) → P conn.world
    → P (list_resource_handler c gvr summarize r conn).1.world
unfolding list_resource_handler
list_resource_handler_outbound c gvr summarize r P permits conn p = elim (Option-cases r.session) [
  | inl missing ↦ rw missing p
  | inr (rec, there) ↦ elim (Bool-cases (valid_k8s_name (r.path_value "ns"))) [
    | inr wrong ↦ rw (there, wrong) p
    | inl valid ↦
        let ns = r.path_value "ns" in
        let allowed = list_path-IsListPath ns gvr ((valid_k8s_name_iff ns).0 valid) in
        let kept =
          list_namespaced_resource_keeps (IsListPath gvr.api_prefix gvr.resource ns) c rec.id_token
            P (λ req out w' p'. permits rec req there out w' p') ns gvr 0 conn.world allowed p in
        let same : (list_resource_handler c gvr summarize r conn).1.world
            ≡ (list_namespaced_resource c rec.id_token ns gvr 0 conn.world).1 =
          ground arith in
        rw same kept
  ]
]

-- A detail route sends nothing to the Capsule Proxy but a GET at the configured origin of the one
-- object of its own resource with the namespace and the name that the request names, both RFC 1123
-- labels, with nothing after the name, and with the ID token of the session: whatever the sending of
-- that request keeps, the route keeps.
pub get_resource_handler_outbound :
    {W : Type 0} (c : Client W) (gvr : GroupVersionResource) (summarize : SummarizeFunc)
    (r : Request) (P : W → Type 0)
    → Permits
        (IsDetailPath gvr.api_prefix gvr.resource (r.path_value "ns") (r.path_value "name"))
        c
        r
        P
    → (conn : Conn W) → P conn.world
    → P (get_resource_handler c gvr summarize r conn).1.world
unfolding get_resource_handler
get_resource_handler_outbound c gvr summarize r P permits conn p = elim (Option-cases r.session) [
  | inl missing ↦ rw missing p
  | inr (rec, there) ↦
      let ns = r.path_value "ns" in
      let name = r.path_value "name" in
      elim (Bool-cases
        (valid_k8s_name (r.path_value "ns") && valid_k8s_name (r.path_value "name"))) [
          | inr wrong ↦ rw (there, wrong) p
          | inl both ↦
              let (valid, valid') = and-eq-true _ _ both in
              let allowed =
                get_path-IsDetailPath ns name gvr ((valid_k8s_name_iff ns).0 valid)
                  ((valid_k8s_name_iff name).0 valid') in
              let kept =
                get_namespaced_resource_keeps (IsDetailPath gvr.api_prefix gvr.resource ns name) c
                  rec.id_token P (λ req out w' p'. permits rec req there out w' p') ns name gvr
                  conn.world allowed p in
              let same : (get_resource_handler c gvr summarize r conn).1.world
                  ≡ (get_namespaced_resource c rec.id_token ns name gvr conn.world).1 =
                ground arith in
              rw same kept
        ]
]
