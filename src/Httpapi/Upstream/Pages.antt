-- ===== src/Httpapi/Upstream/Pages.antt =====
-- What the events and the overview route send to the Capsule Proxy.
use tenant_deck.Base.{
  String, codes, refl, ◌≡◌, inl, inr, arith, Result-cases, Bool-cases, Option-cases,
}
use tenant_deck.Std.Http.{Request}
use tenant_deck.Std.Handler.{Conn}
use tenant_deck.Capsule.Client.{Client, list_namespaced_resource}
use tenant_deck.Httpapi.Validate.{valid_k8s_name}
use tenant_deck.Httpapi.Events.{events_handler, events_gvr, max_events_listed}
use tenant_deck.Httpapi.Overview.{overview_handler, resource_quotas_gvr, limit_ranges_gvr}
use tenant_deck.Httpapi.Upstream.{Permits, list_namespaced_resource_keeps}
use tenant_deck.Std.Strconv.{format_nat}
use tenant_deck.Capsule.Client.{list_path}
use tenant_deck.Httpapi.Validate.Labels.{IsLabel, valid_k8s_name_iff}
use tenant_deck.Httpapi.Paths.{IsListPath, list_path-IsListPath}

events_path-IsListPath :
    (ns : String)
    → IsLabel (codes ns)
    → IsListPath "api/v1" "events?limit=200" ns (list_path ns events_gvr max_events_listed)
unfolding format_nat
events_path-IsListPath ns label = record { namespace = label; text = refl }

-- The events route sends nothing but a GET of the first 200 events of the namespace that the request
-- names, which is an RFC 1123 label, with the session's own token: whatever the sending of that
-- request keeps, the route keeps.
pub events_handler_outbound :
    {W : Type 0} (c : Client W) (r : Request) (P : W → Type 0)
    → Permits (IsListPath "api/v1" "events?limit=200" (r.path_value "ns")) c r P
    → (conn : Conn W) → P conn.world
    → P (events_handler c r conn).1.world
unfolding events_handler
events_handler_outbound c r P permits conn p = elim (Option-cases r.session) [
  | inl missing ↦ rw missing p
  | inr (rec, there) ↦ elim (Bool-cases (valid_k8s_name (r.path_value "ns"))) [
    | inr wrong ↦ rw (there, wrong) p
    | inl valid ↦
        let ns = r.path_value "ns" in
        let kept =
          list_namespaced_resource_keeps (IsListPath "api/v1" "events?limit=200" ns) c rec.id_token
            P (λ req out w' p'. permits rec req there out w' p') ns events_gvr max_events_listed
            conn.world (events_path-IsListPath ns ((valid_k8s_name_iff ns).0 valid)) p in
        let same : (events_handler c r conn).1.world
            ≡ (list_namespaced_resource c rec.id_token ns events_gvr max_events_listed
                conn.world).1 =
          ground arith in
        rw same kept
  ]
]

-- The two lists that the overview shows.
pub data IsOverviewPath (ns path : String) : Type 0 where
  resource_quotas : IsListPath "api/v1" "resourcequotas" ns path → IsOverviewPath ns path
  limit_ranges : IsListPath "api/v1" "limitranges" ns path → IsOverviewPath ns path

-- The overview route sends nothing but GETs of the quotas and of the limit ranges of the namespace
-- that the request names, which is an RFC 1123 label, with the session's own token: whatever the
-- sending of such requests keeps, the route keeps.
pub overview_handler_outbound :
    {W : Type 0} (c : Client W) (r : Request) (P : W → Type 0)
    → Permits (IsOverviewPath (r.path_value "ns")) c r P
    → (conn : Conn W) → P conn.world
    → P (overview_handler c r conn).1.world
unfolding overview_handler
overview_handler_outbound c r P permits conn p = elim (Option-cases r.session) [
  | inl missing ↦ rw missing p
  | inr (rec, there) ↦ elim (Bool-cases (valid_k8s_name (r.path_value "ns"))) [
    | inr wrong ↦ rw (there, wrong) p
    | inl valid ↦
        let ns = r.path_value "ns" in
        let label = (valid_k8s_name_iff ns).0 valid in
        let keeps =
          list_namespaced_resource_keeps (IsOverviewPath ns) c rec.id_token P
            (λ req out w' p'. permits rec req there out w' p') ns in
        let first = list_namespaced_resource c rec.id_token ns resource_quotas_gvr 0 conn.world in
        let kept =
          keeps resource_quotas_gvr 0 conn.world
            (resource_quotas (list_path-IsListPath ns resource_quotas_gvr label)) p in
        elim (Result-cases first.0) [
          | inr (e, failed) ↦
              let same : (overview_handler c r conn).1.world ≡ first.1 = ground arith in
              rw same kept
          | inl (quotas, listed) ↦
              let second = list_namespaced_resource c rec.id_token ns limit_ranges_gvr 0 first.1 in
              let kept' =
                keeps limit_ranges_gvr 0 first.1
                  (limit_ranges (list_path-IsListPath ns limit_ranges_gvr label)) kept in
              let same : (overview_handler c r conn).1.world ≡ second.1 = ground arith in
              rw same kept'
        ]
  ]
]
