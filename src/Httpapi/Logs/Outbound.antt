-- ===== src/Httpapi/Logs/Outbound.antt =====
-- What the log route sends to the Capsule Proxy.
use tenant_deck.Base.{
  ℕ, List, [], ◌∷◌, String, ◌+++◌, ◌≡◌, inl, inr, refl, ◌&&◌, arith, Result-cases, Bool-cases,
  Option-cases, codes, and-eq-true, some,
}
use tenant_deck.Std.Http.{Request}
use tenant_deck.Std.Handler.{Conn}
use tenant_deck.Session.Crypto.{Bytes}
use tenant_deck.Session.Records.{Record}
use tenant_deck.Capsule.Client.{Client, Outgoing, request_for, status_error}
use tenant_deck.Capsule.Logs.{LogOptions, log_path, stream_pod_logs}
use tenant_deck.Httpapi.Validate.{valid_k8s_name}
use tenant_deck.Httpapi.Validate.Labels.{IsLabel, valid_k8s_name_iff}
use tenant_deck.Httpapi.Logs.{parse_log_options, pod_logs_handler}
use tenant_deck.Httpapi.Logs.Options.{IsClamped, parse_log_options-IsClamped}

-- A GET for the log of a pod whose namespace and name are RFC 1123 labels, with clamped options, a
-- bearer token and an Accept header and no other header.
pub record IsLogRequest (base_url id_token : String) (req : Outgoing) : Type 0 where
  pub namespace : String
  pub pod_name : String
  pub opts : LogOptions
  pub valid_namespace : IsLabel (codes namespace)
  pub valid_pod : IsLabel (codes pod_name)
  pub clamped : IsClamped opts
  pub sent : req ≡ record {
    method = "GET";
    url = base_url +++ log_path namespace pod_name opts;
    headers = ("Authorization", "Bearer " +++ id_token) ∷ ("Accept", "text/plain, */*") ∷ [];
  }

-- An invariant of the world that every such request made with the session's token keeps.
abbrev pub PermitsLog : {W : Type 0} → Client W → Request → (W → Type 0) → Type 0
PermitsLog {W} c r P =
    (rec : Record) (req : Outgoing)
    → r.session ≡ some rec
    → IsLogRequest c.base_url rec.id_token req
    → (w : W) → P w
    → P (c.stream_client.send req w).1

stream_pod_logs_keeps :
    {W : Type 0} (c : Client W) (id_token ns name : String) (opts : LogOptions) (P : W → Type 0)
    (w : W)
    → P w
    → P
        (c.stream_client.send
          (request_for (c.base_url +++ log_path ns name opts) id_token "text/plain, */*")
          w).1
    → P (stream_pod_logs c id_token ns name opts w).1
unfolding stream_pod_logs
stream_pod_logs_keeps c id_token ns name opts P w p kept =
    let url = c.base_url +++ log_path ns name opts in
    elim (Result-cases (c.stream_client.new_request url)) [
      | inr (e, refused) ↦ rw refused p
      | inl (tt, accepted) ↦
          elim (Result-cases
            (c.stream_client.send (request_for url id_token "text/plain, */*") w).0) [
              | inr (e, failed) ↦ rw (accepted, failed) kept
              | inl (resp, answered) ↦ elim (Result-cases (status_error resp.status)) [
                | inr (e, other) ↦ rw (accepted, answered, other) kept
                | inl (tt, fine) ↦ rw (accepted, answered, fine) kept
              ]
            ]
    ]

pub pod_logs_handler_outbound :
    {W : Type 0} (split : Bytes → List Bytes) (writes : ℕ) (c : Client W) (r : Request)
    (P : W → Type 0)
    → PermitsLog c r P
    → (conn : Conn W) → P conn.world
    → P (pod_logs_handler split writes c r conn).1.world
unfolding pod_logs_handler
pod_logs_handler_outbound split writes c r P permits conn p = elim (Option-cases r.session) [
  | inl missing ↦ rw missing p
  | inr (rec, there) ↦
      elim (Bool-cases
        (valid_k8s_name (r.path_value "ns") && valid_k8s_name (r.path_value "name"))) [
          | inr wrong ↦ rw (there, wrong) p
          | inl both ↦ elim (Result-cases (parse_log_options r.query)) [
            | inr (e, bad) ↦ rw (there, both, bad) p
            | inl (opts, parsed) ↦
                let (valid, valid') = and-eq-true _ _ both in
                let req =
                  request_for
                    (c.base_url +++ log_path (r.path_value "ns") (r.path_value "name") opts)
                    rec.id_token "text/plain, */*" in
                let kept =
                  stream_pod_logs_keeps c rec.id_token (r.path_value "ns") (r.path_value "name")
                    opts P conn.world p
                    (permits rec req there
                      (record {
                        namespace = r.path_value "ns";
                        pod_name = r.path_value "name";
                        opts = opts;
                        valid_namespace = (valid_k8s_name_iff (r.path_value "ns")).0 valid;
                        valid_pod = (valid_k8s_name_iff (r.path_value "name")).0 valid';
                        clamped = parse_log_options-IsClamped r.query opts parsed;
                        sent = refl;
                      })
                      conn.world p) in
                let same : (pod_logs_handler split writes c r conn).1.world
                    ≡ (stream_pod_logs c rec.id_token (r.path_value "ns") (r.path_value "name") opts
                        conn.world).1 =
                  ground arith in
                rw same kept
          ]
        ]
]
