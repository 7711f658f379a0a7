-- ===== src/Httpapi/Workloads/Pods.antt =====
-- internal/httpapi/workloads.go: pods, their containers and whether they are ready.
use tenant_deck.Base.{
  Bool, false, String, List, [], ◌∷◌, ◌++◌, length, ltb, ◌==◌, ℤ, pos, if◌then◌else◌,
}
use tenant_deck.Std.Json.{Json, bool, str, arr, obj, fields, items}
use tenant_deck.Std.Json.Decode.{
  Decoder, decode_struct, decode_string, decode_bool, decode_int32, at,
}
use tenant_deck.Capsule.Client.{GroupVersionResource}
use tenant_deck.Httpapi.Resources.{SummarizeFunc}
use tenant_deck.Httpapi.Summaries.{nested, decode_slice, encode_int32, summarize_with}

abbrev pub pods_gvr : GroupVersionResource
pods_gvr = record { api_prefix = "api/v1"; resource = "pods" }

-- Also the struct of a container status, which has the same fields.
pub record ContainerSummary : Type 0 where
  pub name : String
  pub image : String
  pub ready : Bool
  pub restart_count : ℤ

pub record SpecContainer : Type 0 where
  pub name : String
  pub image : String

-- The decoded object.
pub record Pod : Type 0 where
  pub name : String
  pub containers : List SpecContainer
  pub phase : String
  pub container_statuses : List ContainerSummary

pub record PodSummary : Type 0 where
  pub name : String
  pub phase : String
  pub ready : Bool
  pub containers : List ContainerSummary

unfoldable pub decode_status : Decoder ContainerSummary
unfolding decode_struct
decode_status = decode_struct (
    ("name", at (λ (a : ContainerSummary). a.name) (λ a x. record a { name = x }) decode_string)
    ∷ ("image", at (λ a. a.image) (λ a x. record a { image = x }) decode_string)
    ∷ ("ready", at (λ a. a.ready) (λ a x. record a { ready = x }) decode_bool)
    ∷ (
      "restartCount",
      at (λ a. a.restart_count) (λ a x. record a { restart_count = x }) decode_int32,
    )
    ∷ [])

unfoldable pub decode_container : Decoder SpecContainer
unfolding decode_struct
decode_container = decode_struct (
    ("name", at (λ (a : SpecContainer). a.name) (λ a x. record a { name = x }) decode_string)
    ∷ ("image", at (λ a. a.image) (λ a x. record a { image = x }) decode_string)
    ∷ [])

abbrev zero_status : ContainerSummary
zero_status = record { name = ""; image = ""; ready = false; restart_count = pos 0 }

unfoldable pub decode_pod : Decoder Pod
unfolding decode_struct decode_slice decode_status decode_container
decode_pod = decode_struct (
    nested "metadata"
      (("name", at (λ (a : Pod). a.name) (λ a x. record a { name = x }) decode_string) ∷ [])
    ∷ nested "spec" (
        (
          "containers",
          at (λ a. a.containers) (λ a x. record a { containers = x })
              (decode_slice decode_container (record { name = ""; image = "" })),
        )
        ∷ [])
    ∷ nested "status" (
        ("phase", at (λ a. a.phase) (λ a x. record a { phase = x }) decode_string)
        ∷ (
          "containerStatuses",
          at (λ a. a.container_statuses) (λ a x. record a { container_statuses = x })
              (decode_slice decode_status zero_status),
        )
        ∷ [])
    ∷ [])

-- The loop over the statuses: each is appended, and one that is not ready clears the flag.
unfoldable pub collect :
    List ContainerSummary → Bool → List ContainerSummary → List ContainerSummary × Bool
collect containers all_ready [] = (containers, all_ready)
collect containers all_ready (cs ∷ statuses) =
    collect
      (containers
        ++ (record {
          name = cs.name;
          image = cs.image;
          ready = cs.ready;
          restart_count = cs.restart_count;
        })
          ∷ [])
      (if cs.ready then all_ready else false) statuses

-- The loop over the containers of the spec.
unfoldable pub fall_back : List ContainerSummary → List SpecContainer → List ContainerSummary
fall_back containers [] = containers
fall_back containers (c ∷ cs) =
    fall_back
      (containers
        ++ (record { name = c.name; image = c.image; ready = false; restart_count = pos 0 }) ∷ [])
      cs

unfoldable pub summary_of : Pod → PodSummary
unfolding collect fall_back
summary_of p =
    let (containers, all_ready) =
      collect [] (ltb 0 (length p.container_statuses)) p.container_statuses in
    if length containers == 0
    then record {
      name = p.name;
      phase = p.phase;
      ready = false;
      containers = fall_back containers p.containers;
    }
    else record { name = p.name; phase = p.phase; ready = all_ready; containers = containers }

unfoldable pub encode_containers : List ContainerSummary → List Json
unfolding encode_int32
encode_containers [] = []
encode_containers (c ∷ cs) =
    obj (
      fields (
        ("name", str c.name)
        ∷ ("image", str c.image)
        ∷ ("ready", bool c.ready)
        ∷ ("restartCount", encode_int32 c.restart_count)
        ∷ []))
    ∷ encode_containers cs

unfoldable pub encode_pod : PodSummary → Json
unfolding encode_containers
encode_pod a = obj (
    fields (
      ("name", str a.name)
      ∷ ("phase", str a.phase)
      ∷ ("ready", bool a.ready)
      ∷ ("containers", arr (items (encode_containers a.containers)))
      ∷ []))

unfoldable pub summarize_pod : SummarizeFunc
unfolding decode_pod summary_of encode_pod
summarize_pod =
    summarize_with "decoding pod" decode_pod
      (record { name = ""; containers = []; phase = ""; container_statuses = [] })
      (λ p. encode_pod (summary_of p))
