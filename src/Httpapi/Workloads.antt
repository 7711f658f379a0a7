-- ===== src/Httpapi/Workloads.antt =====
-- internal/httpapi/workloads.go: deployments, stateful sets and daemon sets here, the rest below. Each summary has the fields of the struct that it
-- is decoded from, so that one record is both.
pub mod Batch
pub mod Pods
pub mod Readiness
use tenant_deck.Base.{Bool, false, String, List, [], ◌∷◌, ◌++◌, Option, none, ℤ, pos}
use tenant_deck.Std.Json.{Json, bool, str, obj, fields}
use tenant_deck.Std.Json.Decode.{
  Decoder, decode_struct, decode_string, decode_bool, decode_int32, at,
}
use tenant_deck.Capsule.Client.{GroupVersionResource}
use tenant_deck.Httpapi.Resources.{SummarizeFunc}
use tenant_deck.Httpapi.Summaries.{
  nested, decode_pointer, encode_int32, member_if_set, summarize_with,
}

abbrev apps : String → GroupVersionResource
apps name = record { api_prefix = "apis/apps/v1"; resource = name }

abbrev pub deployments_gvr : GroupVersionResource
deployments_gvr = apps "deployments"

abbrev pub stateful_sets_gvr : GroupVersionResource
stateful_sets_gvr = apps "statefulsets"

abbrev pub daemon_sets_gvr : GroupVersionResource
daemon_sets_gvr = apps "daemonsets"

pub record DeploymentSummary : Type 0 where
  pub name : String
  pub replicas : ℤ
  pub ready_replicas : ℤ
  pub updated_replicas : ℤ
  pub available_replicas : ℤ

unfoldable pub decode_deployment : Decoder DeploymentSummary
unfolding decode_struct
decode_deployment = decode_struct (
    nested "metadata" (
      ("name", at (λ (a : DeploymentSummary). a.name) (λ a x. record a { name = x }) decode_string)
      ∷ [])
    ∷ nested "spec"
        (("replicas", at (λ a. a.replicas) (λ a x. record a { replicas = x }) decode_int32) ∷ [])
    ∷ nested "status" (
        (
          "readyReplicas",
          at (λ a. a.ready_replicas) (λ a x. record a { ready_replicas = x }) decode_int32,
        )
        ∷ (
          "updatedReplicas",
          at (λ a. a.updated_replicas) (λ a x. record a { updated_replicas = x }) decode_int32,
        )
        ∷ (
          "availableReplicas",
          at (λ a. a.available_replicas) (λ a x. record a { available_replicas = x }) decode_int32,
        )
        ∷ [])
    ∷ [])

unfoldable pub encode_deployment : DeploymentSummary → Json
unfolding encode_int32
encode_deployment a = obj (
    fields (
      ("name", str a.name)
      ∷ ("replicas", encode_int32 a.replicas)
      ∷ ("readyReplicas", encode_int32 a.ready_replicas)
      ∷ ("updatedReplicas", encode_int32 a.updated_replicas)
      ∷ ("availableReplicas", encode_int32 a.available_replicas)
      ∷ []))

unfoldable pub summarize_deployment : SummarizeFunc
unfolding decode_deployment encode_deployment
summarize_deployment =
    summarize_with "decoding deployment" decode_deployment
      (record {
        name = "";
        replicas = pos 0;
        ready_replicas = pos 0;
        updated_replicas = pos 0;
        available_replicas = pos 0;
      })
      encode_deployment

pub record StatefulSetSummary : Type 0 where
  pub name : String
  pub replicas : ℤ
  pub ready_replicas : ℤ
  pub current_replicas : ℤ

unfoldable pub decode_stateful_set : Decoder StatefulSetSummary
unfolding decode_struct
decode_stateful_set = decode_struct (
    nested "metadata" (
      ("name", at (λ (a : StatefulSetSummary). a.name) (λ a x. record a { name = x }) decode_string)
      ∷ [])
    ∷ nested "spec"
        (("replicas", at (λ a. a.replicas) (λ a x. record a { replicas = x }) decode_int32) ∷ [])
    ∷ nested "status" (
        (
          "readyReplicas",
          at (λ a. a.ready_replicas) (λ a x. record a { ready_replicas = x }) decode_int32,
        )
        ∷ (
          "currentReplicas",
          at (λ a. a.current_replicas) (λ a x. record a { current_replicas = x }) decode_int32,
        )
        ∷ [])
    ∷ [])

unfoldable pub encode_stateful_set : StatefulSetSummary → Json
unfolding encode_int32
encode_stateful_set a = obj (
    fields (
      ("name", str a.name)
      ∷ ("replicas", encode_int32 a.replicas)
      ∷ ("readyReplicas", encode_int32 a.ready_replicas)
      ∷ ("currentReplicas", encode_int32 a.current_replicas)
      ∷ []))

unfoldable pub summarize_stateful_set : SummarizeFunc
unfolding decode_stateful_set encode_stateful_set
summarize_stateful_set =
    summarize_with "decoding statefulset" decode_stateful_set
      (record { name = ""; replicas = pos 0; ready_replicas = pos 0; current_replicas = pos 0 })
      encode_stateful_set

pub record DaemonSetSummary : Type 0 where
  pub name : String
  pub desired_number_scheduled : ℤ
  pub number_ready : ℤ
  pub number_available : ℤ

unfoldable pub decode_daemon_set : Decoder DaemonSetSummary
unfolding decode_struct
decode_daemon_set = decode_struct (
    nested "metadata" (
      ("name", at (λ (a : DaemonSetSummary). a.name) (λ a x. record a { name = x }) decode_string)
      ∷ [])
    ∷ nested "status" (
        (
          "desiredNumberScheduled",
          at (λ a. a.desired_number_scheduled) (λ a x. record a { desired_number_scheduled = x })
              decode_int32,
        )
        ∷ (
          "numberReady",
          at (λ a. a.number_ready) (λ a x. record a { number_ready = x }) decode_int32,
        )
        ∷ (
          "numberAvailable",
          at (λ a. a.number_available) (λ a x. record a { number_available = x }) decode_int32,
        )
        ∷ [])
    ∷ [])

unfoldable pub encode_daemon_set : DaemonSetSummary → Json
unfolding encode_int32
encode_daemon_set a = obj (
    fields (
      ("name", str a.name)
      ∷ ("desiredNumberScheduled", encode_int32 a.desired_number_scheduled)
      ∷ ("numberReady", encode_int32 a.number_ready)
      ∷ ("numberAvailable", encode_int32 a.number_available)
      ∷ []))

unfoldable pub summarize_daemon_set : SummarizeFunc
unfolding decode_daemon_set encode_daemon_set
summarize_daemon_set =
    summarize_with "decoding daemonset" decode_daemon_set
      (record {
        name = "";
        desired_number_scheduled = pos 0;
        number_ready = pos 0;
        number_available = pos 0;
      })
      encode_daemon_set
