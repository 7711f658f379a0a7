-- ===== src/Httpapi/Workloads/Batch.antt =====
-- internal/httpapi/workloads.go: jobs and cron jobs.
use tenant_deck.Base.{Bool, false, String, [], ◌∷◌, Option, none, ℤ, pos}
use tenant_deck.Std.Json.{Json, bool, str, obj, fields}
use tenant_deck.Std.Json.Decode.{
  Decoder, decode_struct, decode_string, decode_bool, decode_int32, at,
}
use tenant_deck.Capsule.Client.{GroupVersionResource}
use tenant_deck.Httpapi.Resources.{SummarizeFunc}
use tenant_deck.Httpapi.Summaries.{
  nested, decode_pointer, encode_int32, member_if_set, summarize_with,
}

abbrev batch : String → GroupVersionResource
batch name = record { api_prefix = "apis/batch/v1"; resource = name }

abbrev pub jobs_gvr : GroupVersionResource
jobs_gvr = batch "jobs"

abbrev pub cron_jobs_gvr : GroupVersionResource
cron_jobs_gvr = batch "cronjobs"

pub record JobSummary : Type 0 where
  pub name : String
  pub active : ℤ
  pub succeeded : ℤ
  pub failed : ℤ

unfoldable pub decode_job : Decoder JobSummary
unfolding decode_struct
decode_job = decode_struct (
    nested "metadata"
      (("name", at (λ (a : JobSummary). a.name) (λ a x. record a { name = x }) decode_string) ∷ [])
    ∷ nested "status" (
        ("active", at (λ a. a.active) (λ a x. record a { active = x }) decode_int32)
        ∷ ("succeeded", at (λ a. a.succeeded) (λ a x. record a { succeeded = x }) decode_int32)
        ∷ ("failed", at (λ a. a.failed) (λ a x. record a { failed = x }) decode_int32)
        ∷ [])
    ∷ [])

unfoldable pub encode_job : JobSummary → Json
unfolding encode_int32
encode_job a = obj (
    fields (
      ("name", str a.name)
      ∷ ("active", encode_int32 a.active)
      ∷ ("succeeded", encode_int32 a.succeeded)
      ∷ ("failed", encode_int32 a.failed)
      ∷ []))

unfoldable pub summarize_job : SummarizeFunc
unfolding decode_job encode_job
summarize_job =
    summarize_with "decoding job" decode_job
      (record { name = ""; active = pos 0; succeeded = pos 0; failed = pos 0 }) encode_job

pub record CronJobSummary : Type 0 where
  pub name : String
  pub schedule : String
  pub suspend : Bool
  pub last_schedule_time : Option String

unfoldable pub decode_cron_job : Decoder CronJobSummary
unfolding decode_struct
decode_cron_job = decode_struct (
    nested "metadata" (
      ("name", at (λ (a : CronJobSummary). a.name) (λ a x. record a { name = x }) decode_string)
      ∷ [])
    ∷ nested "spec" (
        ("schedule", at (λ a. a.schedule) (λ a x. record a { schedule = x }) decode_string)
        ∷ ("suspend", at (λ a. a.suspend) (λ a x. record a { suspend = x }) decode_bool)
        ∷ [])
    ∷ nested "status" (
        (
          "lastScheduleTime",
          at (λ a. a.last_schedule_time) (λ a x. record a { last_schedule_time = x })
              decode_pointer,
        )
        ∷ [])
    ∷ [])

unfoldable pub encode_cron_job : CronJobSummary → Json
encode_cron_job a = obj (
    fields (
      ("name", str a.name)
      ∷ ("schedule", str a.schedule)
      ∷ ("suspend", bool a.suspend)
      ∷ member_if_set "lastScheduleTime" a.last_schedule_time))

unfoldable pub summarize_cron_job : SummarizeFunc
unfolding decode_cron_job encode_cron_job
summarize_cron_job =
    summarize_with "decoding cronjob" decode_cron_job
      (record { name = ""; schedule = ""; suspend = false; last_schedule_time = none })
      encode_cron_job
