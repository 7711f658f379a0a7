-- ===== src/Examples/Logs.antt =====
-- The log route at concrete inputs.
use tenant_deck.Base.{
  String, true, ◌≡◌, ◌≤◌, ok, err, message, refl, List, [], ◌∷◌, ◌++◌, take, length, str_eq,
  if◌then◌else◌, none,
}
use tenant_deck.Std.Http.{fresh}
use tenant_deck.Session.Crypto.{Bytes}
use tenant_deck.Capsule.Client.{Body}
use tenant_deck.Capsule.Logs.{LogOptions}
use tenant_deck.Std.Strconv.{parse_int}
use tenant_deck.Httpapi.Logs.{
  parse_log_options, positive_param, container_param, send_log, max_stream_bytes,
}
use tenant_deck.Httpapi.Logs.Options.{IsClamped, parse_log_options-IsClamped}
use tenant_deck.Httpapi.Logs.Copy.{concat, sent_bytes, send_log_prefix}

-- tailLines=9999 and follow=true.
abbrev many_lines : String → String
many_lines key =
    if str_eq key "tailLines" then "9999" else if str_eq key "follow" then "true" else ""

abbrev clamped : LogOptions
clamped = record {
  container = "";
  tail_lines = 2000;
  limit_bytes = 262144;
  since_seconds = 0;
  follow = true;
}

parsed_now : parse_log_options many_lines ≡ ok clamped
unfolding parse_log_options positive_param parse_int container_param
parsed_now = refl

parse_log_options-IsClamped_example : IsClamped clamped
parse_log_options-IsClamped_example = parse_log_options-IsClamped many_lines clamped parsed_now

refused_now :
    parse_log_options (λ key. if str_eq key "limitBytes" then "-1" else "")
    ≡ err (message "invalid limitBytes")
unfolding parse_log_options positive_param parse_int
refused_now = refl

-- Two reads for three bytes.
abbrev split : Bytes → List Bytes
split (a ∷ b ∷ d) = (a ∷ b ∷ []) ∷ d ∷ []
split d = d ∷ []

abbrev three_bytes : Body
three_bytes = record { bytes = 1 ∷ 2 ∷ 3 ∷ []; failure = none }

whole : concat (split three_bytes.bytes) ≡ three_bytes.bytes
unfolding concat
whole = refl

send_log_prefix_example :
    (rest : Bytes) × (take max_stream_bytes three_bytes.bytes
      ≡ sent_bytes (send_log split 1 three_bytes fresh).body ++ rest)
    × (length (split three_bytes.bytes) ≤ 1 → rest ≡ [])
send_log_prefix_example = send_log_prefix split 1 three_bytes fresh whole refl
