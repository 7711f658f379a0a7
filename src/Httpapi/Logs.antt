-- ===== src/Httpapi/Logs.antt =====
-- internal/httpapi/logs.go: the options of a log request, the handler and its copy loop.
pub mod Options
pub mod Copy
pub mod Outbound
use tenant_deck.Base.{
  ℕ, zero, suc, ◌-◌, ◌*◌, ◌^◌, min, Bool, ◌&&◌, String, List, [], ◌∷◌, Result, ok, err, Error,
  message, str_eq, ℤ, is_positive, length, take, ◌==◌, if◌then◌else◌,
}
use tenant_deck.Base.Int.{pos_part}
use tenant_deck.Base.Results
use tenant_deck.Std.Strconv.{parse_int}
use tenant_deck.Std.Http.{Request, Writer, bytes, http_error, set_header, write_header, write}
use tenant_deck.Std.Handler.{Handler, Respond, emit, require, need, call, check, ◌>>=◌, ◌>>◌}
use tenant_deck.Session.Crypto.{Bytes}
use tenant_deck.Capsule.Client.{Client, Body}
use tenant_deck.Capsule.Logs.{LogOptions, stream_pod_logs}
use tenant_deck.Httpapi.Validate.{valid_k8s_name}
use tenant_deck.Httpapi.Namespaces.{write_upstream_error}

abbrev pub default_tail_lines : ℕ
default_tail_lines = 200

abbrev pub max_tail_lines : ℕ
max_tail_lines = 2000

-- 256 << 10
abbrev pub default_limit_bytes : ℕ
default_limit_bytes = 256 * 2 ^ 10

-- 1 << 20
abbrev pub max_limit_bytes : ℕ
max_limit_bytes = 2 ^ 20

-- 50 << 20
abbrev pub max_stream_bytes : ℕ
max_stream_bytes = 50 * 2 ^ 20

-- A value that does not parse, or is not positive, is refused.
unfoldable pub positive : Error → Result ℤ → Result ℕ
positive bad (err e) = err bad
positive bad (ok n) = if is_positive n then ok (pos_part n) else err bad

-- A parameter that is absent leaves the options as they are.
unfoldable pub positive_param :
    (ℕ → LogOptions → LogOptions) → Error → String → LogOptions → Result LogOptions
unfolding positive
positive_param store bad v opts =
    if str_eq v ""
    then ok opts
    else Results.◌>>=◌ (positive bad (parse_int 64 v)) λ n. ok (store n opts)

unfoldable pub container_param : String → LogOptions → Result LogOptions
container_param v opts =
    if str_eq v ""
    then ok opts
    else if valid_k8s_name v
    then ok (record opts { container = v })
    else err (message "invalid container")

abbrev pub store_tail_lines : ℕ → LogOptions → LogOptions
store_tail_lines n opts = record opts { tail_lines = min n max_tail_lines }

abbrev pub store_limit_bytes : ℕ → LogOptions → LogOptions
store_limit_bytes n opts = record opts { limit_bytes = min n max_limit_bytes }

abbrev pub store_since_seconds : ℕ → LogOptions → LogOptions
store_since_seconds n opts = record opts { since_seconds = n }

abbrev pub default_options : Bool → LogOptions
default_options follow = record {
  container = "";
  tail_lines = default_tail_lines;
  limit_bytes = default_limit_bytes;
  since_seconds = 0;
  follow = follow;
}

unfoldable pub parse_log_options : (String → String) → Result LogOptions
parse_log_options q =
    Results.◌>>=◌
      (positive_param store_tail_lines (message "invalid tailLines") (q "tailLines")
        (default_options (str_eq (q "follow") "true")))
      λ with_tail.
        Results.◌>>=◌
          (positive_param store_limit_bytes (message "invalid limitBytes") (q "limitBytes")
            with_tail)
          λ with_limit.
            Results.◌>>=◌
              (positive_param store_since_seconds (message "invalid sinceSeconds")
                (q "sinceSeconds") with_limit)
              (container_param (q "container"))

-- err.Error() of the errors above, which are plain texts.
unfoldable pub option_error : Error → String
option_error (message m) = m
option_error e = ""

-- io.LimitReader over the reads of a stream: each is cut to what is left of the limit, and at 0 the
-- stream has ended.
unfoldable pub limit_reads : ℕ → List Bytes → List Bytes
limit_reads n [] = []
limit_reads zero (chunk ∷ reads) = []
limit_reads (suc n) (chunk ∷ reads) = take (suc n) chunk ∷ limit_reads (suc n - length chunk) reads

-- The copy loop over the reads, the last of which is followed by an error or EOF. `writes` is how
-- many writes succeed before the browser has gone; a read of no bytes writes nothing.
unfoldable pub copy_log_stream : ℕ → List Bytes → Respond
unfolding write
copy_log_stream writes [] w = w
copy_log_stream writes ([] ∷ reads) w = copy_log_stream writes reads w
copy_log_stream zero ((b ∷ bs) ∷ reads) w = w
copy_log_stream (suc writes) ((b ∷ bs) ∷ reads) w =
    copy_log_stream writes reads (write (bytes (b ∷ bs)) w)

-- `split` is how the transport divides a body into reads of at most 4096 bytes.
module _ (split : Bytes → List Bytes) (writes : ℕ) where
  -- The part of the handler that is after the stream has been opened.
  unfoldable pub send_log : Body → Respond
  unfolding set_header write_header
  send_log body w =
      copy_log_stream writes (limit_reads max_stream_bytes (split body.bytes))
        (write_header 200 (set_header "Content-Type" "text/plain; charset=utf-8" w))

  unfoldable pub pod_logs_handler : {W : Type 0} → Client W → Request → Handler W (Unit {0})
  pod_logs_handler client r = do
    rec ← need r.session (http_error "unauthorized" 401)
    require (valid_k8s_name (r.path_value "ns") && valid_k8s_name (r.path_value "name"))
        (http_error "invalid namespace or name" 400)
    opts ← check (parse_log_options r.query) (λ e. http_error (option_error e) 400)
    stream ←
        call (stream_pod_logs client rec.id_token (r.path_value "ns") (r.path_value "name") opts)
          write_upstream_error
    emit (send_log stream)
