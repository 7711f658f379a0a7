-- ===== src/Webassets.antt =====
-- internal/webassets/handler.go: the built frontend, with a fallback to its page for any other path.
pub mod Fallback
use tenant_deck.Base.{
  Bool, false, not, String, Option, none, some, Result, ok, str_eq, if◌then◌else◌,
}
use tenant_deck.Base.Results.{◌>>=◌}
use tenant_deck.Std.Strings.{trim_prefix_slash}
use tenant_deck.Std.Http.{Request}
use tenant_deck.Std.Mux.{HandlerFunc}

-- What the handler uses of a file system: `stat` is whether fs.Stat finds a directory, or none for an
-- error; `file_server` is http.FileServer.
pub record Files (W : Type 0) : Type 0 where
  pub stat : String → Option Bool
  pub file_server : HandlerFunc W

-- The name that is looked up for the path of a URL. `clean` is path.Clean.
unfoldable pub file_name : (String → String) → String → String
unfolding trim_prefix_slash
file_name clean url_path =
    let name = trim_prefix_slash (clean url_path) in if str_eq name "." then "index.html" else name

abbrev pub request_for_root : Request → Request
request_for_root r = record r { path = "/" }

module _ {W : Type 0} (clean : String → String) where
  unfoldable pub file_exists : Files W → String → Bool
  unfolding file_name
  file_exists dist url_path = elim (dist.stat (file_name clean url_path)) [
    | none ↦ false
    | some is_dir ↦ not is_dir
  ]

  unfoldable pub handler_from_fs : Files W → HandlerFunc W
  unfolding file_exists
  handler_from_fs dist r =
      dist.file_server (if not (file_exists dist r.path) then request_for_root r else r)

  -- `dist` is fs.Sub of the embedded files.
  unfoldable pub frontend_handler : Result (Files W) → Result (HandlerFunc W)
  unfolding handler_from_fs
  frontend_handler dist = dist >>= λ files. ok (handler_from_fs files)
