-- ===== src/Httpapi/Validate.antt =====
-- internal/httpapi/validate.go: names of namespaces, objects and containers.
pub mod Labels
use tenant_deck.Base.{ℕ, Bool, ◌||◌, ◌&&◌, String, leb, ◌==◌, codes}
use tenant_deck.Std.Regexp.{Regex, class, seq, opt, up_to, match_string}

-- [a-z0-9]
unfoldable pub is_alnum : ℕ → Bool
is_alnum c = (leb b'a' c && leb c b'z') || (leb b'0' c && leb c b'9')

-- [a-z0-9-]
abbrev pub is_label_char : ℕ → Bool
is_label_char c = is_alnum c || c == b'-'

-- ^[a-z0-9]([a-z0-9-]{0,61}[a-z0-9])?$
abbrev pub k8s_name_pattern : Regex
k8s_name_pattern = seq (class is_alnum) (opt (seq (up_to 61 is_label_char) (class is_alnum)))

unfoldable pub valid_k8s_name : String → Bool
unfolding match_string
valid_k8s_name s = match_string k8s_name_pattern (codes s)
