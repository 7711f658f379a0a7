-- ===== src/Std/Strings.antt =====
-- What the program uses of strings, and of net/url: TrimRight, TrimPrefix, QueryEscape, Join.
use Prim.Native.Char.{code}
use tenant_deck.Base.{
  ℕ, ◌+◌, ◌/◌, ◌%◌, Bool, ◌&&◌, ◌||◌, String, List, [], ◌∷◌, ◌+++◌, ◌≡◌, refl, ltb, leb, ◌==◌,
  if◌then◌else◌, str_eq,
}
use tenant_deck.Std.Strconv.{pick}

abbrev add_unless_trimmed : ℕ → String → String → String
add_unless_trimmed c whole trimmed = if c == b'/' && str_eq trimmed "" then "" else whole

-- strings.TrimRight(s, "/")
unfoldable pub trim_right_slash : String → String
trim_right_slash String.[] = ""
trim_right_slash (String.◌∷◌ c s) =
    let t = trim_right_slash s in add_unless_trimmed (code c) (String.◌∷◌ c t) t

-- strings.TrimPrefix(s, "/")
unfoldable pub trim_prefix_slash : String → String
trim_prefix_slash String.[] = ""
trim_prefix_slash (String.◌∷◌ c s) = if code c == b'/' then s else String.◌∷◌ c s

-- strings.Join
unfoldable pub join : String → List String → String
join sep [] = ""
join sep (s ∷ []) = s
join sep (s ∷ t ∷ ts) = s +++ (sep +++ join sep (t ∷ ts))

-- The UTF-8 bytes of a code point.
abbrev utf8 : ℕ → List ℕ
utf8 c =
    if ltb c 0x80
    then c ∷ []
    else if ltb c 0x800
    then (0xC0 + c / 64) ∷ (0x80 + c % 64) ∷ []
    else if ltb c 0x10000
    then (0xE0 + c / 4096) ∷ (0x80 + c / 64 % 64) ∷ (0x80 + c % 64) ∷ []
    else (0xF0 + c / 262144) ∷ (0x80 + c / 4096 % 64) ∷ (0x80 + c / 64 % 64) ∷ (0x80 + c % 64) ∷ []

hex_byte : ℕ → String
unfolding pick
hex_byte b = "%" +++ (pick (b / 16) "0123456789ABCDEF" +++ pick (b % 16) "0123456789ABCDEF")

hex_bytes : List ℕ → String
unfolding hex_byte
hex_bytes [] = ""
hex_bytes (b ∷ bs) = hex_byte b +++ hex_bytes bs

-- Letters, digits and `-_.~` stand for themselves.
abbrev is_unreserved : ℕ → Bool
is_unreserved c =
    (leb b'a' c && leb c b'z')
    || (leb b'A' c && leb c b'Z')
    || (leb b'0' c && leb c b'9')
    || c == b'-'
    || c == b'_'
    || c == b'.'
    || c == b'~'

-- url.QueryEscape
unfoldable pub query_escape : String → String
unfolding hex_bytes
query_escape String.[] = ""
query_escape (String.◌∷◌ c s) =
    (if is_unreserved (code c)
      then String.◌∷◌ c ""
      else if code c == b' '
      then "+"
      else hex_bytes (utf8 (code c)))
    +++ query_escape s

strings_tests :
    (trim_right_slash "https://a//" ≡ "https://a")
    × (trim_right_slash "a/b" ≡ "a/b")
    × (query_escape "a b&é" ≡ "a+b%26%C3%A9")
    × (join "&" ("a" ∷ "b" ∷ []) ≡ "a&b")
unfolding trim_right_slash query_escape join
strings_tests = (refl, refl, refl, refl)
