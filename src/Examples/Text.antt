-- ===== src/Examples/Text.antt =====
-- A text layer that can print two values and two times.
use tenant_deck.Base.{
  ℕ, zero, suc, String, Bool, true, false, ◌&&◌, ◌≡◌, refl, inl, inr, [], ◌∷◌, Result, ok, err,
  message, arith, str_eq, eq_iff, ◌==◌, if◌then◌else◌, Bool-cases, and-eq-true, ap,
}
use tenant_deck.Std.Json.{Json, Fields, str, obj, end, field}
use tenant_deck.Session.Crypto.{Bytes}
use tenant_deck.Session.Codec.{JsonText, IsJsonText}

unfoldable mutual
  pub same : Json → Json → Bool
  same (str s) (str t) = str_eq s t
  same (obj f) (obj g) = same_fields f g
  same _ _ = false

  pub same_fields : Fields → Fields → Bool
  same_fields end end = true
  same_fields (field k v f) (field j u g) = str_eq k j && (same v u && same_fields f g)
  same_fields _ _ = false

mutual
  unfolding same same_fields

  same_sound : (a b : Json) → same a b ≡ true → a ≡ b
  same_sound (str s) (str t) h = ap str ((eq_iff s t).0 h)
  same_sound (obj f) (obj g) h = ap obj (same_fields_sound f g h)
  same_sound a b h = cc

  same_fields_sound : (f g : Fields) → same_fields f g ≡ true → f ≡ g
  same_fields_sound end end h = refl
  same_fields_sound (field k v f) (field j u g) h =
      let (names, rest) = and-eq-true (str_eq k j) (same v u && same_fields f g) h in
      let (values, more) = and-eq-true (same v u) (same_fields f g) rest in
      cc ((eq_iff k j).0 names, same_sound v u values, same_fields_sound f g more)
  same_fields_sound f g h = cc

abbrev pub time_limit : ℕ
time_limit = 901000000000

abbrev pub time_now : ℕ
time_now = 1000000000

abbrev format : ℕ → Result String
format t =
    if t == time_now
    then ok "now"
    else if t == time_limit
    then ok "limit"
    else err (message "year outside of range [0,9999]")

abbrev parse_format : String → Result ℕ
parse_format s = if str_eq s "now" then ok time_now else ok time_limit

abbrev print_one_of : Json → Json → Json → Result Bytes
print_one_of a b v =
    if same v a
    then ok (0 ∷ [])
    else if same v b
    then ok (1 ∷ [])
    else err (message "json: unsupported value")

abbrev parse_one_of : Json → Json → Bytes → Result Json
parse_one_of a b (zero ∷ _) = ok a
parse_one_of a b (suc _ ∷ _) = ok b
parse_one_of a b [] = err (message "unexpected end of JSON input")

abbrev pub text_of : Json → Json → JsonText
text_of a b = record {
  print = print_one_of a b;
  parse = parse_one_of a b;
  format_time = format;
  parse_time = parse_format;
}

parse_print : (a b v : Json) (p : Bytes) → print_one_of a b v ≡ ok p → parse_one_of a b p ≡ ok v
parse_print a b v [] h = ground arith
parse_print a b v (zero ∷ p) h = ground (arith, same_sound v a, same_sound v b)
parse_print a b v (suc n ∷ p) h = ground (arith, same_sound v a, same_sound v b)

parse_format_lem : (t : ℕ) (s : String) → format t ≡ ok s → parse_format s ≡ ok t
parse_format_lem t s h = elim (Bool-cases (t == time_now)) [
  | inl e ↦ let q : s ≡ "now" = ground arith in rw q (ground arith)
  | inr ne ↦ elim (Bool-cases (t == time_limit)) [
    | inl e ↦ let q : s ≡ "limit" = ground arith in rw q (ground arith)
    | inr ne' ↦ ground arith
  ]
]

pub text_of-IsJsonText : (a b : Json) → IsJsonText (text_of a b)
text_of-IsJsonText a b = record {
  parse-print = λ v p h. parse_print a b v p h;
  parse-format = λ t s h. parse_format_lem t s h;
}
