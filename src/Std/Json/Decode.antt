-- ===== src/Std/Json/Decode.antt =====
-- json.Unmarshal into a struct: members in order, a name that fits exactly or up to case, null as
-- no change for a plain field, an error for another kind of value.
use tenant_deck.Base.{
  ℕ, ◌+◌, Bool, false, true, ◌&&◌, String, Option, none, some, List, [], ◌∷◌, codes, leb, ◌==◌,
  str_eq, ℤ, Result, ok, err, message, if◌then◌else◌, map,
}
use tenant_deck.Base.Results.{◌>>=◌}
use tenant_deck.Std.Strconv.{parse_int}
use tenant_deck.Std.Json.{Json, null, bool, num, str, arr, obj, item_list, field_list}

-- Decodes into a variable that has a value already.
abbrev pub Decoder {ℓ} : Type ℓ → Type ℓ
Decoder A = Json → A → Result A

abbrev wrong_kind {ℓ} : {A : Type ℓ} → Result A
wrong_kind = err (message "json: cannot unmarshal into Go value")

-- Letters of either case are one, and so are k and the Kelvin sign, s and the long s.
fold_code : ℕ → ℕ
fold_code c =
    if leb b'A' c && leb c b'Z'
    then c + 32
    else if c == 0x212A
    then b'k'
    else if c == 0x17F
    then b's'
    else c

same_codes : List ℕ → List ℕ → Bool
same_codes [] [] = true
same_codes (c ∷ s) (d ∷ t) = c == d && same_codes s t
same_codes _ _ = false

same_fold : String → String → Bool
unfolding fold_code same_codes
same_fold a b = same_codes (map fold_code (codes a)) (map fold_code (codes b))

module _ {A : Type 0} where
  exact : String → List (String × Decoder A) → Option (Decoder A)
  exact k [] = none
  exact k ((name, d) ∷ ds) = if str_eq k name then some d else exact k ds

  folded : String → List (String × Decoder A) → Option (Decoder A)
  unfolding same_fold
  folded k [] = none
  folded k ((name, d) ∷ ds) = if same_fold k name then some d else folded k ds

  abbrev or_folded : String → List (String × Decoder A) → Option (Decoder A) → Option (Decoder A)
  or_folded k ds (some d) = some d
  or_folded k ds none = folded k ds

  find_field : String → List (String × Decoder A) → Option (Decoder A)
  unfolding exact folded
  find_field k ds = or_folded k ds (exact k ds)

  abbrev apply : Option (Decoder A) → Decoder A
  apply none v a = ok a
  apply (some d) v a = d v a

  decode_members : List (String × Decoder A) → List (String × Json) → A → Result A
  unfolding find_field
  decode_members ds [] a = ok a
  decode_members ds ((k, v) ∷ ms) a = do a' ← apply (find_field k ds) v a; decode_members ds ms a'

  unfoldable pub decode_struct : List (String × Decoder A) → Decoder A
  unfolding decode_members
  decode_struct ds null a = ok a
  decode_struct ds (obj fs) a = decode_members ds (field_list fs) a
  decode_struct ds _ a = wrong_kind

module _ {A B : Type 0} where
  -- A field of a struct: its value is decoded into, and stored back.
  abbrev pub at : (A → B) → (A → B → A) → Decoder B → Decoder A
  at get put d v a = do b ← d v (get a); ok (put a b)

abbrev pub decode_string : Decoder String
decode_string null a = ok a
decode_string (str s) a = ok s
decode_string _ a = wrong_kind

abbrev pub decode_bool : Decoder Bool
decode_bool null a = ok a
decode_bool (bool b) a = ok b
decode_bool _ a = wrong_kind

-- An integer literal in the range of the field's type.
abbrev pub decode_int32 : Decoder ℤ
decode_int32 null a = ok a
decode_int32 (num s) a = parse_int 32 s
decode_int32 _ a = wrong_kind

-- A slice of raw messages; null gives nil, which has no items.
abbrev pub decode_raw_list : Decoder (List Json)
decode_raw_list null a = ok []
decode_raw_list (arr vs) a = ok (item_list vs)
decode_raw_list _ a = wrong_kind
