-- ===== src/Httpapi/Summaries.antt =====
-- What the summaries of internal/httpapi share: decoding parts of an object, and encoding a DTO.
use tenant_deck.Base.{
  String, List, [], ◌∷◌, Option, none, some, Result, ok, err, message, ℤ, map_error, wrapped,
  str_eq, if◌then◌else◌,
}
use tenant_deck.Base.Results.{◌>>=◌}
use tenant_deck.Std.Json.{Json, null, num, str, arr, item_list}
use tenant_deck.Std.Json.Decode.{Decoder, decode_struct}
use tenant_deck.Std.Strconv.{format_int}
use tenant_deck.Capsule.Client.{RawMessage, unmarshal}

-- A member whose value is a struct, the fields of which are parts of A.
abbrev pub nested : {A : Type 0} → String → List (String × Decoder A) → String × Decoder A
nested k ds = (k, decode_struct ds)

-- A *string: null is nil.
abbrev pub decode_pointer : Decoder (Option String)
decode_pointer null a = ok none
decode_pointer (str s) a = ok (some s)
decode_pointer _ a = err (message "json: cannot unmarshal into Go value")

unfoldable pub decode_all : {A : Type 0} → Decoder A → A → List Json → Result (List A)
decode_all d zero [] = ok []
decode_all d zero (v ∷ vs) = do x ← d v zero; xs ← decode_all d zero vs; ok (x ∷ xs)

-- A slice of structs, each decoded into the zero value; null gives nil, which has no items.
unfoldable pub decode_slice : {A : Type 0} → Decoder A → A → Decoder (List A)
unfolding decode_all
decode_slice d zero null a = ok []
decode_slice d zero (arr vs) a = decode_all d zero (item_list vs)
decode_slice d zero _ a = err (message "json: cannot unmarshal into Go value")

-- An int32 as json.Marshal prints it.
unfoldable pub encode_int32 : ℤ → Json
unfolding format_int
encode_int32 n = num (format_int n)

-- A *string with omitempty.
abbrev pub member_if_set : String → Option String → List (String × Json)
member_if_set k none = []
member_if_set k (some s) = (k, str s) ∷ []

-- json.Unmarshal into a zero value, the failure under `%w`, and the DTO made of the value.
abbrev pub summarize_with :
    {A : Type 0} → String → Decoder A → A → (A → Json) → RawMessage → Result Json
summarize_with what d zero encode raw = do
  a ← map_error (wrapped what) (unmarshal d zero raw)
  ok (encode a)

-- A string with omitempty.
abbrev pub member_if_text : String → String → List (String × Json)
member_if_text k s = if str_eq s "" then [] else (k, str s) ∷ []
