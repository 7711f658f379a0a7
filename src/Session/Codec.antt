-- ===== src/Session/Codec.antt =====
-- The JSON form of the stored structs (the tags of internal/session/store.go).
use tenant_deck.Base.{
  ℕ, String, [], ◌∷◌, Result, ok, err, message, ◌≡◌, Result-cases, inl, inr, arith,
}
use tenant_deck.Base.Results.{◌>>=◌, and_then-inv}
use tenant_deck.Session.Crypto.{Bytes}
use tenant_deck.Session.Records.{Record, LoginTransaction}
use tenant_deck.Std.Json.{Json, null, str, obj, fields}
use tenant_deck.Std.Json.Decode.{Decoder, decode_struct, decode_string, at}

-- The text layer of encoding/json and the text form of time.Time.
pub record JsonText : Type 0 where
  pub print : Json → Result Bytes
  pub parse : Bytes → Result Json
  pub format_time : ℕ → Result String
  pub parse_time : String → Result ℕ

-- Documented: what was printed parses to itself, and so does a time.
pub record IsJsonText (j : JsonText) : Type 0 where
  pub parse-print : (v : Json) (b : Bytes) → j.print v ≡ ok b → j.parse b ≡ ok v
  pub parse-format : (t : ℕ) (s : String) → j.format_time t ≡ ok s → j.parse_time s ≡ ok t

abbrev pub zero_record : Record
zero_record = record {
  subject = "";
  id_token = "";
  expires_at = 0;
  created_at = 0;
  csrf_token = "";
}

abbrev pub zero_transaction : LoginTransaction
zero_transaction = record { nonce = ""; pkce_verifier = ""; created_at = 0 }

module _ (j : JsonText) where
  abbrev decode_time : Decoder ℕ
  decode_time null t = ok t
  decode_time (str s) t = j.parse_time s
  decode_time _ t = err (message "Time.UnmarshalJSON: input is not a JSON string")

  unfoldable pub encode_record : Record → Result Json
  encode_record r = do
    expires ← j.format_time r.expires_at
    created ← j.format_time r.created_at
    ok (
        obj (
          fields (
            ("subject", str r.subject)
            ∷ ("id_token", str r.id_token)
            ∷ ("expires_at", str expires)
            ∷ ("created_at", str created)
            ∷ ("csrf_token", str r.csrf_token)
            ∷ [])))

  unfoldable pub decode_record : Decoder Record
  unfolding decode_struct
  decode_record = decode_struct (
      ("subject", at (λ r. r.subject) (λ r x. record r { subject = x }) decode_string)
      ∷ ("id_token", at (λ r. r.id_token) (λ r x. record r { id_token = x }) decode_string)
      ∷ ("expires_at", at (λ r. r.expires_at) (λ r x. record r { expires_at = x }) decode_time)
      ∷ ("created_at", at (λ r. r.created_at) (λ r x. record r { created_at = x }) decode_time)
      ∷ ("csrf_token", at (λ r. r.csrf_token) (λ r x. record r { csrf_token = x }) decode_string)
      ∷ [])

  unfoldable pub encode_transaction : LoginTransaction → Result Json
  encode_transaction t = do
    created ← j.format_time t.created_at
    ok (
        obj (
          fields (
            ("nonce", str t.nonce)
            ∷ ("pkce_verifier", str t.pkce_verifier)
            ∷ ("created_at", str created)
            ∷ [])))

  unfoldable pub decode_transaction : Decoder LoginTransaction
  unfolding decode_struct
  decode_transaction = decode_struct (
      ("nonce", at (λ t. t.nonce) (λ t x. record t { nonce = x }) decode_string)
      ∷ (
        "pkce_verifier",
        at (λ t. t.pkce_verifier) (λ t x. record t { pkce_verifier = x }) decode_string,
      )
      ∷ ("created_at", at (λ t. t.created_at) (λ t x. record t { created_at = x }) decode_time)
      ∷ [])

  -- json.Marshal of the struct.
  unfoldable pub marshal_record : Record → Result Bytes
  unfolding encode_record
  marshal_record r = do v ← encode_record r; j.print v

  unfoldable pub unmarshal_record : Bytes → Result Record
  unfolding decode_record
  unmarshal_record b = do v ← j.parse b; decode_record v zero_record

  unfoldable pub marshal_transaction : LoginTransaction → Result Bytes
  unfolding encode_transaction
  marshal_transaction t = do v ← encode_transaction t; j.print v

  unfoldable pub unmarshal_transaction : Bytes → Result LoginTransaction
  unfolding decode_transaction
  unmarshal_transaction b = do v ← j.parse b; decode_transaction v zero_transaction

module _ (j : JsonText) (laws : IsJsonText j) where
  decode-encode_record :
      (r : Record) (v : Json) → encode_record j r ≡ ok v → decode_record j v zero_record ≡ ok r
  unfolding encode_record decode_record
  decode-encode_record r v h = elim (Result-cases (j.format_time r.expires_at)) [
    | inl (s, p) ↦ elim (Result-cases (j.format_time r.created_at)) [
      | inl (t, q) ↦
          ground (arith, laws.parse-format r.expires_at s p, laws.parse-format r.created_at t q)
      | inr (e, q) ↦ ground arith
    ]
    | inr (e, p) ↦ ground arith
  ]

  decode-encode_transaction :
      (t : LoginTransaction) (v : Json)
      → encode_transaction j t ≡ ok v
      → decode_transaction j v zero_transaction ≡ ok t
  unfolding encode_transaction decode_transaction
  decode-encode_transaction t v h = elim (Result-cases (j.format_time t.created_at)) [
    | inl (s, p) ↦ ground (arith, laws.parse-format t.created_at s p)
    | inr (e, p) ↦ ground arith
  ]

  -- A record that was marshalled is unmarshalled to itself, whatever its texts and times.
  pub unmarshal-marshal_record :
      (r : Record) (b : Bytes) → marshal_record j r ≡ ok b → unmarshal_record j b ≡ ok r
  unfolding marshal_record unmarshal_record
  unmarshal-marshal_record r b h =
      let (v, e, p) = and_then-inv j.print (encode_record j r) h in
      rw (laws.parse-print v b p) (decode-encode_record r v e)

  -- So is a login transaction.
  pub unmarshal-marshal_transaction :
      (t : LoginTransaction) (b : Bytes)
      → marshal_transaction j t ≡ ok b
      → unmarshal_transaction j b ≡ ok t
  unfolding marshal_transaction unmarshal_transaction
  unmarshal-marshal_transaction t b h =
      let (v, e, p) = and_then-inv j.print (encode_transaction j t) h in
      rw (laws.parse-print v b p) (decode-encode_transaction t v e)
