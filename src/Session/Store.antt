-- ===== src/Session/Store.antt =====
-- internal/session/store.go: typed, encrypted operations over a backend.
use tenant_deck.Base.{String, ◌+++◌, ℕ, ℤ, Result, ok, wrapped, map_error}
use tenant_deck.Base.Io.{Io, pure, lift, ◌>>=◌, ◌>>◌}
use tenant_deck.Base.Results
use tenant_deck.Std.Base64.{raw_url_encode}
use tenant_deck.Session.Records.{Record, LoginTransaction}
use tenant_deck.Session.Crypto.{Bytes, Random, Ciphers, Encryptor, new_encryptor, seal, open_sealed}
use tenant_deck.Session.Backend.{Backend}
use tenant_deck.Session.Codec.{
  JsonText, marshal_record, unmarshal_record, marshal_transaction, unmarshal_transaction,
}

abbrev pub session_key_prefix : String
session_key_prefix = "session:"

abbrev pub login_key_prefix : String
login_key_prefix = "login:"

abbrev pub id_byte_length : ℕ
id_byte_length = 32

-- The Go struct, with what its operations reach through package variables: the random source and
-- the JSON text layer.
pub record Store (W : Type 0) : Type 0 where
  pub backend : Backend W
  pub enc : Encryptor
  pub rand : Random W
  pub text : JsonText

unfoldable pub new_store :
    {W Block : Type 0} → Ciphers Block → Random W → JsonText → Backend W → Bytes → Result (Store W)
unfolding new_encryptor
new_store c rand text b key =
    Results.◌>>=◌ (new_encryptor c key)
      λ enc. ok (record { backend = b; enc = enc; rand = rand; text = text })

unfoldable pub generate_id : {W : Type 0} → Random W → Io W String
generate_id rand = do raw ← rand.read_full id_byte_length; pure (raw_url_encode raw)

module _ {W : Type 0} (s : Store W) where
  unfoldable pub ping : Io W (Unit {0})
  ping = s.backend.ping

  -- `marshalled` is json.Marshal of the value.
  unfoldable pub put : String → Result Bytes → ℤ → Io W (Unit {0})
  put key marshalled ttl = do
    plaintext ← lift marshalled
    sealed ← seal s.rand s.enc plaintext
    s.backend.set key sealed ttl

  unfoldable pub create_session : Record → ℤ → Io W String
  create_session rec ttl = do
    id ← generate_id s.rand
    put (session_key_prefix +++ id) (marshal_record s.text rec) ttl
    pure id

  -- The part of a read that is after the backend.
  unfoldable pub read_record : Bytes → Result Record
  read_record sealed =
      Results.◌>>=◌ (map_error (wrapped "session: decrypt") (open_sealed s.enc sealed))
        λ plaintext. unmarshal_record s.text plaintext

  unfoldable pub get_session : String → Io W Record
  get_session id = do sealed ← s.backend.get (session_key_prefix +++ id); lift (read_record sealed)

  unfoldable pub delete_session : String → Io W (Unit {0})
  delete_session id = s.backend.del (session_key_prefix +++ id)

  unfoldable pub create_login_transaction : LoginTransaction → ℤ → Io W String
  create_login_transaction txn ttl = do
    state ← generate_id s.rand
    put (login_key_prefix +++ state) (marshal_transaction s.text txn) ttl
    pure state

  unfoldable pub read_transaction : Bytes → Result LoginTransaction
  read_transaction sealed =
      Results.◌>>=◌ (map_error (wrapped "session: decrypt") (open_sealed s.enc sealed))
        λ plaintext. unmarshal_transaction s.text plaintext

  unfoldable pub take_login_transaction : String → Io W LoginTransaction
  take_login_transaction state = do
    sealed ← s.backend.get_del (login_key_prefix +++ state)
    lift (read_transaction sealed)
