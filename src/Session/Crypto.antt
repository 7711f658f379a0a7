-- ===== src/Session/Crypto.antt =====
-- internal/session/crypto.go: sealing payloads with AES-256-GCM. The cipher is a parameter.
use tenant_deck.Base.{
  ℕ, List, ◌++◌, length, take, drop, ltb, not, ◌==◌, Result, ok, err, message, sentinel,
  ciphertext_too_short, if◌then◌else◌,
}
use tenant_deck.Base.Io.{Io, pure, ◌>>=◌}
use tenant_deck.Base.Results

abbrev pub Bytes : Type 0
Bytes = List ℕ

-- cipher.AEAD: `seal_with` and `open_with` take the nonce and the text, with no additional data.
pub record Aead : Type 0 where
  pub nonce_size : ℕ
  pub seal_with : Bytes → Bytes → Bytes
  pub open_with : Bytes → Bytes → Result Bytes

-- aes.NewCipher and cipher.NewGCM.
pub record Ciphers (Block : Type 0) : Type 0 where
  pub new_cipher : Bytes → Result Block
  pub new_gcm : Block → Result Aead

-- io.ReadFull on the package's randReader: all the bytes, or an error.
pub record Random (W : Type 0) : Type 0 where
  pub read_full : ℕ → Io W Bytes

abbrev pub session_key_size : ℕ
session_key_size = 32

pub record Encryptor : Type 0 where
  pub gcm : Aead

unfoldable pub new_encryptor : {Block : Type 0} → Ciphers Block → Bytes → Result Encryptor
new_encryptor c key =
    if not (length key == session_key_size)
    then err (message "session: encryption key must be 32 bytes")
    else Results.◌>>=◌ (c.new_cipher key)
        λ block. Results.◌>>=◌ (c.new_gcm block) λ gcm. ok (record { gcm = gcm })

-- The nonce stands in front of the sealed text.
unfoldable pub seal : {W : Type 0} → Random W → Encryptor → Bytes → Io W Bytes
seal rand e plaintext = do
  nonce ← rand.read_full e.gcm.nonce_size
  pure (nonce ++ e.gcm.seal_with nonce plaintext)

unfoldable pub open_sealed : Encryptor → Bytes → Result Bytes
open_sealed e ciphertext =
    if ltb (length ciphertext) e.gcm.nonce_size
    then err (sentinel ciphertext_too_short)
    else e.gcm.open_with (take e.gcm.nonce_size ciphertext) (drop e.gcm.nonce_size ciphertext)
