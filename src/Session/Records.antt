-- ===== src/Session/Records.antt =====
-- internal/session/store.go: what is stored for a session and for a login in progress.
use tenant_deck.Base.{ℕ, String}

-- Times are nanoseconds since Go's zero time.
pub record Record : Type 0 where
  pub subject : String
  pub id_token : String
  pub expires_at : ℕ
  pub created_at : ℕ
  pub csrf_token : String

pub record LoginTransaction : Type 0 where
  pub nonce : String
  pub pkce_verifier : String
  pub created_at : ℕ
