-- ===== src/Session/Backend.antt =====
-- internal/session/backend.go and redis_backend.go: the key/value operations of the store, and
-- their implementation by the go-redis client, which is a parameter.
use tenant_deck.Base.{String, ℤ, Option, Result, ok, err, Error, sentinel, not_found}
use tenant_deck.Base.Io.{Io}
use tenant_deck.Session.Crypto.{Bytes}

-- The interface `backend`. A lifetime is in nanoseconds.
pub record Backend (W : Type 0) : Type 0 where
  pub set : String → Bytes → ℤ → Io W (Unit {0})
  pub get : String → Io W Bytes
  pub get_del : String → Io W Bytes
  pub del : String → Io W (Unit {0})
  pub ping : Io W (Unit {0})

-- What a read through go-redis gives: a value, redis.Nil, or another error.
pub data Reply : Type 0 where
  value : Bytes → Reply
  nil : Reply
  failed : Error → Reply

-- The calls of *redis.Client.
pub record RedisClient (W : Type 0) : Type 0 where
  pub set : String → Bytes → ℤ → Io W (Unit {0})
  pub get : String → W → Reply × W
  pub get_del : String → W → Reply × W
  pub del : String → Io W (Unit {0})
  pub ping : Io W (Unit {0})
  pub close : Io W (Unit {0})

abbrev of_reply : Reply → Result Bytes
of_reply (value v) = ok v
of_reply nil = err (sentinel not_found)
of_reply (failed e) = err e

-- A tls.Config: `root_cas` are the certificates that a server is checked against, those of the system
-- if there are none. `P` is the type of *x509.CertPool.
pub record TlsConfig (P : Type 0) : Type 0 where
  pub root_cas : Option P

-- No TLS is a plain connection.
pub record RedisOptions (P : Type 0) : Type 0 where
  pub addr : String
  pub username : String
  pub password : String
  pub tls_config : Option (TlsConfig P)

module _ {W : Type 0} (client : RedisClient W) where
  unfoldable pub redis_get : String → Io W Bytes
  redis_get key w = (of_reply (client.get key w).0, (client.get key w).1)

  unfoldable pub redis_get_del : String → Io W Bytes
  redis_get_del key w = (of_reply (client.get_del key w).0, (client.get_del key w).1)

  abbrev pub redis_close : Io W (Unit {0})
  redis_close = client.close

  unfoldable pub redis_backend : Backend W
  unfolding redis_get redis_get_del
  redis_backend = record {
    set = client.set;
    get = redis_get;
    get_del = redis_get_del;
    del = client.del;
    ping = client.ping;
  }

-- `new_client` is redis.NewClient.
abbrev pub new_redis_backend :
    {W P : Type 0} → (RedisOptions P → RedisClient W) → RedisOptions P → Backend W
new_redis_backend new_client opts = redis_backend (new_client opts)
