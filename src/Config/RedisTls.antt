-- ===== src/Config/RedisTls.antt =====
-- internal/config/redis_tls.go: the TLS settings of the connection to Redis.
use tenant_deck.Base.{
  true, false, not, String, Option, none, some, Result, ok, err, message, wrapped, map_error,
  str_eq, ◌≡◌, Option-cases, Result-cases, inl, inr, arith, if◌then◌else◌,
}
use tenant_deck.Base.Io.{Io, pure, lift, ◌>>=◌}
use tenant_deck.Session.Crypto.{Bytes}
use tenant_deck.Session.Backend.{TlsConfig}
use tenant_deck.Config.{Config}

-- `read_file` is os.ReadFile; `append_certs` is AppendCertsFromPEM on an empty pool, none if it adds
-- nothing.
module _ {W P : Type 0} (read_file : String → Io W Bytes) (append_certs : Bytes → Option P) where
  abbrev pub pool_of : Option P → Result (TlsConfig P)
  pool_of none = err (message "redis CA file contains no valid PEM certificates")
  pool_of (some pool) = ok (record { root_cas = some pool })

  abbrev pub read_ca_file : String → Io W Bytes
  read_ca_file name w =
      (map_error (wrapped "reading redis CA file") (read_file name w).0, (read_file name w).1)

  unfoldable pub custom_ca : String → Io W (Option (TlsConfig P))
  custom_ca name = do
    pem_bytes ← read_ca_file name
    tls ← lift (pool_of (append_certs pem_bytes))
    pure (some tls)

  unfoldable pub build_redis_tls_config : Config → Io W (Option (TlsConfig P))
  unfolding custom_ca
  build_redis_tls_config cfg =
      if not cfg.redis_tls
      then pure none
      else if str_eq cfg.redis_ca_file ""
      then pure (some (record { root_cas = none }))
      else custom_ca cfg.redis_ca_file

  -- The pool is what the file of the configuration holds.
  pub record IsPinned (cfg : Config) (tls : Option (TlsConfig P)) (w : W) : Type 0 where
    pub pem_bytes : Bytes
    pub pool : P
    pub file : (read_file cfg.redis_ca_file w).0 ≡ ok pem_bytes
    pub parsed : append_certs pem_bytes ≡ some pool
    pub root_cas : tls ≡ some (record { root_cas = some pool })

  -- If TLS is on and a CA file is set, the settings that are built, if they are, ask for TLS and check a
  -- server against the certificates of that file alone: the pool is what parsing the file added to an
  -- empty one, so the certificates of the system are not trusted beside them, although a comment in
  -- config.go calls those of the file additional ones.
  pub build_redis_tls_config-IsPinned :
      (cfg : Config) (w : W) (tls : Option (TlsConfig P))
      → cfg.redis_tls ≡ true
      → str_eq cfg.redis_ca_file "" ≡ false
      → (build_redis_tls_config cfg w).0 ≡ ok tls
      → IsPinned cfg tls w
  unfolding build_redis_tls_config custom_ca
  build_redis_tls_config-IsPinned cfg w tls on given built =
      elim (Result-cases (read_file cfg.redis_ca_file w).0) [
        | inr (e, unreadable) ↦ ground arith
        | inl (pem_bytes, file) ↦ elim (Option-cases (append_certs pem_bytes)) [
          | inl nothing ↦ ground arith
          | inr (pool, parsed) ↦ record {
            pem_bytes = pem_bytes;
            pool = pool;
            file = file;
            parsed = parsed;
            root_cas = ground arith;
          }
        ]
      ]
