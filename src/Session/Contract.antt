-- ===== src/Session/Contract.antt =====
-- What the store relies on: a key/value service whose calls are atomic, an AEAD cipher and a random
-- source. Calls of the program are apart in time; what expires in between is a step of its own.
use tenant_deck.Base.{
  ℕ, ℤ, String, true, false, Option, none, some, ok, err, Error, not_found, ◌≡◌, ◌⊎◌, str_eq,
  is_positive, if◌then◌else◌, length, is_error,
}
use tenant_deck.Session.Crypto.{Bytes, Aead, Random}
use tenant_deck.Session.Backend.{Backend}

-- AES-256-GCM: a sealed text opens to itself, and nothing else opens.
pub record IsAead (a : Aead) : Type 0 where
  pub opens : (n p : Bytes) → a.open_with n (a.seal_with n p) ≡ ok p
  pub authentic : (n c p : Bytes) → a.open_with n c ≡ ok p → c ≡ a.seal_with n p

-- io.ReadFull gives as many bytes as were asked for.
pub record IsRandom {W : Type 0} (r : Random W) : Type 0 where
  pub full : (n : ℕ) (w : W) (b : Bytes) → (r.read_full n w).0 ≡ ok b → length b ≡ n

-- The live value of each key, and what each call does to it. A failed write may have been made or
-- not; a read changes nothing; calls of one key leave the others.
pub record IsKeyValue {W : Type 0} (b : Backend W) : Type 0 where
  pub view : W → String → Option Bytes
  pub get_ok : (k : String) (w : W) (v : Bytes) → (b.get k w).0 ≡ ok v → view w k ≡ some v
  pub get_err :
      (k : String) (w : W) (v : Bytes) (e : Error)
      → view w k ≡ some v
      → (b.get k w).0 ≡ err e
      → is_error e not_found ≡ false
  pub get_keeps : (k j : String) (w : W) → view (b.get k w).1 j ≡ view w j
  pub set_ok :
      (k j : String) (v : Bytes) (ttl : ℤ) (w : W)
      → is_positive ttl ≡ true
      → (b.set k v ttl w).0 ≡ ok tt
      → view (b.set k v ttl w).1 j ≡ (if str_eq k j then some v else view w j)
  pub set_frame :
      (k j : String) (v : Bytes) (ttl : ℤ) (w : W)
      → str_eq k j ≡ false
      → view (b.set k v ttl w).1 j ≡ view w j
  pub set_one :
      (k : String) (v : Bytes) (ttl : ℤ) (w : W)
      → (view (b.set k v ttl w).1 k ≡ some v) ⊎ (view (b.set k v ttl w).1 k ≡ view w k)
  pub del_ok :
      (k j : String) (w : W)
      → (b.del k w).0 ≡ ok tt
      → view (b.del k w).1 j ≡ (if str_eq k j then none else view w j)
  pub del_drops :
      (k j : String) (w : W) → (view (b.del k w).1 j ≡ none) ⊎ (view (b.del k w).1 j ≡ view w j)
  pub get_del_ok :
      (k : String) (w : W) (v : Bytes)
      → (b.get_del k w).0 ≡ ok v
      → (view w k ≡ some v) × (view (b.get_del k w).1 k ≡ none)
  pub get_del_drops :
      (k j : String) (w : W)
      → (view (b.get_del k w).1 j ≡ none) ⊎ (view (b.get_del k w).1 j ≡ view w j)

-- The random source is no part of the key/value service.
pub record IsApart {W : Type 0} (b : Backend W) (r : Random W) (kv : IsKeyValue b) : Type 0 where
  pub read_keeps : (n : ℕ) (j : String) (w : W) → kv.view (r.read_full n w).1 j ≡ kv.view w j
