-- ===== src/Session/RoundTrip.antt =====
-- What was created is read back, until it is deleted, taken or expired.
use tenant_deck.Base.{
  ℤ, String, ◌+++◌, ◌≡◌, ◌⊎◌, true, false, some, ok, err, Error, inl, inr, Result-cases, arith,
  is_positive, not_found, is_error,
}
use tenant_deck.Session.Records.{Record, LoginTransaction}
use tenant_deck.Session.Crypto.{Bytes}
use tenant_deck.Session.Codec.{
  IsJsonText, marshal_record, marshal_transaction, unmarshal-marshal_record,
  unmarshal-marshal_transaction,
}
use tenant_deck.Session.Contract.{IsAead, IsRandom, IsKeyValue, IsApart}
use tenant_deck.Session.Puts.{put_ok}
use tenant_deck.Session.Store.{
  Store, put, generate_id, create_session, get_session, read_record, create_login_transaction,
  take_login_transaction, read_transaction, session_key_prefix, login_key_prefix,
}

-- The contracts of all that a store reaches.
pub record IsSound {W : Type 0} (s : Store W) : Type 0 where
  pub kv : IsKeyValue s.backend
  pub apart : IsApart s.backend s.rand kv
  pub aead : IsAead s.enc.gcm
  pub random : IsRandom s.rand
  pub text : IsJsonText s.text

module _ {W : Type 0} (s : Store W) (sound : IsSound s) where
  -- The session `id` is there and holds `rec`.
  abbrev pub IsStored : W → String → Record → Type 0
  IsStored w id rec =
      (c : Bytes) × (sound.kv.view w (session_key_prefix +++ id) ≡ some c)
      × (read_record s c ≡ ok rec)

  -- The login transaction `state` is there and holds `txn`.
  abbrev pub IsPending : W → String → LoginTransaction → Type 0
  IsPending w state txn =
      (c : Bytes) × (sound.kv.view w (login_key_prefix +++ state) ≡ some c)
      × (read_transaction s c ≡ ok txn)

  put-IsStored :
      (id : String) (rec : Record) (ttl : ℤ) (w : W)
      → is_positive ttl ≡ true
      → (put s (session_key_prefix +++ id) (marshal_record s.text rec) ttl w).0 ≡ ok tt
      → IsStored (put s (session_key_prefix +++ id) (marshal_record s.text rec) ttl w).1 id rec
  unfolding read_record
  put-IsStored id rec ttl w positive h =
      let (p, c, m, opens, there) =
        put_ok s sound.kv sound.apart sound.aead sound.random _ _ ttl w positive h in
      (c, there, rw opens (unmarshal-marshal_record s.text sound.text rec p m))

  put-IsPending :
      (state : String) (txn : LoginTransaction) (ttl : ℤ) (w : W)
      → is_positive ttl ≡ true
      → (put s (login_key_prefix +++ state) (marshal_transaction s.text txn) ttl w).0 ≡ ok tt
      → IsPending
          (put s (login_key_prefix +++ state) (marshal_transaction s.text txn) ttl w).1
          state
          txn
  unfolding read_transaction
  put-IsPending state txn ttl w positive h =
      let (p, c, m, opens, there) =
        put_ok s sound.kv sound.apart sound.aead sound.random _ _ ttl w positive h in
      (c, there, rw opens (unmarshal-marshal_transaction s.text sound.text txn p m))

  pub create_session-IsStored :
      (rec : Record) (ttl : ℤ) (w : W) (id : String)
      → is_positive ttl ≡ true
      → (create_session s rec ttl w).0 ≡ ok id
      → IsStored (create_session s rec ttl w).1 id rec
  unfolding create_session
  create_session-IsStored rec ttl w id positive h = elim (Result-cases (generate_id s.rand w).0) [
    | inl (drawn, e) ↦
        elim (Result-cases
          (put s (session_key_prefix +++ drawn) (marshal_record s.text rec) ttl
            (generate_id s.rand w).1).0) [
              | inl (tt, p) ↦
                  let same : drawn ≡ id = ground arith in
                  rw (e, p, ← same) (put-IsStored drawn rec ttl _ positive p)
              | inr (x, p) ↦ ground arith
            ]
    | inr (x, e) ↦ ground arith
  ]

  pub create_login_transaction-IsPending :
      (txn : LoginTransaction) (ttl : ℤ) (w : W) (state : String)
      → is_positive ttl ≡ true
      → (create_login_transaction s txn ttl w).0 ≡ ok state
      → IsPending (create_login_transaction s txn ttl w).1 state txn
  unfolding create_login_transaction
  create_login_transaction-IsPending txn ttl w state positive h =
      elim (Result-cases (generate_id s.rand w).0) [
        | inl (drawn, e) ↦
            elim (Result-cases
              (put s (login_key_prefix +++ drawn) (marshal_transaction s.text txn) ttl
                (generate_id s.rand w).1).0) [
                  | inl (tt, p) ↦
                      let same : drawn ≡ state = ground arith in
                      rw (e, p, ← same) (put-IsPending drawn txn ttl _ positive p)
                  | inr (x, p) ↦ ground arith
                ]
        | inr (x, e) ↦ ground arith
      ]

  pub get_session_of_IsStored :
      (w : W) (id : String) (rec : Record)
      → IsStored w id rec
      → ((get_session s id w).0 ≡ ok rec)
        ⊎ ((e : Error) × ((get_session s id w).0 ≡ err e) × (is_error e not_found ≡ false))
  unfolding get_session
  get_session_of_IsStored w id rec (c, there, reads) =
      elim (Result-cases (s.backend.get (session_key_prefix +++ id) w).0) [
        | inl (v, e) ↦
            inl (let same : v ≡ c = ground (arith, sound.kv.get_ok _ w v e) in rw (e, same) reads)
        | inr (x, e) ↦ inr (x, rw e, sound.kv.get_err _ w c x there e)
      ]

-- A session that was created with a positive lifetime is read back as the record that was stored,
-- or the read reports a failure of the backend other than "not found": never another record.
pub get-create_session :
    {W : Type 0} (s : Store W)
    → IsSound s
    → (rec : Record) (ttl : ℤ) (w : W) (id : String) → is_positive ttl ≡ true
    → (create_session s rec ttl w).0 ≡ ok id
    → ((get_session s id (create_session s rec ttl w).1).0 ≡ ok rec)
      ⊎ ((e : Error) × ((get_session s id (create_session s rec ttl w).1).0 ≡ err e)
          × (is_error e not_found ≡ false))
get-create_session s sound rec ttl w id positive created =
    get_session_of_IsStored s sound _ id rec
      (create_session-IsStored s sound rec ttl w id positive created)

-- A login transaction that was created with a positive lifetime is the one that taking its state
-- gives, whenever the backend answers with a value.
pub take-create_login_transaction :
    {W : Type 0} (s : Store W)
    → IsSound s
    → (txn : LoginTransaction) (ttl : ℤ) (w : W) (state : String) → is_positive ttl ≡ true
    → (create_login_transaction s txn ttl w).0 ≡ ok state
    → (v : Bytes)
    → (s.backend.get_del (login_key_prefix +++ state) (create_login_transaction s txn ttl w).1).0
      ≡ ok v
    → (take_login_transaction s state (create_login_transaction s txn ttl w).1).0 ≡ ok txn
unfolding take_login_transaction
take-create_login_transaction s sound txn ttl w state positive created v answered =
    let (c, there, reads) =
      create_login_transaction-IsPending s sound txn ttl w state positive created in
    let same : v ≡ c = ground (arith, (sound.kv.get_del_ok _ _ v answered).0) in
    rw (answered, same) reads
