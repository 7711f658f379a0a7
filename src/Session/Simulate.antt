-- ===== src/Session/Simulate.antt =====
-- Each call of the store, with whatever outcome, is one that the tables of Session/Spec allow.
use tenant_deck.Base.{
  ℤ, String, ◌+++◌, ◌≡◌, ◌⊎◌, true, false, none, Result, ok, inl, inr, Result-cases, Bool-cases,
  arith, is_positive, is_error, not_found, str_eq, eq_iff, if◌then◌else◌,
}
use tenant_deck.Session.Records.{Record, LoginTransaction}
use tenant_deck.Session.Crypto.{Bytes, open_sealed}
use tenant_deck.Session.Codec.{
  marshal_record, marshal_transaction, unmarshal-marshal_record, unmarshal-marshal_transaction,
}
use tenant_deck.Session.RoundTrip.{IsSound}
use tenant_deck.Session.Spec.{Tables, Action, Spec}
use tenant_deck.Session.Tables.{View}
use tenant_deck.Session.Creates.{Created, nothing, written, create_under-Created}
use tenant_deck.Session.Shows.{
  Shows, Simulated, simulate, Shows-session, Shows-login, Shows-deleted, Shows-taken,
}
use tenant_deck.Session.Store.{
  Store, create_session, get_session, delete_session, create_login_transaction,
  take_login_transaction, read_record, read_transaction, session_key_prefix, login_key_prefix,
}

module _ {W : Type 0} (s : Store W) (sound : IsSound s) where
  -- What a database holds at `w`.
  abbrev pub at : W → View
  at w = sound.kv.view w

  reads_record :
      (rec : Record) (p c : Bytes)
      → marshal_record s.text rec ≡ ok p
      → open_sealed s.enc c ≡ ok p
      → read_record s c ≡ ok rec
  unfolding read_record
  reads_record rec p c printed opens =
      rw opens (unmarshal-marshal_record s.text sound.text rec p printed)

  reads_transaction :
      (txn : LoginTransaction) (p c : Bytes)
      → marshal_transaction s.text txn ≡ ok p
      → open_sealed s.enc c ≡ ok p
      → read_transaction s c ≡ ok txn
  unfolding read_transaction
  reads_transaction txn p c printed opens =
      rw opens (unmarshal-marshal_transaction s.text sound.text txn p printed)

  Created-Simulated :
      (rec : Record) (w : W) (a : Tables) (answer : Result String × W)
      → Shows s (at w) a
      → Created s sound session_key_prefix (marshal_record s.text rec) w answer
      → Simulated s a (Action.created rec answer.0) (at answer.1)
  Created-Simulated rec w a _ shows (nothing e w' same) =
      simulate s a a _ (at w) (at w') (Spec.not_created rec e) shows λ j. inr (same j)
  Created-Simulated rec w a _ shows (written r id p c w' told printed opens added) =
      let after = Shows-session s id c rec (at w) a shows (reads_record rec p c printed opens) in
      elim told [
        | inl fine ↦
            rw fine (simulate s a _ _ _ (at w') (Spec.created rec id) after λ j. inr (added j))
        | inr (e, failed) ↦
            rw failed
              (simulate s a _ _ _ (at w') (Spec.half_created rec id e) after λ j. inr (added j))
      ]

  pub create_session-Simulated :
      (rec : Record) (ttl : ℤ) (w : W) (a : Tables)
      → is_positive ttl ≡ true
      → Shows s (at w) a
      → Simulated s a
          (Action.created rec (create_session s rec ttl w).0)
          (at (create_session s rec ttl w).1)
  unfolding create_session
  create_session-Simulated rec ttl w a positive shows =
      Created-Simulated rec w a _ shows
        (create_under-Created s sound session_key_prefix (marshal_record s.text rec) ttl w positive)

  Login-Simulated :
      (txn : LoginTransaction) (w : W) (a : Tables) (answer : Result String × W)
      → Shows s (at w) a
      → Created s sound login_key_prefix (marshal_transaction s.text txn) w answer
      → Simulated s a (Action.login_started txn answer.0) (at answer.1)
  Login-Simulated txn w a _ shows (nothing e w' same) =
      simulate s a a _ (at w) (at w') (Spec.login_not_started txn e) shows λ j. inr (same j)
  Login-Simulated txn w a _ shows (written r id p c w' told printed opens added) =
      let after = Shows-login s id c txn (at w) a shows (reads_transaction txn p c printed opens) in
      elim told [
        | inl fine ↦
            rw fine
              (simulate s a _ _ _ (at w') (Spec.login_started txn id) after λ j. inr (added j))
        | inr (e, failed) ↦
            rw failed (
              simulate s a _ _ _ (at w') (Spec.login_half_started txn id e) after
                λ j. inr (added j))
      ]

  pub login_started-Simulated :
      (txn : LoginTransaction) (ttl : ℤ) (w : W) (a : Tables)
      → is_positive ttl ≡ true
      → Shows s (at w) a
      → Simulated s a
          (Action.login_started txn (create_login_transaction s txn ttl w).0)
          (at (create_login_transaction s txn ttl w).1)
  unfolding create_login_transaction
  login_started-Simulated txn ttl w a positive shows = Login-Simulated txn w a _ shows (
      create_under-Created s sound login_key_prefix (marshal_transaction s.text txn) ttl w positive)

  pub get_session-Simulated :
      (id : String) (w : W) (a : Tables)
      → Shows s (at w) a
      → Simulated s a (Action.got id (get_session s id w).0) (at (get_session s id w).1)
  unfolding get_session
  get_session-Simulated id w a shows =
      let key = session_key_prefix +++ id in
      let kept : (j : String)
          → (at (s.backend.get key w).1 j ≡ none) ⊎ (at (s.backend.get key w).1 j ≡ at w j) =
        λ j. inr (sound.kv.get_keeps key j w) in
      elim (Result-cases (s.backend.get key w).0) [
        | inl (v, answered) ↦ elim (shows.sessions id) [
          | inl (gone, no_entry) ↦ absurd (ground (arith, sound.kv.get_ok key w v answered))
          | inr (c, rec, there, entry, reads) ↦
              let same : v ≡ c = ground (arith, sound.kv.get_ok key w v answered) in
              rw (answered, same, reads)
                (simulate s a a _ (at w) _ (Spec.got id rec entry) shows kept)
        ]
        | inr (e, refused) ↦
            let told : (a.sessions id ≡ none) ⊎ (is_error e not_found ≡ false) =
              elim (shows.sessions id) [
                | inl (gone, no_entry) ↦ inl no_entry
                | inr (c, rec, there, entry, reads) ↦ inr (sound.kv.get_err key w c e there refused)
              ] in
            rw refused (simulate s a a _ (at w) _ (Spec.not_got id e told) shows kept)
      ]

  pub delete_session-Simulated :
      (id : String) (w : W) (a : Tables)
      → Shows s (at w) a
      → Simulated s a (Action.deleted id (delete_session s id w).0) (at (delete_session s id w).1)
  unfolding delete_session
  delete_session-Simulated id w a shows =
      let key = session_key_prefix +++ id in
      elim (Result-cases (s.backend.del key w).0) [
        | inl (tt, done) ↦ rw done (
            simulate s a _ _ _ (at (s.backend.del key w).1) (Spec.deleted id)
              (Shows-deleted s id (at w) a shows) λ j. inr (sound.kv.del_ok key j w done))
        | inr (e, failed) ↦ rw failed (
            simulate s a a _ (at w) (at (s.backend.del key w).1) (Spec.not_deleted id e) shows
              λ j. sound.kv.del_drops key j w)
      ]

  taken_drops :
      (key : String) (w : W)
      → at (s.backend.get_del key w).1 key ≡ none
      → (j : String)
      → (at (s.backend.get_del key w).1 j ≡ none)
        ⊎ (at (s.backend.get_del key w).1 j ≡ (if str_eq key j then none else at w j))
  taken_drops key w gone j = elim (Bool-cases (str_eq key j)) [
    | inl this ↦ inl (rw (← (eq_iff key j).0 this) gone)
    | inr other ↦ rw other (sound.kv.get_del_drops key j w)
  ]

  pub take-Simulated :
      (id : String) (w : W) (a : Tables)
      → Shows s (at w) a
      → Simulated s a
          (Action.login_taken id (take_login_transaction s id w).0)
          (at (take_login_transaction s id w).1)
  unfolding take_login_transaction
  take-Simulated id w a shows =
      let key = login_key_prefix +++ id in
      elim (Result-cases (s.backend.get_del key w).0) [
        | inr (e, failed) ↦ rw failed (
            simulate s a a _ (at w) (at (s.backend.get_del key w).1) (Spec.login_not_taken id e)
              shows λ j. sound.kv.get_del_drops key j w)
        | inl (v, answered) ↦
            let (held, gone_now) = sound.kv.get_del_ok key w v answered in
            elim (shows.logins id) [
              | inl (gone, no_entry) ↦ absurd (ground (arith, held))
              | inr (c, txn, there, entry, reads) ↦
                  let same : v ≡ c = ground (arith, held) in
                  rw (answered, same, reads)
                    (simulate s a _ _ _ (at (s.backend.get_del key w).1)
                      (Spec.login_taken id txn entry) (Shows-taken s id (at w) a shows)
                      (taken_drops key w gone_now))
            ]
      ]
