-- ===== src/Session/OneUse.antt =====
-- What is gone stays gone: a state is redeemed once, and a deleted session is not read again,
-- whatever happens in between, as long as its identifier is not drawn anew.
use tenant_deck.Base.{
  ℤ, String, ◌+++◌, ◌≡◌, ◌⊎◌, inl, inr, false, none, ok, err, Result-cases, arith, str_eq, ◌∙◌,
  Error, eq_refl,
}
use tenant_deck.Session.Records.{Record, LoginTransaction}
use tenant_deck.Session.Codec.{marshal_record, marshal_transaction}
use tenant_deck.Session.Contract.{IsKeyValue, IsApart}
use tenant_deck.Session.Puts.{put_frame, generate_id_keeps}
use tenant_deck.Session.Store.{
  Store, put, generate_id, create_session, get_session, delete_session, create_login_transaction,
  take_login_transaction, session_key_prefix, login_key_prefix,
}

module _ {W : Type 0} (s : Store W) (kv : IsKeyValue s.backend) where
  -- No identifier that is drawn at `w` gives, behind `prefix`, the key `k`.
  abbrev pub NotDrawn : String → W → String → Type 0
  NotDrawn prefix w k =
      (id : String) → (generate_id s.rand w).0 ≡ ok id → str_eq (prefix +++ id) k ≡ false

  -- One call of the store by any replica, or the passing of time, in which keys expire.
  pub data Step (k : String) : W → W → Type 0 where
    created :
        (rec : Record) (ttl : ℤ) (w : W)
        → NotDrawn session_key_prefix w k
        → Step k w (create_session s rec ttl w).1
    got : (id : String) (w : W) → Step k w (get_session s id w).1
    deleted : (id : String) (w : W) → Step k w (delete_session s id w).1
    login_started :
        (txn : LoginTransaction) (ttl : ℤ) (w : W)
        → NotDrawn login_key_prefix w k
        → Step k w (create_login_transaction s txn ttl w).1
    login_taken : (state : String) (w : W) → Step k w (take_login_transaction s state w).1
    expired :
        (w w' : W)
        → ((j : String) → (kv.view w' j ≡ none) ⊎ (kv.view w' j ≡ kv.view w j))
        → Step k w w'

  pub data Run (k : String) (w : W) : W → Type 0 where
    here : Run k w w
    next : {u v : W} → Run k w u → Step k u v → Run k w v

  module _ (apart : IsApart s.backend s.rand kv) where
    pub create_session_frame :
        (k : String) (rec : Record) (ttl : ℤ) (w : W)
        → NotDrawn session_key_prefix w k
        → kv.view (create_session s rec ttl w).1 k ≡ kv.view w k
    unfolding create_session
    create_session_frame k rec ttl w ne = elim (Result-cases (generate_id s.rand w).0) [
      | inl (id, e) ↦
          elim (Result-cases
            (put s (session_key_prefix +++ id) (marshal_record s.text rec) ttl
              (generate_id s.rand w).1).0) [
                | inl (u, p) ↦
                    rw (e, p)
                      (put_frame s kv apart _ k _ ttl _ (ne id e)
                        ∙ generate_id_keeps s kv apart k w)
                | inr (x, p) ↦
                    rw (e, p)
                      (put_frame s kv apart _ k _ ttl _ (ne id e)
                        ∙ generate_id_keeps s kv apart k w)
              ]
      | inr (x, e) ↦ rw e (generate_id_keeps s kv apart k w)
    ]

    create_login_transaction_frame :
        (k : String) (txn : LoginTransaction) (ttl : ℤ) (w : W)
        → NotDrawn login_key_prefix w k
        → kv.view (create_login_transaction s txn ttl w).1 k ≡ kv.view w k
    unfolding create_login_transaction
    create_login_transaction_frame k txn ttl w ne = elim (Result-cases (generate_id s.rand w).0) [
      | inl (id, e) ↦
          elim (Result-cases
            (put s (login_key_prefix +++ id) (marshal_transaction s.text txn) ttl
              (generate_id s.rand w).1).0) [
                | inl (u, p) ↦
                    rw (e, p)
                      (put_frame s kv apart _ k _ ttl _ (ne id e)
                        ∙ generate_id_keeps s kv apart k w)
                | inr (x, p) ↦
                    rw (e, p)
                      (put_frame s kv apart _ k _ ttl _ (ne id e)
                        ∙ generate_id_keeps s kv apart k w)
              ]
      | inr (x, e) ↦ rw e (generate_id_keeps s kv apart k w)
    ]

    get_session_frame : (id k : String) (w : W) → kv.view (get_session s id w).1 k ≡ kv.view w k
    unfolding get_session
    get_session_frame id k w = elim (Result-cases (s.backend.get (session_key_prefix +++ id) w).0) [
      | inl (c, e) ↦ rw e (kv.get_keeps _ k w)
      | inr (x, e) ↦ rw e (kv.get_keeps _ k w)
    ]

    take_drops :
        (state k : String) (w : W)
        → (kv.view (take_login_transaction s state w).1 k ≡ none)
          ⊎ (kv.view (take_login_transaction s state w).1 k ≡ kv.view w k)
    unfolding take_login_transaction
    take_drops state k w =
        elim (Result-cases (s.backend.get_del (login_key_prefix +++ state) w).0) [
          | inl (c, e) ↦ rw e (kv.get_del_drops _ k w)
          | inr (x, e) ↦ rw e (kv.get_del_drops _ k w)
        ]

    Step-absent : {k : String} {w w' : W} → Step k w w' → kv.view w k ≡ none → kv.view w' k ≡ none
    unfolding delete_session
    Step-absent {k} (created rec ttl w ne) h = create_session_frame k rec ttl w ne ∙ h
    Step-absent {k} (got id w) h = get_session_frame id k w ∙ h
    Step-absent {k} (deleted id w) h = ground (arith, kv.del_drops (session_key_prefix +++ id) k w)
    Step-absent {k} (login_started txn ttl w ne) h =
        create_login_transaction_frame k txn ttl w ne ∙ h
    Step-absent {k} (login_taken state w) h = ground (arith, take_drops state k w)
    Step-absent {k} (expired w w' fades) h = ground (arith, fades k)

    pub Run-absent : {k : String} {w w' : W} → Run k w w' → kv.view w k ≡ none → kv.view w' k ≡ none
    Run-absent here h = h
    Run-absent (next r st) h = Step-absent st (Run-absent r h)

    pub take-absent :
        (state : String) (w : W) (txn : LoginTransaction)
        → (take_login_transaction s state w).0 ≡ ok txn
        → kv.view (take_login_transaction s state w).1 (login_key_prefix +++ state) ≡ none
    unfolding take_login_transaction
    take-absent state w txn h =
        elim (Result-cases (s.backend.get_del (login_key_prefix +++ state) w).0) [
          | inl (c, e) ↦ rw e ((kv.get_del_ok _ w c e).1)
          | inr (x, e) ↦ ground arith
        ]

    pub take_of_absent :
        (state : String) (w : W)
        → kv.view w (login_key_prefix +++ state) ≡ none
        → (e : Error) × ((take_login_transaction s state w).0 ≡ err e)
    unfolding take_login_transaction
    take_of_absent state w h =
        elim (Result-cases (s.backend.get_del (login_key_prefix +++ state) w).0) [
          | inl (c, e) ↦ absurd (ground (arith, (kv.get_del_ok _ w c e).0))
          | inr (x, e) ↦ (x, rw e)
        ]

    pub get_of_absent :
        (id : String) (w : W)
        → kv.view w (session_key_prefix +++ id) ≡ none
        → (e : Error) × ((get_session s id w).0 ≡ err e)
    unfolding get_session
    get_of_absent id w h = elim (Result-cases (s.backend.get (session_key_prefix +++ id) w).0) [
      | inl (c, e) ↦ absurd (ground (arith, kv.get_ok _ w c e))
      | inr (x, e) ↦ (x, rw e)
    ]

-- Once a login state has been redeemed, every later attempt to redeem it is an error, after any
-- calls of the store and any expiry, as long as no new login draws that state again.
pub one_use :
    {W : Type 0} (s : Store W) (kv : IsKeyValue s.backend)
    → IsApart s.backend s.rand kv
    → (state : String) (w w' : W) (txn : LoginTransaction)
    → (take_login_transaction s state w).0 ≡ ok txn
    → Run s kv (login_key_prefix +++ state) (take_login_transaction s state w).1 w'
    → (e : Error) × ((take_login_transaction s state w').0 ≡ err e)
one_use s kv apart state w w' txn taken run =
    take_of_absent s kv apart state w'
      (Run-absent s kv apart run (take-absent s kv apart state w txn taken))

-- Once a session has been deleted, every later read of it is an error, after any calls of the store
-- and any expiry, as long as no new session draws its identifier again.
pub delete_is_final :
    {W : Type 0} (s : Store W) (kv : IsKeyValue s.backend)
    → IsApart s.backend s.rand kv
    → (id : String) (w w' : W) → (delete_session s id w).0 ≡ ok tt
    → Run s kv (session_key_prefix +++ id) (delete_session s id w).1 w'
    → (e : Error) × ((get_session s id w').0 ≡ err e)
unfolding delete_session
delete_is_final s kv apart id w w' gone run =
    get_of_absent s kv apart id w'
      (Run-absent s kv apart run (kv.del_ok _ _ w gone ∙ rw (eq_refl (session_key_prefix +++ id))))
