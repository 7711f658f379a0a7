-- ===== src/Auth/Sessions/Logout.antt =====
-- When a logout succeeds, what it ends, and what a refused one leaves alone.
use tenant_deck.Base.{
  String, ◌+++◌, str_eq, ◌≡◌, ◌≢◌, ◌⊎◌, some, ok, err, Error, inl, inr, arith, Result-cases,
  Bool-cases, Option-cases, eq_iff,
}
use mathlib.Core.Path.{subst, sym}
use tenant_deck.Std.Http.{Request, http_error, write_header}
use tenant_deck.Std.Handler.{serve}
use tenant_deck.Session.Records.{Record}
use tenant_deck.Session.Contract.{IsKeyValue, IsApart}
use tenant_deck.Session.OneUse.{Run, delete_is_final}
use tenant_deck.Session.Store.{get_session, delete_session, session_key_prefix}
use tenant_deck.Auth.Cookies.{session_cookie_name, clear_session_cookie}
use tenant_deck.Auth.Oidc.{AuthHandler, constant_time_equal}
use tenant_deck.Auth.Oidc.Callback.{constant_time_equal_iff}
use tenant_deck.Auth.Sessions.{logout_handler}

module _ {W : Type 0} (h : AuthHandler W) (r : Request) (w : W) where
  -- What a successful logout has checked and done: the exact origin, a session under the cookie's
  -- identifier, that session's own token in the header, and the deletion of that session.
  pub record IsLogout : Type 0 where
    pub id : String
    pub rec : Record
    pub origin : r.header "Origin" ≡ h.external_origin
    pub carried : r.cookie (session_cookie_name h.insecure) ≡ some id
    pub found : (get_session h.store id w).0 ≡ ok rec
    pub token : r.header "X-CSRF-Token" ≡ rec.csrf_token
    pub deleted : (delete_session h.store id (get_session h.store id w).1).0 ≡ ok tt
    pub world :
        (serve (logout_handler h r) w).world
        ≡ (delete_session h.store id (get_session h.store id w).1).1

  -- A logout that answers 204 had the right origin, a live session and that session's token, and has
  -- deleted that session.
  pub logout-IsLogout : (serve (logout_handler h r) w).writer.status ≡ some 204 → IsLogout
  unfolding logout_handler http_error write_header clear_session_cookie
  logout-IsLogout e = elim (Bool-cases (str_eq (r.header "Origin") h.external_origin)) [
    | inr foreign ↦ ground arith
    | inl origin ↦ elim (Option-cases (r.cookie (session_cookie_name h.insecure))) [
      | inl missing ↦ ground arith
      | inr (id, carried) ↦ elim (Result-cases (get_session h.store id w).0) [
        | inr (x, failed) ↦ ground arith
        | inl (rec, found) ↦
            let w1 = (get_session h.store id w).1 in
            elim (Bool-cases (constant_time_equal (r.header "X-CSRF-Token") rec.csrf_token)) [
              | inr forged ↦ ground arith
              | inl token ↦ elim (Result-cases (delete_session h.store id w1).0) [
                | inr (x, failed) ↦ ground arith
                | inl (tt, deleted) ↦ record {
                  id = id;
                  rec = rec;
                  origin = (eq_iff _ _).0 origin;
                  carried = carried;
                  found = found;
                  token = (constant_time_equal_iff _ _).0 token;
                  deleted = deleted;
                  world = ground arith;
                }
              ]
            ]
      ]
    ]
  ]

  -- A request with another origin, or without the session's own token, deletes nothing: at most the
  -- session has been read, and the answer is 401 or 403.
  pub logout_refused :
      ((r.header "Origin" ≢ h.external_origin)
        ⊎ ((id : String) (rec : Record)
            → r.cookie (session_cookie_name h.insecure) ≡ some id
            → (get_session h.store id w).0 ≡ ok rec
            → r.header "X-CSRF-Token" ≢ rec.csrf_token))
      → (((serve (logout_handler h r) w).world ≡ w)
          ⊎ ((id : String) × ((serve (logout_handler h r) w).world ≡ (get_session h.store id w).1)))
        × (((serve (logout_handler h r) w).writer.status ≡ some 401)
            ⊎ ((serve (logout_handler h r) w).writer.status ≡ some 403))
  unfolding logout_handler http_error write_header clear_session_cookie
  logout_refused wrong = elim (Bool-cases (str_eq (r.header "Origin") h.external_origin)) [
    | inr foreign ↦ (inl (rw foreign), ground arith)
    | inl origin ↦ elim (Option-cases (r.cookie (session_cookie_name h.insecure))) [
      | inl missing ↦ (inl (ground arith), ground arith)
      | inr (id, carried) ↦ elim (Result-cases (get_session h.store id w).0) [
        | inr (x, failed) ↦ (inr (id, ground arith), ground arith)
        | inl (rec, found) ↦
            elim (Bool-cases (constant_time_equal (r.header "X-CSRF-Token") rec.csrf_token)) [
              | inr forged ↦ (inr (id, ground arith), ground arith)
              | inl token ↦ elim wrong [
                | inl foreign ↦ absurd (foreign ((eq_iff _ _).0 origin))
                | inr forged ↦
                    absurd (forged id rec carried found ((constant_time_equal_iff _ _).0 token))
              ]
            ]
      ]
    ]
  ]

final_of :
    {W : Type 0} (h : AuthHandler W) (kv : IsKeyValue h.store.backend)
    → IsApart h.store.backend h.store.rand kv
    → (r : Request) (w w' : W) (l : IsLogout h r w)
    → Run h.store kv (session_key_prefix +++ l.id) (serve (logout_handler h r) w).world w'
    → (e : Error) × ((get_session h.store l.id w').0 ≡ err e)
final_of h kv apart r w w' l run =
    delete_is_final h.store kv apart l.id _ w' l.deleted (rw l.world at run)

-- After a logout that answered 204, every read of that session is an error, after any calls of the
-- store and any expiry in which its identifier is not drawn anew.
pub logout_is_final :
    {W : Type 0} (h : AuthHandler W) (kv : IsKeyValue h.store.backend)
    → IsApart h.store.backend h.store.rand kv
    → (r : Request) (w w' : W) (id : String) → r.cookie (session_cookie_name h.insecure) ≡ some id
    → (serve (logout_handler h r) w).writer.status ≡ some 204
    → Run h.store kv (session_key_prefix +++ id) (serve (logout_handler h r) w).world w'
    → (e : Error) × ((get_session h.store id w').0 ≡ err e)
logout_is_final h kv apart r w w' id carried e run =
    let l = logout-IsLogout h r w e in
    let same : l.id ≡ id = ground (arith, l.carried) in
    let start = (serve (logout_handler h r) w).world in
    subst (λ x. (e : Error) × ((get_session h.store x w').0 ≡ err e)) same
      (final_of h kv apart r w w' l
        (subst (λ x. Run h.store kv (session_key_prefix +++ x) start w') (sym same) run))
