-- ===== src/Httpapi/Middleware/SignedIn.antt =====
-- A login and the requests that follow it.
use tenant_deck.Base.{
  Bool, String, ℤ, ◌≡◌, ◌⊎◌, ◌∙◌, sym, ap, false, some, ok, err, Error, [], ◌∷◌, inl, inr, arith,
  is_error, not_found,
}
use tenant_deck.Std.Http.{Request}
use tenant_deck.Std.Handler.{serve}
use tenant_deck.Std.Mux.{HandlerFunc}
use tenant_deck.Session.Records.{Record}
use tenant_deck.Session.Store.{Store, get_session}
use tenant_deck.Session.RoundTrip.{
  IsSound, IsStored, create_session-IsStored, get_session_of_IsStored,
}
use tenant_deck.Auth.Cookies.{session_cookie, session_cookie_name, cleared_login_state_cookie}
use tenant_deck.Auth.Oidc.{AuthHandler, callback_handler}
use tenant_deck.Auth.Oidc.Callback.{IsLogin, callback-IsLogin, record_of}
use tenant_deck.Httpapi.Middleware.{require_session}

admitted :
    {W : Type 0} (store : Store W) (insecure : Bool) (next_handler : HandlerFunc W) (q : Request)
    (v : W) (id : String) (rec : Record)
    → q.cookie (session_cookie_name insecure) ≡ some id
    → (get_session store id v).0 ≡ ok rec
    → serve (require_session store insecure next_handler q) v
      ≡ serve (next_handler (record q { session = some rec })) (get_session store id v).1
unfolding require_session
admitted store insecure next_handler q v id rec carried found = ground arith

module _ {W : Type 0} (h : AuthHandler W) (sound : IsSound h.store) (r : Request) (w : W) where
  logged_in :
      (login : IsLogin h r w (serve (callback_handler h r) w))
      → IsStored h.store sound
          (serve (callback_handler h r) w).world
          login.opened.id
          (record_of h login.tokens login.opened.csrf login.opened.now)
  logged_in login = rw login.opened.world (
      create_session-IsStored h.store sound _ _ _ login.opened.id login.opened.lives
        login.opened.stored)

  -- What a later request with the session cookie meets behind the session check: the handler, with
  -- the record of the login; or a failure of the backend other than "not found".
  abbrev pub Meets :
      IsLogin h r w (serve (callback_handler h r) w) → HandlerFunc W → Request → Type 0
  Meets login next_handler q =
      let after = (serve (callback_handler h r) w).world in
      let rec = record_of h login.tokens login.opened.csrf login.opened.now in
      let looked_up = get_session h.store login.opened.id after in
      (serve (require_session h.store h.insecure next_handler q) after
        ≡ serve (next_handler (record q { session = some rec })) looked_up.1)
      ⊎ ((e : Error) × (looked_up.0 ≡ err e) × (is_error e not_found ≡ false))

  meets :
      (login : IsLogin h r w (serve (callback_handler h r) w)) (next_handler : HandlerFunc W)
      (q : Request)
      → q.cookie (session_cookie_name h.insecure) ≡ some login.opened.id
      → Meets login next_handler q
  meets login next_handler q carried =
      elim (get_session_of_IsStored h.store sound _ _ _ (logged_in login)) [
        | inl found ↦ inl (admitted h.store h.insecure next_handler q _ _ _ carried found)
        | inr failed ↦ inr failed
      ]

  same_id :
      (login : IsLogin h r w (serve (callback_handler h r) w)) (id : String) (ttl : ℤ)
      → (serve (callback_handler h r) w).writer.cookies
        ≡ cleared_login_state_cookie h.insecure ∷ session_cookie h.insecure id ttl ∷ []
      → login.opened.id ≡ id
  same_id login id ttl set = ground (arith, login.opened.cookies)

  -- After a callback that answers with a redirect, a request that carries the session cookie of that
  -- answer reaches the handler behind the session check with the record of that login: the subject
  -- and the ID token of the exchange. Only a failure of the backend other than "not found" is in the
  -- way.
  pub callback_lets_in :
      (next_handler : HandlerFunc W) (q : Request) (id : String) (ttl : ℤ)
      → (serve (callback_handler h r) w).writer.status ≡ some 302
      → (serve (callback_handler h r) w).writer.cookies
        ≡ cleared_login_state_cookie h.insecure ∷ session_cookie h.insecure id ttl ∷ []
      → q.cookie (session_cookie_name h.insecure) ≡ some id
      → (login : IsLogin h r w (serve (callback_handler h r) w)) × Meets login next_handler q
  callback_lets_in next_handler q id ttl redirected set carried =
      let login = callback-IsLogin h r w redirected in
      (login, meets login next_handler q (carried ∙ ap some (sym (same_id login id ttl set))))
