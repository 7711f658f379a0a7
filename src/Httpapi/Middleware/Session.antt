-- ===== src/Httpapi/Middleware/Session.antt =====
-- The session check fails closed.
use tenant_deck.Base.{
  String, Bool, ◌≡◌, ◌⊎◌, inl, inr, none, some, ok, err, Error, arith, Option-cases, Result-cases,
  [], ◌∷◌,
}
use tenant_deck.Std.Http.{Request, http_error, text}
use tenant_deck.Std.Handler.{Handler, Conn, serve}
use tenant_deck.Session.Records.{Record}
use tenant_deck.Session.Store.{Store, get_session}
use tenant_deck.Auth.Cookies.{session_cookie_name}
use tenant_deck.Httpapi.Middleware.{require_session}

module _ {W : Type 0} (store : Store W) (insecure : Bool)
    (next_handler : Request → Handler W (Unit {0})) (r : Request) (w : W) where
  -- The handler behind the check runs, with the record of the session that the cookie names.
  pub record IsAdmitted (c : Conn W) : Type 0 where
    pub id : String
    pub rec : Record
    pub carried : r.cookie (session_cookie_name insecure) ≡ some id
    pub found : (get_session store id w).0 ≡ ok rec
    pub handled :
        c ≡ serve (next_handler (record r { session = some rec })) (get_session store id w).1

  -- The handler behind the check does not run: the answer is 401 and says nothing else, and at most a
  -- session has been looked up without success.
  pub record IsRefused (c : Conn W) : Type 0 where
    pub status : c.writer.status ≡ some 401
    pub body : c.writer.body ≡ text "unauthorized" ∷ []
    pub world :
        ((r.cookie (session_cookie_name insecure) ≡ none) × (c.world ≡ w))
        ⊎ ((id : String) × (e : Error) × (r.cookie (session_cookie_name insecure) ≡ some id)
            × ((get_session store id w).0 ≡ err e)
            × (c.world ≡ (get_session store id w).1))

  -- Either the cookie names a session that the store gives, and the handler behind the check runs
  -- with its record; or the handler does not run and the answer is a bare 401, whether the cookie is
  -- missing, the session is unknown or unreadable, or the store failed.
  pub require_session_closed :
      IsAdmitted (serve (require_session store insecure next_handler r) w)
      ⊎ IsRefused (serve (require_session store insecure next_handler r) w)
  unfolding require_session http_error
  require_session_closed = elim (Option-cases (r.cookie (session_cookie_name insecure))) [
    | inl missing ↦
        inr (record { status = rw missing; body = rw missing; world = inl (missing, rw missing) })
    | inr (id, carried) ↦ elim (Result-cases (get_session store id w).0) [
      | inl (rec, found) ↦
          inl (record {
            id = id;
            rec = rec;
            carried = carried;
            found = found;
            handled = ground arith;
          })
      | inr (e, failed) ↦ inr (record {
        status = ground arith;
        body = ground arith;
        world = inr (id, e, carried, failed, ground arith);
      })
    ]
  ]
