-- ===== src/Session/Refine.antt =====
-- The store over a database refines the tables of Session/Spec.
use tenant_deck.Base.{ℤ, String, ◌≡◌, ◌⊎◌, true, none, List, [], ◌∷◌, is_positive}
use tenant_deck.Session.Records.{Record, LoginTransaction}
use tenant_deck.Session.RoundTrip.{IsSound}
use tenant_deck.Session.Spec.{Tables, Action, SpecTrace, here, called, faded}
use tenant_deck.Session.Shows.{Shows, Simulated, Shows-faded}
use tenant_deck.Session.Store.{
  Store, create_session, get_session, delete_session, create_login_transaction,
  take_login_transaction,
}
use tenant_deck.Session.Simulate.{
  at, create_session-Simulated, login_started-Simulated, get_session-Simulated,
  delete_session-Simulated, take-Simulated,
}

module _ {W : Type 0} (s : Store W) (sound : IsSound s) where
  -- The calls of the store by any replica, in the order in which they are made, with what each of
  -- them returned, and the passing of time between them. A lifetime is positive.
  pub data Trace (w : W) : List Action → W → Type 0 where
    start : Trace w [] w
    created :
        {evs : List Action} {u : W}
        → Trace w evs u
        → (rec : Record) (ttl : ℤ) → is_positive ttl ≡ true
        → Trace w
            (Action.created rec (create_session s rec ttl u).0 ∷ evs)
            (create_session s rec ttl u).1
    got :
        {evs : List Action} {u : W}
        → Trace w evs u
        → (id : String)
        → Trace w (Action.got id (get_session s id u).0 ∷ evs) (get_session s id u).1
    deleted :
        {evs : List Action} {u : W}
        → Trace w evs u
        → (id : String)
        → Trace w (Action.deleted id (delete_session s id u).0 ∷ evs) (delete_session s id u).1
    login_started :
        {evs : List Action} {u : W}
        → Trace w evs u
        → (txn : LoginTransaction) (ttl : ℤ) → is_positive ttl ≡ true
        → Trace w
            (Action.login_started txn (create_login_transaction s txn ttl u).0 ∷ evs)
            (create_login_transaction s txn ttl u).1
    login_taken :
        {evs : List Action} {u : W}
        → Trace w evs u
        → (id : String)
        → Trace w
            (Action.login_taken id (take_login_transaction s id u).0 ∷ evs)
            (take_login_transaction s id u).1
    expired :
        {evs : List Action} {u : W}
        → Trace w evs u
        → (v : W) → ((j : String) → (at s sound v j ≡ none) ⊎ (at s sound v j ≡ at s sound u j))
        → Trace w evs v

  -- What the specification allows so far, and the tables that the database shows.
  abbrev pub Refined : Tables → List Action → W → Type 0
  Refined a evs u = (b : Tables) × SpecTrace a evs b × Shows s (at s sound u) b

  extend :
      (a b : Tables) (evs : List Action) (ev : Action) (u : W)
      → SpecTrace a evs b
      → Simulated s b ev (at s sound u)
      → Refined a (ev ∷ evs) u
  extend a b evs ev u before (c, d, allowed, fading, shows) =
      (d, faded (called before allowed) fading, shows)

  -- The encrypted store refines the tables: from a database that shows some tables, any calls of the
  -- store in any order, failed ones included, and any expiry between them return what the
  -- specification allows from these tables, and the database shows the tables that it leads to, if
  -- every lifetime is positive.
  pub store_refines :
      (a : Tables) (w u : W) (evs : List Action)
      → Shows s (at s sound w) a
      → Trace w evs u
      → Refined a evs u
  store_refines a w u _ shows start = (a, here, shows)
  store_refines a w _ _ shows (created before rec ttl positive) =
      let (b, spec, now) = store_refines a w _ _ shows before in
      extend a b _ _ _ spec (create_session-Simulated s sound rec ttl _ b positive now)
  store_refines a w _ _ shows (got before id) =
      let (b, spec, now) = store_refines a w _ _ shows before in
      extend a b _ _ _ spec (get_session-Simulated s sound id _ b now)
  store_refines a w _ _ shows (deleted before id) =
      let (b, spec, now) = store_refines a w _ _ shows before in
      extend a b _ _ _ spec (delete_session-Simulated s sound id _ b now)
  store_refines a w _ _ shows (login_started before txn ttl positive) =
      let (b, spec, now) = store_refines a w _ _ shows before in
      extend a b _ _ _ spec (login_started-Simulated s sound txn ttl _ b positive now)
  store_refines a w _ _ shows (login_taken before id) =
      let (b, spec, now) = store_refines a w _ _ shows before in
      extend a b _ _ _ spec (take-Simulated s sound id _ b now)
  store_refines a w u _ shows (expired before _ drops) =
      let (b, spec, now) = store_refines a w _ _ shows before in
      let (c, fading, after) = Shows-faded s b _ (at s sound u) now drops in
      (c, faded spec fading, after)
