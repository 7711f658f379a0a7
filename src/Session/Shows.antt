-- ===== src/Session/Shows.antt =====
-- Databases that show the tables of Session/Spec, and what each kind of change does to both.
use tenant_deck.Base.{
  String, ◌+++◌, ◌≡◌, ◌⊎◌, false, none, some, ok, arith, str_eq, eq_iff, if◌then◌else◌,
}
use tenant_deck.Session.Records.{Record, LoginTransaction}
use tenant_deck.Session.Crypto.{Bytes}
use tenant_deck.Session.Keys.{str_eq-session-login}
use tenant_deck.Session.Spec.{Tables, with_entry, without_entry, Action, Spec, Fades}
use tenant_deck.Session.Tables.{
  View, Holds, left_of, fades, Holds-left, Holds-set, Holds-drop, Holds-apart,
}
use tenant_deck.Session.Store.{
  Store, read_record, read_transaction, session_key_prefix, login_key_prefix,
}

module _ {W : Type 0} (s : Store W) where
  -- The values of a database are the entries of both tables.
  pub record Shows (v : View) (a : Tables) : Type 0 where
    pub sessions : Holds (read_record s) session_key_prefix v a.sessions
    pub logins : Holds (read_transaction s) login_key_prefix v a.logins

  -- A call may return this, and the tables after it are those of the database, when what has expired
  -- is gone.
  abbrev pub Simulated : Tables → Action → View → Type 0
  Simulated a ev u = (b : Tables) × (c : Tables) × Spec a ev b × Fades b c × Shows u c

  pub Shows-faded :
      (a : Tables) (v u : View)
      → Shows v a
      → ((j : String) → (u j ≡ none) ⊎ (u j ≡ v j))
      → (c : Tables) × Fades a c × Shows u c
  Shows-faded a v u shows drops = (
    record {
      sessions = left_of (read_record s) session_key_prefix u a.sessions;
      logins = left_of (read_transaction s) login_key_prefix u a.logins;
    },
    record {
      sessions = fades (read_record s) session_key_prefix u a.sessions;
      logins = fades (read_transaction s) login_key_prefix u a.logins;
    },
    record {
      sessions = Holds-left _ session_key_prefix v u a.sessions shows.sessions drops;
      logins = Holds-left _ login_key_prefix v u a.logins shows.logins drops;
    },
  )

  pub simulate :
      (a b : Tables) (ev : Action) (v u : View)
      → Spec a ev b
      → Shows v b
      → ((j : String) → (u j ≡ none) ⊎ (u j ≡ v j))
      → Simulated a ev u
  simulate a b ev v u allowed shows drops =
      let (c, fading, after) = Shows-faded b v u shows drops in (b, c, allowed, fading, after)

  session_apart :
      (a b : String) → str_eq (login_key_prefix +++ a) (session_key_prefix +++ b) ≡ false
  session_apart a b = ground (
    arith,
    str_eq-session-login b a,
    eq_iff (login_key_prefix +++ a) (session_key_prefix +++ b),
    eq_iff (session_key_prefix +++ b) (login_key_prefix +++ a),
  )

  pub Shows-session :
      (id : String) (c : Bytes) (rec : Record) (v : View) (a : Tables)
      → Shows v a
      → read_record s c ≡ ok rec
      → Shows
          (λ j. if str_eq (session_key_prefix +++ id) j then some c else v j)
          (record a { sessions = with_entry a.sessions id rec })
  Shows-session id c rec v a shows reads = record {
    sessions =
        Holds-set (read_record s) session_key_prefix id c rec v a.sessions shows.sessions reads;
    logins =
        Holds-apart (read_transaction s) login_key_prefix (session_key_prefix +++ id) (some c) v
          a.logins shows.logins (str_eq-session-login id);
  }

  pub Shows-login :
      (id : String) (c : Bytes) (txn : LoginTransaction) (v : View) (a : Tables)
      → Shows v a
      → read_transaction s c ≡ ok txn
      → Shows
          (λ j. if str_eq (login_key_prefix +++ id) j then some c else v j)
          (record a { logins = with_entry a.logins id txn })
  Shows-login id c txn v a shows reads = record {
    logins = Holds-set (read_transaction s) login_key_prefix id c txn v a.logins shows.logins reads;
    sessions =
        Holds-apart (read_record s) session_key_prefix (login_key_prefix +++ id) (some c) v
          a.sessions shows.sessions (session_apart id);
  }

  pub Shows-deleted :
      (id : String) (v : View) (a : Tables)
      → Shows v a
      → Shows
          (λ j. if str_eq (session_key_prefix +++ id) j then none else v j)
          (record a { sessions = without_entry a.sessions id })
  Shows-deleted id v a shows = record {
    sessions = Holds-drop (read_record s) session_key_prefix id v a.sessions shows.sessions;
    logins =
        Holds-apart (read_transaction s) login_key_prefix (session_key_prefix +++ id) none v
          a.logins shows.logins (str_eq-session-login id);
  }

  pub Shows-taken :
      (id : String) (v : View) (a : Tables)
      → Shows v a
      → Shows
          (λ j. if str_eq (login_key_prefix +++ id) j then none else v j)
          (record a { logins = without_entry a.logins id })
  Shows-taken id v a shows = record {
    logins = Holds-drop (read_transaction s) login_key_prefix id v a.logins shows.logins;
    sessions =
        Holds-apart (read_record s) session_key_prefix (login_key_prefix +++ id) none v a.sessions
          shows.sessions (session_apart id);
  }
