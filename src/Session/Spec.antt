-- ===== src/Session/Spec.antt =====
-- What internal/session promises, with no word of keys, ciphers or bytes: a table of sessions and one
-- of login transactions.
use tenant_deck.Base.{
  String, Option, none, some, Result, ok, err, Error, List, [], ◌∷◌, not_found, is_error, str_eq,
  ◌≡◌, ◌⊎◌, false, if◌then◌else◌,
}
use tenant_deck.Session.Records.{Record, LoginTransaction}

abbrev pub Table : Type 0 → Type 0
Table A = String → Option A

abbrev pub with_entry : {A : Type 0} → Table A → String → A → Table A
with_entry m id a k = if str_eq id k then some a else m k

abbrev pub without_entry : {A : Type 0} → Table A → String → Table A
without_entry m id k = if str_eq id k then none else m k

pub record Tables : Type 0 where
  pub sessions : Table Record
  pub logins : Table LoginTransaction

abbrev pub no_entries : Tables
no_entries = record { sessions = λ _. none; logins = λ _. none }

-- A call with what it returned.
pub data Action : Type 0 where
  created : Record → Result String → Action
  got : String → Result Record → Action
  deleted : String → Result (Unit {0}) → Action
  login_started : LoginTransaction → Result String → Action
  login_taken : String → Result LoginTransaction → Action

-- What a call may return, and what it leaves. A creation that fails may have stored its value, under
-- an identifier that the caller is not told. A read fails as "not found" only where there is nothing.
pub data Spec (a : Tables) : Action → Tables → Type 0 where
  created :
      (rec : Record) (id : String)
      → Spec a (Action.created rec (ok id)) (record a { sessions = with_entry a.sessions id rec })
  not_created : (rec : Record) (e : Error) → Spec a (Action.created rec (err e)) a
  half_created :
      (rec : Record) (id : String) (e : Error)
      → Spec a (Action.created rec (err e)) (record a { sessions = with_entry a.sessions id rec })
  got : (id : String) (rec : Record) → a.sessions id ≡ some rec → Spec a (Action.got id (ok rec)) a
  not_got :
      (id : String) (e : Error)
      → (a.sessions id ≡ none) ⊎ (is_error e not_found ≡ false)
      → Spec a (Action.got id (err e)) a
  deleted :
      (id : String)
      → Spec a (Action.deleted id (ok tt)) (record a { sessions = without_entry a.sessions id })
  not_deleted : (id : String) (e : Error) → Spec a (Action.deleted id (err e)) a
  login_started :
      (txn : LoginTransaction) (id : String)
      → Spec a (Action.login_started txn (ok id)) (record a { logins = with_entry a.logins id txn })
  login_not_started :
      (txn : LoginTransaction) (e : Error) → Spec a (Action.login_started txn (err e)) a
  login_half_started :
      (txn : LoginTransaction) (id : String) (e : Error)
      → Spec a (Action.login_started txn (err e)) (record a { logins = with_entry a.logins id txn })
  login_taken :
      (id : String) (txn : LoginTransaction)
      → a.logins id ≡ some txn
      → Spec a (Action.login_taken id (ok txn)) (record a { logins = without_entry a.logins id })
  login_not_taken : (id : String) (e : Error) → Spec a (Action.login_taken id (err e)) a

-- Some entries are gone: they have expired, or a failed call has removed them.
pub record Fades (a b : Tables) : Type 0 where
  pub sessions : (id : String) → (b.sessions id ≡ none) ⊎ (b.sessions id ≡ a.sessions id)
  pub logins : (id : String) → (b.logins id ≡ none) ⊎ (b.logins id ≡ a.logins id)

-- The events from first to last stand from the end of the list on.
pub data SpecTrace (a : Tables) : List Action → Tables → Type 0 where
  here : SpecTrace a [] a
  called :
      {evs : List Action} {ev : Action} {b c : Tables}
      → SpecTrace a evs b
      → Spec b ev c
      → SpecTrace a (ev ∷ evs) c
  faded : {evs : List Action} {b c : Tables} → SpecTrace a evs b → Fades b c → SpecTrace a evs c
