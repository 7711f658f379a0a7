-- ===== src/Session/Origin.antt =====
-- Where the records that the store returns come from.
use tenant_deck.Base.{
  String, ◌≡◌, ◌⊎◌, ◌∙◌, sym, subst, some, Result, ok, err, List, ◌∷◌, inl, inr, arith, str_eq,
  Bool-cases,
}
use tenant_deck.Session.Records.{Record}
use tenant_deck.Session.RoundTrip.{IsSound}
use tenant_deck.Session.Spec.{
  Table, Tables, no_entries, with_entry, Action, Spec, SpecTrace, here, called, faded,
}
use tenant_deck.Session.Shows.{Shows}
use tenant_deck.Session.Simulate.{at}
use tenant_deck.Session.Refine.{Trace, store_refines}
use tenant_deck.Session.Store.{Store, get_session}

-- Some call so far was the creation of a session with this record.
pub data WasCreated (rec : Record) : List Action → Type 0 where
  last : (r : Result String) (evs : List Action) → WasCreated rec (Action.created rec r ∷ evs)
  earlier : {evs : List Action} (ev : Action) → WasCreated rec evs → WasCreated rec (ev ∷ evs)

new_entry :
    (m : Table Record) (k id : String) (new rec : Record) (r : Result String) (evs : List Action)
    → with_entry m k new id ≡ some rec
    → (m id ≡ some rec) ⊎ WasCreated rec (Action.created new r ∷ evs)
new_entry m k id new rec r evs entry = elim (Bool-cases (str_eq k id)) [
  | inl this ↦ let same : new ≡ rec = ground arith in rw same (inr (last r evs))
  | inr other ↦ inl (ground arith)
]

-- An entry after a call was there before, or the call is its creation.
Spec-entry :
    {a b : Tables} {ev : Action} (evs : List Action) (id : String) (rec : Record)
    → Spec a ev b
    → b.sessions id ≡ some rec
    → (a.sessions id ≡ some rec) ⊎ WasCreated rec (ev ∷ evs)
Spec-entry {a} evs id rec (Spec.created new k) entry =
    new_entry a.sessions k id new rec (ok k) evs entry
Spec-entry evs id rec (Spec.not_created new e) entry = inl entry
Spec-entry {a} evs id rec (Spec.half_created new k e) entry =
    new_entry a.sessions k id new rec (err e) evs entry
Spec-entry evs id rec (Spec.got k found there) entry = inl entry
Spec-entry evs id rec (Spec.not_got k e why) entry = inl entry
Spec-entry evs id rec (Spec.deleted k) entry = inl (ground arith)
Spec-entry evs id rec (Spec.not_deleted k e) entry = inl entry
Spec-entry evs id rec (Spec.login_started txn k) entry = inl entry
Spec-entry evs id rec (Spec.login_not_started txn e) entry = inl entry
Spec-entry evs id rec (Spec.login_half_started txn k e) entry = inl entry
Spec-entry evs id rec (Spec.login_taken k txn there) entry = inl entry
Spec-entry evs id rec (Spec.login_not_taken k e) entry = inl entry

-- An entry of the tables that the specification leads to, from none.
SpecTrace-entry :
    {b : Tables} {evs : List Action} (id : String) (rec : Record)
    → SpecTrace no_entries evs b
    → b.sessions id ≡ some rec
    → WasCreated rec evs
SpecTrace-entry id rec here entry = absurd (ground arith)
SpecTrace-entry id rec (called {evs} before allowed) entry =
    elim (Spec-entry evs id rec allowed entry) [
      | inl there ↦ earlier _ (SpecTrace-entry id rec before there)
      | inr created' ↦ created'
    ]
SpecTrace-entry id rec (faded before fading) entry = elim (fading.sessions id) [
  | inl gone ↦ absurd (ground arith)
  | inr kept ↦ SpecTrace-entry id rec before (sym kept ∙ entry)
]

got-entry :
    {a b : Tables} (id : String) (rec : Record)
    → Spec a (Action.got id (ok rec)) b
    → a.sessions id ≡ some rec
got-entry id rec (Spec.got _ _ there) = there

-- The event on top of a trace is allowed by tables that have an entry only for created records.
got-WasCreated :
    {b : Tables} (evs : List Action) (id : String) (rec : Record)
    → SpecTrace no_entries (Action.got id (ok rec) ∷ evs) b
    → WasCreated rec evs
got-WasCreated evs id rec (called before allowed) =
    SpecTrace-entry id rec before (got-entry id rec allowed)
got-WasCreated evs id rec (faded before fading) = got-WasCreated evs id rec before

-- No session is forged: over a database that shows no entries at first, any record that a read of a
-- session returns was given to an earlier creation of a session, whatever calls were made in
-- between, with positive lifetimes.
pub get_session-WasCreated :
    {W : Type 0} (s : Store W) (sound : IsSound s) (w u : W) (evs : List Action) (id : String)
    (rec : Record)
    → Shows s (at s sound w) no_entries
    → Trace s sound w evs u
    → (get_session s id u).0 ≡ ok rec
    → WasCreated rec evs
get_session-WasCreated s sound w u evs id rec shows before answered =
    let (b, spec, after) = store_refines s sound no_entries w _ _ shows (Trace.got before id) in
    got-WasCreated evs id rec
      (subst (λ answer. SpecTrace no_entries (Action.got id answer ∷ evs) b) answered spec)
