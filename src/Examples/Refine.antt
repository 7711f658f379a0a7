-- ===== src/Examples/Refine.antt =====
-- A session that is created, read, deleted and looked for once more, over the database in memory.
use tenant_deck.Base.{ok, ◌≡◌, pos, refl, List, [], ◌∷◌, inl}
use tenant_deck.Session.Spec.{Action, no_entries}
use tenant_deck.Session.Store.{get_session, create_session, delete_session}
use tenant_deck.Session.Simulate.{at}
use tenant_deck.Session.Shows.{Shows}
use tenant_deck.Session.Refine.{start, created, got, deleted, Refined, store_refines}
use tenant_deck.Session.Origin.{WasCreated, get_session-WasCreated}
use tenant_deck.Examples.Sessions.{store_runs}
use tenant_deck.Examples.Memory.{Memory, empty, memory-IsKeyValue}
use tenant_deck.Examples.Samples.{store, store-IsSound, alice, first_token}

abbrev one_session : Memory
one_session = (create_session store alice (pos 1) empty).1

abbrev one_read : Memory
one_read = (get_session store first_token one_session).1

abbrev logged_out : Memory
logged_out = (delete_session store first_token one_read).1

abbrev events : List Action
events =
    Action.got first_token (get_session store first_token logged_out).0
    ∷ Action.deleted first_token (delete_session store first_token one_read).0
    ∷ Action.got first_token (get_session store first_token one_session).0
    ∷ Action.created alice (create_session store alice (pos 1) empty).0
    ∷ []

empty-Shows : Shows store (at store store-IsSound empty) no_entries
unfolding memory-IsKeyValue
empty-Shows = record { sessions = λ id. inl (refl, refl); logins = λ id. inl (refl, refl) }

store_refines_example :
    Refined store store-IsSound no_entries events (get_session store first_token logged_out).1
store_refines_example =
    store_refines store store-IsSound no_entries empty _ events empty-Shows
      (got (deleted (got (created start alice (pos 1) refl) first_token) first_token) first_token)

read_back : (get_session store first_token one_session).0 ≡ ok alice
unfolding store_runs
read_back = refl

get_session-WasCreated_example :
    WasCreated alice (Action.created alice (create_session store alice (pos 1) empty).0 ∷ [])
get_session-WasCreated_example =
    get_session-WasCreated store store-IsSound empty one_session _ first_token alice empty-Shows
      (created start alice (pos 1) refl) read_back
