-- ===== src/Examples/Sessions.antt =====
-- The session store at concrete inputs.
use tenant_deck.Base.{◌+++◌, [], ◌∷◌, ◌++◌, length, pos, ◌≡◌, ◌⊎◌, refl, ok, err, Error, false}
use tenant_deck.Base.Errors.{is_error, not_found}
use tenant_deck.Std.Base64.{raw_url_encode}
use tenant_deck.Session.Crypto.{Bytes, seal, open_sealed}
use tenant_deck.Session.Backend.{redis_backend}
use tenant_deck.Session.Codec.{
  marshal_record, unmarshal_record, marshal_transaction, unmarshal_transaction,
  unmarshal-marshal_record,
}
use tenant_deck.Session.Store.{
  put, generate_id, create_session, get_session, delete_session, create_login_transaction,
  take_login_transaction, read_record, read_transaction,
}
use tenant_deck.Session.Sealing.{open_sealed_sound}
use tenant_deck.Session.RoundTrip.{get-create_session, take-create_login_transaction}
use tenant_deck.Session.OneUse.{here, next, got, one_use, delete_is_final}
use tenant_deck.Examples.Memory.{empty, tagging-IsAead, memory-IsKeyValue, memory-IsApart}
use tenant_deck.Examples.Text.{same, same_fields}
use tenant_deck.Examples.Samples.{store, store-IsSound, alice, login, first_token, pending, active}

-- All that a run of the store computes with.
unfoldable pub store_runs : Unit {0}
unfolding create_session get_session delete_session create_login_transaction take_login_transaction
    put generate_id seal open_sealed raw_url_encode marshal_record unmarshal_record
    marshal_transaction unmarshal_transaction read_record read_transaction redis_backend same
    same_fields
store_runs = tt

created : (create_session store alice (pos 5) empty).0 ≡ ok first_token
unfolding store_runs
created = refl

get-create_session_example :
    ((get_session store first_token (create_session store alice (pos 5) empty).1).0 ≡ ok alice)
    ⊎ ((e : Error) × ((get_session store first_token (create_session store alice (pos 5) empty).1).0
          ≡ err e)
        × (is_error e not_found ≡ false))
get-create_session_example =
    get-create_session store store-IsSound alice (pos 5) empty first_token refl created

started : (create_login_transaction store login (pos 5) empty).0 ≡ ok first_token
unfolding store_runs
started = refl

answered :
    (store.backend.get_del
      ("login:" +++ first_token)
      (create_login_transaction store login (pos 5) empty).1).0
    ≡ ok (2 ∷ 2 ∷ 2 ∷ 2 ∷ 2 ∷ 2 ∷ 2 ∷ 2 ∷ 2 ∷ 2 ∷ 2 ∷ 2 ∷ 7 ∷ 1 ∷ [])
unfolding store_runs
answered = refl

take-create_login_transaction_example :
    (take_login_transaction store first_token
      (create_login_transaction store login (pos 5) empty).1).0
    ≡ ok login
take-create_login_transaction_example =
    take-create_login_transaction store store-IsSound login (pos 5) empty first_token refl started _
      answered

pub taken : (take_login_transaction store "s1" pending).0 ≡ ok login
unfolding store_runs
taken = refl

-- A session is looked up between the two attempts.
one_use_example :
    (e : Error) × ((take_login_transaction store "s1"
        (get_session store "x" (take_login_transaction store "s1" pending).1).1).0
      ≡ err e)
one_use_example =
    one_use store memory-IsKeyValue memory-IsApart "s1" pending _ login taken
      (next here (got "x" (take_login_transaction store "s1" pending).1))

deleted_now : (delete_session store "id1" active).0 ≡ ok tt
unfolding store_runs
deleted_now = refl

delete_is_final_example :
    (e : Error) × ((get_session store "id1" (delete_session store "id1" active).1).0 ≡ err e)
delete_is_final_example =
    delete_is_final store memory-IsKeyValue memory-IsApart "id1" active _ deleted_now here

marshalled : marshal_record store.text alice ≡ ok (0 ∷ [])
unfolding store_runs
marshalled = refl

unmarshal-marshal_record_example : unmarshal_record store.text (0 ∷ []) ≡ ok alice
unmarshal-marshal_record_example =
    unmarshal-marshal_record store.text store-IsSound.text alice (0 ∷ []) marshalled

opened :
    open_sealed store.enc (0 ∷ 0 ∷ 0 ∷ 0 ∷ 0 ∷ 0 ∷ 0 ∷ 0 ∷ 0 ∷ 0 ∷ 0 ∷ 0 ∷ 7 ∷ 5 ∷ []) ≡ ok (5 ∷ [])
unfolding store_runs
opened = refl

open_sealed_sound_example :
    (nonce : Bytes) × (length nonce ≡ 12)
    × ((0 ∷ 0 ∷ 0 ∷ 0 ∷ 0 ∷ 0 ∷ 0 ∷ 0 ∷ 0 ∷ 0 ∷ 0 ∷ 0 ∷ 7 ∷ 5 ∷ []) ≡ nonce ++ 7 ∷ 5 ∷ [])
open_sealed_sound_example = open_sealed_sound store.enc tagging-IsAead _ (5 ∷ []) opened
