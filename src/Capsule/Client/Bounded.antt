-- ===== src/Capsule/Client/Bounded.antt =====
-- The bound on a response, and what a status becomes.
use tenant_deck.Base.{
  ℕ, ◌+◌, ◌≤◌, String, ◌+++◌, ◌≡◌, ◌≢◌, ◌↔◌, inl, inr, none, ok, err, Error, message, sentinel,
  unauthorized, forbidden, length, leb, ◌==◌, arith, Option-cases, Bool-cases, Result-cases,
  length-take,
}
use tenant_deck.Base.Errors.{is_error}
use tenant_deck.Session.Crypto.{Bytes}
use tenant_deck.Capsule.Client.{
  Outgoing, Client, Body, Incoming, read_bounded, status_error, do_get, request_for,
  max_response_bytes,
}

-- A bounded read succeeds exactly when the body ends without a failure within the limit, and gives
-- the whole body.
pub read_bounded_iff :
    (limit : ℕ) (b : Body) (d : Bytes)
    → (read_bounded limit b ≡ ok d) ↔ ((b.bytes ≡ d) × (b.failure ≡ none) × (length d ≤ limit))
unfolding read_bounded
read_bounded_iff limit b d = elim (Option-cases b.failure) [
  | inl whole ↦ elim (Bool-cases (leb (limit + 1) (length b.bytes))) [
    | inl long ↦ (ground (arith, length-take (limit + 1) b.bytes), ground arith)
    | inr short ↦ (ground arith, ground arith)
  ]
  | inr (e, broken) ↦ elim (Bool-cases (leb (limit + 1) (length b.bytes))) [
    | inl long ↦ (ground (arith, length-take (limit + 1) b.bytes), ground arith)
    | inr short ↦ (ground arith, ground arith)
  ]
]

module _ {W : Type 0} (c : Client W) (id_token path : String) (w : W) where
  abbrev req : Outgoing
  req = request_for (c.base_url +++ path) id_token "application/json"

  -- What a successful fetch has met: a request that was accepted, an answer 200, and a body that
  -- ended without failure within the bound.
  pub record IsFetched (d : Bytes) : Type 0 where
    pub resp : Incoming
    pub accepted : c.http_client.new_request (c.base_url +++ path) ≡ ok tt
    pub answered : (c.http_client.send req w).0 ≡ ok resp
    pub status : resp.status ≡ 200
    pub whole : resp.body.bytes ≡ d
    pub unbroken : resp.body.failure ≡ none
    pub bounded : length d ≤ max_response_bytes

  -- A fetch succeeds only with the whole body of a 200 answer of at most 10 MiB.
  pub do_get-IsFetched : (d : Bytes) → (do_get c id_token path w).0 ≡ ok d → IsFetched d
  unfolding do_get status_error
  do_get-IsFetched d h = elim (Result-cases (c.http_client.new_request (c.base_url +++ path))) [
    | inr (e, refused) ↦ ground arith
    | inl (tt, accepted) ↦ elim (Result-cases (c.http_client.send req w).0) [
      | inr (e, failed) ↦ ground arith
      | inl (resp, answered) ↦
          let (whole, unbroken, bounded) =
            (read_bounded_iff max_response_bytes resp.body d).0 (ground arith) in
          record {
            resp = resp;
            accepted = accepted;
            answered = answered;
            status = ground arith;
            whole = whole;
            unbroken = unbroken;
            bounded = bounded;
          }
    ]
  ]

  -- An answer with another status than 200 is an error, the caller's credentials and permissions
  -- being told apart from all else.
  pub do_get_status :
      (resp : Incoming)
      → c.http_client.new_request (c.base_url +++ path) ≡ ok tt
      → (c.http_client.send req w).0 ≡ ok resp
      → resp.status ≢ 200
      → (e : Error) × ((do_get c id_token path w).0 ≡ err e)
        × (is_error e unauthorized ≡ (resp.status == 401))
        × (is_error e forbidden ≡ (resp.status == 403))
  unfolding do_get status_error is_error
  do_get_status resp accepted answered other = elim (Bool-cases (resp.status == 401)) [
    | inl denied ↦ (sentinel unauthorized, ground arith, ground arith, ground arith)
    | inr known ↦ elim (Bool-cases (resp.status == 403)) [
      | inl barred ↦ (sentinel forbidden, ground arith, ground arith, ground arith)
      | inr strange ↦
          (message "capsule: unexpected upstream status", ground arith, ground arith, ground arith)
    ]
  ]
