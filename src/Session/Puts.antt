-- ===== src/Session/Puts.antt =====
-- What a successful `put` leaves behind, and what no `put` touches.
use tenant_deck.Base.{
  eq_refl, eq_iff, Bool-cases, Option, if◌then◌else◌, ℤ, String, ◌≡◌, ◌⊎◌, true, false, some,
  Result, ok, err, inl, inr, Result-cases, arith, is_positive, str_eq, ◌∙◌, refl,
}
use tenant_deck.Session.Crypto.{Bytes, seal, open_sealed}
use tenant_deck.Session.Contract.{IsAead, IsRandom, IsKeyValue, IsApart}
use tenant_deck.Session.Sealing.{open_sealed-seal}
use tenant_deck.Session.Store.{Store, put, generate_id}

module _ {W : Type 0} (s : Store W) (kv : IsKeyValue s.backend)
    (apart : IsApart s.backend s.rand kv) where
  seal_keeps : (p : Bytes) (j : String) (w : W) → kv.view (seal s.rand s.enc p w).1 j ≡ kv.view w j
  unfolding seal
  seal_keeps p j w = elim (Result-cases (s.rand.read_full s.enc.gcm.nonce_size w).0) [
    | inl (nonce, read) ↦ rw read (apart.read_keeps _ j w)
    | inr (e, failed) ↦ rw failed (apart.read_keeps _ j w)
  ]

  pub generate_id_keeps : (j : String) (w : W) → kv.view (generate_id s.rand w).1 j ≡ kv.view w j
  unfolding generate_id
  generate_id_keeps j w = elim (Result-cases (s.rand.read_full 32 w).0) [
    | inl (raw, read) ↦ rw read (apart.read_keeps _ j w)
    | inr (e, failed) ↦ rw failed (apart.read_keeps _ j w)
  ]

  pub beside :
      (key j : String) (c : Bytes) (x y : Option Bytes)
      → x ≡ y
      → (if str_eq key j then some c else x) ≡ (if str_eq key j then some c else y)
  beside key j c x y same = rw same refl

  -- A write is made, or not.
  set_tried :
      (key : String) (c : Bytes) (ttl : ℤ) (w : W)
      → ((j : String) → kv.view (s.backend.set key c ttl w).1 j ≡ kv.view w j)
        ⊎ ((j : String)
            → kv.view (s.backend.set key c ttl w).1 j
              ≡ (if str_eq key j then some c else kv.view w j))
  set_tried key c ttl w = elim (kv.set_one key c ttl w) [
    | inl made ↦ inr λ j. elim (Bool-cases (str_eq key j)) [
      | inl here ↦ rw (here, ← (eq_iff key j).0 here) made
      | inr other ↦ rw other (kv.set_frame key j c ttl w other)
    ]
    | inr same ↦ inl λ j. elim (Bool-cases (str_eq key j)) [
      | inl here ↦ rw (← (eq_iff key j).0 here) same
      | inr other ↦ kv.set_frame key j c ttl w other
    ]
  ]

  -- A write under one key leaves every other key, whatever it returns.
  pub put_frame :
      (key j : String) (m : Result Bytes) (ttl : ℤ) (w : W)
      → str_eq key j ≡ false
      → kv.view (put s key m ttl w).1 j ≡ kv.view w j
  unfolding put
  put_frame key j (err e) ttl w ne = refl
  put_frame key j (ok p) ttl w ne = elim (Result-cases (seal s.rand s.enc p w).0) [
    | inl (c, sealed) ↦ rw sealed (kv.set_frame key j c ttl _ ne ∙ seal_keeps p j w)
    | inr (e, failed) ↦ rw failed (seal_keeps p j w)
  ]

  module _ (aead : IsAead s.enc.gcm) (random : IsRandom s.rand) where
    -- A successful write leaves, under its key, a text that opens to what was marshalled.
    pub put_ok :
        (key : String) (m : Result Bytes) (ttl : ℤ) (w : W)
        → is_positive ttl ≡ true
        → (put s key m ttl w).0 ≡ ok tt
        → (p c : Bytes) × (m ≡ ok p)
          × (open_sealed s.enc c ≡ ok p)
          × (kv.view (put s key m ttl w).1 key ≡ some c)
    unfolding put
    put_ok key (err e) ttl w positive h = ground arith
    put_ok key (ok p) ttl w positive h = elim (Result-cases (seal s.rand s.enc p w).0) [
      | inl (c, sealed) ↦ (
        p,
        c,
        refl,
        open_sealed-seal s.enc aead s.rand random p w c sealed,
        rw sealed (kv.set_ok key key c ttl _ positive (rw sealed at h) ∙ rw (eq_refl key)),
      )
      | inr (e, failed) ↦ ground arith
    ]

    -- Whatever a write returns, it has changed nothing, or it has left under its key a text that
    -- opens to what was marshalled.
    pub put_tried :
        (key : String) (m : Result Bytes) (ttl : ℤ) (w : W)
        → ((j : String) → kv.view (put s key m ttl w).1 j ≡ kv.view w j)
          ⊎ ((p c : Bytes) × (m ≡ ok p)
              × (open_sealed s.enc c ≡ ok p)
              × ((j : String)
                  → kv.view (put s key m ttl w).1 j
                    ≡ (if str_eq key j then some c else kv.view w j)))
    unfolding put
    put_tried key (err e) ttl w = inl λ j. refl
    put_tried key (ok p) ttl w = elim (Result-cases (seal s.rand s.enc p w).0) [
      | inr (e, failed) ↦ inl λ j. rw failed (seal_keeps p j w)
      | inl (c, sealed) ↦
          let opens = open_sealed-seal s.enc aead s.rand random p w c sealed in
          elim (set_tried key c ttl (seal s.rand s.enc p w).1) [
            | inl same ↦ inl λ j. rw sealed (same j ∙ seal_keeps p j w)
            | inr made ↦
                inr (
                  p,
                  c,
                  refl,
                  opens,
                  λ j. rw sealed (made j ∙ beside key j c _ _ (seal_keeps p j w)),
                )
          ]
    ]
