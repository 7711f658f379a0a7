-- ===== src/Session/Creates.antt =====
-- What a creation leaves, whatever it returns.
use tenant_deck.Base.{
  ℤ, String, ◌+++◌, ◌≡◌, ◌⊎◌, ◌∙◌, true, some, Result, ok, err, Error, inl, inr, refl, Result-cases,
  Bool-cases, is_positive, str_eq, eq_iff, if◌then◌else◌,
}
use tenant_deck.Base.Io.{Io, pure, ◌>>=◌, ◌>>◌}
use tenant_deck.Session.Crypto.{Bytes, open_sealed}
use tenant_deck.Session.RoundTrip.{IsSound}
use tenant_deck.Session.Puts.{put_ok, put_frame, put_tried, generate_id_keeps, beside}
use tenant_deck.Session.Store.{Store, put, generate_id}

module _ {W : Type 0} (s : Store W) (sound : IsSound s) where
  -- A fresh identifier, and a write under it: what both creations are.
  abbrev pub create_under : String → Result Bytes → ℤ → Io W String
  create_under prefix marshalled ttl = do
    id ← generate_id s.rand
    put s (prefix +++ id) marshalled ttl
    pure id

  -- The key `key` holds `c`, and all other keys what they held at `w`.
  abbrev pub HasAdded : String → Bytes → W → W → Type 0
  HasAdded key c w w' =
      (j : String) → sound.kv.view w' j ≡ (if str_eq key j then some c else sound.kv.view w j)

  put-HasAdded :
      (key : String) (m : Result Bytes) (ttl : ℤ) (w : W)
      → is_positive ttl ≡ true
      → (put s key m ttl w).0 ≡ ok tt
      → (p c : Bytes) × (m ≡ ok p)
        × (open_sealed s.enc c ≡ ok p)
        × HasAdded key c w (put s key m ttl w).1
  put-HasAdded key m ttl w positive done =
      let (p, c, printed, opens, there) =
        put_ok s sound.kv sound.apart sound.aead sound.random key m ttl w positive done in
      (
        p,
        c,
        printed,
        opens,
        λ j. elim (Bool-cases (str_eq key j)) [
          | inl here ↦ rw (here, ← (eq_iff key j).0 here) there
          | inr other ↦ rw other (put_frame s sound.kv sound.apart key j m ttl w other)
        ],
      )

  -- A creation has failed and left all as it was, or it has written, and returned the identifier or
  -- an error.
  pub data Created (prefix : String) (m : Result Bytes) (w : W) : Result String × W → Type 0 where
    nothing :
        (e : Error) (w' : W)
        → ((j : String) → sound.kv.view w' j ≡ sound.kv.view w j)
        → Created prefix m w (err e, w')
    written :
        (r : Result String) (id : String) (p c : Bytes) (w' : W)
        → ((r ≡ ok id) ⊎ ((e : Error) × (r ≡ err e)))
        → m ≡ ok p
        → open_sealed s.enc c ≡ ok p
        → HasAdded (prefix +++ id) c w w'
        → Created prefix m w (r, w')

  pub create_under-Created :
      (prefix : String) (m : Result Bytes) (ttl : ℤ) (w : W)
      → is_positive ttl ≡ true
      → Created prefix m w (create_under prefix m ttl w)
  create_under-Created prefix m ttl w positive = elim (Result-cases (generate_id s.rand w).0) [
    | inr (e, undrawn) ↦ rw undrawn (nothing e _ λ j. generate_id_keeps s sound.kv sound.apart j w)
    | inl (id, drawn) ↦
        let w₁ = (generate_id s.rand w).1 in
        let unmoved = λ (j : String). generate_id_keeps s sound.kv sound.apart j w in
        elim (Result-cases (put s (prefix +++ id) m ttl w₁).0) [
          | inl (tt, done) ↦
              let (p, c, printed, opens, added) =
                put-HasAdded (prefix +++ id) m ttl w₁ positive done in
              rw (drawn, done)
                (written (ok id) id p c _ (inl refl) printed opens
                  λ j. added j ∙ beside s sound.kv sound.apart (prefix +++ id) j c _ _ (unmoved j))
          | inr (e, failed) ↦
              elim (put_tried s sound.kv sound.apart sound.aead sound.random (prefix +++ id) m ttl
                w₁) [
                  | inl same ↦ rw (drawn, failed) (nothing e _ λ j. same j ∙ unmoved j)
                  | inr (p, c, printed, opens, added) ↦
                      rw (drawn, failed)
                        (written (err e) id p c _ (inr (e, refl)) printed opens λ j.
                          added j
                          ∙ beside s sound.kv sound.apart (prefix +++ id) j c _ _ (unmoved j))
                ]
        ]
  ]
