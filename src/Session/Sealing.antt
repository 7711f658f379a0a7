-- ===== src/Session/Sealing.antt =====
-- Sealing and opening a payload.
use tenant_deck.Base.{
  ◌++◌, ◌≡◌, ok, inl, inr, Result-cases, Bool-cases, length, take, drop, ltb, take-append_exact,
  drop-append_exact, length-append, arith, length-take, take-append-drop, sym, ◌∙◌, ap,
}
use tenant_deck.Session.Crypto.{Bytes, Encryptor, Random, seal, open_sealed}
use tenant_deck.Session.Contract.{IsAead, IsRandom}

module _ (e : Encryptor) (aead : IsAead e.gcm) where
  open_sealed-sealed :
      (nonce p : Bytes)
      → length nonce ≡ e.gcm.nonce_size
      → open_sealed e (nonce ++ e.gcm.seal_with nonce p) ≡ ok p
  unfolding open_sealed
  open_sealed-sealed nonce p h = rw (← h) (
      rw
        (
          take-append_exact nonce (e.gcm.seal_with nonce p),
          drop-append_exact nonce (e.gcm.seal_with nonce p),
        )
        (ground (arith, length-append nonce (e.gcm.seal_with nonce p), aead.opens nonce p)))

  -- What `seal` returns opens to the text that was sealed.
  pub open_sealed-seal :
      {W : Type 0} (rand : Random W)
      → IsRandom rand
      → (p : Bytes) (w : W) (c : Bytes) → (seal rand e p w).0 ≡ ok c
      → open_sealed e c ≡ ok p
  unfolding seal
  open_sealed-seal rand full p w c h = elim (Result-cases (rand.read_full e.gcm.nonce_size w).0) [
    | inl (nonce, read) ↦
        ground (arith, open_sealed-sealed nonce p (full.full e.gcm.nonce_size w nonce read))
    | inr (x, failed) ↦ ground arith
  ]

  -- A text that opens is a nonce followed by the sealing, under that nonce, of what it opens to.
  pub open_sealed_sound :
      (c p : Bytes)
      → open_sealed e c ≡ ok p
      → (nonce : Bytes) × (length nonce ≡ e.gcm.nonce_size) × (c ≡ nonce ++ e.gcm.seal_with nonce p)
  unfolding open_sealed
  open_sealed_sound c p h = elim (Bool-cases (ltb (length c) e.gcm.nonce_size)) [
    | inl short ↦ ground arith
    | inr long ↦ (
      take e.gcm.nonce_size c,
      ground (arith, length-take e.gcm.nonce_size c),
      sym (take-append-drop e.gcm.nonce_size c)
          ∙ ap (λ d. take e.gcm.nonce_size c ++ d)
              (aead.authentic (take e.gcm.nonce_size c) (drop e.gcm.nonce_size c) p (rw long at h)),
    )
  ]
