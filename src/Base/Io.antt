-- ===== src/Base/Io.antt =====
-- Calls that read and change the world outside the program and may fail. The world is a parameter.
use mathlib.Core.Path.{◌≡◌, refl}
use tenant_deck.Base.Errors.{Error, Result, ok, err}

abbrev pub Io {ℓ} : Type ℓ → Type ℓ → Type ℓ
Io W A = W → Result A × W

module _ {ℓ} {W A : Type ℓ} where
  abbrev pub pure : A → Io W A
  pure a w = (ok a, w)

  abbrev pub fail : Error → Io W A
  fail e w = (err e, w)

  -- A pure function that may fail.
  abbrev pub lift : Result A → Io W A
  lift r w = (r, w)

module _ {ℓ} {W A B : Type ℓ} where
  abbrev pub continue : Result A → (A → Io W B) → Io W B
  continue (ok a) f w = f a w
  continue (err e) f w = (err e, w)

  infixl 5 ◌>>=◌ ◌>>◌
  abbrev pub ◌>>=◌ : Io W A → (A → Io W B) → Io W B
  ◌>>=◌ m f w = continue (m w).0 f (m w).1

  abbrev pub ◌>>◌ : Io W A → Io W B → Io W B
  ◌>>◌ m n w = continue (m w).0 (λ _. n) (m w).1

  -- A bind that succeeds is two steps that succeed.
  pub continue-eq-ok :
      (r : Result A) (f : A → Io W B) (w : W) {b : B}
      → (continue r f w).0 ≡ ok b
      → (a : A) × (r ≡ ok a) × ((f a w).0 ≡ ok b)
  continue-eq-ok (ok a) f w h = (a, refl, h)
  continue-eq-ok (err e) f w h = cc
