-- ===== src/Base/Results.antt =====
-- A chain of Go calls `v, err := ...; if err != nil { return ..., err }` that touch no state.
use mathlib.Core.Path.{◌≡◌, refl}
use tenant_deck.Base.Errors.{Result, ok, err}

module _ {ℓ ℓ'} {V : Type ℓ} {U : Type ℓ'} where
  -- The early return keeps the error as it is.
  abbrev pub and_then : (V → Result U) → Result V → Result U
  and_then next (err reason) = err reason
  and_then next (ok value) = next value

  infixl 5 ◌>>=◌
  abbrev pub ◌>>=◌ : Result V → (V → Result U) → Result U
  r >>= next = and_then next r

  -- A chain that ends well has a first call that ends well.
  pub and_then-inv :
      (next : V → Result U) (r : Result V) {last : U}
      → and_then next r ≡ ok last
      → (value : V) × (r ≡ ok value) × (next value ≡ ok last)
  and_then-inv next (err reason) same = cc
  and_then-inv next (ok value) same = (value, refl, same)
