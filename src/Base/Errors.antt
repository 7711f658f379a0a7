-- ===== src/Base/Errors.antt =====
-- Go's `(T, error)` results: sentinel errors, `fmt.Errorf` with and without `%w`, `errors.Is`.
use Prim.Native.String.{String}
use mathlib.Core.Path.{◌≡◌, refl}
use mathlib.Core.Logic.{◌⊎◌, inl, inr}
use mathlib.Core.Bool.{Bool, true, false}

-- The package variables that callers compare errors with.
pub data Sentinel : Type 0 where
  not_found : Sentinel
  ciphertext_too_short : Sentinel
  unauthorized : Sentinel
  forbidden : Sentinel

-- `sentinel` is such a variable, `message` an error built from a text, `wrapped` a use of `%w`.
pub data Error : Type 0 where
  sentinel : Sentinel → Error
  message : String → Error
  wrapped : String → Error → Error

abbrev same_sentinel : Sentinel → Sentinel → Bool
same_sentinel not_found not_found = true
same_sentinel ciphertext_too_short ciphertext_too_short = true
same_sentinel unauthorized unauthorized = true
same_sentinel forbidden forbidden = true
same_sentinel _ _ = false

-- errors.Is
unfoldable pub is_error : Error → Sentinel → Bool
is_error (sentinel s) t = same_sentinel s t
is_error (message m) t = false
is_error (wrapped m e) t = is_error e t

pub data Result {ℓ} (A : Type ℓ) : Type ℓ where
  ok : A → Result A
  err : Error → Result A

-- A failure under another error.
abbrev pub map_error {ℓ} : {A : Type ℓ} → (Error → Error) → Result A → Result A
map_error f (ok a) = ok a
map_error f (err e) = err (f e)

pub Result-cases {ℓ} :
    {A : Type ℓ} (r : Result A) → ((a : A) × (r ≡ ok a)) ⊎ ((e : Error) × (r ≡ err e))
Result-cases (ok a) = inl (a, refl)
Result-cases (err e) = inr (e, refl)
