-- ===== src/Session/Keys.antt =====
-- The keys of sessions and of login transactions never meet.
use Prim.Native.Char.{code}
use text.Mathlib.TextLemmas.{cons-append, head-eq_of_cons-eq}
use tenant_deck.Base.{String, ◌+++◌, ◌≡◌, ◌≢◌, sym, ap, ◌∙◌, str_eq, false, eq_iff, arith}
use tenant_deck.Session.Store.{session_key_prefix, login_key_prefix}

pub session_key-ne-login_key : (a b : String) → session_key_prefix +++ a ≢ login_key_prefix +++ b
session_key-ne-login_key a b e = absurd (
    omega (
      arith,
      ap code
          (head-eq_of_cons-eq (sym (cons-append "s" "ession:" a) ∙ e ∙ cons-append "l" "ogin:" b)),
    ))

pub str_eq-session-login :
    (a b : String) → str_eq (session_key_prefix +++ a) (login_key_prefix +++ b) ≡ false
str_eq-session-login a b = ground (
  arith,
  eq_iff (session_key_prefix +++ a) (login_key_prefix +++ b),
  session_key-ne-login_key a b,
)
