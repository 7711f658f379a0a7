-- ===== src/Session/Tables.antt =====
-- How the keys of a database represent a table.
use text.Mathlib.TextLemmas.{append_cancel_left}
use tenant_deck.Base.{
  String, ◌+++◌, false, Option, none, some, Result, ok, ◌≡◌, ◌⊎◌, inl, inr, refl, ap, str_eq,
  eq_iff, arith, Bool-cases, Option-cases, if◌then◌else◌,
}
use tenant_deck.Session.Crypto.{Bytes}
use tenant_deck.Session.Spec.{Table, with_entry, without_entry}

abbrev pub View : Type 0
View = String → Option Bytes

str_eq-append : (p a b : String) → str_eq (p +++ a) (p +++ b) ≡ str_eq a b
str_eq-append p a b = elim (Bool-cases (str_eq a b)) [
  | inl same ↦
      let joined : p +++ a ≡ p +++ b = ap (λ t. p +++ t) ((eq_iff a b).0 same) in
      rw same ((eq_iff _ _).1 joined)
  | inr other ↦ elim (Bool-cases (str_eq (p +++ a) (p +++ b))) [
    | inl joined ↦
        let same = (eq_iff a b).1 (append_cancel_left p a b ((eq_iff _ _).0 joined)) in ground arith
    | inr apart ↦ rw (other, apart) refl
  ]
]

module _ {A : Type 0} (read : Bytes → Result A) where
  -- A value of the database and an entry of the table.
  abbrev pub Matches : Option Bytes → Option A → Type 0
  Matches v x =
      ((v ≡ none) × (x ≡ none))
      ⊎ ((c : Bytes) × (a : A) × (v ≡ some c) × (x ≡ some a) × (read c ≡ ok a))

  -- The keys with the prefix `p` hold what the table has.
  abbrev pub Holds : String → View → Table A → Type 0
  Holds p v m = (id : String) → Matches (v (p +++ id)) (m id)

  -- What is left of a table when only these keys are left.
  abbrev pub left_of : String → View → Table A → Table A
  left_of p v m id = elim (v (p +++ id)) [ none ↦ none | some c ↦ m id ]

  pub fades :
      (p : String) (v : View) (m : Table A) (id : String)
      → (left_of p v m id ≡ none) ⊎ (left_of p v m id ≡ m id)
  fades p v m id = elim (Option-cases (v (p +++ id))) [
    | inl gone ↦ inl (rw (left_of, gone) refl)
    | inr (c, there) ↦ inr (rw (left_of, there) refl)
  ]

  pub Holds-left :
      (p : String) (v u : View) (m : Table A)
      → Holds p v m
      → ((j : String) → (u j ≡ none) ⊎ (u j ≡ v j))
      → Holds p u (left_of p u m)
  Holds-left p v u m holds drops id = elim (Option-cases (u (p +++ id))) [
    | inl gone ↦ inl (gone, rw (left_of, gone) refl)
    | inr (c, there) ↦
        rw (left_of, there)
          (let kept : v (p +++ id) ≡ some c = ground (arith, drops (p +++ id)) in
            ground (arith, holds id))
  ]

  pub Holds-set :
      (p id : String) (c : Bytes) (a : A) (v : View) (m : Table A)
      → Holds p v m
      → read c ≡ ok a
      → Holds p (λ j. if str_eq (p +++ id) j then some c else v j) (with_entry m id a)
  Holds-set p id c a v m holds reads k =
      rw (str_eq-append p id k) (elim (Bool-cases (str_eq id k)) [
        | inl same ↦ rw same (inr (c, a, refl, refl, reads))
        | inr other ↦ rw other (holds k)
      ])

  pub Holds-drop :
      (p id : String) (v : View) (m : Table A)
      → Holds p v m
      → Holds p (λ j. if str_eq (p +++ id) j then none else v j) (without_entry m id)
  Holds-drop p id v m holds k = rw (str_eq-append p id k) (elim (Bool-cases (str_eq id k)) [
    | inl same ↦ rw same (inl (refl, refl))
    | inr other ↦ rw other (holds k)
  ])

  -- A key without the prefix.
  pub Holds-apart :
      (p key : String) (x : Option Bytes) (v : View) (m : Table A)
      → Holds p v m
      → ((id : String) → str_eq key (p +++ id) ≡ false)
      → Holds p (λ j. if str_eq key j then x else v j) m
  Holds-apart p key x v m holds apart id = rw (apart id) (holds id)
