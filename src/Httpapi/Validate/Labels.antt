-- ===== src/Httpapi/Validate/Labels.antt =====
-- The pattern of validate.go against an independent description of a DNS-1123 label.
use tenant_deck.Base.{
  ℕ, zero, suc, ◌≤◌, ◌≡◌, ◌↔◌, Bool, true, List, [], ◌∷◌, String, arith, length, all, codes,
}
use tenant_deck.Std.Regexp.{
  Regex, class, seq, opt, up_to, is_end, run_up_to, run_class, match_string,
}
use tenant_deck.Httpapi.Validate.{is_alnum, is_label_char, valid_k8s_name}

-- The last character of `c ∷ s` is alphanumeric.
abbrev pub ends_alnum : ℕ → List ℕ → Bool
ends_alnum c [] = is_alnum c
ends_alnum c (d ∷ s) = ends_alnum d s

-- RFC 1123: 1 to 63 characters of [a-z0-9-], the first and the last of them alphanumeric.
abbrev pub IsLabel : List ℕ → Type 0
IsLabel [] = ⊥
IsLabel (c ∷ s) =
    (is_alnum c ≡ true) × (ends_alnum c s ≡ true) × (all is_label_char s ≡ true) × (length s ≤ 62)

-- The tail of a label: `[a-z0-9-]{0,n}[a-z0-9]` to the end of the text.
abbrev tail_ok : ℕ → List ℕ → Bool
tail_ok n = run_up_to n is_label_char (run_class is_alnum is_end)

abbrev IsTail : ℕ → List ℕ → Type 0
IsTail n [] = ⊥
IsTail n (c ∷ s) = (ends_alnum c s ≡ true) × (all is_label_char (c ∷ s) ≡ true) × (length s ≤ n)

tail_ok_iff : (n : ℕ) (s : List ℕ) → (tail_ok n s ≡ true) ↔ IsTail n s
unfolding run_up_to run_class
tail_ok_iff zero [] = ground arith
tail_ok_iff zero (c ∷ []) = ground arith
tail_ok_iff zero (c ∷ d ∷ s) = ground arith
tail_ok_iff (suc n) [] = ground arith
tail_ok_iff (suc n) (c ∷ []) = ground (arith, tail_ok_iff n [])
tail_ok_iff (suc n) (c ∷ d ∷ s) = ground (arith, tail_ok_iff n (d ∷ s))

-- The pattern and the description with a bound `n` in place of 61.
abbrev pattern_of : ℕ → Regex
pattern_of n = seq (class is_alnum) (opt (seq (up_to n is_label_char) (class is_alnum)))

abbrev IsLabelOf : ℕ → List ℕ → Type 0
IsLabelOf n [] = ⊥
IsLabelOf n (c ∷ s) =
    (is_alnum c ≡ true)
    × (ends_alnum c s ≡ true)
    × (all is_label_char s ≡ true)
    × (length s ≤ suc n)

match_iff : (n : ℕ) (s : List ℕ) → (match_string (pattern_of n) s ≡ true) ↔ IsLabelOf n s
unfolding match_string run_class
match_iff n [] = ground arith
match_iff n (c ∷ []) = ground arith
match_iff n (c ∷ d ∷ s) = ground (arith, tail_ok_iff n (d ∷ s))

match-IsLabel : (s : List ℕ) → IsLabelOf 61 s → IsLabel s
match-IsLabel [] h = h
match-IsLabel (c ∷ s) h = h

IsLabel-match : (s : List ℕ) → IsLabel s → IsLabelOf 61 s
IsLabel-match [] h = h
IsLabel-match (c ∷ s) h = h

-- `valid_k8s_name` accepts a text exactly when its characters form an RFC 1123 label: 1 to 63 of
-- [a-z0-9-], the first and the last of them alphanumeric.
pub valid_k8s_name_iff : (s : String) → (valid_k8s_name s ≡ true) ↔ IsLabel (codes s)
unfolding valid_k8s_name
valid_k8s_name_iff s =
    let (to, from) = match_iff 61 (codes s) in
    (λ h. match-IsLabel (codes s) (to h), λ h. from (IsLabel-match (codes s) h))
