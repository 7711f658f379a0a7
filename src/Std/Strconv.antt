-- ===== src/Std/Strconv.antt =====
-- What the program uses of strconv: ParseInt in base 10, FormatInt in base 10, ParseBool.
pub mod Digits
use tenant_deck.Base.{
  ℕ, zero, suc, ◌+◌, ◌-◌, ◌*◌, ◌/◌, ◌%◌, ◌^◌, Bool, true, false, ◌&&◌, ◌||◌, String, List, [], ◌∷◌,
  codes, leb, ltb, ◌==◌, ◌≡◌, refl, ℤ, pos, negsuc, Result, ok, err, message, Option, none, some,
  ◌+++◌, str_eq, if◌then◌else◌,
}

abbrev pub is_digit : ℕ → Bool
is_digit c = leb b'0' c && leb c b'9'

-- The value of a run of digits, after `acc`.
unfoldable pub parse_digits : ℕ → List ℕ → Option ℕ
parse_digits acc [] = some acc
parse_digits acc (c ∷ s) =
    let rest = parse_digits (acc * 10 + (c - b'0')) s in if is_digit c then rest else none

-- At least one digit.
unfoldable pub parse_magnitude : List ℕ → Option ℕ
unfolding parse_digits
parse_magnitude [] = none
parse_magnitude (c ∷ s) = parse_digits 0 (c ∷ s)

abbrev pub negate : ℕ → ℤ
negate zero = pos 0
negate (suc n) = negsuc n

abbrev syntax_error : Result ℤ
syntax_error = err (message "invalid syntax")

abbrev range_error : Result ℤ
range_error = err (message "value out of range")

abbrev in_range : ℕ → ℤ → ℕ → Result ℤ
in_range n v limit = if ltb n limit then ok v else range_error

abbrev checked : Option ℕ → (ℕ → ℤ) → ℕ → Result ℤ
checked none sign limit = syntax_error
checked (some n) sign limit = in_range n (sign n) limit

-- strconv.ParseInt(s, 10, bits): a sign, digits, and the range of a signed word.
unfoldable pub parse_int_codes : ℕ → List ℕ → Result ℤ
unfolding parse_magnitude
parse_int_codes bits [] = syntax_error
parse_int_codes bits (c ∷ s) =
    if c == b'-'
    then checked (parse_magnitude s) negate (2 ^ (bits - 1) + 1)
    else if c == b'+'
    then checked (parse_magnitude s) pos (2 ^ (bits - 1))
    else checked (parse_magnitude (c ∷ s)) pos (2 ^ (bits - 1))

unfoldable pub parse_int : ℕ → String → Result ℤ
unfolding parse_int_codes
parse_int bits s = parse_int_codes bits (codes s)

-- The character at a position, as a text.
unfoldable pub pick : ℕ → String → String
pick n String.[] = ""
pick zero (String.◌∷◌ c s) = String.◌∷◌ c ""
pick (suc n) (String.◌∷◌ c s) = pick n s

unfoldable pub format_digits : ℕ → ℕ → String → String
unfolding pick
format_digits zero n acc = acc
format_digits (suc fuel) n acc =
    let acc' = pick (n % 10) "0123456789" +++ acc in
    let more = format_digits fuel (n / 10) acc' in if n / 10 == 0 then acc' else more

-- strconv.FormatInt of a non-negative int64, which has at most 19 digits.
unfoldable pub format_nat : ℕ → String
unfolding format_digits
format_nat n = format_digits 20 n ""

-- strconv.FormatInt of an int64, in base 10.
unfoldable pub format_int : ℤ → String
unfolding format_nat
format_int (pos n) = format_nat n
format_int (negsuc n) = "-" +++ format_nat (suc n)

abbrev one_of : String → List String → Bool
one_of s [] = false
one_of s (t ∷ ts) = str_eq s t || one_of s ts

-- strconv.ParseBool
unfoldable pub parse_bool : String → Result Bool
parse_bool s =
    if one_of s ("1" ∷ "t" ∷ "T" ∷ "TRUE" ∷ "true" ∷ "True" ∷ [])
    then ok true
    else if one_of s ("0" ∷ "f" ∷ "F" ∷ "FALSE" ∷ "false" ∷ "False" ∷ [])
    then ok false
    else err (message "invalid syntax")

parse_int_tests :
    (parse_int 64 "200" ≡ ok (pos 200))
    × (parse_int 64 "-7" ≡ ok (negsuc 6))
    × (parse_int 32 "2147483648" ≡ range_error)
    × (parse_int 32 "-2147483648" ≡ ok (negsuc 2147483647))
    × (parse_int 64 "1.0" ≡ syntax_error)
    × (parse_int 64 "-" ≡ syntax_error)
unfolding parse_int
parse_int_tests = (refl, refl, refl, refl, refl, refl)

format_nat_tests : (format_nat 0 ≡ "0") × (format_nat 262144 ≡ "262144")
unfolding format_nat
format_nat_tests = (refl, refl)
