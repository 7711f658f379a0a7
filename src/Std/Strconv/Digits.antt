-- ===== src/Std/Strconv/Digits.antt =====
-- The fuel of FormatInt is enough: what it prints is read back.
use Prim.Native.Char.{Char, code}
use text.Mathlib.TextLemmas.{cons-append, nil-append}
use tenant_deck.Base.{
  ℕ, zero, suc, ◌+◌, ◌-◌, ◌*◌, ◌/◌, ◌%◌, ◌<◌, ◌^◌, true, String, ◌+++◌, codes, ◌≡◌, ◌∙◌, refl, sym,
  ap, some, arith, Bool-cases, inl, inr, ◌==◌,
}
use tenant_deck.Std.Strconv.{is_digit, parse_digits, format_digits, format_nat, pick}

-- One digit in front of a text.
digit_in_front :
    (c : Char) (d a : ℕ) (acc : String)
    → is_digit (code c) ≡ true
    → code c ≡ 48 + d
    → parse_digits a (codes (String.◌∷◌ c "" +++ acc)) ≡ parse_digits (a * 10 + d) (codes acc)
unfolding parse_digits
digit_in_front c d a acc digit value =
    let same : String.◌∷◌ c "" +++ acc ≡ String.◌∷◌ c acc =
      cons-append c "" acc ∙ ap (String.◌∷◌ c) (nil-append acc) in
    let worth : a * 10 + (code c - 48) ≡ a * 10 + d = omega arith in rw (same, digit, worth) refl

parse-pick :
    (d a : ℕ) (acc : String)
    → d < 10
    → parse_digits a (codes (pick d "0123456789" +++ acc)) ≡ parse_digits (a * 10 + d) (codes acc)
unfolding pick
parse-pick zero a acc small = digit_in_front "0" 0 a acc refl refl
parse-pick (suc zero) a acc small = digit_in_front "1" 1 a acc refl refl
parse-pick (suc (suc zero)) a acc small = digit_in_front "2" 2 a acc refl refl
parse-pick (suc (suc (suc zero))) a acc small = digit_in_front "3" 3 a acc refl refl
parse-pick (suc (suc (suc (suc zero)))) a acc small = digit_in_front "4" 4 a acc refl refl
parse-pick (suc (suc (suc (suc (suc zero))))) a acc small = digit_in_front "5" 5 a acc refl refl
parse-pick (suc (suc (suc (suc (suc (suc zero)))))) a acc small =
    digit_in_front "6" 6 a acc refl refl
parse-pick (suc (suc (suc (suc (suc (suc (suc zero))))))) a acc small =
    digit_in_front "7" 7 a acc refl refl
parse-pick (suc (suc (suc (suc (suc (suc (suc (suc zero)))))))) a acc small =
    digit_in_front "8" 8 a acc refl refl
parse-pick (suc (suc (suc (suc (suc (suc (suc (suc (suc zero))))))))) a acc small =
    digit_in_front "9" 9 a acc refl refl
parse-pick (suc (suc (suc (suc (suc (suc (suc (suc (suc (suc d)))))))))) a acc small =
    absurd (omega arith)

abbrev ten_to : ℕ → ℕ
ten_to zero = 1
ten_to (suc n) = 10 * ten_to n

parse-format_digits :
    (fuel n : ℕ) (acc : String)
    → n < ten_to fuel
    → parse_digits 0 (codes (format_digits fuel n acc)) ≡ parse_digits n (codes acc)
unfolding format_digits
parse-format_digits zero n acc enough = let none_left : n ≡ 0 = omega arith in rw none_left refl
parse-format_digits (suc fuel) n acc enough =
    let acc' = pick (n % 10) "0123456789" +++ acc in
    let whole : n / 10 * 10 + n % 10 ≡ n = omega arith in
    let last : parse_digits (n / 10) (codes acc') ≡ parse_digits n (codes acc) =
      parse-pick (n % 10) (n / 10) acc (omega arith) ∙ ap (λ m. parse_digits m (codes acc)) whole in
    elim (Bool-cases (n / 10 == 0)) [
      | inl one_digit ↦
          let none_left : n / 10 ≡ 0 = ground arith in
          rw one_digit (ap (λ m. parse_digits m (codes acc')) (sym none_left) ∙ last)
      | inr more ↦ rw more (parse-format_digits fuel (n / 10) acc' (omega arith) ∙ last)
    ]

-- Below 10^20, so for every non-negative int64, the digits that are printed have that value.
pub parse-format_nat : (n : ℕ) → n < 10 ^ 20 → parse_digits 0 (codes (format_nat n)) ≡ some n
unfolding format_nat parse_digits
parse-format_nat n small = parse-format_digits 20 n "" small
