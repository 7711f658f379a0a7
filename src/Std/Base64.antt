-- ===== src/Std/Base64.antt =====
-- What the program uses of encoding/base64: RawURLEncoding.EncodeToString.
use tenant_deck.Base.{ℕ, ◌+◌, ◌*◌, ◌/◌, ◌%◌, String, List, [], ◌∷◌, ◌+++◌, ◌≡◌, refl}
use tenant_deck.Std.Strconv.{pick}

abbrev pub url_alphabet : String
url_alphabet = "ABCDEFGHIJKLMNOPQRSTUVWXYZabcdefghijklmnopqrstuvwxyz0123456789-_"

sextet : ℕ → String
unfolding pick
sextet n = pick (n % 64) url_alphabet

-- Three bytes give four characters; one or two bytes at the end give two or three.
unfoldable pub raw_url_encode : List ℕ → String
unfolding sextet
raw_url_encode [] = ""
raw_url_encode (a ∷ []) = sextet (a / 4) +++ sextet (a * 16)
raw_url_encode (a ∷ b ∷ []) = sextet (a / 4) +++ (sextet (a * 16 + b / 16) +++ sextet (b * 4))
raw_url_encode (a ∷ b ∷ c ∷ s) =
    sextet (a / 4)
    +++ (sextet (a * 16 + b / 16) +++ (sextet (b * 4 + c / 64) +++ (sextet c +++ raw_url_encode s)))

encode_tests :
    (raw_url_encode (b'M' ∷ b'a' ∷ b'n' ∷ []) ≡ "TWFu") × (raw_url_encode (255 ∷ []) ≡ "_w")
unfolding raw_url_encode
encode_tests = (refl, refl)
