-- ===== src/Strconv.antt =====
-- What the program uses of Go's package strconv, on a text as the list of the codes of its characters.
use directorius.Prelude.{
  ℕ, zero, suc, ◌+◌, ◌-◌, ◌*◌, String, Bool, true, false, ◌&&◌, ◌||◌, not, List, [], ◌∷◌, all, ltb,
  leb, ◌==◌, if◌then◌else◌,
}
use Prim.Native.Char.{code}
use Prim.Native.String.{slice, ◌++◌ as str_append}
use Prim.Native.Nat.{◌/◌, ◌%◌}
use directorius.Prelude.Int.{ℤ, pos, negsuc}
use directorius.Errors.{Result, ok, err, message}

abbrev pub Text : Type 0
Text = List ℕ

abbrev pub is_digit : ℕ → Bool
is_digit c = leb b'0' c && leb c b'9'

abbrev pub is_empty_text : Text → Bool
is_empty_text [] = true
is_empty_text (_ ∷ _) = false

-- The value of a list of decimal digits.
unfoldable pub digits_value : ℕ → Text → ℕ
digits_value n [] = n
digits_value n (c ∷ cs) = digits_value (n * 10 + (c - b'0')) cs

abbrev pub int64_limit : ℕ
int64_limit = 9223372036854775808

abbrev pub int32_limit : ℕ
int32_limit = 2147483648

abbrev pub negative : ℕ → ℤ
negative zero = pos zero
negative (suc n) = negsuc n

-- The digits after the sign, for `strconv.ParseInt`.
unfoldable pub parse_digits : ℕ → (ℕ → ℤ) → Text → Result ℤ
unfolding digits_value
parse_digits limit sign digits =
    if is_empty_text digits || not (all is_digit digits)
    then err (message "invalid syntax")
    else if ltb (digits_value 0 digits) limit
    then ok (sign (digits_value 0 digits))
    else err (message "value out of range")

-- `strconv.ParseInt` with base 10; the limit is 2^63 for 64 bits, and 2^31 for 32.
unfoldable pub parse_int : ℕ → Text → Result ℤ
unfolding parse_digits
parse_int limit [] = err (message "invalid syntax")
parse_int limit (c ∷ cs) =
    if c == b'-'
    then parse_digits (suc limit) negative cs
    else if c == b'+'
    then parse_digits limit pos cs
    else parse_digits limit pos (c ∷ cs)

-- The codes of the characters of a text.
unfoldable pub codes : String → Text
codes String.[] = []
codes (String.◌∷◌ c s) = code c ∷ codes s

abbrev digit : ℕ → String
digit n = slice "0123456789" n (n + 1)

-- The decimal digits of a number, for a fuel above it.
unfoldable pub itoa_of : ℕ → ℕ → String
itoa_of zero n = ""
itoa_of (suc fuel) n =
    let rest = itoa_of fuel (n / 10) in
    if ltb n 10 then digit n else str_append rest (digit (n % 10))

-- `strconv.Itoa`
unfoldable pub itoa : ℤ → String
unfolding itoa_of
itoa (pos n) = itoa_of (n + 1) n
itoa (negsuc n) = str_append "-" (itoa_of (n + 2) (n + 1))
