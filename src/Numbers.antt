-- ===== src/Numbers.antt =====
-- Python's numbers as the messages hold them, and the conversions `int(x)` and `float(x)`.
-- Integers are exact. Floating-point arithmetic is a parameter: any functions of these types.
use Prim.Native.String.{[], ◌∷◌, ◌++◌}
use flow_first.Base.{
  ◌≡◌, refl, ℕ, ◌+◌, ◌*◌, ◌-◌, ◌/◌, ◌%◌, Char, ltb, code, String, Bool, true, false, ◌&&◌, Option,
  none, some, eqb, leb, if◌then◌else◌,
}
use flow_first.Base.Int.{ℤ, pos, negsuc, ◌+ℤ◌, ◌*ℤ◌, ltb_ℤ}
use flow_first.Base.Result.{Result, ok, raise, value_error, type_error}
use flow_first.Base.Text.{strip}
use flow_first.Json.{Json}

pub data Number : Type 0 where
  int : ℤ → Number
  float : String → Number

pub record Floats : Type 0 where
  -- int(x), float(n) and float(text); they raise on what is out of range or no number
  pub truncate : String → Result ℤ
  pub of_int : ℤ → Result String
  pub of_text : String → Result String
  -- x + y, x * y and x > y where one of the two is a float
  pub add : Number → Number → Result Number
  pub times : Number → Number → Result Number
  pub is_greater : Number → Number → Bool
  -- round(x, 2) of a float
  pub round2 : String → String

-- a value in an arithmetic operation: `True` is 1, and all but numbers raise TypeError
unfoldable pub as_number : Json → Result Number
as_number (Json.int n) = ok (int n)
as_number (Json.float x) = ok (float x)
as_number (Json.bool true) = ok (int (pos 1))
as_number (Json.bool false) = ok (int (pos 0))
as_number _ = raise type_error

abbrev pub to_json : Number → Json
to_json (int n) = Json.int n
to_json (float x) = Json.float x

is_digit : ℕ → Bool
is_digit c = leb b'0' c && leb c b'9'

-- The digits of an integer literal. One underscore may stand between two digits: `after` says that the
-- character before was a digit.
digits : ℕ → Bool → String → Option ℕ
unfolding is_digit
digits n after [] = if after then some n else none
digits n after (c ∷ s) = elim (is_digit (code c)) [
  | true ↦ digits (n * 10 + (code c - b'0')) true s
  | false ↦ elim (after && eqb (code c) b'_') [ true ↦ digits n false s | false ↦ none ]
]

abbrev negate : ℕ → ℤ
negate ℕ.zero = pos 0
negate (ℕ.suc n) = negsuc n

abbrev signed : Bool → Option ℕ → Result ℤ
signed minus none = raise value_error
signed true (some n) = ok (negate n)
signed false (some n) = ok (pos n)

signed_digits : String → Result ℤ
unfolding digits
signed_digits [] = raise value_error
signed_digits (c ∷ s) =
    if eqb (code c) b'-'
    then signed true (digits 0 false s)
    else if eqb (code c) b'+'
    then signed false (digits 0 false s)
    else signed false (digits 0 false (c ∷ s))

-- int(text), in the digits of ASCII
unfoldable pub int_of_text : String → Result ℤ
unfolding signed_digits strip
int_of_text s = signed_digits (strip s)

-- the character of the text at a place, or the last one
abbrev char_or : Char → ℕ → String → Char
char_or c n [] = c
char_or c ℕ.zero (d ∷ s) = d
char_or c (ℕ.suc n) (d ∷ s) = char_or d n s

-- The decimal digits of a number in front of a text. A number has fewer digits than its successor, so
-- that is enough fuel.
decimal : ℕ → ℕ → String → String
decimal ℕ.zero n rest = rest
decimal (ℕ.suc fuel) n rest =
    let shorter = decimal fuel (n / 10) (char_or "0" (n % 10) "0123456789" ∷ rest) in
    if ltb n 10 then char_or "0" n "0123456789" ∷ rest else shorter

-- str(n)
unfoldable pub text_of_int : ℤ → String
unfolding decimal
text_of_int (pos n) = decimal (ℕ.suc n) n ""
text_of_int (negsuc n) = "-" ++ decimal (ℕ.suc (ℕ.suc n)) (ℕ.suc n) ""

unfoldable pub text_of_number : Number → String
unfolding text_of_int
text_of_number (int n) = text_of_int n
text_of_number (float x) = x

module _ (floats : Floats) where
  -- int(value)
  unfoldable pub int_of : Json → Result ℤ
  unfolding int_of_text
  int_of (Json.int n) = ok n
  int_of (Json.bool true) = ok (pos 1)
  int_of (Json.bool false) = ok (pos 0)
  int_of (Json.float x) = floats.truncate x
  int_of (Json.str s) = int_of_text s
  int_of _ = raise type_error

  -- float(value)
  unfoldable pub float_of : Json → Result String
  float_of (Json.int n) = floats.of_int n
  float_of (Json.bool true) = floats.of_int (pos 1)
  float_of (Json.bool false) = floats.of_int (pos 0)
  float_of (Json.float x) = ok x
  float_of (Json.str s) = floats.of_text s
  float_of _ = raise type_error

  unfoldable pub plus : Number → Number → Result Number
  unfolding ◌+ℤ◌
  plus (int a) (int b) = ok (int (a +ℤ b))
  plus a b = floats.add a b

  -- a * b
  unfoldable pub product : Number → Number → Result Number
  unfolding ◌*ℤ◌
  product (int a) (int b) = ok (int (a *ℤ b))
  product a b = floats.times a b

  -- int(x) and float(x) of a number
  unfoldable pub int_of_number : Number → Result ℤ
  int_of_number (int n) = ok n
  int_of_number (float x) = floats.truncate x

  unfoldable pub float_of_number : Number → Result String
  float_of_number (int n) = floats.of_int n
  float_of_number (float x) = ok x

  -- a > b
  unfoldable pub is_above : Number → Number → Bool
  is_above (int a) (int b) = ltb_ℤ b a
  is_above a b = floats.is_greater a b

  -- round(x, 2): an integer is itself
  unfoldable pub round_two : Number → Number
  round_two (int n) = int n
  round_two (float x) = float (floats.round2 x)

minus_twelve : int_of_text " -1_2 " ≡ ok (negsuc 11)
unfolding int_of_text
minus_twelve = refl

two_hundred : text_of_int (negsuc 199) ≡ "-200"
unfolding text_of_int
two_hundred = refl
