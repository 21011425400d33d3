-- ===== src/Common/Hex.antt =====
-- Hexadecimal text: `toString(16)` and `parseInt(s, 16)` as the program uses them, on natural numbers
-- and on texts with no blanks or sign in front, and the text helpers of src/common/Utils.ts.
pub mod RoundTrip
pub mod Bytes
use rif_relay.Base.{
  Bool, List, Option, Text, [], codes, drop, false, if◌then◌else◌, is_some, leb, length, ltb, map,
  none, not, or_else, some, starts_with, suc, to_lower, true, zero, ℕ, ◌%◌, ◌&&◌, ◌*◌, ◌++◌, ◌+◌,
  ◌-◌, ◌/◌, ◌==◌, ◌||◌, ◌∷◌,
}
use rif_relay.Base.Exec.{Result, err, invalid_number, ok}
use rif_relay.Common.Utils.{Address}

unfoldable pub digit : ℕ → ℕ
digit d = if ltb d 10 then d + 48 else d + 87

-- The value of a digit, of either case.
unfoldable pub hex_value : ℕ → Option ℕ
hex_value c =
    if leb 48 c && leb c 57
    then some (c - 48)
    else if leb 97 c && leb c 102
    then some (c - 87)
    else if leb 65 c && leb c 70
    then some (c - 55)
    else none

-- The digits of a number, in at most `fuel` rounds.
show_from : (fuel n : ℕ) → Text
unfolding digit
show_from zero n = []
show_from (suc fuel) n =
    let front = show_from fuel (n / 16) in
    if n / 16 == 0 then digit (n % 16) ∷ [] else front ++ digit (n % 16) ∷ []

-- A number has no more digits than its successor has units.
unfoldable pub to_string_16 : ℕ → Text
unfolding show_from
to_string_16 n = show_from (suc n) n

-- `0x${n.toString(16)}`.
unfoldable pub hex_text : ℕ → Text
unfolding to_string_16
hex_text n = codes "0x" ++ to_string_16 n

-- Digits are read as far as there are any; none before the first.
read_digits : Option ℕ → Text → Option ℕ
unfolding hex_value
read_digits acc [] = acc
read_digits acc (c ∷ s) = elim (hex_value c) [
  | none ↦ acc
  | some d ↦ read_digits (some (or_else acc 0 * 16 + d)) s
]

-- `NaN` is none.
unfoldable pub parse_int_16 : Text → Option ℕ
unfolding read_digits
parse_int_16 s =
    read_digits none
      (if starts_with (codes "0x") s || starts_with (codes "0X") s then drop 2 s else s)

read_decimal : Option ℕ → Text → Option ℕ
read_decimal acc [] = acc
read_decimal acc (c ∷ s) = elim (leb b'0' c && leb c b'9') [
  | false ↦ acc
  | true ↦ read_decimal (some (or_else acc 0 * 10 + (c - b'0'))) s
]

-- `parseInt(s)`: hexadecimal after a prefix, else decimal.
unfoldable pub parse_int : Text → Option ℕ
unfolding read_decimal
parse_int s =
    if starts_with (codes "0x") s || starts_with (codes "0X") s
    then parse_int_16 s
    else read_decimal none s

abbrev all_digits : (ℕ → Bool) → Text → Bool
all_digits p [] = true
all_digits p (c ∷ s) = p c && all_digits p s

-- `BigInt(s)` and `toBN(s)`: a text with anything else than digits throws, an empty
-- one is 0.
unfoldable pub big_int : Text → Result ℕ
unfolding hex_value
big_int s =
    let whole =
      if starts_with (codes "0x") s
      then all_digits (λ c. is_some (hex_value c)) (drop 2 s)
      else all_digits (λ c. leb b'0' c && leb c b'9') s in
    if not whole then err invalid_number else elim (parse_int s) [
      | none ↦ if length s == 0 then ok 0 else err invalid_number
      | some n ↦ ok n
    ]

-- `removeHexPrefix` on a text.
unfoldable pub remove_hex_prefix : Text → Text
remove_hex_prefix s = if starts_with (codes "0x") s then drop 2 s else s

abbrev pub replicate : ℕ → ℕ → Text
replicate zero c = []
replicate (suc n) c = c ∷ replicate n c

-- `padTo64`: the last 64 characters of the zeros and the text.
unfoldable pub pad_to_64 : Text → Text
pad_to_64 s =
    if ltb (length s) 64
    then drop (length (replicate 64 b'0' ++ s) - 64) (replicate 64 b'0' ++ s)
    else s

-- `address2topic`.
unfoldable pub address2topic : Address → Text
address2topic a = codes "0x" ++ (replicate 24 b'0' ++ drop 2 (to_lower a))

unfoldable pub addresses2topics : List Address → List Text
addresses2topics addresses = map address2topic addresses

-- The loop of `parseHexString`: two characters at a time, a last single one is left out.
unfoldable pub parse_hex_string : Text → List (Option ℕ)
parse_hex_string (a ∷ b ∷ s) = parse_int_16 (a ∷ b ∷ []) ∷ parse_hex_string s
parse_hex_string _ = []
