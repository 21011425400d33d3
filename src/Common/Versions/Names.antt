-- ===== src/Common/Versions/Names.antt =====
-- src/common/VersionRegistry.ts: names as the 32 bytes of a contract. A character is one byte, which
-- it is in UTF-8 for ASCII.
use rif_relay.Base.{
  All, Bool, Bool-cases, Text, [], ap, arith, codes, drop, false, if◌then◌else◌, inl, inr, length,
  not, refl, starts_with, suc, true, zero, ℕ, ◌%◌, ◌&&◌, ◌++◌, ◌+◌, ◌-◌, ◌/◌, ◌<◌, ◌==◌, ◌∙◌, ◌∷◌,
  ◌≡◌,
}
use rif_relay.Common.Hex.{digit, replicate}
use rif_relay.Common.Hex.Bytes.{IsBytes, byte_digits, bytes_of, bytes_of-byte_digits}

-- `padEnd(n, '0')`.
unfoldable pub pad_end : ℕ → Text → Text
pad_end n s = s ++ replicate (n - length s) b'0'

unfoldable pub string32 : Text → Text
unfolding byte_digits pad_end
string32 s = pad_end 66 (codes "0x" ++ byte_digits s)

-- `(00)*` up to the end.
unfoldable pub are_zero_pairs : Text → Bool
are_zero_pairs [] = true
are_zero_pairs (a ∷ []) = false
are_zero_pairs (a ∷ b ∷ s) = a == b'0' && b == b'0' && are_zero_pairs s

-- The shortest beginning behind which there are only pairs of zeros.
unfoldable pub without_zeros : Text → Text
unfolding are_zero_pairs
without_zeros [] = []
without_zeros (c ∷ s) =
    let rest = without_zeros s in if are_zero_pairs (c ∷ s) then [] else c ∷ rest

unfoldable pub bytes32_to_string : Text → Text
unfolding without_zeros
bytes32_to_string s = bytes_of (without_zeros (if starts_with (codes "0x") s then drop 2 s else s))

-- A name of characters between 1 and 127.
unfoldable pub IsName : Text → Type 0
IsName s = All (λ c. (0 < c) × (c < 128)) s

is_even : Text → Bool
is_even [] = true
is_even (a ∷ s) = not (is_even s)

third_of : (a b c : Bool) → (a && b && c) ≡ true → c ≡ true
third_of true true c h = h
third_of true false c h = cc
third_of false b c h = cc

not-not : (b : Bool) → not (not b) ≡ b
not-not true = refl
not-not false = refl

are_zero_pairs-is_even : (s : Text) → are_zero_pairs s ≡ true → is_even s ≡ true
unfolding are_zero_pairs is_even
are_zero_pairs-is_even [] h = refl
are_zero_pairs-is_even (a ∷ []) h = cc
are_zero_pairs-is_even (a ∷ b ∷ s) h =
    not-not (is_even s)
    ∙ are_zero_pairs-is_even s (third_of (a == 48) (b == 48) (are_zero_pairs s) h)

is_even-append : (s t : Text) → is_even s ≡ true → is_even (s ++ t) ≡ is_even t
unfolding is_even
is_even-append [] t h = refl
is_even-append (a ∷ []) t h = cc
is_even-append (a ∷ b ∷ s) t h = ground (arith, h, is_even-append s t)

is_even-byte_digits : (s : Text) → is_even (byte_digits s) ≡ true
unfolding is_even byte_digits
is_even-byte_digits [] = refl
is_even-byte_digits (c ∷ s) = ground (arith, is_even-byte_digits s)

length-byte_digits : (s : Text) → length (byte_digits s) ≡ length s + length s
unfolding byte_digits
length-byte_digits [] = refl
length-byte_digits (c ∷ s) = ground (arith, length-byte_digits s)

is_even-replicate : (n : ℕ) → is_even (replicate (n + n) 48) ≡ true
unfolding is_even
is_even-replicate zero = refl
is_even-replicate (suc n) =
    let two : suc n + suc n ≡ suc (suc (n + n)) = omega arith in
    ap (λ k. is_even (replicate k 48)) two ∙ ground (arith, is_even-replicate n)

are_zero_pairs-replicate : (n : ℕ) → are_zero_pairs (replicate (n + n) 48) ≡ true
unfolding are_zero_pairs
are_zero_pairs-replicate zero = refl
are_zero_pairs-replicate (suc n) =
    let two : suc n + suc n ≡ suc (suc (n + n)) = omega arith in
    ap (λ k. are_zero_pairs (replicate k 48)) two ∙ ground (arith, are_zero_pairs-replicate n)

without_zeros-pairs : (t : Text) → are_zero_pairs t ≡ true → without_zeros t ≡ []
unfolding without_zeros
without_zeros-pairs [] h = refl
without_zeros-pairs (c ∷ s) h = ap (λ b. if b then [] else c ∷ without_zeros s) h

-- An odd number of digits are no pairs, nor are those of a character.
odd_pairs : (d : ℕ) (t : Text) → is_even t ≡ true → are_zero_pairs (d ∷ t) ≡ false
unfolding is_even
odd_pairs d t h = elim (Bool-cases (are_zero_pairs (d ∷ t))) [
  | inl e ↦ absurd (ground (arith, h, are_zero_pairs-is_even (d ∷ t) e))
  | inr e ↦ e
]

digit_pair :
    (c : ℕ) (b : Bool)
    → 0 < c
    → c < 128
    → (digit (c / 16) == 48 && digit (c % 16) == 48 && b) ≡ false
unfolding digit
digit_pair c b low high = ground arith

-- Behind the digits of a name, nothing but zeros is cut off.
without_zeros-byte_digits :
    (s : Text) (n : ℕ)
    → IsName s
    → without_zeros (byte_digits s ++ replicate (n + n) 48) ≡ byte_digits s
unfolding without_zeros byte_digits IsName are_zero_pairs
without_zeros-byte_digits [] n h =
    without_zeros-pairs (replicate (n + n) 48) (are_zero_pairs-replicate n)
without_zeros-byte_digits (c ∷ s) n ((low, high), h) =
    let t = byte_digits s ++ replicate (n + n) 48 in
    let even : is_even t ≡ true =
      is_even-append (byte_digits s) (replicate (n + n) 48) (is_even-byte_digits s)
      ∙ is_even-replicate n in
    ap (λ b. if b then [] else digit (c / 16) ∷ without_zeros (digit (c % 16) ∷ t))
      (digit_pair c (are_zero_pairs t) low high)
    ∙ ap (λ b. digit (c / 16) ∷ (if b then [] else digit (c % 16) ∷ without_zeros t))
        (odd_pairs (digit (c % 16)) t even)
    ∙ ap (λ r. digit (c / 16) ∷ digit (c % 16) ∷ r) (without_zeros-byte_digits s n h)

IsName-IsBytes : (s : Text) → IsName s → IsBytes s
unfolding IsName IsBytes
IsName-IsBytes [] h = tt
IsName-IsBytes (c ∷ s) ((low, high), h) = (omega arith, IsName-IsBytes s h)

-- A name of characters between 1 and 127, written in hexadecimal and filled up with zeros to 32 bytes,
-- is read back, also one that is longer.
pub bytes32_to_string-string32 : (s : Text) → IsName s → bytes32_to_string (string32 s) ≡ s
unfolding bytes32_to_string string32 pad_end rif_relay.Base.Strings.starts_with
bytes32_to_string-string32 s h =
    let n = 32 - length s in
    let fill : 66 - length (codes "0x" ++ byte_digits s) ≡ n + n =
      ground (arith, length-byte_digits s) in
    ap (λ k. bytes_of (without_zeros (byte_digits s ++ replicate k 48))) fill
    ∙ ap bytes_of (without_zeros-byte_digits s n h)
    ∙ bytes_of-byte_digits s (IsName-IsBytes s h)
