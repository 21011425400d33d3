-- ===== src/Common/Hex/RoundTrip.antt =====
-- Hexadecimal text is read back as the number that was written.
use rif_relay.Base.{
  Bool-cases, Option, Text, [], ap, append-nil, append_assoc, arith, inl, inr, none, or_else, some,
  suc, sym, zero, ℕ, ◌%◌, ◌*◌, ◌++◌, ◌+◌, ◌/◌, ◌<◌, ◌==◌, ◌∙◌, ◌∷◌, ◌≡◌,
}
use rif_relay.Common.Hex.{
  digit, hex_text, hex_value, parse_int_16, read_digits, show_from, to_string_16,
}

hex_value-digit : (d : ℕ) → d < 16 → hex_value (digit d) ≡ some d
unfolding hex_value digit
hex_value-digit d h = ground arith

read_digits-digit :
    (acc : Option ℕ) (d : ℕ) (s : Text)
    → d < 16
    → read_digits acc (digit d ∷ s) ≡ read_digits (some (or_else acc 0 * 16 + d)) s
unfolding read_digits
read_digits-digit acc d s h = rw (hex_value-digit d h, read_digits)

read_digits-show_from :
    (fuel n : ℕ) (s : Text)
    → n < fuel
    → read_digits none (show_from fuel n ++ s) ≡ read_digits (some n) s
unfolding show_from
read_digits-show_from zero n s h = absurd (omega arith)
read_digits-show_from (suc fuel) n s h = elim (Bool-cases (n / 16 == 0)) [
  | inl one ↦ rw one (
      read_digits-digit none (n % 16) s (omega arith)
      ∙ ap (λ k. read_digits (some k) s) (ground arith))
  | inr more ↦
      let last = n % 16 in
      let front = show_from fuel (n / 16) in
      rw more (
        ap (read_digits none) (append_assoc front (digit last ∷ []) s)
        ∙ read_digits-show_from fuel (n / 16) (digit last ∷ s) (ground arith)
        ∙ read_digits-digit (some (n / 16)) last s (omega arith)
        ∙ ap (λ k. read_digits (some k) s) (omega arith))
]

-- What `toString(16)` writes after the prefix is read back as the same number.
pub parse_int_16-hex_text : (n : ℕ) → parse_int_16 (hex_text n) ≡ some n
unfolding parse_int_16 hex_text to_string_16 rif_relay.Base.Strings.starts_with
parse_int_16-hex_text n =
    ap (read_digits none) (sym (append-nil (show_from (suc n) n)))
    ∙ read_digits-show_from (suc n) n [] (omega arith)
