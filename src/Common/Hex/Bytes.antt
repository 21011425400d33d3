-- ===== src/Common/Hex/Bytes.antt =====
-- Buffers as texts of bytes: `toString('hex')` and `Buffer.from(s, 'hex')`.
use rif_relay.Base.{All, Text, [], arith, none, refl, some, ◌%◌, ◌*◌, ◌+◌, ◌/◌, ◌<◌, ◌∷◌, ◌≡◌}
use rif_relay.Common.Hex.{digit, hex_value}

-- `toString('hex')`, and `bufferToHex` without its prefix.
unfoldable pub byte_digits : Text → Text
byte_digits [] = []
byte_digits (c ∷ s) = digit (c / 16) ∷ digit (c % 16) ∷ byte_digits s

-- `Buffer.from(s, 'hex')`, which stops at the first pair that is none of digits.
unfoldable pub bytes_of : Text → Text
bytes_of (a ∷ b ∷ s) =
    let rest = bytes_of s in
    elim (hex_value a) [
      | none ↦ []
      | some x ↦ elim (hex_value b) [ none ↦ [] | some y ↦ (x * 16 + y) ∷ rest ]
    ]
bytes_of _ = []

-- Bytes are below 256.
unfoldable pub IsBytes : Text → Type 0
IsBytes s = All (λ c. c < 256) s

-- The digits of bytes are read back as the bytes.
pub bytes_of-byte_digits : (s : Text) → IsBytes s → bytes_of (byte_digits s) ≡ s
unfolding bytes_of byte_digits IsBytes digit hex_value
bytes_of-byte_digits [] h = refl
bytes_of-byte_digits (c ∷ s) (high, h) = ground (arith, bytes_of-byte_digits s h)
