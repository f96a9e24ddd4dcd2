-- ===== src/Hex.antt =====
-- encoding/hex, as the manifest's hashes and the names of shard directories use it.
use cerclbackup.Prelude.{
  ℕ, ◌+◌, ◌-◌, ◌*◌, ◌/◌, ◌%◌, ◌<◌, ◌≡◌, refl, ap, ◌≢◌, ◌&&◌, Option, none, some, [], ◌∷◌, arith,
  ltb, leb, if◌then◌else◌, Bytes, Text, length, All,
}

unfoldable pub hex_digit : ℕ → ℕ
hex_digit n = if ltb n 10 then b'0' + n else b'a' + (n - 10)

-- hex.EncodeToString, and fmt.Sprintf("%x", b)
unfoldable pub to_hex : Bytes → Text
unfolding hex_digit
to_hex [] = []
to_hex (b ∷ bs) = hex_digit (b / 16) ∷ hex_digit (b % 16) ∷ to_hex bs

unfoldable pub hex_value : ℕ → Option ℕ
hex_value c =
    if leb b'0' c && leb c b'9'
    then some (c - b'0')
    else if leb b'a' c && leb c b'f'
    then some (c - b'a' + 10)
    else if leb b'A' c && leb c b'F'
    then some (c - b'A' + 10)
    else none

unfoldable pub joined_digits : Option ℕ → Option ℕ → Option Bytes → Option Bytes
joined_digits (some hi) (some lo) (some rest) = some ((hi * 16 + lo) ∷ rest)
joined_digits _ _ _ = none

-- hex.DecodeString
unfoldable pub from_hex : Text → Option Bytes
unfolding hex_value joined_digits
from_hex [] = some []
from_hex (c ∷ []) = none
from_hex (c ∷ d ∷ s) = joined_digits (hex_value c) (hex_value d) (from_hex s)

abbrev pub AllBytes : Bytes → Type 0
AllBytes b = All (λ (x : ℕ). x < 256) b

hex_value-hex_digit : (n : ℕ) → n < 16 → hex_value (hex_digit n) ≡ some n
unfolding hex_value hex_digit
hex_value-hex_digit n h = ground arith

-- Decoding takes back what was encoded.
pub from_hex-to_hex : (b : Bytes) → AllBytes b → from_hex (to_hex b) ≡ some b
unfolding from_hex to_hex joined_digits
from_hex-to_hex [] a = refl
from_hex-to_hex (x ∷ b) (h, a) =
    rw
      (
        hex_value-hex_digit (x / 16) (omega arith),
        hex_value-hex_digit (x % 16) (omega arith),
        from_hex-to_hex b a,
      )
      (ap (λ (n : ℕ). some (n ∷ b)) (omega arith))

-- Nothing that is printed is a slash.
pub to_hex-NoSlash : (b : Bytes) → AllBytes b → All (λ (c : ℕ). c ≢ b'/') (to_hex b)
unfolding to_hex hex_digit
to_hex-NoSlash [] a = tt
to_hex-NoSlash (x ∷ b) (h, a) = (ground arith, (ground arith, to_hex-NoSlash b a))

pub length-to_hex : (b : Bytes) → length (to_hex b) ≡ length b * 2
unfolding to_hex
length-to_hex [] = refl
length-to_hex (x ∷ b) = omega (arith, length-to_hex b)
