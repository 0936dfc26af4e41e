-- ===== src/Base/Hex.antt =====
-- encoding/hex: two digits a byte.
use go_monero.Base.{
  ℕ, ◌+◌, ◌-◌, ◌*◌, ◌/◌, ◌%◌, ◌<◌, ◌≡◌, refl, ◌&&◌, Option, none, some, [], ◌∷◌, arith, ltb, leb,
  if◌then◌else◌,
}
use go_monero.Base.Bytes.{Bytes, IsBytes}

-- The value of one digit, in either case.
unfoldable pub from_hex_char : ℕ → Option ℕ
from_hex_char c =
    if leb b'0' c && leb c b'9'
    then some (c - b'0')
    else if leb b'a' c && leb c b'f'
    then some (c - b'a' + 10)
    else if leb b'A' c && leb c b'F'
    then some (c - b'A' + 10)
    else none

unfoldable pub hex_pair : Option ℕ → Option ℕ → Option Bytes → Option Bytes
hex_pair (some a) (some b) (some rest) = some ((a * 16 + b) ∷ rest)
hex_pair (some a) (some b) none = none
hex_pair (some a) none rest = none
hex_pair none b rest = none

-- `hex.DecodeString`: `none` for an odd length or a character that is no digit.
unfoldable pub hex_decode : Bytes → Option Bytes
unfolding from_hex_char hex_pair
hex_decode [] = some []
hex_decode (a ∷ []) = none
hex_decode (a ∷ b ∷ rest) = hex_pair (from_hex_char a) (from_hex_char b) (hex_decode rest)

unfoldable pub to_hex_char : ℕ → ℕ
to_hex_char d = if ltb d 10 then b'0' + d else b'a' + d - 10

-- `hex.EncodeToString`.
unfoldable pub hex_encode : Bytes → Bytes
unfolding to_hex_char
hex_encode [] = []
hex_encode (b ∷ bs) = to_hex_char (b / 16) ∷ to_hex_char (b % 16) ∷ hex_encode bs

from-to_hex_char : (d : ℕ) → d < 16 → from_hex_char (to_hex_char d) ≡ some d
unfolding from_hex_char to_hex_char
from-to_hex_char d h = ground arith

pub hex_decode-hex_encode : (bs : Bytes) → IsBytes bs → hex_decode (hex_encode bs) ≡ some bs
unfolding hex_decode hex_encode
hex_decode-hex_encode [] h = refl
hex_decode-hex_encode (b ∷ bs) (hb, h) =
    rw
      (
        from-to_hex_char (b / 16) (omega arith),
        from-to_hex_char (b % 16) (omega arith),
        hex_decode-hex_encode bs h,
      )
      (ground arith)
