-- ===== src/Encoding/Hex.antt =====
-- Node's hexadecimal buffers, `buf.toString("hex")` and `Buffer.from(text, "hex")`, and the
-- `0x` prefix that the simulation scripts strip. A text is the list of its code units.
use pillar_wallets_xyz.Base.{
  ℕ, ◌+◌, ◌-◌, ◌*◌, ◌/◌, ◌%◌, ◌<◌, ◌≡◌, refl, ap, Bool, ◌&&◌, Option, none, some, [], ◌∷◌, arith,
  Bytes, ltb, leb, nat_beq, if◌then◌else◌, length, All,
}

unfoldable pub hex_digit : ℕ → ℕ
hex_digit n = if ltb n 10 then n + 48 else n + 87

-- Both cases of letters are read.
unfoldable pub hex_value : ℕ → Option ℕ
hex_value c =
    if leb 48 c && leb c 57
    then some (c - 48)
    else if leb 97 c && leb c 102
    then some (c - 87)
    else if leb 65 c && leb c 70
    then some (c - 55)
    else none

unfoldable pub to_hex : Bytes → Bytes
to_hex [] = []
to_hex (b ∷ bs) = hex_digit (b / 16) ∷ hex_digit (b % 16) ∷ to_hex bs

hex_pair : Option ℕ → Option ℕ → Bytes → Bytes
hex_pair none lo rest = []
hex_pair (some h) none rest = []
hex_pair (some h) (some l) rest = (h * 16 + l) ∷ rest

-- Decoding stops at the first pair that is not two digits; an odd last digit is dropped.
unfoldable pub from_hex : Bytes → Bytes
unfolding hex_pair
from_hex [] = []
from_hex (a ∷ []) = []
from_hex (a ∷ b ∷ rest) = hex_pair (hex_value a) (hex_value b) (from_hex rest)

-- `s.startsWith("0x") ? s.slice(2) : s`
unfoldable pub strip_hex : Bytes → Bytes
strip_hex (a ∷ b ∷ rest) = if nat_beq a 48 && nat_beq b 120 then rest else a ∷ b ∷ rest
strip_hex (a ∷ []) = a ∷ []
strip_hex [] = []

abbrev pub zero_x : Bytes → Bytes
zero_x text = 48 ∷ 120 ∷ text

hex_value-hex_digit : (n : ℕ) → n < 16 → hex_value (hex_digit n) ≡ some n
unfolding hex_value hex_digit
hex_value-hex_digit n h = ground arith

pub from_hex-to_hex : (bs : Bytes) → All (λ b. b < 256) bs → from_hex (to_hex bs) ≡ bs
unfolding from_hex to_hex
from_hex-to_hex [] h = refl
from_hex-to_hex (b ∷ bs) h =
    rw (hex_value-hex_digit (b / 16) (omega arith), hex_value-hex_digit (b % 16) (omega arith))
      (rw (from_hex-to_hex bs h.1) (ap (λ x. x ∷ bs) (omega arith)))

pub length-to_hex : (bs : Bytes) → length (to_hex bs) ≡ 2 * length bs
unfolding to_hex
length-to_hex [] = omega arith
length-to_hex (b ∷ bs) = omega (arith, length-to_hex bs)

pub strip_hex-zero_x : (text : Bytes) → strip_hex (zero_x text) ≡ text
unfolding strip_hex
strip_hex-zero_x text = refl

hex_digit-ne-x : (n : ℕ) → n < 16 → nat_beq (hex_digit n) 120 ≡ Bool.false
unfolding hex_digit
hex_digit-ne-x n h = ground arith

-- The hex text of a buffer never begins with the prefix, so stripping twice is harmless.
pub strip_hex-to_hex : (bs : Bytes) → All (λ b. b < 256) bs → strip_hex (to_hex bs) ≡ to_hex bs
unfolding strip_hex to_hex
strip_hex-to_hex [] h = refl
strip_hex-to_hex (b ∷ bs) h = ground (arith, hex_digit-ne-x (b % 16) (omega arith))

-- `Buffer.from(stripHex(text), "hex")`
unfoldable pub hex_buffer : Bytes → Bytes
unfolding strip_hex from_hex
hex_buffer text = from_hex (strip_hex text)

pub hex_buffer-zero_x : (b : Bytes) → All (λ x. x < 256) b → hex_buffer (zero_x (to_hex b)) ≡ b
unfolding hex_buffer
hex_buffer-zero_x b h = rw (strip_hex-zero_x (to_hex b)) (from_hex-to_hex b h)

pub hex_buffer-to_hex : (b : Bytes) → All (λ x. x < 256) b → hex_buffer (to_hex b) ≡ b
unfolding hex_buffer
hex_buffer-to_hex b h = rw (strip_hex-to_hex b h) (from_hex-to_hex b h)
