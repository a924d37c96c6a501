-- ===== src/Encoding/Base64/Decode.antt =====
-- A decoder for the url-safe alphabet. The repository has none: it is the specification that
-- shows `base64url` to lose nothing, so that two challenges never share an encoding.
use pillar_wallets_xyz.Base.{
  ◌∙◌, ℕ, ◌+◌, ◌-◌, ◌*◌, ◌/◌, ◌%◌, ◌<◌, ◌≡◌, refl, sym, ap, [], ◌∷◌, arith, Bytes, nat_beq,
  if◌then◌else◌, All, leb, ◌&&◌,
}
use pillar_wallets_xyz.Encoding.Base64.{
  base64url, url_char, url_safe, base64_char, to_base64, strip_padding, base64url-three,
  base64url-two, base64url-one,
}

-- The six bits of a character, and 64 for a character outside the url-safe alphabet.
url_value : ℕ → ℕ
url_value c =
    if leb b'A' c && leb c b'Z'
    then c - 65
    else if leb b'a' c && leb c b'z'
    then c - 71
    else if leb b'0' c && leb c b'9'
    then c + 4
    else if nat_beq c b'-'
    then 62
    else if nat_beq c b'_'
    then 63
    else 64

pub decode_url : Bytes → Bytes
decode_url [] = []
decode_url (a ∷ []) = []
decode_url (a ∷ b ∷ []) = (url_value a * 4 + url_value b / 16) ∷ []
decode_url (a ∷ b ∷ c ∷ []) =
    (url_value a * 4 + url_value b / 16) ∷ (url_value b % 16 * 16 + url_value c / 4) ∷ []
decode_url (a ∷ b ∷ c ∷ d ∷ rest) =
    (url_value a * 4 + url_value b / 16)
    ∷ (url_value b % 16 * 16 + url_value c / 4)
    ∷ (url_value c % 4 * 64 + url_value d)
    ∷ decode_url rest

url_value-url_char : (n : ℕ) → n < 64 → url_value (url_char n) ≡ n
unfolding url_value url_char url_safe base64_char
url_value-url_char n h = ground arith

-- Every buffer of bytes is the decoding of its unpadded URL-safe Base64 text, under a decoder that
-- knows the characters A-Z, a-z, 0-9, - and _ only.
pub decode_url-base64url : (b : Bytes) → All (λ x. x < 256) b → decode_url (base64url b) ≡ b
unfolding decode_url
decode_url-base64url [] h = unfold base64url to_base64 strip_padding in refl
decode_url-base64url (x ∷ []) h =
    rw
      (
        base64url-one x h.0,
        url_value-url_char (x / 4) (omega arith),
        url_value-url_char (x % 4 * 16) (omega arith),
      )
      (ground arith)
decode_url-base64url (x ∷ y ∷ []) h =
    rw
      (
        base64url-two x y (h.0, h.1.0),
        url_value-url_char (x / 4) (omega arith),
        url_value-url_char (x % 4 * 16 + y / 16) (omega arith),
        url_value-url_char (y % 16 * 4) (omega arith),
      )
      (ground arith)
decode_url-base64url (x ∷ y ∷ z ∷ rest) h =
    rw
      (
        base64url-three x y z rest (h.0, h.1.0, h.1.1.0),
        url_value-url_char (x / 4) (omega arith),
        url_value-url_char (x % 4 * 16 + y / 16) (omega arith),
        url_value-url_char (y % 16 * 4 + z / 64) (omega arith),
        url_value-url_char (z % 64) (omega arith),
        decode_url-base64url rest h.1.1.1,
      )
      (ground arith)

-- Two buffers of bytes with one encoding are the same buffer.
pub base64url-injective :
    (a b : Bytes) → All (λ x. x < 256) a → All (λ x. x < 256) b → base64url a ≡ base64url b → a ≡ b
base64url-injective a b ha hb e =
    sym (decode_url-base64url a ha) ∙ ap decode_url e ∙ decode_url-base64url b hb
