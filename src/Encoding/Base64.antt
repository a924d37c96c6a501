-- ===== src/Encoding/Base64.antt =====
-- `base64url` of lib-webauthn-test-signer.mjs and verify-sig.mjs: Node's padded base64 with two
-- characters replaced and the trailing `=` signs removed.
pub mod Decode
use pillar_wallets_xyz.Base.{
  length, zero, suc, ℕ, ◌+◌, ◌-◌, ◌*◌, ◌/◌, ◌%◌, ◌<◌, ◌≡◌, refl, ap, Bool, false, true, ◌&&◌, List,
  [], ◌∷◌, map, arith, Bytes, All, ◌++◌, ltb, nat_beq, if◌then◌else◌,
}

-- The standard alphabet, A-Z a-z 0-9 + /
unfoldable pub base64_char : ℕ → ℕ
base64_char n =
    if ltb n 26
    then n + 65
    else if ltb n 52
    then n + 71
    else if ltb n 62
    then n - 4
    else if nat_beq n 62
    then b'+'
    else b'/'

-- `buf.toString("base64")`
unfoldable pub to_base64 : Bytes → Bytes
to_base64 [] = []
to_base64 (x ∷ []) = base64_char (x / 4) ∷ base64_char (x % 4 * 16) ∷ b'=' ∷ b'=' ∷ []
to_base64 (x ∷ y ∷ []) =
    base64_char (x / 4) ∷ base64_char (x % 4 * 16 + y / 16) ∷ base64_char (y % 16 * 4) ∷ b'=' ∷ []
to_base64 (x ∷ y ∷ z ∷ rest) =
    base64_char (x / 4)
    ∷ base64_char (x % 4 * 16 + y / 16)
    ∷ base64_char (y % 16 * 4 + z / 64)
    ∷ base64_char (z % 64)
    ∷ to_base64 rest

-- `.replace(/\+/g, "-").replace(/\//g, "_")`
unfoldable pub url_safe : ℕ → ℕ
url_safe c = if nat_beq c b'+' then b'-' else if nat_beq c b'/' then b'_' else c

is_empty : Bytes → Bool
is_empty [] = true
is_empty (c ∷ cs) = false

-- `.replace(/=+$/, "")`
unfoldable pub strip_padding : Bytes → Bytes
unfolding is_empty
strip_padding [] = []
strip_padding (c ∷ cs) =
    let rest = strip_padding cs in if nat_beq c b'=' && is_empty rest then [] else c ∷ rest

unfoldable pub base64url : Bytes → Bytes
base64url bytes = strip_padding (map url_safe (to_base64 bytes))

-- The character of six bits in the url-safe alphabet.
unfoldable pub url_char : ℕ → ℕ
url_char n = url_safe (base64_char n)

url_char-ne-padding : (n : ℕ) → n < 64 → nat_beq (url_char n) b'=' ≡ false
unfolding url_char url_safe base64_char
url_char-ne-padding n h = ground arith

pub strip_padding-url_char :
    (ns : List ℕ) (cs : Bytes)
    → All (λ n. n < 64) ns
    → strip_padding (map url_char ns ++ cs) ≡ map url_char ns ++ strip_padding cs
unfolding strip_padding
strip_padding-url_char [] cs h = refl
strip_padding-url_char (n ∷ ns) cs h =
    rw (url_char-ne-padding n h.0) (ap (◌∷◌ (url_char n)) (strip_padding-url_char ns cs h.1))

-- The six-bit digits of one, two and three bytes.
abbrev pub digits1 : ℕ → List ℕ
digits1 x = x / 4 ∷ x % 4 * 16 ∷ []

abbrev pub digits2 : ℕ → ℕ → List ℕ
digits2 x y = x / 4 ∷ (x % 4 * 16 + y / 16) ∷ y % 16 * 4 ∷ []

abbrev pub digits3 : ℕ → ℕ → ℕ → List ℕ
digits3 x y z = x / 4 ∷ (x % 4 * 16 + y / 16) ∷ (y % 16 * 4 + z / 64) ∷ z % 64 ∷ []

pub base64url-three :
    (x y z : ℕ) (rest : Bytes)
    → (x < 256) × (y < 256) × (z < 256)
    → base64url (x ∷ y ∷ z ∷ rest) ≡ map url_char (digits3 x y z) ++ base64url rest
unfolding base64url to_base64 url_char
base64url-three x y z rest h = strip_padding-url_char (digits3 x y z) _ (omega arith)

pub base64url-two :
    (x y : ℕ) → (x < 256) × (y < 256) → base64url (x ∷ y ∷ []) ≡ map url_char (digits2 x y)
unfolding base64url to_base64 url_char url_safe strip_padding
base64url-two x y h = strip_padding-url_char (digits2 x y) (b'=' ∷ []) (omega arith)

pub base64url-one : (x : ℕ) → x < 256 → base64url (x ∷ []) ≡ map url_char (digits1 x)
unfolding base64url to_base64 url_char url_safe strip_padding
base64url-one x h = strip_padding-url_char (digits1 x) (b'=' ∷ b'=' ∷ []) (omega arith)

-- 32 bytes make 43 characters.
pub length-base64url :
    (n : ℕ) (b : Bytes)
    → length b ≡ 3 * n + 2
    → All (λ x. x < 256) b
    → length (base64url b) ≡ 4 * n + 3
length-base64url n [] e h = absurd (omega arith)
length-base64url n (x ∷ []) e h = absurd (omega arith)
length-base64url n (x ∷ y ∷ []) e h =
    rw (base64url-two x y (h.0, h.1.0)) (let z : n ≡ 0 = omega arith in rw z)
length-base64url zero (x ∷ y ∷ z ∷ rest) e h = absurd (omega arith)
length-base64url (suc n) (x ∷ y ∷ z ∷ rest) e h =
    rw (base64url-three x y z rest (h.0, h.1.0, h.1.1.0))
      (omega (arith, length-base64url n rest (omega arith) h.1.1.1))

url_char-lt : (n : ℕ) → n < 64 → url_char n < 256
unfolding url_char url_safe base64_char
url_char-lt n h = ground arith

pub base64url-bytes : (b : Bytes) → All (λ x. x < 256) b → All (λ x. x < 256) (base64url b)
base64url-bytes [] h = unfold base64url to_base64 strip_padding in tt
base64url-bytes (x ∷ []) h =
    rw (base64url-one x h.0)
      (url_char-lt (x / 4) (omega arith), (url_char-lt (x % 4 * 16) (omega arith), tt))
base64url-bytes (x ∷ y ∷ []) h = rw (base64url-two x y (h.0, h.1.0)) (
  url_char-lt (x / 4) (omega arith),
  (url_char-lt (x % 4 * 16 + y / 16) (omega arith), (url_char-lt (y % 16 * 4) (omega arith), tt)),
)
base64url-bytes (x ∷ y ∷ z ∷ rest) h = rw (base64url-three x y z rest (h.0, h.1.0, h.1.1.0)) (
  url_char-lt (x / 4) (omega arith),
  (
    url_char-lt (x % 4 * 16 + y / 16) (omega arith),
    (
      url_char-lt (y % 16 * 4 + z / 64) (omega arith),
      (url_char-lt (z % 64) (omega arith), base64url-bytes rest h.1.1.1),
    ),
  ),
)
