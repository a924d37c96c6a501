-- ===== src/Webauthn/Challenge.antt =====
-- `base64url-32` of clarity-webauthn.clar against `base64url` of the signer: the same text for
-- every 32-byte challenge, although one computes with bits and the other with padded groups.
use pillar_wallets_xyz.Base.{
  ℕ, ◌+◌, ◌*◌, ◌/◌, ◌%◌, ◌<◌, ◌≡◌, refl, ap, bit_and, bit_or, Bool, true, [], ◌∷◌, map, arith,
  Bytes, length, All, nat_beq, nat_beq_iff, ◌&&◌,
}
use pillar_wallets_xyz.Base.Table.{all_below, all_below_sound}
use pillar_wallets_xyz.Clarity.Outcome.{Outcome, ok}
use pillar_wallets_xyz.Encoding.Base64.{
  base64url, url_char, url_safe, base64_char, digits2, digits3, base64url-three, base64url-two,
}
use pillar_wallets_xyz.Webauthn.Verifier.{b64_char, byte_at, enc3, enc2, base64url_32}

is_code : ℕ → Outcome ℕ → Bool
is_code c (ok d) = nat_beq d c
is_code c (Outcome.err e) = Bool.false
is_code c Outcome.abort = Bool.false

is_code-eq : (c : ℕ) (o : Outcome ℕ) → is_code c o ≡ true → o ≡ ok c
unfolding is_code
is_code-eq c (ok d) h = ap ok ((nat_beq_iff d c).0 h)
is_code-eq c (Outcome.err e) h = cc
is_code-eq c Outcome.abort h = cc

alphabet_table : all_below 64 (λ n. is_code (url_char n) (b64_char n)) ≡ true
unfolding all_below is_code url_char url_safe base64_char b64_char
alphabet_table = refl

-- The constant alphabet of the contract is the url-safe one.
b64_char-eq-url_char : (n : ℕ) → n < 64 → b64_char n ≡ ok (url_char n)
b64_char-eq-url_char n h = is_code-eq _ _ (all_below_sound 64 _ n alphabet_table h)

low_bits_table :
    all_below 256 (λ b.
      nat_beq (bit_and b 3) (b % 4)
      && (nat_beq (bit_and b 15) (b % 16) && nat_beq (bit_and b 63) (b % 64)))
    ≡ true
unfolding all_below
low_bits_table = refl

low_bits :
    (b : ℕ) → b < 256 → (bit_and b 3 ≡ b % 4) × (bit_and b 15 ≡ b % 16) × (bit_and b 63 ≡ b % 64)
low_bits b h = ground (arith, all_below_sound 256 _ b low_bits_table h)

join_table :
    (all_below 4 (λ x. all_below 16 (λ y. nat_beq (bit_or (x * 16) y) (x * 16 + y))) ≡ true)
    × (all_below 16 (λ x. all_below 4 (λ y. nat_beq (bit_or (x * 4) y) (x * 4 + y))) ≡ true)
unfolding all_below
join_table = (refl, refl)

join16 : (x y : ℕ) → x < 4 → y < 16 → bit_or (x * 16) y ≡ x * 16 + y
join16 x y hx hy =
    (nat_beq_iff _ _).0 (all_below_sound 16 _ y (all_below_sound 4 _ x join_table.0 hx) hy)

join4 : (x y : ℕ) → x < 16 → y < 4 → bit_or (x * 4) y ≡ x * 4 + y
join4 x y hx hy =
    (nat_beq_iff _ _).0 (all_below_sound 4 _ y (all_below_sound 16 _ x join_table.1 hx) hy)

enc3-eq :
    (x y z : ℕ) → (x < 256) × (y < 256) × (z < 256) → enc3 x y z ≡ ok (map url_char (digits3 x y z))
unfolding enc3
enc3-eq x y z h = rw (
  (low_bits x h.0).0,
  (low_bits y h.1).1,
  (low_bits z h.2).2,
  join16 (x % 4) (y / 16) (omega arith) (omega arith),
  join4 (y % 16) (z / 64) (omega arith) (omega arith),
  b64_char-eq-url_char (x / 4) (omega arith),
  b64_char-eq-url_char (x % 4 * 16 + y / 16) (omega arith),
  b64_char-eq-url_char (y % 16 * 4 + z / 64) (omega arith),
  b64_char-eq-url_char (z % 64) (omega arith),
)

enc2-eq : (x y : ℕ) → (x < 256) × (y < 256) → enc2 x y ≡ ok (map url_char (digits2 x y))
unfolding enc2
enc2-eq x y h = rw (
  (low_bits x h.0).0,
  (low_bits y h.1).1,
  join16 (x % 4) (y / 16) (omega arith) (omega arith),
  b64_char-eq-url_char (x / 4) (omega arith),
  b64_char-eq-url_char (x % 4 * 16 + y / 16) (omega arith),
  b64_char-eq-url_char (y % 16 * 4) (omega arith),
)

-- The contract's encoder returns, on every buffer of 32 bytes, the text that the signer embeds
-- in its client data.
pub base64url_32-eq-base64url :
    (b : Bytes) → length b ≡ 32 → All (λ x. x < 256) b → base64url_32 b ≡ ok (base64url b)
unfolding base64url_32 byte_at
base64url_32-eq-base64url
      (x0 ∷ x1 ∷ x2 ∷ x3 ∷ x4 ∷ x5 ∷ x6 ∷ x7 ∷ x8 ∷ x9 ∷ x10 ∷ x11 ∷ x12 ∷ x13 ∷ x14 ∷ x15 ∷ x16
        ∷ x17 ∷ x18 ∷ x19 ∷ x20 ∷ x21 ∷ x22 ∷ x23 ∷ x24 ∷ x25 ∷ x26 ∷ x27 ∷ x28 ∷ x29 ∷ x30 ∷ x31
        ∷ [])
      e h =
    rw (
      enc3-eq x0 x1 x2 (omega arith),
      enc3-eq x3 x4 x5 (omega arith),
      enc3-eq x6 x7 x8 (omega arith),
      enc3-eq x9 x10 x11 (omega arith),
      enc3-eq x12 x13 x14 (omega arith),
      enc3-eq x15 x16 x17 (omega arith),
      enc3-eq x18 x19 x20 (omega arith),
      enc3-eq x21 x22 x23 (omega arith),
      enc3-eq x24 x25 x26 (omega arith),
      enc3-eq x27 x28 x29 (omega arith),
      enc2-eq x30 x31 (omega arith),
      base64url-three x0 x1 x2
          (x3 ∷ x4 ∷ x5 ∷ x6 ∷ x7 ∷ x8 ∷ x9 ∷ x10 ∷ x11 ∷ x12 ∷ x13 ∷ x14 ∷ x15 ∷ x16 ∷ x17 ∷ x18
            ∷ x19 ∷ x20 ∷ x21 ∷ x22 ∷ x23 ∷ x24 ∷ x25 ∷ x26 ∷ x27 ∷ x28 ∷ x29 ∷ x30 ∷ x31 ∷ [])
          (omega arith),
      base64url-three x3 x4 x5
          (x6 ∷ x7 ∷ x8 ∷ x9 ∷ x10 ∷ x11 ∷ x12 ∷ x13 ∷ x14 ∷ x15 ∷ x16 ∷ x17 ∷ x18 ∷ x19 ∷ x20 ∷ x21
            ∷ x22 ∷ x23 ∷ x24 ∷ x25 ∷ x26 ∷ x27 ∷ x28 ∷ x29 ∷ x30 ∷ x31 ∷ [])
          (omega arith),
      base64url-three x6 x7 x8
          (x9 ∷ x10 ∷ x11 ∷ x12 ∷ x13 ∷ x14 ∷ x15 ∷ x16 ∷ x17 ∷ x18 ∷ x19 ∷ x20 ∷ x21 ∷ x22 ∷ x23
            ∷ x24 ∷ x25 ∷ x26 ∷ x27 ∷ x28 ∷ x29 ∷ x30 ∷ x31 ∷ [])
          (omega arith),
      base64url-three x9 x10 x11
          (x12 ∷ x13 ∷ x14 ∷ x15 ∷ x16 ∷ x17 ∷ x18 ∷ x19 ∷ x20 ∷ x21 ∷ x22 ∷ x23 ∷ x24 ∷ x25 ∷ x26
            ∷ x27 ∷ x28 ∷ x29 ∷ x30 ∷ x31 ∷ [])
          (omega arith),
      base64url-three x12 x13 x14
          (x15 ∷ x16 ∷ x17 ∷ x18 ∷ x19 ∷ x20 ∷ x21 ∷ x22 ∷ x23 ∷ x24 ∷ x25 ∷ x26 ∷ x27 ∷ x28 ∷ x29
            ∷ x30 ∷ x31 ∷ [])
          (omega arith),
      base64url-three x15 x16 x17
          (x18 ∷ x19 ∷ x20 ∷ x21 ∷ x22 ∷ x23 ∷ x24 ∷ x25 ∷ x26 ∷ x27 ∷ x28 ∷ x29 ∷ x30 ∷ x31 ∷ [])
          (omega arith),
      base64url-three x18 x19 x20
          (x21 ∷ x22 ∷ x23 ∷ x24 ∷ x25 ∷ x26 ∷ x27 ∷ x28 ∷ x29 ∷ x30 ∷ x31 ∷ []) (omega arith),
      base64url-three x21 x22 x23 (x24 ∷ x25 ∷ x26 ∷ x27 ∷ x28 ∷ x29 ∷ x30 ∷ x31 ∷ [])
          (omega arith),
      base64url-three x24 x25 x26 (x27 ∷ x28 ∷ x29 ∷ x30 ∷ x31 ∷ []) (omega arith),
      base64url-three x27 x28 x29 (x30 ∷ x31 ∷ []) (omega arith),
      base64url-two x30 x31 (omega arith),
    )
base64url_32-eq-base64url _ e h = absurd (omega arith)
