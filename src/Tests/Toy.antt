-- ===== src/Tests/Toy.antt =====
-- A small lawful instance of the cryptography: a checksum for SHA-256, and signatures that carry
-- the checksum of the message and of the key.
use pillar_wallets_xyz.Base.{
  arith, ℕ, zero, suc, ◌+◌, ◌*◌, ◌/◌, ◌%◌, ◌<◌, ◌≡◌, refl, true, false, [], ◌∷◌, ◌++◌, Bytes,
  bytes_beq, bytes_eq, ==_refl, codes, length, drop, All, All-append, length-append, if◌then◌else◌,
  Bool-cases, inl, inr,
}
use pillar_wallets_xyz.Encoding.Hex.{to_hex, from_hex-to_hex}
use pillar_wallets_xyz.Clarity.Value.{
  Value, Fields, Values, list, empty, item, uint, bool, buffer, principal, ascii, none_value,
  some_value, tuple, end, field,
}
use pillar_wallets_xyz.Webauthn.Crypto.{Crypto, IsLawful, fak_fun_hash, fak_fun_hash-bytes}

abbrev checksum : ℕ → Bytes → ℕ
checksum acc [] = acc
checksum acc (x ∷ xs) = checksum ((acc * 257 + x + 1) % 2305843009213693951) xs

abbrev digits : ℕ → ℕ → Bytes
digits zero n = []
digits (suc k) n = n % 256 ∷ digits k (n / 256)

digits-length : (k n : ℕ) → length (digits k n) ≡ k
digits-length zero n = refl
digits-length (suc k) n = omega (arith, digits-length k (n / 256))

digits-bytes : (k n : ℕ) → All (λ x. x < 256) (digits k n)
digits-bytes zero n = tt
digits-bytes (suc k) n = (omega arith, digits-bytes k (n / 256))

abbrev sum32 : Bytes → Bytes
sum32 b = digits 32 (checksum 7 b)

abbrev toy_sha256 : Bytes → Bytes
toy_sha256 b = if bytes_beq b (codes "fak.fun") then fak_fun_hash else sum32 b

-- Any encoding will do.
unfoldable mutual
  pub encode : Value → Bytes
  encode (uint n) = 1 ∷ n % 256 ∷ n / 256 % 256 ∷ n / 65536 % 256 ∷ []
  encode (bool true) = 3 ∷ []
  encode (bool false) = 4 ∷ []
  encode (buffer b) = 2 ∷ b
  encode (principal p) = 5 ∷ codes p
  encode (ascii t) = 13 ∷ codes t
  encode none_value = 9 ∷ []
  encode (some_value v) = 10 ∷ encode v
  encode (tuple f) = 12 ∷ encode_fields f
  encode (list vs) = 11 ∷ encode_values vs

  pub encode_fields : Fields → Bytes
  encode_fields end = []
  encode_fields (field name v rest) = codes name ++ (encode v ++ encode_fields rest)

  pub encode_values : Values → Bytes
  encode_values empty = []
  encode_values (item v rest) = encode v ++ encode_values rest

abbrev low_bytes : Bytes → Bytes
low_bytes [] = []
low_bytes (x ∷ xs) = x % 256 ∷ low_bytes xs

low_bytes-bytes : (b : Bytes) → All (λ x. x < 256) (low_bytes b)
low_bytes-bytes [] = tt
low_bytes-bytes (x ∷ xs) = (omega arith, low_bytes-bytes xs)

abbrev pub toy : Crypto
toy = record {
  sha256 = toy_sha256;
  sign = λ d k. sum32 d ++ sum32 k;
  verify = λ d s p. bytes_beq s (sum32 d ++ drop 1 p);
  public_key = λ k. 2 ∷ sum32 k;
  public_key_uncompressed = λ k. 4 ∷ sum32 k;
  serialize_cv = λ v. to_hex (low_bytes (encode v));
  to_consensus_buff = λ v. low_bytes (encode v);
}

toy_sha256-length : (b : Bytes) → length (toy_sha256 b) ≡ 32
toy_sha256-length b = elim (Bool-cases (bytes_beq b (codes "fak.fun"))) [
  | inl same ↦ rw same fak_fun_hash-bytes.0
  | inr other ↦ rw other (digits-length 32 (checksum 7 b))
]

toy_sha256-bytes : (b : Bytes) → All (λ x. x < 256) (toy_sha256 b)
toy_sha256-bytes b = elim (Bool-cases (bytes_beq b (codes "fak.fun"))) [
  | inl same ↦ rw same fak_fun_hash-bytes.1
  | inr other ↦ rw other (digits-bytes 32 (checksum 7 b))
]

pub toy-IsLawful : IsLawful toy
toy-IsLawful = record {
  sha256_length = toy_sha256-length;
  sha256_bytes = toy_sha256-bytes;
  sign_length = λ d k. omega (
    arith,
    length-append (sum32 d) (sum32 k),
    digits-length 32 (checksum 7 d),
    digits-length 32 (checksum 7 k),
  );
  sign_bytes = λ d k.
      All-append (λ x. x < 256) (sum32 d) (sum32 k) (digits-bytes 32 (checksum 7 d))
        (digits-bytes 32 (checksum 7 k));
  sign_verifies = λ d k. ==_refl (sum32 d ++ sum32 k);
  key_length = λ k. omega (arith, digits-length 32 (checksum 7 k));
  key_bytes = λ k. (omega arith, digits-bytes 32 (checksum 7 k));
  same_serialisation = λ v. from_hex-to_hex (low_bytes (encode v)) (low_bytes-bytes (encode v));
  sha256_fak_fun = refl;
}
