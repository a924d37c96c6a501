-- ===== src/Der/RoundTrip.antt =====
-- Parsing an encoded signature gives the two 32-byte halves back.
use pillar_wallets_xyz.Base.{
  ℕ, ◌+◌, ◌-◌, ◌%◌, ◌≤◌, ◌<◌, ◌≡◌, refl, ap, sym, ◌∙◌, zero, suc, false, true, [], ◌∷◌, ◌++◌, arith,
  Bytes, bit_and, nat_beq, nat_beq_iff, if◌then◌else◌, length, length-append, get_elem?, drop,
  replicate, take-append, drop-append, take_all, inl, inr, Bool-cases, get_elem?-drop, some, slice,
  drop-drop, le→leb,
}
use pillar_wallets_xyz.Base.Table.{all_below, all_below_sound}
use pillar_wallets_xyz.Base.Result.{returned}
use pillar_wallets_xyz.Der.Parse.{
  der_to_raw_signature, parse_r, parse_s, finish, set_right, drop_sign_byte,
}
use pillar_wallets_xyz.Der.Encode.{trim_zeros, high_bit, int_content, enc_int, sig_der}

-- Trimming removes leading zeros and nothing else.
trim_zeros_bounds :
    (b : Bytes) → 1 ≤ length b → (1 ≤ length (trim_zeros b)) × (length (trim_zeros b) ≤ length b)
unfolding trim_zeros
trim_zeros_bounds [] h = absurd (omega arith)
trim_zeros_bounds (x ∷ []) h = omega arith
trim_zeros_bounds (x ∷ y ∷ rest) h = ground (arith, trim_zeros_bounds (y ∷ rest) (omega arith))

replicate-suc_sub :
    (n m : ℕ) (xs : Bytes) → m ≤ n → replicate (suc n - m) 0 ++ xs ≡ 0 ∷ (replicate (n - m) 0 ++ xs)
replicate-suc_sub n m xs h =
    ap (λ k. replicate k 0 ++ xs) (let e : suc n - m ≡ suc (n - m) = omega arith in e)

trim_zeros-restores :
    (b : Bytes) → replicate (length b - length (trim_zeros b)) 0 ++ trim_zeros b ≡ b
unfolding trim_zeros
trim_zeros-restores [] = refl
trim_zeros-restores (x ∷ []) = refl
trim_zeros-restores (x ∷ y ∷ rest) = elim (Bool-cases (nat_beq x 0)) [
  | inl z ↦
      rw (z, (nat_beq_iff x 0).0 z)
        (rw
          (replicate-suc_sub (suc (length rest)) (length (trim_zeros (y ∷ rest))) _
            (trim_zeros_bounds (y ∷ rest) (omega arith)).1)
          (ap (◌∷◌ 0) (trim_zeros-restores (y ∷ rest))))
  | inr nz ↦
      rw nz (let e : suc (suc (length rest)) - suc (suc (length rest)) ≡ 0 = omega arith in rw e)
]

int_content_bounds :
    (b : Bytes) → length b ≡ 32 → (1 ≤ length (int_content b)) × (length (int_content b) ≤ 33)
unfolding int_content
int_content_bounds b h = ground (arith, trim_zeros_bounds b (omega arith))

replicate_snoc : (k : ℕ) (t : Bytes) → replicate k 0 ++ (0 ∷ t) ≡ replicate (suc k) 0 ++ t
replicate_snoc zero t = refl
replicate_snoc (suc k) t = ap (◌∷◌ 0) (replicate_snoc k t)

full_or_short :
    (t b : Bytes)
    → length t ≤ 32
    → replicate (32 - length t) 0 ++ t ≡ b
    → set_right (drop_sign_byte (0 ∷ t)) ≡ returned b
unfolding set_right drop_sign_byte
full_or_short t b h e = elim (Bool-cases (nat_beq (length (0 ∷ t)) 33)) [
  | inl full ↦ rw full (rw (le→leb (length t) 32 h) (ap returned e))
  | inr short ↦
      let below : length (0 ∷ t) ≤ 32 = ground arith in
      let one_less : suc (32 - length (0 ∷ t)) ≡ 32 - length t = omega arith in
      rw short (
        rw (le→leb (length (0 ∷ t)) 32 below) (
          ap returned
            (replicate_snoc (32 - length (0 ∷ t)) t ∙ ap (λ k. replicate k 0 ++ t) one_less ∙ e)))
]

-- Whatever the encoder did to the trimmed bytes `t` of an integer, the parser undoes.
content_restores :
    (t b : Bytes)
    → length t ≤ 32
    → replicate (32 - length t) 0 ++ t ≡ b
    → set_right (drop_sign_byte (if high_bit t then 0 ∷ t else t)) ≡ returned b
content_restores t b h e = elim (Bool-cases (high_bit t)) [
  | inl high ↦ rw high (full_or_short t b h e)
  | inr low ↦ rw low (
      unfold set_right drop_sign_byte in
      rw (not_full (length t) h) (rw (le→leb (length t) 32 h) (ap returned e)))
]
  where
    not_full : (n : ℕ) → n ≤ 32 → nat_beq n 33 ≡ false
    not_full n h = ground arith

int_content-restores :
    (b : Bytes) → length b ≡ 32 → set_right (drop_sign_byte (int_content b)) ≡ returned b
unfolding int_content
int_content-restores b h =
    content_restores (trim_zeros b) b (omega (arith, trim_zeros_bounds b))
      (rw (← h) (trim_zeros-restores b))

-- Reading the second integer where it stands.
parse_s-at :
    (der r cs : Bytes) (offset m : ℕ)
    → drop offset der ≡ 2 ∷ m ∷ cs
    → length cs ≡ m
    → parse_s der r offset ≡ finish r cs
unfolding parse_s
parse_s-at der r cs offset m at h = rw (
  (let p : get_elem? der offset ≡ some 2 =
        ap (get_elem? der) (omega arith)
        ∙ get_elem?-drop offset 0 der
        ∙ ap (λ d. get_elem? d 0) at in
      p),
  get_elem?-drop offset 1 der ∙ ap (λ d. get_elem? d 1) at,
  content,
)
  where
    content : slice der (offset + 2) (offset + 2 + m) ≡ cs
    content =
        let width : offset + 2 + m - (offset + 2) ≡ m = omega arith in
        rw (width, ← drop-drop offset 2 der, at) (take_all m cs (omega arith))

parse_r-at :
    (der cr cs : Bytes) (n m : ℕ)
    → drop 4 der ≡ cr ++ (2 ∷ m ∷ cs)
    → length cr ≡ n
    → length cs ≡ m
    → parse_r der 2 (some n) ≡ finish cr cs
unfolding parse_r
parse_r-at der cr cs n m at hr hs =
    let width : 4 + n - 4 ≡ n = omega arith in
    rw (width, at, take-append n cr (2 ∷ m ∷ cs) hr)
      (parse_s-at der cr cs (4 + n) m (sym (drop-drop 4 n der) ∙ rw at (drop-append n cr _ hr)) hs)

short_form_table : all_below 128 (λ b. nat_beq (bit_and b 0x80) 0) ≡ true
unfolding all_below
short_form_table = refl

-- The length byte of a 32-byte integer is not cut.
length_byte : (b : Bytes) → length b ≡ 32 → length (int_content b) ≡ length (int_content b) % 256
length_byte b h = omega (arith, int_content_bounds b h)

length-enc_int : (b : Bytes) → length b ≡ 32 → length (enc_int b) ≤ 35
unfolding enc_int
length-enc_int b h = omega (arith, int_content_bounds b h)

short_length :
    (r s : Bytes) → length r ≡ 32 → length s ≡ 32 → length (enc_int r ++ enc_int s) % 256 < 128
short_length r s hr hs =
    omega (arith, length-append (enc_int r) (enc_int s), length-enc_int r hr, length-enc_int s hs)

-- A raw signature of two 32-byte halves that is encoded as DER and parsed again is the raw
-- signature.
pub der_to_raw_signature-sig_der :
    (r s : Bytes)
    → length r ≡ 32
    → length s ≡ 32
    → der_to_raw_signature (sig_der r s) ≡ returned (r ++ s)
unfolding der_to_raw_signature sig_der
der_to_raw_signature-sig_der r s hr hs =
    rw (all_below_sound 128 _ (length seq % 256) short_form_table (short_length r s hr hs)) (
      unfold enc_int in
      parse_r-at (0x30 ∷ length seq % 256 ∷ seq) (int_content r) (int_content s)
        (length (int_content r) % 256) (length (int_content s) % 256) refl (length_byte r hr)
        (length_byte s hs)
      ∙ (unfold finish in rw (int_content-restores r hr, int_content-restores s hs)))
  where
    seq : Bytes
    seq = enc_int r ++ enc_int s
