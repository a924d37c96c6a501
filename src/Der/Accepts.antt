-- ===== src/Der/Accepts.antt =====
-- What the parser accepts, and what it then returns.
use pillar_wallets_xyz.Base.{
  ℕ, ◌+◌, ◌-◌, ◌≡◌, refl, true, arith, Bytes, nat_beq_iff, length, length-append, length-replicate,
  get_elem?, replicate, inl, inr, Bool-cases, Option, none, some, ap, leb, leb→le, slice,
}
use pillar_wallets_xyz.Base.Result.{returned, Ensures, Ensures->>=, Ensures_of, Ensures-mono}
use pillar_wallets_xyz.Der.Parse.{
  der_to_raw_signature, parse_r, parse_s, finish, set_right, drop_sign_byte, byte_is, integer_at,
  content_offset, DerError, expect, expected_sequence, expected_r, expected_s,
}

abbrev SecondTag : Bytes → ℕ → Bytes → Type 0
SecondTag der offset raw = (get_elem? der offset ≡ some 0x02) × (length raw ≡ 64)

abbrev HasLength : ℕ → Bytes → Type 0
HasLength n b = length b ≡ n

set_right-HasLength : (r : Bytes) → Ensures (HasLength 32) (set_right r)
unfolding set_right
set_right-HasLength r = elim (Bool-cases (leb (length r) 32)) [
  | inl fits ↦ rw fits (
      omega (
        arith,
        leb→le (length r) 32 fits,
        length-append (replicate (32 - length r) 0) r,
        length-replicate {A = ℕ} (32 - length r) 0,
      ))
  | inr long ↦ rw long tt
]

finish-HasLength : (r s : Bytes) → Ensures (HasLength 64) (finish r s)
unfolding finish
finish-HasLength r s =
    Ensures->>= (HasLength 32) (HasLength 64) (set_right (drop_sign_byte r)) _
      (set_right-HasLength (drop_sign_byte r))
      (λ r32 hr.
        Ensures->>= (HasLength 32) (HasLength 64) (set_right (drop_sign_byte s)) _
          (set_right-HasLength (drop_sign_byte s)) (λ s32 hs. omega (arith, length-append r32 s32)))

byte_is-eq : (byte : ℕ) (o : Option ℕ) → byte_is byte o ≡ true → o ≡ some byte
unfolding byte_is
byte_is-eq byte none h = cc
byte_is-eq byte (some b) h = ap some ((nat_beq_iff b byte).0 h)

-- The tags in front of the two integers, for content that begins at `start`.
pub record IsSignature (der : Bytes) (start : ℕ) : Type 0 where
  pub r_length : ℕ
  pub r_tag : get_elem? der start ≡ some 0x02
  pub r_size : get_elem? der (start + 1) ≡ some r_length
  pub s_tag : get_elem? der (start + 2 + r_length) ≡ some 0x02

-- A tag test that fails throws; one that passes found the tag.
expect-Ensures :
    (byte : ℕ) (o : Option ℕ) (e : DerError)
    → Ensures (λ _. o ≡ some byte) (expect (byte_is byte o) e)
expect-Ensures byte o e = elim (Bool-cases (byte_is byte o)) [
  | inl hit ↦ rw hit (byte_is-eq byte o hit)
  | inr miss ↦ rw miss tt
]

abbrev pub Accepted : Bytes → Bytes → Type 0
Accepted der raw =
    (get_elem? der 0 ≡ some 0x30)
    × IsSignature der (content_offset (get_elem? der 1))
    × (length raw ≡ 64)

parse_s-Ensures :
    (der r : Bytes) (offset : ℕ) → Ensures (SecondTag der offset) (parse_s der r offset)
unfolding parse_s
parse_s-Ensures der r offset =
    Ensures->>= (λ _. get_elem? der offset ≡ some 0x02) (SecondTag der offset) (expect _ expected_s)
      _ (expect-Ensures 0x02 (get_elem? der offset) expected_s)
      (λ _ tag.
        let content = integer_at der (offset + 2) (get_elem? der (offset + 1)) in
        Ensures-mono (HasLength 64) (SecondTag der offset) (finish r content)
          (λ raw len. (tag, len)) (finish-HasLength r content))

parse_r-Ensures :
    (der : Bytes) (offset : ℕ) (size : Option ℕ)
    → get_elem? der offset ≡ some 0x02
    → get_elem? der (offset + 1) ≡ size
    → Ensures (λ raw. IsSignature der offset × (length raw ≡ 64)) (parse_r der offset size)
unfolding parse_r
parse_r-Ensures der offset none tag e = tt
parse_r-Ensures der offset (some n) tag e =
    Ensures-mono (SecondTag der (offset + 2 + n)) _
      (parse_s der (slice der (offset + 2) (offset + 2 + n)) (offset + 2 + n))
      (λ raw h. (record { r_length = n; r_tag = tag; r_size = e; s_tag = h.0 }, h.1))
      (parse_s-Ensures der (slice der (offset + 2) (offset + 2 + n)) (offset + 2 + n))

der_to_raw_signature-Ensures : (der : Bytes) → Ensures (Accepted der) (der_to_raw_signature der)
unfolding der_to_raw_signature
der_to_raw_signature-Ensures der =
    Ensures->>= _ (Accepted der) (expect _ expected_sequence) _
      (expect-Ensures 0x30 (get_elem? der 0) expected_sequence)
      (λ _ outer.
        Ensures->>= _ (Accepted der) (expect _ expected_r) _
          (expect-Ensures 0x02 (get_elem? der offset) expected_r)
          (λ _ tag.
            Ensures-mono _ (Accepted der) (parse_r der offset (get_elem? der (offset + 1)))
              (λ raw h. (outer, h.0, h.1)) (parse_r-Ensures der offset _ tag refl)))
  where
    offset : ℕ
    offset = content_offset (get_elem? der 1)

-- A buffer that the parser accepts begins with the sequence tag 0x30, has the integer tag 0x02
-- where the content starts and again right behind the first integer, and the result has 64
-- bytes.
pub der_to_raw_signature-Accepted :
    (der raw : Bytes) → der_to_raw_signature der ≡ returned raw → Accepted der raw
der_to_raw_signature-Accepted der raw e =
    Ensures_of (Accepted der) (der_to_raw_signature der) (der_to_raw_signature-Ensures der) e
