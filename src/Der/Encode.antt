-- ===== src/Der/Encode.antt =====
-- `encInt` and the sequence around it (verify-sig.mjs).
use pillar_wallets_xyz.Base.{
  ◌%◌, [], ◌∷◌, ◌++◌, Bytes, bit_and, nat_beq, if◌then◌else◌, length, Bool, false, not,
}

-- `while (i < b.length - 1 && b[i] === 0) i++; b.subarray(i)`
unfoldable pub trim_zeros : Bytes → Bytes
trim_zeros [] = []
trim_zeros (x ∷ []) = x ∷ []
trim_zeros (x ∷ y ∷ rest) =
    let shorter = trim_zeros (y ∷ rest) in if nat_beq x 0 then shorter else x ∷ y ∷ rest

-- `trim[0] & 0x80`
unfoldable pub high_bit : Bytes → Bool
high_bit [] = false
high_bit (x ∷ rest) = not (nat_beq (bit_and x 0x80) 0)

unfoldable pub int_content : Bytes → Bytes
unfolding trim_zeros high_bit
int_content b = let trim = trim_zeros b in if high_bit trim then 0 ∷ trim else trim

-- `Buffer.from` keeps the low eight bits of each number.
unfoldable pub enc_int : Bytes → Bytes
enc_int b = 0x02 ∷ length (int_content b) % 256 ∷ int_content b

unfoldable pub sig_der : Bytes → Bytes → Bytes
sig_der r s = let seq = enc_int r ++ enc_int s in 0x30 ∷ length seq % 256 ∷ seq
