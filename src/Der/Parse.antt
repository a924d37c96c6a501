-- ===== src/Der/Parse.antt =====
-- `derToRawSignature` (test-der-parse.mjs). Reading past the end gives `undefined`, which is
-- `none` here, and a slice stops at the end of the buffer.
use pillar_wallets_xyz.Base.{
  ℕ, ◌+◌, ◌-◌, Bool, false, true, ◌&&◌, Option, none, some, [], ◌++◌, Bytes, bit_and, nat_beq, leb,
  if◌then◌else◌, length, get_elem?, slice, replicate, drop,
}
use pillar_wallets_xyz.Base.Result.{Result, returned, thrown, ◌>>=◌, ◌>>◌}

pub data DerError : Type 0 where
  expected_sequence expected_r expected_s range_error : DerError

-- `der[i] === byte`
unfoldable pub byte_is : ℕ → Option ℕ → Bool
byte_is byte none = false
byte_is byte (some b) = nat_beq b byte

abbrev pub expect : Bool → DerError → Result DerError (Unit {0})
expect true e = returned tt
expect false e = thrown e

-- Where the first integer begins: a length byte with its high bit set counts the bytes that
-- follow it.
unfoldable pub content_offset : Option ℕ → ℕ
content_offset none = 2
content_offset (some b) = if nat_beq (bit_and b 0x80) 0 then 2 else 2 + bit_and b 0x7f

-- `if (r.length === 33 && r[0] === 0x00) r = r.slice(1)`
unfoldable pub drop_sign_byte : Bytes → Bytes
unfolding byte_is
drop_sign_byte r = if nat_beq (length r) 33 && byte_is 0 (get_elem? r 0) then drop 1 r else r

-- `r32.set(r, 32 - r.length)`, a RangeError where the offset is negative.
unfoldable pub set_right : Bytes → Result DerError Bytes
set_right r =
    if leb (length r) 32 then returned (replicate (32 - length r) 0 ++ r) else thrown range_error

-- The integer whose length byte was read; with none, `slice` has `NaN` for its end.
unfoldable pub integer_at : Bytes → ℕ → Option ℕ → Bytes
integer_at der start none = []
integer_at der start (some len) = slice der start (start + len)

unfoldable pub finish : Bytes → Bytes → Result DerError Bytes
unfolding drop_sign_byte set_right
finish r s = do
  r32 ← set_right (drop_sign_byte r)
  s32 ← set_right (drop_sign_byte s)
  returned (r32 ++ s32)

-- After R, whose content is `r` and ends at `offset`.
unfoldable pub parse_s : Bytes → Bytes → ℕ → Result DerError Bytes
unfolding byte_is integer_at finish
parse_s der r offset = do
  expect (byte_is 0x02 (get_elem? der offset)) expected_s
  finish r (integer_at der (offset + 2) (get_elem? der (offset + 1)))

-- With no length byte for R the offset is `NaN`, and the test for S fails.
unfoldable pub parse_r : Bytes → ℕ → Option ℕ → Result DerError Bytes
unfolding parse_s
parse_r der offset none = thrown expected_s
parse_r der offset (some r_len) =
    parse_s der (slice der (offset + 2) (offset + 2 + r_len)) (offset + 2 + r_len)

unfoldable pub der_to_raw_signature : Bytes → Result DerError Bytes
unfolding byte_is content_offset parse_r
der_to_raw_signature der = do
  expect (byte_is 0x30 (get_elem? der 0)) expected_sequence
  let offset = content_offset (get_elem? der 1)
  expect (byte_is 0x02 (get_elem? der offset)) expected_r
  parse_r der offset (get_elem? der (offset + 1))
