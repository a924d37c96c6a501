-- ===== src/Multiplex/Laws.antt =====
-- The forged splits always reconstruct, fit their buffers, and pass the verifier.
use pillar_wallets_xyz.Base.{
  ℕ, ◌<◌, ◌≤◌, ◌≡◌, refl, true, List, [], ◌∷◌, ◌++◌, arith, Bytes, length, All, append_assoc,
  le→leb, length-append, bytes_beq_iff, All-append,
}
use pillar_wallets_xyz.Base.Result.{returned}
use pillar_wallets_xyz.Clarity.Outcome.{ok}
use pillar_wallets_xyz.Encoding.Hex.{hex_buffer, hex_buffer-zero_x, zero_x, to_hex}
use pillar_wallets_xyz.Encoding.Base64.{base64url, length-base64url, base64url-bytes}
use pillar_wallets_xyz.Webauthn.Crypto.{Crypto, IsLawful}
use pillar_wallets_xyz.Webauthn.Verifier.{verify_webauthn_signature}
use pillar_wallets_xyz.Webauthn.Assertion.{split_verifies}
use pillar_wallets_xyz.Multiplex.{
  StxTransfer, Split, SplitHex, Multiplexed, json_prefix, json_suffix, filler,
  build_stx_transfer_hash, build_authenticator_data, challenge_string, client_data_of, split1,
  split2, split3, check_split, split_hex, multiplex_sign,
}

abbrev Reconstructs : Bytes → Bytes → Split → Type 0
Reconstructs client_data h s = s.prefix ++ (h ++ s.suffix) ≡ client_data

module _ (h1 h2 h3 : Bytes) where
  reconstructs1 : Reconstructs (client_data_of h1 h2 h3) h1 (split1 h1 h2 h3)
  unfolding client_data_of split1
  reconstructs1 = simp append_assoc

  reconstructs2 : Reconstructs (client_data_of h1 h2 h3) h2 (split2 h1 h2 h3)
  unfolding client_data_of split2
  reconstructs2 = simp append_assoc

  reconstructs3 : Reconstructs (client_data_of h1 h2 h3) h3 (split3 h1 h2 h3)
  unfolding client_data_of split3
  reconstructs3 = simp append_assoc

check_split-passes :
    (client_data : Bytes) (i : ℕ) (h : Bytes) (s : Split)
    → Reconstructs client_data h s
    → length s.prefix ≤ 128
    → length s.suffix ≤ 512
    → check_split client_data i h s ≡ returned tt
unfolding check_split
check_split-passes client_data i h s e hp hs = rw (
  (bytes_beq_iff (s.prefix ++ (h ++ s.suffix)) client_data).1 e,
  le→leb (length s.prefix) 128 hp,
  le→leb (length s.suffix) 512 hs,
)

-- Every listed hash passes the verifier with its split, under one signature and one
-- authenticator datum.
abbrev pub AllVerify : Crypto → Bytes → Bytes → Bytes → List Bytes → List SplitHex → Type 0
AllVerify c key auth sig [] [] = Unit
AllVerify c key auth sig [] (s ∷ splits) = ⊥
AllVerify c key auth sig (m ∷ ms) [] = ⊥
AllVerify c key auth sig (m ∷ ms) (s ∷ splits) =
    (verify_webauthn_signature c key m auth (hex_buffer s.prefix_hex) (hex_buffer s.suffix_hex) sig
      ≡ ok true)
    × AllVerify c key auth sig ms splits

module _ (h1 h2 h3 : Bytes) (l1 : length h1 ≡ 43) (l2 : length h2 ≡ 43) (l3 : length h3 ≡ 43) where
  length_of_splits :
      (length (split1 h1 h2 h3).prefix ≡ 36)
      × (length (split2 h1 h2 h3).prefix ≡ 80)
      × (length (split3 h1 h2 h3).prefix ≡ 124)
      × (length (split1 h1 h2 h3).suffix ≤ 512)
      × (length (split2 h1 h2 h3).suffix ≤ 512)
      × (length (split3 h1 h2 h3).suffix ≤ 512)
      × (length (challenge_string h1 h2 h3) ≡ 131)
  unfolding split1 split2 split3 challenge_string
  length_of_splits = omega (
    arith,
    length-append h1 filler,
    length-append h1 (filler ++ (h2 ++ filler)),
    length-append h2 filler,
    length-append h2 (filler ++ (h3 ++ json_suffix)),
    length-append h3 json_suffix,
    length-append h1 (filler ++ (h2 ++ (filler ++ h3))),
    length-append h2 (filler ++ h3),
  )

abbrev IsByte : ℕ → Type 0
IsByte x = x < 256

abbrev HasBytes : Split → Type 0
HasBytes s = All IsByte s.prefix × All IsByte s.suffix

module _ (h1 h2 h3 : Bytes) (b1 : All IsByte h1) (b2 : All IsByte h2) (b3 : All IsByte h3) where
  bytes_of_splits :
      HasBytes (split1 h1 h2 h3) × HasBytes (split2 h1 h2 h3) × HasBytes (split3 h1 h2 h3)
  unfolding split1 split2 split3
  bytes_of_splits = (
    (omega arith, (omega arith, All-append IsByte h2 _ b2 (omega arith, tail))),
    (
      All-append IsByte json_prefix _ (omega arith) (All-append IsByte h1 filler b1 (omega arith)),
      (omega arith, tail),
    ),
    (
      All-append IsByte json_prefix _ (omega arith)
          (All-append IsByte h1 _ b1 (omega arith, All-append IsByte h2 filler b2 (omega arith))),
      omega arith,
    ),
  )
    where
      tail : All IsByte (h3 ++ json_suffix)
      tail = All-append IsByte h3 json_suffix b3 (omega arith)

module _ (c : Crypto) (lawful : IsLawful c) where
  hash_length : (op : StxTransfer) → length (build_stx_transfer_hash c op) ≡ 32
  unfolding build_stx_transfer_hash
  hash_length op = lawful.sha256_length _

  hash_bytes : (op : StxTransfer) → All IsByte (build_stx_transfer_hash c op)
  unfolding build_stx_transfer_hash
  hash_bytes op = lawful.sha256_bytes _

  encoded_length : (op : StxTransfer) → length (base64url (build_stx_transfer_hash c op)) ≡ 43
  encoded_length op =
      length-base64url 10 (build_stx_transfer_hash c op) (hash_length op) (hash_bytes op)

  encoded_bytes : (op : StxTransfer) → All IsByte (base64url (build_stx_transfer_hash c op))
  encoded_bytes op = base64url-bytes (build_stx_transfer_hash c op) (hash_bytes op)

  auth_bytes : All IsByte (build_authenticator_data c)
  unfolding build_authenticator_data
  auth_bytes = All-append IsByte _ _ (lawful.sha256_bytes _) (omega arith)

  -- One split of the signed client data, once its fields are read back from hexadecimal.
  split_passes :
      (k client_data : Bytes) (op : StxTransfer) (s : Split)
      → Reconstructs client_data (base64url (build_stx_transfer_hash c op)) s
      → HasBytes s
      → verify_webauthn_signature c
          (c.public_key k)
          (build_stx_transfer_hash c op)
          (build_authenticator_data c)
          (hex_buffer (split_hex s).prefix_hex)
          (hex_buffer (split_hex s).suffix_hex)
          (c.sign (c.sha256 (build_authenticator_data c ++ c.sha256 client_data)) k)
        ≡ ok true
  split_passes k client_data op s e b =
      rw (hex_buffer-zero_x s.prefix b.0, hex_buffer-zero_x s.suffix b.1)
        (split_verifies c lawful k (build_authenticator_data c) client_data s.prefix
          (build_stx_transfer_hash c op) s.suffix (hash_length op) (hash_bytes op) e)

  -- For lawful cryptography, every key and every three transfers, multiplexSign passes its own
  -- checks and returns. Its challenge has 131 characters, its prefixes have 36, 80 and 124
  -- bytes, and the one signature verifies for all three operation hashes, each with its own
  -- split.
  pub multiplex_sign_authorises :
      (k : Bytes) (op1 op2 op3 : StxTransfer)
      → (out : Multiplexed) × (multiplex_sign c k op1 op2 op3 ≡ returned out)
        × (out.challenge_chars ≡ 131)
        × (out.prefix_lens ≡ 36 ∷ 80 ∷ 124 ∷ [])
        × (out.message_hashes
            ≡ build_stx_transfer_hash c op1
              ∷ build_stx_transfer_hash c op2
              ∷ build_stx_transfer_hash c op3
              ∷ [])
        × AllVerify c
            (c.public_key k)
            (hex_buffer out.authenticator_data_hex)
            (hex_buffer out.signature_hex)
            out.message_hashes
            out.splits
  multiplex_sign_authorises k op1 op2 op3 = (
    out,
    (unfold multiplex_sign in
        rw (
          check_split-passes client_data 1 h1 s1 (reconstructs1 h1 h2 h3) (omega (arith, lens.0))
              lens.3,
          check_split-passes client_data 2 h2 s2 (reconstructs2 h1 h2 h3) (omega (arith, lens.1))
              lens.4,
          check_split-passes client_data 3 h3 s3 (reconstructs3 h1 h2 h3) (omega (arith, lens.2))
              lens.5,
        )),
    lens.6,
    rw (lens.0, lens.1, lens.2),
    refl,
    rw
        (
          hex_buffer-zero_x (build_authenticator_data c) auth_bytes,
          hex_buffer-zero_x sig (lawful.sign_bytes _ k),
        )
        (
          split_passes k client_data op1 s1 (reconstructs1 h1 h2 h3) bytes.0,
          (
            split_passes k client_data op2 s2 (reconstructs2 h1 h2 h3) bytes.1,
            (split_passes k client_data op3 s3 (reconstructs3 h1 h2 h3) bytes.2, tt),
          ),
        ),
  )
    where
      h1 : Bytes
      h1 = base64url (build_stx_transfer_hash c op1)

      h2 : Bytes
      h2 = base64url (build_stx_transfer_hash c op2)

      h3 : Bytes
      h3 = base64url (build_stx_transfer_hash c op3)

      client_data : Bytes
      client_data = client_data_of h1 h2 h3

      sig : Bytes
      sig = c.sign (c.sha256 (build_authenticator_data c ++ c.sha256 client_data)) k

      s1 : Split
      s1 = split1 h1 h2 h3

      s2 : Split
      s2 = split2 h1 h2 h3

      s3 : Split
      s3 = split3 h1 h2 h3

      lens :
          (length s1.prefix ≡ 36)
          × (length s2.prefix ≡ 80)
          × (length s3.prefix ≡ 124)
          × (length s1.suffix ≤ 512)
          × (length s2.suffix ≤ 512)
          × (length s3.suffix ≤ 512)
          × (length (challenge_string h1 h2 h3) ≡ 131)
      lens =
          length_of_splits h1 h2 h3 (encoded_length op1) (encoded_length op2) (encoded_length op3)

      bytes : HasBytes s1 × HasBytes s2 × HasBytes s3
      bytes = bytes_of_splits h1 h2 h3 (encoded_bytes op1) (encoded_bytes op2) (encoded_bytes op3)

      out : Multiplexed
      out = record {
        message_hashes =
            build_stx_transfer_hash c op1
            ∷ build_stx_transfer_hash c op2
            ∷ build_stx_transfer_hash c op3
            ∷ [];
        signature_hex = zero_x (to_hex sig);
        authenticator_data_hex = zero_x (to_hex (build_authenticator_data c));
        splits = split_hex s1 ∷ split_hex s2 ∷ split_hex s3 ∷ [];
        challenge_chars = length (challenge_string h1 h2 h3);
        prefix_lens = length s1.prefix ∷ length s2.prefix ∷ length s3.prefix ∷ [];
        suffix_lens = length s1.suffix ∷ length s2.suffix ∷ length s3.suffix ∷ [];
      }
