-- ===== src/Webauthn/Anchored.antt =====
-- contracts/clarity-5-webauthn-v4.clar, where it differs from clarity-webauthn.clar: the encoded
-- challenge has to stand between the canonical prefix and the closing quote.
pub mod Laws
use pillar_wallets_xyz.Base.{
  ℕ, Bool, false, Option, some, none, ◌&&◌, Bytes, bytes_beq, codes, get_elem?, ◌==◌, nat_eq,
  if◌then◌else◌,
}
use pillar_wallets_xyz.Clarity.Outcome.{Outcome, ok}
use pillar_wallets_xyz.Webauthn.Crypto.{Crypto}
use pillar_wallets_xyz.Webauthn.Verifier

abbrev pub canonical_prefix : Bytes
canonical_prefix = codes "{\"type\":\"webauthn.get\",\"challenge\":\""

abbrev starts_with_quote : Option ℕ → Bool
starts_with_quote none = false
starts_with_quote (some b) = b == 0x22

unfoldable pub challenge_is_anchored : Bytes → Bytes → Bool
challenge_is_anchored prefix suffix =
    bytes_beq prefix canonical_prefix && starts_with_quote (get_elem? suffix 0)

-- `and` stops at a test that fails.
unfoldable pub verify_webauthn_signature :
    Crypto → Bytes → Bytes → Bytes → Bytes → Bytes → Bytes → Outcome Bool
unfolding challenge_is_anchored
verify_webauthn_signature c public_key challenge authenticator_data prefix suffix signature =
    if challenge_is_anchored prefix suffix
    then Verifier.verify_webauthn_signature c public_key challenge authenticator_data prefix suffix
        signature
    else ok false
