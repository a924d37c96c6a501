-- ===== src/Simulation/Juice/Challenge.antt =====
-- The lifecycle scripts of the Juice safe: the topics, the challenges, and the signatures.
use pillar_wallets_xyz.Base.{ℕ, String, Bytes, ◌++◌}
use pillar_wallets_xyz.Base.Result.{Result, returned, ◌>>=◌}
use pillar_wallets_xyz.Clarity.Value.{Value, uint, buffer, ascii, tuple, end, field}
use pillar_wallets_xyz.Encoding.Hex.{hex_buffer}
use pillar_wallets_xyz.Sip018.{sip018_prefix, cv_sha256, wallet_domain_hash}
use pillar_wallets_xyz.Webauthn.Crypto.{Crypto}
use pillar_wallets_xyz.Webauthn.Signer.{
  Assertion, SignerError, sign_challenge_with_rp_id, generate_keypair,
}
use pillar_wallets_xyz.Simulation.Juice.Plan.{
  Keys, rp_id, stake_ustx, extend_cycles, gas_topup_ustx,
}

unfoldable pub t_stake : ℕ → ℕ → Value
t_stake auth_id amount_ustx = tuple (
    field "topic" (ascii "stake-stx-juice-pox5")
      (field "auth-id" (uint auth_id) (field "amount-ustx" (uint amount_ustx) end)))

unfoldable pub t_update_stake : ℕ → ℕ → ℕ → Value
t_update_stake auth_id amount_increase cycles_to_extend = tuple (
    field "topic" (ascii "update-stake-stx-juice") (
      field "auth-id" (uint auth_id) (
        field "amount-increase" (uint amount_increase)
          (field "cycles-to-extend" (uint cycles_to_extend) end))))

unfoldable pub t_execute_now : ℕ → ℕ → Value
t_execute_now auth_id op_id = tuple (
    field "topic" (ascii "execute-now")
      (field "auth-id" (uint auth_id) (field "op-id" (uint op_id) end)))

unfoldable pub t_unstake : ℕ → Value
t_unstake auth_id =
    tuple (field "topic" (ascii "unstake-stx-juice") (field "auth-id" (uint auth_id) end))

unfoldable pub sig_auth_tuple : ℕ → Bytes → Assertion → Value
sig_auth_tuple auth_id pub_key_hex signed = tuple (
    field "auth-id" (uint auth_id) (
      field "pubkey" (buffer (hex_buffer pub_key_hex)) (
        field "signature" (buffer (hex_buffer signed.signature_hex)) (
          field "authenticator-data" (buffer (hex_buffer signed.authenticator_data_hex)) (
            field "client-data-prefix" (buffer (hex_buffer signed.client_data_prefix_hex)) (
              field "client-data-suffix" (buffer (hex_buffer signed.client_data_suffix_hex))
                end))))))

module _ (c : Crypto) where
  unfoldable pub build_challenge : String → Value → Bytes
  build_challenge wallet topic_tuple =
      c.sha256 (sip018_prefix ++ (wallet_domain_hash c wallet ++ cv_sha256 c topic_tuple))

  -- The key pair, and the six signatures in the order of `main`.
  unfoldable pub sign_all : String → Bytes → Result SignerError Keys
  sign_all wallet secret =
      let key = generate_keypair c secret in
      let sign = λ (topic : Value).
        sign_challenge_with_rp_id c (build_challenge wallet topic) key.priv_key rp_id in
      (do
        stake ← sign (t_stake 1 stake_ustx)
        extend ← sign (t_update_stake 2 0 extend_cycles)
        unstake ← sign (t_unstake 3)
        gas_topup ← sign (t_update_stake 7 gas_topup_ustx 0)
        now_stx ← sign (t_execute_now 8 0)
        now_sbtc ← sign (t_execute_now 9 2)
        returned (record {
          pub_key_hex = key.pub_key_hex;
          stake = stake;
          extend = extend;
          unstake = unstake;
          gas_topup = gas_topup;
          now_stx = now_stx;
          now_sbtc = now_sbtc;
        }))
