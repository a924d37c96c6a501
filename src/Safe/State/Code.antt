-- ===== src/Safe/State/Code.antt =====
-- The constants of juice-safe-v7.clar.
use pillar_wallets_xyz.Base.{ℕ, String, Bytes, [], ◌∷◌}

abbrev pub unauthorised : ℕ
unauthorised = 4001

abbrev pub invalid_signature : ℕ
invalid_signature = 4002

abbrev pub forbidden : ℕ
forbidden = 4003

abbrev pub unregistered_pubkey : ℕ
unregistered_pubkey = 4004

abbrev pub not_admin_pubkey : ℕ
not_admin_pubkey = 4005

abbrev pub signature_replay : ℕ
signature_replay = 4006

abbrev pub inactive_required : ℕ
inactive_required = 4009

abbrev pub no_pending_recovery : ℕ
no_pending_recovery = 4010

abbrev pub in_cooldown : ℕ
in_cooldown = 4012

abbrev pub invalid_operation : ℕ
invalid_operation = 4013

abbrev pub already_executed : ℕ
already_executed = 4014

abbrev pub vetoed : ℕ
vetoed = 4015

abbrev pub not_signaled : ℕ
not_signaled = 4016

abbrev pub cooldown_not_passed : ℕ
cooldown_not_passed = 4017

abbrev pub threshold_exceeded : ℕ
threshold_exceeded = 4018

abbrev pub cooldown_too_long : ℕ
cooldown_too_long = 4019

abbrev pub cooldown_too_short : ℕ
cooldown_too_short = 4031

abbrev pub no_pending_transfer : ℕ
no_pending_transfer = 4020

abbrev pub token_locked : ℕ
token_locked = 4023

abbrev pub zero_amount : ℕ
zero_amount = 4026

abbrev pub inactivity_period : ℕ
inactivity_period = 52560

abbrev pub max_gas_ceiling : ℕ
max_gas_ceiling = 10000

abbrev pub max_config_cooldown : ℕ
max_config_cooldown = 4032

abbrev pub min_cooldown : ℕ
min_cooldown = 144

abbrev pub num_cycles : ℕ
num_cycles = 96

abbrev pub gas_calls_per_period : ℕ
gas_calls_per_period = 25

abbrev pub sbtc_contract : String
sbtc_contract = "SM3VDXK3WZZSA84XXFKAFAF15NNZX32CTSG82JFQ4.sbtc-token"

abbrev pub fakfun_deployer : String
fakfun_deployer = "SP28MP1HQDJWQAFSQJN2HBAXBVP7H7THD1W2NYZVK"

abbrev pub juice_signer : String
juice_signer = "SPV9K21TBFAK4KNRJXF5DFP8N7W46G4V9RCJDC22.juice-pool-stx-signer"

abbrev pub pox5 : String
pox5 = "SP000000000000000000002Q6VF78.pox-5"

-- SHA-256 of "juiceofbtc.com".
abbrev pub rp_id_hash_juiceofbtc_com : Bytes
rp_id_hash_juiceofbtc_com =
    0x15 ∷ 0x16 ∷ 0xf9 ∷ 0xea ∷ 0x2a ∷ 0x21 ∷ 0xf9 ∷ 0x61 ∷ 0xd9 ∷ 0x91 ∷ 0x43 ∷ 0xee ∷ 0xdf ∷ 0x2a
    ∷ 0xee ∷ 0xab ∷ 0x86 ∷ 0xe3 ∷ 0x78 ∷ 0x4a ∷ 0x34 ∷ 0xa4 ∷ 0x01 ∷ 0xb0 ∷ 0x38 ∷ 0xbb ∷ 0x97
    ∷ 0xa7 ∷ 0x63 ∷ 0x1e ∷ 0x66 ∷ 0x8b ∷ []
