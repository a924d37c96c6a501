-- ===== src/Wager/State/Code.antt =====
-- The constants of game-wager-v2.clar.
use pillar_wallets_xyz.Base.{ℕ, Bytes, [], ◌∷◌}
use pillar_wallets_xyz.Webauthn.Crypto.{fak_fun_hash}

abbrev pub not_oracle : ℕ
not_oracle = 7001

abbrev pub not_deployer : ℕ
not_deployer = 7002

abbrev pub invalid_signature : ℕ
invalid_signature = 7003

abbrev pub insufficient_balance : ℕ
insufficient_balance = 7004

abbrev pub game_not_found : ℕ
game_not_found = 7005

abbrev pub game_not_active : ℕ
game_not_active = 7006

abbrev pub game_not_expired : ℕ
game_not_expired = 7007

abbrev pub invalid_amount : ℕ
invalid_amount = 7009

abbrev pub signature_replay : ℕ
signature_replay = 7010

abbrev pub invalid_winner : ℕ
invalid_winner = 7011

abbrev pub same_player : ℕ
same_player = 7012

abbrev pub token_not_whitelisted : ℕ
token_not_whitelisted = 7013

abbrev pub game_timeout : ℕ
game_timeout = 144

-- SHA-256 of "fakfun.com" and of "fak.fun".
abbrev pub rp_id_hash_fakfun_com : Bytes
rp_id_hash_fakfun_com =
    0x5e ∷ 0x8b ∷ 0xa7 ∷ 0x0d ∷ 0x73 ∷ 0x4d ∷ 0x2b ∷ 0xd5 ∷ 0x7e ∷ 0x02 ∷ 0x25 ∷ 0xbf ∷ 0xd9 ∷ 0xa2
    ∷ 0x5f ∷ 0x2c ∷ 0x4d ∷ 0x70 ∷ 0xdb ∷ 0x36 ∷ 0xfa ∷ 0x11 ∷ 0x28 ∷ 0xe5 ∷ 0xee ∷ 0xb0 ∷ 0x0c
    ∷ 0xda ∷ 0xb7 ∷ 0xa1 ∷ 0xcc ∷ 0xdb ∷ []

abbrev pub rp_id_hash_fak_fun : Bytes
rp_id_hash_fak_fun = fak_fun_hash
