-- ===== src/Simulation/Juice/Plan.antt =====
-- The simul-juice-safe-v*-lifecycle.js scripts: their constants, and the plan that they hand to the
-- simulation. A plan entry is what `call`, `evalc` and the direct calls of the builder record.
use pillar_wallets_xyz.Base.{ℕ, String, Bytes, codes, List, [], ◌∷◌}
use pillar_wallets_xyz.Clarity.Value.{Value, Values, principal, empty, item}
use pillar_wallets_xyz.Webauthn.Signer.{Assertion}

-- What the versions of the script differ in.
pub record Version : Type 0 where
  pub wallet : String
  pub wallet_core : String
  pub reward_cycle : ℕ
  -- `u${REWARD_CYCLE}`, as three of the reads spell it out.
  pub cycle_text : String
  pub advance_blocks : ℕ
  pub verify_label : String
  pub advance_label : String
  pub recovery_arg : Value
  pub cooldown_args : List Value

-- `key` and the six signatures of `main`.
pub record Keys : Type 0 where
  pub pub_key_hex : Bytes
  pub stake : Assertion
  pub extend : Assertion
  pub unstake : Assertion
  pub gas_topup : Assertion
  pub now_stx : Assertion
  pub now_sbtc : Assertion

-- `/^\(ok/`, or the exact text.
pub data Expect : Type 0 where
  okre : Expect
  exactly : String → Expect

pub data Step : Type 0 where
  -- The label, the sender, the contract, the function, its arguments, what is expected.
  tx : String → String → String → String → List Value → Expect → Step
  -- The label, the code, the name that captures the answer, the contract.
  eval : String → Bytes → Bytes → String → Step
  -- The label, the sender, the recipient, the amount.
  fund : String → String → String → ℕ → Step
  -- The label, the Bitcoin blocks, the Stacks blocks for each.
  advance : String → ℕ → ℕ → Step

abbrev pub rp_id : Bytes
rp_id = codes "juiceofbtc.com"

abbrev pub deployer : String
deployer = "SPV9K21TBFAK4KNRJXF5DFP8N7W46G4V9RCJDC22"

abbrev pub fakfun_deployer : String
fakfun_deployer = "SP28MP1HQDJWQAFSQJN2HBAXBVP7H7THD1W2NYZVK"

abbrev pub owner : String
owner = "SP2C7BCAP2NH3EYWCCVHJ6K0DMZBXDFKQ56KR7QN2"

abbrev pub recovery : String
recovery = "SP3HXJJMJQ06GNAZ8XWDN1QM48JEDC6PP6W3YZPZJ"

abbrev pub random : String
random = "SP1MGH8BH1KRY49Z7EE5TY0JVKT6C3NT9RTVM8FND"

abbrev pub recipient : String
recipient = "SP22WH53NS94VR6N145ZX77BK4S0EWFBE41VW3Z6B"

abbrev pub relayer : String
relayer = "SP102V8P0F7JX67ARQ77WEA3D3CFB5XW39REDT0AM"

abbrev pub stx_whale : String
stx_whale = "SP9BP4PN74CNR5XT7CMAMBPA0GWC9HMB69HVVV51"

abbrev pub pox5 : String
pox5 = "SP000000000000000000002Q6VF78.pox-5"

abbrev pub signer : String
signer = "SPV9K21TBFAK4KNRJXF5DFP8N7W46G4V9RCJDC22.juice-pool-stx-signer"

abbrev pub sbtc_token : String
sbtc_token = "SM3VDXK3WZZSA84XXFKAFAF15NNZX32CTSG82JFQ4.sbtc-token"

abbrev pub sbtc_whale : String
sbtc_whale = "SP2C7BCAP2NH3EYWCCVHJ6K0DMZBXDFKQ56KR7QN2"

abbrev pub gas_station : String
gas_station = "SPV9K21TBFAK4KNRJXF5DFP8N7W46G4V9RCJDC22.gas-station"

abbrev pub wd_stx_under : ℕ
wd_stx_under = 50000000

abbrev pub wd_stx_over : ℕ
wd_stx_over = 400000000

abbrev pub wd_sbtc : ℕ
wd_sbtc = 1000

abbrev pub sbtc_big_fund : ℕ
sbtc_big_fund = 500000

abbrev pub wd_sbtc_over : ℕ
wd_sbtc_over = 150000

abbrev pub sbtc_fund : ℕ
sbtc_fund = 5000

abbrev pub gas_topup_ustx : ℕ
gas_topup_ustx = 50000000

abbrev pub reward_sats : ℕ
reward_sats = 2000000

abbrev pub fund_ustx : ℕ
fund_ustx = 2800000000

abbrev pub stake_ustx : ℕ
stake_ustx = 1000000000

abbrev pub topup_ustx : ℕ
topup_ustx = 200000000

abbrev pub extend_cycles : ℕ
extend_cycles = 1

abbrev pub stx_threshold : ℕ
stx_threshold = 100000000

abbrev pub sbtc_threshold : ℕ
sbtc_threshold = 100000

abbrev pub real_stakers : List String
real_stakers =
    "SP3TA7SMY7APYR9SFKDT0527NC0GWR84S3AHEM0NE" ∷ "SP3A4CP63QJB1R0EJR3TJ1PN16FC5HVJSPT77C8C0"
    ∷ "SP3TS3T9GSGFEDW7ZBJNFXMH6RY0AP7HNCQEE77DH" ∷ "SP3WAAYXPC6WZNEC7SHGR36D32RJPZVXRR1BG0QSY"
    ∷ "SP1JAG6TV2XRYFGJN7CAAN6Z3CEW2YMZWMHJAJV91" ∷ "SP389APB4DHZ836P4AE9RJW7EKEZAPV5NPDNG7N46"
    ∷ "SP18QG8A8943KY9S15M08AMAWWF58W9X1M90BRCSJ" ∷ "SP218F71JZ4R2ERQDKEBGA1FKVAQNZBM3HK7W8EA7" ∷ []

-- `list.map((p) => standardPrincipalCV(p))`
unfoldable pub principals : List String → Values
principals [] = empty
principals (p ∷ ps) = item (principal p) (principals ps)
