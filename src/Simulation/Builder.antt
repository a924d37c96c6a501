-- ===== src/Simulation/Builder.antt =====
-- The calls that a script makes on `SimulationBuilder`, in order, and the step results that
-- `getSimulationResult` hands back. The service between them is not modelled.
use pillar_wallets_xyz.Base.{ℕ, String, Bytes, List}
use pillar_wallets_xyz.Clarity.Value.{Value}

pub data ClarityVersion : Type 0 where
  clarity5 : ClarityVersion

pub data PostConditionMode : Type 0 where
  allow deny : PostConditionMode

-- The code of a read is a text that may hold a key in hexadecimal.
pub data Read : Type 0 where
  data_var : String → String → Read
  eval_readonly : String → String → String → Bytes → Read

pub data BuilderCall : Type 0 where
  with_sender : String → BuilderCall
  add_contract_deploy : String → String → ClarityVersion → BuilderCall
  add_contract_call : String → String → List Value → PostConditionMode → BuilderCall
  add_advance_blocks : ℕ → ℕ → BuilderCall
  add_reads : List Read → BuilderCall

pub data ReadResult : Type 0 where
  read_ok : Bytes → ReadResult
  read_err : Bytes → ReadResult

-- `step.Result`; an absent field of `Transaction.Ok` is the empty text. A block of reads comes
-- with its `JSON.stringify`.
pub data StepResult : Type 0 where
  transaction_ok : Bytes → Bytes → StepResult
  transaction_err : Bytes → StepResult
  eval_ok eval_err : Bytes → StepResult
  set_contract_code_ok : StepResult
  set_contract_code_err : Bytes → StepResult
  advance_blocks : StepResult
  reads : List ReadResult → Bytes → StepResult
  no_result : StepResult
