-- ===== src/Simulation/Report.antt =====
-- How the scripts judge a step: `printStep` of the happy-path and cancel scripts, `evaluateStep`
-- of the negative and admin scripts.
use pillar_wallets_xyz.Base.{
  ℕ, ◌+◌, ◌-◌, ◌*◌, String, Bool, true, false, not, ◌&&◌, Option, none, some, List, [], ◌∷◌, ◌++◌,
  Bytes, bytes_beq, codes, length, take, drop, slice, nat_beq, if◌then◌else◌, ◌||◌, zero, suc,
}
use pillar_wallets_xyz.Base.Result.{Result, returned, thrown, ◌>>=◌}
use pillar_wallets_xyz.Encoding.Hex.{hex_value}
use pillar_wallets_xyz.Simulation.Builder.{
  StepResult, transaction_ok, transaction_err, eval_ok, eval_err, set_contract_code_ok,
  set_contract_code_err, advance_blocks, reads, no_result, ReadResult, read_ok, read_err,
}

pub record Line : Type 0 where
  pub result : Bytes
  pub error : Bytes

-- The `result` and `error` that `printStep` finds; `advances` tells whether the script knows
-- block advances, which only the cancel script does.
unfoldable pub step_line : Bool → StepResult → Line
step_line advances (transaction_ok res vm_error) = record { result = res; error = vm_error }
step_line advances (transaction_err e) = record { result = []; error = e }
step_line advances (eval_ok res) = record { result = res; error = [] }
step_line advances (eval_err e) = record { result = []; error = e }
step_line advances set_contract_code_ok = record { result = codes "(deployed)"; error = [] }
step_line advances (set_contract_code_err e) = record { result = []; error = e }
step_line true advance_blocks = record { result = codes "(advanced)"; error = [] }
step_line false advance_blocks = record { result = []; error = [] }
step_line advances (reads rs json) = record { result = take 300 json; error = [] }
step_line advances no_result = record { result = []; error = [] }

unfoldable pub is_blank : Bytes → Bool
is_blank [] = true
is_blank (c ∷ cs) = false

unfoldable pub status_of : Line → Bytes
unfolding is_blank
status_of line = if is_blank line.error then codes "OK" else codes "FAIL"

abbrev line_if : Bool → Bytes → List Bytes
line_if true text = text ∷ []
line_if false text = []

-- The lines that `printStep` prints.
unfoldable pub print_step : Bool → String → StepResult → List Bytes
unfolding step_line status_of is_blank
print_step advances label step =
    let line = step_line advances step in
    (codes "  [" ++ (status_of line ++ (codes "] " ++ codes label)))
    ∷ (line_if (not (is_blank line.result)) (codes "         " ++ take 200 line.result)
        ++ line_if (not (is_blank line.error)) (codes "         ERROR: " ++ line.error))

-- What a check expects: `{ label, kind, code }`.
pub data Expectation : Type 0 where
  ok_any ok_bool ok_game_id : Expectation
  err_code : ℕ → Expectation
  fees_are : ℕ → ℕ → Expectation
  config_is : ℕ → ℕ → Expectation

pub record Check : Type 0 where
  pub label : String
  pub kind : Expectation

-- `getResultHex`; an empty result counts as none.
unfoldable pub get_result_hex : StepResult → Option Bytes
get_result_hex (transaction_ok [] vm_error) = none
get_result_hex (transaction_ok (c ∷ cs) vm_error) = some (c ∷ cs)
get_result_hex set_contract_code_ok = some (codes "(deployed)")
get_result_hex other = none

-- `parseInt(text, 16)` on a text that may hold hexadecimal digits: the longest prefix of digits,
-- `none` (NaN) if there is no digit. White space and a sign do not occur.
unfoldable pub parse_digits : ℕ → Bytes → ℕ
parse_digits acc [] = acc
parse_digits acc (c ∷ cs) = elim (hex_value c) [
  | none ↦ acc
  | some d ↦ parse_digits (acc * 16 + d) cs
]

unfoldable pub parse_int16 : Bytes → Option ℕ
parse_int16 [] = none
parse_int16 (c ∷ cs) = elim (hex_value c) [ none ↦ none | some d ↦ some (parse_digits d cs) ]

unfoldable pub starts_with : Bytes → Bytes → Bool
starts_with [] text = true
starts_with (p ∷ ps) [] = false
starts_with (p ∷ ps) (c ∷ cs) = nat_beq p c && starts_with ps cs

-- `text.slice(-8)`
unfoldable pub last_eight : Bytes → Bytes
last_eight text = drop (length text - 8) text

abbrev is_number : ℕ → Option ℕ → Bool
is_number n none = false
is_number n (some m) = nat_beq m n

-- `/^0+$/`
unfoldable pub all_zero_digits : Bytes → Bool
all_zero_digits [] = true
all_zero_digits (c ∷ cs) = nat_beq c b'0' && all_zero_digits cs

-- The verdict on a hexadecimal result; the kinds that want reads fail here.
unfoldable pub judge_hex : Expectation → Bytes → Bool
unfolding starts_with parse_int16 parse_digits last_eight all_zero_digits is_blank
judge_hex ok_any res = bytes_beq res (codes "(deployed)") || starts_with (codes "07") res
judge_hex ok_bool res = bytes_beq res (codes "0703")
judge_hex ok_game_id res =
    starts_with (codes "0701") res && (not (is_blank (drop 4 res)) && all_zero_digits (drop 4 res))
judge_hex (err_code code) res =
    (starts_with (codes "0801") res && nat_beq (length res) 36)
    && is_number code (parse_int16 (last_eight (drop 4 res)))
judge_hex (fees_are f b) res = false
judge_hex (config_is f w) res = false

-- `parseUintAt(hex, 0)`: the low 32 bits of a serialised `uint`.
unfoldable pub parse_uint_at : Bytes → ℕ → Option ℕ
unfolding parse_int16 parse_digits
parse_uint_at hex offset =
    if bytes_beq (slice hex offset (offset + 2)) (codes "01")
    then parse_int16 (slice hex (offset + 2 + 24) (offset + 2 + 32))
    else none

abbrev read_text : List ReadResult → ℕ → Option Bytes
read_text [] i = none
read_text (read_ok t ∷ rs) zero = some t
read_text (read_err e ∷ rs) zero = none
read_text (r ∷ rs) (suc i) = read_text rs i

-- Reading a field of `undefined`.
pub data TypeError : Type 0 where
  type_error : TypeError

abbrev or_type_error {ℓ} : {A : Type ℓ} → Option A → Result TypeError A
or_type_error none = thrown type_error
or_type_error (some a) = returned a

-- The balance of `(get-balance ...)`, `(ok uN)`: its low 32 bits; another answer gives `null`.
unfoldable pub parse_ok_uint : Bytes → Option ℕ
unfolding starts_with parse_int16 parse_digits
parse_ok_uint hex = if starts_with (codes "0701") hex then parse_int16 (slice hex 28 36) else none

-- `evaluateReads`; a read that failed is `undefined`, and its use throws.
unfoldable pub evaluate_reads : Expectation → List ReadResult → Result TypeError Bool
unfolding parse_uint_at parse_ok_uint
evaluate_reads (fees_are fees balance) rs = do
  fees_hex ← or_type_error (read_text rs 0)
  bal_hex ← or_type_error (read_text rs 1)
  returned (is_number fees (parse_uint_at fees_hex 0) && is_number balance (parse_ok_uint bal_hex))
evaluate_reads (config_is fee_rate withdraw_fee_rate) rs = do
  oracle_hex ← or_type_error (read_text rs 0)
  fee_hex ← or_type_error (read_text rs 1)
  withdraw_hex ← or_type_error (read_text rs 2)
  returned (
      starts_with (codes "05") oracle_hex
      && (is_number fee_rate (parse_uint_at fee_hex 0)
          && is_number withdraw_fee_rate (parse_uint_at withdraw_hex 0)))
evaluate_reads other rs = returned false

abbrev judge_kind : Option Check → Bytes → Result TypeError Bool
judge_kind none res = thrown type_error
judge_kind (some check) res = returned (judge_hex check.kind res)

abbrev judge_found : Option Check → Option Bytes → Result TypeError Bool
judge_found check none = returned false
judge_found check (some res) = judge_kind check res

-- `evaluateStep` of the negative script. A step without a check fails if it has no result, and
-- throws otherwise.
unfoldable pub evaluate_step : Option Check → StepResult → Result TypeError Bool
unfolding get_result_hex judge_hex
evaluate_step check step = judge_found check (get_result_hex step)

abbrev wants_reads : Expectation → Bool
wants_reads (fees_are f b) = true
wants_reads (config_is f w) = true
wants_reads other = false

abbrev judge_reads : Expectation → StepResult → Result TypeError Bool
judge_reads kind (reads rs json) = evaluate_reads kind rs
judge_reads kind other = returned false

-- `evaluateStep` of the admin script, which reads `check.kind` first.
unfoldable pub evaluate_admin_step : Option Check → StepResult → Result TypeError Bool
unfolding evaluate_reads evaluate_step
evaluate_admin_step none step = thrown type_error
evaluate_admin_step (some check) step =
    if wants_reads check.kind then judge_reads check.kind step else evaluate_step (some check) step

pub record Tally : Type 0 where
  pub passes : ℕ
  pub fails : ℕ

abbrev pub count_verdict : Bool → Tally → Tally
count_verdict true t = record t { passes = t.passes + 1 }
count_verdict false t = record t { fails = t.fails + 1 }

-- The loop over `result.steps`: check `i` against step `i`; a throw ends it.
unfoldable pub tally_steps :
    (Option Check → StepResult → Result TypeError Bool)
    → List Check
    → List StepResult
    → Tally
    → Result TypeError Tally
tally_steps evaluate checks [] t = returned t
tally_steps evaluate [] (step ∷ steps) t = do
  verdict ← evaluate none step
  tally_steps evaluate [] steps (count_verdict verdict t)
tally_steps evaluate (check ∷ checks) (step ∷ steps) t = do
  verdict ← evaluate (some check) step
  tally_steps evaluate checks steps (count_verdict verdict t)
