-- ===== src/Lib.antt =====
-- Pillar wallets: the smart wallet that holds a user's funds (the Juice safe), the wager escrow, the
-- passkey signatures that both check, and the scripts that exercise them in a simulation of the chain.
--
-- The user signs SIP-018 hashes with a passkey (WebAuthn over P-256). The contracts rebuild the hash
-- and what the passkey signed. The safe contracts/juice-safe-v7.clar moves STX, sBTC and tokens,
-- stakes, and changes hands; a payment past its limits becomes a pending operation, which waits for
-- the cooldown and can be vetoed. In the escrow contracts/game-wager-v2.clar two players stake
-- SIP-010 tokens. The JavaScript side builds the same hashes, signs them with a test key, and runs the
-- contracts in a simulator.
--
-- Files and what they model:
-- - Encoding: hexadecimal and Base64 as Buffer encodes them, stripHex, base64url.
-- - Clarity: values (@stacks/transactions), the endings of a contract call, and calls that pass the
--   state on (Contract), with rules on what they leave alone (Contract/Keeps).
-- - Sip018: cvSha256, the domain of the smart wallets, and dump-sip018.mjs (Sip018/Dump).
-- - Webauthn: lib-webauthn-test-signer.mjs (Signer), contracts/clarity-webauthn.clar (Verifier) and
--   contracts/clarity-5-webauthn-v4.clar where it differs (Anchored).
-- - Der: derToRawSignature of test-der-parse.mjs (Parse), encInt (Encode) and tryOp (TryOp) of
--   verify-sig.mjs.
-- - Multiplex: multiplexSign and its hashes of simul-juice-safe-v6-webauthn-multiplex.js.
-- - Safe: contracts/juice-safe-v7.clar. State holds the data variables and maps, External the calls of
--   other contracts and their state, Hashes the builders of the auth-helper contracts, Signature the
--   authority of a caller, Spending the limits, Operations, Transfers, Execution, Config, Ownership
--   and Staking the public functions, and Entry all of them as values. Frame says what each leaves
--   alone; Reentry is about contracts that call the wallet back while it calls them; Queue is an
--   abstract view of the pending operations. Used is about the signatures that are spent, Limits
--   about what may leave at once, Delay about the cooldown, Handover about the transfer of the wallet.
-- - Wager: contracts/game-wager-v2.clar. State holds the data variables and maps, Hashes the
--   message hashes, Signature the checks of a signature, Escrow one function for each entry point.
--   Effects, Entry and Admin say what a call in `ok` has checked and changed; Owed and Accounting
--   follow the money; Step relates the states around a call.
-- - Simulation: simul-game-wager-v2.js (HappyPath), and its -cancel, -negative and -admin variants.
--   A script is the list of builder calls that it makes; Report holds its verdicts on the steps.
--   Simulation/Juice: the plans of simul-juice-safe-v1-lifecycle.js, -v2, -v4, -v6 and -v7, which are
--   one code at five wallets; the record Version holds what differs.
-- - Submit: the wrapped fetch of _chunked-submit.mjs, with the origin as a parameter.
-- - Tests: a toy instance of the cryptography, of the tokens and of the world around the safe, and
--   the theorems applied to it.
--
-- A buffer or a JavaScript string is the list of its bytes or code units. A Clarity `uint` is a
-- natural number, with the run-time abort at 2 ^ 128 and below 0 written out. A map is an
-- association list. A call ends in `ok` with its reply and the next state, in an error number, or in
-- an abort; the last two change nothing. What a public function of the safe replies in `ok` is left
-- out: it answers the unit. The loops recurse on their lists. Only the loop of Submit takes a number
-- of turns; one for each step is enough if no post fails. Calls back into the safe nest to any
-- given depth, at which one more aborts, as the call stack of the chain does at 64.
--
-- Parameters: SHA-256, P-256 and the serialisation of Clarity values (Webauthn/Crypto, with the laws
-- IsLawful), the tokens and wallets that the escrow calls (Wager/External, with the laws
-- IsSip010), every contract that the safe calls (Safe/External, without laws), and the origin of
-- Submit. The gas station of a call of the safe and the token of a transfer are named by its caller.
-- They may call other entry points of the safe back while they run, since Clarity refuses only a
-- function that is already on the call stack (README-v4-v14-sims.md runs such a station):
-- the parameter `chosen` acts on the wallet's variables too, and Safe/Reentry builds it from what a
-- contract does at each answer, nested to any depth. A theorem about single steps of the queue, the
-- limits or the handover has the hypothesis LeavesSafe, that they change nothing of the wallet. The
-- other contracts that the safe calls are fixed in its source and act on their own state, as do
-- the tokens of the escrow.
--
-- Not modelled: print events, log lines, the reports of the lifecycle scripts, reading the command
-- line and files, the network, the other wallet contracts and their simulations, and the test
-- drivers.
pub mod Base
pub mod Encoding
pub mod Clarity
pub mod Webauthn
pub mod Der
pub mod Sip018
pub mod Multiplex
pub mod Wager
pub mod Safe
pub mod Simulation
pub mod Submit
pub mod Tests
